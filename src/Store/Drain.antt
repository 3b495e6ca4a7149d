-- ===== src/Store/Drain.antt =====
-- What internal/store/store.go does with the accepted calls once it is closed.
use proxy_gateway.Prelude.{
  ℕ, zero, suc, ◌≡◌, refl, sym, ap, ◌∙◌, true, false, not, ◌&&◌, List, [], ◌∷◌, ◌++◌, arith, leb,
  length, if_cases, list_cases,
}
use mathlib.Core.List.{append-nil}
use proxy_gateway.Store.{
  Call, Row, Tx, Store, Event, drains, finishes, closes_flag, closes_channel, open_store, flush,
  receive, step, run,
}
use proxy_gateway.Store.Fifo.{
  join, IsFifo, accepts_all, receive-IsFifo, flush_now-IsFifo, run_open-IsFifo,
}

-- The loop that drains a channel of `n` calls: it takes them one by one, flushes what is left, and
-- returns.
unfoldable pub drain_loop : Tx → ℕ → ℕ → List Event
drain_loop tx now zero = finishes tx now ∷ []
drain_loop tx now (suc n) = drains tx now ∷ drain_loop tx now n

-- The worker has returned, and the batches hold the calls.
pub record IsDrained (s : Store) (accepted : List Call) : Type 0 where
  pub returned : s.stopped ≡ true
  pub emptied : s.chan ≡ []
  pub stored : join s.flushed ≡ accepted

flush_keeps :
    (tx : Tx) (now : ℕ) (s : Store)
    → ((flush tx now s).closing ≡ s.closing)
      × ((flush tx now s).stopped ≡ s.stopped)
      × ((flush tx now s).chan ≡ s.chan)
      × ((flush tx now s).buf ≡ [])
unfolding flush
flush_keeps tx now s =
    list_cases
      (λ (t : Store).
        (t.closing ≡ s.closing) × (t.stopped ≡ s.stopped) × (t.chan ≡ s.chan) × (t.buf ≡ []))
      s.buf (λ e. (refl, refl, refl, e)) (λ c cs e. (refl, refl, refl, refl))

receive_keeps :
    (tx : Tx) (now : ℕ) (s : Store) (n : ℕ)
    → length s.chan ≡ suc n
    → ((receive tx now s).closing ≡ s.closing)
      × ((receive tx now s).stopped ≡ s.stopped)
      × (length (receive tx now s).chan ≡ n)
unfolding receive
receive_keeps tx now s n l =
    list_cases Kept s.chan (λ e. absurd (omega (arith, l, ap length e)))
      (λ c cs e.
        let t = record s { chan = cs; buf = s.buf ++ c ∷ [] } in
        let m : length cs ≡ n = omega (arith, l, ap length e) in
        if_cases Kept (leb s.batch (length (s.buf ++ c ∷ [])))
          (λ _. let (a, b, d, _) = flush_keeps tx now t in (a, b, ap length d ∙ m))
          (λ _. (refl, refl, m)))
  where
    Kept : Store → Type 0
    Kept t = (t.closing ≡ s.closing) × (t.stopped ≡ s.stopped) × (length t.chan ≡ n)

flush-IsDrained :
    (tx : Tx) (now : ℕ) (s : Store) (xs : List Call)
    → s.chan ≡ []
    → IsFifo s xs
    → IsDrained (record (flush tx now s) { stopped = true }) xs
flush-IsDrained tx now s xs e f =
    let (_, _, d, b) = flush_keeps tx now s in
    let t = flush tx now s in
    let o : (join t.flushed ++ t.buf) ++ t.chan ≡ xs = (flush_now-IsFifo tx now s xs f).order in
    record {
      returned = refl;
      emptied = d ∙ e;
      stored =
          sym (append-nil (join t.flushed))
          ∙ sym (append-nil (join t.flushed ++ []))
          ∙ ap (λ u. (join t.flushed ++ u) ++ []) (sym b)
          ∙ ap (λ u. (join t.flushed ++ t.buf) ++ u) (sym (d ∙ e))
          ∙ o;
    }

drain_loop-IsDrained :
    (n : ℕ) (tx : Tx) (now : ℕ) (s : Store) (xs : List Call)
    → s.closing ≡ true
    → s.stopped ≡ false
    → length s.chan ≡ n
    → IsFifo s xs
    → IsDrained (run s (drain_loop tx now n)) xs
unfolding drain_loop run step
drain_loop-IsDrained zero tx now s xs c p l f =
    if_cases (λ t. IsDrained t xs) (s.closing && not s.stopped)
      (λ _.
        list_cases (λ t. IsDrained t xs) s.chan (λ e. flush-IsDrained tx now s xs e f)
          (λ y ys e. absurd (omega (arith, l, ap length e))))
      (λ q. absurd (ground (arith, c, p, q)))
drain_loop-IsDrained (suc n) tx now s xs c p l f =
    if_cases (λ t. IsDrained (run t (drain_loop tx now n)) xs) (s.closing && not s.stopped)
      (λ _.
        let (a, b, m) = receive_keeps tx now s n l in
        drain_loop-IsDrained n tx now (receive tx now s) xs (a ∙ c) (b ∙ p) m
          (receive-IsFifo tx now s xs f))
      (λ q. absurd (ground (arith, c, p, q)))

close_steps :
    (s : Store)
    → step (step s closes_flag) closes_channel ≡ record s { closed = true; closing = true }
unfolding step
close_steps s = refl

-- The worker has returned, and no batch has come since.
abbrev IsSettled : Store → Store → Type 0
IsSettled s t = (t.stopped ≡ true) × (t.flushed ≡ s.flushed)

-- `Close` at any moment of a history in which the worker has not returned: when the worker then goes
-- through its draining loop and no call of `Record` sends meanwhile, the loop ends after as many
-- rounds as there are calls in the channel, the worker returns, and the batches given to the database
-- are all the calls accepted before, in their order and each once.
pub close-IsDrained :
    (tx : Tx) (now size : ℕ) (rows : List Row) (es : List Event)
    → (run (open_store size rows) es).stopped ≡ false
    → IsDrained
        (run
          (step (step (run (open_store size rows) es) closes_flag) closes_channel)
          (drain_loop tx now (length (run (open_store size rows) es).chan)))
        (accepts_all (open_store size rows) es)
close-IsDrained tx now size rows es p =
    let s = run (open_store size rows) es in
    let xs = accepts_all (open_store size rows) es in
    let f = run_open-IsFifo size rows es in
    let t = record s { closed = true; closing = true } in
    rw (close_steps s) (
      drain_loop-IsDrained (length s.chan) tx now t xs refl p refl
        (record { order = f.order; small = f.small; within = f.within }))
