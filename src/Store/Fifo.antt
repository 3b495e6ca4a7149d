-- ===== src/Store/Fifo.antt =====
-- What internal/store/store.go does with the calls that reach its channel.
use proxy_gateway.Prelude.{
  ◌&&◌, not, keep, ℕ, ◌≤◌, ◌<◌, ◌≡◌, refl, sym, ap, ◌∙◌, true, List, [], ◌∷◌, ◌++◌, arith, ltb, leb,
  length, length-append, if_cases, list_cases,
}
use mathlib.Core.List.{append_assoc, append-nil}
use proxy_gateway.Store.{
  Call, Row, Tx, Store, Event, looks, sends, closes_flag, closes_channel, receives, ticks, prunes,
  drains, finishes, capacity, open_store, flush, receive, prune, send, step, run,
}

-- The batches in one list.
unfoldable pub join : List (List Call) → List Call
join [] = []
join (b ∷ bs) = b ++ join bs

-- The calls that have been accepted are, in their order, those given to the database, those in the
-- buffer and those in the channel. The buffer is smaller than a batch, the channel within its
-- capacity.
pub record IsFifo (s : Store) (accepted : List Call) : Type 0 where
  pub order : (join s.flushed ++ s.buf) ++ s.chan ≡ accepted
  pub small : length s.buf < s.batch
  pub within : length s.chan ≤ capacity

-- The calls that a step sends into the channel.
unfoldable pub accepts : Store → Event → List Call
accepts s sends = (send s).1
accepts s _ = []

unfoldable pub accepts_all : Store → List Event → List Call
accepts_all s [] = []
accepts_all s (e ∷ es) = accepts s e ++ accepts_all (step s e) es

join-append : (bs : List (List Call)) (b : List Call) → join (bs ++ b ∷ []) ≡ join bs ++ b
unfolding join
join-append [] b = append-nil b
join-append (c ∷ bs) b = ap (λ x. c ++ x) (join-append bs b) ∙ sym (append_assoc c (join bs) b)

flush-IsFifo :
    (tx : Tx) (now : ℕ) (s : Store) (xs : List Call)
    → (join s.flushed ++ s.buf) ++ s.chan ≡ xs
    → 0 < s.batch
    → length s.chan ≤ capacity
    → IsFifo (flush tx now s) xs
unfolding flush
flush-IsFifo tx now s xs o pos w =
    list_cases (λ t. IsFifo t xs) s.buf
      (λ e. record { order = o; small = rw (ap length e) pos; within = w })
      (λ c cs e. record {
        order =
            ap (λ b. (b ++ []) ++ s.chan) (join-append s.flushed (c ∷ cs))
            ∙ ap (λ b. b ++ s.chan) (append-nil (join s.flushed ++ (c ∷ cs)))
            ∙ ap (λ b. (join s.flushed ++ b) ++ s.chan) (sym e)
            ∙ o;
        small = pos;
        within = w;
      })

pub receive-IsFifo :
    (tx : Tx) (now : ℕ) (s : Store) (xs : List Call) → IsFifo s xs → IsFifo (receive tx now s) xs
unfolding receive
receive-IsFifo tx now s xs f =
    list_cases (λ t. IsFifo t xs) s.chan (λ e. f)
      (λ c cs e.
        let t = record s { chan = cs; buf = s.buf ++ c ∷ [] } in
        let o : (join s.flushed ++ (s.buf ++ c ∷ [])) ++ cs ≡ xs =
          ap (λ b. b ++ cs) (sym (append_assoc (join s.flushed) s.buf (c ∷ [])))
          ∙ append_assoc (join s.flushed ++ s.buf) (c ∷ []) cs
          ∙ ap (λ b. (join s.flushed ++ s.buf) ++ b) (sym e)
          ∙ f.order in
        let w : length cs ≤ capacity = omega (arith, ap length e, f.within) in
        if_cases (λ u. IsFifo u xs) (leb s.batch (length (s.buf ++ c ∷ [])))
          (λ full. flush-IsFifo tx now t xs o (omega (arith, f.small)) w)
          (λ more. record { order = o; small = ground arith; within = w }))

send-IsFifo : (s : Store) (xs : List Call) → IsFifo s xs → IsFifo (send s).0 (xs ++ (send s).1)
unfolding send
send-IsFifo s xs f =
    list_cases Kept s.senders (λ e. none_sent f)
      (λ c cs e.
        if_cases Kept (ltb (length s.chan) capacity)
          (λ free. record {
            order =
                sym (append_assoc (join s.flushed ++ s.buf) s.chan (c ∷ []))
                ∙ ap (λ b. b ++ c ∷ []) f.order;
            small = f.small;
            within =
                let room : length s.chan < capacity = ground arith in
                omega (arith, length-append s.chan (c ∷ []), room);
          })
          (λ full. none_sent (record { order = f.order; small = f.small; within = f.within })))
  where
    Kept : Store × List Call → Type 0
    Kept out = IsFifo out.0 (xs ++ out.1)

    none_sent : {t : Store} → IsFifo t xs → IsFifo t (xs ++ [])
    none_sent {t} g = rw (append-nil xs) g

-- A field that the invariant does not read may change.
same-IsFifo :
    (s t : Store) (xs : List Call)
    → s.flushed ≡ t.flushed
    → s.buf ≡ t.buf
    → s.chan ≡ t.chan
    → s.batch ≡ t.batch
    → IsFifo s xs
    → IsFifo t (xs ++ [])
same-IsFifo s t xs a b c d f = rw (append-nil xs) (record {
  order = rw (← a, ← b, ← c) f.order;
  small = rw (← b, ← d) f.small;
  within = rw (← c) f.within;
})

none_sent : (s : Store) (xs : List Call) → IsFifo s xs → IsFifo s (xs ++ [])
none_sent s xs f = rw (append-nil xs) f

pub flush_now-IsFifo :
    (tx : Tx) (now : ℕ) (s : Store) (xs : List Call) → IsFifo s xs → IsFifo (flush tx now s) xs
flush_now-IsFifo tx now s xs f = flush-IsFifo tx now s xs f.order (omega (arith, f.small)) f.within

step-IsFifo :
    (e : Event) (s : Store) (xs : List Call) → IsFifo s xs → IsFifo (step s e) (xs ++ accepts s e)
unfolding step accepts prune
step-IsFifo sends s xs f = send-IsFifo s xs f
step-IsFifo (looks c) s xs f =
    if_cases (λ t. IsFifo t (xs ++ [])) s.closed (λ _. none_sent s xs f)
      (λ _. same-IsFifo s (record s { senders = s.senders ++ c ∷ [] }) xs refl refl refl refl f)
step-IsFifo closes_flag s xs f = same-IsFifo s (record s { closed = true }) xs refl refl refl refl f
step-IsFifo closes_channel s xs f =
    if_cases (λ t. IsFifo t (xs ++ [])) s.closed
      (λ _. same-IsFifo s (record s { closing = true }) xs refl refl refl refl f)
      (λ _. none_sent s xs f)
step-IsFifo (receives tx now) s xs f =
    if_cases (λ t. IsFifo t (xs ++ [])) s.stopped (λ _. none_sent s xs f)
      (λ _. none_sent (receive tx now s) xs (receive-IsFifo tx now s xs f))
step-IsFifo (ticks tx now) s xs f =
    if_cases (λ t. IsFifo t (xs ++ [])) s.stopped (λ _. none_sent s xs f)
      (λ _. none_sent (flush tx now s) xs (flush_now-IsFifo tx now s xs f))
step-IsFifo (prunes done cutoff) s xs f =
    if_cases (λ t. IsFifo t (xs ++ [])) s.stopped (λ _. none_sent s xs f)
      (λ _.
        if_cases (λ t. IsFifo t (xs ++ [])) done
          (λ _.
            same-IsFifo s (record s { rows = keep (λ (r : Row). leb cutoff r.ts) s.rows }) xs refl
              refl refl refl f)
          (λ _. none_sent s xs f))
step-IsFifo (drains tx now) s xs f =
    if_cases (λ t. IsFifo t (xs ++ [])) (s.closing && not s.stopped)
      (λ _. none_sent (receive tx now s) xs (receive-IsFifo tx now s xs f)) (λ _. none_sent s xs f)
step-IsFifo (finishes tx now) s xs f =
    if_cases (λ t. IsFifo t (xs ++ [])) (s.closing && not s.stopped)
      (λ _.
        list_cases (λ t. IsFifo t (xs ++ [])) s.chan
          (λ _.
            same-IsFifo (flush tx now s) (record (flush tx now s) { stopped = true }) xs refl refl
              refl refl (flush_now-IsFifo tx now s xs f))
          (λ c cs _. none_sent s xs f))
      (λ _. none_sent s xs f)

pub run-IsFifo :
    (es : List Event) (s : Store) (xs : List Call)
    → IsFifo s xs
    → IsFifo (run s es) (xs ++ accepts_all s es)
unfolding run accepts_all
run-IsFifo [] s xs f = none_sent s xs f
run-IsFifo (e ∷ es) s xs f =
    rw (← append_assoc xs (accepts s e) (accepts_all (step s e) es))
      (run-IsFifo es (step s e) (xs ++ accepts s e) (step-IsFifo e s xs f))

pub open_store-IsFifo : (size : ℕ) (rows : List Row) → IsFifo (open_store size rows) []
unfolding open_store join
open_store-IsFifo size rows = record { order = refl; small = ground arith; within = omega arith }

-- From the opening on, in every order of the events, the calls that the channel accepted are, in their
-- order and each once, those given to the database, then those in the buffer, then those in the
-- channel; the buffer stays smaller than a batch, and the channel within its 4096 places.
pub run_open-IsFifo :
    (size : ℕ) (rows : List Row) (es : List Event)
    → IsFifo (run (open_store size rows) es) (accepts_all (open_store size rows) es)
run_open-IsFifo size rows es = run-IsFifo es (open_store size rows) [] (open_store-IsFifo size rows)
