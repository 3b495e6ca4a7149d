-- ===== src/Store.antt =====
-- internal/store/store.go: the recorder of proxy allocations. A worker takes the calls from a channel
-- of 4096 places and writes them to the database in batches. The database is a library: what it does
-- with a batch is an argument, its table a list of rows.
pub mod Fifo
pub mod Drain
use proxy_gateway.Prelude.{
  ℕ, zero, suc, ◌+◌, ◌*◌, ◌≤◌, String, Bool, true, false, not, ◌&&◌, List, [], ◌∷◌, ◌++◌, map,
  Option, none, some, ltb, leb, if◌then◌else◌, length, keep, ◌==◌,
}

pub record Call : Type 0 where
  pub account : String
  pub group : String
  pub proxy_id : String
  pub addr : String
  pub kind : String
  pub ok : Bool

-- A row of the table `calls`, with its time in milliseconds.
pub record Row : Type 0 where
  pub ts : ℕ
  pub call : Call

-- What happens to the transaction of a batch: it cannot begin or be prepared, the row at some place
-- cannot be inserted, or all can; then whether the commit succeeds.
pub data Tx : Type 0 where
  refused : Tx
  stopped_at : ℕ → Bool → Tx
  complete : Bool → Tx

abbrev pub take_calls : ℕ → List Call → List Call
take_calls zero cs = []
take_calls (suc n) [] = []
take_calls (suc n) (c ∷ cs) = c ∷ take_calls n cs

abbrev pub rows_at : ℕ → List Call → List Row
rows_at now = map (λ c. record { ts = now; call = c })

-- `flushBatch`: the rows of the table afterwards.
unfoldable pub flush_batch : Tx → ℕ → List Call → List Row → List Row
flush_batch refused now cs rows = rows
flush_batch (stopped_at n committed) now cs rows =
    if committed then rows ++ rows_at now (take_calls n cs) else rows
flush_batch (complete committed) now cs rows = if committed then rows ++ rows_at now cs else rows

-- `flushed` are the batches that were given to the database, oldest first. `senders` are the calls of
-- `Record` that have seen the store open and have not yet sent.
pub record Store : Type 0 where
  pub chan : List Call
  pub buf : List Call
  pub batch : ℕ
  pub closed : Bool
  pub closing : Bool
  pub stopped : Bool
  pub senders : List Call
  pub rows : List Row
  pub flushed : List (List Call)

-- The capacity of the channel.
abbrev pub capacity : ℕ
capacity = 4096

-- `Open`, for the configured batch size and the rows that the table has.
unfoldable pub open_store : ℕ → List Row → Store
open_store size rows = record {
  chan = [];
  buf = [];
  batch = if size == 0 then 200 else size;
  closed = false;
  closing = false;
  stopped = false;
  senders = [];
  rows = rows;
  flushed = [];
}

-- The closure `flush` of `run`.
unfoldable pub flush : Tx → ℕ → Store → Store
flush tx now s = elim s.buf [
  | [] ↦ s
  | c ∷ cs ↦ record s {
    rows = flush_batch tx now (c ∷ cs) s.rows;
    flushed = s.flushed ++ (c ∷ cs) ∷ [];
    buf = [];
  }
]

-- A call goes from the channel to the buffer, which is flushed when it has the size of a batch.
unfoldable pub receive : Tx → ℕ → Store → Store
receive tx now s = elim s.chan [
  | [] ↦ s
  | c ∷ cs ↦
      let t = record s { chan = cs; buf = s.buf ++ c ∷ [] } in
      if leb t.batch (length t.buf) then flush tx now t else t
]

-- `prune`, with the time before which rows go, unless the statement fails.
unfoldable pub prune : Bool → ℕ → Store → Store
prune done cutoff s =
    if done then record s { rows = keep (λ (r : Row). leb cutoff r.ts) s.rows } else s

-- The send of `Record`, for the sender whose turn it is, with the call that the channel accepts; a
-- full channel drops the call.
unfoldable pub send : Store → Store × List Call
send s = elim s.senders [
  | [] ↦ (s, [])
  | c ∷ cs ↦
      if ltb (length s.chan) capacity
      then (record s { senders = cs; chan = s.chan ++ c ∷ [] }, c ∷ [])
      else (record s { senders = cs }, [])
]

-- What can happen next: a `Record` that looks whether the store is closed, one that sends, the cases
-- of the worker's `select`, and the two steps of `Close`.
pub data Event : Type 0 where
  looks : Call → Event
  sends closes_flag closes_channel : Event
  receives ticks drains finishes : Tx → ℕ → Event
  prunes : Bool → ℕ → Event

-- The worker takes any case of its `select` until it stops. After the close the code takes only those
-- of the loop that drains the channel, once it has entered it; the model allows the others too.
unfoldable pub step : Store → Event → Store
step s (looks c) = if s.closed then s else record s { senders = s.senders ++ c ∷ [] }
step s sends = (send s).0
step s closes_flag = record s { closed = true }
step s closes_channel = if s.closed then record s { closing = true } else s
step s (receives tx now) = if s.stopped then s else receive tx now s
step s (ticks tx now) = if s.stopped then s else flush tx now s
step s (prunes done cutoff) = if s.stopped then s else prune done cutoff s
step s (drains tx now) = if s.closing && not s.stopped then receive tx now s else s
step s (finishes tx now) =
    if s.closing && not s.stopped
    then elim s.chan [ [] ↦ record (flush tx now s) { stopped = true } | c ∷ cs ↦ s ]
    else s

unfoldable pub run : Store → List Event → Store
run s [] = s
run s (e ∷ es) = run (step s e) es
