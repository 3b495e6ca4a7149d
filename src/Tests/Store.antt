-- ===== src/Tests/Store.antt =====
-- A concrete run of the usage recorder: batches of two, three calls.
use proxy_gateway.Prelude.{String, ◌≡◌, refl, true, List, [], ◌∷◌, length}
use proxy_gateway.Store.{
  Store, Call, complete, Event, looks, sends, closes_flag, closes_channel, receives, drains,
  finishes, open_store, flush, flush_batch, receive, send, step, run,
}
use proxy_gateway.Store.Fifo.{IsFifo, accepts, accepts_all, run_open-IsFifo}
use proxy_gateway.Store.Drain.{IsDrained, drain_loop, close-IsDrained}

abbrev call_of : String → Call
call_of account = record {
  account = account;
  group = "home";
  proxy_id = "a";
  addr = "a:8080";
  kind = "ip_pool";
  ok = true;
}

abbrev recorded : List Event
recorded =
    looks (call_of "x")
    ∷ sends
    ∷ looks (call_of "y")
    ∷ sends
    ∷ looks (call_of "z")
    ∷ sends
    ∷ receives (complete true) 5
    ∷ []

all_accepted : accepts_all (open_store 2 []) recorded ≡ call_of "x" ∷ call_of "y" ∷ call_of "z" ∷ []
unfolding accepts_all accepts open_store flush flush_batch receive send step
all_accepted = refl

two_batches :
    (run
      (step (step (run (open_store 2 []) recorded) closes_flag) closes_channel)
      (drain_loop (complete true) 7 2)).flushed
    ≡ (call_of "x" ∷ call_of "y" ∷ []) ∷ (call_of "z" ∷ []) ∷ []
unfolding run drain_loop open_store flush flush_batch receive send step
two_batches = refl

run_open-IsFifo_example :
    IsFifo (run (open_store 2 []) recorded) (accepts_all (open_store 2 []) recorded)
run_open-IsFifo_example = run_open-IsFifo 2 [] recorded

-- A call that looks before the close and sends after the worker has returned.
abbrev closing_down : List Event
closing_down =
    looks (call_of "x")
    ∷ sends
    ∷ looks (call_of "y")
    ∷ closes_flag
    ∷ closes_channel
    ∷ drains (complete true) 5
    ∷ []

abbrev after_return : Store
after_return = step (run (open_store 2 []) closing_down) (finishes (complete true) 6)

close-IsDrained_example :
    IsDrained
      (run
        (step (step (run (open_store 2 []) recorded) closes_flag) closes_channel)
        (drain_loop (complete true) 7 (length (run (open_store 2 []) recorded).chan)))
      (accepts_all (open_store 2 []) recorded)
unfolding run open_store flush flush_batch receive send step
close-IsDrained_example = close-IsDrained (complete true) 7 2 [] recorded refl
