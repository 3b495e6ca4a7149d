-- ===== src/Tests/Health.antt =====
-- Concrete rounds of the health checker.
use proxy_gateway.Prelude.{◌≡◌, refl, true, List, [], ◌∷◌, none, arith, In, inl, pos}
use proxy_gateway.Prelude.Dict.{lookup}
use proxy_gateway.Model.{Proxy}
use proxy_gateway.Config.{HealthConfig, enabled_check_urls}
use proxy_gateway.Pool.State.{Pool, is_live}
use proxy_gateway.Pool.Change.{add}
use proxy_gateway.Pool.Keeps.{add-Coherent}
use proxy_gateway.Pool.Coherent.{Coherent}
use proxy_gateway.Health.{new_checker, is_due, due_loop, check_due, resolve_check_urls}
use proxy_gateway.Health.Probe.{parse_country, is_alpha2, are_two_letters, to_upper, put_upper}
use proxy_gateway.Health.Due.{CheckRound, due_round, full_round, run_rounds, check_due_spaced}
use proxy_gateway.Health.Outcome.{check_one_pool, delete_threshold, check_one_pool-drops}
use proxy_gateway.Text.{trim_space, trim_left, trim_right, is_space, bytes, encode_rune}
use proxy_gateway.Tests.{milli, ready, ready-Coherent, sample, program}

abbrev cfg : HealthConfig
cfg = record {
  interval_seconds = pos 30;
  timeout_ms = pos 5000;
  concurrency = pos 64;
  check_url = "http://check";
  check_urls = [];
  max_fails = pos 3;
  rebuild_interval_ms = pos 200;
}

abbrev quick : Proxy
quick = record (sample "q" (pos 1)) { check_interval_ms = pos 5000; free = true }

-- The proxy after a check, with another latency.
abbrev quick_later : Proxy
quick_later = record quick { latency_ms = pos 90 }

-- Other rounds, one of them over all proxies.
abbrev between : List CheckRound
between = due_round 9 (quick ∷ []) ∷ full_round ((sample "z" (pos 1), 11) ∷ []) ∷ []

check_due_spaced_example :
    ¬ In quick_later
      (check_due
        (run_rounds (check_due (new_checker cfg) 7 (quick ∷ [])).1 between)
        4000000000
        (quick_later ∷ [])).0
unfolding check_due due_loop is_due new_checker lookup
check_due_spaced_example =
    check_due_spaced (new_checker cfg) 7 4000000000 (quick ∷ []) (quick_later ∷ []) between quick
      quick_later (omega arith) refl refl (inl refl) (omega arith)
      (omega arith, ((omega arith, tt), tt))

-- A pool that has the free proxy in service.
abbrev stocked : Pool
stocked = add ready quick

in_service : is_live stocked "q" ≡ true
unfolding program
in_service = refl

check_one_pool-drops_example :
    Coherent (check_one_pool cfg 9 quick (true, "US") (pos 5001) stocked)
    × (lookup "q" (check_one_pool cfg 9 quick (true, "US") (pos 5001) stocked).proxies ≡ none)
unfolding resolve_check_urls delete_threshold enabled_check_urls
check_one_pool-drops_example =
    check_one_pool-drops cfg 9 quick true "US" (pos 5001) stocked "http://check" []
      (add-Coherent ready quick ready-Coherent) refl refl refl

body : parse_country (λ s. none) " hk\n" ≡ "HK"
unfolding parse_country trim_space trim_left trim_right is_space bytes encode_rune is_alpha2
    are_two_letters to_upper put_upper
body = refl
