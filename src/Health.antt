-- ===== src/Health.antt =====
-- internal/health/checker.go: which proxies are probed and when, what a probe says, and what it does to
-- the pool. Times are in nanoseconds. The answers of the check targets, and the JSON in them, are
-- arguments. A round probes its proxies in parallel; here their outcomes reach the pool one after
-- the other. The loop of `Run` is not modelled.
pub mod Probe
pub mod Interval
pub mod Due
pub mod Outcome
use proxy_gateway.Prelude.{
  ℕ, String, Bool, true, false, not, ◌&&◌, ◌||◌, List, [], ◌∷◌, Option, none, some, ltb, str_eq,
  if◌then◌else◌, ℤ, pos, is_pos, pos_part, int64_of, scale_ℤ, is_within,
}
use proxy_gateway.Prelude.Dict.{lookup, insert}
use proxy_gateway.Model.{Proxy}
use proxy_gateway.Config.{HealthConfig, enabled_check_urls}

-- `timeout_ms` is the time limit of a probe.
pub record Checker : Type 0 where
  pub cfg : HealthConfig
  pub timeout_ms : ℤ
  pub last_check : List (String × ℕ)

-- `NewChecker`
unfoldable pub new_checker : HealthConfig → Checker
new_checker cfg = record { cfg = cfg; timeout_ms = cfg.timeout_ms; last_check = [] }

-- `SetConfig`
unfoldable pub set_config : Checker → HealthConfig → Checker
set_config c cfg = record c {
  cfg = cfg;
  timeout_ms = if is_pos cfg.timeout_ms then cfg.timeout_ms else c.timeout_ms;
}

-- The interval of the configuration in milliseconds, an int64 that wraps; a minute where it is not
-- positive.
abbrev pub base_interval : HealthConfig → ℕ
base_interval cfg =
    let ms = int64_of (scale_ℤ cfg.interval_seconds 1000) in
    if is_pos ms then pos_part ms else 60000

-- The loop of `minInterval`.
unfoldable pub min_loop : ℕ → List Proxy → ℕ
min_loop n [] = n
min_loop n (pr ∷ prs) =
    min_loop
      (if is_pos pr.check_interval_ms && ltb (pos_part pr.check_interval_ms) n
        then pos_part pr.check_interval_ms
        else n)
      prs

-- Milliseconds as a duration in nanoseconds, an int64 that wraps.
abbrev pub duration_ms : ℕ → ℤ
duration_ms ms = int64_of (scale_ℤ (pos ms) 1000000)

-- `minInterval`, and its number of milliseconds.
unfoldable pub min_interval_ms : HealthConfig → List Proxy → ℕ
min_interval_ms cfg prs = let n = min_loop (base_interval cfg) prs in if ltb n 1000 then 1000 else n

unfoldable pub min_interval : HealthConfig → List Proxy → ℤ
min_interval cfg prs = duration_ms (min_interval_ms cfg prs)

-- The interval of one proxy in `checkDue`, in milliseconds.
abbrev pub interval_of : HealthConfig → Proxy → ℕ
interval_of cfg pr =
    if is_pos pr.check_interval_ms then pos_part pr.check_interval_ms else base_interval cfg

abbrev pub interval_ns : HealthConfig → Proxy → ℤ
interval_ns cfg pr = duration_ms (interval_of cfg pr)

-- `!ok || now.Sub(last) >= interval`
unfoldable pub is_due : HealthConfig → ℕ → List (String × ℕ) → Proxy → Bool
is_due cfg now last pr = elim (lookup pr.id last) [
  | none ↦ true
  | some t ↦ not (is_within now t (interval_ns cfg pr))
]

-- The loop of `checkDue`: the proxies to probe, and the times of the last probes.
unfoldable pub due_loop :
    HealthConfig → ℕ → List Proxy → List (String × ℕ) → List Proxy × List (String × ℕ)
due_loop cfg now [] last = ([], last)
due_loop cfg now (pr ∷ prs) last =
    let due = is_due cfg now last pr in
    let (rest, after) = due_loop cfg now prs (if due then insert pr.id now last else last) in
    (if due then pr ∷ rest else rest, after)

-- The choice of `checkDue` among the proxies of the pool.
unfoldable pub check_due : Checker → ℕ → List Proxy → List Proxy × Checker
check_due c now prs =
    let (due, last) = due_loop c.cfg now prs c.last_check in (due, record c { last_check = last })

-- `checkAll` probes all; each gets its time.
unfoldable pub stamp_all : List (Proxy × ℕ) → List (String × ℕ) → List (String × ℕ)
stamp_all [] last = last
stamp_all ((pr, now) ∷ prs) last = stamp_all prs (insert pr.id now last)

unfoldable pub check_all : Checker → List (Proxy × ℕ) → Checker
check_all c prs = record c { last_check = stamp_all prs c.last_check }

abbrev no_texts : List String → Bool
no_texts [] = true
no_texts (x ∷ xs) = false

-- `resolveCheckURLs`
unfoldable pub resolve_check_urls : HealthConfig → Proxy → List String
resolve_check_urls cfg pr =
    if not (no_texts pr.check_urls)
    then pr.check_urls
    else if not (str_eq pr.check_url "")
    then pr.check_url ∷ []
    else if not (no_texts (enabled_check_urls cfg.check_urls))
    then enabled_check_urls cfg.check_urls
    else if not (str_eq cfg.check_url "")
    then cfg.check_url ∷ []
    else []
