-- ===== src/Health/Interval.antt =====
-- The interval of the rounds of internal/health/checker.go.
use proxy_gateway.Prelude.{◌⊎◌, ℕ, ◌≤◌, ◌≡◌, List, In}
use proxy_gateway.Model.{Proxy}
use proxy_gateway.Config.{HealthConfig}
use proxy_gateway.Health.{base_interval, interval_of}

-- A number of milliseconds, at least a second, that is at most the interval of each proxy that is a
-- second or longer, and that of a proxy, of the configuration, or a second.
pub record IsShortest (cfg : HealthConfig) (prs : List Proxy) (n : ℕ) : Type 0 where
  pub slow : 1000 ≤ n
  pub base : 1000 ≤ base_interval cfg → n ≤ base_interval cfg
  pub each : (pr : Proxy) → In pr prs → 1000 ≤ interval_of cfg pr → n ≤ interval_of cfg pr
  pub reached :
      (n ≡ 1000) ⊎ (n ≡ base_interval cfg) ⊎ ((pr : Proxy) × In pr prs × (n ≡ interval_of cfg pr))
