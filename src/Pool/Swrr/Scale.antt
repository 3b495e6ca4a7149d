-- ===== src/Pool/Swrr/Scale.antt =====
-- The bounds of `latencyScaledWeight` of internal/pool/pool.go.
use proxy_gateway.Prelude.{ℕ, ◌+◌, ◌*◌, ◌≤◌}
use proxy_gateway.Prelude.Float.{Float64, ScaleLaws}

module _ ⦃fl : Float64⦄ (laws : ScaleLaws fl) where
  abbrev InBounds : ℕ → ℕ → Type 0
  InBounds base w = (1 ≤ w) × (w ≤ 2 * base) × (base ≤ 2 * w + 1)

  abbrev scaled : ℕ → ℕ → ℕ
  scaled base f = fl.trunc (fl.mul (fl.of_int base) f)
