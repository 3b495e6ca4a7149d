-- ===== src/Pool/Swrr.antt =====
-- `latencyScaledWeight` and `pickSWRR` of internal/pool/pool.go. Current weights are integers
-- without overflow: int64 holds them as long as a layer's weights times its picks stay below 2 ^ 63.
pub mod Balance
pub mod Leader
pub mod Turns
pub mod Scale
use proxy_gateway.Prelude.{
  ℕ, ◌+◌, ◌-◌, ◌≡◌, refl, String, Bool, true, false, List, [], ◌∷◌, map, Option, none, some, ltb,
  ◌==◌, if◌then◌else◌, ℤ, pos, is_pos, pos_part, ltb_ℤ, ◌+ℤ◌, ◌-ℤ◌,
}
use proxy_gateway.Prelude.Dict.{lookup, insert}
use proxy_gateway.Prelude.Float.{Float64}
use proxy_gateway.Pool.State.{Pool, LayerSnap, latency_of}
use proxy_gateway.Pool.Layer.{layer_ref_latency}
use proxy_gateway.Pool.Search.{Pick, nil, panic, pick}

abbrev pub current : String → List (String × ℤ) → ℤ
current id m = elim (lookup id m) [ none ↦ pos 0 | some w ↦ w ]

-- The variables of the loop of `pickSWRR`; no `best` is the start value, below every weight.
pub record Round : Type 0 where
  pub swrr : List (String × ℤ)
  pub total : ℕ
  pub best : Option (String × ℤ)

unfoldable pub beats : ℤ → Option (String × ℤ) → Bool
beats cw none = true
beats cw (some (id, w)) = ltb_ℤ w cw

module _ ⦃fl : Float64⦄ where
  -- The factor, clamped to [0.5, 2].
  unfoldable pub clamp_factor : ℕ → ℕ
  clamp_factor f =
      if fl.less fl.two_f f then fl.two_f else if fl.less f fl.half_f then fl.half_f else f

  unfoldable pub latency_scaled_weight : ℕ → ℕ → ℤ → ℕ
  unfolding clamp_factor
  latency_scaled_weight ref base latency =
      let b = if base == 0 then 1 else base in
      if is_pos latency
      then if ref == 0
        then b
        else (let f = clamp_factor (fl.div (fl.of_int ref) (fl.of_int (pos_part latency))) in
            let w = fl.trunc (fl.mul (fl.of_int b) f) in if ltb w 1 then 1 else w)
      else b

  -- One turn of the loop, for a proxy with weight `w` after scaling.
  unfoldable pub swrr_turn : Round → String → ℕ → Round
  swrr_turn r id w =
      let cw = current id r.swrr +ℤ pos w in
      record {
        swrr = insert id cw r.swrr;
        total = r.total + w;
        best = if beats cw r.best then some (id, cw) else r.best;
      }

  abbrev pub turn_weight : Pool → ℕ → String → ℕ → ℕ
  turn_weight p ref id w = latency_scaled_weight ref (if w == 0 then 1 else w) (latency_of p id)

  unfoldable pub swrr_loop : Pool → ℕ → Round → List String → List ℕ → Round
  swrr_loop p ref r [] ws = r
  swrr_loop p ref r (id ∷ ids) [] = r
  swrr_loop p ref r (id ∷ ids) (w ∷ ws) =
      swrr_loop p ref (swrr_turn r id (turn_weight p ref id w)) ids ws

  -- The end of `pickSWRR`: the best proxy pays the total.
  unfoldable pub settle : Round → Pick × List (String × ℤ)
  settle r = elim r.best [
    | none ↦ (nil, r.swrr)
    | some (id, cw) ↦
        if r.total == 0
        then (nil, r.swrr)
        else (pick id, insert id (current id r.swrr -ℤ pos r.total) r.swrr)
  ]

  abbrev pub start_round : Pool → Round
  start_round p = record { swrr = p.swrr; total = 0; best = none }

  unfoldable pub pick_swrr : Pool → LayerSnap → Pick × Pool
  pick_swrr p l =
      let ref = layer_ref_latency (map (latency_of p) l.proxies) in
      let (out, m) = settle (swrr_loop p ref (start_round p) l.proxies l.weight) in
      (out, record p { swrr = m })
