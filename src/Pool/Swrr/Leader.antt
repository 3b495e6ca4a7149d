-- ===== src/Pool/Swrr/Leader.antt =====
-- Which proxy `pickSWRR` of internal/pool/pool.go selects, and what it pays.
use proxy_gateway.Prelude.{
  ℕ, ◌+◌, ◌<◌, ◌≡◌, refl, ◌∙◌, ◌⊎◌, inl, inr, String, false, List, [], ◌∷◌, Option, none, some,
  arith, str_eq_iff, str_eq_refl, if◌then◌else◌, In, ℤ, pos, ◌+ℤ◌, ◌≤ℤ◌, length, Bool-cases, ◌==◌,
}
use proxy_gateway.Prelude.Float.{Float64}
use proxy_gateway.Pool.State.{Pool}
use proxy_gateway.Pool.Layer.{is_seen}
use proxy_gateway.Pool.Layer.Valid.{NoDup}
use proxy_gateway.Pool.State.{latency_of}
use proxy_gateway.Pool.Swrr.{current, Round, beats, swrr_turn, turn_weight, swrr_loop, start_round}
use proxy_gateway.Pool.Swrr.Balance.{current-insert, latency_scaled_weight-pos, loop_best}

-- The best so far is at least v.
abbrev pub Leads : ℤ → Option (String × ℤ) → Type 0
Leads v none = ⊥
Leads v (some (id, c)) = v ≤ℤ c

beats-Leads :
    (v new : ℤ) (best : Option (String × ℤ)) (id : String)
    → Leads v best
    → Leads v (if beats new best then some (id, new) else best)
unfolding beats
beats-Leads v new none id h = absurd h
beats-Leads v new (some (b, c)) id h = ground arith

new-Leads :
    (new : ℤ) (best : Option (String × ℤ)) (id : String)
    → Leads new (if beats new best then some (id, new) else best)
unfolding beats
new-Leads new none id = omega arith
new-Leads new (some (b, c)) id = ground arith

no_loss : (new : ℤ) (best : Option (String × ℤ)) → best ≡ none → beats new best ≡ false → ⊥
unfolding beats
no_loss new none e h = cc
no_loss new (some b) e h = cc

module _ ⦃fl : Float64⦄ (p : Pool) (ref : ℕ) where
  -- The sum of the weights that one selection adds.
  unfoldable pub round_total : List String → List ℕ → ℕ
  round_total [] ws = 0
  round_total (id ∷ ids) [] = 0
  round_total (id ∷ ids) (w ∷ ws) = turn_weight p ref id w + round_total ids ws

  pub loop_total :
      (r : Round) (ids : List String) (ws : List ℕ)
      → (swrr_loop p ref r ids ws).total ≡ r.total + round_total ids ws
  unfolding swrr_loop round_total
  loop_total r [] ws = omega arith
  loop_total r (id ∷ ids) [] = omega arith
  loop_total r (id ∷ ids) (w ∷ ws) =
      let t : (swrr_turn r id (turn_weight p ref id w)).total ≡ r.total + turn_weight p ref id w =
        unfold swrr_turn in refl in
      omega (arith, loop_total (swrr_turn r id (turn_weight p ref id w)) ids ws)

  loop_untouched :
      (r : Round) (ids : List String) (ws : List ℕ) (x : String)
      → is_seen x ids ≡ false
      → current x (swrr_loop p ref r ids ws).swrr ≡ current x r.swrr
  unfolding swrr_loop
  loop_untouched r [] ws x h = refl
  loop_untouched r (id ∷ ids) [] x h = refl
  loop_untouched r (id ∷ ids) (w ∷ ws) x h =
      let turn : current x (swrr_turn r id (turn_weight p ref id w)).swrr ≡ current x r.swrr =
        unfold swrr_turn in
        ground (
          arith,
          current-insert id x (current id r.swrr +ℤ pos (turn_weight p ref id w)) r.swrr,
          str_eq_iff x id,
          str_eq_iff id x,
        ) in
      loop_untouched (swrr_turn r id (turn_weight p ref id w)) ids ws x (ground arith) ∙ turn

  loop_grows :
      (r : Round) (ids : List String) (ws : List ℕ) (v : ℤ)
      → Leads v r.best
      → Leads v (swrr_loop p ref r ids ws).best
  unfolding swrr_loop
  loop_grows r [] ws v h = h
  loop_grows r (id ∷ ids) [] v h = h
  loop_grows r (id ∷ ids) (w ∷ ws) v h =
      loop_grows (swrr_turn r id (turn_weight p ref id w)) ids ws v (
        unfold swrr_turn in
        beats-Leads v (current id r.swrr +ℤ pos (turn_weight p ref id w)) r.best id h)

  -- Every proxy of the tier ends at or behind the best.
  pub loop-Leads :
      (r : Round) (ids : List String) (ws : List ℕ) (x : String)
      → NoDup ids
      → length ws ≡ length ids
      → In x ids
      → Leads (current x (swrr_loop p ref r ids ws).swrr) (swrr_loop p ref r ids ws).best
  unfolding swrr_loop
  loop-Leads r [] ws x n e h = absurd h
  loop-Leads r (id ∷ ids) [] x n e h = absurd (omega arith)
  loop-Leads r (id ∷ ids) (w ∷ ws) x (fresh, n) e (inr h) =
      loop-Leads (swrr_turn r id (turn_weight p ref id w)) ids ws x n (omega arith) h
  loop-Leads r (id ∷ ids) (w ∷ ws) x (fresh, n) e (inl h) =
      let new = current id r.swrr +ℤ pos (turn_weight p ref id w) in
      let r' = swrr_turn r id (turn_weight p ref id w) in
      let now : current id r'.swrr ≡ new =
        unfold swrr_turn in current-insert id id new r.swrr ∙ rw (str_eq_refl id) in
      let same : current x (swrr_loop p ref r' ids ws).swrr ≡ new =
        loop_untouched r' ids ws x (rw h fresh) ∙ rw h now in
      rw same (loop_grows r' ids ws new (unfold swrr_turn in new-Leads new r.best id))

  -- The best is listed with its current weight.
  abbrev pub Recorded : Round → List String → Type 0
  Recorded r ids =
      (r.best ≡ none)
      ⊎ ((b : String) × (c : ℤ) × (r.best ≡ some (b, c))
          × (current b r.swrr ≡ c)
          × (is_seen b ids ≡ false))

  turn-Recorded :
      (r : Round) (id : String) (ids : List String) (w : ℕ)
      → is_seen id ids ≡ false
      → Recorded r (id ∷ ids)
      → Recorded (swrr_turn r id w) ids
  turn-Recorded r id ids w fresh rec =
      let new = current id r.swrr +ℤ pos w in
      elim (Bool-cases (beats new r.best)) [
        | inl wins ↦ inr (
          id,
          new,
          unfold swrr_turn in rw wins,
          unfold swrr_turn in current-insert id id new r.swrr ∙ rw (str_eq_refl id),
          fresh,
        )
        | inr loses ↦ elim rec [
          | inl start ↦ absurd (no_loss new r.best start loses)
          | inr (b, c, e, at_c, f) ↦ inr (
            b,
            c,
            unfold swrr_turn in rw loses e,
            (unfold swrr_turn in
                ground (arith, current-insert id b new r.swrr, str_eq_iff b id, str_eq_iff id b)),
            ground arith,
          )
        ]
      ]

  pub loop-Recorded :
      (r : Round) (ids : List String) (ws : List ℕ)
      → NoDup ids
      → length ws ≡ length ids
      → Recorded r ids
      → Recorded (swrr_loop p ref r ids ws) []
  unfolding swrr_loop
  loop-Recorded r [] ws n e rec = rec
  loop-Recorded r (id ∷ ids) [] n e rec = absurd (omega arith)
  loop-Recorded r (id ∷ ids) (w ∷ ws) (fresh, n) e rec =
      loop-Recorded (swrr_turn r id (turn_weight p ref id w)) ids ws n (omega arith)
        (turn-Recorded r id ids (turn_weight p ref id w) fresh rec)

  -- On a tier with proxies the loop ends with a best one.
  pub loop_elects :
      (ids : List String) (ws : List ℕ)
      → 0 < length ids
      → length ws ≡ length ids
      → (id : String) × (cw : ℤ) × ((swrr_loop p ref (start_round p) ids ws).best ≡ some (id, cw))
        × In id ids
  loop_elects [] ws h e = absurd (omega arith)
  loop_elects (id ∷ ids) [] h e = absurd (omega arith)
  loop_elects (id ∷ ids) (w ∷ ws) h e =
      unfold swrr_loop in
      loop_best p ref (id ∷ ids) (swrr_turn (start_round p) id (turn_weight p ref id w)) ids ws
        (λ x i. inr i)
        (
          id,
          current id p.swrr +ℤ pos (turn_weight p ref id w),
          unfold swrr_turn beats in refl,
          inl refl,
        )

  pub round_total-pos :
      (ids : List String) (ws : List ℕ)
      → 0 < length ids
      → length ws ≡ length ids
      → 0 < round_total ids ws
  unfolding round_total
  round_total-pos [] ws h e = absurd (omega arith)
  round_total-pos (id ∷ ids) [] h e = absurd (omega arith)
  round_total-pos (id ∷ ids) (w ∷ ws) h e =
      omega (arith, latency_scaled_weight-pos ref (if w == 0 then 1 else w) (latency_of p id))
