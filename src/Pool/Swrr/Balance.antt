-- ===== src/Pool/Swrr/Balance.antt =====
-- The current weights of the smooth weighted round robin, `pickSWRR` of internal/pool/pool.go.
use proxy_gateway.Prelude.{
  ℕ, ◌+◌, ◌<◌, ◌≡◌, refl, ap, ◌∙◌, inl, inr, String, false, List, [], ◌∷◌, some, arith, str_eq,
  str_eq_iff, str_eq_refl, if◌then◌else◌, In, ℤ, pos, ◌+ℤ◌, int_laws, Bool-cases, pos_part,
  neg_part,
}
use proxy_gateway.Prelude.Dict.{insert, lookup-insert}
use proxy_gateway.Prelude.Float.{Float64}
use proxy_gateway.Pool.State.{Pool}
use proxy_gateway.Pool.Layer.{is_seen}
use proxy_gateway.Pool.Layer.Valid.{NoDup, In-seen}
use proxy_gateway.Pool.Swrr.{
  current, Round, beats, latency_scaled_weight, swrr_turn, turn_weight, swrr_loop,
}

-- The sum of the current weights of some proxies.
unfoldable pub balance : List String → List (String × ℤ) → ℤ
balance [] m = pos 0
balance (id ∷ ids) m = current id m +ℤ balance ids m

pub current-insert :
    (k j : String) (v : ℤ) (m : List (String × ℤ))
    → current j (insert k v m) ≡ (if str_eq k j then v else current j m)
current-insert k j v m = ground (arith, lookup-insert k j v m)

balance_other :
    (ids : List String) (k : String) (v : ℤ) (m : List (String × ℤ))
    → is_seen k ids ≡ false
    → balance ids (insert k v m) ≡ balance ids m
unfolding balance
balance_other [] k v m h = refl
balance_other (id ∷ ids) k v m h = ground (arith, current-insert k id v m, balance_other ids k v m)

-- A proxy's weight goes up by d, or down by it: so does the sum.
pub balance-insert :
    (ids : List String) (k : String) (d : ℤ) (m : List (String × ℤ))
    → NoDup ids
    → In k ids
    → balance ids (insert k (current k m +ℤ d) m) ≡ balance ids m +ℤ d
unfolding balance
balance-insert [] k d m n h = absurd h
balance-insert (id ∷ ids) k d m (fresh, n) (inl e) =
    let here : current id (insert k (current k m +ℤ d) m) ≡ current id m +ℤ d =
      rw (← e) (ground (arith, current-insert k k (current k m +ℤ d) m, str_eq_refl k)) in
    let rest : balance ids (insert k (current k m +ℤ d) m) ≡ balance ids m =
      balance_other ids k _ m (rw e fresh) in
    rw (here, rest) (omega int_laws)
balance-insert (id ∷ ids) k d m (fresh, n) (inr h) =
    let apart : str_eq k id ≡ false = elim (Bool-cases (str_eq k id)) [
      | inr ne ↦ ne
      | inl same ↦ cc (In-seen k ids h, (str_eq_iff k id).0 same)
    ] in
    let here : current id (insert k (current k m +ℤ d) m) ≡ current id m =
      current-insert k id (current k m +ℤ d) m ∙ rw apart in
    rw (here, balance-insert ids k d m n h) (omega int_laws)

carry :
    (a b c : ℤ) (t v T u : ℕ)
    → a +ℤ pos T ≡ b +ℤ pos u
    → b ≡ c +ℤ pos v
    → T ≡ t + v
    → a +ℤ pos t ≡ c +ℤ pos u
carry a b c t v T u h k e =
    omega (int_laws, ap pos_part h, ap neg_part h, ap pos_part k, ap neg_part k)

module _ ⦃fl : Float64⦄ where
  pub latency_scaled_weight-pos :
      (ref base : ℕ) (latency : ℤ) → 0 < latency_scaled_weight ref base latency
  unfolding latency_scaled_weight
  latency_scaled_weight-pos ref base latency = ground arith

  turn_best :
      (p : Pool) (ref : ℕ) (all : List String) (r : Round) (id : String) (w : ℕ) (b : String)
      (cw : ℤ)
      → r.best ≡ some (b, cw)
      → In b all
      → In id all
      → (x : String) × (c : ℤ) × ((swrr_turn r id (turn_weight p ref id w)).best ≡ some (x, c))
        × In x all
  turn_best p ref all r id w b cw e i j =
      let new = current id r.swrr +ℤ pos (turn_weight p ref id w) in
      elim (Bool-cases (beats new r.best)) [
        | inl wins ↦ (id, new, unfold swrr_turn in rw wins, j)
        | inr loses ↦ (b, cw, unfold swrr_turn in rw loses e, i)
      ]

  -- All weights that the loop has added stand in `total`.
  pub loop_balance :
      (p : Pool) (ref : ℕ) (all : List String) (r : Round) (ids : List String) (ws : List ℕ)
      → NoDup all
      → ((x : String) → In x ids → In x all)
      → balance all (swrr_loop p ref r ids ws).swrr +ℤ pos r.total
        ≡ balance all r.swrr +ℤ pos (swrr_loop p ref r ids ws).total
  unfolding swrr_loop
  loop_balance p ref all r [] ws n sub = refl
  loop_balance p ref all r (id ∷ ids) [] n sub = refl
  loop_balance p ref all r (id ∷ ids) (w ∷ ws) n sub =
      let v = turn_weight p ref id w in
      let ih = loop_balance p ref all (swrr_turn r id v) ids ws n (λ x h. sub x (inr h)) in
      let turn : balance all (swrr_turn r id v).swrr ≡ balance all r.swrr +ℤ pos v =
        unfold swrr_turn in balance-insert all id (pos v) r.swrr n (sub id (inl refl)) in
      let t : (swrr_turn r id v).total ≡ r.total + v = unfold swrr_turn in refl in
      carry _ _ (balance all r.swrr) r.total v _ _ ih turn t

  -- The best so far is one of the proxies, and none stays behind it.
  pub loop_best :
      (p : Pool) (ref : ℕ) (all : List String) (r : Round) (ids : List String) (ws : List ℕ)
      → ((x : String) → In x ids → In x all)
      → (id : String) × (cw : ℤ) × (r.best ≡ some (id, cw)) × In id all
      → (id : String) × (cw : ℤ) × ((swrr_loop p ref r ids ws).best ≡ some (id, cw)) × In id all
  unfolding swrr_loop
  loop_best p ref all r [] ws sub h = h
  loop_best p ref all r (id ∷ ids) [] sub h = h
  loop_best p ref all r (id ∷ ids) (w ∷ ws) sub (b, cw, e, i) =
      loop_best p ref all (swrr_turn r id (turn_weight p ref id w)) ids ws (λ x h. sub x (inr h))
        (turn_best p ref all r id w b cw e i (sub id (inl refl)))
