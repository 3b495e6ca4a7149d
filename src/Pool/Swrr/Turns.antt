-- ===== src/Pool/Swrr/Turns.antt =====
-- One selection by `pickSWRR` of internal/pool/pool.go on a well-formed tier.
use proxy_gateway.Prelude.{
  ℕ, ◌<◌, ◌≡◌, refl, ap, ◌∙◌, subst, inl, inr, String, false, List, [], some, arith, str_eq,
  str_eq_iff, str_eq_refl, In, ℤ, pos, ◌+ℤ◌, ◌-ℤ◌, ◌≤ℤ◌, int_laws, length, Bool-cases, map,
  pos_part, neg_part, ◌==◌,
}
use proxy_gateway.Prelude.Float.{Float64}
use proxy_gateway.Prelude.Dict.{insert}
use proxy_gateway.Pool.State.{Pool, LayerSnap, latency_of}
use proxy_gateway.Pool.Layer.{layer_ref_latency}
use proxy_gateway.Pool.Layer.Valid.{IsValid}
use proxy_gateway.Pool.Search.{pick}
use proxy_gateway.Pool.Swrr.{current, Round, swrr_loop, settle, start_round, pick_swrr}
use proxy_gateway.Pool.Swrr.Balance.{balance, current-insert, balance-insert, loop_balance}
use proxy_gateway.Pool.Swrr.Leader.{
  Leads, Recorded, round_total, loop_total, loop-Leads, loop-Recorded, loop_elects, round_total-pos,
}

settle_pays :
    ⦃fl : Float64⦄ (r : Round) (id : String) (cw : ℤ)
    → r.best ≡ some (id, cw)
    → 0 < r.total
    → settle r ≡ (pick id, insert id (current id r.swrr -ℤ pos r.total) r.swrr)
unfolding settle
settle_pays r id cw e h = let t : (r.total == 0) ≡ false = ground arith in rw (e, settle, t)

-- a - t as a sum
minus : (a : ℤ) (t : ℕ) → a -ℤ pos t ≡ a +ℤ (pos 0 -ℤ pos t)
minus a t = omega int_laws

paid_back : (a b : ℤ) (t : ℕ) → a +ℤ pos 0 ≡ b +ℤ pos t → a +ℤ (pos 0 -ℤ pos t) ≡ b
paid_back a b t h = omega (int_laws, ap pos_part h, ap neg_part h)

-- The weight that a selection adds to a tier.
abbrev pub turn_total : ⦃fl : Float64⦄ → Pool → LayerSnap → ℕ
turn_total p l = round_total p (layer_ref_latency (map (latency_of p) l.proxies)) l.proxies l.weight

-- What is true of the state `m` of weights when `id` was selected from the tier `ids`, which had the
-- state `before` and gained `t`.
pub record IsFairTurn (ids : List String) (before m : List (String × ℤ)) (t : ℕ) (id : String)
    : Type 0 where
  pub member : In id ids
  pub conserved : balance ids m ≡ balance ids before
  pub leads : (x : String) → In x ids → current x m ≤ℤ current id m +ℤ pos t

behind :
    (r : Round) (id x : String) (v : ℤ)
    → current id r.swrr ≡ v
    → current x r.swrr ≤ℤ v
    → current x (insert id (current id r.swrr -ℤ pos r.total) r.swrr)
      ≤ℤ current id (insert id (current id r.swrr -ℤ pos r.total) r.swrr) +ℤ pos r.total
behind r id x v e h =
    let m = insert id (current id r.swrr -ℤ pos r.total) r.swrr in
    let own : current id m ≡ current id r.swrr -ℤ pos r.total =
      current-insert id id (current id r.swrr -ℤ pos r.total) r.swrr ∙ rw (str_eq_refl id) in
    elim (Bool-cases (str_eq id x)) [
      | inl same ↦ let ex : id ≡ x = (str_eq_iff id x).0 same in rw (← ex) (omega int_laws)
      | inr other ↦
          let kept : current x m ≡ current x r.swrr =
            current-insert id x (current id r.swrr -ℤ pos r.total) r.swrr ∙ rw other in
          rw (kept, own) (omega (int_laws, ap pos_part e, ap neg_part e))
    ]

Recorded-current :
    ⦃fl : Float64⦄ (p : Pool) (ref : ℕ) (r : Round) (id : String) (cw : ℤ)
    → Recorded p ref r []
    → r.best ≡ some (id, cw)
    → current id r.swrr ≡ cw
Recorded-current p ref r id cw (inl e) h = absurd (cc)
Recorded-current p ref r id cw (inr (b, c, e, at_c, f)) h = ground arith

module _ ⦃fl : Float64⦄ (p : Pool) (l : LayerSnap) where
  -- A selection from a well-formed tier that has proxies returns one of them. It pays what all of
  -- them gained, so the sum of the current weights stays; before it paid, none was ahead of it.
  pub pick_swrr-IsFairTurn :
      IsValid l
      → 0 < length l.proxies
      → (id : String) × ((pick_swrr p l).0 ≡ pick id)
        × IsFairTurn l.proxies p.swrr (pick_swrr p l).1.swrr (turn_total p l) id
  unfolding pick_swrr
  pick_swrr-IsFairTurn v h =
      let ref = layer_ref_latency (map (latency_of p) l.proxies) in
      let r = swrr_loop p ref (start_round p) l.proxies l.weight in
      let (id, cw, best, member) = loop_elects p ref l.proxies l.weight h v.weighed in
      let total : r.total ≡ turn_total p l =
        loop_total p ref (start_round p) l.proxies l.weight ∙ (omega arith) in
      let paid =
        settle_pays r id cw best
          (omega (arith, round_total-pos p ref l.proxies l.weight h v.weighed)) in
      let rec =
        loop-Recorded p ref (start_round p) l.proxies l.weight v.distinct v.weighed (inl refl) in
      let at_cw = Recorded-current p ref r id cw rec best in
      let m = insert id (current id r.swrr -ℤ pos r.total) r.swrr in
      let gained =
        loop_balance p ref l.proxies (start_round p) l.proxies l.weight v.distinct (λ x i. i) in
      let pays : balance l.proxies m ≡ balance l.proxies r.swrr +ℤ (pos 0 -ℤ pos r.total) =
        ap (λ w. balance l.proxies (insert id w r.swrr)) (minus (current id r.swrr) r.total)
        ∙ balance-insert l.proxies id (pos 0 -ℤ pos r.total) r.swrr v.distinct member in
      rw paid (
        id,
        refl,
        record {
          member = member;
          conserved =
              pays ∙ paid_back (balance l.proxies r.swrr) (balance l.proxies p.swrr) r.total gained;
          leads = λ x i.
              subst (λ (t : ℕ). current x m ≤ℤ current id m +ℤ pos t) total
                (behind r id x cw at_cw (
                  subst (Leads (current x r.swrr)) best (
                    loop-Leads p ref (start_round p) l.proxies l.weight x v.distinct v.weighed i)));
        },
      )
