-- ===== src/Pool/Keeps.antt =====
-- The operations of internal/pool/pool.go keep the snapshot coherent.
use proxy_gateway.Prelude.{
  ℕ, ◌≡◌, refl, sym, ap, ◌∙◌, subst, inl, inr, String, Bool, true, false, not, List, [], ◌∷◌, some,
  arith, ltb, In, length, All, Bool-cases, Option-cases, if_cases, is_pos, str_eq, str_eq_iff, ℤ,
}
use mathlib.Core.Path.{fun_ext}
use proxy_gateway.Pool.Layer.Valid.{IsValid}
use proxy_gateway.Prelude.Dict.{lookup, insert, keep_entries, lookup-insert}
use proxy_gateway.Prelude.Float.{Float64}
use proxy_gateway.Model.{Proxy}
use proxy_gateway.Pool.State.{Pool, Snapshot, GroupSnap, LayerSnap, live_in, notify_state}
use proxy_gateway.Pool.Rebuild.{rebuild}
use proxy_gateway.Pool.Keyed.{Keyed, lookup-Keyed, insert-Keyed, delete-Keyed, keep_entries-Keyed}
use proxy_gateway.Pool.Change.{
  normalised, merged, put, clear_sticky, clear_swrr, clear_all_swrr, clear_all_sticky, ids_where,
  is_expired, of_provider, failed, succeeded, gives_up, add, remove, set_country, mark_failed,
  mark_success, set_alive, remove_expired, remove_by_provider,
}
use proxy_gateway.Pool.Coherent.{IsCoherent, Coherent, rebuild-Coherent}

-- Telling the sink changes nothing else.
notify-Coherent :
    (p : Pool) (id : String) (removed : Bool) → Coherent p → Coherent (notify_state p id removed)
unfolding notify_state
notify-Coherent p id removed c = if_cases Coherent p.has_sink (λ _. c) (λ _. c)

-- A map with the same live IDs serves the same snapshot.
same_live :
    (m n : List (String × Proxy)) (s : Snapshot)
    → ((id : String) → live_in n id ≡ live_in m id)
    → Keyed n
    → IsCoherent m s
    → IsCoherent n s
same_live m n s e k c =
    let path : live_in n ≡ live_in m = fun_ext e in
    record {
      keyed = k;
      listed = λ id. rw (e id) (c.listed id);
      tiers =
          subst
            (λ (f : String → Bool).
              All
                (λ (g : GroupSnap).
                  All
                    (λ (l : LayerSnap). IsValid l × ((id : String) → In id l.proxies → f id ≡ true))
                    g.layers)
                s.groups)
            (sym path) c.tiers;
      shares = c.shares;
    }

live_in-insert :
    (m : List (String × Proxy)) (k : String) (old pr : Proxy)
    → lookup k m ≡ some old
    → pr.alive ≡ old.alive
    → (id : String) → live_in (insert k pr m) id ≡ live_in m id
unfolding live_in
live_in-insert m k old pr found same id = ground (arith, lookup-insert k id pr m, str_eq_iff k id)

-- A change in place that leaves `Alive` as it was needs no new snapshot.
put-Coherent :
    (p : Pool) (k : String) (old pr : Proxy)
    → lookup k p.proxies ≡ some old
    → pr.alive ≡ old.alive
    → pr.id ≡ k
    → is_pos pr.weight ≡ true
    → Coherent p
    → Coherent (put p k pr)
put-Coherent p k old pr found same e w c =
    same_live p.proxies (insert k pr p.proxies) p.snap
      (live_in-insert p.proxies k old pr found same) (insert-Keyed k pr p.proxies e w c.keyed) c

rebuilt_put :
    ⦃fl : Float64⦄ (p : Pool) (k : String) (pr : Proxy)
    → pr.id ≡ k
    → is_pos pr.weight ≡ true
    → Coherent p
    → Coherent (rebuild (put p k pr))
rebuilt_put p k pr e w c = rebuild-Coherent (put p k pr) (insert-Keyed k pr p.proxies e w c.keyed)

normalised_facts :
    (pr : Proxy) → (is_pos (normalised pr).weight ≡ true) × ((normalised pr).id ≡ pr.id)
unfolding normalised
normalised_facts pr = ground arith

module _ ⦃fl : Float64⦄ where
  pub add-Coherent : (p : Pool) (pr : Proxy) → Coherent p → Coherent (add p pr)
  unfolding add merged
  add-Coherent p pr c =
      let (w, e) = normalised_facts pr in
      elim (Option-cases (lookup pr.id p.proxies)) [
        | inl absent ↦
            rw (absent, add)
              (notify-Coherent _ pr.id false (rebuilt_put p pr.id (normalised pr) e w c))
        | inr (old, found) ↦
            rw (found, add)
              (notify-Coherent _ pr.id false (
                put-Coherent p pr.id old (merged old (normalised pr)) found refl
                  (lookup-Keyed pr.id p.proxies c.keyed found).0 w c))
      ]

  pub remove-Coherent : (p : Pool) (id : String) → Coherent p → Coherent (remove p id).0
  unfolding remove clear_swrr clear_sticky
  remove-Coherent p id c = elim (Option-cases (lookup id p.proxies)) [
    | inl absent ↦ rw (absent, remove) c
    | inr (pr, found) ↦
        rw (found, remove)
          (notify-Coherent _ id true (rebuild-Coherent _ (delete-Keyed id p.proxies c.keyed)))
  ]

  pub set_country-Coherent :
      (p : Pool) (id country : String) → Coherent p → Coherent (set_country p id country)
  unfolding set_country
  set_country-Coherent p id country c = elim (Option-cases (lookup id p.proxies)) [
    | inl absent ↦ rw (absent, set_country) c
    | inr (pr, found) ↦
        let (e, w) = lookup-Keyed id p.proxies c.keyed found in
        rw (found, set_country)
          (if_cases Coherent (str_eq pr.country country) (λ _. c)
            (λ _.
              notify-Coherent _ id false
                (rebuilt_put p id (record pr { country = country }) e w c)))
  ]

  pub set_alive-Coherent :
      (p : Pool) (id : String) (alive : Bool) → Coherent p → Coherent (set_alive p id alive)
  unfolding set_alive
  set_alive-Coherent p id alive c = elim (Option-cases (lookup id p.proxies)) [
    | inl absent ↦ rw (absent, set_alive) c
    | inr (pr, found) ↦
        let (e, w) = lookup-Keyed id p.proxies c.keyed found in
        rw (found, set_alive)
          (notify-Coherent _ id false (rebuilt_put p id (record pr { alive = alive }) e w c))
  ]

failed_facts :
    (latency : ℤ) (pr : Proxy)
    → ((failed latency pr).id ≡ pr.id)
      × ((failed latency pr).weight ≡ pr.weight)
      × ((failed latency pr).alive ≡ pr.alive)
failed_facts latency pr = ground arith

succeeded_facts :
    (now : ℕ) (latency : ℤ) (pr : Proxy)
    → ((succeeded now latency pr).id ≡ pr.id)
      × ((succeeded now latency pr).weight ≡ pr.weight)
      × ((succeeded now latency pr).alive ≡ pr.alive)
succeeded_facts now latency pr = ground arith

-- A loop that deletes nothing leaves the map.
keep_entries_all :
    (t : Proxy → Bool) (m : List (String × Proxy))
    → ltb 0 (length (ids_where t m)) ≡ false
    → keep_entries (λ id pr. not (t pr)) m ≡ m
unfolding keep_entries ids_where
keep_entries_all t [] h = refl
keep_entries_all t ((id, pr) ∷ m) h = elim (Bool-cases (t pr)) [
  | inl hit ↦ absurd (ground arith)
  | inr miss ↦ rw miss (ap (λ l. (id, pr) ∷ l) (keep_entries_all t m (ground arith)))
]

clear_all_swrr_same :
    (p : Pool) (ids : List String)
    → ((clear_all_swrr p ids).proxies ≡ p.proxies) × ((clear_all_swrr p ids).snap ≡ p.snap)
unfolding clear_all_swrr clear_swrr
clear_all_swrr_same p [] = (refl, refl)
clear_all_swrr_same p (id ∷ ids) = clear_all_swrr_same (clear_swrr p id) ids

clear_all_sticky_same :
    (p : Pool) (ids : List String)
    → ((clear_all_sticky p ids).proxies ≡ p.proxies) × ((clear_all_sticky p ids).snap ≡ p.snap)
unfolding clear_all_sticky clear_sticky
clear_all_sticky_same p [] = (refl, refl)
clear_all_sticky_same p (id ∷ ids) = clear_all_sticky_same (clear_sticky p id) ids

module _ ⦃fl : Float64⦄ where
  pub mark_failed-Coherent :
      (p : Pool) (id : String) (latency : ℤ) → Coherent p → Coherent (mark_failed p id latency)
  unfolding mark_failed
  mark_failed-Coherent p id latency c = elim (Option-cases (lookup id p.proxies)) [
    | inl absent ↦ rw (absent, mark_failed) c
    | inr (pr, found) ↦
        let (e, w) = lookup-Keyed id p.proxies c.keyed found in
        let (fe, fw, fa) = failed_facts latency pr in
        let f = failed latency pr in
        rw (found, mark_failed)
          (notify-Coherent _ id false (
            if_cases Coherent (gives_up f)
              (λ _. rebuilt_put p id (record f { alive = false }) (fe ∙ e) (ap is_pos fw ∙ w) c)
              (λ _. put-Coherent p id pr f found fa (fe ∙ e) (ap is_pos fw ∙ w) c)))
  ]

  pub mark_success-Coherent :
      (now : ℕ) (p : Pool) (id : String) (latency : ℤ)
      → Coherent p
      → Coherent (mark_success now p id latency)
  unfolding mark_success
  mark_success-Coherent now p id latency c = elim (Option-cases (lookup id p.proxies)) [
    | inl absent ↦ rw (absent, mark_success) c
    | inr (pr, found) ↦
        let (e, w) = lookup-Keyed id p.proxies c.keyed found in
        let (se, sw, sa) = succeeded_facts now latency pr in
        let s = succeeded now latency pr in
        rw (found, mark_success)
          (notify-Coherent _ id false (
            if_cases Coherent s.alive
              (λ _. put-Coherent p id pr s found sa (se ∙ e) (ap is_pos sw ∙ w) c)
              (λ _. rebuilt_put p id (record s { alive = true }) (se ∙ e) (ap is_pos sw ∙ w) c)))
  ]

  pub remove_expired-Coherent :
      (now : ℕ) (p : Pool) → Coherent p → Coherent (remove_expired now p).0
  unfolding remove_expired
  remove_expired-Coherent now p c =
      let n = length (ids_where (is_expired now) p.proxies) in
      let kept = keep_entries (λ id pr. not (is_expired now pr)) p.proxies in
      if_cases (λ (out : Pool × ℕ). Coherent out.0) (ltb 0 n)
        (λ _. rebuild-Coherent _ (keep_entries-Keyed _ p.proxies c.keyed))
        (λ h.
          subst (λ m. IsCoherent m p.snap) (sym (keep_entries_all (is_expired now) p.proxies h)) c)

  pub remove_by_provider-Coherent :
      (p : Pool) (provider : String) → Coherent p → Coherent (remove_by_provider p provider).0
  unfolding remove_by_provider
  remove_by_provider-Coherent p provider c =
      let ids = ids_where (of_provider provider) p.proxies in
      let kept = keep_entries (λ id pr. not (of_provider provider pr)) p.proxies in
      let q : Pool = record p { proxies = kept } in
      let path =
        (clear_all_sticky_same (clear_all_swrr q ids) ids).0 ∙ (clear_all_swrr_same q ids).0 in
      if_cases (λ (out : Pool × ℕ). Coherent out.0) (ltb 0 (length ids))
        (λ _. rebuild-Coherent _ (subst Keyed (sym path) (keep_entries-Keyed _ p.proxies c.keyed)))
        (λ h.
          subst (λ m. IsCoherent m p.snap)
            (sym (keep_entries_all (of_provider provider) p.proxies h)) c)
