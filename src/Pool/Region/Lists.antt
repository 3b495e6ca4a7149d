-- ===== src/Pool/Region/Lists.antt =====
-- What the map `aliveProv` of `regionAggregates` in internal/pool/pool.go holds.
use proxy_gateway.Prelude.{
  ◌≡◌, refl, sym, subst, ◌∙◌, ◌⊎◌, inl, inr, String, true, List, [], ◌∷◌, ◌++◌, arith, str_eq,
  str_eq_iff, str_eq_refl, if◌then◌else◌, In, In-append_left, In-append_right, In-append_cases,
  Bool-cases, and-eq-true, ◌&&◌,
}
use proxy_gateway.Prelude.Dict.{insert, lookup-insert}
use proxy_gateway.Model.{Proxy}
use proxy_gateway.Pool.Region.{alive_lists, region_matches, list_at}

list_at-insert :
    (k j : String) (l : List Proxy) (m : List (String × List Proxy))
    → list_at k (insert j l m) ≡ (if str_eq j k then l else list_at k m)
list_at-insert k j l m = ground (arith, lookup-insert j k l m)

-- What the lists of one provider hold.
abbrev pub FromAlive : List String → List Proxy → String → Proxy → Type 0
FromAlive regions alive k pr =
    In pr alive × (region_matches regions pr.country ≡ true) × (pr.provider ≡ k)

-- One turn of the loop.
abbrev step : List String → Proxy → List (String × List Proxy) → List (String × List Proxy)
step regions q m =
    if region_matches regions q.country
    then insert q.provider (list_at q.provider m ++ (q ∷ [])) m
    else m

list_at-step :
    (regions : List String) (q : Proxy) (m : List (String × List Proxy)) (k : String)
    → list_at k (step regions q m) ≡ (
        if region_matches regions q.country && str_eq q.provider k
        then list_at k m ++ (q ∷ [])
        else list_at k m)
list_at-step regions q m k = elim (Bool-cases (region_matches regions q.country)) [
  | inr out ↦ rw out
  | inl hit ↦ rw hit (elim (Bool-cases (str_eq q.provider k)) [
    | inr other ↦ list_at-insert k q.provider _ m ∙ rw (other)
    | inl same ↦
        let e : q.provider ≡ k = (str_eq_iff q.provider k).0 same in
        list_at-insert k q.provider _ m ∙ rw (same, e)
  ])
]

step_sound :
    (regions : List String) (q : Proxy) (m : List (String × List Proxy)) (k : String) (pr : Proxy)
    → In pr (list_at k (step regions q m))
    → In pr (list_at k m)
      ⊎ ((pr ≡ q) × (region_matches regions q.country ≡ true) × (q.provider ≡ k))
step_sound regions q m k pr h =
    elim (Bool-cases (region_matches regions q.country && str_eq q.provider k)) [
      | inr out ↦ inl (subst (In pr) (list_at-step regions q m k ∙ rw out) h)
      | inl hit ↦
          let h' : In pr (list_at k m ++ (q ∷ [])) =
            subst (In pr) (list_at-step regions q m k ∙ rw hit) h in
          let (r, s) = and-eq-true _ _ hit in
          elim (In-append_cases pr (list_at k m) (q ∷ []) h') [
            | inl old ↦ inl old
            | inr (inl e) ↦ inr (e, r, (str_eq_iff q.provider k).0 s)
            | inr (inr none_left) ↦ absurd none_left
          ]
    ]

step_kept :
    (regions : List String) (q : Proxy) (m : List (String × List Proxy)) (k : String) (pr : Proxy)
    → In pr (list_at k m)
    → In pr (list_at k (step regions q m))
step_kept regions q m k pr h =
    elim (Bool-cases (region_matches regions q.country && str_eq q.provider k)) [
      | inr out ↦ subst (In pr) (sym (list_at-step regions q m k ∙ rw out)) h
      | inl hit ↦
          subst (In pr) (sym (list_at-step regions q m k ∙ rw hit))
            (In-append_left pr (list_at k m) (q ∷ []) h)
    ]

step_added :
    (regions : List String) (q : Proxy) (m : List (String × List Proxy))
    → region_matches regions q.country ≡ true
    → In q (list_at q.provider (step regions q m))
step_added regions q m hit =
    let both : (region_matches regions q.country && str_eq q.provider q.provider) ≡ true =
      rw (hit, str_eq_refl q.provider) in
    subst (In q) (sym (list_at-step regions q m q.provider ∙ rw both))
      (In-append_right q (list_at q.provider m) (q ∷ []) (inl refl))

pub lists_sound :
    (regions : List String) (alive : List Proxy) (m : List (String × List Proxy)) (k : String)
    (pr : Proxy)
    → In pr (list_at k (alive_lists regions alive m))
    → In pr (list_at k m) ⊎ FromAlive regions alive k pr
unfolding alive_lists
lists_sound regions [] m k pr h = inl h
lists_sound regions (q ∷ alive) m k pr h =
    elim (lists_sound regions alive (step regions q m) k pr h) [
      | inr (i, r, s) ↦ inr (inr i, r, s)
      | inl g ↦ elim (step_sound regions q m k pr g) [
        | inl old ↦ inl old
        | inr (e, r, s) ↦ inr (inl e, rw e r, rw e s)
      ]
    ]

lists_kept :
    (regions : List String) (alive : List Proxy) (m : List (String × List Proxy)) (k : String)
    (pr : Proxy)
    → In pr (list_at k m)
    → In pr (list_at k (alive_lists regions alive m))
unfolding alive_lists
lists_kept regions [] m k pr h = h
lists_kept regions (q ∷ alive) m k pr h =
    lists_kept regions alive (step regions q m) k pr (step_kept regions q m k pr h)

pub lists_complete :
    (regions : List String) (alive : List Proxy) (m : List (String × List Proxy)) (pr : Proxy)
    → In pr alive
    → region_matches regions pr.country ≡ true
    → In pr (list_at pr.provider (alive_lists regions alive m))
unfolding alive_lists
lists_complete regions [] m pr h r = absurd h
lists_complete regions (q ∷ alive) m pr (inl e) r =
    lists_kept regions alive (step regions q m) pr.provider pr
      (rw e (step_added regions q m (rw e at r)))
lists_complete regions (q ∷ alive) m pr (inr h) r =
    lists_complete regions alive (step regions q m) pr h r
