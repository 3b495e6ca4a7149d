-- ===== src/Pool/Layer/Members.antt =====
-- Which proxies stand in a tier: `regionAggregates` and `buildLayer` of internal/pool/pool.go
-- together.
use proxy_gateway.Prelude.{
  ℕ, ◌+◌, ◌≡◌, refl, sym, subst, ◌∙◌, ◌⊎◌, inl, inr, String, true, List, [], ◌∷◌, ◌++◌, arith,
  str_eq_refl, In, In-append_cases, In-map_inv, Bool-cases, ◌↔◌, ℤ,
}
use proxy_gateway.Prelude.Dict.{lookup}
use proxy_gateway.Model.{Proxy}
use proxy_gateway.Pool.Region.{
  alive_lists, totals, region_aggregates, region_matches, list_at, count_at,
}
use proxy_gateway.Pool.Layer.{
  Collected, is_seen, collect_one, collect_alive, collect, start_collect, build_layer,
}
use proxy_gateway.Pool.Region.Lists.{lists_sound, lists_complete}
use proxy_gateway.Pool.Layer.Valid.{ids_of, seen_In, collect_tracks}

-- The loops of `buildLayer`: what was picked comes from the lists of the named providers, and what
-- stands in these is seen.
one_sound :
    (c : Collected) (q pr : Proxy) → In pr (collect_one c q).picked → In pr c.picked ⊎ (pr ≡ q)
unfolding collect_one
one_sound c q pr h = elim (Bool-cases (is_seen q.id c.seen)) [
  | inl old ↦ inl (rw (old, collect_one) at h)
  | inr new ↦
      let h' : In pr (c.picked ++ (q ∷ [])) = rw (new, collect_one) at h in
      elim (In-append_cases pr c.picked (q ∷ []) h') [
        | inl i ↦ inl i
        | inr (inl e) ↦ inr e
        | inr (inr none_left) ↦ absurd none_left
      ]
]

alive_sound :
    (qs : List Proxy) (c : Collected) (pr : Proxy)
    → In pr (collect_alive c qs).picked
    → In pr c.picked ⊎ In pr qs
unfolding collect_alive
alive_sound [] c pr h = inl h
alive_sound (q ∷ qs) c pr h = elim (alive_sound qs (collect_one c q) pr h) [
  | inr i ↦ inr (inr i)
  | inl g ↦ elim (one_sound c q pr g) [ inl old ↦ inl old | inr e ↦ inr (inl e) ]
]

module _ (alive_by : List (String × List Proxy)) (total_by : List (String × ℕ)) where
  abbrev counted : Collected → String → Collected
  counted c pn = record c { all_total = c.all_total + count_at pn total_by }

  collect_sound :
      (names : List String) (c : Collected) (pr : Proxy)
      → In pr (collect alive_by total_by c names).picked
      → In pr c.picked ⊎ ((pn : String) × In pn names × In pr (list_at pn alive_by))
  unfolding collect
  collect_sound [] c pr h = inl h
  collect_sound (pn ∷ names) c pr h =
      elim (collect_sound names (collect_alive (counted c pn) (list_at pn alive_by)) pr h) [
        | inr (k, i, j) ↦ inr (k, inr i, j)
        | inl g ↦ elim (alive_sound (list_at pn alive_by) (counted c pn) pr g) [
          | inl old ↦ inl old
          | inr i ↦ inr (pn, inl refl, i)
        ]
      ]

one_kept :
    (c : Collected) (q : Proxy) (x : String)
    → is_seen x c.seen ≡ true
    → is_seen x (collect_one c q).seen ≡ true
unfolding collect_one
one_kept c q x h = ground arith

one_seen : (c : Collected) (q : Proxy) → is_seen q.id (collect_one c q).seen ≡ true
unfolding collect_one
one_seen c q = ground (arith, str_eq_refl q.id)

alive_kept :
    (qs : List Proxy) (c : Collected) (x : String)
    → is_seen x c.seen ≡ true
    → is_seen x (collect_alive c qs).seen ≡ true
unfolding collect_alive
alive_kept [] c x h = h
alive_kept (q ∷ qs) c x h = alive_kept qs (collect_one c q) x (one_kept c q x h)

alive_seen :
    (qs : List Proxy) (c : Collected) (pr : Proxy)
    → In pr qs
    → is_seen pr.id (collect_alive c qs).seen ≡ true
unfolding collect_alive
alive_seen [] c pr h = absurd h
alive_seen (q ∷ qs) c pr (inl e) = alive_kept qs (collect_one c q) pr.id (rw e (one_seen c q))
alive_seen (q ∷ qs) c pr (inr h) = alive_seen qs (collect_one c q) pr h

module _ (alive_by : List (String × List Proxy)) (total_by : List (String × ℕ)) where
  collect_kept :
      (names : List String) (c : Collected) (x : String)
      → is_seen x c.seen ≡ true
      → is_seen x (collect alive_by total_by c names).seen ≡ true
  unfolding collect
  collect_kept [] c x h = h
  collect_kept (pn ∷ names) c x h =
      collect_kept names (collect_alive (counted alive_by total_by c pn) (list_at pn alive_by)) x
        (alive_kept (list_at pn alive_by) (counted alive_by total_by c pn) x h)

  collect_seen :
      (names : List String) (c : Collected) (pn : String) (pr : Proxy)
      → In pn names
      → In pr (list_at pn alive_by)
      → is_seen pr.id (collect alive_by total_by c names).seen ≡ true
  unfolding collect
  collect_seen [] c pn pr h i = absurd h
  collect_seen (k ∷ names) c pn pr (inl e) i =
      collect_kept names (collect_alive (counted alive_by total_by c k) (list_at k alive_by)) pr.id
        (alive_seen (list_at k alive_by) (counted alive_by total_by c k) pr
          (subst (λ n. In pr (list_at n alive_by)) e i))
  collect_seen (k ∷ names) c pn pr (inr h) i =
      collect_seen names (collect_alive (counted alive_by total_by c k) (list_at k alive_by)) pn pr
        h i

-- The tier that a group has for a list of providers: exactly the live proxies of these providers
-- whose country passes the group's region filter, by their IDs.
pub build_layer-members :
    (name : String) (providers : List String) (weights : List (String × ℤ)) (min_ratio : ℕ)
    (regions : List String) (all alive : List Proxy) (id : String)
    → In id
        (build_layer name providers weights min_ratio
          (region_aggregates regions all alive).1
          (region_aggregates regions all alive).0).proxies
      ↔ ((pr : Proxy) × (pr.id ≡ id)
          × In pr alive
          × (region_matches regions pr.country ≡ true)
          × In pr.provider providers)
unfolding build_layer region_aggregates lookup
build_layer-members name providers weights min_ratio regions all alive id = (there, back)
  where
    by : List (String × List Proxy)
    by = alive_lists regions alive []

    tot : List (String × ℕ)
    tot = totals regions all []

    there :
        In id (ids_of (collect by tot start_collect providers).picked)
        → (pr : Proxy) × (pr.id ≡ id)
          × In pr alive
          × (region_matches regions pr.country ≡ true)
          × In pr.provider providers
    there h =
        let (pr, i, e) = In-map_inv (λ (q : Proxy). q.id) id _ h in
        elim (collect_sound by tot providers start_collect pr i) [
          | inl none_left ↦ absurd none_left
          | inr (pn, j, k) ↦ elim (lists_sound regions alive [] pn pr k) [
            | inl none_left ↦ absurd none_left
            | inr (a, r, s) ↦ (pr, sym e, a, r, rw s j)
          ]
        ]

    back :
        (pr : Proxy) × (pr.id ≡ id)
          × In pr alive
          × (region_matches regions pr.country ≡ true)
          × In pr.provider providers
        → In id (ids_of (collect by tot start_collect providers).picked)
    back (pr, e, a, r, j) = rw (← e) (
        seen_In pr.id _ (
          sym (collect_tracks by tot providers pr.id)
          ∙ collect_seen by tot providers start_collect pr.provider pr j
              (lists_complete regions alive [] pr a r)))
