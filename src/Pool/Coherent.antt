-- ===== src/Pool/Coherent.antt =====
-- The snapshot of internal/pool/pool.go against the map of proxies.
use proxy_gateway.Prelude.{
  ℕ, suc, ◌+◌, ◌≤◌, ◌<◌, ◌≡◌, refl, sym, ap, ◌∙◌, subst, inl, inr, ◌↔◌, ℤ, String, true, List, [],
  ◌∷◌, map, arith, In, In-keep, In-keep_inv, In-map, In-map_inv, length, length-map, length-append,
  In-append_left, In-append_right, All, Bool-cases, Option-cases, is_pos, pos_part,
}
use proxy_gateway.Prelude.Dict.{lookup}
use proxy_gateway.Prelude.Float.{Float64}
use proxy_gateway.Model.{Proxy}
use proxy_gateway.Config.{GroupCfg}
use proxy_gateway.Pool.State.{Pool, Snapshot, GroupSnap, LayerSnap, PrioGroup, is_live, live_in}
use proxy_gateway.Pool.Layer.{build_layer, sum}
use proxy_gateway.Pool.Layer.Valid.{IsValid, build_layer-IsValid}
use proxy_gateway.Pool.Layer.Members.{build_layer-members}
use proxy_gateway.Pool.Region.{region_aggregates}
use proxy_gateway.Pool.Prio.{sort_alive, insert_sorted, comes_before, prio_groups}
use proxy_gateway.Pool.Prio.Tiles.{Tiles, prio_groups-Tiles, weights_of}
use proxy_gateway.Pool.Keyed.{Keyed, In-values, lookup-values, lookup-Keyed}
use proxy_gateway.Pool.Rebuild.{
  all_proxies, alive_proxies, backup_providers, backup_min_ratio, build_group, build_group_layers,
  build_groups, prio_snapshot, group_snapshot, snapshot_of, rebuild,
}
use proxy_gateway.Pool.Next.Safe.{HasShares}

-- A tier is well formed and holds live proxies only.
abbrev pub IsServing : List (String × Proxy) → LayerSnap → Type 0
IsServing m l = IsValid l × ((id : String) → In id l.proxies → live_in m id ≡ true)

-- The snapshot lists exactly the live proxies of the map; each tier of each group is well formed and
-- holds live proxies only; each legacy group has its shares within the list.
pub record IsCoherent (m : List (String × Proxy)) (s : Snapshot) : Type 0 where
  pub keyed : Keyed m
  pub listed : (id : String) → In id s.proxies ↔ (live_in m id ≡ true)
  pub tiers : All (λ g. All (IsServing m) g.layers) s.groups
  pub shares : All (λ g. HasShares (length s.proxies) g.start g.cum_w g.total_w) s.prio

abbrev pub Coherent : Pool → Type 0
Coherent p = IsCoherent p.proxies p.snap

live_of_alive :
    (p : Pool) (pr : Proxy) → Keyed p.proxies → In pr (alive_proxies p) → is_live p pr.id ≡ true
unfolding live_in
live_of_alive p pr k h =
    let (a, i) = In-keep_inv pr (λ (q : Proxy). q.alive) (all_proxies p) h in
    rw (In-values p.proxies pr k i, live_in) a

alive_of_live :
    (p : Pool) (id : String)
    → Keyed p.proxies
    → is_live p id ≡ true
    → (pr : Proxy) × (pr.id ≡ id) × In pr (alive_proxies p)
unfolding live_in
alive_of_live p id k h = elim (Option-cases (lookup id p.proxies)) [
  | inl missing ↦ absurd (ground arith)
  | inr (pr, found) ↦ (
    pr,
    (lookup-Keyed id p.proxies k found).0,
    In-keep pr (λ (q : Proxy). q.alive) (all_proxies p) (ground arith)
        (lookup-values id p.proxies found),
  )
]

module _ (x a : Proxy) where
  In-insert_sorted : (l : List Proxy) → In x (insert_sorted a l) ↔ In x (a ∷ l)
  unfolding insert_sorted
  In-insert_sorted [] = (λ h. h, λ h. h)
  In-insert_sorted (b ∷ l) = elim (Bool-cases (comes_before b a)) [
    | inr stop ↦ rw stop (λ h. h, λ h. h)
    | inl go ↦
        let (f, g) = In-insert_sorted l in
        rw go (
          λ h. elim h [
            | inl e ↦ inr (inl e)
            | inr i ↦ elim (f i) [ inl e ↦ inl e | inr j ↦ inr (inr j) ]
          ],
          λ h. elim h [
            | inl e ↦ inr (g (inl e))
            | inr i ↦ elim i [ inl e ↦ inl e | inr j ↦ inr (g (inr j)) ]
          ],
        )
  ]

pub In-sort_alive : (x : Proxy) (l : List Proxy) → In x (sort_alive l) ↔ In x l
unfolding sort_alive
In-sort_alive x [] = (λ h. h, λ h. h)
In-sort_alive x (a ∷ l) =
    let (f, g) = In-sort_alive x l in
    let (there, back) = In-insert_sorted x a (sort_alive l) in
    (
      λ h. elim (there h) [ inl e ↦ inl e | inr i ↦ inr (f i) ],
      λ h. back (elim h [ inl e ↦ inl e | inr i ↦ inr (g i) ]),
    )

ids_listed :
    (p : Pool) (prs : List Proxy)
    → Keyed p.proxies
    → ((x : Proxy) → In x prs ↔ In x (alive_proxies p))
    → (id : String) → In id (map (λ pr. pr.id) prs) ↔ (is_live p id ≡ true)
ids_listed p prs k same id = (
  λ h.
      let (pr, i, e) = In-map_inv (λ (q : Proxy). q.id) id prs h in
      rw e (live_of_alive p pr k ((same pr).0 i)),
  λ h.
      let (pr, e, i) = alive_of_live p id k h in
      rw (← e) (In-map (λ (q : Proxy). q.id) pr prs ((same pr).1 i)),
)

weights_pos :
    (now : List Proxy)
    → ((x : Proxy) → In x now → is_pos x.weight ≡ true)
    → 0 < length now
    → 0 < sum (weights_of now)
unfolding sum
weights_pos [] w h = h
weights_pos (x ∷ now) w h = ground (arith, w x (inl refl))

-- The legacy groups over proxies with positive weights.
tile_shares :
    ⦃fl : Float64⦄ (all : List Proxy) (gs : List PrioGroup) (prs : List Proxy) (i size : ℕ)
    → i + length prs ≤ size
    → ((x : Proxy) → In x prs → is_pos x.weight ≡ true)
    → Tiles all i prs gs
    → All (λ g. HasShares size g.start g.cum_w g.total_w) gs
tile_shares all [] prs i size fits pos_w t = tt
tile_shares all (g ∷ gs) prs i size fits pos_w (now, rest, e, run, differs, t) =
    let whole : length prs ≡ length now + length rest = ap length e ∙ length-append now rest in
    let in_now : (x : Proxy) → In x now → is_pos x.weight ≡ true =
      λ x h. pos_w x (subst (In x) (sym e) (In-append_left x now rest h)) in
    let in_rest : (x : Proxy) → In x rest → is_pos x.weight ≡ true =
      λ x h. pos_w x (subst (In x) (sym e) (In-append_right x now rest h)) in
    (
      record {
        ws = weights_of now;
        sums = run.sums;
        whole = run.total;
        positive = rw run.total (weights_pos now in_now run.filled);
        fits = omega (arith, length-map now (λ (q : Proxy). pos_part q.weight), run.starts);
      },
      tile_shares all gs rest g.end size (omega (arith, run.ends)) in_rest t,
    )

length-insert_sorted : (a : Proxy) (l : List Proxy) → length (insert_sorted a l) ≡ suc (length l)
unfolding insert_sorted
length-insert_sorted a [] = refl
length-insert_sorted a (b ∷ l) = ground (arith, length-insert_sorted a l)

pub length-sort_alive : (l : List Proxy) → length (sort_alive l) ≡ length l
unfolding sort_alive
length-sort_alive [] = refl
length-sort_alive (a ∷ l) = length-insert_sorted a (sort_alive l) ∙ ap suc (length-sort_alive l)

module _ ⦃fl : Float64⦄ (p : Pool) (k : Keyed p.proxies) where
  layer-IsServing :
      (name : String) (providers : List String) (weights : List (String × ℤ)) (min_ratio : ℕ)
      (regions : List String)
      → IsServing p.proxies (
          build_layer name providers weights min_ratio
            (region_aggregates regions (all_proxies p) (alive_proxies p)).1
            (region_aggregates regions (all_proxies p) (alive_proxies p)).0)
  layer-IsServing name providers weights min_ratio regions =
      let agg = region_aggregates regions (all_proxies p) (alive_proxies p) in
      (
        build_layer-IsValid name providers weights min_ratio agg.1 agg.0,
        λ id h.
            let (pr, e, a, r, j) =
              (build_layer-members name providers weights min_ratio regions (all_proxies p)
                  (alive_proxies p) id).0
                h in
            rw (← e) (live_of_alive p pr k a),
      )

  group-IsServing :
      (gc : GroupCfg)
      → All (IsServing p.proxies) (build_group (all_proxies p) (alive_proxies p) gc).layers
  unfolding build_group
  group-IsServing gc =
      let primary =
        layer-IsServing "primary" gc.primary gc.primary_weights gc.min_alive_ratio gc.regions in
      elim (backup_providers gc.backups)
        as (λ ps.
          All (IsServing p.proxies) (build_group_layers (all_proxies p) (alive_proxies p) gc ps)) [
            | [] ↦ (primary, tt)
            | pn ∷ more ↦ (
              primary,
              (
                layer-IsServing "backup" (pn ∷ more) gc.backup_weights (backup_min_ratio gc.backups)
                    gc.regions,
                tt,
              ),
            )
          ]

  groups-IsServing :
      (gcs : List GroupCfg)
      → All
          (λ (g : GroupSnap). All (IsServing p.proxies) g.layers)
          (map (build_group (all_proxies p) (alive_proxies p)) gcs)
  groups-IsServing [] = tt
  groups-IsServing (gc ∷ gcs) = (group-IsServing gc, groups-IsServing gcs)

  sorted_pos : (x : Proxy) → In x (sort_alive (alive_proxies p)) → is_pos x.weight ≡ true
  sorted_pos x h =
      let i =
        (In-keep_inv x (λ (q : Proxy). q.alive) (all_proxies p)
          ((In-sort_alive x (alive_proxies p)).0 h)).1 in
      (lookup-Keyed x.id p.proxies k (In-values p.proxies x k i)).1

  snapshot_cases :
      (P : Snapshot → Type 0) → P (prio_snapshot p) → P (group_snapshot p) → P (snapshot_of p)
  unfolding snapshot_of
  snapshot_cases P prio groups =
      elim p.groups_cfg
        as (λ cfg. P (elim cfg [ [] ↦ prio_snapshot p | gc ∷ rest ↦ group_snapshot p ])) [
          | [] ↦ prio
          | gc ∷ rest ↦ groups
        ]

  prio_IsCoherent : IsCoherent p.proxies (prio_snapshot p)
  prio_IsCoherent = record {
    keyed = k;
    listed = ids_listed p (sort_alive (alive_proxies p)) k (λ x. In-sort_alive x (alive_proxies p));
    tiers = tt;
    shares =
        tile_shares (all_proxies p) (prio_groups (all_proxies p) (sort_alive (alive_proxies p)))
          (sort_alive (alive_proxies p)) 0
          (length (map (λ pr. pr.id) (sort_alive (alive_proxies p))))
          (omega (arith, length-map (sort_alive (alive_proxies p)) (λ (q : Proxy). q.id)))
          sorted_pos (prio_groups-Tiles (all_proxies p) (sort_alive (alive_proxies p)));
  }

  group_IsCoherent : IsCoherent p.proxies (group_snapshot p)
  unfolding build_groups
  group_IsCoherent = record {
    keyed = k;
    listed = ids_listed p (alive_proxies p) k (λ x. (λ h. h, λ h. h));
    tiers = groups-IsServing p.groups_cfg;
    shares = tt;
  }

-- `rebuild` makes the snapshot coherent, whatever it was.
pub rebuild-Coherent : ⦃fl : Float64⦄ (p : Pool) → Keyed p.proxies → Coherent (rebuild p)
unfolding rebuild
rebuild-Coherent p k =
    snapshot_cases p k (λ s. IsCoherent p.proxies s) (prio_IsCoherent p k) (group_IsCoherent p k)
