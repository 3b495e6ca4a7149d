-- ===== src/Pool/Layer/Valid.antt =====
-- The well-formed tiers, and that `buildLayer` of internal/pool/pool.go makes no other.
use proxy_gateway.Prelude.{
  ℕ, ◌+◌, ◌<◌, ◌≡◌, refl, sym, ap, ◌∙◌, inl, inr, String, true, false, List, [], ◌∷◌, ◌++◌, map,
  arith, str_eq, str_eq_iff, if◌then◌else◌, length, length-map, In, ℤ, Bool-cases,
}
use mathlib.Core.Bool.{false≢true}
use proxy_gateway.Model.{Proxy}
use proxy_gateway.Pool.State.{LayerSnap}
use proxy_gateway.Pool.Region.{count_at, list_at}
use proxy_gateway.Pool.Layer.{
  Collected, is_seen, collect_one, collect_alive, collect, layer_weight, running, sum, build_layer,
  start_collect,
}

abbrev pub ids_of : List Proxy → List String
ids_of = map (λ pr. pr.id)

-- Every number of the list is positive.
abbrev pub AllPositive : List ℕ → Type 0
AllPositive [] = Unit
AllPositive (w ∷ ws) = (0 < w) × AllPositive ws

-- No ID is listed twice.
abbrev pub NoDup : List String → Type 0
NoDup [] = Unit
NoDup (x ∷ xs) = (is_seen x xs ≡ false) × NoDup xs

pub seen_In : (x : String) (xs : List String) → is_seen x xs ≡ true → In x xs
seen_In x [] h = absurd (false≢true h)
seen_In x (y ∷ xs) h = elim (Bool-cases (str_eq x y)) [
  | inl same ↦ inl ((str_eq_iff x y).0 same)
  | inr other ↦ inr (seen_In x xs (rw other at h))
]

pub In-seen : (x : String) (xs : List String) → In x xs → is_seen x xs ≡ true
In-seen x [] h = absurd h
In-seen x (y ∷ xs) (inl e) = ground (arith, str_eq_iff x y)
In-seen x (y ∷ xs) (inr h) = ground (arith, In-seen x xs h)

-- The weights go with the proxies, and `cum_w` and `total_w` with the weights.
pub record IsValid (l : LayerSnap) : Type 0 where
  pub counted : l.alive_count ≡ length l.proxies
  pub weighed : length l.weight ≡ length l.proxies
  pub positive : AllPositive l.weight
  pub sums : l.cum_w ≡ running 0 l.weight
  pub total : l.total_w ≡ sum l.weight
  pub distinct : NoDup l.proxies

pub layer_weight-pos : (weights : List (String × ℤ)) (pr : Proxy) → 0 < layer_weight weights pr
unfolding layer_weight
layer_weight-pos weights pr = ground arith

map-AllPositive :
    (weights : List (String × ℤ)) (prs : List Proxy) → AllPositive (map (layer_weight weights) prs)
map-AllPositive weights [] = tt
map-AllPositive weights (pr ∷ prs) = (layer_weight-pos weights pr, map-AllPositive weights prs)

is_seen-append :
    (x : String) (xs : List String) (y : String)
    → is_seen x (xs ++ (y ∷ [])) ≡ (if is_seen x xs then true else str_eq x y)
is_seen-append x [] y = ground arith
is_seen-append x (z ∷ xs) y = ground (arith, is_seen-append x xs y)

NoDup-append :
    (xs : List String) (y : String) → NoDup xs → is_seen y xs ≡ false → NoDup (xs ++ (y ∷ []))
NoDup-append [] y d h = (refl, tt)
NoDup-append (x ∷ xs) y d h =
    ground (arith, NoDup-append xs y d.1, is_seen-append x xs y, str_eq_iff x y, str_eq_iff y x)

-- The set `seen` holds the IDs of what was picked, each once.
record IsTracked (c : Collected) : Type 0 where
  distinct : NoDup (ids_of c.picked)
  same : (x : String) → is_seen x c.seen ≡ is_seen x (ids_of c.picked)

map-snoc : (prs : List Proxy) (pr : Proxy) → ids_of (prs ++ (pr ∷ [])) ≡ ids_of prs ++ (pr.id ∷ [])
map-snoc [] pr = refl
map-snoc (x ∷ prs) pr = ap (λ l. x.id ∷ l) (map-snoc prs pr)

collect_one-IsTracked : (c : Collected) (pr : Proxy) → IsTracked c → IsTracked (collect_one c pr)
unfolding collect_one
collect_one-IsTracked c pr t = elim (Bool-cases (is_seen pr.id c.seen)) [
  | inl old ↦ rw old t
  | inr new ↦ rw new (record {
    distinct =
        rw (map-snoc c.picked pr)
          (NoDup-append (ids_of c.picked) pr.id t.distinct (sym (t.same pr.id) ∙ new));
    same = λ x.
        rw (map-snoc c.picked pr, is_seen-append x (ids_of c.picked) pr.id)
          (ground (arith, t.same x, str_eq_iff x pr.id));
  })
]

collect_alive-IsTracked :
    (c : Collected) (prs : List Proxy) → IsTracked c → IsTracked (collect_alive c prs)
unfolding collect_alive
collect_alive-IsTracked c [] t = t
collect_alive-IsTracked c (pr ∷ prs) t =
    collect_alive-IsTracked (collect_one c pr) prs (collect_one-IsTracked c pr t)

collect-IsTracked :
    (alive_by : List (String × List Proxy)) (total_by : List (String × ℕ)) (names : List String)
    (c : Collected)
    → IsTracked c
    → IsTracked (collect alive_by total_by c names)
unfolding collect
collect-IsTracked alive_by total_by [] c t = t
collect-IsTracked alive_by total_by (pn ∷ names) c t = collect-IsTracked alive_by total_by names _ (
    collect_alive-IsTracked (record c { all_total = c.all_total + count_at pn total_by })
      (list_at pn alive_by) (record { distinct = t.distinct; same = t.same }))

-- What the loops have seen is what they have picked.
pub collect_tracks :
    (alive_by : List (String × List Proxy)) (total_by : List (String × ℕ)) (names : List String)
    (x : String)
    → is_seen x (collect alive_by total_by start_collect names).seen
      ≡ is_seen x (ids_of (collect alive_by total_by start_collect names).picked)
collect_tracks alive_by total_by names x =
    (collect-IsTracked alive_by total_by names start_collect
        (record { distinct = tt; same = λ y. refl })).same
      x

-- Every tier that `build_layer` makes is well formed: no proxy stands in it twice, each has a
-- positive weight, and the running sums and the total are those of the weights.
pub build_layer-IsValid :
    (name : String) (providers : List String) (weights : List (String × ℤ)) (min_ratio : ℕ)
    (alive_by : List (String × List Proxy)) (total_by : List (String × ℕ))
    → IsValid (build_layer name providers weights min_ratio alive_by total_by)
unfolding build_layer
build_layer-IsValid name providers weights min_ratio alive_by total_by =
    let c = collect alive_by total_by start_collect providers in
    let t : IsTracked c =
      collect-IsTracked alive_by total_by providers start_collect
        (record { distinct = tt; same = λ x. refl }) in
    record {
      counted = sym (length-map c.picked (λ pr. pr.id));
      weighed =
          length-map c.picked (layer_weight weights) ∙ sym (length-map c.picked (λ pr. pr.id));
      positive = map-AllPositive weights c.picked;
      sums = refl;
      total = refl;
      distinct = t.distinct;
    }
