-- ===== src/Pool/Next.antt =====
-- The selection of internal/pool/pool.go: `pickLayer`, `nextFromGroup`, `NextInGroup`,
-- `NextInGroupExcluding`, `nextPrio`, `Next` and `NextExcluding`. `exclude` is a set of IDs; nil and
-- the empty set are the empty list.
pub mod Safe
pub mod Failover
use proxy_gateway.Prelude.{
  ℕ, zero, suc, ◌+◌, String, Bool, true, false, ◌||◌, List, [], ◌∷◌, Option, none, some, ltb, ◌==◌,
  str_eq, if◌then◌else◌, any, length,
}
use proxy_gateway.Prelude.Float.{Float64}
use proxy_gateway.Pool.State.{Pool, LayerSnap, GroupSnap, PrioGroup, Snapshot}
use proxy_gateway.Pool.Search.{Pick, nil, panic, pick, Draws, skip, weighted}
use proxy_gateway.Pool.Swrr.{pick_swrr}

abbrev pub is_excluded : String → List String → Bool
is_excluded id = any (str_eq id)

abbrev pub is_empty {ℓ} : {A : Type ℓ} → List A → Bool
is_empty [] = true
is_empty (x ∷ xs) = false

-- `for range n` with a weighted choice in each round, until one is not excluded. Draw by draw from
-- index `k` on.
unfoldable pub try_weighted : ℕ → Draws → ℕ → List String → List String → ℕ → List ℕ → ℕ → Pick
try_weighted zero rnd k exclude ids start cum total = nil
try_weighted (suc n) rnd k exclude ids start cum total =
    elim (weighted ids start cum total (rnd k total)) [
      | nil ↦ nil
      | panic ↦ panic
      | pick id ↦ elim (is_excluded id exclude) [
        | true ↦ try_weighted n rnd (k + 1) exclude ids start cum total
        | false ↦ pick id
      ]
    ]

module _ ⦃fl : Float64⦄ where
  -- `for range len(l.proxies)` with `pickSWRR` in each round. A nil proxy would be dereferenced.
  unfoldable pub try_swrr : ℕ → Pool → LayerSnap → List String → Pick × Pool
  try_swrr zero p l exclude = (nil, p)
  try_swrr (suc n) p l exclude =
      let (out, q) = pick_swrr p l in
      elim out [
        | nil ↦ (panic, q)
        | panic ↦ (panic, q)
        | pick id ↦ elim (is_excluded id exclude) [
          | true ↦ try_swrr n q l exclude
          | false ↦ (pick id, q)
        ]
      ]

  unfoldable pub pick_layer : Draws → Pool → LayerSnap → List String → Pick × Pool
  pick_layer rnd p l exclude =
      if (l.total_w == 0) || is_empty l.proxies
      then (nil, p)
      else if is_empty exclude
      then if l.use_swrr
        then pick_swrr p l
        else (weighted l.proxies 0 l.cum_w l.total_w (rnd 0 l.total_w), p)
      else if l.use_swrr
      then try_swrr (length l.proxies) p l exclude
      else (try_weighted 1000 rnd 0 exclude l.proxies 0 l.cum_w l.total_w, p)

  -- float64(alive) / float64(total) < ratio
  abbrev pub below_ratio : ℕ → ℕ → ℕ → Bool
  below_ratio alive total ratio = fl.less (fl.div (fl.of_int alive) (fl.of_int total)) ratio

  unfoldable pub skips : LayerSnap → Bool
  skips l = (l.alive_count == 0) || below_ratio l.alive_count l.alive_total l.min_ratio

  -- The loop over the tiers, of `nextFromGroup` and of `NextInGroupExcluding`. A tier that yields
  -- nothing has used 1000 draws, or none at all.
  unfoldable pub next_from_layers : Draws → Pool → List LayerSnap → List String → Pick × Pool
  next_from_layers rnd p [] exclude = (nil, p)
  next_from_layers rnd p (l ∷ ls) exclude = elim (skips l) [
    | true ↦ next_from_layers rnd p ls exclude
    | false ↦
        let (out, q) = pick_layer rnd p l exclude in
        elim out [
          | nil ↦ next_from_layers (if l.use_swrr then rnd else skip 1000 rnd) q ls exclude
          | panic ↦ (panic, q)
          | pick id ↦ (pick id, q)
        ]
  ]

  abbrev pub next_from_group : Draws → Pool → GroupSnap → List String → Pick × Pool
  next_from_group rnd p g exclude = next_from_layers rnd p g.layers exclude

  -- The loop over the groups: the first of the name.
  unfoldable pub find_group : String → List GroupSnap → Option GroupSnap
  find_group name [] = none
  find_group name (g ∷ gs) = if str_eq g.name name then some g else find_group name gs

  unfoldable pub next_in_group : Draws → Pool → String → Pick × Pool
  next_in_group rnd p group = elim (find_group group p.snap.groups) [
    | none ↦ (nil, p)
    | some g ↦ next_from_group rnd p g []
  ]

  unfoldable pub next_in_group_excluding : Draws → Pool → String → List String → Pick × Pool
  next_in_group_excluding rnd p group exclude =
      if is_empty exclude
      then next_in_group rnd p group
      else elim (find_group group p.snap.groups) [
        | none ↦ (nil, p)
        | some g ↦ next_from_layers rnd p g.layers exclude
      ]

  unfoldable pub prio_skips : PrioGroup → Bool
  prio_skips g = (g.alive_count == 0) || below_ratio g.alive_count g.alive_total g.min_ratio

  unfoldable pub prio_loop : Draws → List String → List PrioGroup → List String → Pick
  prio_loop rnd ids [] exclude = nil
  prio_loop rnd ids (g ∷ gs) exclude = elim (prio_skips g) [
    | true ↦ prio_loop rnd ids gs exclude
    | false ↦ elim (try_weighted 1000 rnd 0 exclude ids g.start g.cum_w g.total_w) [
      | nil ↦ prio_loop (skip 1000 rnd) ids gs exclude
      | panic ↦ panic
      | pick id ↦ pick id
    ]
  ]

  abbrev pub next_prio : Draws → Snapshot → List String → Pick
  next_prio rnd snap exclude = prio_loop rnd snap.proxies snap.prio exclude

  unfoldable pub next : Draws → Pool → Pick × Pool
  next rnd p = elim p.snap.groups [
    | [] ↦ (next_prio rnd p.snap [], p)
    | g ∷ gs ↦ next_from_group rnd p g []
  ]

  unfoldable pub next_excluding : Draws → Pool → List String → Pick × Pool
  next_excluding rnd p exclude = if is_empty exclude then next rnd p else elim p.snap.groups [
    | [] ↦ (next_prio rnd p.snap exclude, p)
    | g ∷ gs ↦ next_in_group_excluding rnd p g.name exclude
  ]
