-- ===== src/Pool/Next/Failover.antt =====
-- The choice within a tier and the failover over the tiers of a group, in internal/pool/pool.go.
use proxy_gateway.Prelude.{
  ◌+◌, ◌<◌, ◌≡◌, refl, ap, ◌⊎◌, inl, inr, String, Bool, true, false, ◌||◌, List, [], ◌∷◌, ◌++◌,
  arith, if◌then◌else◌, In, length, All, Bool-cases, if_cases, ◌==◌,
}
use proxy_gateway.Prelude.Float.{Float64}
use proxy_gateway.Pool.State.{Pool, LayerSnap}
use proxy_gateway.Pool.Layer.Valid.{IsValid}
use proxy_gateway.Pool.Search.{Pick, nil, panic, pick, Draws, skip, weighted}
use proxy_gateway.Pool.Swrr.{pick_swrr}
use proxy_gateway.Pool.Swrr.Turns.{pick_swrr-IsFairTurn}
use proxy_gateway.Pool.Next.{
  is_excluded, is_empty, try_weighted, try_swrr, pick_layer, skips, next_from_layers,
}
use proxy_gateway.Pool.Next.Safe.{
  Picks, Picks-mono, IsBounded, Allowed, OnlySwrr, layer_shares, weighted-In, try_weighted-Picks,
  try_swrr-Picks, pick_swrr-OnlySwrr, OnlySwrr-trans,
}

module _ ⦃fl : Float64⦄ (rnd : Draws) (p : Pool) (l : LayerSnap) (exclude : List String) where
  -- The branches of `pickLayer`.
  pick_layer_cases :
      (P : Pick × Pool → Type 0)
      → (((l.total_w == 0) || is_empty l.proxies) ≡ true → P (nil, p))
      → (((l.total_w == 0) || is_empty l.proxies) ≡ false
          → is_empty exclude ≡ true
          → P (pick_swrr p l))
      → (((l.total_w == 0) || is_empty l.proxies) ≡ false
          → is_empty exclude ≡ true
          → P (weighted l.proxies 0 l.cum_w l.total_w (rnd 0 l.total_w), p))
      → (((l.total_w == 0) || is_empty l.proxies) ≡ false
          → is_empty exclude ≡ false
          → P (try_swrr (length l.proxies) p l exclude))
      → (((l.total_w == 0) || is_empty l.proxies) ≡ false
          → is_empty exclude ≡ false
          → P (try_weighted 1000 rnd 0 exclude l.proxies 0 l.cum_w l.total_w, p))
      → P (pick_layer rnd p l exclude)
  unfolding pick_layer
  pick_layer_cases P none_left swrr random swrr_tries random_tries =
      if_cases P ((l.total_w == 0) || is_empty l.proxies) none_left (λ e.
        if_cases P (is_empty exclude) (λ f. if_cases P l.use_swrr (λ _. swrr e f) (λ _. random e f))
          (λ f. if_cases P l.use_swrr (λ _. swrr_tries e f) (λ _. random_tries e f)))

list_cases : {A : Type 0} (xs : List A) → (xs ≡ []) ⊎ (is_empty xs ≡ false)
list_cases [] = inl refl
list_cases (x ∷ xs) = inr refl

not_empty : {A : Type 0} (xs : List A) (b : Bool) → (b || is_empty xs) ≡ false → 0 < length xs
not_empty [] b h = absurd (ground arith)
not_empty (x ∷ xs) b h = omega arith

filled :
    (l : LayerSnap)
    → 0 < l.total_w
    → 0 < length l.proxies
    → ((l.total_w == 0) || is_empty l.proxies) ≡ true
    → ⊥
filled l t h e = elim (list_cases l.proxies) [
  | inl empty ↦ absurd (omega (arith, ap length empty))
  | inr full ↦ ground arith
]

skips_filled : ⦃fl : Float64⦄ (l : LayerSnap) → IsValid l → skips l ≡ false → 0 < length l.proxies
unfolding skips
skips_filled l v s = ground arith

pub Pick-cases : (out : Pick) → (out ≡ nil) ⊎ (out ≡ panic) ⊎ ((id : String) × (out ≡ pick id))
Pick-cases nil = inl refl
Pick-cases panic = inr (inl refl)
Pick-cases (pick id) = inr (inr (id, refl))

empty_exclude :
    (id : String) (exclude : List String) → is_empty exclude ≡ true → is_excluded id exclude ≡ false
empty_exclude id [] h = refl
empty_exclude id (x ∷ xs) h = cc

module _ ⦃fl : Float64⦄ where
  pub pick_layer-Picks :
      (rnd : Draws) (p : Pool) (l : LayerSnap) (exclude : List String)
      → IsBounded rnd
      → IsValid l
      → Picks (Allowed l.proxies exclude) (pick_layer rnd p l exclude).0
        × OnlySwrr p (pick_layer rnd p l exclude).1
  pick_layer-Picks rnd p l exclude b v =
      pick_layer_cases rnd p l exclude
        (λ out. Picks (Allowed l.proxies exclude) out.0 × OnlySwrr p out.1) (λ e. (tt, refl))
        (λ e f.
          let (id, g, fair) = pick_swrr-IsFairTurn p l v (not_empty l.proxies (l.total_w == 0) e) in
          (rw g (fair.member, empty_exclude id exclude f), pick_swrr-OnlySwrr p l))
        (λ e f.
          let shares = layer_shares l v (not_empty l.proxies (l.total_w == 0) e) in
          let (id, g, i) =
            weighted-In l.proxies 0 l.cum_w l.total_w (rnd 0 l.total_w) shares
              (b 0 l.total_w shares.positive) in
          (rw g (i, empty_exclude id exclude f), refl))
        (λ e f.
          try_swrr-Picks (length l.proxies) p l exclude v (not_empty l.proxies (l.total_w == 0) e))
        (λ e f. (
          try_weighted-Picks 1000 rnd 0 exclude l.proxies 0 l.cum_w l.total_w b
              (layer_shares l v (not_empty l.proxies (l.total_w == 0) e)),
          refl,
        ))

  -- With nothing excluded, a tier with live proxies yields one of them.
  pub pick_layer_succeeds :
      (rnd : Draws) (p : Pool) (l : LayerSnap)
      → IsBounded rnd
      → IsValid l
      → 0 < length l.proxies
      → (id : String) × ((pick_layer rnd p l []).0 ≡ pick id) × In id l.proxies
  pick_layer_succeeds rnd p l b v h =
      let shares = layer_shares l v h in
      pick_layer_cases rnd p l [] (λ out. (id : String) × (out.0 ≡ pick id) × In id l.proxies)
        (λ e. absurd (filled l shares.positive h e))
        (λ e f. let (id, g, fair) = pick_swrr-IsFairTurn p l v h in (id, g, fair.member))
        (λ e f.
          weighted-In l.proxies 0 l.cum_w l.total_w (rnd 0 l.total_w) shares
            (b 0 l.total_w shares.positive))
        (λ e f. cc) (λ e f. cc)

  -- What follows on a tier that yields nothing.
  abbrev after : Draws → LayerSnap → Draws
  after rnd l = if l.use_swrr then rnd else skip 1000 rnd

  module _ (rnd : Draws) (p : Pool) (l : LayerSnap) (ls : List LayerSnap)
      (exclude : List String) where
    layers_skip :
        skips l ≡ true → next_from_layers rnd p (l ∷ ls) exclude ≡ next_from_layers rnd p ls exclude
    unfolding next_from_layers
    layers_skip s = ground arith

    layers_pick :
        (id : String)
        → skips l ≡ false
        → (pick_layer rnd p l exclude).0 ≡ pick id
        → next_from_layers rnd p (l ∷ ls) exclude ≡ (pick id, (pick_layer rnd p l exclude).1)
    unfolding next_from_layers
    layers_pick id s e = ground arith

    layers_nil :
        skips l ≡ false
        → (pick_layer rnd p l exclude).0 ≡ nil
        → next_from_layers rnd p (l ∷ ls) exclude
          ≡ next_from_layers (after rnd l) (pick_layer rnd p l exclude).1 ls exclude
    unfolding next_from_layers
    layers_nil s e = rw (s, e, next_from_layers)

  after-IsBounded : (rnd : Draws) (l : LayerSnap) → IsBounded rnd → IsBounded (after rnd l)
  after-IsBounded rnd l b = if_cases IsBounded l.use_swrr (λ _. b) (λ _ k n h. b (1000 + k) n h)

  -- A proxy of a usable tier that is not excluded.
  abbrev pub Served : List LayerSnap → List String → String → Type 0
  Served ls exclude id =
      (l : LayerSnap) × In l ls × (skips l ≡ false) × Allowed l.proxies exclude id

  Served-more :
      (l : LayerSnap) (ls : List LayerSnap) (exclude : List String) (id : String)
      → Served ls exclude id
      → Served (l ∷ ls) exclude id
  Served-more l ls exclude id (k, i, s, a) = (k, inr i, s, a)

  -- Over well-formed tiers the loop never panics: it returns nil, or a proxy of a tier that has the
  -- required share of live proxies, and never an excluded one. Nothing of the pool changes but the
  -- weights of the round robin.
  pub next_from_layers-Picks :
      (ls : List LayerSnap) (rnd : Draws) (p : Pool) (exclude : List String)
      → IsBounded rnd
      → All IsValid ls
      → Picks (Served ls exclude) (next_from_layers rnd p ls exclude).0
        × OnlySwrr p (next_from_layers rnd p ls exclude).1
  next_from_layers-Picks [] rnd p exclude b v = unfold next_from_layers in (tt, refl)
  next_from_layers-Picks (l ∷ ls) rnd p exclude b (v, vs) = elim (Bool-cases (skips l)) [
    | inl s ↦
        let (picks, same) = next_from_layers-Picks ls rnd p exclude b vs in
        rw (layers_skip rnd p l ls exclude s) (Picks-mono _ (Served-more l ls exclude) picks, same)
    | inr s ↦
        let (picks, same) = pick_layer-Picks rnd p l exclude b v in
        let q = (pick_layer rnd p l exclude).1 in
        elim (Pick-cases (pick_layer rnd p l exclude).0) [
          | inl e ↦
              let (more, still) =
                next_from_layers-Picks ls (after rnd l) q exclude (after-IsBounded rnd l b) vs in
              rw (layers_nil rnd p l ls exclude s e)
                (Picks-mono _ (Served-more l ls exclude) more, OnlySwrr-trans p q _ same still)
          | inr (inl e) ↦ absurd (rw e at picks)
          | inr (inr (id, e)) ↦
              rw (layers_pick rnd p l ls exclude id s e) ((l, inl refl, s, rw e at picks), same)
        ]
  ]

  -- Failover: with nothing excluded, the proxy comes from the first usable tier, whatever stands
  -- behind it.
  pub next_from_layers_first :
      (before ls : List LayerSnap) (l : LayerSnap) (rnd : Draws) (p : Pool)
      → IsBounded rnd
      → All (λ k. skips k ≡ true) before
      → skips l ≡ false
      → IsValid l
      → (id : String) × ((next_from_layers rnd p (before ++ (l ∷ ls)) []).0 ≡ pick id)
        × In id l.proxies
  next_from_layers_first [] ls l rnd p b u s v =
      let (id, e, i) = pick_layer_succeeds rnd p l b v (skips_filled l v s) in
      (id, rw (layers_pick rnd p l ls [] id s e), i)
  next_from_layers_first (k ∷ before) ls l rnd p b (u, us) s v =
      let (id, e, i) = next_from_layers_first before ls l rnd p b us s v in
      (id, rw (layers_skip rnd p k (before ++ (l ∷ ls)) [] u) e, i)
