-- ===== src/Pool/Next/Safe.antt =====
-- What the selections of internal/pool/pool.go return, tier by tier.
use proxy_gateway.Prelude.{
  ℕ, zero, suc, ◌+◌, ◌≤◌, ◌<◌, ◌≡◌, refl, ap, ◌∙◌, subst, inl, inr, String, true, false, List, [],
  ◌∷◌, some, arith, In, length, get_elem?, Bool-cases,
}
use proxy_gateway.Prelude.Float.{Float64}
use proxy_gateway.Pool.State.{Pool, LayerSnap}
use proxy_gateway.Pool.Layer.{running, sum}
use proxy_gateway.Pool.Layer.Valid.{IsValid, AllPositive}
use proxy_gateway.Pool.Search.{Pick, nil, panic, pick, Draws, weighted}
use proxy_gateway.Pool.Search.Choice.{weighted-share}
use proxy_gateway.Pool.Swrr.{pick_swrr}
use proxy_gateway.Pool.Swrr.Turns.{pick_swrr-IsFairTurn}
use proxy_gateway.Pool.Next.{is_excluded, try_weighted, try_swrr}

-- Nil, or a proxy with the property; never a panic.
abbrev pub Picks : (String → Type 0) → Pick → Type 0
Picks P nil = Unit
Picks P panic = ⊥
Picks P (pick id) = P id

pub Picks-mono :
    {P Q : String → Type 0} (out : Pick) → ((id : String) → P id → Q id) → Picks P out → Picks Q out
Picks-mono nil f h = tt
Picks-mono panic f h = h
Picks-mono (pick id) f h = f id h

-- A draw is below its bound.
abbrev pub IsBounded : Draws → Type 0
IsBounded rnd = (k n : ℕ) → 0 < n → rnd k n < n

-- The weights of `n` proxies from index `start` on, with their sums.
pub record HasShares (size start : ℕ) (cum : List ℕ) (total : ℕ) : Type 0 where
  pub ws : List ℕ
  pub sums : cum ≡ running 0 ws
  pub whole : total ≡ sum ws
  pub positive : 0 < total
  pub fits : start + length ws ≤ size

get_elem?-In : {A : Type 0} (xs : List A) (i : ℕ) {x : A} → get_elem? xs i ≡ some x → In x xs
get_elem?-In [] i h = absurd (cc)
get_elem?-In (y ∷ xs) zero h = inl (ground arith)
get_elem?-In (y ∷ xs) (suc i) h = inr (get_elem?-In xs i h)

pub weighted-In :
    (ids : List String) (start : ℕ) (cum : List ℕ) (total t : ℕ)
    → HasShares (length ids) start cum total
    → t < total
    → (id : String) × (weighted ids start cum total t ≡ pick id) × In id ids
weighted-In ids start cum total t s h =
    let (j, id, e, found, in_range, low, high) =
      weighted-share ids start s.ws t s.fits (subst (λ n. t < n) s.whole h) in
    (id, rw (s.sums, s.whole) e, get_elem?-In ids (start + j) found)

-- A proxy of the list that is not excluded.
abbrev pub Allowed : List String → List String → String → Type 0
Allowed ids exclude id = In id ids × (is_excluded id exclude ≡ false)

module _ (n : ℕ) (rnd : Draws) (k : ℕ) (exclude ids : List String) (start : ℕ) (cum : List ℕ)
    (total : ℕ) (id : String) (e : weighted ids start cum total (rnd k total) ≡ pick id) where
  try_weighted_again :
      is_excluded id exclude ≡ true
      → try_weighted (suc n) rnd k exclude ids start cum total
        ≡ try_weighted n rnd (k + 1) exclude ids start cum total
  unfolding try_weighted
  try_weighted_again out = ground arith

  try_weighted_found :
      is_excluded id exclude ≡ false
      → try_weighted (suc n) rnd k exclude ids start cum total ≡ pick id
  unfolding try_weighted
  try_weighted_found allowed = ground arith

pub try_weighted_nil :
    (rnd : Draws) (k : ℕ) (exclude ids : List String) (start : ℕ) (cum : List ℕ) (total : ℕ)
    → try_weighted zero rnd k exclude ids start cum total ≡ nil
unfolding try_weighted
try_weighted_nil rnd k exclude ids start cum total = refl

pub try_weighted-Picks :
    (n : ℕ) (rnd : Draws) (k : ℕ) (exclude ids : List String) (start : ℕ) (cum : List ℕ) (total : ℕ)
    → IsBounded rnd
    → HasShares (length ids) start cum total
    → Picks (Allowed ids exclude) (try_weighted n rnd k exclude ids start cum total)
try_weighted-Picks zero rnd k exclude ids start cum total b s =
    rw (try_weighted_nil rnd k exclude ids start cum total) tt
try_weighted-Picks (suc n) rnd k exclude ids start cum total b s =
    let (id, e, i) = weighted-In ids start cum total (rnd k total) s (b k total s.positive) in
    elim (Bool-cases (is_excluded id exclude)) [
      | inl out ↦
          rw (try_weighted_again n rnd k exclude ids start cum total id e out)
            (try_weighted-Picks n rnd (k + 1) exclude ids start cum total b s)
      | inr allowed ↦
          rw (try_weighted_found n rnd k exclude ids start cum total id e allowed) (i, allowed)
    ]

sum-pos : (ws : List ℕ) → AllPositive ws → 0 < length ws → 0 < sum ws
unfolding sum
sum-pos [] p h = h
sum-pos (w ∷ ws) p h = omega arith

pub layer_shares :
    (l : LayerSnap)
    → IsValid l
    → 0 < length l.proxies
    → HasShares (length l.proxies) 0 l.cum_w l.total_w
layer_shares l v h = record {
  ws = l.weight;
  sums = v.sums;
  whole = v.total;
  positive = rw v.total (sum-pos l.weight v.positive (omega arith));
  fits = omega arith;
}

-- A selection changes no more than the weights of the round robin.
abbrev pub OnlySwrr : Pool → Pool → Type 0
OnlySwrr p q = q ≡ record p { swrr = q.swrr }

module _ ⦃fl : Float64⦄ where
  module _ (n : ℕ) (p : Pool) (l : LayerSnap) (exclude : List String) (id : String)
      (e : (pick_swrr p l).0 ≡ pick id) where
    try_swrr_again :
        is_excluded id exclude ≡ true
        → try_swrr (suc n) p l exclude ≡ try_swrr n (pick_swrr p l).1 l exclude
    unfolding try_swrr
    try_swrr_again out = ground arith

    try_swrr_found :
        is_excluded id exclude ≡ false → try_swrr (suc n) p l exclude ≡ (pick id, (pick_swrr p l).1)
    unfolding try_swrr
    try_swrr_found allowed = ground arith

  pub pick_swrr-OnlySwrr : (p : Pool) (l : LayerSnap) → OnlySwrr p (pick_swrr p l).1
  unfolding pick_swrr
  pick_swrr-OnlySwrr p l = refl

  pub OnlySwrr-trans : (p q r : Pool) → OnlySwrr p q → OnlySwrr q r → OnlySwrr p r
  OnlySwrr-trans p q r e f = f ∙ ap (λ (s : Pool). record s { swrr = r.swrr }) e

  pub try_swrr-Picks :
      (n : ℕ) (p : Pool) (l : LayerSnap) (exclude : List String)
      → IsValid l
      → 0 < length l.proxies
      → Picks (Allowed l.proxies exclude) (try_swrr n p l exclude).0
        × OnlySwrr p (try_swrr n p l exclude).1
  try_swrr-Picks zero p l exclude v h = unfold try_swrr in (tt, refl)
  try_swrr-Picks (suc n) p l exclude v h =
      let (id, e, fair) = pick_swrr-IsFairTurn p l v h in
      let q = (pick_swrr p l).1 in
      elim (Bool-cases (is_excluded id exclude)) [
        | inl out ↦
            let (picks, more) = try_swrr-Picks n q l exclude v h in
            rw (try_swrr_again n p l exclude id e out)
              (picks, OnlySwrr-trans p q _ (pick_swrr-OnlySwrr p l) more)
        | inr allowed ↦
            rw (try_swrr_found n p l exclude id e allowed)
              ((fair.member, allowed), pick_swrr-OnlySwrr p l)
      ]
