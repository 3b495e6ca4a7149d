-- ===== src/Pool/Serve.antt =====
-- The selections of internal/pool/pool.go on a pool with a coherent snapshot.
use proxy_gateway.Prelude.{
  ◌+◌, ◌≡◌, refl, inl, inr, String, true, false, List, [], ◌∷◌, some, arith, In, length, All,
  All-In, Bool-cases, Option-cases, if_cases, str_eq,
}
use proxy_gateway.Prelude.Float.{Float64}
use proxy_gateway.Model.{Proxy}
use proxy_gateway.Pool.State.{Pool, GroupSnap, LayerSnap, PrioGroup, is_live}
use proxy_gateway.Pool.Layer.Valid.{IsValid}
use proxy_gateway.Pool.Search.{Pick, nil, pick, Draws, skip}
use proxy_gateway.Pool.Next.{
  is_excluded, is_empty, try_weighted, next_from_layers, find_group, next_in_group,
  next_in_group_excluding, prio_skips, prio_loop, next, next_excluding,
}
use proxy_gateway.Pool.Next.Safe.{
  Picks, Picks-mono, IsBounded, HasShares, Allowed, OnlySwrr, try_weighted-Picks,
}
use proxy_gateway.Pool.Next.Failover.{Served, next_from_layers-Picks, Pick-cases}
use proxy_gateway.Pool.Coherent.{Coherent, IsServing}

-- A live proxy of the pool that is not excluded.
abbrev pub Fit : Pool → List String → String → Type 0
Fit p exclude id = (is_live p id ≡ true) × (is_excluded id exclude ≡ false)

-- What a selection may do: return nil or a fit proxy, and change the weights of the round robin.
abbrev pub Serves : Pool → List String → Pick × Pool → Type 0
Serves p exclude out = Picks (Fit p exclude) out.0 × OnlySwrr p out.1

serving-IsValid :
    (m : List (String × Proxy)) (ls : List LayerSnap) → All (IsServing m) ls → All IsValid ls
serving-IsValid m [] s = tt
serving-IsValid m (l ∷ ls) s = (s.0.0, serving-IsValid m ls s.1)

module _ ⦃fl : Float64⦄ where
  layers_Serve :
      (rnd : Draws) (p : Pool) (ls : List LayerSnap) (exclude : List String)
      → IsBounded rnd
      → All (IsServing p.proxies) ls
      → Serves p exclude (next_from_layers rnd p ls exclude)
  layers_Serve rnd p ls exclude b s =
      let (picks, same) =
        next_from_layers-Picks ls rnd p exclude b (serving-IsValid p.proxies ls s) in
      (
        Picks-mono {P = Served ls exclude} {Q = Fit p exclude} _
            (λ id (l, i, usable, fit). ((All-In (IsServing p.proxies) ls l s i).1 id fit.0, fit.1))
            picks,
        same,
      )

  pub find_group-In :
      (name : String) (gs : List GroupSnap) {g : GroupSnap} → find_group name gs ≡ some g → In g gs
  unfolding find_group
  find_group-In name [] h = absurd (cc)
  find_group-In name (x ∷ gs) h = elim (Bool-cases (str_eq x.name name)) [
    | inl same ↦ inl (ground arith)
    | inr other ↦ inr (find_group-In name gs (rw other at h))
  ]

  pub next_in_group-Serves :
      (rnd : Draws) (p : Pool) (group : String)
      → IsBounded rnd
      → Coherent p
      → Serves p [] (next_in_group rnd p group)
  unfolding next_in_group
  next_in_group-Serves rnd p group b c = elim (Option-cases (find_group group p.snap.groups)) [
    | inl missing ↦ rw (missing, next_in_group) (tt, refl)
    | inr (g, found) ↦
        rw (found, next_in_group)
          (layers_Serve rnd p g.layers [] b
            (All-In _ p.snap.groups g c.tiers (find_group-In group p.snap.groups found)))
  ]

  empty_Serves :
      (p : Pool) (exclude : List String) (out : Pick × Pool)
      → is_empty exclude ≡ true
      → Serves p [] out
      → Serves p exclude out
  empty_Serves p [] out e s = s
  empty_Serves p (x ∷ xs) out e s = cc

  -- `NextInGroupExcluding` on a coherent pool never panics and never returns a dead, a removed or an
  -- excluded proxy; it changes only the weights of the round robin.
  pub next_in_group_excluding-Serves :
      (rnd : Draws) (p : Pool) (group : String) (exclude : List String)
      → IsBounded rnd
      → Coherent p
      → Serves p exclude (next_in_group_excluding rnd p group exclude)
  unfolding next_in_group_excluding
  next_in_group_excluding-Serves rnd p group exclude b c =
      if_cases (Serves p exclude) (is_empty exclude)
        (λ e. empty_Serves p exclude _ e (next_in_group-Serves rnd p group b c))
        (λ _. elim (Option-cases (find_group group p.snap.groups)) [
          | inl missing ↦ rw missing (tt, refl)
          | inr (g, found) ↦ rw found (
              layers_Serve rnd p g.layers exclude b
                (All-In _ p.snap.groups g c.tiers (find_group-In group p.snap.groups found)))
        ])

  prio_again :
      (rnd : Draws) (ids : List String) (g : PrioGroup) (gs : List PrioGroup)
      (exclude : List String)
      → prio_skips g ≡ true
      → prio_loop rnd ids (g ∷ gs) exclude ≡ prio_loop rnd ids gs exclude
  unfolding prio_loop
  prio_again rnd ids g gs exclude s = ground arith

  prio_served :
      (rnd : Draws) (ids : List String) (g : PrioGroup) (gs : List PrioGroup)
      (exclude : List String) (id : String)
      → prio_skips g ≡ false
      → try_weighted 1000 rnd 0 exclude ids g.start g.cum_w g.total_w ≡ pick id
      → prio_loop rnd ids (g ∷ gs) exclude ≡ pick id
  unfolding prio_loop
  prio_served rnd ids g gs exclude id s e = ground arith

  prio_nil :
      (rnd : Draws) (ids : List String) (g : PrioGroup) (gs : List PrioGroup)
      (exclude : List String)
      → prio_skips g ≡ false
      → try_weighted 1000 rnd 0 exclude ids g.start g.cum_w g.total_w ≡ nil
      → prio_loop rnd ids (g ∷ gs) exclude ≡ prio_loop (skip 1000 rnd) ids gs exclude
  unfolding prio_loop
  prio_nil rnd ids g gs exclude s e = rw (s, e, prio_loop)

  prio_loop-Picks :
      (gs : List PrioGroup) (rnd : Draws) (ids exclude : List String)
      → IsBounded rnd
      → All (λ (g : PrioGroup). HasShares (length ids) g.start g.cum_w g.total_w) gs
      → Picks (Allowed ids exclude) (prio_loop rnd ids gs exclude)
  prio_loop-Picks [] rnd ids exclude b h = unfold prio_loop in tt
  prio_loop-Picks (g ∷ gs) rnd ids exclude b (h, hs) = elim (Bool-cases (prio_skips g)) [
    | inl s ↦ rw (prio_again rnd ids g gs exclude s) (prio_loop-Picks gs rnd ids exclude b hs)
    | inr s ↦
        let picks = try_weighted-Picks 1000 rnd 0 exclude ids g.start g.cum_w g.total_w b h in
        elim (Pick-cases (try_weighted 1000 rnd 0 exclude ids g.start g.cum_w g.total_w)) [
          | inl e ↦
              rw (prio_nil rnd ids g gs exclude s e)
                (prio_loop-Picks gs (skip 1000 rnd) ids exclude (λ k n. b (1000 + k) n) hs)
          | inr (inl e) ↦ absurd (rw e at picks)
          | inr (inr (id, e)) ↦ rw (prio_served rnd ids g gs exclude id s e) (rw e at picks)
        ]
  ]

  prio_Serve :
      (rnd : Draws) (p : Pool) (exclude : List String)
      → IsBounded rnd
      → Coherent p
      → Picks (Fit p exclude) (prio_loop rnd p.snap.proxies p.snap.prio exclude)
  prio_Serve rnd p exclude b c =
      Picks-mono {P = Allowed p.snap.proxies exclude} {Q = Fit p exclude} _
        (λ id (i, free). ((c.listed id).0 i, free))
        (prio_loop-Picks p.snap.prio rnd p.snap.proxies exclude b c.shares)

  pub next-Serves : (rnd : Draws) (p : Pool) → IsBounded rnd → Coherent p → Serves p [] (next rnd p)
  unfolding next
  next-Serves rnd p b c = by_groups p.snap.groups c.tiers
    where
      by_groups :
          (gs : List GroupSnap)
          → All (λ (g : GroupSnap). All (IsServing p.proxies) g.layers) gs
          → Serves p [] (elim gs [
            | [] ↦ (prio_loop rnd p.snap.proxies p.snap.prio [], p)
            | g ∷ rest ↦ next_from_layers rnd p g.layers []
          ])
      by_groups [] t = (prio_Serve rnd p [] b c, refl)
      by_groups (g ∷ gs) t = layers_Serve rnd p g.layers [] b t.0

  -- `NextExcluding` on a coherent pool, with groups or without, never panics and never returns a
  -- dead, a removed or an excluded proxy; it changes only the weights of the round robin.
  pub next_excluding-Serves :
      (rnd : Draws) (p : Pool) (exclude : List String)
      → IsBounded rnd
      → Coherent p
      → Serves p exclude (next_excluding rnd p exclude)
  unfolding next_excluding
  next_excluding-Serves rnd p exclude b c =
      if_cases (Serves p exclude) (is_empty exclude)
        (λ e. empty_Serves p exclude _ e (next-Serves rnd p b c)) (λ _. by_groups p.snap.groups)
    where
      by_groups :
          (gs : List GroupSnap)
          → Serves p exclude (elim gs [
            | [] ↦ (prio_loop rnd p.snap.proxies p.snap.prio exclude, p)
            | g ∷ rest ↦ next_in_group_excluding rnd p g.name exclude
          ])
      by_groups [] = (prio_Serve rnd p exclude b c, refl)
      by_groups (g ∷ gs) = next_in_group_excluding-Serves rnd p g.name exclude b c
