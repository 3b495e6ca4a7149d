-- ===== src/Gateway/Answers.antt =====
-- When the gateway of internal/gateway/gateway.go answers a request.
use proxy_gateway.Prelude.{
  ℕ, ◌≡◌, refl, sym, subst, String, true, false, List, [], ◌∷◌, ◌++◌, some, In, All, All-In,
  In-append_right, inl,
}
use proxy_gateway.Prelude.Float.{Float64}
use proxy_gateway.Pool.State.{Pool, GroupSnap, LayerSnap}
use proxy_gateway.Pool.Search.{pick, Draws}
use proxy_gateway.Pool.Layer.Valid.{IsValid}
use proxy_gateway.Pool.Next.{find_group, skips, next_in_group, next_in_group_excluding}
use proxy_gateway.Pool.Next.Safe.{IsBounded}
use proxy_gateway.Pool.Next.Failover.{next_from_layers_first}
use proxy_gateway.Pool.Coherent.{Coherent, IsServing}
use proxy_gateway.Pool.Serve.{find_group-In}
use proxy_gateway.Gateway.Relay.{Wire, relayed, relay_http}
use proxy_gateway.Gateway.Retry.{via, attempts, after_hop, handle_http}

module _ ⦃fl : Float64⦄ (wire : ℕ → String → Wire) (rnd : ℕ → Draws) (p : Pool) (group : String)
    (g : GroupSnap) (before ls : List LayerSnap) (l : LayerSnap) where
  -- On a coherent pool, where some tier of the group may be used, and the first such tier has proxies
  -- that all work, the first attempt answers the request through one of them.
  pub handle_http_answers :
      IsBounded (rnd 2)
      → Coherent p
      → find_group group p.snap.groups ≡ some g
      → g.layers ≡ before ++ (l ∷ ls)
      → All (λ k. skips k ≡ true) before
      → skips l ≡ false
      → ((id : String) → In id l.proxies → relay_http (wire 2 id) ≡ relayed)
      → (id : String) × ((handle_http wire rnd p group).reply ≡ via id) × In id l.proxies
  unfolding handle_http attempts after_hop next_in_group_excluding next_in_group
  handle_http_answers fair c found layers skipped usable works =
      let served = All-In _ p.snap.groups g c.tiers (find_group-In group p.snap.groups found) in
      let place : In l g.layers =
        subst (In l) (sym layers) (In-append_right l before (l ∷ ls) (inl refl)) in
      let valid : IsValid l = (All-In (IsServing p.proxies) g.layers l served place).0 in
      let (id, e, i) = next_from_layers_first before ls l (rnd 2) p fair skipped usable valid in
      let chosen : (next_in_group_excluding (rnd 2) p group []).0 ≡ pick id =
        rw (found, next_in_group, layers) e in
      (id, rw (chosen, attempts, works id i, after_hop) refl, i)
