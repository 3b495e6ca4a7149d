-- ===== src/Gateway/Retry.antt =====
-- `handleHTTP` and `handleConnect` of internal/gateway/gateway.go: up to three hops, each through
-- another proxy of the group.
use proxy_gateway.Prelude.{
  ℕ, zero, suc, ◌+◌, ◌-◌, ◌≤◌, ◌<◌, ◌≡◌, refl, sym, ap, ◌∙◌, subst, inl, inr, String, true, List,
  [], ◌∷◌, arith, All, ltb, if◌then◌else◌, length,
}
use proxy_gateway.Prelude.Float.{Float64}
use proxy_gateway.Pool.State.{Pool, is_live}
use proxy_gateway.Pool.Search.{nil, panic, pick, Draws}
use proxy_gateway.Pool.Next.{next_in_group_excluding}
use proxy_gateway.Pool.Next.Safe.{IsBounded, OnlySwrr, OnlySwrr-trans}
use proxy_gateway.Pool.Next.Failover.{Pick-cases}
use proxy_gateway.Pool.Coherent.{Coherent}
use proxy_gateway.Pool.Layer.Valid.{NoDup}
use proxy_gateway.Pool.Serve.{Fit, next_in_group_excluding-Serves}
use proxy_gateway.Gateway.Relay.{
  Wire, Hop, relayed, retry, lost, error_page, relay_http, relay_connect,
}

-- What the client gets: the answer through a proxy, an error page of a hop, 503 for a group without
-- a proxy, 502 after failed hops, or nothing. `crashed` is a panic of the selection.
pub data Reply : Type 0 where
  via : String → Reply
  page : ℕ → Reply
  no_proxy all_failed client_lost crashed : Reply

-- The reply, the pool afterwards, and the proxies tried, the last one first.
pub record Outcome : Type 0 where
  pub reply : Reply
  pub pool : Pool
  pub tried : List String

-- `maxProxyAttempts`
abbrev pub max_proxy_attempts : ℕ
max_proxy_attempts = 3

-- What follows a hop; `more` is the outcome of the attempts that are left.
unfoldable pub after_hop : Hop → String → Pool → List String → Outcome → Outcome
after_hop relayed id q tried more = record { reply = via id; pool = q; tried = id ∷ tried }
after_hop lost id q tried more = record { reply = client_lost; pool = q; tried = id ∷ tried }
after_hop (error_page code) id q tried more = record {
  reply = page code;
  pool = q;
  tried = id ∷ tried;
}
after_hop retry id q tried more = more

module _ ⦃fl : Float64⦄ (hop : ℕ → String → Hop) (rnd : ℕ → Draws) (group : String) where
  -- The loop with `n` attempts left, for the proxies tried so far, which are those excluded. The
  -- hop and the random numbers of an attempt depend on how many are left.
  unfoldable pub attempts : ℕ → Pool → List String → Outcome
  attempts zero p tried = record { reply = all_failed; pool = p; tried = tried }
  attempts (suc n) p tried =
      let (out, q) = next_in_group_excluding (rnd n) p group tried in
      elim out [
        | nil ↦ record {
          reply = if ltb 0 (length tried) then all_failed else no_proxy;
          pool = q;
          tried = tried;
        }
        | panic ↦ record { reply = crashed; pool = q; tried = tried }
        | pick id ↦ let more = attempts n q (id ∷ tried) in after_hop (hop n id) id q tried more
      ]

module _ ⦃fl : Float64⦄ (wire : ℕ → String → Wire) (rnd : ℕ → Draws) (p : Pool)
    (group : String) where
  unfoldable pub handle_http : Outcome
  handle_http = attempts (λ n id. relay_http (wire n id)) rnd group max_proxy_attempts p []

  unfoldable pub handle_connect : Outcome
  handle_connect = attempts (λ n id. relay_connect (wire n id)) rnd group max_proxy_attempts p []

-- The hops through these proxies, the last one first, all called for another proxy.
abbrev pub AllRetried : ℕ → (ℕ → String → Hop) → List String → Type 0
AllRetried max hop [] = Unit
AllRetried max hop (id ∷ ids) = (hop (max - suc (length ids)) id ≡ retry) × AllRetried max hop ids

-- The last hop came to this, and those before it called for another proxy.
abbrev pub Ended : ℕ → (ℕ → String → Hop) → Hop → List String → Type 0
Ended max hop h [] = ⊥
Ended max hop h (id ∷ ids) = (hop (max - suc (length ids)) id ≡ h) × AllRetried max hop ids

-- The reply is the one that the hops call for.
abbrev pub Explained : ℕ → (ℕ → String → Hop) → Reply → List String → Type 0
Explained max hop (via id) tried =
    Ended max hop relayed tried × ((rest : List String) × (tried ≡ id ∷ rest))
Explained max hop (page code) tried = Ended max hop (error_page code) tried
Explained max hop client_lost tried = Ended max hop lost tried
Explained max hop no_proxy tried = tried ≡ []
Explained max hop all_failed tried = AllRetried max hop tried × (0 < length tried)
Explained max hop crashed tried = ⊥

-- At most `max` proxies are tried, no two the same, all live when the request came; the reply is the
-- one that the hops call for, and the pool keeps everything but the weights of the round robin.
pub record IsFair (max : ℕ) (hop : ℕ → String → Hop) (p : Pool) (o : Outcome) : Type 0 where
  pub bounded : length o.tried ≤ max
  pub distinct : NoDup o.tried
  pub live : All (λ id. is_live p id ≡ true) o.tried
  pub explained : Explained max hop o.reply o.tried
  pub kept : OnlySwrr p o.pool

module _ ⦃fl : Float64⦄ (hop : ℕ → String → Hop) (rnd : ℕ → Draws) (group : String) (max : ℕ)
    (start : Pool) (fair : (n : ℕ) → IsBounded (rnd n)) where
  abbrev Turn : ℕ → Pool → List String → Type 0
  Turn n p tried =
      (n + length tried ≡ max)
      × (0 < max)
      × NoDup tried
      × All (λ id. is_live start id ≡ true) tried
      × AllRetried max hop tried
      × OnlySwrr start p
      × Coherent p

  nil-Explained :
      (tried : List String)
      → AllRetried max hop tried
      → Explained max hop (if ltb 0 (length tried) then all_failed else no_proxy) tried
  nil-Explained [] r = refl
  nil-Explained (id ∷ tried) r =
      let some_tried : ltb 0 (length (id ∷ tried)) ≡ true = ground arith in
      rw some_tried (r, omega arith)

  -- A hop through a proxy that was not tried before.
  after_hop-IsFair :
      (h : Hop) (n : ℕ) (id : String) (q : Pool) (tried : List String) (more : Outcome)
      → hop n id ≡ h
      → n ≡ max - suc (length tried)
      → suc n + length tried ≡ max
      → NoDup (id ∷ tried)
      → All (λ x. is_live start x ≡ true) (id ∷ tried)
      → AllRetried max hop tried
      → OnlySwrr start q
      → (hop n id ≡ retry → IsFair max hop start more)
      → IsFair max hop start (after_hop h id q tried more)
  unfolding after_hop
  after_hop-IsFair relayed n id q tried more e at c d l r k m = record {
    bounded = omega arith;
    distinct = d;
    live = l;
    explained = ((ap (λ i. hop i id) (sym at) ∙ e, r), (tried, refl));
    kept = k;
  }
  after_hop-IsFair lost n id q tried more e at c d l r k m = record {
    bounded = omega arith;
    distinct = d;
    live = l;
    explained = (ap (λ i. hop i id) (sym at) ∙ e, r);
    kept = k;
  }
  after_hop-IsFair (error_page code) n id q tried more e at c d l r k m = record {
    bounded = omega arith;
    distinct = d;
    live = l;
    explained = (ap (λ i. hop i id) (sym at) ∙ e, r);
    kept = k;
  }
  after_hop-IsFair retry n id q tried more e at c d l r k m = m e

  attempts-IsFair :
      (n : ℕ) (p : Pool) (tried : List String)
      → Turn n p tried
      → IsFair max hop start (attempts hop rnd group n p tried)
  unfolding attempts
  attempts-IsFair zero p tried (c, pos, d, l, r, k, coh) = record {
    bounded = omega arith;
    distinct = d;
    live = l;
    explained = (r, omega arith);
    kept = k;
  }
  attempts-IsFair (suc n) p tried (c, pos, d, l, r, k, coh) =
      let sel = next_in_group_excluding (rnd n) p group tried in
      let (picks, same) = next_in_group_excluding-Serves (rnd n) p group tried (fair n) coh in
      let still : OnlySwrr start sel.1 = OnlySwrr-trans start p sel.1 k same in
      elim (Pick-cases sel.0) [
        | inl e ↦
            rw (e, attempts)
              (record {
                bounded = omega arith;
                distinct = d;
                live = l;
                explained = nil-Explained tried r;
                kept = still;
              })
        | inr (inl bad) ↦ absurd (rw bad at picks)
        | inr (inr (id, e)) ↦
            let (live, new) : Fit p tried id = rw e at picks in
            let at_start : is_live start id ≡ true =
              ap (λ (x : Pool). is_live x id) (sym k) ∙ live in
            let at : n ≡ max - suc (length tried) = omega arith in
            rw (e, attempts)
              (after_hop-IsFair (hop n id) n id sel.1 tried _ refl at c (new, d) (at_start, l) r
                still
                (λ again. attempts-IsFair n sel.1 (id ∷ tried) (
                  omega arith,
                  pos,
                  (new, d),
                  (at_start, l),
                  (ap (λ i. hop i id) (sym at) ∙ again, r),
                  still,
                  subst Coherent (sym same) coh,
                )))
      ]

module _ ⦃fl : Float64⦄ (wire : ℕ → String → Wire) (rnd : ℕ → Draws) (p : Pool) (group : String)
    (fair : (n : ℕ) → IsBounded (rnd n)) (c : Coherent p) where
  -- A plain request on a coherent pool: no selection panics, and at most three proxies are tried, no
  -- two the same and all live. The hops before the last one called for another proxy; the reply is
  -- what the last one came to, or 502 if it called for another proxy too, or 503 if none was tried.
  -- Of the pool only the weights of the round robin change.
  pub handle_http-IsFair :
      IsFair 3 (λ n id. relay_http (wire n id)) p (handle_http wire rnd p group)
  unfolding handle_http
  handle_http-IsFair =
      attempts-IsFair (λ n id. relay_http (wire n id)) rnd group 3 p fair 3 p []
        (refl, omega arith, tt, tt, tt, refl, c)

  -- A CONNECT request on a coherent pool: no selection panics, and at most three proxies are tried, no
  -- two the same and all live. The hops before the last one called for another proxy; the reply is
  -- what the last one came to, or 502 if it called for another proxy too, or 503 if none was tried.
  -- Of the pool only the weights of the round robin change.
  pub handle_connect-IsFair :
      IsFair 3 (λ n id. relay_connect (wire n id)) p (handle_connect wire rnd p group)
  unfolding handle_connect
  handle_connect-IsFair =
      attempts-IsFair (λ n id. relay_connect (wire n id)) rnd group 3 p fair 3 p []
        (refl, omega arith, tt, tt, tt, refl, c)
