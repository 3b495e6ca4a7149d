-- ===== src/Pool/Session.antt =====
-- Sticky sessions: `StickyNext` of internal/pool/pool.go.
use proxy_gateway.Prelude.{
  ℕ, ◌≡◌, refl, sym, ap, ◌∙◌, subst, ◌⊎◌, inl, inr, String, true, false, not, ◌||◌, [], Option,
  none, some, ltb, length, Bool-cases, Option-cases, if_cases, str_eq, ℤ, is_pos, pos, ltb_ℤ,
}
use proxy_gateway.Prelude.Dict.{lookup, insert}
use proxy_gateway.Prelude.Float.{Float64}
use proxy_gateway.Pool.State.{Pool, is_live, live_in}
use proxy_gateway.Pool.Search.{Pick, nil, pick, Draws}
use proxy_gateway.Pool.Next.Safe.{Picks, Picks-mono, IsBounded}
use proxy_gateway.Pool.Next.Failover.{Pick-cases}
use proxy_gateway.Pool.Coherent.{IsCoherent, Coherent}
use proxy_gateway.Pool.Sticky.{reuse, remember, choose, sticky_next, window_end}
use proxy_gateway.Pool.Serve.{Fit, Serves, next-Serves, next_in_group-Serves}

-- The map and the snapshot are left as they were.
abbrev pub SameProxies : Pool → Pool → Type 0
SameProxies p q = (q.proxies ≡ p.proxies) × (q.snap ≡ p.snap)

-- A live proxy of the pool.
abbrev pub Live : Pool → String → Type 0
Live p id = is_live p id ≡ true

abbrev ServesLive : Pool → Pick × Pool → Type 0
ServesLive p out = Picks (Live p) out.0 × SameProxies p out.1

remember-SameProxies :
    (now : ℕ) (p : Pool) (client id : String) (expire : ℤ)
    → SameProxies p (remember now p client id expire)
unfolding remember
remember-SameProxies now p client id expire =
    if_cases (SameProxies p)
      (ltb 4096 (length (insert client (record { proxy_id = id; expire_at = expire }) p.sticky)))
      (λ _. (refl, refl)) (λ _. (refl, refl))

-- A session that can be used again names a live proxy.
reuse_facts :
    (now : ℕ) (p : Pool) (client : String)
    → SameProxies p (reuse now p client).1
      × (((reuse now p client).0 ≡ none)
          ⊎ ((id : String) × ((reuse now p client).0 ≡ some id) × (is_live p id ≡ true)))
unfolding reuse
reuse_facts now p client = elim (Option-cases (lookup client p.sticky)) [
  | inl missing ↦ rw (missing, reuse) ((refl, refl), inl refl)
  | inr (e, found) ↦
      rw (found, reuse)
        (if_cases
          (λ (out : Option String × Pool).
            SameProxies p out.1
            × ((out.0 ≡ none) ⊎ ((id : String) × (out.0 ≡ some id) × (is_live p id ≡ true))))
          (ltb_ℤ (pos now) e.expire_at)
          (λ _.
            if_cases
              (λ (out : Option String × Pool).
                SameProxies p out.1
                × ((out.0 ≡ none) ⊎ ((id : String) × (out.0 ≡ some id) × (is_live p id ≡ true))))
              (is_live p e.proxy_id) (λ live. ((refl, refl), inr (e.proxy_id, refl, live)))
              (λ _. ((refl, refl), inl refl)))
          (λ _. ((refl, refl), inl refl)))
]

module _ ⦃fl : Float64⦄ where
  choose_Serves :
      (rnd : Draws) (p : Pool) (group : String)
      → IsBounded rnd
      → Coherent p
      → ServesLive p (choose rnd p group)
  unfolding choose
  choose_Serves rnd p group b c =
      if_cases (ServesLive p) (str_eq group "") (λ _. weaker p _ (next-Serves rnd p b c))
        (λ _. weaker p _ (next_in_group-Serves rnd p group b c))
    where
      weaker : (q : Pool) (out : Pick × Pool) → Serves q [] out → ServesLive q out
      weaker q out (picks, same) = (
        Picks-mono {P = Fit q []} {Q = Live q} out.0 (λ id f. f.0) picks,
        (ap (λ (r : Pool). r.proxies) same, ap (λ (r : Pool). r.snap) same),
      )

  module _ (rnd : Draws) (now : ℕ) (p : Pool) (client : String) (seconds : ℤ) (group : String) where
    sticky_old :
        (id : String)
        → (str_eq client "" || not (is_pos seconds)) ≡ false
        → (reuse now p client).0 ≡ some id
        → sticky_next rnd now p client seconds group ≡ (pick id, (reuse now p client).1)
    unfolding sticky_next
    sticky_old id s e = rw (s, e, sticky_next)

    sticky_off :
        (str_eq client "" || not (is_pos seconds)) ≡ true
        → sticky_next rnd now p client seconds group ≡ choose rnd p group
    unfolding sticky_next
    sticky_off s = rw (s, sticky_next)

    module _ (s : (str_eq client "" || not (is_pos seconds)) ≡ false)
        (e : (reuse now p client).0 ≡ none) where
      sticky_nil :
          (choose rnd (reuse now p client).1 group).0 ≡ nil
          → sticky_next rnd now p client seconds group
            ≡ (nil, (choose rnd (reuse now p client).1 group).1)
      unfolding sticky_next
      sticky_nil c = rw (s, e, c, sticky_next)

      sticky_new :
          (id : String)
          → (choose rnd (reuse now p client).1 group).0 ≡ pick id
          → sticky_next rnd now p client seconds group ≡ (
            pick id,
            remember now
                (choose rnd (reuse now p client).1 group).1
                client
                id
                (window_end now seconds),
          )
      unfolding sticky_next
      sticky_new id c = rw (s, e, c, sticky_next)

  same_trans : (p q r : Pool) → SameProxies p q → SameProxies q r → SameProxies p r
  same_trans p q r a b = (b.0 ∙ a.0, b.1 ∙ a.1)

  -- `StickyNext` on a coherent pool never panics; it returns nil or a live proxy of the pool, whether
  -- by a session or by a new selection, and leaves the proxies and the snapshot as they were.
  pub sticky_next-Live :
      (rnd : Draws) (now : ℕ) (p : Pool) (client : String) (seconds : ℤ) (group : String)
      → IsBounded rnd
      → Coherent p
      → Picks (Live p) (sticky_next rnd now p client seconds group).0
        × SameProxies p (sticky_next rnd now p client seconds group).1
  sticky_next-Live rnd now p client seconds group b c =
      elim (Bool-cases (str_eq client "" || not (is_pos seconds))) [
        | inl off ↦
            rw (sticky_off rnd now p client seconds group off) (choose_Serves rnd p group b c)
        | inr on ↦
            let (same, found) = reuse_facts now p client in
            let q = (reuse now p client).1 in
            elim found [
              | inr (id, e, live) ↦
                  rw (sticky_old rnd now p client seconds group id on e) (live, same)
              | inl e ↦
                  let c' : Coherent q =
                    subst (λ m. IsCoherent m q.snap) (sym same.0)
                      (subst (λ s. IsCoherent p.proxies s) (sym same.1) c) in
                  let (picks, still) = choose_Serves rnd q group b c' in
                  let r = (choose rnd q group).1 in
                  elim (Pick-cases (choose rnd q group).0) [
                    | inl n ↦
                        rw (sticky_nil rnd now p client seconds group on e n)
                          (tt, same_trans p q r same still)
                    | inr (inl bad) ↦ absurd (rw bad at picks)
                    | inr (inr (id, n)) ↦
                        let live : live_in q.proxies id ≡ true = rw n at picks in
                        rw (sticky_new rnd now p client seconds group on e id n) (
                          subst (λ m. live_in m id ≡ true) same.0 live,
                          same_trans p r (remember now r client id (window_end now seconds))
                              (same_trans p q r same still)
                              (remember-SameProxies now r client id (window_end now seconds)),
                        )
                  ]
            ]
      ]
