-- ===== src/Server/Batch.antt =====
-- What the handlers of internal/server/server.go hand out, and to whom.
use proxy_gateway.Prelude.{
  ℕ, zero, suc, ◌≤◌, ◌≡◌, ◌≢◌, refl, sym, ap, ◌∙◌, subst, inl, inr, ◌⊎◌, String, true, false, List,
  [], ◌∷◌, some, str_eq, str_eq_iff, ℤ, pos, is_pos, ltb_ℤ, arith, length, All, if_cases,
}
use proxy_gateway.Prelude.Float.{Float64}
use proxy_gateway.Model.{Proxy}
use proxy_gateway.Config.{GroupCfg}
use proxy_gateway.Pool.State.{Pool, is_live}
use proxy_gateway.Pool.Search.{Draws}
use proxy_gateway.Pool.Next.{is_excluded}
use proxy_gateway.Pool.Next.Safe.{IsBounded, OnlySwrr, OnlySwrr-trans}
use proxy_gateway.Pool.Next.Failover.{Pick-cases}
use proxy_gateway.Pool.Coherent.{Coherent}
use proxy_gateway.Pool.Layer.Valid.{NoDup}
use proxy_gateway.Pool.Serve.{Fit, Serves, next_excluding-Serves, next_in_group_excluding-Serves}
use proxy_gateway.Server.{Caller, group_allowed}
use proxy_gateway.Server.Handout.{
  Handled, batch_count, Taken, take_one, select_one, take_batch, answer, get_proxies,
}

module _ ⦃fl : Float64⦄ where
  select_one-Serves :
      (rnd : Draws) (p : Pool) (group : String) (exclude : List String)
      → IsBounded rnd
      → Coherent p
      → Serves p exclude (select_one rnd p group exclude)
  unfolding select_one
  select_one-Serves rnd p group exclude b c =
      if_cases (Serves p exclude) (str_eq group "") (λ _. next_excluding-Serves rnd p exclude b c)
        (λ _. next_in_group_excluding-Serves rnd p group exclude b c)

-- Proxies that are live and not among those excluded.
abbrev AllFit : Pool → List String → List String → Type 0
AllFit p exclude ids = All (λ id. (is_live p id ≡ true) × (is_excluded id exclude ≡ false)) ids

-- At most `n` proxies, no two the same, all live and none excluded; of the pool only the weights of
-- the round robin have changed.
record IsBatch (n : ℕ) (p : Pool) (exclude : List String) (t : Taken) : Type 0 where
  sound : t.crashed ≡ false
  bounded : length t.ids ≤ n
  distinct : NoDup t.ids
  fit : AllFit p exclude t.ids
  kept : OnlySwrr p t.pool

-- Proxies that fit where one more is excluded are others than this one.
fit_fewer :
    (p : Pool) (id : String) (exclude ids : List String)
    → AllFit p (id ∷ exclude) ids
    → AllFit p exclude ids × (is_excluded id ids ≡ false)
fit_fewer p id exclude [] f = (tt, refl)
fit_fewer p id exclude (x ∷ ids) ((l, e), f) =
    let (rest, out) = fit_fewer p id exclude ids f in
    let other : str_eq x id ≡ false = ground arith in
    let apart : str_eq id x ≡ false = ground (arith, other, str_eq_iff id x, str_eq_iff x id) in
    (((l, ground (arith, other)), rest), ground (arith, apart, out))

module _ ⦃fl : Float64⦄ (rnd : ℕ → Draws) (group : String) (fair : (n : ℕ) → IsBounded (rnd n))
    (start : Pool) where
  take_one-IsBatch :
      (n : ℕ) (id : String) (exclude : List String) (t : Taken)
      → is_live start id ≡ true
      → is_excluded id exclude ≡ false
      → IsBatch n start (id ∷ exclude) t
      → IsBatch (suc n) start exclude (take_one id t)
  take_one-IsBatch n id exclude t live new b =
      let (rest, out) = fit_fewer start id exclude t.ids b.fit in
      record {
        sound = b.sound;
        bounded = omega (arith, b.bounded);
        distinct = (out, b.distinct);
        fit = ((live, new), rest);
        kept = b.kept;
      }

  take_batch-IsBatch :
      (n : ℕ) (p : Pool) (exclude : List String)
      → OnlySwrr start p
      → Coherent p
      → IsBatch n start exclude (take_batch rnd group n p exclude)
  unfolding take_batch
  take_batch-IsBatch zero p exclude k c = record {
    sound = refl;
    bounded = omega arith;
    distinct = tt;
    fit = tt;
    kept = k;
  }
  take_batch-IsBatch (suc n) p exclude k c =
      let sel = select_one (rnd n) p group exclude in
      let (picks, same) = select_one-Serves (rnd n) p group exclude (fair n) c in
      let still : OnlySwrr start sel.1 = OnlySwrr-trans start p sel.1 k same in
      elim (Pick-cases sel.0) [
        | inl e ↦
            rw (e, take_batch)
              (record {
                sound = refl;
                bounded = omega arith;
                distinct = tt;
                fit = tt;
                kept = still;
              })
        | inr (inl bad) ↦ absurd (rw bad at picks)
        | inr (inr (id, e)) ↦
            let (live, new) : Fit p exclude id = rw e at picks in
            let at_start : is_live start id ≡ true =
              ap (λ (x : Pool). is_live x id) (sym k) ∙ live in
            rw (e, take_batch)
              (take_one-IsBatch n id exclude _ at_start new
                (take_batch-IsBatch n sel.1 (id ∷ exclude) still (subst Coherent (sym same) c)))
      ]

batch_count-le : (n : ℤ) → batch_count n ≤ 100
unfolding batch_count
batch_count-le n =
    if_cases (λ (k : ℕ). k ≤ 100) (is_pos n)
      (λ _.
        if_cases (λ (k : ℕ). k ≤ 100) (ltb_ℤ (pos 100) n) (λ _. omega arith)
          (λ small. ground arith))
      (λ _. omega arith)

-- The response is 200 with a proxy or more, or 503 without one; the proxies are at most 100 and at
-- most as many as asked for, no two the same, and all live; the pool keeps everything but the weights
-- of the round robin.
pub record IsHandout (count : ℤ) (p : Pool) (h : Handled) : Type 0 where
  pub answered : ((h.status ≡ some 200) × (h.ids ≢ [])) ⊎ ((h.status ≡ some 503) × (h.ids ≡ []))
  pub bounded : length h.ids ≤ batch_count count
  pub at_most_100 : length h.ids ≤ 100
  pub distinct : NoDup h.ids
  pub live : All (λ id. is_live p id ≡ true) h.ids
  pub kept : OnlySwrr p h.pool

every_live :
    (p : Pool) (exclude ids : List String)
    → AllFit p exclude ids
    → All (λ id. is_live p id ≡ true) ids
every_live p exclude [] f = tt
every_live p exclude (id ∷ ids) ((l, e), f) = (l, every_live p exclude ids f)

module _ ⦃fl : Float64⦄ (addr_of : Proxy → String) where
  answer-IsHandout :
      (caller : Caller) (group : String) (count : ℤ) (p q : Pool) (ids : List String)
      → length ids ≤ batch_count count
      → NoDup ids
      → All (λ id. is_live p id ≡ true) ids
      → OnlySwrr p q
      → IsHandout count p (answer addr_of caller group ids q)
  unfolding answer
  answer-IsHandout caller group count p q [] b d l k = record {
    answered = inr (refl, refl);
    bounded = b;
    at_most_100 = omega arith;
    distinct = d;
    live = l;
    kept = k;
  }
  answer-IsHandout caller group count p q (id ∷ ids) b d l k = record {
    answered = inl (refl, λ e. absurd (cc));
    bounded = b;
    at_most_100 = omega (arith, b, batch_count-le count);
    distinct = d;
    live = l;
    kept = k;
  }

  -- A request for a batch that the caller may make of the group, on a coherent pool, gets 200 with
  -- proxies or 503 without: at most as many as asked for and at most 100, no two the same, all live.
  -- No selection panics, and of the pool only the weights of the round robin change.
  pub get_proxies-IsHandout :
      (rnd : ℕ → Draws) (gs : List GroupCfg) (caller : Caller) (group : String) (count : ℤ)
      (p : Pool)
      → ((n : ℕ) → IsBounded (rnd n))
      → Coherent p
      → group_allowed gs caller group ≡ true
      → IsHandout count p (get_proxies addr_of rnd gs caller group count p)
  unfolding get_proxies
  get_proxies-IsHandout rnd gs caller group count p fair c allowed =
      let t = take_batch rnd group (batch_count count) p [] in
      let b = take_batch-IsBatch rnd group fair p (batch_count count) p [] refl c in
      rw (allowed, b.sound)
        (answer-IsHandout caller group count p t.pool t.ids b.bounded b.distinct
          (every_live p [] t.ids b.fit) b.kept)
