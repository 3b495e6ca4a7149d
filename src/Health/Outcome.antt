-- ===== src/Health/Outcome.antt =====
-- What a check of internal/health/checker.go does to the pool: `checkOne` and `deleteThreshold`.
use proxy_gateway.Prelude.{
  ℕ, ◌≡◌, String, Bool, true, false, not, ◌&&◌, List, [], ◌∷◌, none, str_eq, if◌then◌else◌, ℤ, pos,
  is_pos, if_cases, list_cases, ltb_ℤ, ◌∙◌, str_eq_refl,
}
use proxy_gateway.Prelude.Dict.{lookup}
use proxy_gateway.Prelude.Float.{Float64}
use proxy_gateway.Model.{Proxy}
use proxy_gateway.Config.{HealthConfig}
use proxy_gateway.Pool.State.{Pool}
use proxy_gateway.Pool.Change.{remove, set_country, mark_success, mark_failed}
use proxy_gateway.Pool.Coherent.{Coherent}
use proxy_gateway.Pool.Keeps.{
  remove-Coherent, set_country-Coherent, mark_success-Coherent, mark_failed-Coherent,
}
use proxy_gateway.Manager.Purge.{lookup-remove}
use proxy_gateway.Health.{resolve_check_urls}
use proxy_gateway.Health.Probe.{is_alpha2}

-- `deleteThreshold`, in milliseconds.
unfoldable pub delete_threshold : Proxy → ℤ
delete_threshold pr = if is_pos pr.delete_latency_ms then pr.delete_latency_ms else pos 3000

module _ ⦃fl : Float64⦄ where
  -- The branch of `checkOne` for a probe that succeeded.
  unfoldable pub after_success : ℕ → Proxy → String → ℤ → Pool → Pool
  after_success now pr country latency p =
      let q =
        if not (str_eq country "") && not (is_alpha2 pr.country)
        then set_country p pr.id country
        else p in
      let r = mark_success now q pr.id latency in
      if pr.free && ltb_ℤ (delete_threshold pr) latency then (remove r pr.id).0 else r

  -- The branch for one that failed.
  unfoldable pub after_failure : Proxy → ℤ → Pool → Pool
  after_failure pr latency p = if pr.free then (remove p pr.id).0 else mark_failed p pr.id latency

  -- `checkOne`, for what `probe` returns, the latency in milliseconds, and the time at the end.
  unfoldable pub check_one_pool : HealthConfig → ℕ → Proxy → Bool × String → ℤ → Pool → Pool
  check_one_pool cfg now pr (ok, country) latency p = elim (resolve_check_urls cfg pr) [
    | [] ↦ p
    | u ∷ us ↦ if ok then after_success now pr country latency p else after_failure pr latency p
  ]

  after_success-Coherent :
      (now : ℕ) (pr : Proxy) (country : String) (latency : ℤ) (p : Pool)
      → Coherent p
      → Coherent (after_success now pr country latency p)
  unfolding after_success
  after_success-Coherent now pr country latency p c =
      let located =
        if_cases Coherent (not (str_eq country "") && not (is_alpha2 pr.country))
          (λ _. set_country-Coherent p pr.id country c) (λ _. c) in
      let marked = mark_success-Coherent now _ pr.id latency located in
      if_cases Coherent (pr.free && ltb_ℤ (delete_threshold pr) latency)
        (λ _. remove-Coherent _ pr.id marked) (λ _. marked)

  after_failure-Coherent :
      (pr : Proxy) (latency : ℤ) (p : Pool) → Coherent p → Coherent (after_failure pr latency p)
  unfolding after_failure
  after_failure-Coherent pr latency p c =
      if_cases Coherent pr.free (λ _. remove-Coherent p pr.id c)
        (λ _. mark_failed-Coherent p pr.id latency c)

  check_one_pool-Coherent :
      (cfg : HealthConfig) (now : ℕ) (pr : Proxy) (found : Bool × String) (latency : ℤ) (p : Pool)
      → Coherent p
      → Coherent (check_one_pool cfg now pr found latency p)
  unfolding check_one_pool
  check_one_pool-Coherent cfg now pr (ok, country) latency p c =
      list_cases Coherent (resolve_check_urls cfg pr) (λ _. c)
        (λ u us _.
          if_cases Coherent ok (λ _. after_success-Coherent now pr country latency p c)
            (λ _. after_failure-Coherent pr latency p c))

  lookup-remove_same : (p : Pool) (id : String) → lookup id (remove p id).0.proxies ≡ none
  lookup-remove_same p id = lookup-remove p id id ∙ rw (str_eq_refl id)

  stays : (a b : Bool) → a ≡ true → b ≡ true → (a && b) ≡ false → ⊥
  stays a b h k e = cc (rw (h, k) at e)

  -- Whether a check takes a free proxy out: it failed, or took longer than the threshold.
  abbrev pub is_dropped : Proxy → Bool → ℤ → Bool
  is_dropped pr ok latency = if ok then ltb_ℤ (delete_threshold pr) latency else true

  -- A check of a free proxy, for which there is a target, that fails or takes longer than the
  -- threshold removes the proxy from the pool, and the pool stays coherent.
  pub check_one_pool-drops :
      (cfg : HealthConfig) (now : ℕ) (pr : Proxy) (ok : Bool) (country : String) (latency : ℤ)
      (p : Pool) (u : String) (us : List String)
      → Coherent p
      → pr.free ≡ true
      → resolve_check_urls cfg pr ≡ u ∷ us
      → is_dropped pr ok latency ≡ true
      → Coherent (check_one_pool cfg now pr (ok, country) latency p)
        × (lookup pr.id (check_one_pool cfg now pr (ok, country) latency p).proxies ≡ none)
  unfolding check_one_pool after_success after_failure
  check_one_pool-drops cfg now pr true country latency p u us c free urls slow = (
    check_one_pool-Coherent cfg now pr (true, country) latency p c,
    rw (urls, check_one_pool)
        (if_cases (λ (q : Pool). lookup pr.id q.proxies ≡ none)
          (pr.free && ltb_ℤ (delete_threshold pr) latency) (λ _. lookup-remove_same _ pr.id)
          (λ e. absurd (stays _ _ free slow e))),
  )
  check_one_pool-drops cfg now pr false country latency p u us c free urls slow = (
    check_one_pool-Coherent cfg now pr (false, country) latency p c,
    rw (urls, check_one_pool, free, after_failure) (lookup-remove_same p pr.id),
  )
