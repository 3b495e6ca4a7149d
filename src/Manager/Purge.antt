-- ===== src/Manager/Purge.antt =====
-- What the removal of a provider by internal/pool/manager.go leaves in the pool.
use proxy_gateway.Prelude.{
  lists, ◌≡◌, refl, ◌∙◌, inl, inr, String, Bool, false, List, [], ◌∷◌, Option, none, some, str_eq,
  str_eq_iff, if◌then◌else◌, if_cases, option_cases, arith, Bool-cases, str_eq_refl,
}
use proxy_gateway.Prelude.Dict.{lookup, delete, lookup-delete}
use proxy_gateway.Prelude.Float.{Float64}
use proxy_gateway.Model.{Proxy}
use proxy_gateway.Pool.State.{Pool, notify_state}
use proxy_gateway.Pool.Rebuild.{rebuild}
use proxy_gateway.Pool.Change.{remove, ids_where, of_provider, clear_swrr, clear_sticky}
use proxy_gateway.Pool.Keyed.{Keyed}
use proxy_gateway.Pool.Coherent.{Coherent}
use proxy_gateway.Manager.{
  ManagedProvider, Manager, remove_ids, remove_provided, provider_ids, delete_cfg,
}
use proxy_gateway.Manager.Change.{remove_provider}
use proxy_gateway.Manager.Keeps.{IsSound, remove_ids-Coherent}

-- The object, unless it passes the test.
unfoldable pub unless : (Proxy → Bool) → Option Proxy → Option Proxy
unless t none = none
unless t (some pr) = if t pr then none else some pr

-- The pool `q` is `p` without the proxies of a provider.
pub record IsWithout (name : String) (p q : Pool) : Type 0 where
  pub coherent : Coherent q
  pub left : (id : String) → lookup id q.proxies ≡ unless (of_provider name) (lookup id p.proxies)

no_ids :
    (t : Proxy → Bool) (id : String) (m : List (String × Proxy))
    → lookup id m ≡ none
    → lists id (ids_where t m) ≡ false
unfolding lookup ids_where
no_ids t id [] h = refl
no_ids t id ((j, q) ∷ m) h = ground (arith, no_ids t id m)

unless-ids_where :
    (t : Proxy → Bool) (id : String) (m : List (String × Proxy))
    → Keyed m
    → (if lists id (ids_where t m) then none else lookup id m) ≡ unless t (lookup id m)
unfolding lookup ids_where unless
unless-ids_where t id [] d = refl
unless-ids_where t id ((j, q) ∷ m) (i, v, absent, d) = elim (Bool-cases (str_eq j id)) [
  | inl same ↦
      let e : j ≡ id = (str_eq_iff j id).0 same in
      let gone = no_ids t id m (rw e at absent) in ground (arith, gone, same)
  | inr other ↦ ground (arith, unless-ids_where t id m d, other)
]

module _ ⦃fl : Float64⦄ where
  pub lookup-remove :
      (p : Pool) (id j : String)
      → lookup j (remove p id).0.proxies ≡ (if str_eq id j then none else lookup j p.proxies)
  unfolding remove notify_state rebuild clear_swrr clear_sticky
  lookup-remove p id j =
      option_cases
        (λ (out : Pool × Bool).
          lookup j out.0.proxies ≡ (if str_eq id j then none else lookup j p.proxies))
        (lookup id p.proxies) (λ missing. ground (arith, str_eq_iff id j))
        (λ pr _.
          if_cases
            (λ (q : Pool). lookup j q.proxies ≡ (if str_eq id j then none else lookup j p.proxies))
            p.has_sink (λ _. lookup-delete id j p.proxies) (λ _. lookup-delete id j p.proxies))

  lookup-remove_ids :
      (ids : List String) (p : Pool) (j : String)
      → lookup j (remove_ids ids p).proxies ≡ (if lists j ids then none else lookup j p.proxies)
  unfolding remove_ids
  lookup-remove_ids [] p j = refl
  lookup-remove_ids (id ∷ ids) p j =
      lookup-remove_ids ids (remove p id).0 j ∙ ground (arith, lookup-remove p id j)

  pub remove_provided-IsWithout :
      (name : String) (p : Pool) → Coherent p → IsWithout name p (remove_provided name p)
  remove_provided-IsWithout name p c = record {
    coherent = remove_ids-Coherent (provider_ids name p) p c;
    left = λ id.
        lookup-remove_ids (provider_ids name p) p id
        ∙ unless-ids_where (of_provider name) id p.proxies c.keyed;
  }

  -- `RemoveProvider` of a provider that a sound manager has succeeds: afterwards the name is free, the
  -- pool has exactly the proxies that are not of the provider, unchanged, and it is coherent.
  pub remove_provider-IsWithout :
      (ok : Bool) (m : Manager) (name : String) {mp : ManagedProvider}
      → IsSound m
      → lookup name m.provs ≡ some mp
      → ((remove_provider ok m name).1 ≡ none)
        × (lookup name (remove_provider ok m name).0.provs ≡ none)
        × IsWithout name m.pool (remove_provider ok m name).0.pool
  unfolding remove_provider delete_cfg
  remove_provider-IsWithout ok m name {mp} s found =
      let gone : lookup name (delete name m.provs) ≡ none =
        lookup-delete name name m.provs ∙ rw (str_eq_refl name) in
      let without = remove_provided-IsWithout name m.pool s.coherent in
      let (a, b) =
        option_cases (λ (n : Manager). (lookup name n.provs ≡ none) × IsWithout name m.pool n.pool)
          m.file (λ _. (gone, without)) (λ f _. (gone, without)) in
      rw (found, remove_provider) (refl, a, b)
