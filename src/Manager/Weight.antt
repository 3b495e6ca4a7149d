-- ===== src/Manager/Weight.antt =====
-- What `SetProviderWeight` of internal/pool/manager.go does to the proxies of the provider.
use proxy_gateway.Prelude.{
  ◌≡◌, refl, String, Bool, List, [], ◌∷◌, Option, none, some, str_eq_iff, if◌then◌else◌,
  option_cases, arith, ℤ,
}
use proxy_gateway.Prelude.Dict.{lookup, insert, lookup-insert}
use proxy_gateway.Prelude.Float.{Float64}
use proxy_gateway.Model.{Proxy}
use proxy_gateway.Pool.State.{Pool}
use proxy_gateway.Pool.Rebuild.{rebuild}
use proxy_gateway.Pool.Change.{of_provider}
use proxy_gateway.Pool.Coherent.{Coherent}
use proxy_gateway.Manager.{ManagedProvider, Manager, retune, retuned, save_cfg, positive_weight}
use proxy_gateway.Manager.Change.{set_provider_weight}
use proxy_gateway.Manager.Keeps.{IsSound, retuned-Coherent, positive}

-- The object, changed if it is of the provider.
unfoldable pub tuned : String → (Proxy → Proxy) → Option Proxy → Option Proxy
tuned name f none = none
tuned name f (some pr) = some (if of_provider name pr then f pr else pr)

lookup-retune_lem :
    (name : String) (f : Proxy → Proxy) (k : String) (m : List (String × Proxy))
    → lookup k (retune name f m) ≡ tuned name f (lookup k m)
unfolding lookup retune tuned
lookup-retune_lem name f k [] = refl
lookup-retune_lem name f k ((j, pr) ∷ m) = ground (arith, lookup-retune_lem name f k m)

-- The objects of a provider have a weight, the others are unchanged, and the pool is coherent.
pub record HasWeight (name : String) (weight : ℤ) (p q : Pool) : Type 0 where
  pub coherent : Coherent q
  pub changed :
      (id : String)
      → lookup id q.proxies ≡ tuned name (λ pr. record pr { weight = weight }) (lookup id p.proxies)

module _ ⦃fl : Float64⦄ where
  -- `SetProviderWeight` of a provider that a sound manager has succeeds: the weight, at least 1, is
  -- that of its entry, of the entry's configuration and of each of its proxies in the pool; all else
  -- of the proxies stays, and the pool is coherent.
  pub set_provider_weight-HasWeight :
      (ok : Bool) (m : Manager) (name : String) (w : ℤ) {mp : ManagedProvider}
      → IsSound m
      → lookup name m.provs ≡ some mp
      → ((set_provider_weight ok m name w).1 ≡ none)
        × (lookup name (set_provider_weight ok m name w).0.provs
            ≡ some (record mp {
              weight = positive_weight w;
              cfg = record mp.cfg { weight = positive_weight w };
            }))
        × HasWeight name (positive_weight w) m.pool (set_provider_weight ok m name w).0.pool
  unfolding set_provider_weight save_cfg retuned rebuild
  set_provider_weight-HasWeight ok m name w {mp} s found =
      let weight = positive_weight w in
      let f = λ (pr : Proxy). record pr { weight = weight } in
      let after = record mp { weight = weight; cfg = record mp.cfg { weight = weight } } in
      let kept : HasWeight name weight m.pool (retuned name f m.pool) = record {
        coherent = retuned-Coherent name f m.pool (λ pr. refl) (λ pr _. positive w) s.coherent;
        changed = λ id. lookup-retune_lem name f id m.pool.proxies;
      } in
      let entry : lookup name (insert name after m.provs) ≡ some after =
        ground (arith, lookup-insert name name after m.provs, str_eq_iff name name) in
      let (a, b) =
        option_cases
          (λ (n : Manager).
            (lookup name n.provs ≡ some after) × HasWeight name weight m.pool n.pool)
          m.file (λ _. (entry, kept)) (λ x _. (entry, kept)) in
      rw (found, set_provider_weight) (refl, a, b)
