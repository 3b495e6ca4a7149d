-- ===== src/Manager/Start.antt =====
-- The start of internal/pool/manager.go with a configuration that internal/config/config.go accepts.
use proxy_gateway.Prelude.{
  ◌≡◌, refl, inl, inr, String, true, false, List, [], ◌∷◌, none, some, lists, arith, Option-cases,
  All, int32_of,
}
use proxy_gateway.Prelude.Dict.{lookup, insert, lookup-insert}
use proxy_gateway.Prelude.Float.{Float64}
use proxy_gateway.Config.{ProviderCfg, Config}
use proxy_gateway.Config.Validate.{ok, is_supported}
use proxy_gateway.Config.Groups.{validate}
use proxy_gateway.Config.Sound.{Fresh, names_of, Supported}
use proxy_gateway.Config.Accepted.{validate-IsAccepted}
use proxy_gateway.Pool.State.{new_pool}
use proxy_gateway.Manager.{
  Made, new_provider, ManagedProvider, Manager, managed, manage_all, new_manager,
}

supported_missing :
    (x : ProviderCfg) → is_supported x.provider_type ≡ true → new_provider x ≡ none → ⊥
unfolding new_provider
supported_missing x s n = ground arith

made_of :
    (cfg : ProviderCfg)
    → is_supported cfg.provider_type ≡ true
    → (made : Made) × (new_provider cfg ≡ some made)
made_of cfg s = elim (Option-cases (new_provider cfg)) [
  | inr found ↦ found
  | inl missing ↦ absurd (supported_missing cfg s missing)
]

manage_all_returns :
    (ps : List ProviderCfg) (seen : List String) (provs : List (String × ManagedProvider))
    → All Supported ps
    → Fresh seen (names_of ps)
    → ((n : String) → lists n seen ≡ false → lookup n provs ≡ none)
    → (out : List (String × ManagedProvider)) × (manage_all ps provs ≡ some out)
unfolding manage_all
manage_all_returns [] seen provs s f free = (provs, refl)
manage_all_returns (p ∷ ps) seen provs (s, ss) (new, f) free =
    let (made, e) = made_of p s in
    let next = insert p.name (managed made p (int32_of p.weight)) provs in
    let still : (n : String) → lists n (p.name ∷ seen) ≡ false → lookup n next ≡ none = λ n h.
      ground (arith, lookup-insert p.name n (managed made p (int32_of p.weight)) provs, free n) in
    let (out, done) = manage_all_returns ps (p.name ∷ seen) next ss f still in
    (out, rw (free p.name new, e, manage_all) done)

-- A configuration that `Validate` accepts is one from which `NewManager` returns a manager.
pub new_manager-validate :
    ⦃fl : Float64⦄ (c : Config) {d : Config}
    → validate c ≡ ok d
    → (m : Manager) × (new_manager d.providers ≡ some m)
unfolding new_manager lookup
new_manager-validate c {d} e =
    let a = validate-IsAccepted c e in
    let (out, done) =
      manage_all_returns d.providers [] [] a.types a.providers_differ (λ n h. refl) in
    (record { pool = new_pool; provs = out; file = none }, rw (done, new_manager) refl)
