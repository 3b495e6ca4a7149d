-- ===== src/Manager/Keeps.antt =====
-- What the methods of internal/pool/manager.go keep: a coherent pool, and each provider under the name
-- of its configuration.
use proxy_gateway.Prelude.{
  ◌≡◌, refl, ◌∙◌, inl, inr, String, Bool, true, List, [], ◌∷◌, Option, none, some, str_eq,
  str_eq_iff, ℤ, is_pos, if_cases, option_cases, arith, Bool-cases,
}
use proxy_gateway.Prelude.Dict.{lookup, insert, delete, Distinct, insert-Distinct}
use proxy_gateway.Prelude.Float.{Float64}
use proxy_gateway.Model.{Proxy}
use proxy_gateway.Config.{ProviderCfg}
use proxy_gateway.Pool.State.{Pool}
use proxy_gateway.Pool.Change.{add, remove, of_provider}
use proxy_gateway.Pool.Keyed.{Keyed}
use proxy_gateway.Pool.Coherent.{Coherent, rebuild-Coherent}
use proxy_gateway.Pool.Keeps.{add-Coherent, remove-Coherent}
use proxy_gateway.Manager.{
  ManagedProvider, Manager, save_cfg, delete_cfg, positive_weight, stamped, retune, add_proxies,
  load_proxies, remove_ids, retuned,
}

-- Each provider is listed under the name of its configuration.
abbrev pub Named : List (String × ManagedProvider) → Type 0
Named [] = Unit
Named ((k, mp) ∷ m) = (mp.cfg.name ≡ k) × Named m

pub record Sound (p : Pool) (provs : List (String × ManagedProvider)) : Type 0 where
  pub coherent : Coherent p
  pub distinct : Distinct provs
  pub well_named : Named provs

abbrev pub IsSound : Manager → Type 0
IsSound m = Sound m.pool m.provs

pub insert-Named :
    (k : String) (mp : ManagedProvider) (m : List (String × ManagedProvider))
    → mp.cfg.name ≡ k
    → Named m
    → Named (insert k mp m)
unfolding insert
insert-Named k mp [] e n = (e, tt)
insert-Named k mp ((j, q) ∷ m) e (i, n) =
    if_cases Named (str_eq j k) (λ same. (e, n)) (λ other. (i, insert-Named k mp m e n))

pub delete-Named : (k : String) (m : List (String × ManagedProvider)) → Named m → Named (delete k m)
unfolding delete
delete-Named k [] n = tt
delete-Named k ((j, q) ∷ m) (i, n) =
    if_cases Named (str_eq j k) (λ same. delete-Named k m n) (λ other. (i, delete-Named k m n))

pub lookup-Named :
    (k : String) (m : List (String × ManagedProvider)) {mp : ManagedProvider}
    → Named m
    → lookup k m ≡ some mp
    → mp.cfg.name ≡ k
unfolding lookup
lookup-Named k [] n h = absurd (cc)
lookup-Named k ((j, q) ∷ m) (i, n) h = elim (Bool-cases (str_eq j k)) [
  | inl same ↦ ground (arith, str_eq_iff j k)
  | inr other ↦ lookup-Named k m n (rw other at h)
]

lookup-retune :
    (name : String) (f : Proxy → Proxy) (k : String) (m : List (String × Proxy))
    → lookup k m ≡ none
    → lookup k (retune name f m) ≡ none
unfolding lookup retune
lookup-retune name f k [] h = refl
lookup-retune name f k ((j, pr) ∷ m) h = ground (arith, lookup-retune name f k m)

retune-Keyed :
    (name : String) (f : Proxy → Proxy) (m : List (String × Proxy))
    → ((pr : Proxy) → (f pr).id ≡ pr.id)
    → ((pr : Proxy) → is_pos pr.weight ≡ true → is_pos (f pr).weight ≡ true)
    → Keyed m
    → Keyed (retune name f m)
unfolding retune
retune-Keyed name f [] ids weights d = tt
retune-Keyed name f ((j, pr) ∷ m) ids weights (i, v, absent, d) = (
  if_cases (λ (q : Proxy). q.id ≡ j) (of_provider name pr) (λ _. ids pr ∙ i) (λ _. i),
  if_cases (λ (q : Proxy). is_pos q.weight ≡ true) (of_provider name pr) (λ _. weights pr v)
      (λ _. v),
  lookup-retune name f j m absent,
  retune-Keyed name f m ids weights d,
)

pub positive : (w : ℤ) → is_pos (positive_weight w) ≡ true
positive w = if_cases (λ x. is_pos x ≡ true) (is_pos w) (λ e. e) (λ _. refl)

module _ ⦃fl : Float64⦄ where
  pub add_proxies-Coherent :
      (cfg : ProviderCfg) (prs : List Proxy) (p : Pool)
      → Coherent p
      → Coherent (add_proxies cfg prs p)
  unfolding add_proxies
  add_proxies-Coherent cfg [] p c = c
  add_proxies-Coherent cfg (pr ∷ prs) p c =
      add_proxies-Coherent cfg prs (add p (stamped cfg pr)) (add-Coherent p (stamped cfg pr) c)

  pub load_proxies-Coherent :
      (cfg : ProviderCfg) (prs : Option (List Proxy)) (p : Pool)
      → Coherent p
      → Coherent (load_proxies cfg prs p)
  load_proxies-Coherent cfg none p c = c
  load_proxies-Coherent cfg (some prs) p c = add_proxies-Coherent cfg prs p c

  pub remove_ids-Coherent :
      (ids : List String) (p : Pool) → Coherent p → Coherent (remove_ids ids p)
  unfolding remove_ids
  remove_ids-Coherent [] p c = c
  remove_ids-Coherent (id ∷ ids) p c =
      remove_ids-Coherent ids (remove p id).0 (remove-Coherent p id c)

  pub retuned-Coherent :
      (name : String) (f : Proxy → Proxy) (p : Pool)
      → ((pr : Proxy) → (f pr).id ≡ pr.id)
      → ((pr : Proxy) → is_pos pr.weight ≡ true → is_pos (f pr).weight ≡ true)
      → Coherent p
      → Coherent (retuned name f p)
  unfolding retuned
  retuned-Coherent name f p ids weights c =
      rebuild-Coherent (record p { proxies = retune name f p.proxies })
        (retune-Keyed name f p.proxies ids weights c.keyed)

  pub put-Sound :
      (m : Manager) (name : String) (mp : ManagedProvider) (p : Pool)
      → mp.cfg.name ≡ name
      → Coherent p
      → IsSound m
      → Sound p (insert name mp m.provs)
  put-Sound m name mp p e c s = record {
    coherent = c;
    distinct = insert-Distinct name mp m.provs s.distinct;
    well_named = insert-Named name mp m.provs e s.well_named;
  }

  pub save_cfg-IsSound :
      (ok : Bool) (cfg : ProviderCfg) (m : Manager) → IsSound m → IsSound (save_cfg ok cfg m)
  unfolding save_cfg
  save_cfg-IsSound ok cfg m s = option_cases IsSound m.file (λ _. s) (λ f _. s)

  pub delete_cfg-IsSound :
      (ok : Bool) (name : String) (m : Manager) → IsSound m → IsSound (delete_cfg ok name m)
  unfolding delete_cfg
  delete_cfg-IsSound ok name m s = option_cases IsSound m.file (λ _. s) (λ f _. s)
