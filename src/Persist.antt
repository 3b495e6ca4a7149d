-- ===== src/Persist.antt =====
-- internal/persist/file.go: the JSON files that hold lists of accounts, of groups and of providers. A file is
-- its content; whether a write succeeds is an argument. A write replaces the file or leaves it.
pub mod Files
use proxy_gateway.Prelude.{
  String, Bool, true, false, not, List, [], ◌∷◌, Option, none, some, str_eq, if◌then◌else◌, keep,
}
use proxy_gateway.Config.{AccountCfg, GroupCfg, ProviderCfg}

-- A file does not exist, cannot be read or decoded, or holds a list.
pub data Content (A : Type 0) : Type 0 where
  missing broken : Content A
  holds : List A → Content A

module _ {A : Type 0} where
  -- `loadAccountsLocked`; `none` for an error.
  unfoldable pub load : Content A → Option (List A)
  load missing = some []
  load broken = none
  load (holds xs) = some xs

  -- `write`, with whether it returns no error.
  unfoldable pub write : Bool → List A → Content A → Content A × Bool
  write ok xs c = if ok then (holds xs, true) else (c, false)

  -- The first entry of the name is replaced; without one, the new entry comes last.
  unfoldable pub upsert : (A → String) → A → List A → List A
  upsert name_of a [] = a ∷ []
  upsert name_of a (x ∷ xs) =
      if str_eq (name_of x) (name_of a) then a ∷ xs else x ∷ upsert name_of a xs

  abbrev pub without : (A → String) → String → List A → List A
  without name_of name xs = keep (λ x. not (str_eq (name_of x) name)) xs

  unfoldable pub save : (A → String) → Bool → A → Content A → Content A × Bool
  save name_of ok a c = elim (load c) [
    | none ↦ (c, false)
    | some xs ↦ write ok (upsert name_of a xs) c
  ]

  unfoldable pub discard : (A → String) → Bool → String → Content A → Content A × Bool
  discard name_of ok name c = elim (load c) [
    | none ↦ (c, false)
    | some xs ↦ write ok (without name_of name xs) c
  ]

abbrev pub account_name : AccountCfg → String
account_name a = a.name

abbrev pub group_name : GroupCfg → String
group_name g = g.name

unfoldable pub save_account : Bool → AccountCfg → Content AccountCfg → Content AccountCfg × Bool
save_account ok a c = save account_name ok a c

unfoldable pub delete_account : Bool → String → Content AccountCfg → Content AccountCfg × Bool
delete_account ok name c = discard account_name ok name c

unfoldable pub replace_accounts :
    Bool → List AccountCfg → Content AccountCfg → Content AccountCfg × Bool
replace_accounts ok xs c = write ok xs c

unfoldable pub save_group : Bool → GroupCfg → Content GroupCfg → Content GroupCfg × Bool
save_group ok g c = save group_name ok g c

unfoldable pub delete_group : Bool → String → Content GroupCfg → Content GroupCfg × Bool
delete_group ok name c = discard group_name ok name c

unfoldable pub replace_groups : Bool → List GroupCfg → Content GroupCfg → Content GroupCfg × Bool
replace_groups ok xs c = write ok xs c

abbrev pub provider_name : ProviderCfg → String
provider_name p = p.name

unfoldable pub save_provider : Bool → ProviderCfg → Content ProviderCfg → Content ProviderCfg × Bool
save_provider ok p c = save provider_name ok p c

unfoldable pub delete_provider : Bool → String → Content ProviderCfg → Content ProviderCfg × Bool
delete_provider ok name c = discard provider_name ok name c

unfoldable pub replace_providers :
    Bool → List ProviderCfg → Content ProviderCfg → Content ProviderCfg × Bool
replace_providers ok xs c = write ok xs c
