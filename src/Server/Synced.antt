-- ===== src/Server/Synced.antt =====
-- The groups of internal/server/server.go, of the pool and of the gateway.
use proxy_gateway.Prelude.{
  ℕ, ◌≡◌, refl, inl, inr, ◌⊎◌, String, Bool, List, [], ◌∷◌, ◌++◌, Option, none, some, str_eq,
  if_cases, option_cases,
}
use proxy_gateway.Prelude.Float.{Float64}
use proxy_gateway.Config.{GroupCfg}
use proxy_gateway.Pool.Rebuild.{set_groups, rebuild}
use proxy_gateway.Pool.Coherent.{Coherent, rebuild-Coherent}
use proxy_gateway.Gateway.Creds.{rebuild_creds}
use proxy_gateway.Server.{Caller, require_owned_group}
use proxy_gateway.Server.Groups.{
  Grouping, validate_group, add_group, update_group, remove_group, put_group, drop_group,
  apply_groups, has_name, owned_by,
}
use proxy_gateway.Server.Isolated.{
  Call, adds, updates, removes, call_group, checked_cases, owned_cases,
}

-- The pool schedules the groups of the server and is coherent; the gateway, where there is one, has
-- their credentials.
pub record IsSynced (s : Grouping) : Type 0 where
  pub coherent : Coherent s.pool
  pub scheduled : s.pool.groups_cfg ≡ s.groups
  pub opened : (s.creds ≡ none) ⊎ (s.creds ≡ some (rebuild_creds s.groups))

unfoldable pub call_groups : ⦃fl : Float64⦄ → Grouping → List (Caller × Call) → Grouping
call_groups s [] = s
call_groups s ((c, k) ∷ ks) = call_groups (call_group c s k).0 ks

module _ ⦃fl : Float64⦄ where
  abbrev Synced : Grouping × ℕ → Type 0
  Synced out = IsSynced out.0

  apply_groups-IsSynced :
      (written : Bool) (s : Grouping) (gs : List GroupCfg)
      → IsSynced s
      → IsSynced (apply_groups written s gs)
  unfolding apply_groups set_groups rebuild
  apply_groups-IsSynced written s gs i = record {
    coherent = rebuild-Coherent (record s.pool { groups_cfg = gs }) i.coherent.keyed;
    scheduled = refl;
    opened =
        option_cases
          (λ (m : Option (List (String × String))). (m ≡ none) ⊎ (m ≡ some (rebuild_creds gs)))
          s.creds (λ _. inl refl) (λ m _. inr refl);
  }

  add_group-IsSynced :
      (written : Bool) (known : List String) (s : Grouping) (c : Caller) (body : Option GroupCfg)
      → IsSynced s
      → Synced (add_group written known s c body)
  unfolding add_group
  add_group-IsSynced written known s c none i = i
  add_group-IsSynced written known s c (some given) i =
      checked_cases Synced (validate_group known (owned_by c given)) (λ e. i)
        (λ u.
          if_cases Synced (has_name (owned_by c given).name s.groups) (λ _. i)
            (λ _. apply_groups-IsSynced written s (s.groups ++ (owned_by c given ∷ [])) i))

  update_group-IsSynced :
      (written : Bool) (known : List String) (s : Grouping) (c : Caller) (name : String)
      (body : Option GroupCfg)
      → IsSynced s
      → Synced (update_group written known s c name body)
  unfolding update_group
  update_group-IsSynced written known s c name body i =
      if_cases Synced (str_eq name "") (λ _. i)
        (λ _.
          owned_cases Synced (require_owned_group s.groups c name) (λ code. i)
            (λ old mine.
              option_cases Synced body (λ _. i)
                (λ given _.
                  let g = owned_by c (record given { name = name }) in
                  checked_cases Synced (validate_group known g) (λ e. i)
                    (λ u.
                      if_cases Synced (has_name name s.groups)
                        (λ _. apply_groups-IsSynced written s (put_group name g s.groups) i)
                        (λ _. i)))))

  remove_group-IsSynced :
      (written : Bool) (s : Grouping) (c : Caller) (name : String)
      → IsSynced s
      → Synced (remove_group written s c name)
  unfolding remove_group
  remove_group-IsSynced written s c name i =
      if_cases Synced (str_eq name "") (λ _. i)
        (λ _.
          owned_cases Synced (require_owned_group s.groups c name) (λ code. i)
            (λ old mine.
              if_cases Synced (has_name name s.groups)
                (λ _. apply_groups-IsSynced written s (drop_group name s.groups) i) (λ _. i)))

  call_group-IsSynced :
      (c : Caller) (s : Grouping) (k : Call) → IsSynced s → Synced (call_group c s k)
  unfolding call_group
  call_group-IsSynced c s (adds written known body) i = add_group-IsSynced written known s c body i
  call_group-IsSynced c s (updates written known name body) i =
      update_group-IsSynced written known s c name body i
  call_group-IsSynced c s (removes written name) i = remove_group-IsSynced written s c name i

  -- Any sequence of calls of the handlers of groups, by any callers, keeps the server, the pool and
  -- the gateway in step: the pool schedules the groups of the server and is coherent, and the gateway
  -- has the credentials of these groups.
  pub call_groups-IsSynced :
      (ks : List (Caller × Call)) (s : Grouping) → IsSynced s → IsSynced (call_groups s ks)
  unfolding call_groups
  call_groups-IsSynced [] s i = i
  call_groups-IsSynced ((c, k) ∷ ks) s i =
      call_groups-IsSynced ks (call_group c s k).0 (call_group-IsSynced c s k i)
