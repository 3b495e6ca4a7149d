-- ===== src/Server/Groups.antt =====
-- The handlers of groups of internal/server/server.go: `handleAddGroup`, `handleUpdateGroup`,
-- `handleRemoveGroup`, `validateGroup` and `applyGroups`. A body that cannot be decoded is `none`; the
-- names of the providers are an argument. Each handler runs to its end before the next.
use proxy_gateway.Prelude.{
  ℕ, String, Bool, true, false, not, ◌&&◌, List, [], ◌∷◌, ◌++◌, Option, none, some, str_eq,
  if◌then◌else◌, ◌==◌, ℤ, pos, negsuc, ◌+ℤ◌, lists, any, length,
}
use proxy_gateway.Prelude.Float.{Float64}
use proxy_gateway.Config.{GroupCfg, BackupPool}
use proxy_gateway.Config.Validate.{
  Checked, ok, refused, group_unnamed, group_ratio, credentials_apart, region_invalid,
  primary_missing, primary_unknown, weights_sum, backup_ratio, backup_unknown, and_then, unless_bad,
  valid_region, bad_ratio,
}
use proxy_gateway.Config.Groups.{strays, check_weights}
use proxy_gateway.Persist.{Content, replace_groups}
use proxy_gateway.Pool.State.{Pool}
use proxy_gateway.Pool.Rebuild.{set_groups}
use proxy_gateway.Gateway.Creds.{rebuild_creds}
use proxy_gateway.Server.{
  Caller, is_admin_user, current_account, owned, not_owned, require_owned_group,
}

-- What the handlers change. `creds` is the map of the gateway, `file` the store, where there is one.
pub record Grouping : Type 0 where
  pub groups : List GroupCfg
  pub pool : Pool
  pub creds : Option (List (String × String))
  pub file : Option (Content GroupCfg)

-- The sum of a map of weights.
unfoldable pub weight_sum : List (String × ℤ) → ℤ
weight_sum [] = pos 0
weight_sum ((n, w) ∷ ws) = w +ℤ weight_sum ws

abbrev pub is_hundred : ℤ → Bool
is_hundred (pos n) = n == 100
is_hundred (negsuc n) = false

-- The weights are given for all of so many providers, and do not sum to 100.
abbrev pub bad_sum : ℕ → List (String × ℤ) → Bool
bad_sum n ws = length ws == n && not (is_hundred (weight_sum ws))

-- The keys of `backupProviders`, with those so far.
unfoldable pub collect_names : List String → List String → List String
collect_names seen [] = seen
collect_names seen (n ∷ ns) = collect_names (if lists n seen then seen else n ∷ seen) ns

unfoldable pub backup_names : List String → List BackupPool → List String
backup_names seen [] = seen
backup_names seen (b ∷ bs) = backup_names (collect_names seen b.providers) bs

abbrev is_given : String → Bool
is_given s = not (str_eq s "")

abbrev apart : Bool → Bool → Bool
apart a b = if a then not b else b

abbrev no_names : List String → Bool
no_names [] = true
no_names (n ∷ ns) = false

-- The group with the owner that the caller may give it.
abbrev pub owned_by : Caller → GroupCfg → GroupCfg
owned_by c g = if is_admin_user c then g else record g { owner = current_account c }

abbrev pub has_name : String → List GroupCfg → Bool
has_name name gs = any (λ (g : GroupCfg). str_eq g.name name) gs

-- The first group of a name is replaced, or taken out.
unfoldable pub put_group : String → GroupCfg → List GroupCfg → List GroupCfg
put_group name g [] = []
put_group name g (x ∷ xs) = if str_eq x.name name then g ∷ xs else x ∷ put_group name g xs

unfoldable pub drop_group : String → List GroupCfg → List GroupCfg
drop_group name [] = []
drop_group name (x ∷ xs) = if str_eq x.name name then xs else x ∷ drop_group name xs

module _ ⦃fl : Float64⦄ where
  -- The loop over the backup pools.
  unfoldable pub check_pools : List String → List BackupPool → Checked (Unit {0})
  check_pools known [] = ok tt
  check_pools known (b ∷ bs) =
      unless_bad (bad_ratio b.min_alive_ratio) backup_ratio
        (unless_bad (strays known b.providers) backup_unknown (check_pools known bs))

  -- `validateGroup`
  unfoldable pub validate_group : List String → GroupCfg → Checked (Unit {0})
  validate_group known g =
      let backups = backup_names [] g.backups in
      unless_bad (str_eq g.name "") group_unnamed (
        unless_bad (bad_ratio g.min_alive_ratio) group_ratio (
          unless_bad (apart (is_given g.username) (is_given g.password)) credentials_apart (
            unless_bad (any (λ r. not (valid_region r)) g.regions) region_invalid (
              unless_bad (no_names g.primary) primary_missing (
                unless_bad (strays known g.primary) primary_unknown (
                  and_then (check_weights g.primary g.primary_weights) (λ u.
                    unless_bad (bad_sum (length g.primary) g.primary_weights) weights_sum (
                      and_then (check_pools known g.backups) (λ v.
                        and_then (check_weights backups g.backup_weights) (λ w.
                          unless_bad
                            (bad_sum (length backups) g.backup_weights && not (no_names backups))
                            weights_sum (ok tt)))))))))))

  -- `applyGroups`, for the groups afterwards.
  unfoldable pub apply_groups : Bool → Grouping → List GroupCfg → Grouping
  apply_groups written s gs = record {
    groups = gs;
    pool = set_groups s.pool gs;
    creds = elim s.creds [ none ↦ none | some m ↦ some (rebuild_creds gs) ];
    file = elim s.file [ none ↦ none | some f ↦ some (replace_groups written gs f).0 ];
  }

  -- `handleAddGroup`
  unfoldable pub add_group : Bool → List String → Grouping → Caller → Option GroupCfg → Grouping × ℕ
  add_group written known s c none = (s, 400)
  add_group written known s c (some given) =
      let g = owned_by c given in
      elim (validate_group known g) [
        | refused e ↦ (s, 400)
        | ok u ↦
            if has_name g.name s.groups
            then (s, 400)
            else (apply_groups written s (s.groups ++ (g ∷ [])), 200)
      ]

  -- `handleUpdateGroup`; the name comes from the path.
  unfoldable pub update_group :
      Bool → List String → Grouping → Caller → String → Option GroupCfg → Grouping × ℕ
  update_group written known s c name body =
      if str_eq name "" then (s, 400) else elim (require_owned_group s.groups c name) [
        | not_owned code ↦ (s, code)
        | owned old ↦ elim body [
          | none ↦ (s, 400)
          | some given ↦
              let g = owned_by c (record given { name = name }) in
              elim (validate_group known g) [
                | refused e ↦ (s, 400)
                | ok u ↦
                    if has_name name s.groups
                    then (apply_groups written s (put_group name g s.groups), 200)
                    else (s, 404)
              ]
        ]
      ]

  -- `handleRemoveGroup`
  unfoldable pub remove_group : Bool → Grouping → Caller → String → Grouping × ℕ
  remove_group written s c name =
      if str_eq name "" then (s, 400) else elim (require_owned_group s.groups c name) [
        | not_owned code ↦ (s, code)
        | owned old ↦
            if has_name name s.groups
            then (apply_groups written s (drop_group name s.groups), 200)
            else (s, 404)
      ]
