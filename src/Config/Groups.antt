-- ===== src/Config/Groups.antt =====
-- The checks of groups and accounts by `Validate` of internal/config/config.go, and the whole.
use proxy_gateway.Prelude.{
  String, Bool, not, ◌&&◌, List, [], ◌∷◌, str_eq, ℤ, pos, ltb_ℤ, lists, any, map,
}
use proxy_gateway.Prelude.Float.{Float64}
use proxy_gateway.Config.{ProviderCfg, BackupPool, GroupCfg, AccountCfg, Config}
use proxy_gateway.Config.Validate.{
  Checked, ok, blank_check_url, group_unnamed, group_twice, group_ratio, region_invalid,
  primary_unknown, weight_below_one, weight_not_primary, backup_unnamed, backup_ratio,
  backup_unknown, account_unnamed, account_twice, token_missing, token_twice, role_invalid,
  and_then, unless_bad, valid_region, bad_ratio, is_blank_url, check_providers,
}

-- Some text of a list is not in another.
abbrev pub strays : List String → List String → Bool
strays known ns = any (λ n. not (lists n known)) ns

-- The loop over `primary_weights`.
unfoldable pub check_weights : List String → List (String × ℤ) → Checked (Unit {0})
check_weights primary [] = ok tt
check_weights primary ((n, w) ∷ ws) =
    unless_bad (ltb_ℤ w (pos 1)) weight_below_one
      (unless_bad (not (lists n primary)) weight_not_primary (check_weights primary ws))

abbrev is_bad_role : String → Bool
is_bad_role r = not (str_eq r "admin") && not (str_eq r "user") && not (str_eq r "")

-- The accounts, for the names and the tokens of those before.
unfoldable pub check_accounts : List String → List String → List AccountCfg → Checked (Unit {0})
check_accounts names tokens [] = ok tt
check_accounts names tokens (a ∷ rest) = unless_bad (str_eq a.name "") account_unnamed (
    unless_bad (lists a.name names) account_twice (
      unless_bad (str_eq a.token "") token_missing (
        unless_bad (lists a.token tokens) token_twice (
          unless_bad (is_bad_role a.role) role_invalid
            (check_accounts (a.name ∷ names) (a.token ∷ tokens) rest)))))

module _ ⦃fl : Float64⦄ where
  -- The backup pools of a group, for the names of the providers.
  unfoldable pub check_backups : List String → List BackupPool → Checked (Unit {0})
  check_backups known [] = ok tt
  check_backups known (b ∷ bs) = unless_bad (str_eq b.name "") backup_unnamed (
      unless_bad (bad_ratio b.min_alive_ratio) backup_ratio
        (unless_bad (strays known b.providers) backup_unknown (check_backups known bs)))

  -- One group, for the names of those before it.
  unfoldable pub check_group : List String → List String → GroupCfg → Checked (Unit {0})
  check_group known seen g = unless_bad (str_eq g.name "") group_unnamed (
      unless_bad (lists g.name seen) group_twice (
        unless_bad (bad_ratio g.min_alive_ratio) group_ratio (
          unless_bad (any (λ r. not (valid_region r)) g.regions) region_invalid (
            unless_bad (strays known g.primary) primary_unknown (
              and_then (check_weights g.primary g.primary_weights)
                (λ u. check_backups known g.backups))))))

  unfoldable pub check_groups : List String → List String → List GroupCfg → Checked (Unit {0})
  check_groups known seen [] = ok tt
  check_groups known seen (g ∷ gs) =
      and_then (check_group known seen g) (λ u. check_groups known (g.name ∷ seen) gs)

  -- `Validate`
  unfoldable pub validate : Config → Checked Config
  validate c = unless_bad (any is_blank_url c.health_check.check_urls) blank_check_url (
      and_then (check_providers [] c.providers) (λ ps.
        and_then (check_groups (map (λ (p : ProviderCfg). p.name) ps) [] c.groups) (λ u.
          and_then (check_accounts [] [] c.accounts) (λ v. ok (record c { providers = ps })))))
