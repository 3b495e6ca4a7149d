-- ===== src/Config/Accepted.antt =====
-- The promise of `Validate` of internal/config/config.go.
use proxy_gateway.Prelude.{
  ◌≡◌, sym, ap, inl, inr, String, true, false, not, List, [], ◌∷◌, str_eq, str_eq_iff, lists, any,
  Bool-cases, All, subst, In, map,
}
use proxy_gateway.Prelude.Float.{Float64}
use proxy_gateway.Config.{BackupPool, GroupCfg, AccountCfg, Config}
use proxy_gateway.Config.Validate.{
  Checked, ok, refused, check_providers, bad_ratio, is_blank_url, valid_region,
}
use proxy_gateway.Config.Groups.{
  strays, check_backups, check_group, check_groups, check_weights, check_accounts, validate,
}
use proxy_gateway.Config.Sound.{
  Fresh, names_of, Supported, and_then_ok, unless_bad_ok, check_providers_ok,
}

-- The names stand in the list.
abbrev pub Known : List String → List String → Type 0
Known known ns = All (λ n. In n known) ns

-- The providers that a group names are in a list.
abbrev pub IsResolved : List String → GroupCfg → Type 0
IsResolved known g =
    Known known g.primary × All (λ (b : BackupPool). Known known b.providers) g.backups

abbrev pub group_names : List GroupCfg → List String
group_names gs = map (λ (g : GroupCfg). g.name) gs

abbrev pub account_names : List AccountCfg → List String
account_names xs = map (λ (a : AccountCfg). a.name) xs

abbrev pub tokens_of : List AccountCfg → List String
tokens_of xs = map (λ (a : AccountCfg). a.token) xs

-- Every provider has a type that the program has, the names of providers, groups and accounts and the
-- tokens differ, and the groups name only providers that are there.
pub record IsAccepted (c : Config) : Type 0 where
  pub types : All Supported c.providers
  pub providers_differ : Fresh [] (names_of c.providers)
  pub groups_differ : Fresh [] (group_names c.groups)
  pub resolved : All (IsResolved (names_of c.providers)) c.groups
  pub accounts_differ : Fresh [] (account_names c.accounts)
  pub tokens_differ : Fresh [] (tokens_of c.accounts)

In-of_lists : (n : String) (ns : List String) → lists n ns ≡ true → In n ns
In-of_lists n [] h = absurd (cc)
In-of_lists n (k ∷ ns) h = elim (Bool-cases (str_eq k n)) [
  | inl same ↦ inl (sym ((str_eq_iff k n).0 same))
  | inr other ↦ inr (In-of_lists n ns (rw other at h))
]

strays-Known : (known ns : List String) → strays known ns ≡ false → Known known ns
strays-Known known [] h = tt
strays-Known known (n ∷ ns) h = elim (Bool-cases (lists n known)) [
  | inl there ↦ (In-of_lists n known there, strays-Known known ns (rw there at h))
  | inr missing ↦ absurd (cc (rw missing at h))
]

check_accounts-Fresh :
    (names tokens : List String) (xs : List AccountCfg) {u : Unit {0}}
    → check_accounts names tokens xs ≡ ok u
    → Fresh names (account_names xs) × Fresh tokens (tokens_of xs)
unfolding check_accounts
check_accounts-Fresh names tokens [] e = (tt, tt)
check_accounts-Fresh names tokens (a ∷ rest) e =
    let (_, e1) = unless_bad_ok (str_eq a.name "") _ _ e in
    let (name, e2) = unless_bad_ok (lists a.name names) _ _ e1 in
    let (_, e3) = unless_bad_ok (str_eq a.token "") _ _ e2 in
    let (token, e4) = unless_bad_ok (lists a.token tokens) _ _ e3 in
    let (_, e5) = unless_bad_ok _ _ _ e4 in
    let (f, g) = check_accounts-Fresh (a.name ∷ names) (a.token ∷ tokens) rest e5 in
    ((name, f), (token, g))

module _ ⦃fl : Float64⦄ where
  check_backups-Known :
      (known : List String) (bs : List BackupPool) {u : Unit {0}}
      → check_backups known bs ≡ ok u
      → All (λ (b : BackupPool). Known known b.providers) bs
  unfolding check_backups
  check_backups-Known known [] e = tt
  check_backups-Known known (b ∷ bs) e =
      let (_, e1) = unless_bad_ok (str_eq b.name "") _ _ e in
      let (_, e2) = unless_bad_ok (bad_ratio b.min_alive_ratio) _ _ e1 in
      let (there, e3) = unless_bad_ok (strays known b.providers) _ _ e2 in
      (strays-Known known b.providers there, check_backups-Known known bs e3)

  check_group-IsResolved :
      (known seen : List String) (g : GroupCfg) {u : Unit {0}}
      → check_group known seen g ≡ ok u
      → (lists g.name seen ≡ false) × IsResolved known g
  unfolding check_group
  check_group-IsResolved known seen g e =
      let (_, e1) = unless_bad_ok (str_eq g.name "") _ _ e in
      let (new, e2) = unless_bad_ok (lists g.name seen) _ _ e1 in
      let (_, e3) = unless_bad_ok (bad_ratio g.min_alive_ratio) _ _ e2 in
      let (_, e4) = unless_bad_ok (any (λ r. not (valid_region r)) g.regions) _ _ e3 in
      let (there, e5) = unless_bad_ok (strays known g.primary) _ _ e4 in
      let (_, _, e6) = and_then_ok (check_weights g.primary g.primary_weights) _ e5 in
      (new, (strays-Known known g.primary there, check_backups-Known known g.backups e6))

  check_groups-Fresh :
      (known seen : List String) (gs : List GroupCfg) {u : Unit {0}}
      → check_groups known seen gs ≡ ok u
      → Fresh seen (group_names gs) × All (IsResolved known) gs
  unfolding check_groups
  check_groups-Fresh known seen [] e = (tt, tt)
  check_groups-Fresh known seen (g ∷ gs) e =
      let (_, one, e1) = and_then_ok (check_group known seen g) _ e in
      let (new, resolved) = check_group-IsResolved known seen g one in
      let (f, r) = check_groups-Fresh known (g.name ∷ seen) gs e1 in ((new, f), (resolved, r))

  unfoldable config_of : Config → Checked Config → Config
  config_of d (ok c) = c
  config_of d (refused e) = d

  -- What `Validate` accepts has, with its fields filled in, only providers of the four types; the
  -- names of providers, of groups and of accounts differ, and so do the tokens; and each provider
  -- that a group names is one of the configuration's.
  pub validate-IsAccepted : (c : Config) {d : Config} → validate c ≡ ok d → IsAccepted d
  unfolding validate config_of
  validate-IsAccepted c {d} e =
      let (_, e1) = unless_bad_ok (any is_blank_url c.health_check.check_urls) _ _ e in
      let (ps, ep, e2) = and_then_ok (check_providers [] c.providers) _ e1 in
      let (_, eg, e3) = and_then_ok (check_groups (names_of ps) [] c.groups) _ e2 in
      let (_, ea, e4) = and_then_ok (check_accounts [] [] c.accounts) _ e3 in
      let (types, providers_differ) = check_providers_ok [] c.providers ep in
      let (groups_differ, resolved) = check_groups-Fresh (names_of ps) [] c.groups eg in
      let (accounts_differ, tokens_differ) = check_accounts-Fresh [] [] c.accounts ea in
      let same : record c { providers = ps } ≡ d = ap (config_of c) e4 in
      subst IsAccepted same (record {
        types = types;
        providers_differ = providers_differ;
        groups_differ = groups_differ;
        resolved = resolved;
        accounts_differ = accounts_differ;
        tokens_differ = tokens_differ;
      })
