-- ===== src/Server.antt =====
-- internal/server/server.go: who may call the API, and what an account may see, change and use. A
-- response is the status that the handler writes.
pub mod Handout
pub mod Batch
pub mod Groups
pub mod Isolated
pub mod Synced
use Prim.Native.Char.{code}
use proxy_gateway.Prelude.{
  ℕ, String, Bool, true, false, not, ◌&&◌, ◌||◌, List, [], ◌∷◌, Option, none, some, str_eq,
  if◌then◌else◌, ◌==◌,
}
use proxy_gateway.Config.{ProviderCfg, GroupCfg}
use proxy_gateway.Text.{trim_space}
use proxy_gateway.Auth.State.{Account, Manager, by_token_of, is_admin, can_use_group}
use proxy_gateway.Gateway.Direct.{find_group_cfg}

-- What stands behind a prefix, `none` where the text has another one: `strings.HasPrefix` and
-- `strings.TrimPrefix`.
unfoldable pub strip_prefix : String → String → Option String
strip_prefix String.[] s = some s
strip_prefix (String.◌∷◌ c p) String.[] = none
strip_prefix (String.◌∷◌ c p) (String.◌∷◌ d s) =
    let rest = strip_prefix p s in if code c == code d then rest else none

abbrev pub has_prefix : String → String → Bool
has_prefix p s = elim (strip_prefix p s) [ none ↦ false | some rest ↦ true ]

-- `bearerToken`, from the headers `Authorization` and `X-Api-Token`.
unfoldable pub bearer_token : String → String → String
bearer_token authorization api_token = elim (strip_prefix "Bearer " authorization) [
  | none ↦ trim_space api_token
  | some rest ↦ trim_space rest
]

-- Who calls: anyone where there are no accounts, or an account. Or the call is denied.
pub data Caller : Type 0 where
  anyone : Caller
  account : Account → Caller

pub data Access : Type 0 where
  granted : Caller → Access
  denied : ℕ → Access

abbrev is_empty_manager : Manager → Bool
is_empty_manager m = elim m.by_name [ [] ↦ true | x ∷ xs ↦ false ]

-- `authorize`, for the token of the request and whether the route is for admins.
unfoldable pub authorize : Option Manager → String → Bool → Access
authorize none token admin = granted anyone
authorize (some m) token admin =
    if is_empty_manager m
    then granted anyone
    else if str_eq token ""
    then denied 401
    else elim (by_token_of m token) [
      | none ↦ denied 401
      | some a ↦ if admin && not (is_admin a) then denied 403 else granted (account a)
    ]

-- What the dispatcher of `Handler` asks of a request to an API path: nothing, an account, or an
-- admin.
pub data Guard : Type 0 where
  no_guard account_guard admin_guard : Guard

unfoldable pub guard_of : String → Guard
guard_of path =
    if has_prefix "/api/v1/admin/" path
    then if has_prefix "/api/v1/admin/providers" path || has_prefix "/api/v1/admin/groups" path
      then account_guard
      else admin_guard
    else if has_prefix "/api/v1/" path
    then account_guard
    else no_guard

unfoldable pub enter : Option Manager → String → Guard → Access
enter m token no_guard = granted anyone
enter m token account_guard = authorize m token false
enter m token admin_guard = authorize m token true

-- `currentAccount`
abbrev pub current_account : Caller → String
current_account anyone = ""
current_account (account a) = a.name

-- `isAdminUser`
abbrev pub is_admin_user : Caller → Bool
is_admin_user anyone = false
is_admin_user (account a) = is_admin a

-- The caller is an admin, or has no name.
abbrev pub is_free : Caller → Bool
is_free c = is_admin_user c || str_eq (current_account c) ""

unfoldable pub provider_visible : Caller → ProviderCfg → Bool
provider_visible c cfg =
    if is_free c
    then true
    else if str_eq cfg.owner ""
    then cfg.is_public
    else if str_eq cfg.owner (current_account c)
    then true
    else cfg.is_public

unfoldable pub provider_writable : Caller → ProviderCfg → Bool
provider_writable c cfg = if is_free c then true else str_eq cfg.owner (current_account c)

unfoldable pub group_visible : Caller → GroupCfg → Bool
group_visible c g = if is_free c then true else str_eq g.owner (current_account c)

unfoldable pub group_writable : Caller → GroupCfg → Bool
group_writable c g =
    if is_free c then true else not (str_eq g.owner "") && str_eq g.owner (current_account c)

-- `requireOwnedGroup`: the group, or the status of the error.
pub data Owned : Type 0 where
  owned : GroupCfg → Owned
  not_owned : ℕ → Owned

unfoldable pub require_owned_group : List GroupCfg → Caller → String → Owned
require_owned_group gs c name = elim (find_group_cfg name gs) [
  | none ↦ not_owned 404
  | some g ↦ if group_writable c g then owned g else not_owned 403
]

-- `groupAllowed`
unfoldable pub group_allowed : List GroupCfg → Caller → String → Bool
group_allowed gs anyone group = true
group_allowed gs (account a) group =
    if str_eq group "" then true else elim (find_group_cfg group gs) [
      | none ↦ false
      | some g ↦
          if is_admin a
          then true
          else if str_eq g.owner ""
          then can_use_group a group
          else str_eq g.owner a.name
    ]
