-- ===== src/Tests/Server.antt =====
-- Concrete requests to the API.
use proxy_gateway.Prelude.{inl, none, ◌≡◌, refl, String, true, List, [], ◌∷◌, some, pos}
use proxy_gateway.Model.{Proxy}
use proxy_gateway.Config.{GroupCfg}
use proxy_gateway.Auth.State.{Account, can_use_group, is_listed}
use proxy_gateway.Gateway.Direct.{find_group_cfg}
use proxy_gateway.Pool.Next.{try_swrr}
use proxy_gateway.Server.{
  Caller, require_owned_group, group_writable, account, group_allowed, strip_prefix, guard_of,
  admin_guard, bearer_token,
}
use proxy_gateway.Server.Handout.{
  get_proxies, batch_count, take_batch, select_one, answer, record_proxy, record_call,
}
use proxy_gateway.Server.Batch.{IsHandout, get_proxies-IsHandout}
use proxy_gateway.Server.Groups.{
  Grouping, add_group, update_group, remove_group, put_group, validate_group, weight_sum,
  collect_names, backup_names, check_pools, apply_groups,
}
use proxy_gateway.Server.Isolated.{Call, adds, updates, removes, call_group, call_group_isolated}
use proxy_gateway.Server.Synced.{IsSynced, call_groups, call_groups-IsSynced}
use proxy_gateway.Config.Validate.{and_then, unless_bad}
use proxy_gateway.Config.Groups.{check_weights}
use proxy_gateway.Text.{trim_space, trim_left, trim_right, is_space}
use proxy_gateway.Tests.{milli, home, ready, ready-Coherent, zeros, zeros-IsBounded, program}

abbrev ann : Account
ann = record {
  name = "ann";
  password = "";
  token = "t";
  role = "user";
  enabled = true;
  groups = some ("home" ∷ []);
}

abbrev host : Proxy → String
host pr = pr.host

both :
    (get_proxies host (λ n. zeros) (home ∷ []) (account ann) "home" (pos 5) ready).ids
    ≡ "a" ∷ "b" ∷ []
unfolding program get_proxies batch_count take_batch select_one answer record_proxy record_call
    group_allowed find_group_cfg can_use_group is_listed try_swrr
both = refl

token : bearer_token "Bearer  t " "" ≡ "t"
unfolding bearer_token strip_prefix trim_space trim_left trim_right is_space
token = refl

settings_guarded : guard_of "/api/v1/admin/settings" ≡ admin_guard
unfolding guard_of strip_prefix
settings_guarded = refl

get_proxies-IsHandout_example :
    IsHandout
      (pos 5)
      ready
      (get_proxies host (λ n. zeros) (home ∷ []) (account ann) "home" (pos 5) ready)
unfolding group_allowed find_group_cfg can_use_group is_listed
get_proxies-IsHandout_example =
    get_proxies-IsHandout host (λ n. zeros) (home ∷ []) (account ann) "home" (pos 5) ready
      (λ n. zeros-IsBounded) ready-Coherent refl

abbrev at_first : Grouping
at_first = record { groups = home ∷ []; pool = ready; creds = some []; file = none }

-- The group of another is left alone, and the account's own is added.
abbrev own : GroupCfg
own = record home { name = "own" }

adds_own :
    (add_group true ("paid" ∷ []) at_first (account ann) (some own)).0.groups
    ≡ home ∷ record own { owner = "ann" } ∷ []
unfolding add_group validate_group weight_sum collect_names backup_names check_pools apply_groups
    and_then unless_bad check_weights
adds_own = refl

call_group_isolated_example :
    find_group_cfg "home"
      (call_group (account ann) at_first (updates true ("paid" ∷ []) "home" (some home))).0.groups
    ≡ some home
unfolding find_group_cfg
call_group_isolated_example =
    call_group_isolated (account ann) at_first "home" refl refl refl
      (updates true ("paid" ∷ []) "home" (some home))

at_first-IsSynced : IsSynced (record at_first { creds = none })
unfolding program
at_first-IsSynced = record { coherent = ready-Coherent; scheduled = refl; opened = inl refl }

-- Two calls that are refused, one that adds a group, and one that changes it.
abbrev by_ann : List (Caller × Call)
by_ann =
    (account ann, adds true ("paid" ∷ []) (some home))
    ∷ (account ann, removes true "home")
    ∷ (account ann, adds true ("paid" ∷ []) (some own))
    ∷ (
      account ann,
      updates true ("paid" ∷ []) "own" (some (record own { username = "u"; password = "p" })),
    )
    ∷ []

changed_own :
    (call_groups (record at_first { creds = none }) by_ann).groups
    ≡ home ∷ record own { owner = "ann"; username = "u"; password = "p" } ∷ []
unfolding call_groups call_group add_group update_group remove_group require_owned_group put_group
    group_writable validate_group weight_sum collect_names backup_names check_pools apply_groups
    and_then unless_bad check_weights find_group_cfg
changed_own = refl

call_groups-IsSynced_example : IsSynced (call_groups (record at_first { creds = none }) by_ann)
call_groups-IsSynced_example =
    call_groups-IsSynced by_ann (record at_first { creds = none }) at_first-IsSynced
