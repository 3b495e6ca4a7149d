-- ===== src/Tests/Gateway.antt =====
-- Concrete requests to the gateway: the group `home` over two proxies.
use proxy_gateway.Prelude.{
  pos, ℕ, ◌≡◌, refl, String, true, false, [], ◌∷◌, some, In, if◌then◌else◌, ◌==◌,
}
use proxy_gateway.Prelude.Dict.{lookup, insert}
use proxy_gateway.Model.{Proxy, Kind, is_tunnel}
use proxy_gateway.Config.{GroupCfg}
use proxy_gateway.Pool.State.{Pool, GroupSnap, LayerSnap}
use proxy_gateway.Pool.Next.{try_swrr}
use proxy_gateway.Gateway.Creds.{
  cred_key, creds_loop, lookup_group, has_credentials, lookup_group-rebuild_creds,
}
use proxy_gateway.Gateway.Direct.{
  find_group_cfg, direct_loop, handle_direct, group_providers, is_listed, AllAt,
  handle_direct-AllAt,
}
use proxy_gateway.Gateway.Relay.{
  Wire, relay_http, is_upstream_error_page, lower_bytes, starts_with, contains,
}
use proxy_gateway.Gateway.Retry.{via, IsFair, attempts, after_hop, handle_http, handle_http-IsFair}
use proxy_gateway.Gateway.Answers.{handle_http_answers}
use proxy_gateway.Text.{bytes}
use proxy_gateway.Tests.{
  milli, home, ready, ready-Coherent, zeros, zeros-IsBounded, sample, program, live_tier,
}

abbrev up : Wire
up = record {
  dialled = true;
  written = true;
  response = some (record { status = 200; server = []; body = [] });
  hijackable = true;
  hijacked = true;
  client_written = true;
}

-- The first attempt, with two left, cannot reach its proxy.
abbrev wire : ℕ → String → Wire
wire n id = if n == 2 then record up { dialled = false } else up

abbrev always : ℕ → String → Wire
always n id = up

handle_http-IsFair_example :
    IsFair 3 (λ n id. relay_http (wire n id)) ready (handle_http wire (λ n. zeros) ready "home")
handle_http-IsFair_example =
    handle_http-IsFair wire (λ n. zeros) ready "home" (λ n. zeros-IsBounded) ready-Coherent

second_answers : (handle_http wire (λ n. zeros) ready "home").reply ≡ via "b"
unfolding program handle_http attempts after_hop relay_http is_upstream_error_page lower_bytes
    starts_with contains bytes try_swrr
second_answers = refl

abbrev group_of : Pool → GroupSnap
group_of p = elim p.snap.groups [ [] ↦ record { name = ""; layers = [] } | g ∷ gs ↦ g ]

abbrev tier_of : Pool → LayerSnap
tier_of p = elim (group_of p).layers [ [] ↦ live_tier | l ∷ ls ↦ l ]

handle_http_answers_example :
    (id : String) × ((handle_http always (λ n. zeros) ready "home").reply ≡ via id)
    × In id (tier_of ready).proxies
unfolding program relay_http is_upstream_error_page lower_bytes starts_with contains bytes
handle_http_answers_example =
    handle_http_answers always (λ n. zeros) ready "home" (group_of ready) [] [] (tier_of ready)
      zeros-IsBounded ready-Coherent refl refl tt refl (λ id i. refl)

abbrev guarded : GroupCfg
guarded = record home { username = "u"; password = "p" }

lookup_group-rebuild_creds_example :
    (g : GroupCfg) × In g (home ∷ guarded ∷ [])
    × (g.name ≡ "home")
    × (g.username ≡ "u")
    × (g.password ≡ "p")
    × (has_credentials g ≡ true)
unfolding lookup_group creds_loop cred_key lookup insert
lookup_group-rebuild_creds_example =
    lookup_group-rebuild_creds (home ∷ guarded ∷ []) "u" "p" (λ e. absurd (cc), tt)
      (tt, ((λ e. absurd (cc), tt), tt)) (λ e. absurd (cc)) refl

abbrev tunnel_at : String → Proxy
tunnel_at host = record (sample "t" (pos 1)) { kind = Kind.tunnel; host = host }

handle_direct-AllAt_example :
    (g : GroupCfg) × (find_group_cfg "home" (home ∷ []) ≡ some g)
    × In (tunnel_at "h") (tunnel_at "h" ∷ [])
    × (is_listed (group_providers g) (tunnel_at "h") ≡ true)
    × (is_tunnel Kind.tunnel ≡ true)
    × AllAt (group_providers g) (tunnel_at "h") (tunnel_at "h" ∷ [])
unfolding handle_direct find_group_cfg direct_loop
handle_direct-AllAt_example = handle_direct-AllAt (home ∷ []) (tunnel_at "h" ∷ []) "home" refl
