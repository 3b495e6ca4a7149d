-- ===== src/Tests.antt =====
-- Concrete runs of the pool: two proxies of a provider in one group.
mod Accounts
mod Alerts
mod Gateway
mod Store
mod Manager
mod Health
mod Config
mod Server
use proxy_gateway.Prelude.{
  ℕ, suc, ◌+◌, ◌*◌, ◌/◌, ◌≤◌, ◌<◌, ◌≡◌, refl, ◌↔◌, String, Bool, true, false, not, ◌&&◌, ◌==◌, List,
  [], ◌∷◌, some, arith, ltb, leb, In, length, ℤ, pos, get_elem?, ◌+ℤ◌, ◌-ℤ◌,
}
use proxy_gateway.Prelude.Dict.{lookup, insert, delete, keep_entries}
use proxy_gateway.Prelude.Float.{Float64}
use proxy_gateway.Model.{Proxy, Kind}
use proxy_gateway.Config.{GroupCfg}
use proxy_gateway.Pool.State.{
  Pool, new_pool, live_in, LayerSnap, notify_state, latency_of, set_state_sink,
}
use proxy_gateway.Pool.Region.{region_aggregates, region_matches, alive_lists, totals}
use proxy_gateway.Pool.Layer.{
  build_layer, collect, collect_alive, collect_one, layer_weight, running, sum, layer_ref_latency,
}
use proxy_gateway.Pool.Layer.Valid.{IsValid, build_layer-IsValid}
use proxy_gateway.Pool.Layer.Members.{build_layer-members}
use proxy_gateway.Pool.Prio.{
  prio_groups, sort_alive, scan, insert_sorted, comes_before, stat_loop, count_stat,
}
use proxy_gateway.Pool.Prio.Tiles.{Tiles, prio_groups-Tiles}
use proxy_gateway.Pool.Rebuild.{
  rebuild, set_groups, snapshot_of, build_groups, build_group, backup_providers,
}
use proxy_gateway.Pool.Search.{Pick, pick, Draws, weighted, sort_search, search_loop}
use proxy_gateway.Pool.Search.Choice.{weighted-share, prefix, IsEdge, sort_search-IsEdge}
use proxy_gateway.Pool.Swrr.{pick_swrr, latency_scaled_weight, swrr_loop, swrr_turn, settle, beats}
use proxy_gateway.Pool.Swrr.Turns.{IsFairTurn, turn_total, pick_swrr-IsFairTurn}
use proxy_gateway.Pool.Next.{
  next_excluding, next_in_group_excluding, next_from_layers, skips, next_in_group, next, find_group,
  pick_layer,
}
use proxy_gateway.Pool.Next.Safe.{Picks, IsBounded}
use proxy_gateway.Pool.Next.Failover.{next_from_layers_first}
use proxy_gateway.Pool.Change.{add, normalised, merged, mark_failed, mark_success, remove}
use proxy_gateway.Pool.Sticky.{sticky_next, reuse, remember, choose, window_end}
use proxy_gateway.Pool.Coherent.{Coherent}
use proxy_gateway.Pool.Serve.{Serves, next_excluding-Serves, next_in_group_excluding-Serves}
use proxy_gateway.Pool.Session.{Live, SameProxies, sticky_next-Live}
use proxy_gateway.Pool.History.{Call, sets_groups, adds, run, step, history-Coherent}
use proxy_gateway.Pool.Effects.{IsPurged, remove-IsPurged}

-- Fixed-point numbers with three decimals in place of the float64 patterns, and one pattern that is no
-- number and that no comparison holds of.
abbrev not_a_number : ℕ
not_a_number = 1000000000000000000000000000000

abbrev is_num : ℕ → Bool
is_num x = not (x == not_a_number)

instance abbrev pub milli : Float64
milli = record {
  of_int = λ n. n * 1000;
  trunc = λ x. x / 1000;
  div = λ a b. a * 1000 / b;
  mul = λ a b. a * b / 1000;
  less = λ a b. is_num a && is_num b && ltb a b;
  at_least = λ a b. is_num a && is_num b && leb b a;
  zero_f = 0;
  half_f = 500;
  one_f = 1000;
  two_f = 2000;
}

abbrev sample : String → ℤ → Proxy
sample name weight = record {
  id = name;
  provider = "paid";
  kind = Kind.ip_pool;
  scheme = "http";
  host = name;
  port = pos 8080;
  username = "";
  password = "";
  weight = weight;
  check_url = "";
  check_urls = [];
  expire_at = pos 0;
  check_interval_ms = pos 0;
  priority = pos 0;
  min_alive_ratio = 0;
  sticky_seconds = pos 0;
  free = false;
  delete_latency_ms = pos 0;
  country = "US";
  alive = true;
  fails = 0;
  latency_ms = pos 0;
  last_used = pos 0;
}

abbrev home : GroupCfg
home = record {
  name = "home";
  group_type = "";
  min_alive_ratio = 500;
  primary = "paid" ∷ [];
  primary_weights = [];
  backups = [];
  backup_weights = [];
  regions = [];
  username = "";
  password = "";
  owner = "";
}

abbrev calls : List Call
calls = sets_groups (home ∷ []) ∷ adds (sample "a" (pos 2)) ∷ adds (sample "b" (pos 1)) ∷ []

abbrev ready : Pool
ready = run new_pool calls

ready-Coherent : Coherent ready
ready-Coherent = history-Coherent calls (tt, (tt, (tt, tt)))

abbrev zeros : Draws
zeros k n = 0

zeros-IsBounded : IsBounded zeros
zeros-IsBounded k n h = h

-- What the tests compute with.
program : Unit {0}
unfolding lookup insert delete keep_entries new_pool live_in notify_state latency_of set_state_sink
    region_aggregates region_matches alive_lists totals build_layer collect collect_alive
    collect_one layer_weight running sum layer_ref_latency prio_groups sort_alive scan insert_sorted
    comes_before stat_loop count_stat rebuild set_groups snapshot_of build_groups build_group
    backup_providers weighted search_loop pick_swrr latency_scaled_weight swrr_loop swrr_turn settle
    beats next_excluding next_in_group_excluding next_from_layers skips next_in_group next
    find_group pick_layer add normalised merged mark_failed mark_success remove sticky_next reuse
    remember window_end choose run step ◌+ℤ◌ ◌-ℤ◌
program = tt

-- Two selections in a row by the smooth weighted round robin.
first_pick : (next_in_group zeros ready "home").0 ≡ pick "a"
unfolding program
first_pick = refl

second_pick : (next_in_group zeros (next_in_group zeros ready "home").1 "home").0 ≡ pick "b"
unfolding program
second_pick = refl

history-Coherent_example : Coherent (run new_pool calls)
history-Coherent_example = history-Coherent calls (tt, (tt, (tt, tt)))

next_excluding-Serves_example : Serves ready ("a" ∷ []) (next_excluding zeros ready ("a" ∷ []))
next_excluding-Serves_example =
    next_excluding-Serves zeros ready ("a" ∷ []) zeros-IsBounded ready-Coherent

next_in_group_excluding-Serves_example :
    Serves ready ("a" ∷ []) (next_in_group_excluding zeros ready "home" ("a" ∷ []))
next_in_group_excluding-Serves_example =
    next_in_group_excluding-Serves zeros ready "home" ("a" ∷ []) zeros-IsBounded ready-Coherent

-- A tier of a provider without proxies, and one with the two samples.
abbrev two : List Proxy
two = sample "a" (pos 2) ∷ sample "b" (pos 1) ∷ []

abbrev dead_tier : LayerSnap
dead_tier = build_layer "primary" ("none" ∷ []) [] 500 [] []

abbrev live_tier : LayerSnap
live_tier =
    build_layer "backup" ("paid" ∷ []) (("paid", pos 3) ∷ []) 500 (region_aggregates [] two two).1
      (region_aggregates [] two two).0

live_tier-IsValid : IsValid live_tier
live_tier-IsValid = build_layer-IsValid _ _ _ _ _ _

live_tier-filled : 0 < length live_tier.proxies
unfolding program
live_tier-filled = omega arith

dead_skips : skips dead_tier ≡ true
unfolding program
dead_skips = refl

live_counts : skips live_tier ≡ false
unfolding program
live_counts = refl

next_from_layers_first_example :
    (id : String) × ((next_from_layers zeros ready (dead_tier ∷ live_tier ∷ []) []).0 ≡ pick id)
    × In id live_tier.proxies
next_from_layers_first_example =
    next_from_layers_first (dead_tier ∷ []) [] live_tier zeros ready zeros-IsBounded
      (dead_skips, tt) live_counts live_tier-IsValid

pick_swrr-IsFairTurn_example :
    (id : String) × ((pick_swrr ready live_tier).0 ≡ pick id)
    × IsFairTurn live_tier.proxies ready.swrr
        (pick_swrr ready live_tier).1.swrr
        (turn_total ready live_tier)
        id
pick_swrr-IsFairTurn_example =
    pick_swrr-IsFairTurn ready live_tier live_tier-IsValid live_tier-filled

abbrev session : Pick × Pool
session = sticky_next zeros 7 ready "client" (pos 60) "home"

abbrev client : String
client = "client"

sticky_next-Live_example : Picks (Live ready) session.0 × SameProxies ready session.1
sticky_next-Live_example =
    sticky_next-Live zeros 7 ready "client" (pos 60) "home" zeros-IsBounded ready-Coherent

weighted-share_example :
    (j : ℕ) × (id : String) × (weighted
        ("a" ∷ "b" ∷ [])
        0
        (running 0 (2 ∷ 1 ∷ []))
        (sum (2 ∷ 1 ∷ []))
        2
      ≡ pick id)
    × (get_elem? ("a" ∷ "b" ∷ []) (0 + j) ≡ some id)
    × (j < 2)
    × (prefix j (2 ∷ 1 ∷ []) ≤ 2)
    × (2 < prefix (suc j) (2 ∷ 1 ∷ []))
weighted-share_example =
    weighted-share ("a" ∷ "b" ∷ []) 0 (2 ∷ 1 ∷ []) 2 (omega arith) (unfold sum in omega arith)

build_layer-members_example : In "a" live_tier.proxies ↔ (
    (pr : Proxy) × (pr.id ≡ "a")
    × In pr two
    × (region_matches [] pr.country ≡ true)
    × In pr.provider ("paid" ∷ []))
build_layer-members_example =
    build_layer-members "backup" ("paid" ∷ []) (("paid", pos 3) ∷ []) 500 [] two two "a"

build_layer-IsValid_example : IsValid (build_layer "primary" ("none" ∷ []) [] 500 [] [])
build_layer-IsValid_example = build_layer-IsValid "primary" ("none" ∷ []) [] 500 [] []

prio_groups-Tiles_example : Tiles two 0 two (prio_groups two two)
prio_groups-Tiles_example = prio_groups-Tiles two two

abbrev a_ready : Proxy
a_ready = sample "a" (pos 2)

a_found : lookup "a" ready.proxies ≡ some a_ready
unfolding program
a_found = refl

remove-IsPurged_example : ((remove ready "a").1 ≡ true) × IsPurged ready (remove ready "a").0 "a"
remove-IsPurged_example = remove-IsPurged ready "a" a_found ready-Coherent
