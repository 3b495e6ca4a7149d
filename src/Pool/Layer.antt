-- ===== src/Pool/Layer.antt =====
-- `buildLayer` and `layerRefLatency` of internal/pool/pool.go.
pub mod Valid
pub mod Members
use proxy_gateway.Prelude.{
  ℕ, suc, ◌+◌, ◌/◌, ◌≡◌, refl, String, Bool, true, false, List, [], ◌∷◌, ◌++◌, map, Option, none,
  some, arith, ltb, ◌==◌, str_eq, if◌then◌else◌, any, length, ℤ, is_pos, pos_part, to_int32,
}
use proxy_gateway.Prelude.Dict.{lookup}
use proxy_gateway.Model.{Proxy, is_tunnel}
use proxy_gateway.Pool.State.{LayerSnap}
use proxy_gateway.Pool.Region.{count_at, list_at}

-- The variables of the first loop of `buildLayer`. `seen` is a set of IDs.
pub record Collected : Type 0 where
  pub seen : List String
  pub picked : List Proxy
  pub all_total : ℕ
  pub all_pooled : Bool

abbrev pub is_seen : String → List String → Bool
is_seen id = any (str_eq id)

-- One turn of the inner loop.
unfoldable pub collect_one : Collected → Proxy → Collected
collect_one c pr = if is_seen pr.id c.seen then c else (record c {
  seen = pr.id ∷ c.seen;
  picked = c.picked ++ (pr ∷ []);
  all_pooled = if is_tunnel pr.kind then false else c.all_pooled;
})

unfoldable pub collect_alive : Collected → List Proxy → Collected
collect_alive c [] = c
collect_alive c (pr ∷ rest) = collect_alive (collect_one c pr) rest

-- The outer loop, over the provider names.
unfoldable pub collect :
    List (String × List Proxy) → List (String × ℕ) → Collected → List String → Collected
collect alive_by total_by c [] = c
collect alive_by total_by c (pn ∷ rest) =
    collect alive_by total_by
      (collect_alive (record c { all_total = c.all_total + count_at pn total_by })
        (list_at pn alive_by))
      rest

-- The weight of a proxy: the group's for its provider if that is positive, else its own; at least 1.
unfoldable pub configured_weight : List (String × ℤ) → Proxy → ℤ
configured_weight weights pr = elim (lookup pr.provider weights) [
  | none ↦ pr.weight
  | some gw ↦ if is_pos gw then to_int32 (pos_part gw) else pr.weight
]

abbrev pub at_least_one : ℤ → ℕ
at_least_one w = if is_pos w then pos_part w else 1

unfoldable pub layer_weight : List (String × ℤ) → Proxy → ℕ
unfolding configured_weight
layer_weight weights pr = at_least_one (configured_weight weights pr)

-- `cumW`: the running sums behind a start value.
unfoldable pub running : ℕ → List ℕ → List ℕ
running acc [] = []
running acc (w ∷ ws) = (acc + w) ∷ running (acc + w) ws

unfoldable pub sum : List ℕ → ℕ
sum [] = 0
sum (w ∷ ws) = w + sum ws

-- The loop of `layerRefLatency`.
unfoldable pub latency_sum : List ℤ → ℕ
latency_sum [] = 0
latency_sum (l ∷ ls) = if is_pos l then pos_part l + latency_sum ls else latency_sum ls

unfoldable pub latency_count : List ℤ → ℕ
latency_count [] = 0
latency_count (l ∷ ls) = if is_pos l then suc (latency_count ls) else latency_count ls

-- `layerRefLatency`, on the latencies of the proxies.
unfoldable pub layer_ref_latency : List ℤ → ℕ
unfolding latency_sum latency_count
layer_ref_latency ls = if latency_count ls == 0 then 0 else latency_sum ls / latency_count ls

abbrev pub start_collect : Collected
start_collect = record { seen = []; picked = []; all_total = 0; all_pooled = true }

unfoldable pub build_layer :
    String
    → List String
    → List (String × ℤ)
    → ℕ
    → List (String × List Proxy)
    → List (String × ℕ)
    → LayerSnap
build_layer name providers weights min_ratio alive_by total_by =
    let c = collect alive_by total_by start_collect providers in
    let ws = map (layer_weight weights) c.picked in
    record {
      name = name;
      proxies = map (λ pr. pr.id) c.picked;
      alive_total = c.all_total;
      alive_count = length c.picked;
      min_ratio = min_ratio;
      use_swrr = c.all_pooled;
      weight = ws;
      cum_w = running 0 ws;
      total_w = sum ws;
      ref_latency = layer_ref_latency (map (λ pr. pr.latency_ms) c.picked);
    }
