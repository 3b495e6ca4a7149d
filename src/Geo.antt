-- ===== src/Geo.antt =====
-- internal/geo/geo.go: the client that asks for the countries of addresses, with its cache. Whether an
-- address is public, which the Go library decides, and the answer of the service are arguments.
use proxy_gateway.Prelude.{
  String, Bool, List, [], ◌∷◌, ◌++◌, Option, none, some, str_eq, if◌then◌else◌, any,
}
use proxy_gateway.Prelude.Dict.{lookup, insert}

-- One entry of an answer.
pub record GeoResult : Type 0 where
  pub query : String
  pub status : String
  pub country_code : String

-- `cache[ip]`, the empty text for a missing key; `Country` returns it.
abbrev pub country_in : List (String × String) → String → String
country_in m ip = elim (lookup ip m) [ none ↦ "" | some c ↦ c ]

-- The results so far, and the addresses to ask for.
pub record Sorted : Type 0 where
  pub out : List (String × String)
  pub pending : List String

unfoldable pub sort_ip : (String → Bool) → List (String × String) → Sorted → String → Sorted
sort_ip is_public cache s ip =
    if str_eq ip ""
    then record s { out = insert ip "" s.out }
    else if is_public ip
    then elim (lookup ip cache) [
      | some country ↦ record s { out = insert ip country s.out }
      | none ↦
          if any (λ x. str_eq x ip) s.pending
          then s
          else record s { pending = s.pending ++ (ip ∷ []) }
    ]
    else record s { out = insert ip "" s.out }

-- The first loop of `Lookup`.
unfoldable pub sort_ips : (String → Bool) → List (String × String) → Sorted → List String → Sorted
sort_ips is_public cache s [] = s
sort_ips is_public cache s (ip ∷ ips) = sort_ips is_public cache (sort_ip is_public cache s ip) ips

-- `out[ip] = ""` for the addresses of a request that failed.
unfoldable pub give_up : List (String × String) → List String → List (String × String)
give_up out [] = out
give_up out (ip ∷ ips) = give_up (insert ip "" out) ips

abbrev pub result_country : GeoResult → String
result_country r = if str_eq r.status "success" then r.country_code else ""

-- The last loop of `Lookup`, over a map: the cache, and the results.
unfoldable pub take_results : List GeoResult → List (String × String) → List (String × String)
take_results [] m = m
take_results (r ∷ rs) m = take_results rs (insert r.query (result_country r) m)

-- What follows the first loop. The answer is `none` for any failure of the request.
unfoldable pub ask :
    Option (List GeoResult)
    → List (String × String)
    → Sorted
    → List (String × String) × List (String × String)
ask answer cache s = elim s.pending [
  | [] ↦ (s.out, cache)
  | ip ∷ ips ↦ elim answer [
    | none ↦ (give_up s.out (ip ∷ ips), cache)
    | some rs ↦ (take_results rs s.out, take_results rs cache)
  ]
]

-- `Lookup`: the results, and the cache afterwards.
unfoldable pub lookup_countries :
    (String → Bool)
    → Option (List GeoResult)
    → List (String × String)
    → List String
    → List (String × String) × List (String × String)
lookup_countries is_public answer cache ips =
    ask answer cache (sort_ips is_public cache (record { out = []; pending = [] }) ips)
