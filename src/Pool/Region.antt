-- ===== src/Pool/Region.antt =====
-- The region filter of a group: `regionMatches` and `regionAggregates` of internal/pool/pool.go.
pub mod Lists
use Prim.Native.Char.{code}
use proxy_gateway.Prelude.{
  ℕ, suc, ◌+◌, ◌≡◌, refl, String, Bool, true, false, not, ◌&&◌, List, [], ◌∷◌, ◌++◌, Option, none,
  some, arith, leb, ◌==◌, str_eq, if◌then◌else◌, any,
}
use proxy_gateway.Prelude.Dict.{lookup, insert}
use proxy_gateway.Model.{Proxy}

abbrev codes : String → List ℕ
codes String.[] = []
codes (String.◌∷◌ c s) = code c ∷ codes s

-- The lower case of an ASCII letter.
fold_code : ℕ → ℕ
fold_code c = if leb b'A' c && leb c b'Z' then c + 32 else c

equal_codes : List ℕ → List ℕ → Bool
unfolding fold_code
equal_codes [] [] = true
equal_codes [] (d ∷ ds) = false
equal_codes (c ∷ cs) [] = false
equal_codes (c ∷ cs) (d ∷ ds) = fold_code c == fold_code d && equal_codes cs ds

-- `strings.EqualFold`, for texts in ASCII, as country codes are.
unfoldable pub equal_fold : String → String → Bool
unfolding equal_codes
equal_fold s t = equal_codes (codes s) (codes t)

-- One turn of the loop of `regionMatches`.
unfoldable pub region_hit : String → String → Bool
region_hit country r =
    if str_eq r "domestic"
    then str_eq country "CN"
    else if str_eq r "overseas"
    then not (str_eq country "CN")
    else equal_fold country r

unfoldable pub region_matches : List String → String → Bool
region_matches [] country = true
region_matches (r ∷ rs) country = any (region_hit country) (r ∷ rs)

-- m[k] with 0, or nil, for a missing key.
abbrev pub count_at : String → List (String × ℕ) → ℕ
count_at k m = elim (lookup k m) [ none ↦ 0 | some n ↦ n ]

abbrev pub list_at : String → List (String × List Proxy) → List Proxy
list_at k m = elim (lookup k m) [ none ↦ [] | some l ↦ l ]

-- The two loops of `regionAggregates`.
unfoldable pub totals : List String → List Proxy → List (String × ℕ) → List (String × ℕ)
totals regions [] m = m
totals regions (pr ∷ rest) m = totals regions rest (
    if region_matches regions pr.country
    then insert pr.provider (count_at pr.provider m + 1) m
    else m)

unfoldable pub alive_lists :
    List String → List Proxy → List (String × List Proxy) → List (String × List Proxy)
alive_lists regions [] m = m
alive_lists regions (pr ∷ rest) m = alive_lists regions rest (
    if region_matches regions pr.country
    then insert pr.provider (list_at pr.provider m ++ (pr ∷ [])) m
    else m)

-- `regionAggregates`
unfoldable pub region_aggregates :
    List String → List Proxy → List Proxy → List (String × ℕ) × List (String × List Proxy)
region_aggregates regions all alive = (totals regions all [], alive_lists regions alive [])
