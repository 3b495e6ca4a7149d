-- ===== src/Health/Probe.antt =====
-- What a probe of internal/health/checker.go finds: `probeOne`, `probe`, `parseCountry`.
use Prim.Native.Char.{Char, code}
use proxy_gateway.Prelude.{
  map, ℕ, ◌-◌, String, Bool, true, false, not, ◌&&◌, ◌||◌, List, [], ◌∷◌, Option, none, some, ltb,
  leb, ◌==◌, str_eq, if◌then◌else◌,
}
use proxy_gateway.Text.{trim_space, bytes, char_at, is_empty_text}

abbrev pub is_letter : ℕ → Bool
is_letter c = (leb 65 c && leb c 90) || (leb 97 c && leb c 122)

unfoldable pub are_two_letters : List ℕ → Bool
are_two_letters [] = false
are_two_letters (c ∷ []) = false
are_two_letters (c ∷ d ∷ []) = is_letter c && is_letter d
are_two_letters (c ∷ d ∷ e ∷ cs) = false

-- `isAlpha2`
unfoldable pub is_alpha2 : String → Bool
is_alpha2 s = are_two_letters (bytes s)

-- `strings.ToUpper` on the ASCII letters.
unfoldable pub put_upper : Char → String → String
put_upper c s =
    if leb 97 (code c) && leb (code c) 122
    then elim (char_at (code c - 97) "ABCDEFGHIJKLMNOPQRSTUVWXYZ") [
      | String.[] ↦ s
      | String.◌∷◌ d rest ↦ String.◌∷◌ d s
    ]
    else String.◌∷◌ c s

unfoldable pub to_upper : String → String
to_upper String.[] = String.[]
to_upper (String.◌∷◌ c s) = put_upper c (to_upper s)

-- `len(trimmed) > 2 && trimmed[0] == '{'`
abbrev is_object : List ℕ → Bool
is_object [] = false
is_object (c ∷ []) = false
is_object (c ∷ d ∷ []) = false
is_object (c ∷ d ∷ e ∷ cs) = c == 123

abbrev upper_code : String → String
upper_code s = if is_alpha2 s then to_upper s else ""

-- `parseCountry`; `json` gives the field `countryCode` of an object, `none` if it cannot be decoded.
unfoldable pub parse_country : (String → Option String) → String → String
parse_country json body =
    let trimmed = trim_space body in
    if is_empty_text trimmed
    then ""
    else if is_object (bytes trimmed)
    then elim (json trimmed) [ none ↦ "" | some v ↦ upper_code v ]
    else upper_code trimmed

-- The answer of a check target: its status and the first 1024 bytes of its body.
pub record Answer : Type 0 where
  pub status : ℕ
  pub body : String

-- `probeOne`: whether the target was reached, and the country. `none` is any failure of the request.
unfoldable pub probe_one : (String → Option String) → Option Answer → Bool × String
probe_one json none = (false, "")
probe_one json (some a) =
    if ltb a.status 200 || leb 400 a.status then (false, "") else (true, parse_country json a.body)

-- The last loop of `probe`, over the results in the order in which they came.
unfoldable pub merge_results : List (Bool × String) → Bool × String → Bool × String
merge_results [] out = out
merge_results ((ok, found) ∷ rs) (any_ok, country) = merge_results rs (
    if ok
    then (true, if str_eq country "" && not (str_eq found "") then found else country)
    else (any_ok, country))

-- `probe`
unfoldable pub probe : (String → Option String) → List (Option Answer) → Bool × String
probe json answers = merge_results (map (probe_one json) answers) (false, "")
