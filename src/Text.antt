-- ===== src/Text.antt =====
-- The operations on texts of the Go library that the program uses: the cut at the first
-- "$", `strings.TrimSpace`, the bytes of a text, and `encoding/hex`.
use Prim.Native.Char.{code}
use proxy_gateway.Prelude.{
  ℕ, zero, suc, ◌+◌, ◌-◌, ◌*◌, ◌/◌, ◌%◌, String, Bool, true, false, ◌&&◌, ◌||◌, List, [], ◌∷◌, ◌++◌,
  Option, none, some, ltb, leb, ◌==◌, if◌then◌else◌,
}

-- The texts before and after the first "$": `strings.Index(s, "$")` and the slices there.
unfoldable pub cut : String → Option (String × String)
cut String.[] = none
cut (String.◌∷◌ c s) =
    let rest = cut s in
    if code c == 36
    then some (String.[], s)
    else elim rest [ none ↦ none | some (b, a) ↦ some (String.◌∷◌ c b, a) ]

abbrev pub is_empty_text : String → Bool
is_empty_text String.[] = true
is_empty_text (String.◌∷◌ c s) = false

-- `unicode.IsSpace`
unfoldable pub is_space : ℕ → Bool
is_space c =
    (leb 9 c && leb c 13)
    || c == 32
    || c == 133
    || c == 160
    || c == 5760
    || (leb 8192 c && leb c 8202)
    || c == 8232
    || c == 8233
    || c == 8239
    || c == 8287
    || c == 12288

unfoldable pub trim_left : String → String
trim_left String.[] = String.[]
trim_left (String.◌∷◌ c s) =
    let rest = trim_left s in if is_space (code c) then rest else String.◌∷◌ c s

unfoldable pub trim_right : String → String
trim_right String.[] = String.[]
trim_right (String.◌∷◌ c s) =
    let rest = trim_right s in
    if is_empty_text rest && is_space (code c) then String.[] else String.◌∷◌ c rest

-- `strings.TrimSpace`
unfoldable pub trim_space : String → String
trim_space s = trim_left (trim_right s)

-- The UTF-8 encoding of a code point.
unfoldable pub encode_rune : ℕ → List ℕ
encode_rune c =
    if ltb c 128
    then c ∷ []
    else if ltb c 2048
    then (192 + c / 64) ∷ (128 + c % 64) ∷ []
    else if ltb c 65536
    then (224 + c / 4096) ∷ (128 + c / 64 % 64) ∷ (128 + c % 64) ∷ []
    else (240 + c / 262144) ∷ (128 + c / 4096 % 64) ∷ (128 + c / 64 % 64) ∷ (128 + c % 64) ∷ []

-- []byte(s)
unfoldable pub bytes : String → List ℕ
bytes String.[] = []
bytes (String.◌∷◌ c s) = encode_rune (code c) ++ bytes s

abbrev pub char_at : ℕ → String → String
char_at i String.[] = String.[]
char_at zero (String.◌∷◌ c s) = String.◌∷◌ c String.[]
char_at (suc i) (String.◌∷◌ c s) = char_at i s

-- One hexadecimal digit, for a number below 16, in front of a text.
unfoldable pub put_digit : ℕ → String → String
put_digit d s = elim (char_at d "0123456789abcdef") [
  | String.[] ↦ s
  | String.◌∷◌ c rest ↦ String.◌∷◌ c s
]

-- `hex.EncodeToString`, in front of a text.
unfoldable pub hex_encode : List ℕ → String → String
hex_encode [] s = s
hex_encode (b ∷ bs) s = put_digit (b / 16) (put_digit (b % 16) (hex_encode bs s))

unfoldable pub digit_value : ℕ → Option ℕ
digit_value c =
    if leb 48 c && leb c 57
    then some (c - 48)
    else if leb 97 c && leb c 102
    then some (c - 87)
    else if leb 65 c && leb c 70
    then some (c - 55)
    else none

-- `hex.DecodeString`; `none` for an error.
unfoldable pub hex_decode : String → Option (List ℕ)
hex_decode String.[] = some []
hex_decode (String.◌∷◌ c String.[]) = none
hex_decode (String.◌∷◌ c (String.◌∷◌ d s)) = elim (digit_value (code c)) [
  | none ↦ none
  | some h ↦ elim (digit_value (code d)) [
    | none ↦ none
    | some l ↦ elim (hex_decode s) [ none ↦ none | some bs ↦ some ((h * 16 + l) ∷ bs) ]
  ]
]

-- s + t
unfoldable pub append_text : String → String → String
append_text String.[] t = t
append_text (String.◌∷◌ c s) t = String.◌∷◌ c (append_text s t)
