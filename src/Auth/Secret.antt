-- ===== src/Auth/Secret.antt =====
-- A hashed password of internal/auth/auth.go is accepted: `hashPassword`, then `verifyPassword`.
use Prim.Native.Char.{code, Char}
use proxy_gateway.Prelude.{
  ℕ, zero, suc, ◌+◌, ◌*◌, ◌/◌, ◌%◌, ◌<◌, ◌≡◌, refl, ap, ◌∙◌, String, true, false, List, [], ◌∷◌,
  ◌++◌, some, ◌==◌, arith, All,
}
use proxy_gateway.Text.{
  cut, is_empty_text, bytes, hex_encode, hex_decode, put_digit, digit_value, char_at,
}
use proxy_gateway.Auth.Password.{
  Digest, same_bytes, is_hashed, hash_password, verify_hashed, verify_password,
}

-- The characters of a text stand for the digits from `k` on, and none is a "$".
abbrev Digits : ℕ → String → Type 0
Digits k String.[] = Unit
Digits k (String.◌∷◌ c s) =
    (digit_value (code c) ≡ some k) × ((code c == 36) ≡ false) × Digits (suc k) s

abbrev size : String → ℕ
size String.[] = 0
size (String.◌∷◌ c s) = suc (size s)

abbrev IsDigit : ℕ → Char → Type 0
IsDigit d c = (digit_value (code c) ≡ some d) × ((code c == 36) ≡ false)

char_at-IsDigit :
    (s : String) (k i : ℕ)
    → Digits k s
    → i < size s
    → (c : Char) × (char_at i s ≡ String.◌∷◌ c String.[]) × IsDigit (k + i) c
char_at-IsDigit String.[] k i d h = elim h [ ]
char_at-IsDigit (String.◌∷◌ c s) k zero (v, n, d) h = (c, refl, (v ∙ ap some (omega arith), n))
char_at-IsDigit (String.◌∷◌ c s) k (suc i) (v, n, d) h =
    let (e, at, (w, m)) = char_at-IsDigit s (suc k) i d (omega arith) in
    (e, at, (w ∙ ap some (omega arith), m))

abbrev hex_digits : String
hex_digits = "0123456789abcdef"

hex_digits-Digits : Digits 0 hex_digits
unfolding digit_value
hex_digits-Digits = (
  refl,
  refl,
  (
    refl,
    refl,
    (
      refl,
      refl,
      (
        refl,
        refl,
        (
          refl,
          refl,
          (
            refl,
            refl,
            (
              refl,
              refl,
              (
                refl,
                refl,
                (
                  refl,
                  refl,
                  (
                    refl,
                    refl,
                    (
                      refl,
                      refl,
                      (refl, refl, (refl, refl, (refl, refl, (refl, refl, (refl, refl, tt))))),
                    ),
                  ),
                ),
              ),
            ),
          ),
        ),
      ),
    ),
  ),
)

put_digit_lem :
    (d : ℕ) → d < 16 → (c : Char) × ((s : String) → put_digit d s ≡ String.◌∷◌ c s) × IsDigit d c
unfolding put_digit
put_digit_lem d h =
    let (c, at, (v, n)) = char_at-IsDigit hex_digits 0 d hex_digits-Digits h in
    (c, (λ s. rw (at, put_digit) refl), (v ∙ ap some (omega arith), n))

abbrev IsByte : ℕ → Type 0
IsByte b = b < 256

-- Decoding the hexadecimal text of bytes gives the bytes.
pub hex_decode-hex_encode : (bs : List ℕ) → All IsByte bs → hex_decode (hex_encode bs "") ≡ some bs
unfolding hex_decode hex_encode
hex_decode-hex_encode [] h = refl
hex_decode-hex_encode (b ∷ bs) (h, hs) =
    let (c, e, (v, n)) = put_digit_lem (b / 16) (omega arith) in
    let (d, f, (w, m)) = put_digit_lem (b % 16) (omega arith) in
    let join : b / 16 * 16 + b % 16 ≡ b = omega arith in
    rw
      (
        e (put_digit (b % 16) (hex_encode bs "")),
        f (hex_encode bs ""),
        v,
        w,
        hex_decode,
        hex_decode-hex_encode bs hs,
      )
      (ap (λ x. some (x ∷ bs)) join)

cut-hex_encode :
    (bs : List ℕ) (rest : String)
    → All IsByte bs
    → cut (hex_encode bs (String.◌∷◌ "$" rest)) ≡ some (hex_encode bs "", rest)
unfolding cut hex_encode
cut-hex_encode [] rest h = refl
cut-hex_encode (b ∷ bs) rest (h, hs) =
    let (c, e, (v, n)) = put_digit_lem (b / 16) (omega arith) in
    let (d, f, (w, m)) = put_digit_lem (b % 16) (omega arith) in
    let tail = String.◌∷◌ "$" rest in
    rw
      (
        e (put_digit (b % 16) (hex_encode bs tail)),
        f (hex_encode bs tail),
        e (put_digit (b % 16) (hex_encode bs "")),
        f (hex_encode bs ""),
        n,
        m,
        cut-hex_encode bs rest hs,
      )
      refl

same_bytes_refl : (xs : List ℕ) → same_bytes xs xs ≡ true
unfolding same_bytes
same_bytes_refl [] = refl
same_bytes_refl (x ∷ xs) = rw (same_bytes_refl xs) (ground arith)

hex_encode-filled :
    (b : ℕ) (bs : List ℕ) (rest : String)
    → IsByte b
    → is_empty_text (hex_encode (b ∷ bs) rest) ≡ false
unfolding hex_encode
hex_encode-filled b bs rest h =
    let (c, e, (v, n)) = put_digit_lem (b / 16) (omega arith) in
    rw (e (put_digit (b % 16) (hex_encode bs rest))) refl

module _ ⦃dg : Digest⦄ where
  -- What `hashPassword` makes, with a salt of a byte at least, counts as hashed, and `verifyPassword`
  -- accepts the password for it.
  pub verify_password-hash_password :
      (b : ℕ) (bs : List ℕ) (password : String)
      → All IsByte (b ∷ bs)
      → All IsByte (dg.sum_256 ((b ∷ bs) ++ bytes password))
      → (is_hashed (hash_password (b ∷ bs) password) ≡ true)
        × (verify_password (hash_password (b ∷ bs) password) password ≡ true)
  unfolding is_hashed verify_password hash_password verify_hashed
  verify_password-hash_password b bs password h d =
      let digest = dg.sum_256 ((b ∷ bs) ++ bytes password) in
      let parts = cut-hex_encode (b ∷ bs) (hex_encode digest "") h in
      let filled = hex_encode-filled b bs "" h.0 in
      let whole = hex_encode-filled b bs (String.◌∷◌ "$" (hex_encode digest "")) h.0 in
      (
        rw (parts, filled, is_hashed, hash_password) refl,
        rw
            (
              whole,
              parts,
              filled,
              is_hashed,
              verify_password,
              hash_password,
              verify_hashed,
              hex_decode-hex_encode (b ∷ bs) h,
              hex_decode-hex_encode digest d,
            )
            (same_bytes_refl digest),
      )
