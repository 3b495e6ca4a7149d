-- ===== src/Auth/Password.antt =====
-- The passwords of internal/auth/auth.go. The hash function `sha256.Sum256` is an instance argument.
use proxy_gateway.Prelude.{
  ℕ, String, Bool, true, false, not, ◌&&◌, List, [], ◌∷◌, ◌++◌, Option, none, some, ◌==◌,
  if◌then◌else◌,
}
use proxy_gateway.Text.{cut, is_empty_text, bytes, hex_encode, hex_decode}

-- The bytes of a digest, as a function of the bytes that it is taken of.
pub record Digest : Type 0 where
  pub sum_256 : List ℕ → List ℕ

-- `subtle.ConstantTimeCompare(x, y) == 1`
unfoldable pub same_bytes : List ℕ → List ℕ → Bool
same_bytes [] [] = true
same_bytes [] (y ∷ ys) = false
same_bytes (x ∷ xs) [] = false
same_bytes (x ∷ xs) (y ∷ ys) = x == y && same_bytes xs ys

-- `isHashed`: a "$" stands behind at least one character.
unfoldable pub is_hashed : String → Bool
is_hashed stored = elim (cut stored) [ none ↦ false | some (b, a) ↦ not (is_empty_text b) ]

module _ ⦃dg : Digest⦄ where
  -- `hashPassword`, with the random salt.
  unfoldable pub hash_password : List ℕ → String → String
  hash_password salt password =
      hex_encode salt (String.◌∷◌ "$" (hex_encode (dg.sum_256 (salt ++ bytes password)) ""))

  -- The two decoded halves of a hashed password against a plain one.
  unfoldable pub verify_hashed : Option (List ℕ) → Option (List ℕ) → String → Bool
  verify_hashed none want password = false
  verify_hashed (some salt) none password = false
  verify_hashed (some salt) (some want) password =
      same_bytes (dg.sum_256 (salt ++ bytes password)) want

  unfoldable pub verify_password : String → String → Bool
  verify_password stored password =
      if is_empty_text stored
      then false
      else if is_hashed stored
      then elim (cut stored) [
        | none ↦ false
        | some (salt, want) ↦ verify_hashed (hex_decode salt) (hex_decode want) password
      ]
      else same_bytes (bytes stored) (bytes password)
