-- ===== src/Persist/Files.antt =====
-- What the files of internal/persist/file.go hold after a save or a delete.
use proxy_gateway.Prelude.{
  ◌≡◌, refl, String, Bool, true, false, List, [], ◌∷◌, Option, none, some, str_eq, str_eq_iff,
  if◌then◌else◌, arith, ◌⊎◌, inl, inr,
}
use proxy_gateway.Persist.{
  Content, missing, broken, holds, load, write, upsert, without, save, discard,
}

module _ {A : Type 0} (name_of : A → String) where
  -- The first entry of a name.
  unfoldable pub entry : String → List A → Option A
  entry name [] = none
  entry name (x ∷ xs) = if str_eq (name_of x) name then some x else entry name xs

  -- What a file has under a name; nothing if it cannot be read.
  unfoldable pub stored : String → Content A → Option A
  stored name c = elim (load c) [ none ↦ none | some xs ↦ entry name xs ]

  entry-upsert :
      (a : A) (name : String) (xs : List A)
      → entry name (upsert name_of a xs)
        ≡ (if str_eq (name_of a) name then some a else entry name xs)
  unfolding entry upsert
  entry-upsert a name [] = refl
  entry-upsert a name (x ∷ xs) = ground (
    arith,
    str_eq_iff (name_of a) name,
    str_eq_iff (name_of x) (name_of a),
    str_eq_iff (name_of x) name,
    entry-upsert a name xs,
  )

  entry-without :
      (gone name : String) (xs : List A)
      → entry name (without name_of gone xs) ≡ (if str_eq gone name then none else entry name xs)
  unfolding entry
  entry-without gone name [] = ground arith
  entry-without gone name (x ∷ xs) = ground (
    arith,
    str_eq_iff gone name,
    str_eq_iff (name_of x) gone,
    str_eq_iff (name_of x) name,
    entry-without gone name xs,
  )

  -- A save reports success and has stored the entry under its name and changed no other name, or it
  -- reports a failure, to read or to write, and leaves the file as it was.
  pub save-stored :
      (ok : Bool) (a : A) (name : String) (c : Content A)
      → (((save name_of ok a c).1 ≡ true)
          × (stored name (save name_of ok a c).0
              ≡ (if str_eq (name_of a) name then some a else stored name c)))
        ⊎ (((save name_of ok a c).1 ≡ false) × ((save name_of ok a c).0 ≡ c))
  unfolding save stored load write
  save-stored true a name missing = inl (refl, entry-upsert a name [])
  save-stored false a name missing = inr (refl, refl)
  save-stored ok a name broken = inr (refl, refl)
  save-stored true a name (holds xs) = inl (refl, entry-upsert a name xs)
  save-stored false a name (holds xs) = inr (refl, refl)

  -- A delete reports success and leaves no entry of the name, and the other names as they were, or it
  -- reports a failure and leaves the file as it was.
  pub discard-stored :
      (ok : Bool) (gone name : String) (c : Content A)
      → (((discard name_of ok gone c).1 ≡ true)
          × (stored name (discard name_of ok gone c).0
              ≡ (if str_eq gone name then none else stored name c)))
        ⊎ (((discard name_of ok gone c).1 ≡ false) × ((discard name_of ok gone c).0 ≡ c))
  unfolding discard stored load write
  discard-stored true gone name missing = inl (refl, entry-without gone name [])
  discard-stored false gone name missing = inr (refl, refl)
  discard-stored ok gone name broken = inr (refl, refl)
  discard-stored true gone name (holds xs) = inl (refl, entry-without gone name xs)
  discard-stored false gone name (holds xs) = inr (refl, refl)
