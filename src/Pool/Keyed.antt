-- ===== src/Pool/Keyed.antt =====
-- The map of proxies of internal/pool/pool.go: each object under its own ID, with a positive weight.
use proxy_gateway.Prelude.{
  ◌≡◌, refl, ◌∙◌, inl, inr, String, Bool, true, List, [], ◌∷◌, none, some, arith, str_eq,
  str_eq_iff, In, is_pos, Bool-cases,
}
use proxy_gateway.Prelude.Dict.{
  lookup, insert, delete, keep_entries, values, lookup-insert, lookup-delete,
}
use proxy_gateway.Model.{Proxy}

abbrev pub Keyed : List (String × Proxy) → Type 0
Keyed [] = Unit
Keyed ((k, pr) ∷ m) = (pr.id ≡ k) × (is_pos pr.weight ≡ true) × (lookup k m ≡ none) × Keyed m

pub insert-Keyed :
    (k : String) (pr : Proxy) (m : List (String × Proxy))
    → pr.id ≡ k
    → is_pos pr.weight ≡ true
    → Keyed m
    → Keyed (insert k pr m)
unfolding lookup insert
insert-Keyed k pr [] e w d = (e, w, refl, tt)
insert-Keyed k pr ((j, q) ∷ m) e w (i, v, absent, d) = elim (Bool-cases (str_eq j k)) [
  | inl same ↦ let jk : j ≡ k = (str_eq_iff j k).0 same in rw same (e, w, (rw jk at absent), d)
  | inr other ↦ rw other (
    i,
    v,
    lookup-insert k j pr m ∙ ground (arith, str_eq_iff k j, str_eq_iff j k),
    insert-Keyed k pr m e w d,
  )
]

keep_absent :
    (p : String → Proxy → Bool) (k : String) (m : List (String × Proxy))
    → lookup k m ≡ none
    → lookup k (keep_entries p m) ≡ none
unfolding lookup keep_entries
keep_absent p k [] h = refl
keep_absent p k ((j, q) ∷ m) h = ground (arith, keep_absent p k m)

pub keep_entries-Keyed :
    (p : String → Proxy → Bool) (m : List (String × Proxy)) → Keyed m → Keyed (keep_entries p m)
unfolding keep_entries
keep_entries-Keyed p [] d = tt
keep_entries-Keyed p ((j, q) ∷ m) (i, v, absent, d) = elim (Bool-cases (p j q)) [
  | inl stays ↦ rw stays (i, v, keep_absent p j m absent, keep_entries-Keyed p m d)
  | inr goes ↦ rw goes (keep_entries-Keyed p m d)
]

pub delete-Keyed : (k : String) (m : List (String × Proxy)) → Keyed m → Keyed (delete k m)
unfolding delete
delete-Keyed k [] d = tt
delete-Keyed k ((j, q) ∷ m) (i, v, absent, d) = elim (Bool-cases (str_eq j k)) [
  | inl goes ↦ rw goes (delete-Keyed k m d)
  | inr stays ↦ rw stays (i, v, lookup-delete k j m ∙ ground arith, delete-Keyed k m d)
]

pub lookup-values :
    (k : String) (m : List (String × Proxy)) {pr : Proxy} → lookup k m ≡ some pr → In pr (values m)
unfolding lookup
lookup-values k [] h = absurd (cc)
lookup-values k ((j, q) ∷ m) {pr} h = elim (Bool-cases (str_eq j k)) [
  | inl same ↦ inl (ground arith)
  | inr other ↦ inr (lookup-values k m (rw other at h))
]

-- The object found under an ID has this ID, and a positive weight.
pub lookup-Keyed :
    (k : String) (m : List (String × Proxy)) {pr : Proxy}
    → Keyed m
    → lookup k m ≡ some pr
    → (pr.id ≡ k) × (is_pos pr.weight ≡ true)
unfolding lookup
lookup-Keyed k [] d h = absurd (cc)
lookup-Keyed k ((j, q) ∷ m) (i, v, absent, d) h = elim (Bool-cases (str_eq j k)) [
  | inl same ↦ ground (arith, str_eq_iff j k)
  | inr other ↦ lookup-Keyed k m d (rw other at h)
]

-- Each object of the map is found under its ID.
pub In-values :
    (m : List (String × Proxy)) (pr : Proxy) → Keyed m → In pr (values m) → lookup pr.id m ≡ some pr
unfolding lookup
In-values [] pr d h = absurd h
In-values ((j, q) ∷ m) pr (i, v, absent, d) (inl e) = ground (arith, str_eq_iff j pr.id)
In-values ((j, q) ∷ m) pr (i, v, absent, d) (inr h) =
    ground (arith, In-values m pr d h, str_eq_iff j pr.id)
