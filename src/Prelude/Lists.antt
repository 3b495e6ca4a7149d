-- ===== src/Prelude/Lists.antt =====
-- Lists measured and indexed by native numbers, and the loops over slices that the program writes.
use Prim.Native.Nat.{ℕ, zero, suc, ◌+◌, ◌≤◌}
use mathlib.Core.Path.{◌≡◌, refl, ap}
use mathlib.Core.Bool.{Bool, true, false}
use mathlib.Core.Logic.{◌⊎◌, inl, inr}
use mathlib.Core.List.{List, [], ◌∷◌, ◌++◌, map}
use mathlib.Core.Option.{Option, none, some}
use native.Mathlib.Omega.{arith}
use Prim.Native.String.{String}
use proxy_gateway.Prelude.Tests.{if◌then◌else◌, Bool-cases, str_eq}

module _ {ℓ} {A : Type ℓ} where
  abbrev pub length : List A → ℕ
  length [] = 0
  length (x ∷ xs) = suc (length xs)

  abbrev pub get_elem? : List A → ℕ → Option A
  get_elem? [] i = none
  get_elem? (x ∷ xs) zero = some x
  get_elem? (x ∷ xs) (suc i) = get_elem? xs i

  -- The elements that pass a test, in order.
  abbrev pub keep : (A → Bool) → List A → List A
  keep p [] = []
  keep p (x ∷ xs) = if p x then x ∷ keep p xs else keep p xs

  abbrev pub any : (A → Bool) → List A → Bool
  any p [] = false
  any p (x ∷ xs) = if p x then true else any p xs

  pub length-append : (xs ys : List A) → length (xs ++ ys) ≡ length xs + length ys
  length-append [] ys = omega arith
  length-append (x ∷ xs) ys = omega (arith, length-append xs ys)

  pub length-keep-le : (p : A → Bool) (xs : List A) → length (keep p xs) ≤ length xs
  length-keep-le p [] = omega arith
  length-keep-le p (x ∷ xs) = ground (arith, length-keep-le p xs)

-- `k` stands in a list of texts.
abbrev pub lists : String → List String → Bool
lists k ks = any (λ x. str_eq x k) ks

-- `x` stands in the list.
abbrev pub In : {A : Type 0} → A → List A → Type 0
In x [] = ⊥
In x (y ∷ ys) = (x ≡ y) ⊎ In x ys

pub length-map {ℓ κ} :
    {A : Type ℓ} {B : Type κ} (xs : List A) (f : A → B) → length (map f xs) ≡ length xs
length-map [] f = refl
length-map (x ∷ xs) f = ap suc (length-map xs f)

module _ {A : Type 0} (x : A) where
  pub In-append_left : (xs ys : List A) → In x xs → In x (xs ++ ys)
  In-append_left (y ∷ xs) ys (inl e) = inl e
  In-append_left (y ∷ xs) ys (inr h) = inr (In-append_left xs ys h)
  In-append_left [] ys h = absurd h

  pub In-append_right : (xs ys : List A) → In x ys → In x (xs ++ ys)
  In-append_right [] ys h = h
  In-append_right (y ∷ xs) ys h = inr (In-append_right xs ys h)

  pub In-append_cases : (xs ys : List A) → In x (xs ++ ys) → In x xs ⊎ In x ys
  In-append_cases [] ys h = inr h
  In-append_cases (y ∷ xs) ys (inl e) = inl (inl e)
  In-append_cases (y ∷ xs) ys (inr h) = elim (In-append_cases xs ys h) [
    | inl l ↦ inl (inr l)
    | inr r ↦ inr r
  ]

  pub In-keep : (p : A → Bool) (xs : List A) → p x ≡ true → In x xs → In x (keep p xs)
  In-keep p (y ∷ xs) t (inl e) = rw (← e, t) (inl refl)
  In-keep p (y ∷ xs) t (inr h) = elim (Bool-cases (p y)) [
    | inl k ↦ rw k (inr (In-keep p xs t h))
    | inr k ↦ rw k (In-keep p xs t h)
  ]
  In-keep p [] t h = absurd h

  pub In-keep_inv : (p : A → Bool) (xs : List A) → In x (keep p xs) → (p x ≡ true) × In x xs
  In-keep_inv p [] h = absurd h
  In-keep_inv p (y ∷ xs) h = elim (Bool-cases (p y)) [
    | inl k ↦ elim (let h' : (x ≡ y) ⊎ In x (keep p xs) = rw k at h in h') [
      | inl e ↦ (rw e k, inl e)
      | inr r ↦ let (t, i) = In-keep_inv p xs r in (t, inr i)
    ]
    | inr k ↦
        let h' : In x (keep p xs) = rw k at h in let (t, i) = In-keep_inv p xs h' in (t, inr i)
  ]

module _ {A B : Type 0} where
  pub In-map : (f : A → B) (x : A) (xs : List A) → In x xs → In (f x) (map f xs)
  In-map f x (y ∷ xs) (inl e) = inl (ap f e)
  In-map f x (y ∷ xs) (inr h) = inr (In-map f x xs h)
  In-map f x [] h = absurd h

  pub In-map_inv :
      (f : A → B) (b : B) (xs : List A) → In b (map f xs) → (x : A) × In x xs × (b ≡ f x)
  In-map_inv f b (y ∷ xs) (inl e) = (y, inl refl, e)
  In-map_inv f b (y ∷ xs) (inr h) = let (x, i, e) = In-map_inv f b xs h in (x, inr i, e)
  In-map_inv f b [] h = absurd h

-- P holds of each element.
abbrev pub All {ℓ κ} : {A : Type ℓ} → (A → Type κ) → List A → Type κ
All P [] = Unit
All P (x ∷ xs) = P x × All P xs

pub All-In : {A : Type 0} (P : A → Type 0) (xs : List A) (x : A) → All P xs → In x xs → P x
All-In P (y ∷ xs) x (p, ps) (inl e) = rw e p
All-In P (y ∷ xs) x (p, ps) (inr h) = All-In P xs x ps h
All-In P [] x ps h = absurd h

pub All-of_In : {A : Type 0} (P : A → Type 0) (xs : List A) → ((x : A) → In x xs → P x) → All P xs
All-of_In P [] f = tt
All-of_In P (x ∷ xs) f = (f x (inl refl), All-of_In P xs (λ y h. f y (inr h)))

-- To prove a property of a case distinction on a list, case by case.
pub list_cases {ℓ κ μ} :
    {A : Type ℓ} {B : Type κ} (P : B → Type μ) (xs : List A) {a : B} {f : A → List A → B}
    → (xs ≡ [] → P a)
    → ((y : A) (ys : List A) → xs ≡ y ∷ ys → P (f y ys))
    → P (elim xs [ [] ↦ a | y ∷ ys ↦ f y ys ])
list_cases P [] g h = g refl
list_cases P (y ∷ ys) g h = h y ys refl
