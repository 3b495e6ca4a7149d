-- ===== src/Auth/Sound.antt =====
-- The maps of the account manager of internal/auth/auth.go agree with its accounts.
use proxy_gateway.Prelude.{
  ℕ, zero, suc, ◌≡◌, ◌≢◌, refl, sym, ap, ◌∙◌, subst, inl, inr, String, Bool, List, [], ◌∷◌, ◌++◌,
  Option, none, some, str_eq, str_eq_iff, str_eq_refl, str_eq_ne, length, get_elem?, arith,
  Bool-cases, Option-cases,
}
use proxy_gateway.Prelude.Dict.{lookup, lookup-insert, lookup-delete}
use proxy_gateway.Auth.State.{
  Account, Manager, set_at, account_at, named, drop_token, save_file, delete_file,
}
use proxy_gateway.Auth.Change.{put_account}

-- A name leads to an account of this name. A token is not empty, and leads to an account that has it
-- and to which its own name leads too.
pub record IsSound (m : Manager) : Type 0 where
  pub names :
      (n : String) (r : ℕ)
      → lookup n m.by_name ≡ some r
      → (a : Account) × (get_elem? m.heap r ≡ some a) × (a.name ≡ n)
  pub tokens :
      (t : String) (r : ℕ)
      → lookup t m.by_token ≡ some r
      → (a : Account) × (get_elem? m.heap r ≡ some a)
        × (a.token ≡ t)
        × (t ≢ "")
        × (lookup a.name m.by_name ≡ some r)

pub get_elem?-append :
    (xs ys : List Account) (r : ℕ) {a : Account}
    → get_elem? xs r ≡ some a
    → get_elem? (xs ++ ys) r ≡ some a
get_elem?-append [] ys r h = absurd (cc)
get_elem?-append (x ∷ xs) ys zero h = h
get_elem?-append (x ∷ xs) ys (suc r) h = get_elem?-append xs ys r h

pub get_elem?-last :
    (xs : List Account) (a : Account) → get_elem? (xs ++ a ∷ []) (length xs) ≡ some a
get_elem?-last [] a = refl
get_elem?-last (x ∷ xs) a = get_elem?-last xs a

pub get_elem?-set_at_same :
    (xs : List Account) (r : ℕ) (b : Account) {a : Account}
    → get_elem? xs r ≡ some a
    → get_elem? (set_at r b xs) r ≡ some b
unfolding set_at
get_elem?-set_at_same [] r b h = absurd (cc)
get_elem?-set_at_same (x ∷ xs) zero b h = refl
get_elem?-set_at_same (x ∷ xs) (suc r) b h = get_elem?-set_at_same xs r b h

pub get_elem?-set_at_other :
    (xs : List Account) (r s : ℕ) (b : Account)
    → s ≢ r
    → get_elem? (set_at r b xs) s ≡ get_elem? xs s
unfolding set_at
get_elem?-set_at_other [] r s b h = refl
get_elem?-set_at_other (x ∷ xs) zero zero b h = absurd (h refl)
get_elem?-set_at_other (x ∷ xs) zero (suc s) b h = refl
get_elem?-set_at_other (x ∷ xs) (suc r) zero b h = refl
get_elem?-set_at_other (x ∷ xs) (suc r) (suc s) b h =
    get_elem?-set_at_other xs r s b (λ e. h (ap suc e))

-- What a lookup finds in a map with a token dropped stands in the map, and is not of that token.
pub lookup-drop_token :
    (o : Option Account) (m : List (String × ℕ)) (t : String) (r : ℕ)
    → lookup t (drop_token o m) ≡ some r
    → lookup t m ≡ some r
unfolding drop_token
lookup-drop_token none m t r h = h
lookup-drop_token (some a) m t r h = ground (arith, lookup-delete a.token t m)

pub lookup-drop_token_self :
    (a : Account) (m : List (String × ℕ)) (r : ℕ)
    → a.token ≢ ""
    → lookup a.token (drop_token (some a) m) ≢ some r
unfolding drop_token
lookup-drop_token_self a m r ne h =
    cc (rw (str_eq_ne a.token "" ne, lookup-delete a.token a.token m, str_eq_refl a.token) at h)

named_at :
    (m : Manager) (name : String) (r : ℕ) (a : Account)
    → lookup name m.by_name ≡ some r
    → get_elem? m.heap r ≡ some a
    → named m name ≡ some a
unfolding account_at
named_at m name r a l e = rw (l, e, account_at)

-- With the token of the account of a name dropped, no token leads to that account.
pub others_kept :
    (m : Manager) (name t : String) (r : ℕ)
    → IsSound m
    → lookup t (drop_token (named m name) m.by_token) ≡ some r
    → (a : Account) × (get_elem? m.heap r ≡ some a)
      × (a.token ≡ t)
      × (t ≢ "")
      × (lookup a.name m.by_name ≡ some r)
      × (a.name ≢ name)
others_kept m name t r s h =
    let (a, at, e, ne, back) = s.tokens t r (lookup-drop_token (named m name) m.by_token t r h) in
    (
      a,
      at,
      e,
      ne,
      back,
      λ same.
          let found = named_at m name r a (subst (λ n. lookup n m.by_name ≡ some r) same back) at in
          lookup-drop_token_self a m.by_token r (λ z. ne (sym e ∙ z))
            (subst (λ k. lookup k (drop_token (some a) m.by_token) ≡ some r) (sym e)
              (rw found at h)),
    )

pub put_account-IsSound :
    (m : Manager) (a : Account) → a.token ≢ "" → IsSound m → IsSound (put_account m a)
unfolding put_account
put_account-IsSound m a ne s = record {
  names = λ n r h. elim (Bool-cases (str_eq a.name n)) [
    | inl same ↦
        let e : length m.heap ≡ r =
          ground (arith, lookup-insert a.name n (length m.heap) m.by_name) in
        (
          a,
          subst (λ k. get_elem? (m.heap ++ a ∷ []) k ≡ some a) e (get_elem?-last m.heap a),
          (str_eq_iff a.name n).0 same,
        )
    | inr other ↦
        let old : lookup n m.by_name ≡ some r =
          ground (arith, lookup-insert a.name n (length m.heap) m.by_name) in
        let (b, at, e) = s.names n r old in (b, get_elem?-append m.heap (a ∷ []) r at, e)
  ];
  tokens = λ t r h. elim (Bool-cases (str_eq a.token t)) [
    | inl same ↦
        let to = lookup-insert a.token t (length m.heap) (drop_token (named m a.name) m.by_token) in
        let e : length m.heap ≡ r = ground arith in
        let eq : a.token ≡ t = (str_eq_iff a.token t).0 same in
        (
          a,
          subst (λ k. get_elem? (m.heap ++ a ∷ []) k ≡ some a) e (get_elem?-last m.heap a),
          eq,
          (λ z. ne (eq ∙ z)),
          rw (lookup-insert a.name a.name (length m.heap) m.by_name, str_eq_refl a.name)
              (ap some e),
        )
    | inr other ↦
        let to = lookup-insert a.token t (length m.heap) (drop_token (named m a.name) m.by_token) in
        let old : lookup t (drop_token (named m a.name) m.by_token) ≡ some r = ground arith in
        let (b, at, e, ne', back, differs) = others_kept m a.name t r s old in
        (
          b,
          get_elem?-append m.heap (a ∷ []) r at,
          e,
          ne',
          rw
              (
                lookup-insert a.name b.name (length m.heap) m.by_name,
                str_eq_ne a.name b.name (λ z. differs (sym z)),
              )
              back,
        )
  ];
}

-- The maps and the accounts are the same; the file may differ.
abbrev pub SameMaps : Manager → Manager → Type 0
SameMaps m q = (q.heap ≡ m.heap) × (q.by_name ≡ m.by_name) × (q.by_token ≡ m.by_token)

pub save_file-SameMaps : (ok : Bool) (a : Account) (m : Manager) → SameMaps m (save_file ok a m).0
unfolding save_file
save_file-SameMaps ok a m = elim (Option-cases m.persist) [
  | inl e ↦ rw (e, save_file) (refl, refl, refl)
  | inr (c, e) ↦ rw (e, save_file) (refl, refl, refl)
]

pub delete_file-SameMaps :
    (ok : Bool) (name : String) (m : Manager) → SameMaps m (delete_file ok name m).0
unfolding delete_file
delete_file-SameMaps ok name m = elim (Option-cases m.persist) [
  | inl e ↦ rw (e, delete_file) (refl, refl, refl)
  | inr (c, e) ↦ rw (e, delete_file) (refl, refl, refl)
]

pub SameMaps-IsSound : (m q : Manager) → SameMaps m q → IsSound m → IsSound q
SameMaps-IsSound m q (h, n, t) s = record {
  names = λ k r l.
      let (a, at, e) = s.names k r (ap (lookup k) (sym n) ∙ l) in
      (a, ap (λ xs. get_elem? xs r) h ∙ at, e);
  tokens = λ k r l.
      let (a, at, e, ne, back) = s.tokens k r (ap (lookup k) (sym t) ∙ l) in
      (a, ap (λ xs. get_elem? xs r) h ∙ at, e, ne, ap (lookup a.name) n ∙ back);
}
