-- ===== src/Auth/Keeps.antt =====
-- Each method of internal/auth/auth.go keeps the maps of the manager in agreement with its accounts.
use proxy_gateway.Prelude.{
  ℕ, ◌≡◌, ◌≢◌, sym, ap, ◌∙◌, subst, inl, inr, ◌⊎◌, String, Bool, none, some, str_eq, str_eq_iff,
  str_eq_refl, str_eq_ne, get_elem?, arith, Bool-cases, Option-cases, ◌==◌,
}
use proxy_gateway.Prelude.Dict.{lookup, insert, delete, lookup-insert, lookup-delete}
use proxy_gateway.Auth.State.{Account, Manager, set_at, named, drop_token}
use proxy_gateway.Auth.Change.{remove_account}
use proxy_gateway.Auth.Sound.{
  IsSound, get_elem?-set_at_same, get_elem?-set_at_other, lookup-drop_token, lookup-drop_token_self,
  others_kept, delete_file-SameMaps, SameMaps-IsSound,
}

ℕ-cases : (i r : ℕ) → (i ≡ r) ⊎ (i ≢ r)
ℕ-cases i r = elim (Bool-cases (i == r)) [
  | inl e ↦ inl (ground arith)
  | inr e ↦ inr (λ h. ground arith)
]

-- The account of a name leaves both maps.
dropped-IsSound :
    (m : Manager) (name : String)
    → IsSound m
    → IsSound (record m {
      by_token = drop_token (named m name) m.by_token;
      by_name = delete name m.by_name;
    })
dropped-IsSound m name s = record {
  names = λ n r h. elim (Bool-cases (str_eq name n)) [
    | inl same ↦ absurd (cc (rw (lookup-delete name n m.by_name, same) at h))
    | inr other ↦ s.names n r (rw (lookup-delete name n m.by_name, other) at h)
  ];
  tokens = λ t r h.
      let (a, at, e, ne, back, differs) = others_kept m name t r s h in
      (
        a,
        at,
        e,
        ne,
        rw (lookup-delete name a.name m.by_name, str_eq_ne name a.name (λ z. differs (sym z))) back,
      );
}

pub remove_account-IsSound :
    (ok : Bool) (m : Manager) (name : String) → IsSound m → IsSound (remove_account ok m name).0
unfolding remove_account
remove_account-IsSound ok m name s = elim (Option-cases (named m name)) [
  | inl e ↦ rw (e, remove_account) s
  | inr (a, e) ↦
      let q = record m {
        by_token = drop_token (some a) m.by_token;
        by_name = delete name m.by_name;
      } in
      rw (e, remove_account)
        (SameMaps-IsSound q _ (delete_file-SameMaps ok name q) (
          subst
            (λ o.
              IsSound
                (record m { by_token = drop_token o m.by_token; by_name = delete name m.by_name }))
            e (dropped-IsSound m name s)))
]

-- An account changes, but not its name and its token.
pub touched-IsSound :
    (m : Manager) (r : ℕ) (a b : Account)
    → get_elem? m.heap r ≡ some a
    → b.name ≡ a.name
    → b.token ≡ a.token
    → IsSound m
    → IsSound (record m { heap = set_at r b m.heap })
touched-IsSound m r a b at n t s = record {
  names = λ k i h.
      let (x, here, e) = s.names k i h in
      elim (ℕ-cases i r) [
        | inl same ↦
            let xa : x ≡ a = cc in
            (
              b,
              subst (λ j. get_elem? (set_at r b m.heap) j ≡ some b) (sym same)
                  (get_elem?-set_at_same m.heap r b at),
              n ∙ ap (λ (z : Account). z.name) (sym xa) ∙ e,
            )
        | inr other ↦ (x, get_elem?-set_at_other m.heap r i b other ∙ here, e)
      ];
  tokens = λ k i h.
      let (x, here, e, ne, back) = s.tokens k i h in
      elim (ℕ-cases i r) [
        | inl same ↦
            let xa : x ≡ a = cc in
            (
              b,
              subst (λ j. get_elem? (set_at r b m.heap) j ≡ some b) (sym same)
                  (get_elem?-set_at_same m.heap r b at),
              t ∙ ap (λ (z : Account). z.token) (sym xa) ∙ e,
              ne,
              ap (λ l. lookup l m.by_name) (n ∙ ap (λ (z : Account). z.name) (sym xa)) ∙ back,
            )
        | inr other ↦ (x, get_elem?-set_at_other m.heap r i b other ∙ here, e, ne, back)
      ];
}

module _ (m : Manager) (r : ℕ) (a : Account) (at : get_elem? m.heap r ≡ some a) where
  -- The account takes a new token, and the old one leads nowhere.
  pub retokened-IsSound :
      (b : Account)
      → b.name ≡ a.name
      → b.token ≢ ""
      → lookup a.name m.by_name ≡ some r
      → IsSound m
      → IsSound (record m {
        heap = set_at r b m.heap;
        by_token = insert b.token r (drop_token (some a) m.by_token);
      })
  retokened-IsSound b n ne here s = record {
    names = λ k i h.
        let (x, at_i, e) = s.names k i h in
        elim (ℕ-cases i r) [
          | inl same ↦
              let xa : x ≡ a = cc in
              (
                b,
                subst (λ j. get_elem? (set_at r b m.heap) j ≡ some b) (sym same)
                    (get_elem?-set_at_same m.heap r b at),
                n ∙ ap (λ (z : Account). z.name) (sym xa) ∙ e,
              )
          | inr other ↦ (x, get_elem?-set_at_other m.heap r i b other ∙ at_i, e)
        ];
    tokens = λ k i h.
        let to = lookup-insert b.token k r (drop_token (some a) m.by_token) in
        elim (Bool-cases (str_eq b.token k)) [
          | inl new ↦
              let e : r ≡ i = ground arith in
              let eq : b.token ≡ k = (str_eq_iff b.token k).0 new in
              (
                b,
                subst (λ j. get_elem? (set_at r b m.heap) j ≡ some b) e
                    (get_elem?-set_at_same m.heap r b at),
                eq,
                (λ z. ne (eq ∙ z)),
                ap (λ l. lookup l m.by_name) n ∙ here ∙ ap some e,
              )
          | inr old ↦
              let kept : lookup k (drop_token (some a) m.by_token) ≡ some i = ground arith in
              let (x, at_i, e, ne', back) =
                s.tokens k i (lookup-drop_token (some a) m.by_token k i kept) in
              elim (ℕ-cases i r) [
                | inl same ↦
                    let xa : a.token ≡ k = cc in
                    absurd (
                      lookup-drop_token_self a m.by_token i (λ z. ne' (sym xa ∙ z))
                        (subst (λ l. lookup l (drop_token (some a) m.by_token) ≡ some i) (sym xa)
                          kept))
                | inr other ↦ (x, get_elem?-set_at_other m.heap r i b other ∙ at_i, e, ne', back)
              ]
        ];
  }

  -- The account takes a name that is free, and the old one leads nowhere.
  pub renamed-IsSound :
      (b : Account)
      → b.token ≡ a.token
      → lookup a.name m.by_name ≡ some r
      → lookup b.name m.by_name ≡ none
      → IsSound m
      → IsSound (record m {
        heap = set_at r b m.heap;
        by_name = insert b.name r (delete a.name m.by_name);
      })
  renamed-IsSound b t here free s = record {
    names = λ k i h.
        let to = lookup-insert b.name k r (delete a.name m.by_name) in
        elim (Bool-cases (str_eq b.name k)) [
          | inl new ↦
              let e : r ≡ i = ground arith in
              (
                b,
                subst (λ j. get_elem? (set_at r b m.heap) j ≡ some b) e
                    (get_elem?-set_at_same m.heap r b at),
                (str_eq_iff b.name k).0 new,
              )
          | inr old ↦
              let kept : lookup k (delete a.name m.by_name) ≡ some i = ground arith in
              let by = lookup-delete a.name k m.by_name in
              elim (Bool-cases (str_eq a.name k)) [
                | inl gone ↦ absurd (ground arith)
                | inr stays ↦
                    let (x, at_i, e) = s.names k i (ground arith) in
                    (
                      x,
                      get_elem?-set_at_other m.heap r i b (λ same.
                            let xa : x ≡ a = cc in
                            cc (
                              (str_eq_iff a.name k).1 (ap (λ (z : Account). z.name) (sym xa) ∙ e),
                              stays,
                            ))
                          ∙ at_i,
                      e,
                    )
              ]
        ];
    tokens = λ k i h.
        let (x, at_i, e, ne, back) = s.tokens k i h in
        elim (ℕ-cases i r) [
          | inl same ↦
              let xa : x ≡ a = cc in
              (
                b,
                subst (λ j. get_elem? (set_at r b m.heap) j ≡ some b) (sym same)
                    (get_elem?-set_at_same m.heap r b at),
                t ∙ ap (λ (z : Account). z.token) (sym xa) ∙ e,
                ne,
                rw (lookup-insert b.name b.name r (delete a.name m.by_name), str_eq_refl b.name)
                    (ap some (sym same)),
              )
          | inr other ↦
              let not_b : b.name ≢ x.name = λ z. cc (free, back, z) in
              let not_a : a.name ≢ x.name = λ z. other (ground arith) in
              (
                x,
                get_elem?-set_at_other m.heap r i b other ∙ at_i,
                e,
                ne,
                rw
                    (
                      lookup-insert b.name x.name r (delete a.name m.by_name),
                      str_eq_ne b.name x.name not_b,
                      lookup-delete a.name x.name m.by_name,
                      str_eq_ne a.name x.name not_a,
                    )
                    back,
              )
        ];
  }
