-- ===== src/Auth/Methods.antt =====
-- `AddAccount`, `Login` and `UpdateAccount` of internal/auth/auth.go keep the maps sound.
use proxy_gateway.Prelude.{
  ℕ, ◌≡◌, ◌≢◌, refl, sym, ap, ◌∙◌, subst, inl, inr, String, Bool, true, List, not, ◌||◌, Option,
  none, some, str_eq, str_eq_iff, if◌then◌else◌, get_elem?, arith, Bool-cases, Option-cases,
  if_cases,
}
use proxy_gateway.Prelude.Dict.{lookup, insert, delete}
use proxy_gateway.Config.{AccountCfg}
use proxy_gateway.Text.{trim_space, trim_right, trim_left, hex_encode}
use proxy_gateway.Auth.Password.{Digest, is_hashed, hash_password, verify_password}
use proxy_gateway.Auth.State.{
  Account, Manager, Fault, name_exists, file_failed, set_at, account_at, drop_token, save_file,
  delete_file, outcome, is_role,
}
use proxy_gateway.Auth.Change.{
  put_account, add_account, login, prepared, edited, apply_edit, update_account,
}
use proxy_gateway.Auth.Sound.{
  IsSound, get_elem?-set_at_same, put_account-IsSound, save_file-SameMaps, delete_file-SameMaps,
  SameMaps-IsSound,
}
use proxy_gateway.Auth.Keeps.{touched-IsSound, retokened-IsSound, renamed-IsSound}

saved-IsSound : (ok : Bool) (a : Account) (m : Manager) → IsSound m → IsSound (save_file ok a m).0
saved-IsSound ok a m = SameMaps-IsSound m _ (save_file-SameMaps ok a m)

deleted-IsSound :
    (ok : Bool) (name : String) (m : Manager) → IsSound m → IsSound (delete_file ok name m).0
deleted-IsSound ok name m = SameMaps-IsSound m _ (delete_file-SameMaps ok name m)

empty_blank : str_eq (trim_space "") "" ≡ true
unfolding trim_space trim_left trim_right
empty_blank = refl

module _ ⦃dg : Digest⦄ where
  -- A token that is given or generated is not empty.
  prepared-token :
      (salt random : List ℕ) (role : String) (c : AccountCfg)
      → hex_encode random "" ≢ ""
      → (prepared salt random role c).token ≢ ""
  unfolding prepared
  prepared-token salt random role c ne =
      if_cases (λ t. t ≢ "") (str_eq (trim_space c.token) "") (λ _. ne)
        (λ blank e. cc (ap (λ t. str_eq (trim_space t) "") e, blank, empty_blank))

  pub add_account-IsSound :
      (salt random : List ℕ) (ok : Bool) (m : Manager) (c : AccountCfg)
      → hex_encode random "" ≢ ""
      → IsSound m
      → IsSound (add_account salt random ok m c).0
  unfolding add_account
  add_account-IsSound salt random ok m c ne s =
      let role = if str_eq c.role "" then "user" else c.role in
      let a = prepared salt random role c in
      if_cases (λ (out : Manager × Option Fault). IsSound out.0) (str_eq (trim_space c.name) "")
        (λ _. s)
        (λ _.
          if_cases (λ (out : Manager × Option Fault). IsSound out.0) (is_role role)
            (λ _.
              saved-IsSound ok a (put_account m a)
                (put_account-IsSound m a (prepared-token salt random role c ne) s))
            (λ _. s))

  pub login-IsSound :
      (salt : List ℕ) (ok : Bool) (m : Manager) (name password : String)
      → IsSound m
      → IsSound (login salt ok m name password).0
  unfolding login account_at
  login-IsSound salt ok m name password s = elim (Option-cases (lookup name m.by_name)) [
    | inl e ↦ rw (e, login) s
    | inr (r, e) ↦
        let (a, at, n) = s.names name r e in
        let b : Account = record a { password = hash_password salt password } in
        rw (e, at, login, account_at)
          (if_cases (λ (out : Manager × Option Account). IsSound out.0)
            (not a.enabled || not (verify_password a.password password)) (λ _. s)
            (λ _.
              if_cases (λ (out : Manager × Option Account). IsSound out.0) (is_hashed a.password)
                (λ _. s)
                (λ _.
                  saved-IsSound ok b (record m { heap = set_at r b m.heap })
                    (touched-IsSound m r a b at refl refl s))))
  ]

  apply_edit-IsSound :
      (salt : List ℕ) (m : Manager) (r : ℕ) (a : Account) (c : AccountCfg)
      → get_elem? m.heap r ≡ some a
      → lookup a.name m.by_name ≡ some r
      → IsSound m
      → IsSound (apply_edit salt m r a c)
  unfolding apply_edit
  apply_edit-IsSound salt m r a c at here s = elim (Bool-cases (str_eq c.token "")) [
    | inl e ↦ rw e (
        touched-IsSound m r a (edited salt c a) at (unfold edited in refl)
          (unfold edited in ground arith) s)
    | inr e ↦
        let own : (edited salt c a).token ≡ c.token = unfold edited in ground arith in
        let ne : c.token ≢ "" = λ z. cc ((str_eq_iff c.token "").1 z, e) in
        rw e (
          subst
            (λ t. IsSound (record m {
              heap = set_at r (edited salt c a) m.heap;
              by_token = insert t r (drop_token (some a) m.by_token);
            }))
            own
            (retokened-IsSound m r a at (edited salt c a) (unfold edited in refl)
              (λ z. ne (sym own ∙ z)) here s))
  ]

  abbrev Kept : Manager × Option Fault → Type 0
  Kept out = IsSound out.0

  -- The part of `UpdateAccount` that renames.
  rename-IsSound :
      (salt : List ℕ) (ok ok_2 : Bool) (m : Manager) (name : String) (r : ℕ) (a : Account)
      (c : AccountCfg)
      → get_elem? m.heap r ≡ some a
      → a.name ≡ name
      → lookup a.name m.by_name ≡ some r
      → IsSound m
      → Kept (
          let q = apply_edit salt m r a c in
          let b = record (edited salt c a) { name = trim_space c.name } in
          elim (lookup (trim_space c.name) q.by_name) [
            | some taken ↦ (q, some name_exists)
            | none ↦
                let renamed = record q {
                  heap = set_at r b q.heap;
                  by_name = insert (trim_space c.name) r (delete name q.by_name);
                } in
                let (s, done) = save_file ok b renamed in
                let (d, gone) = delete_file ok_2 name s in
                if done then (d, outcome gone) else (s, some file_failed)
          ])
  rename-IsSound salt ok ok_2 m name r a c at n here s =
      let q = apply_edit salt m r a c in
      let sq : IsSound q = apply_edit-IsSound salt m r a c at here s in
      elim (Option-cases (lookup (trim_space c.name) q.by_name)) [
        | inr (taken, e) ↦ rw e sq
        | inl e ↦
            let b : Account = record (edited salt c a) { name = trim_space c.name } in
            let at_q : get_elem? q.heap r ≡ some (edited salt c a) =
              unfold apply_edit in get_elem?-set_at_same m.heap r (edited salt c a) at in
            let here_q : lookup (edited salt c a).name q.by_name ≡ some r =
              unfold apply_edit edited in here in
            let names_e : (edited salt c a).name ≡ name = unfold edited in n in
            let renamed = record q {
              heap = set_at r b q.heap;
              by_name = insert (trim_space c.name) r (delete name q.by_name);
            } in
            let sr : IsSound renamed =
              subst
                (λ k. IsSound (record q {
                  heap = set_at r b q.heap;
                  by_name = insert (trim_space c.name) r (delete k q.by_name);
                }))
                names_e (renamed-IsSound q r (edited salt c a) at_q b refl here_q e sq) in
            let ss = saved-IsSound ok b renamed sr in
            rw e (
              if_cases Kept (save_file ok b renamed).1
                (λ _. deleted-IsSound ok_2 name (save_file ok b renamed).0 ss) (λ _. ss))
      ]

  pub update_account-IsSound :
      (salt : List ℕ) (ok ok_2 : Bool) (m : Manager) (name : String) (c : AccountCfg)
      → IsSound m
      → IsSound (update_account salt ok ok_2 m name c).0
  unfolding update_account account_at
  update_account-IsSound salt ok ok_2 m name c s = elim (Option-cases (lookup name m.by_name)) [
    | inl e ↦ rw (e, update_account) s
    | inr (r, e) ↦
        let (a, at, n) = s.names name r e in
        let here : lookup a.name m.by_name ≡ some r = ap (λ k. lookup k m.by_name) n ∙ e in
        let q = apply_edit salt m r a c in
        let sq : IsSound q = apply_edit-IsSound salt m r a c at here s in
        rw (e, at, update_account, account_at)
          (if_cases Kept (not (str_eq c.role "" || is_role c.role)) (λ _. s)
            (λ _.
              if_cases Kept (str_eq (trim_space c.name) "" || str_eq (trim_space c.name) name)
                (λ _. saved-IsSound ok (edited salt c a) q sq)
                (λ _. rename-IsSound salt ok ok_2 m name r a c at n here s)))
  ]
