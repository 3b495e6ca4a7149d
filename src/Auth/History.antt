-- ===== src/Auth/History.antt =====
-- Histories of the account manager of internal/auth/auth.go, and what its tokens lead to.
use proxy_gateway.Prelude.{
  ℕ, ◌≡◌, ◌≢◌, refl, ap, ◌∙◌, subst, inl, inr, String, Bool, true, List, [], ◌∷◌, ◌++◌, Option,
  none, some, str_eq, str_eq_iff, str_eq_refl, str_eq_ne, if◌then◌else◌, length, get_elem?, arith,
  Bool-cases, Option-cases, All,
}
use proxy_gateway.Prelude.Dict.{lookup, insert, delete, lookup-insert, lookup-delete}
use proxy_gateway.Config.{AccountCfg}
use proxy_gateway.Persist.{Content}
use proxy_gateway.Text.{hex_encode}
use proxy_gateway.Auth.Password.{Digest}
use proxy_gateway.Auth.State.{
  Account, Manager, account_at, named, load_one, load_all, no_accounts, new_manager, attach_store,
  by_token_of, delete_file, account_of, drop_token,
}
use proxy_gateway.Auth.Change.{remove_account, add_account, login, update_account}
use proxy_gateway.Auth.Sound.{IsSound, get_elem?-append, get_elem?-last, delete_file-SameMaps}
use proxy_gateway.Auth.Keeps.{remove_account-IsSound}
use proxy_gateway.Auth.Methods.{add_account-IsSound, login-IsSound, update_account-IsSound}

-- A call, with the random bytes and the results of the writes that it meets.
pub data AuthCall : Type 0 where
  attaches : Option (Content AccountCfg) → AuthCall
  logs_in : List ℕ → Bool → String → String → AuthCall
  adds_account : List ℕ → List ℕ → Bool → AccountCfg → AuthCall
  updates_account : List ℕ → Bool → Bool → String → AccountCfg → AuthCall
  removes_account : Bool → String → AuthCall

-- A generated token has a byte at least.
abbrev pub HasToken : AuthCall → Type 0
HasToken (attaches file) = Unit
HasToken (logs_in salt ok name password) = Unit
HasToken (adds_account salt random ok c) = hex_encode random "" ≢ ""
HasToken (updates_account salt ok ok_2 name c) = Unit
HasToken (removes_account ok name) = Unit

-- No name is configured twice.
abbrev pub NamesDiffer : List AccountCfg → Type 0
NamesDiffer [] = Unit
NamesDiffer (c ∷ cs) = All (λ (d : AccountCfg). c.name ≢ d.name) cs × NamesDiffer cs

load_one-IsSound :
    (m : Manager) (c : AccountCfg)
    → lookup c.name m.by_name ≡ none
    → IsSound m
    → IsSound (load_one m c)
unfolding load_one
load_one-IsSound m c free s =
    let r = length m.heap in
    let a : Account = record (account_of c) {
      role = if str_eq c.role "" then "user" else c.role;
    } in
    let kept : (t : String) (i : ℕ)
        → lookup t m.by_token ≡ some i
        → (x : Account) × (get_elem? (m.heap ++ a ∷ []) i ≡ some x)
          × (x.token ≡ t)
          × (t ≢ "")
          × (lookup x.name (insert c.name r m.by_name) ≡ some i) =
      λ t i h.
        let (x, at, e, ne, back) = s.tokens t i h in
        (
          x,
          get_elem?-append m.heap (a ∷ []) i at,
          e,
          ne,
          rw
              (
                lookup-insert c.name x.name r m.by_name,
                str_eq_ne c.name x.name (λ z. cc (ap (λ k. lookup k m.by_name) z, free, back)),
              )
              back,
        ) in
    record {
      names = λ n i h. elim (Bool-cases (str_eq c.name n)) [
        | inl same ↦
            let e : r ≡ i = ground (arith, lookup-insert c.name n r m.by_name) in
            (
              a,
              subst (λ k. get_elem? (m.heap ++ a ∷ []) k ≡ some a) e (get_elem?-last m.heap a),
              (str_eq_iff c.name n).0 same,
            )
        | inr other ↦
            let old : lookup n m.by_name ≡ some i =
              ground (arith, lookup-insert c.name n r m.by_name) in
            let (b, at, e) = s.names n i old in (b, get_elem?-append m.heap (a ∷ []) i at, e)
      ];
      tokens = λ t i h. elim (Bool-cases (str_eq c.token "")) [
        | inl blank ↦ kept t i (rw blank at h)
        | inr given ↦
            let h' : lookup t (insert c.token r m.by_token) ≡ some i = rw given at h in
            let to = lookup-insert c.token t r m.by_token in
            elim (Bool-cases (str_eq c.token t)) [
              | inl same ↦
                  let e : r ≡ i = ground arith in
                  let eq : c.token ≡ t = (str_eq_iff c.token t).0 same in
                  (
                    a,
                    subst (λ k. get_elem? (m.heap ++ a ∷ []) k ≡ some a) e
                        (get_elem?-last m.heap a),
                    eq,
                    (λ z. cc ((str_eq_iff c.token "").1 (eq ∙ z), given)),
                    rw (lookup-insert c.name c.name r m.by_name, str_eq_refl c.name) (ap some e),
                  )
              | inr other ↦ kept t i (ground arith)
            ]
      ];
    }

load_all-IsSound :
    (cs : List AccountCfg) (m : Manager)
    → NamesDiffer cs
    → All (λ (d : AccountCfg). lookup d.name m.by_name ≡ none) cs
    → IsSound m
    → IsSound (load_all m cs)
unfolding load_all
load_all-IsSound [] m d free s = s
load_all-IsSound (c ∷ cs) m (apart, d) (free, frees) s =
    load_all-IsSound cs (load_one m c) d (still cs apart frees) (load_one-IsSound m c free s)
  where
    still :
        (xs : List AccountCfg)
        → All (λ (d : AccountCfg). c.name ≢ d.name) xs
        → All (λ (d : AccountCfg). lookup d.name m.by_name ≡ none) xs
        → All (λ (d : AccountCfg). lookup d.name (load_one m c).by_name ≡ none) xs
    still [] a f = tt
    still (x ∷ xs) (a, as') (f, fs) = (
      unfold load_one in
          rw (lookup-insert c.name x.name (length m.heap) m.by_name, str_eq_ne c.name x.name a) f,
      still xs as' fs,
    )

none_taken :
    (cs : List AccountCfg) → All (λ (d : AccountCfg). lookup d.name no_accounts.by_name ≡ none) cs
unfolding lookup
none_taken [] = tt
none_taken (c ∷ cs) = (refl, none_taken cs)

new_manager-IsSound : (cs : List AccountCfg) → NamesDiffer cs → IsSound (new_manager cs)
unfolding new_manager lookup
new_manager-IsSound cs d =
    load_all-IsSound cs no_accounts d (none_taken cs)
      (record { names = λ n r h. absurd (cc); tokens = λ t r h. absurd (cc) })

module _ ⦃dg : Digest⦄ where
  unfoldable pub step_auth : Manager → AuthCall → Manager
  step_auth m (attaches file) = attach_store m file
  step_auth m (logs_in salt ok name password) = (login salt ok m name password).0
  step_auth m (adds_account salt random ok c) = (add_account salt random ok m c).0
  step_auth m (updates_account salt ok ok_2 name c) = (update_account salt ok ok_2 m name c).0
  step_auth m (removes_account ok name) = (remove_account ok m name).0

  unfoldable pub run_auth : Manager → List AuthCall → Manager
  run_auth m [] = m
  run_auth m (c ∷ cs) = run_auth (step_auth m c) cs

  step_auth-IsSound :
      (m : Manager) (c : AuthCall) → HasToken c → IsSound m → IsSound (step_auth m c)
  unfolding step_auth
  step_auth-IsSound m (attaches file) h s = record { names = s.names; tokens = s.tokens }
  step_auth-IsSound m (logs_in salt ok name password) h s = login-IsSound salt ok m name password s
  step_auth-IsSound m (adds_account salt random ok c) h s =
      add_account-IsSound salt random ok m c h s
  step_auth-IsSound m (updates_account salt ok ok_2 name c) h s =
      update_account-IsSound salt ok ok_2 m name c s
  step_auth-IsSound m (removes_account ok name) h s = remove_account-IsSound ok m name s

  run_auth-IsSound :
      (calls : List AuthCall) (m : Manager)
      → All HasToken calls
      → IsSound m
      → IsSound (run_auth m calls)
  unfolding run_auth
  run_auth-IsSound [] m h s = s
  run_auth-IsSound (c ∷ calls) m (h, hs) s =
      run_auth-IsSound calls (step_auth m c) hs (step_auth-IsSound m c h s)

  -- After any history of calls on a manager of accounts whose names differ, each name leads to an
  -- account of that name, and each token is not empty and leads to an account that has it and that
  -- its own name leads to.
  pub run_auth-new_manager-IsSound :
      (cs : List AccountCfg) (calls : List AuthCall)
      → NamesDiffer cs
      → All HasToken calls
      → IsSound (run_auth (new_manager cs) calls)
  run_auth-new_manager-IsSound cs calls d h =
      run_auth-IsSound calls (new_manager cs) h (new_manager-IsSound cs d)

-- In a sound manager `ByToken` returns only an enabled account that has the token, which is not
-- empty, and that the manager has under its name.
pub by_token_of-IsSound :
    (m : Manager) (t : String) {a : Account}
    → IsSound m
    → by_token_of m t ≡ some a
    → (a.enabled ≡ true) × (a.token ≡ t) × (t ≢ "") × (named m a.name ≡ some a)
unfolding by_token_of account_at
by_token_of-IsSound m t {a} s h = elim (Option-cases (lookup t m.by_token)) [
  | inl e ↦ absurd (cc (rw (e, by_token_of, account_at) at h))
  | inr (r, e) ↦
      let (b, at, own, ne, back) = s.tokens t r e in
      elim (Bool-cases b.enabled) [
        | inl on ↦
            let same : b ≡ a = ground arith in
            subst
              (λ (x : Account).
                (x.enabled ≡ true) × (x.token ≡ t) × (t ≢ "") × (named m x.name ≡ some x))
              same (on, own, ne, rw (back, at, account_at))
        | inr off ↦ absurd (ground arith)
      ]
]

-- After `RemoveAccount`, with or without a failure of the file, nothing is found under the name.
pub remove_account-named :
    (ok : Bool) (m : Manager) (name : String) → named (remove_account ok m name).0 name ≡ none
unfolding remove_account account_at
remove_account-named ok m name = elim (Option-cases (named m name)) [
  | inl e ↦ rw (e, remove_account) e
  | inr (a, e) ↦
      let q = record m {
        by_token = drop_token (some a) m.by_token;
        by_name = delete name m.by_name;
      } in
      let maps = delete_file-SameMaps ok name q in
      let absent : lookup name (delete_file ok name q).0.by_name ≡ none =
        ap (lookup name) maps.1 ∙ rw (lookup-delete name name m.by_name, str_eq_refl name) in
      rw (e, remove_account) (rw (absent, account_at))
]

-- In a sound manager `RemoveAccount` revokes the account, whether or not the file is written: a token
-- that still leads to an account leads to one of another name.
pub remove_account-by_token_of :
    (ok : Bool) (m : Manager) (name t : String) {a : Account}
    → IsSound m
    → by_token_of (remove_account ok m name).0 t ≡ some a
    → a.name ≢ name
remove_account-by_token_of ok m name t {a} s h z =
    let q = (remove_account ok m name).0 in
    let (on, own, ne, back) = by_token_of-IsSound q t (remove_account-IsSound ok m name s) h in
    cc (ap (named q) z, back, remove_account-named ok m name)
