-- ===== src/Auth/Change.antt =====
-- The methods of the account manager of internal/auth/auth.go that change accounts. Random bytes are
-- arguments, as is whether a write to the file succeeds.
use proxy_gateway.Prelude.{
  ℕ, String, Bool, not, ◌||◌, List, [], ◌∷◌, ◌++◌, map, Option, none, some, str_eq, if◌then◌else◌,
  length,
}
use proxy_gateway.Prelude.Dict.{lookup, insert, delete}
use proxy_gateway.Config.{AccountCfg}
use proxy_gateway.Persist.{replace_accounts}
use proxy_gateway.Text.{trim_space, hex_encode}
use proxy_gateway.Auth.Password.{Digest, is_hashed, hash_password, verify_password}
use proxy_gateway.Auth.State.{
  Account, Manager, Fault, name_required, bad_role, not_found, name_exists, file_failed, set_at,
  account_at, named, cfg_of, save_file, delete_file, outcome, is_role, drop_token,
}

-- `RemoveAccount`
unfoldable pub remove_account : Bool → Manager → String → Manager × Option Fault
remove_account ok m name = elim (named m name) [
  | none ↦ (m, some not_found)
  | some a ↦
      let q = record m {
        by_token = drop_token (some a) m.by_token;
        by_name = delete name m.by_name;
      } in
      let (r, done) = delete_file ok name q in (r, outcome done)
]

-- Both maps lead to the new account; the token of the old account of its name leads nowhere.
unfoldable pub put_account : Manager → Account → Manager
put_account m a =
    let r = length m.heap in
    record m {
      heap = m.heap ++ a ∷ [];
      by_token = insert a.token r (drop_token (named m a.name) m.by_token);
      by_name = insert a.name r m.by_name;
    }

-- `List`
abbrev pub list_accounts : Manager → List Account → List AccountCfg
list_accounts m xs = map (λ (a : Account). record (cfg_of a) { password = "" }) xs

module _ ⦃dg : Digest⦄ where
  -- A given password as it is stored.
  unfoldable pub stored_secret : List ℕ → String → String
  stored_secret salt password =
      if str_eq password "" || is_hashed password then password else hash_password salt password

  -- The account of `AddAccount`, for a role that is known.
  unfoldable pub prepared : List ℕ → List ℕ → String → AccountCfg → Account
  prepared salt random role c = record {
    name = c.name;
    password = stored_secret salt c.password;
    token = if str_eq (trim_space c.token) "" then hex_encode random "" else c.token;
    role = role;
    enabled = c.enabled;
    groups = c.groups;
  }

  -- `AddAccount`
  unfoldable pub add_account :
      List ℕ → List ℕ → Bool → Manager → AccountCfg → Manager × Option Fault
  add_account salt random ok m c =
      let role = if str_eq c.role "" then "user" else c.role in
      if str_eq (trim_space c.name) ""
      then (m, some name_required)
      else if is_role role
      then (let a = prepared salt random role c in
          let (q, done) = save_file ok a (put_account m a) in (q, outcome done))
      else (m, some bad_role)

  -- `Login`. The result of the write is dropped.
  unfoldable pub login : List ℕ → Bool → Manager → String → String → Manager × Option Account
  login salt ok m name password = elim (lookup name m.by_name) [
    | none ↦ (m, none)
    | some r ↦ elim (account_at m (some r)) [
      | none ↦ (m, none)
      | some a ↦
          if not a.enabled || not (verify_password a.password password)
          then (m, none)
          else if is_hashed a.password
          then (m, some a)
          else (let b = record a { password = hash_password salt password } in
              ((save_file ok b (record m { heap = set_at r b m.heap })).0, some b))
    ]
  ]

  -- The fields that `UpdateAccount` sets, after the check of the role.
  unfoldable pub edited : List ℕ → AccountCfg → Account → Account
  edited salt c a = record {
    name = a.name;
    password = if str_eq c.password "" then a.password else stored_secret salt c.password;
    token = if str_eq c.token "" then a.token else c.token;
    role = if str_eq c.role "" then a.role else c.role;
    enabled = c.enabled;
    groups = elim c.groups [ none ↦ a.groups | some gs ↦ some gs ];
  }

  -- `UpdateAccount` up to the rename, for the account `a` at `r`.
  unfoldable pub apply_edit : List ℕ → Manager → ℕ → Account → AccountCfg → Manager
  apply_edit salt m r a c = record m {
    heap = set_at r (edited salt c a) m.heap;
    by_token =
        if str_eq c.token "" then m.by_token else insert c.token r (drop_token (some a) m.by_token);
  }

  -- `UpdateAccount`; `ok` and `ok_2` are of the save and of the delete. A rename to a name that is
  -- taken fails after the other fields are set.
  unfoldable pub update_account :
      List ℕ → Bool → Bool → Manager → String → AccountCfg → Manager × Option Fault
  update_account salt ok ok_2 m name c = elim (lookup name m.by_name) [
    | none ↦ (m, some not_found)
    | some r ↦ elim (account_at m (some r)) [
      | none ↦ (m, some not_found)
      | some a ↦
          let q = apply_edit salt m r a c in
          let new_name = trim_space c.name in
          let b = record (edited salt c a) { name = new_name } in
          if not (str_eq c.role "" || is_role c.role)
          then (m, some bad_role)
          else if str_eq new_name "" || str_eq new_name name
          then (let (s, done) = save_file ok (edited salt c a) q in (s, outcome done))
          else elim (lookup new_name q.by_name) [
            | some taken ↦ (q, some name_exists)
            | none ↦
                let renamed = record q {
                  heap = set_at r b q.heap;
                  by_name = insert new_name r (delete name q.by_name);
                } in
                let (s, done) = save_file ok b renamed in
                let (d, gone) = delete_file ok_2 name s in
                if done then (d, outcome gone) else (s, some file_failed)
          ]
    ]
  ]

-- The configurations of the accounts that a map leads to.
unfoldable pub all_cfgs : Manager → List (String × ℕ) → List AccountCfg
all_cfgs m [] = []
all_cfgs m ((name, r) ∷ rest) =
    let more = all_cfgs m rest in
    elim (account_at m (some r)) [ none ↦ more | some a ↦ cfg_of a ∷ more ]

-- `SyncAll`
unfoldable pub sync_all : Bool → Manager → Manager × Option Fault
sync_all ok m = elim m.persist [
  | none ↦ (m, none)
  | some c ↦
      let (d, done) = replace_accounts ok (all_cfgs m m.by_name) c in
      (record m { persist = some d }, outcome done)
]
