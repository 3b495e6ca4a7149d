-- ===== src/Auth/State.antt =====
-- The account manager of internal/auth/auth.go. Pointers to accounts are positions of a heap, so that
-- the maps by name and by token share accounts as in the code. Each method runs under the lock.
use proxy_gateway.Prelude.{
  ℕ, zero, suc, String, Bool, true, false, ◌||◌, List, [], ◌∷◌, ◌++◌, Option, none, some, str_eq,
  if◌then◌else◌, length, get_elem?,
}
use proxy_gateway.Prelude.Dict.{lookup, insert, delete}
use proxy_gateway.Config.{AccountCfg}
use proxy_gateway.Persist.{Content, save_account, delete_account}

pub record Account : Type 0 where
  pub name : String
  pub password : String
  pub token : String
  pub role : String
  pub enabled : Bool
  pub groups : Option (List String)

-- `persist` is nil, or the file of the accounts.
pub record Manager : Type 0 where
  pub heap : List Account
  pub by_name : List (String × ℕ)
  pub by_token : List (String × ℕ)
  pub persist : Option (Content AccountCfg)

-- `*ConfigError`, or the error of a file.
pub data Fault : Type 0 where
  name_required bad_role not_found name_exists file_failed : Fault

unfoldable pub set_at : ℕ → Account → List Account → List Account
set_at i a [] = []
set_at zero a (x ∷ xs) = a ∷ xs
set_at (suc i) a (x ∷ xs) = x ∷ set_at i a xs

-- The account behind a pointer of a map.
unfoldable pub account_at : Manager → Option ℕ → Option Account
account_at m none = none
account_at m (some r) = get_elem? m.heap r

abbrev pub named : Manager → String → Option Account
named m name = account_at m (lookup name m.by_name)

abbrev pub cfg_of : Account → AccountCfg
cfg_of a = record {
  name = a.name;
  password = a.password;
  token = a.token;
  role = a.role;
  enabled = a.enabled;
  groups = a.groups;
}

abbrev pub account_of : AccountCfg → Account
account_of c = record {
  name = c.name;
  password = c.password;
  token = c.token;
  role = c.role;
  enabled = c.enabled;
  groups = c.groups;
}

abbrev pub is_admin : Account → Bool
is_admin a = str_eq a.role "admin"

unfoldable pub is_listed : String → List String → Bool
is_listed group [] = false
is_listed group (g ∷ gs) = if str_eq g group then true else is_listed group gs

unfoldable pub can_use_group : Account → String → Bool
can_use_group a group = elim a.groups [
  | none ↦ true
  | some gs ↦ elim gs [ [] ↦ true | g ∷ rest ↦ is_listed group (g ∷ rest) ]
]

-- One turn of the loop of `New`.
unfoldable pub load_one : Manager → AccountCfg → Manager
load_one m c =
    let r = length m.heap in
    record {
      heap =
          m.heap
          ++ (record (account_of c) { role = if str_eq c.role "" then "user" else c.role }) ∷ [];
      by_name = insert c.name r m.by_name;
      by_token = if str_eq c.token "" then m.by_token else insert c.token r m.by_token;
      persist = m.persist;
    }

unfoldable pub load_all : Manager → List AccountCfg → Manager
load_all m [] = m
load_all m (c ∷ cs) = load_all (load_one m c) cs

abbrev pub no_accounts : Manager
no_accounts = record { heap = []; by_name = []; by_token = []; persist = none }

-- `New`
unfoldable pub new_manager : List AccountCfg → Manager
new_manager cs = load_all no_accounts cs

abbrev pub attach_store : Manager → Option (Content AccountCfg) → Manager
attach_store m file = record m { persist = file }

-- The writes to the file, if there is one, with whether they report no error.
unfoldable pub save_file : Bool → Account → Manager → Manager × Bool
save_file ok a m = elim m.persist [
  | none ↦ (m, true)
  | some c ↦ let (d, done) = save_account ok (cfg_of a) c in (record m { persist = some d }, done)
]

unfoldable pub delete_file : Bool → String → Manager → Manager × Bool
delete_file ok name m = elim m.persist [
  | none ↦ (m, true)
  | some c ↦ let (d, done) = delete_account ok name c in (record m { persist = some d }, done)
]

abbrev pub outcome : Bool → Option Fault
outcome true = none
outcome false = some file_failed

unfoldable pub by_token_of : Manager → String → Option Account
by_token_of m token = elim (account_at m (lookup token m.by_token)) [
  | none ↦ none
  | some a ↦ if a.enabled then some a else none
]

abbrev pub is_role : String → Bool
is_role role = str_eq role "admin" || str_eq role "user"

-- The deletion of an account's token from the map by token.
unfoldable pub drop_token : Option Account → List (String × ℕ) → List (String × ℕ)
drop_token none m = m
drop_token (some a) m = if str_eq a.token "" then m else delete a.token m
