-- ===== src/Tests/Accounts.antt =====
-- Concrete runs of the account manager and of its file.
use proxy_gateway.Prelude.{
  ℕ, ◌+◌, ◌⊎◌, ◌%◌, ◌≡◌, ◌≢◌, refl, true, false, List, [], ◌∷◌, none, some, arith, str_eq_iff,
}
use proxy_gateway.Prelude.Dict.{lookup, insert, delete}
use proxy_gateway.Config.{AccountCfg}
use proxy_gateway.Persist.{
  missing, save, discard, load, write, upsert, save_account, delete_account, account_name,
}
use proxy_gateway.Persist.Files.{stored, save-stored}
use proxy_gateway.Text.{
  hex_encode, hex_decode, put_digit, bytes, trim_space, trim_left, trim_right, cut, encode_rune,
  is_space,
}
use proxy_gateway.Auth.Password.{Digest, is_hashed, hash_password, verify_password}
use proxy_gateway.Auth.Secret.{verify_password-hash_password}
use proxy_gateway.Auth.State.{
  Account, Manager, new_manager, load_all, load_one, by_token_of, account_at, named, save_file,
  delete_file, account_of, drop_token,
}
use proxy_gateway.Auth.Change.{remove_account, add_account, put_account, prepared, stored_secret}
use proxy_gateway.Auth.Sound.{IsSound}
use proxy_gateway.Auth.History.{
  AuthCall, attaches, adds_account, NamesDiffer, run_auth, step_auth, run_auth-new_manager-IsSound,
  by_token_of-IsSound, remove_account-by_token_of,
}

-- A checksum in place of SHA-256.
abbrev total : List ℕ → ℕ
total [] = 0
total (b ∷ bs) = b + total bs

instance abbrev checksum : Digest
checksum = record { sum_256 = λ bs. total bs % 256 ∷ [] }

abbrev ann : AccountCfg
ann = record {
  name = "ann";
  password = "pw";
  token = "t1";
  role = "admin";
  enabled = true;
  groups = none;
}

abbrev bob : AccountCfg
bob = record ann { name = "bob"; token = "t2"; role = "" }

-- What the tests compute with.
program : Unit {0}
unfolding lookup insert delete load write upsert save discard save_account delete_account put_digit
    hex_encode hex_decode bytes trim_space trim_left trim_right cut encode_rune is_space is_hashed
    hash_password verify_password new_manager load_all load_one by_token_of account_at save_file
    delete_file drop_token remove_account add_account put_account prepared stored_secret run_auth
    step_auth
program = tt

generated : hex_encode (7 ∷ []) "" ≢ ""
unfolding program
generated e = cc ((str_eq_iff (hex_encode (7 ∷ []) "") "").1 e)

ann_not_bob : ann.name ≢ bob.name
ann_not_bob e = cc ((str_eq_iff ann.name bob.name).1 e)

differ : NamesDiffer (ann ∷ bob ∷ [])
differ = ((ann_not_bob, tt), (tt, tt))

abbrev calls : List AuthCall
calls =
    attaches (some missing) ∷ adds_account (1 ∷ []) (7 ∷ []) true (record ann { token = "" }) ∷ []

abbrev ready : Manager
ready = run_auth (new_manager (ann ∷ bob ∷ [])) calls

ready-IsSound : IsSound ready
ready-IsSound = run_auth-new_manager-IsSound (ann ∷ bob ∷ []) calls differ (tt, (generated, tt))

abbrev bob_account : Account
bob_account = record (account_of bob) { role = "user" }

-- The old token leads nowhere, the generated one to the new account.
old_token : by_token_of ready "t1" ≡ none
unfolding program
old_token = refl

bob_token : by_token_of ready "t2" ≡ some bob_account
unfolding program
bob_token = refl

bob_stays : by_token_of (remove_account true ready "ann").0 "t2" ≡ some bob_account
unfolding program
bob_stays = refl

run_auth-new_manager-IsSound_example : IsSound (run_auth (new_manager (ann ∷ bob ∷ [])) calls)
run_auth-new_manager-IsSound_example =
    run_auth-new_manager-IsSound (ann ∷ bob ∷ []) calls differ (tt, (generated, tt))

by_token_of-IsSound_example :
    (true ≡ true) × (bob.token ≡ "t2") × (bob.token ≢ "") × (named ready "bob" ≡ some bob_account)
by_token_of-IsSound_example = by_token_of-IsSound ready "t2" ready-IsSound bob_token

remove_account-by_token_of_example : bob.name ≢ ann.name
remove_account-by_token_of_example =
    remove_account-by_token_of true ready "ann" "t2" ready-IsSound bob_stays

verify_password-hash_password_example :
    (is_hashed (hash_password (1 ∷ []) "pw") ≡ true)
    × (verify_password (hash_password (1 ∷ []) "pw") "pw" ≡ true)
verify_password-hash_password_example =
    verify_password-hash_password 1 [] "pw" (omega arith, tt) (omega arith, tt)

save-stored_example :
    (((save account_name true ann missing).1 ≡ true)
      × (stored account_name "ann" (save account_name true ann missing).0 ≡ some ann))
    ⊎ (((save account_name true ann missing).1 ≡ false)
        × ((save account_name true ann missing).0 ≡ missing))
save-stored_example = save-stored account_name true ann "ann" missing
