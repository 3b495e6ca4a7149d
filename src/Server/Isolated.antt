-- ===== src/Server/Isolated.antt =====
-- What an account that is no admin can do to the groups of others by the handlers of
-- internal/server/server.go.
use proxy_gateway.Prelude.{
  ℕ, ◌≡◌, refl, sym, ap, ◌∙◌, inl, inr, String, Bool, false, List, [], ◌∷◌, ◌++◌, Option, none,
  some, str_eq, str_eq_iff, if_cases, option_cases, arith, Bool-cases,
}
use proxy_gateway.Prelude.Float.{Float64}
use proxy_gateway.Config.{GroupCfg}
use proxy_gateway.Config.Validate.{Checked, ok, refused, Fault}
use proxy_gateway.Gateway.Direct.{find_group_cfg}
use proxy_gateway.Server.{
  Caller, is_admin_user, is_free, current_account, Owned, owned, not_owned, require_owned_group,
  group_writable,
}
use proxy_gateway.Server.Groups.{
  Grouping, validate_group, add_group, update_group, remove_group, put_group, drop_group,
  apply_groups, has_name, owned_by,
}

-- To prove a property of a case distinction on a check, and on an ownership.
pub checked_cases :
    {A B : Type 0} (P : B → Type 0) (r : Checked A) {f : Fault → B} {g : A → B}
    → ((e : Fault) → P (f e))
    → ((a : A) → P (g a))
    → P (elim r [ refused e ↦ f e | ok a ↦ g a ])
checked_cases P (refused e) h k = h e
checked_cases P (ok a) h k = k a

pub owned_cases :
    {B : Type 0} (P : B → Type 0) (r : Owned) {f : ℕ → B} {g : GroupCfg → B}
    → ((code : ℕ) → P (f code))
    → ((old : GroupCfg) → r ≡ owned old → P (g old))
    → P (elim r [ not_owned code ↦ f code | owned old ↦ g old ])
owned_cases P (not_owned code) h k = h code
owned_cases P (owned old) h k = k old refl

-- A call of one of the handlers, with whether the write of the file succeeds and the providers known.
pub data Call : Type 0 where
  adds : Bool → List String → Option GroupCfg → Call
  updates : Bool → List String → String → Option GroupCfg → Call
  removes : Bool → String → Call

unfoldable pub call_group : ⦃fl : Float64⦄ → Caller → Grouping → Call → Grouping × ℕ
call_group c s (adds written known body) = add_group written known s c body
call_group c s (updates written known name body) = update_group written known s c name body
call_group c s (removes written name) = remove_group written s c name

find-append :
    (n : String) (gs xs : List GroupCfg) {g : GroupCfg}
    → find_group_cfg n gs ≡ some g
    → find_group_cfg n (gs ++ xs) ≡ some g
unfolding find_group_cfg
find-append n [] xs e = absurd (cc)
find-append n (x ∷ gs) xs e = elim (Bool-cases (str_eq x.name n)) [
  | inl same ↦ rw same (rw same at e)
  | inr other ↦ rw other (find-append n gs xs (rw other at e))
]

find-put_group :
    (n name : String) (g : GroupCfg) (gs : List GroupCfg)
    → g.name ≡ name
    → str_eq name n ≡ false
    → find_group_cfg n (put_group name g gs) ≡ find_group_cfg n gs
unfolding find_group_cfg put_group
find-put_group n name g [] e h = refl
find-put_group n name g (x ∷ gs) e h =
    let named : str_eq g.name n ≡ false = ap (λ t. str_eq t n) e ∙ h in
    ground (arith, find-put_group n name g gs e h, str_eq_iff x.name name, named, h)

find-drop_group :
    (n name : String) (gs : List GroupCfg)
    → str_eq name n ≡ false
    → find_group_cfg n (drop_group name gs) ≡ find_group_cfg n gs
unfolding find_group_cfg drop_group
find-drop_group n name [] h = refl
find-drop_group n name (x ∷ gs) h =
    ground (arith, find-drop_group n name gs h, str_eq_iff x.name name, h)

-- A caller who may change the group of a name may not have been given another's.
owned_other :
    (gs : List GroupCfg) (c : Caller) (n name : String) {g old : GroupCfg}
    → find_group_cfg n gs ≡ some g
    → is_free c ≡ false
    → str_eq g.owner (current_account c) ≡ false
    → require_owned_group gs c name ≡ owned old
    → str_eq name n ≡ false
unfolding require_owned_group group_writable
owned_other gs c n name {g} found plain other e = elim (Bool-cases (str_eq name n)) [
  | inr apart ↦ apart
  | inl same ↦
      let at_n : require_owned_group gs c n ≡ owned _ =
        ap (λ t. require_owned_group gs c t) (sym ((str_eq_iff name n).0 same)) ∙ e in
      absurd (ground (arith, rw (found, require_owned_group) at at_n, plain, other))
]

module _ ⦃fl : Float64⦄ (c : Caller) (s : Grouping) (n : String) {g : GroupCfg}
    (found : find_group_cfg n s.groups ≡ some g) (plain : is_free c ≡ false)
    (other : str_eq g.owner (current_account c) ≡ false) where
  abbrev Kept : Grouping × ℕ → Type 0
  Kept out = find_group_cfg n out.0.groups ≡ some g

  add_group-Kept :
      (written : Bool) (known : List String) (body : Option GroupCfg)
      → Kept (add_group written known s c body)
  unfolding add_group apply_groups
  add_group-Kept written known none = found
  add_group-Kept written known (some given) =
      checked_cases Kept (validate_group known (owned_by c given)) (λ e. found)
        (λ u.
          if_cases Kept (has_name (owned_by c given).name s.groups) (λ _. found)
            (λ _. find-append n s.groups (owned_by c given ∷ []) found))

  update_group-Kept :
      (written : Bool) (known : List String) (name : String) (body : Option GroupCfg)
      → Kept (update_group written known s c name body)
  unfolding update_group apply_groups
  update_group-Kept written known name body =
      if_cases Kept (str_eq name "") (λ _. found)
        (λ _.
          owned_cases Kept (require_owned_group s.groups c name) (λ code. found)
            (λ old mine.
              option_cases Kept body (λ _. found)
                (λ given _.
                  let g' = owned_by c (record given { name = name }) in
                  let named : g'.name ≡ name =
                    if_cases (λ (x : GroupCfg). x.name ≡ name) (is_admin_user c) (λ _. refl)
                      (λ _. refl) in
                  checked_cases Kept (validate_group known g') (λ e. found)
                    (λ u.
                      if_cases Kept (has_name name s.groups)
                        (λ _.
                          find-put_group n name g' s.groups named
                            (owned_other s.groups c n name found plain other mine)
                          ∙ found)
                        (λ _. found)))))

  remove_group-Kept : (written : Bool) (name : String) → Kept (remove_group written s c name)
  unfolding remove_group apply_groups
  remove_group-Kept written name =
      if_cases Kept (str_eq name "") (λ _. found)
        (λ _.
          owned_cases Kept (require_owned_group s.groups c name) (λ code. found)
            (λ old mine.
              if_cases Kept (has_name name s.groups)
                (λ _.
                  find-drop_group n name s.groups
                    (owned_other s.groups c n name found plain other mine)
                  ∙ found)
                (λ _. found)))

  -- A call of a handler of groups by an account that has a name and is no admin leaves every group
  -- that is not the account's own, the global ones included, as it is.
  pub call_group_isolated : (k : Call) → find_group_cfg n (call_group c s k).0.groups ≡ some g
  unfolding call_group
  call_group_isolated (adds written known body) = add_group-Kept written known body
  call_group_isolated (updates written known name body) = update_group-Kept written known name body
  call_group_isolated (removes written name) = remove_group-Kept written name
