-- ===== src/Gateway/Creds.antt =====
-- The credentials of the gateway, internal/gateway/gateway.go: the map from a user and a password to
-- a group. The group definitions that the source returns are an argument.
use Prim.Native.Char.{Char, nul}
use proxy_gateway.Prelude.{
  ◌≡◌, ◌≢◌, refl, sym, ◌∙◌, inl, inr, ◌⊎◌, String, Bool, true, not, ◌&&◌, List, [], ◌∷◌, none, some,
  arith, In, str_eq, str_eq_iff, if◌then◌else◌, Bool-cases, Option-cases, All, All-In,
}
use proxy_gateway.Prelude.Dict.{lookup, insert, lookup-insert}
use proxy_gateway.Config.{GroupCfg}

-- `credKey`
unfoldable pub cred_key : String → String → String
cred_key String.[] pass = String.◌∷◌ nul pass
cred_key (String.◌∷◌ c user) pass = String.◌∷◌ c (cred_key user pass)

abbrev pub has_credentials : GroupCfg → Bool
has_credentials g = not (str_eq g.username "") && not (str_eq g.password "")

-- The loop of `rebuildCreds`.
unfoldable pub creds_loop : List (String × String) → List GroupCfg → List (String × String)
creds_loop m [] = m
creds_loop m (g ∷ gs) =
    creds_loop (if has_credentials g then insert (cred_key g.username g.password) g.name m else m)
      gs

-- `rebuildCreds`
abbrev pub rebuild_creds : List GroupCfg → List (String × String)
rebuild_creds gs = creds_loop [] gs

-- `LookupGroup`, with the empty text for a key that is missing.
unfoldable pub lookup_group : List (String × String) → String → String → String
lookup_group m user pass = elim (lookup (cred_key user pass) m) [ none ↦ "" | some name ↦ name ]

-- The text has no NUL character.
abbrev pub IsPlain : String → Type 0
IsPlain String.[] = Unit
IsPlain (String.◌∷◌ c s) = (c ≢ nul) × IsPlain s

string_head : (c d : Char) (s t : String) → String.◌∷◌ c s ≡ String.◌∷◌ d t → (c ≡ d) × (s ≡ t)
string_head c d s t e = (cc, cc)

-- A key determines a user without a NUL, and the password.
cred_key_injective :
    (u v p q : String) → IsPlain u → IsPlain v → cred_key u p ≡ cred_key v q → (u ≡ v) × (p ≡ q)
unfolding cred_key
cred_key_injective String.[] String.[] p q h k e = (refl, cc)
cred_key_injective String.[] (String.◌∷◌ d v) p q h k e =
    absurd (k.0 (sym (string_head nul d p (cred_key v q) e).0))
cred_key_injective (String.◌∷◌ c u) String.[] p q h k e =
    absurd (h.0 (string_head c nul (cred_key u p) q e).0)
cred_key_injective (String.◌∷◌ c u) (String.◌∷◌ d v) p q h k e =
    let (x, y) = string_head c d (cred_key u p) (cred_key v q) e in
    let (a, b) = cred_key_injective u v p q h.1 k.1 y in (cc, b)

-- What the loop leaves under a key was there before, or is the name of a group with that key.
creds_loop_origin :
    (gs : List GroupCfg) (m : List (String × String)) (k name : String)
    → lookup k (creds_loop m gs) ≡ some name
    → (lookup k m ≡ some name)
      ⊎ ((g : GroupCfg) × In g gs
          × (g.name ≡ name)
          × (cred_key g.username g.password ≡ k)
          × (has_credentials g ≡ true))
unfolding creds_loop
creds_loop_origin [] m k name h = inl h
creds_loop_origin (g ∷ gs) m k name h = elim (Bool-cases (has_credentials g)) [
  | inr bare ↦ elim (creds_loop_origin gs m k name (rw bare at h)) [
    | inl old ↦ inl old
    | inr (x, i, n, k', c) ↦ inr (x, inr i, n, k', c)
  ]
  | inl given ↦
      let key = cred_key g.username g.password in
      elim (creds_loop_origin gs (insert key g.name m) k name (rw given at h)) [
        | inr (x, i, n, k', c) ↦ inr (x, inr i, n, k', c)
        | inl old ↦ elim (Bool-cases (str_eq key k)) [
          | inl same ↦ inr (
            g,
            inl refl,
            ground (arith, lookup-insert key k g.name m),
            (str_eq_iff key k).0 same,
            given,
          )
          | inr other ↦ inl (ground (arith, lookup-insert key k g.name m))
        ]
      ]
]

-- The gateway resolves a user and a password, the users without a NUL, to a group only if a group of
-- this name is defined with exactly these two, neither of them empty.
pub lookup_group-rebuild_creds :
    (gs : List GroupCfg) (user pass : String) {name : String}
    → IsPlain user
    → All (λ (g : GroupCfg). IsPlain g.username) gs
    → name ≢ ""
    → lookup_group (rebuild_creds gs) user pass ≡ name
    → (g : GroupCfg) × In g gs
      × (g.name ≡ name)
      × (g.username ≡ user)
      × (g.password ≡ pass)
      × (has_credentials g ≡ true)
unfolding lookup_group lookup
lookup_group-rebuild_creds gs user pass plain plains named found =
    elim (Option-cases (lookup (cred_key user pass) (rebuild_creds gs))) [
      | inl missing ↦ absurd (named (sym found ∙ rw (missing, lookup_group)))
      | inr (n, e) ↦
          let same : n ≡ _ = rw (e, lookup_group) at found in
          elim (creds_loop_origin gs [] (cred_key user pass) n e) [
            | inl old ↦ absurd (cc)
            | inr (g, i, g_name, key, given) ↦
                let (u, p) =
                  cred_key_injective g.username user g.password pass
                    (All-In (λ (x : GroupCfg). IsPlain x.username) gs g plains i) plain key in
                (g, i, g_name ∙ same, u, p, given)
          ]
    ]
