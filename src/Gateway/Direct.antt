-- ===== src/Gateway/Direct.antt =====
-- `handleDirect` of internal/gateway/gateway.go: the address of the one tunnel of a group.
use proxy_gateway.Prelude.{
  ◌≡◌, refl, sym, ap, ◌∙◌, inl, inr, String, Bool, true, false, not, ◌&&◌, ◌||◌, List, [], ◌∷◌,
  ◌++◌, Option, none, some, arith, In, All, any, str_eq, str_eq_iff, if◌then◌else◌, Bool-cases,
  Option-cases,
}
use proxy_gateway.Model.{Proxy, is_tunnel}
use proxy_gateway.Config.{GroupCfg}
use proxy_gateway.Pool.Prio.{eq_ℤ}
use proxy_gateway.Pool.Rebuild.{backup_providers}

-- What the endpoint answers: an error page, one of the reasons why there is no direct address, or
-- the tunnel whose address is written.
pub data Answer : Type 0 where
  group_not_found non_tunnel no_tunnel many_tunnels : Answer
  direct : Proxy → Answer

-- `findGroup`
unfoldable pub find_group_cfg : String → List GroupCfg → Option GroupCfg
find_group_cfg name [] = none
find_group_cfg name (g ∷ gs) = if str_eq g.name name then some g else find_group_cfg name gs

-- The keys of `provSet`.
abbrev pub group_providers : GroupCfg → List String
group_providers g = g.primary ++ backup_providers g.backups

abbrev pub is_listed : List String → Proxy → Bool
is_listed names pr = any (λ n. str_eq n pr.provider) names

abbrev pub same_address : Proxy → Proxy → Bool
same_address a b = str_eq a.host b.host && eq_ℤ a.port b.port

-- The loop over the proxies, with `upstream` and `multi`.
unfoldable pub direct_loop : List String → Option Proxy → Bool → List Proxy → Answer
direct_loop names none multi [] = no_tunnel
direct_loop names (some u) multi [] = if multi then many_tunnels else direct u
direct_loop names upstream multi (pr ∷ prs) =
    let skipped = direct_loop names upstream multi prs in
    let first = direct_loop names (some pr) multi prs in
    let next = λ (u : Proxy). direct_loop names (some u) (multi || not (same_address u pr)) prs in
    if is_listed names pr
    then if is_tunnel pr.kind then elim upstream [ none ↦ first | some u ↦ next u ] else non_tunnel
    else skipped

-- `handleDirect`, for the groups and the proxies of the pool.
unfoldable pub handle_direct : List GroupCfg → List Proxy → String → Answer
handle_direct gs prs group = elim (find_group_cfg group gs) [
  | none ↦ group_not_found
  | some g ↦ direct_loop (group_providers g) none false prs
]

-- If the proxy is of the group, it is a tunnel, and at the address of `u`.
abbrev pub is_at : List String → Proxy → Proxy → Bool
is_at names u pr = not (is_listed names pr) || (is_tunnel pr.kind && same_address u pr)

abbrev pub AllAt : List String → Proxy → List Proxy → Type 0
AllAt names u prs = All (λ (pr : Proxy). is_at names u pr ≡ true) prs

direct_loop_started :
    (names : List String) (u w : Proxy) (multi : Bool) (prs : List Proxy)
    → direct_loop names (some u) multi prs ≡ direct w
    → (u ≡ w) × (multi ≡ false) × AllAt names u prs
unfolding direct_loop
direct_loop_started names u w true [] h = absurd (cc)
direct_loop_started names u w false [] h = (cc, refl, tt)
direct_loop_started names u w multi (pr ∷ prs) h = elim (Bool-cases (is_listed names pr)) [
  | inr other ↦
      let (e, m, rest) = direct_loop_started names u w multi prs (rw other at h) in
      (e, m, (rw other, rest))
  | inl mine ↦ elim (Bool-cases (is_tunnel pr.kind)) [
    | inr relayed ↦ absurd (cc (rw (mine, relayed) at h))
    | inl tun ↦
        let (e, m, rest) =
          direct_loop_started names u w (multi || not (same_address u pr)) prs
            (rw (mine, tun) at h) in
        let (m', here) = no_change multi (same_address u pr) m in
        (e, m', (rw (mine, tun, here), rest))
  ]
]
  where
    no_change : (a b : Bool) → (a || not b) ≡ false → (a ≡ false) × (b ≡ true)
    no_change true b e = absurd (cc)
    no_change false true e = (refl, refl)
    no_change false false e = absurd (cc)

direct_loop_found :
    (names : List String) (w : Proxy) (prs : List Proxy)
    → direct_loop names none false prs ≡ direct w
    → In w prs × (is_listed names w ≡ true) × (is_tunnel w.kind ≡ true) × AllAt names w prs
unfolding direct_loop
direct_loop_found names w [] h = absurd (cc)
direct_loop_found names w (pr ∷ prs) h = elim (Bool-cases (is_listed names pr)) [
  | inr other ↦
      let (i, l, t, rest) = direct_loop_found names w prs (rw other at h) in
      (inr i, l, t, (rw other, rest))
  | inl mine ↦ elim (Bool-cases (is_tunnel pr.kind)) [
    | inr relayed ↦ absurd (cc (rw (mine, relayed) at h))
    | inl tun ↦
        let (e, m, rest) = direct_loop_started names pr w false prs (rw (mine, tun) at h) in
        (
          inl (sym e),
          rw e at mine,
          ap (λ (x : Proxy). is_tunnel x.kind) (sym e) ∙ tun,
          (rw (mine, tun) (ground (arith, str_eq_iff w.host pr.host)), rw e at rest),
        )
  ]
]

-- The direct endpoint hands out the address of a proxy only if the proxy is a tunnel of the group,
-- and every proxy of the pool that belongs to a provider of the group is a tunnel at that address.
pub handle_direct-AllAt :
    (gs : List GroupCfg) (prs : List Proxy) (group : String) {u : Proxy}
    → handle_direct gs prs group ≡ direct u
    → (g : GroupCfg) × (find_group_cfg group gs ≡ some g)
      × In u prs
      × (is_listed (group_providers g) u ≡ true)
      × (is_tunnel u.kind ≡ true)
      × AllAt (group_providers g) u prs
unfolding handle_direct
handle_direct-AllAt gs prs group {u} h = elim (Option-cases (find_group_cfg group gs)) [
  | inl missing ↦ absurd (cc (rw (missing, handle_direct) at h))
  | inr (g, found) ↦
      let (i, l, t, rest) =
        direct_loop_found (group_providers g) u prs (rw (found, handle_direct) at h) in
      (g, found, i, l, t, rest)
]
