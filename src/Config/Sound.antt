-- ===== src/Config/Sound.antt =====
-- What a configuration has that internal/config/config.go accepts.
use proxy_gateway.Prelude.{
  ◌≡◌, refl, sym, ap, ◌∙◌, String, Bool, true, false, not, ◌&&◌, ◌||◌, List, [], ◌∷◌, str_eq, lists,
  any, map, arith, if_cases, option_cases, All, subst,
}
use proxy_gateway.Prelude.Float.{Float64}
use proxy_gateway.Config.{ProviderCfg, is_zero}
use proxy_gateway.Config.Validate.{
  Checked, ok, refused, Fault, and_then, unless_bad, is_supported, with_tunnel, with_ip_pool,
  with_sticky, with_free, check_rest, check_provider, check_providers, is_blank_url, bad_ratio,
  is_type, no_urls, no_items, is_iso_alpha2,
}

-- No text stands twice, and none in another list.
abbrev pub Fresh : List String → List String → Type 0
Fresh seen [] = Unit
Fresh seen (n ∷ ns) = (lists n seen ≡ false) × Fresh (n ∷ seen) ns

abbrev pub names_of : List ProviderCfg → List String
names_of ps = map (λ (p : ProviderCfg). p.name) ps

pub and_then_ok :
    {A B : Type 0} (r : Checked A) (f : A → Checked B) {b : B}
    → and_then r f ≡ ok b
    → (a : A) × (r ≡ ok a) × (f a ≡ ok b)
unfolding and_then
and_then_ok (ok a) f e = (a, refl, e)
and_then_ok (refused x) f e = absurd (cc)

pub unless_bad_ok :
    {A : Type 0} (b : Bool) (f : Fault) (r : Checked A) {a : A}
    → unless_bad b f r ≡ ok a
    → (b ≡ false) × (r ≡ ok a)
unfolding unless_bad
unless_bad_ok true f r e = absurd (cc)
unless_bad_ok false f r e = (refl, e)

unfoldable accepted : {A : Type 0} → A → Checked A → A
accepted d (ok a) = a
accepted d (refused e) = d

list_of : {xs ys : List ProviderCfg} → ok xs ≡ ok ys → xs ≡ ys
unfolding accepted
list_of e = ap (accepted []) e

holds_of_negation : (b : Bool) → not b ≡ false → b ≡ true
holds_of_negation b h = ground arith

abbrev pub Supported : ProviderCfg → Type 0
Supported q = is_supported q.provider_type ≡ true

-- The filling of fields keeps the name and the type.
abbrev SameHead : ProviderCfg → ProviderCfg → Type 0
SameHead p q = (q.name ≡ p.name) × (q.provider_type ≡ p.provider_type)

abbrev Filled : ProviderCfg → Checked ProviderCfg → Type 0
Filled p (ok q) = SameHead p q
Filled p (refused e) = Unit

with_tunnel-Filled : (p : ProviderCfg) → Filled p (with_tunnel p)
unfolding with_tunnel unless_bad
with_tunnel-Filled p =
    if_cases (Filled p) (is_type "tunnel" p && no_urls p)
      (λ _.
        option_cases (Filled p) p.tunnel (λ _. tt)
          (λ t _. if_cases (Filled p) (str_eq t.gateway "") (λ _. tt) (λ _. (refl, refl))))
      (λ _. (refl, refl))

with_ip_pool-Filled : (p : ProviderCfg) → Filled p (with_ip_pool p)
unfolding with_ip_pool unless_bad
with_ip_pool-Filled p =
    if_cases (Filled p) ((is_type "ip_pool" p || is_type "sticky" p) && no_urls p)
      (λ _.
        option_cases (Filled p) p.ip_pool (λ _. tt)
          (λ i _. if_cases (Filled p) (str_eq i.extract_url "") (λ _. tt) (λ _. (refl, refl))))
      (λ _. (refl, refl))

with_sticky-SameHead : (p : ProviderCfg) → SameHead p (with_sticky p)
unfolding with_sticky
with_sticky-SameHead p =
    if_cases (SameHead p) (is_type "sticky" p && is_zero p.sticky_seconds) (λ _. (refl, refl))
      (λ _. (refl, refl))

with_free-Filled : (p : ProviderCfg) → Filled p (with_free p)
unfolding with_free unless_bad
with_free-Filled p =
    if_cases (Filled p) (is_type "free" p)
      (λ _.
        option_cases (Filled p) p.free (λ _. tt)
          (λ f _.
            if_cases (Filled p) (str_eq f.feed_url "") (λ _. tt)
              (λ _.
                if_cases (Filled p) (str_eq p.check_url "" && no_items p.check_urls) (λ _. tt)
                  (λ _. (refl, refl)))))
      (λ _. (refl, refl))

module _ ⦃fl : Float64⦄ where
  check_rest-Filled : (p : ProviderCfg) → Filled p (check_rest p)
  unfolding check_rest unless_bad
  check_rest-Filled p =
      if_cases (Filled p) (any is_blank_url p.check_urls) (λ _. tt)
        (λ _.
          if_cases (Filled p) (not (str_eq p.country "") && not (is_iso_alpha2 p.country)) (λ _. tt)
            (λ _. if_cases (Filled p) (bad_ratio p.min_alive_ratio) (λ _. tt) (λ _. (refl, refl))))

  -- What an accepted provider is.
  check_provider_ok :
      (seen : List String) (p : ProviderCfg) {q : ProviderCfg}
      → check_provider seen p ≡ ok q
      → (lists p.name seen ≡ false) × (is_supported q.provider_type ≡ true) × (q.name ≡ p.name)
  unfolding check_provider
  check_provider_ok seen p {q} e =
      let (named, e1) = unless_bad_ok (str_eq p.name "") _ _ e in
      let (new, e2) = unless_bad_ok (lists p.name seen) _ _ e1 in
      let (known, e3) = unless_bad_ok (not (is_supported p.provider_type)) _ _ e2 in
      let (a, ea, e4) = and_then_ok (with_tunnel p) _ e3 in
      let (b, eb, e5) = and_then_ok (with_ip_pool a) _ e4 in
      let (c, ec, e6) = and_then_ok (with_free (with_sticky b)) _ e5 in
      let (n1, t1) : SameHead p a = subst (Filled p) ea (with_tunnel-Filled p) in
      let (n2, t2) : SameHead a b = subst (Filled a) eb (with_ip_pool-Filled a) in
      let (n3, t3) = with_sticky-SameHead b in
      let (n4, t4) : SameHead (with_sticky b) c =
        subst (Filled (with_sticky b)) ec (with_free-Filled (with_sticky b)) in
      let (n5, t5) : SameHead c q = subst (Filled c) e6 (check_rest-Filled c) in
      let same : q.provider_type ≡ p.provider_type = t5 ∙ t4 ∙ t3 ∙ t2 ∙ t1 in
      let supported : is_supported p.provider_type ≡ true =
        holds_of_negation (is_supported p.provider_type) known in
      (new, ap is_supported same ∙ supported, n5 ∙ n4 ∙ n3 ∙ n2 ∙ n1)

  -- Accepted providers have supported types, and names that differ.
  pub check_providers_ok :
      (seen : List String) (ps : List ProviderCfg) {qs : List ProviderCfg}
      → check_providers seen ps ≡ ok qs
      → All (λ (q : ProviderCfg). is_supported q.provider_type ≡ true) qs × Fresh seen (names_of qs)
  unfolding check_providers
  check_providers_ok seen [] {qs} e =
      let nil = list_of e in
      (subst (All Supported) nil tt, subst (λ x. Fresh seen (names_of x)) nil tt)
  check_providers_ok seen (p ∷ ps) {qs} e =
      let (q, eq, e1) = and_then_ok (check_provider seen p) _ e in
      let (rest, er, e2) = and_then_ok (check_providers (p.name ∷ seen) ps) _ e1 in
      let (new, known, same) = check_provider_ok seen p eq in
      let (types, fresh) = check_providers_ok (p.name ∷ seen) ps er in
      let cons = list_of e2 in
      (
        subst (All Supported) cons (known, types),
        subst (λ x. Fresh seen (names_of x)) cons
            (
              ap (λ n. lists n seen) same ∙ new,
              subst (λ n. Fresh (n ∷ seen) (names_of rest)) (sym same) fresh,
            ),
      )
