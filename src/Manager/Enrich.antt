-- ===== src/Manager/Enrich.antt =====
-- What `enrichOnce` of internal/pool/manager.go does to the proxies.
use proxy_gateway.Prelude.{
  lists, ◌≡◌, refl, ◌∙◌, subst, inl, inr, String, Bool, false, ◌&&◌, List, [], ◌∷◌, ◌++◌, Option,
  none, some, str_eq, str_eq_iff, if_cases, option_cases, list_cases, arith, Bool-cases,
}
use proxy_gateway.Prelude.Dict.{lookup, insert, lookup-insert, keys}
use proxy_gateway.Prelude.Float.{Float64}
use proxy_gateway.Model.{Proxy}
use proxy_gateway.Geo.{GeoResult, country_in, lookup_countries}
use proxy_gateway.Pool.State.{Pool, notify_state}
use proxy_gateway.Pool.Rebuild.{rebuild}
use proxy_gateway.Pool.Change.{set_country}
use proxy_gateway.Pool.Keyed.{Keyed}
use proxy_gateway.Pool.Coherent.{Coherent}
use proxy_gateway.Pool.Keeps.{set_country-Coherent}
use proxy_gateway.Pool.Report.{ids_at, unresolved_loop, unresolved_countries}
use proxy_gateway.Manager.Report.{set_countries, enrich_loop, enrich_once}

-- The ID is not listed under any address.
abbrev Avoids : String → List (String × List String) → Type 0
Avoids id [] = Unit
Avoids id ((ip, ids) ∷ m) = (lists id ids ≡ false) × Avoids id m

-- No object under the ID lacks a country.
abbrev Settled : String → List (String × Proxy) → Type 0
Settled id [] = Unit
Settled id ((j, pr) ∷ m) = ((str_eq j id && str_eq pr.country "") ≡ false) × Settled id m

absent-Settled : (id : String) (m : List (String × Proxy)) → lookup id m ≡ none → Settled id m
unfolding lookup
absent-Settled id [] h = tt
absent-Settled id ((j, pr) ∷ m) h = (ground arith, absent-Settled id m (ground arith))

found-Settled :
    (id : String) (m : List (String × Proxy)) {pr : Proxy}
    → Keyed m
    → lookup id m ≡ some pr
    → str_eq pr.country "" ≡ false
    → Settled id m
unfolding lookup
found-Settled id [] d h c = absurd (cc)
found-Settled id ((j, q) ∷ m) {pr} (i, v, absent, d) h c = elim (Bool-cases (str_eq j id)) [
  | inl same ↦
      let e : j ≡ id = (str_eq_iff j id).0 same in
      let q_pr : q ≡ pr = cc (rw same at h) in
      (ground (arith, q_pr), absent-Settled id m (rw e at absent))
  | inr other ↦ (ground (arith, other), found-Settled id m d (rw other at h) c)
]

lists-append :
    (id x : String) (ids : List String)
    → lists id ids ≡ false
    → str_eq x id ≡ false
    → lists id (ids ++ (x ∷ [])) ≡ false
lists-append id x [] h n = ground (arith, n)
lists-append id x (y ∷ ids) h n = ground (arith, lists-append id x ids)

ids_at-Avoids :
    (id ip : String) (m : List (String × List String))
    → Avoids id m
    → lists id (ids_at ip m) ≡ false
unfolding ids_at lookup
ids_at-Avoids id ip [] a = refl
ids_at-Avoids id ip ((j, ids) ∷ m) (n, a) = ground (arith, ids_at-Avoids id ip m a, n)

insert-Avoids :
    (id ip : String) (ids : List String) (m : List (String × List String))
    → lists id ids ≡ false
    → Avoids id m
    → Avoids id (insert ip ids m)
unfolding insert
insert-Avoids id ip ids [] n a = (n, tt)
insert-Avoids id ip ids ((j, js) ∷ m) n (k, a) =
    if_cases (Avoids id) (str_eq j ip) (λ _. (n, a)) (λ _. (k, insert-Avoids id ip ids m n a))

unresolved_loop-Avoids :
    (id : String) (m : List (String × Proxy)) (out : List (String × List String))
    → Settled id m
    → Avoids id out
    → Avoids id (unresolved_loop out m)
unfolding unresolved_loop
unresolved_loop-Avoids id [] out s a = a
unresolved_loop-Avoids id ((j, pr) ∷ m) out (n, s) a = unresolved_loop-Avoids id m _ s (
    if_cases (Avoids id) (str_eq pr.country "")
      (λ blank.
        insert-Avoids id pr.host _ out
          (lists-append id j (ids_at pr.host out) (ids_at-Avoids id pr.host out a)
            (ground (arith, n, blank)))
          a)
      (λ _. a))

module _ ⦃fl : Float64⦄ where
  lookup-set_country :
      (p : Pool) (j id country : String)
      → str_eq j id ≡ false
      → lookup id (set_country p j country).proxies ≡ lookup id p.proxies
  unfolding set_country notify_state rebuild
  lookup-set_country p j id country n =
      option_cases Same (lookup j p.proxies) (λ _. refl)
        (λ pr _.
          let put = lookup-insert j id (record pr { country = country }) p.proxies ∙ rw n refl in
          if_cases Same (str_eq pr.country country) (λ _. refl)
            (λ _. if_cases Same p.has_sink (λ _. put) (λ _. put)))
    where
      Same : Pool → Type 0
      Same q = lookup id q.proxies ≡ lookup id p.proxies

  lookup-set_countries :
      (ids : List String) (country : String) (p : Pool) (id : String)
      → lists id ids ≡ false
      → lookup id (set_countries ids country p).proxies ≡ lookup id p.proxies
  unfolding set_countries
  lookup-set_countries [] country p id n = refl
  lookup-set_countries (j ∷ ids) country p id n =
      lookup-set_countries ids country (set_country p j country) id (ground arith)
      ∙ lookup-set_country p j id country (ground arith)

  lookup-enrich_loop :
      (resolved : List (String × String)) (entries : List (String × List String)) (p : Pool)
      (id : String)
      → Avoids id entries
      → lookup id (enrich_loop resolved entries p).proxies ≡ lookup id p.proxies
  unfolding enrich_loop
  lookup-enrich_loop resolved [] p id a = refl
  lookup-enrich_loop resolved ((ip, ids) ∷ rest) p id (n, a) =
      lookup-enrich_loop resolved rest _ id a
      ∙ if_cases (λ (q : Pool). lookup id q.proxies ≡ lookup id p.proxies)
          (str_eq (country_in resolved ip) "") (λ _. refl)
          (λ _. lookup-set_countries ids (country_in resolved ip) p id n)

  set_countries-Coherent :
      (ids : List String) (country : String) (p : Pool)
      → Coherent p
      → Coherent (set_countries ids country p)
  unfolding set_countries
  set_countries-Coherent [] country p c = c
  set_countries-Coherent (id ∷ ids) country p c =
      set_countries-Coherent ids country (set_country p id country)
        (set_country-Coherent p id country c)

  enrich_loop-Coherent :
      (resolved : List (String × String)) (entries : List (String × List String)) (p : Pool)
      → Coherent p
      → Coherent (enrich_loop resolved entries p)
  unfolding enrich_loop
  enrich_loop-Coherent resolved [] p c = c
  enrich_loop-Coherent resolved ((ip, ids) ∷ rest) p c = enrich_loop-Coherent resolved rest _ (
      if_cases Coherent (str_eq (country_in resolved ip) "") (λ _. c)
        (λ _. set_countries-Coherent ids (country_in resolved ip) p c))

  -- A round of the country lookup keeps the pool coherent and leaves every proxy that has a country
  -- as it is, whatever the service answers.
  pub enrich_once-Coherent :
      (is_public : String → Bool) (answer : Option (List GeoResult))
      (cache : List (String × String)) (p : Pool) (id : String) {pr : Proxy}
      → Coherent p
      → lookup id p.proxies ≡ some pr
      → str_eq pr.country "" ≡ false
      → Coherent (enrich_once is_public answer cache p).0
        × (lookup id (enrich_once is_public answer cache p).0.proxies ≡ some pr)
  unfolding enrich_once unresolved_countries
  enrich_once-Coherent is_public answer cache p id {pr} c found known =
      let avoids =
        unresolved_loop-Avoids id p.proxies [] (found-Settled id p.proxies c.keyed found known)
          tt in
      list_cases
        (λ (out : Pool × List (String × String)).
          Coherent out.0 × (lookup id out.0.proxies ≡ some pr))
        (unresolved_loop [] p.proxies) (λ _. (c, found))
        (λ entry rest e.
          let resolved = (lookup_countries is_public answer cache (keys (entry ∷ rest))).0 in
          (
            enrich_loop-Coherent resolved (entry ∷ rest) p c,
            lookup-enrich_loop resolved (entry ∷ rest) p id (subst (Avoids id) e avoids) ∙ found,
          ))
