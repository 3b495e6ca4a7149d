-- ===== src/Pool/Change.antt =====
-- The operations of internal/pool/pool.go that change proxies: `Add`, `Remove`, `SetCountry`,
-- `MarkFailed`, `MarkSuccess`, `SetAlive`, `RemoveExpired` and `RemoveByProvider`. Each runs to its end
-- before another call begins, which the locks of the code do not enforce: it calls `Rebuild` without
-- the lock of the map. Times are arguments, in nanoseconds. `fails` counts without the bound of int32.
use proxy_gateway.Prelude.{
  ℕ, ◌+◌, String, Bool, true, false, not, ◌&&◌, ◌||◌, List, [], ◌∷◌, none, some, ltb, leb, str_eq,
  if◌then◌else◌, length, ℤ, pos, is_pos, ltb_ℤ,
}
use proxy_gateway.Prelude.Dict.{lookup, insert, delete, keep_entries}
use proxy_gateway.Prelude.Float.{Float64}
use proxy_gateway.Model.{Proxy}
use proxy_gateway.Pool.State.{Pool, notify_state}
use proxy_gateway.Pool.Prio.{eq_ℤ}
use proxy_gateway.Pool.Rebuild.{rebuild}

-- `if pr.Weight <= 0 { pr.Weight = 1 }`
unfoldable pub normalised : Proxy → Proxy
normalised pr = if is_pos pr.weight then pr else record pr { weight = pos 1 }

-- The fields that `Add` copies to the object under the same ID; the others stay.
unfoldable pub merged : Proxy → Proxy → Proxy
merged old pr = record old {
  host = pr.host;
  port = pr.port;
  username = pr.username;
  password = pr.password;
  scheme = pr.scheme;
  provider = pr.provider;
  kind = pr.kind;
  weight = pr.weight;
  check_url = pr.check_url;
  check_urls = pr.check_urls;
  free = pr.free;
  priority = pr.priority;
  min_alive_ratio = pr.min_alive_ratio;
  sticky_seconds = pr.sticky_seconds;
}

-- The object under an ID after a change in place.
abbrev pub put : Pool → String → Proxy → Pool
put p id pr = record p { proxies = insert id pr p.proxies }

-- `ClearSticky`
unfoldable pub clear_sticky : Pool → String → Pool
clear_sticky p id = record p { sticky = keep_entries (λ k e. not (str_eq e.proxy_id id)) p.sticky }

-- `clearSWRR`
unfoldable pub clear_swrr : Pool → String → Pool
clear_swrr p id = record p { swrr = delete id p.swrr }

-- The loops of `RemoveByProvider` over the IDs it removed.
unfoldable pub clear_all_swrr : Pool → List String → Pool
clear_all_swrr p [] = p
clear_all_swrr p (id ∷ ids) = clear_all_swrr (clear_swrr p id) ids

unfoldable pub clear_all_sticky : Pool → List String → Pool
clear_all_sticky p [] = p
clear_all_sticky p (id ∷ ids) = clear_all_sticky (clear_sticky p id) ids

-- The IDs of the entries that pass a test.
unfoldable pub ids_where : (Proxy → Bool) → List (String × Proxy) → List String
ids_where t [] = []
ids_where t ((id, pr) ∷ m) = if t pr then id ∷ ids_where t m else ids_where t m

-- `pr.ExpireAt > 0 && pr.ExpireAt < now`
abbrev pub is_expired : ℕ → Proxy → Bool
is_expired now pr = is_pos pr.expire_at && ltb_ℤ pr.expire_at (pos now)

abbrev pub of_provider : String → Proxy → Bool
of_provider provider pr = str_eq pr.provider provider

-- `latencyMS > 0` stores it.
abbrev pub with_latency : ℤ → Proxy → Proxy
with_latency latency pr = if is_pos latency then record pr { latency_ms = latency } else pr

abbrev pub failed : ℤ → Proxy → Proxy
failed latency pr = with_latency latency (record pr { fails = pr.fails + 1 })

abbrev pub succeeded : ℕ → ℤ → Proxy → Proxy
succeeded now latency pr = record (with_latency latency (record pr { fails = 0 })) {
  last_used = pos now;
}

-- Whether a failure takes the proxy out: the third one, or any before the first success.
abbrev pub gives_up : Proxy → Bool
gives_up pr = leb 3 pr.fails || eq_ℤ pr.last_used (pos 0)

module _ ⦃fl : Float64⦄ where
  unfoldable pub add : Pool → Proxy → Pool
  add p pr =
      let n = normalised pr in
      elim (lookup pr.id p.proxies) [
        | none ↦ notify_state (rebuild (put p pr.id n)) pr.id false
        | some old ↦ notify_state (put p pr.id (merged old n)) pr.id false
      ]

  unfoldable pub remove : Pool → String → Pool × Bool
  remove p id = elim (lookup id p.proxies) [
    | none ↦ (p, false)
    | some pr ↦
        let q = clear_swrr (clear_sticky (record p { proxies = delete id p.proxies }) id) id in
        (notify_state (rebuild q) id true, true)
  ]

  unfoldable pub set_country : Pool → String → String → Pool
  set_country p id country = elim (lookup id p.proxies) [
    | none ↦ p
    | some pr ↦
        if str_eq pr.country country
        then p
        else notify_state (rebuild (put p id (record pr { country = country }))) id false
  ]

  unfoldable pub mark_failed : Pool → String → ℤ → Pool
  mark_failed p id latency = elim (lookup id p.proxies) [
    | none ↦ p
    | some pr ↦
        let f = failed latency pr in
        notify_state
          (if gives_up f then rebuild (put p id (record f { alive = false })) else put p id f) id
          false
  ]

  unfoldable pub mark_success : ℕ → Pool → String → ℤ → Pool
  mark_success now p id latency = elim (lookup id p.proxies) [
    | none ↦ p
    | some pr ↦
        let s = succeeded now latency pr in
        notify_state
          (if s.alive then put p id s else rebuild (put p id (record s { alive = true }))) id false
  ]

  unfoldable pub set_alive : Pool → String → Bool → Pool
  set_alive p id alive = elim (lookup id p.proxies) [
    | none ↦ p
    | some pr ↦ notify_state (rebuild (put p id (record pr { alive = alive }))) id false
  ]

  unfoldable pub remove_expired : ℕ → Pool → Pool × ℕ
  remove_expired now p =
      let removed = length (ids_where (is_expired now) p.proxies) in
      let q = record p { proxies = keep_entries (λ id pr. not (is_expired now pr)) p.proxies } in
      if ltb 0 removed then (rebuild q, removed) else (q, removed)

  unfoldable pub remove_by_provider : Pool → String → Pool × ℕ
  remove_by_provider p provider =
      let ids = ids_where (of_provider provider) p.proxies in
      let q = record p {
        proxies = keep_entries (λ id pr. not (of_provider provider pr)) p.proxies;
      } in
      if ltb 0 (length ids)
      then (rebuild (clear_all_sticky (clear_all_swrr q ids) ids), length ids)
      else (q, length ids)
