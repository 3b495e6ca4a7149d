-- ===== src/Pool/Effects.antt =====
-- What the changing operations of internal/pool/pool.go do to one proxy.
use proxy_gateway.Prelude.{
  ℕ, ◌+◌, ◌≡◌, refl, sym, ap, ◌∙◌, subst, ◌≢◌, inl, inr, String, Bool, true, false, not, ◌&&◌, List,
  [], ◌∷◌, none, some, arith, if◌then◌else◌, In, All, Bool-cases, if_cases, str_eq, str_eq_refl,
  str_eq_ne, str_eq_iff, ℤ, pos, is_pos,
}
use proxy_gateway.Prelude.Dict.{
  lookup, insert, delete, keep_entries, values, lookup-insert, lookup-delete,
}
use proxy_gateway.Prelude.Float.{Float64}
use proxy_gateway.Model.{Proxy}
use proxy_gateway.Pool.State.{Pool, LayerSnap, GroupSnap, StickyEntry, notify_state, live_in}
use proxy_gateway.Pool.Rebuild.{rebuild}
use proxy_gateway.Pool.Change.{
  clear_sticky, clear_swrr, failed, succeeded, gives_up, remove, mark_failed, mark_success,
}
use proxy_gateway.Pool.Coherent.{IsServing, Coherent}
use proxy_gateway.Pool.Keeps.{remove-Coherent}

notify_proxies :
    (p : Pool) (id : String) (removed : Bool) → (notify_state p id removed).proxies ≡ p.proxies
unfolding notify_state
notify_proxies p id removed =
    if_cases (λ (q : Pool). q.proxies ≡ p.proxies) p.has_sink (λ _. refl) (λ _. refl)

notify_swrr : (p : Pool) (id : String) (removed : Bool) → (notify_state p id removed).swrr ≡ p.swrr
unfolding notify_state
notify_swrr p id removed =
    if_cases (λ (q : Pool). q.swrr ≡ p.swrr) p.has_sink (λ _. refl) (λ _. refl)

notify_sticky :
    (p : Pool) (id : String) (removed : Bool) → (notify_state p id removed).sticky ≡ p.sticky
unfolding notify_state
notify_sticky p id removed =
    if_cases (λ (q : Pool). q.sticky ≡ p.sticky) p.has_sink (λ _. refl) (λ _. refl)

module _ ⦃fl : Float64⦄ where
  mark_failed_proxies :
      (p : Pool) (id : String) (latency : ℤ) {pr : Proxy}
      → lookup id p.proxies ≡ some pr
      → (mark_failed p id latency).proxies
        ≡ insert id
            (if gives_up (failed latency pr)
              then record (failed latency pr) { alive = false }
              else failed latency pr)
            p.proxies
  unfolding mark_failed rebuild
  mark_failed_proxies p id latency {pr} found =
      rw (found, mark_failed)
        (notify_proxies _ id false
          ∙ if_cases
              (λ (q : Pool).
                q.proxies
                ≡ insert id
                    (if gives_up (failed latency pr)
                      then record (failed latency pr) { alive = false }
                      else failed latency pr)
                    p.proxies)
              (gives_up (failed latency pr)) (λ e. rw e) (λ e. rw e))

  -- `MarkFailed`: the failure is counted and a positive latency stored. The proxy goes out of service
  -- at its third failure in a row, and at the first if it has never succeeded; until then it stays as
  -- it was. No other proxy changes.
  pub mark_failed_lem :
      (p : Pool) (id j : String) (latency : ℤ) {pr : Proxy}
      → lookup id p.proxies ≡ some pr
      → lookup j (mark_failed p id latency).proxies ≡ (
          if str_eq id j
          then some (record pr {
            fails = pr.fails + 1;
            latency_ms = if is_pos latency then latency else pr.latency_ms;
            alive = pr.alive && not (gives_up (record pr { fails = pr.fails + 1 }));
          })
          else lookup j p.proxies)
  mark_failed_lem p id j latency {pr} found =
      ap (lookup j) (mark_failed_proxies p id latency found)
      ∙ lookup-insert id j _ p.proxies
      ∙ ground arith

  mark_success_proxies :
      (now : ℕ) (p : Pool) (id : String) (latency : ℤ) {pr : Proxy}
      → lookup id p.proxies ≡ some pr
      → (mark_success now p id latency).proxies
        ≡ insert id (record (succeeded now latency pr) { alive = true }) p.proxies
  unfolding mark_success rebuild
  mark_success_proxies now p id latency {pr} found =
      rw (found, mark_success)
        (notify_proxies _ id false
          ∙ if_cases
              (λ (q : Pool).
                q.proxies
                ≡ insert id (record (succeeded now latency pr) { alive = true }) p.proxies)
              (succeeded now latency pr).alive
              (λ e. ap (λ (s : Proxy). insert id s p.proxies) (ground arith)) (λ _. refl))

  -- `MarkSuccess`: the proxy is in service again, its failures are forgotten, the time of the success
  -- and a positive latency are stored. No other proxy changes.
  pub mark_success_lem :
      (now : ℕ) (p : Pool) (id j : String) (latency : ℤ) {pr : Proxy}
      → lookup id p.proxies ≡ some pr
      → lookup j (mark_success now p id latency).proxies ≡ (
          if str_eq id j
          then some (record pr {
            fails = 0;
            latency_ms = if is_pos latency then latency else pr.latency_ms;
            last_used = pos now;
            alive = true;
          })
          else lookup j p.proxies)
  mark_success_lem now p id j latency {pr} found =
      ap (lookup j) (mark_success_proxies now p id latency found)
      ∙ lookup-insert id j _ p.proxies
      ∙ ground arith

sessions_cleared :
    (id : String) (m : List (String × StickyEntry))
    → All
        (λ (e : StickyEntry). e.proxy_id ≢ id)
        (values (keep_entries (λ k e. not (str_eq e.proxy_id id)) m))
unfolding keep_entries
sessions_cleared id [] = tt
sessions_cleared id ((k, e) ∷ m) = elim (Bool-cases (str_eq e.proxy_id id)) [
  | inl same ↦ rw same (sessions_cleared id m)
  | inr other ↦ rw other ((λ eq. cc ((str_eq_iff e.proxy_id id).1 eq)), sessions_cleared id m)
]

-- Serving tiers do not hold a proxy that is not live.
no_layer :
    (id : String) (q : Pool) (ls : List LayerSnap)
    → live_in q.proxies id ≡ false
    → All (IsServing q.proxies) ls
    → All (λ (l : LayerSnap). ¬ In id l.proxies) ls
no_layer id q [] dead a = tt
no_layer id q (l ∷ ls) dead ((valid, live), a) =
    (λ i. cc (live id i, dead), no_layer id q ls dead a)

no_tier :
    (id : String) (q : Pool)
    → live_in q.proxies id ≡ false
    → All (λ g. All (IsServing q.proxies) g.layers) q.snap.groups
    → All (λ g. All (λ (l : LayerSnap). ¬ In id l.proxies) g.layers) q.snap.groups
no_tier id q dead = each q.snap.groups
  where
    each :
        (gs : List GroupSnap)
        → All (λ g. All (IsServing q.proxies) g.layers) gs
        → All (λ g. All (λ (l : LayerSnap). ¬ In id l.proxies) g.layers) gs
    each [] a = tt
    each (g ∷ gs) (l, a) = (no_layer id q g.layers dead l, each gs a)

-- Neither the map, the list and the tiers of the snapshot, the weights nor the sessions of `q` have the
-- proxy; the other proxies are those of `p`.
pub record IsPurged (p q : Pool) (id : String) : Type 0 where
  pub gone : lookup id q.proxies ≡ none
  pub unlisted : ¬ In id q.snap.proxies
  pub untiered : All (λ g. All (λ (l : LayerSnap). ¬ In id l.proxies) g.layers) q.snap.groups
  pub unweighted : lookup id q.swrr ≡ none
  pub no_session : All (λ (e : StickyEntry). e.proxy_id ≢ id) (values q.sticky)
  pub others : (j : String) → j ≢ id → lookup j q.proxies ≡ lookup j p.proxies

module _ ⦃fl : Float64⦄ (p : Pool) (id : String) {pr : Proxy}
    (found : lookup id p.proxies ≡ some pr) where
  remove_fields :
      ((remove p id).0.proxies ≡ delete id p.proxies)
      × ((remove p id).0.swrr ≡ delete id p.swrr)
      × ((remove p id).0.sticky ≡ keep_entries (λ k e. not (str_eq e.proxy_id id)) p.sticky)
      × ((remove p id).1 ≡ true)
  unfolding remove rebuild clear_swrr clear_sticky
  remove_fields =
      rw (found, remove)
        (notify_proxies _ id true, notify_swrr _ id true, notify_sticky _ id true, refl)

  -- `Remove` of a proxy in a coherent pool reports success and leaves no trace of it: it is in the
  -- map, in the list and the tiers of the snapshot, in the weights and in the sessions no more. The
  -- other proxies stay.
  pub remove-IsPurged : Coherent p → ((remove p id).1 ≡ true) × IsPurged p (remove p id).0 id
  remove-IsPurged c =
      let (in_map, in_swrr, in_sticky, done) = remove_fields in
      let none_left : lookup id (remove p id).0.proxies ≡ none =
        ap (lookup id) in_map ∙ lookup-delete id id p.proxies ∙ rw (str_eq_refl id) in
      let dead : live_in (remove p id).0.proxies id ≡ false = unfold live_in in ground arith in
      (
        done,
        record {
          gone = none_left;
          unlisted = λ i. cc (((remove-Coherent p id c).listed id).0 i, dead);
          untiered = no_tier id (remove p id).0 dead (remove-Coherent p id c).tiers;
          unweighted = ap (lookup id) in_swrr ∙ lookup-delete id id p.swrr ∙ rw (str_eq_refl id);
          no_session =
              subst (λ m. All (λ (e : StickyEntry). e.proxy_id ≢ id) (values m)) (sym in_sticky)
                (sessions_cleared id p.sticky);
          others = λ j ne.
              ap (lookup j) in_map
              ∙ lookup-delete id j p.proxies
              ∙ rw (str_eq_ne id j (λ e. ne (sym e)));
        },
      )
