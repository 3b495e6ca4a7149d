-- ===== src/Pool/History.antt =====
-- Histories of internal/pool/pool.go: any sequence of its operations, each of which runs to its
-- end before the next begins. Calls that overlap are not modelled.
use proxy_gateway.Prelude.{ℕ, sym, subst, String, Bool, List, [], ◌∷◌, All, ℤ, arith}
use proxy_gateway.Prelude.Dict.{lookup}
use proxy_gateway.Prelude.Float.{Float64}
use proxy_gateway.Model.{Proxy}
use proxy_gateway.Config.{GroupCfg}
use proxy_gateway.Pool.State.{Pool, new_pool, set_state_sink, live_in}
use proxy_gateway.Pool.Rebuild.{set_groups}
use proxy_gateway.Pool.Search.{Draws}
use proxy_gateway.Pool.Next.{next_excluding, next_in_group_excluding}
use proxy_gateway.Pool.Next.Safe.{IsBounded, OnlySwrr}
use proxy_gateway.Pool.Change.{
  add, remove, set_country, mark_failed, mark_success, set_alive, remove_expired,
  remove_by_provider, clear_sticky,
}
use proxy_gateway.Pool.Sticky.{sticky_next}
use proxy_gateway.Pool.Coherent.{IsCoherent, Coherent, rebuild-Coherent}
use proxy_gateway.Pool.Keeps.{
  add-Coherent, remove-Coherent, set_country-Coherent, set_alive-Coherent, mark_failed-Coherent,
  mark_success-Coherent, remove_expired-Coherent, remove_by_provider-Coherent,
}
use proxy_gateway.Pool.Serve.{next_excluding-Serves, next_in_group_excluding-Serves}
use proxy_gateway.Pool.Session.{SameProxies, sticky_next-Live}

-- A call, with the time and the random numbers that it meets.
pub data Call : Type 0 where
  sets_groups : List GroupCfg → Call
  sets_sink : Bool → Call
  adds : Proxy → Call
  removes : String → Call
  sets_country : String → String → Call
  marks_failed : String → ℤ → Call
  marks_success : ℕ → String → ℤ → Call
  sets_alive : String → Bool → Call
  removes_expired : ℕ → Call
  removes_provider : String → Call
  clears_sticky : String → Call
  nexts : Draws → List String → Call
  nexts_in_group : Draws → String → List String → Call
  nexts_sticky : Draws → ℕ → String → ℤ → String → Call

-- The random numbers of a call stay below their bounds.
abbrev pub IsFairCall : Call → Type 0
IsFairCall (nexts rnd exclude) = IsBounded rnd
IsFairCall (nexts_in_group rnd group exclude) = IsBounded rnd
IsFairCall (nexts_sticky rnd now client seconds group) = IsBounded rnd
IsFairCall (sets_groups cfg) = Unit
IsFairCall (sets_sink b) = Unit
IsFairCall (adds pr) = Unit
IsFairCall (removes id) = Unit
IsFairCall (sets_country id country) = Unit
IsFairCall (marks_failed id latency) = Unit
IsFairCall (marks_success now id latency) = Unit
IsFairCall (sets_alive id alive) = Unit
IsFairCall (removes_expired now) = Unit
IsFairCall (removes_provider provider) = Unit
IsFairCall (clears_sticky id) = Unit

module _ ⦃fl : Float64⦄ where
  unfoldable pub step : Pool → Call → Pool
  step p (sets_groups cfg) = set_groups p cfg
  step p (sets_sink b) = set_state_sink p b
  step p (adds pr) = add p pr
  step p (removes id) = (remove p id).0
  step p (sets_country id country) = set_country p id country
  step p (marks_failed id latency) = mark_failed p id latency
  step p (marks_success now id latency) = mark_success now p id latency
  step p (sets_alive id alive) = set_alive p id alive
  step p (removes_expired now) = (remove_expired now p).0
  step p (removes_provider provider) = (remove_by_provider p provider).0
  step p (clears_sticky id) = clear_sticky p id
  step p (nexts rnd exclude) = (next_excluding rnd p exclude).1
  step p (nexts_in_group rnd group exclude) = (next_in_group_excluding rnd p group exclude).1
  step p (nexts_sticky rnd now client seconds group) =
      (sticky_next rnd now p client seconds group).1

  unfoldable pub run : Pool → List Call → Pool
  run p [] = p
  run p (c ∷ cs) = run (step p c) cs

  OnlySwrr-Coherent : (p q : Pool) → OnlySwrr p q → Coherent p → Coherent q
  OnlySwrr-Coherent p q e c = subst Coherent (sym e) c

  same_Coherent : (p q : Pool) → SameProxies p q → Coherent p → Coherent q
  same_Coherent p q e c =
      subst (λ m. IsCoherent m q.snap) (sym e.0) (subst (λ s. IsCoherent p.proxies s) (sym e.1) c)

  pub step-Coherent : (p : Pool) (c : Call) → IsFairCall c → Coherent p → Coherent (step p c)
  unfolding step set_groups set_state_sink clear_sticky
  step-Coherent p (sets_groups cfg) f c = rebuild-Coherent (record p { groups_cfg = cfg }) c.keyed
  step-Coherent p (sets_sink b) f c = c
  step-Coherent p (adds pr) f c = add-Coherent p pr c
  step-Coherent p (removes id) f c = remove-Coherent p id c
  step-Coherent p (sets_country id country) f c = set_country-Coherent p id country c
  step-Coherent p (marks_failed id latency) f c = mark_failed-Coherent p id latency c
  step-Coherent p (marks_success now id latency) f c = mark_success-Coherent now p id latency c
  step-Coherent p (sets_alive id alive) f c = set_alive-Coherent p id alive c
  step-Coherent p (removes_expired now) f c = remove_expired-Coherent now p c
  step-Coherent p (removes_provider provider) f c = remove_by_provider-Coherent p provider c
  step-Coherent p (clears_sticky id) f c = c
  step-Coherent p (nexts rnd exclude) f c =
      OnlySwrr-Coherent p _ (next_excluding-Serves rnd p exclude f c).1 c
  step-Coherent p (nexts_in_group rnd group exclude) f c =
      OnlySwrr-Coherent p _ (next_in_group_excluding-Serves rnd p group exclude f c).1 c
  step-Coherent p (nexts_sticky rnd now client seconds group) f c =
      same_Coherent p (sticky_next rnd now p client seconds group).1
        (sticky_next-Live rnd now p client seconds group f c).1 c

  pub run-Coherent :
      (cs : List Call) (p : Pool) → All IsFairCall cs → Coherent p → Coherent (run p cs)
  unfolding run
  run-Coherent [] p f c = c
  run-Coherent (x ∷ cs) p f c = run-Coherent cs (step p x) f.1 (step-Coherent p x f.0 c)

  pub new_pool-Coherent : Coherent new_pool
  unfolding new_pool live_in lookup
  new_pool-Coherent = record {
    keyed = tt;
    listed = λ id. (λ h. absurd h, λ h. ground arith);
    tiers = tt;
    shares = tt;
  }

  -- After any history of calls on a new pool the snapshot lists exactly the proxies of the map that
  -- are alive, each tier of each group is well formed and holds live proxies only, each legacy group
  -- has its weights within the list, and each proxy stands in the map under its own ID with a
  -- positive weight.
  pub history-Coherent : (cs : List Call) → All IsFairCall cs → Coherent (run new_pool cs)
  history-Coherent cs f = run-Coherent cs new_pool f new_pool-Coherent
