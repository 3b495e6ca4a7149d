-- ===== src/Server/Handout.antt =====
-- The handlers of internal/server/server.go that hand out proxies and take reports: `handleGetProxy`,
-- `handleGetProxies`, `handleReport` and `handleFeedback`, for requests that have been let in. The
-- text of an address is made by an argument.
use proxy_gateway.Prelude.{
  ℕ, zero, suc, String, Bool, true, false, not, ◌&&◌, List, [], ◌∷◌, Option, none, some, str_eq,
  if◌then◌else◌, ℤ, pos, is_pos, pos_part, ltb_ℤ,
}
use proxy_gateway.Prelude.Dict.{lookup}
use proxy_gateway.Prelude.Float.{Float64}
use proxy_gateway.Model.{Proxy}
use proxy_gateway.Config.{GroupCfg}
use proxy_gateway.Pool.State.{Pool}
use proxy_gateway.Pool.Search.{Pick, nil, panic, pick, Draws}
use proxy_gateway.Pool.Next.{next_excluding, next_in_group_excluding}
use proxy_gateway.Pool.Sticky.{sticky_next, choose}
use proxy_gateway.Pool.Change.{mark_success, mark_failed}
use proxy_gateway.Store.{Call}
use proxy_gateway.Server.{Caller, current_account, group_allowed}

-- What a handler has done: its status, the proxies of its answer, the pool afterwards, the record of
-- the call, and whether it reports that the pool is exhausted. A panic has no status.
pub record Handled : Type 0 where
  pub status : Option ℕ
  pub ids : List String
  pub pool : Pool
  pub recorded : Option Call
  pub exhausted : Bool

abbrev pub refuse : ℕ → Pool → Handled
refuse code p = record {
  status = some code;
  ids = [];
  pool = p;
  recorded = none;
  exhausted = false;
}

-- `recordCall`
unfoldable pub record_call : String → String → String → String → String → Option Call
record_call acct group provider id addr =
    if str_eq acct ""
    then none
    else some (record {
      account = acct;
      group = group;
      proxy_id = id;
      addr = addr;
      kind = if str_eq provider "" then "" else "proxy";
      ok = true;
    })

-- The number of proxies of a batch.
unfoldable pub batch_count : ℤ → ℕ
batch_count n = if is_pos n then (if ltb_ℤ (pos 100) n then 100 else pos_part n) else 1

-- The loop of `handleGetProxies`: the proxies in order, the pool, and whether a selection panicked.
pub record Taken : Type 0 where
  pub ids : List String
  pub pool : Pool
  pub crashed : Bool

abbrev pub take_one : String → Taken → Taken
take_one id t = record t { ids = id ∷ t.ids }

module _ ⦃fl : Float64⦄ where
  unfoldable pub select_one : Draws → Pool → String → List String → Pick × Pool
  select_one rnd p group exclude =
      if str_eq group ""
      then next_excluding rnd p exclude
      else next_in_group_excluding rnd p group exclude

  unfoldable pub take_batch : (ℕ → Draws) → String → ℕ → Pool → List String → Taken
  take_batch rnd group zero p exclude = record { ids = []; pool = p; crashed = false }
  take_batch rnd group (suc n) p exclude =
      let (out, q) = select_one (rnd n) p group exclude in
      elim out [
        | nil ↦ record { ids = []; pool = q; crashed = false }
        | panic ↦ record { ids = []; pool = q; crashed = true }
        | pick id ↦ take_one id (take_batch rnd group n q (id ∷ exclude))
      ]

  module _ (addr_of : Proxy → String) where
    -- The record of a call that handed out a proxy.
    unfoldable pub record_proxy : Pool → String → String → String → Option Call
    record_proxy p acct group id = elim (lookup id p.proxies) [
      | none ↦ none
      | some pr ↦ record_call acct group pr.provider pr.id (addr_of pr)
    ]

    -- The answer with these proxies.
    unfoldable pub answer : Caller → String → List String → Pool → Handled
    answer c group [] p = record {
      status = some 503;
      ids = [];
      pool = p;
      recorded = record_call (current_account c) group "" "" "";
      exhausted = true;
    }
    answer c group (id ∷ ids) p = record {
      status = some 200;
      ids = id ∷ ids;
      pool = p;
      recorded = record_proxy p (current_account c) group id;
      exhausted = false;
    }

    abbrev crash : Pool → Handled
    crash p = record { status = none; ids = []; pool = p; recorded = none; exhausted = false }

    -- `handleGetProxies`
    unfoldable pub get_proxies : (ℕ → Draws) → List GroupCfg → Caller → String → ℤ → Pool → Handled
    get_proxies rnd gs c group count p =
        if group_allowed gs c group
        then (let t = take_batch rnd group (batch_count count) p [] in
            if t.crashed then crash t.pool else answer c group t.ids t.pool)
        else refuse 403 p

    unfoldable pub answer_pick : Caller → String → Pick × Pool → Handled
    answer_pick c group (nil, p) = answer c group [] p
    answer_pick c group (panic, p) = crash p
    answer_pick c group (pick id, p) = answer c group (id ∷ []) p

    -- `handleGetProxy`, with the client and the seconds of a sticky session.
    unfoldable pub get_proxy :
        Draws → ℕ → List GroupCfg → Caller → String → String → ℤ → Pool → Handled
    get_proxy rnd now gs c group client seconds p =
        if group_allowed gs c group
        then if is_pos seconds && not (str_eq client "")
          then answer_pick c group (sticky_next rnd now p client seconds group)
          else answer_pick c group (choose rnd p group)
        else refuse 403 p

  -- `handleFeedback`, for a body that can be decoded; `handleReport` has the ID from the path.
  unfoldable pub take_report : ℕ → Pool → String → Bool → ℤ → Pool
  take_report now p id success latency =
      if success then mark_success now p id latency else mark_failed p id latency

  unfoldable pub feedback : ℕ → Pool → String → Bool → ℤ → Pool × ℕ
  feedback now p id success latency =
      if str_eq id "" then (p, 400) else (take_report now p id success latency, 200)
