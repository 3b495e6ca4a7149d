-- ===== src/Pool/State.antt =====
-- The state of internal/pool/pool.go. A pointer to a proxy object is the ID under which the pool
-- keeps the object: the operations change objects in place under an ID and never keep two of one ID.
use proxy_gateway.Prelude.{ℕ, String, Bool, List, [], ◌∷◌, Option, none, some, ℤ, pos}
use proxy_gateway.Prelude.{◌+◌, ◌%◌, ◌^◌, if◌then◌else◌}
use proxy_gateway.Prelude.Dict.{lookup}
use proxy_gateway.Model.{Proxy}
use proxy_gateway.Config.{GroupCfg}

-- One run of equal priorities, an interval of the snapshot's proxies.
pub record PrioGroup : Type 0 where
  pub priority : ℤ
  pub start : ℕ
  pub end : ℕ
  pub alive_total : ℕ
  pub alive_count : ℕ
  pub min_ratio : ℕ
  pub cum_w : List ℕ
  pub total_w : ℕ

-- One tier of a named group.
pub record LayerSnap : Type 0 where
  pub name : String
  pub proxies : List String
  pub alive_total : ℕ
  pub alive_count : ℕ
  pub min_ratio : ℕ
  pub use_swrr : Bool
  pub weight : List ℕ
  pub cum_w : List ℕ
  pub total_w : ℕ
  pub ref_latency : ℕ

pub record GroupSnap : Type 0 where
  pub name : String
  pub layers : List LayerSnap

pub record Snapshot : Type 0 where
  pub proxies : List String
  pub prio : List PrioGroup
  pub groups : List GroupSnap

-- `expire_at` is a time in nanoseconds, an int64.
pub record StickyEntry : Type 0 where
  pub proxy_id : String
  pub expire_at : ℤ

-- `notices` are the calls of the state sink so far, newest first, with its argument `removed`.
pub record Pool : Type 0 where
  pub proxies : List (String × Proxy)
  pub snap : Snapshot
  pub seq : ℕ
  pub sticky : List (String × StickyEntry)
  pub groups_cfg : List GroupCfg
  pub swrr : List (String × ℤ)
  pub has_sink : Bool
  pub notices : List (String × Bool)

abbrev pub empty_snapshot : Snapshot
empty_snapshot = record { proxies = []; prio = []; groups = [] }

-- `NewPool`
unfoldable pub new_pool : Pool
new_pool = record {
  proxies = [];
  snap = empty_snapshot;
  seq = 0;
  sticky = [];
  groups_cfg = [];
  swrr = [];
  has_sink = Bool.false;
  notices = [];
}

-- `SetStateSink`, with a function or with nil.
unfoldable pub set_state_sink : Pool → Bool → Pool
set_state_sink p installed = record p { has_sink = installed }

-- `notifyState`, for a proxy that is not nil.
unfoldable pub notify_state : Pool → String → Bool → Pool
notify_state p id removed =
    if p.has_sink then record p { notices = (id, removed) ∷ p.notices } else p

-- `Get`
abbrev pub get : Pool → String → Option Proxy
get p id = lookup id p.proxies

-- `pr.LatencyMS.Load()` through a pointer of the snapshot.
unfoldable pub latency_of : Pool → String → ℤ
latency_of p id = elim (lookup id p.proxies) [ none ↦ pos 0 | some pr ↦ pr.latency_ms ]

-- `pr := p.Get(id)` and `pr != nil && pr.Alive.Load()`
unfoldable pub live_in : List (String × Proxy) → String → Bool
live_in m id = elim (lookup id m) [ none ↦ Bool.false | some pr ↦ pr.alive ]

abbrev pub is_live : Pool → String → Bool
is_live p id = live_in p.proxies id

-- `p.seq.Add(1)` on a uint64.
abbrev pub bump_seq : ℕ → ℕ
bump_seq n = (n + 1) % 2 ^ 64
