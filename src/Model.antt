-- ===== src/Model.antt =====
-- internal/model/proxy.go: the proxy record, its kinds, and `Clone`. The fields that the program
-- reads and writes atomically are plain fields here. A float64 is its bit pattern; Prelude/Float
-- has its operations.
use proxy_gateway.Prelude.{ℕ, String, Bool, List, ℤ}

-- `KindTunnel`, `KindIPPool`, `KindSticky`, and the values of the type that are none of these.
pub data Kind : Type 0 where
  tunnel ip_pool sticky : Kind
  other_kind : ℕ → Kind

unfoldable pub kind_string : Kind → String
kind_string tunnel = "tunnel"
kind_string ip_pool = "ip_pool"
kind_string sticky = "sticky"
kind_string (other_kind k) = "unknown"

abbrev pub is_tunnel : Kind → Bool
is_tunnel tunnel = Bool.true
is_tunnel ip_pool = Bool.false
is_tunnel sticky = Bool.false
is_tunnel (other_kind k) = Bool.false

pub record Proxy : Type 0 where
  pub id : String
  pub provider : String
  pub kind : Kind
  pub scheme : String
  pub host : String
  pub port : ℤ
  pub username : String
  pub password : String
  pub weight : ℤ
  pub check_url : String
  pub check_urls : List String
  pub expire_at : ℤ
  pub check_interval_ms : ℤ
  pub priority : ℤ
  pub min_alive_ratio : ℕ
  pub sticky_seconds : ℤ
  pub free : Bool
  pub delete_latency_ms : ℤ
  pub country : String
  pub alive : Bool
  pub fails : ℕ
  pub latency_ms : ℤ
  pub last_used : ℤ
