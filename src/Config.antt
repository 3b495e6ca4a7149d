-- ===== src/Config.antt =====
-- internal/config/config.go: the definitions of scheduling groups, accounts and providers.
pub mod Defaults
pub mod Validate
pub mod Groups
pub mod Sound
pub mod Accepted
use proxy_gateway.Prelude.{
  ℕ, String, Bool, List, [], ◌∷◌, Option, none, some, ℤ, pos, negsuc, ◌==◌, str_eq, if◌then◌else◌,
}
use proxy_gateway.Text.{is_empty_text, trim_space}

-- One fallback pool of a group; `min_alive_ratio` is a float64.
pub record BackupPool : Type 0 where
  pub name : String
  pub min_alive_ratio : ℕ
  pub providers : List String

-- A weight map is an association list; a nil map is the empty list.
pub record GroupCfg : Type 0 where
  pub name : String
  pub group_type : String
  pub min_alive_ratio : ℕ
  pub primary : List String
  pub primary_weights : List (String × ℤ)
  pub backups : List BackupPool
  pub backup_weights : List (String × ℤ)
  pub regions : List String
  pub username : String
  pub password : String
  pub owner : String

-- `AccountCfg`. No groups, `nil`, is not the same as an empty list of groups.
pub record AccountCfg : Type 0 where
  pub name : String
  pub password : String
  pub token : String
  pub role : String
  pub enabled : Bool
  pub groups : Option (List String)

-- One health-check target. `enabled` may be left out.
pub record CheckUrlItem : Type 0 where
  pub name : String
  pub url : String
  pub enabled : Option Bool

-- `IsEnabled`
abbrev pub is_enabled : CheckUrlItem → Bool
is_enabled it = elim it.enabled [ none ↦ Bool.true | some b ↦ b ]

-- `EnabledCheckURLs`
unfoldable pub enabled_check_urls : List CheckUrlItem → List String
enabled_check_urls [] = []
enabled_check_urls (it ∷ its) =
    let rest = enabled_check_urls its in
    if is_enabled it
    then if is_empty_text (trim_space it.url) then rest else trim_space it.url ∷ rest
    else rest

pub record TunnelConfig : Type 0 where
  pub gateway : String
  pub port : ℤ
  pub scheme : String
  pub username : String
  pub password : String

pub record IpPoolConfig : Type 0 where
  pub extract_url : String
  pub refresh_seconds : ℤ
  pub expire_seconds : ℤ
  pub username : String
  pub password : String
  pub format : String
  pub max_proxies : ℤ

pub record FreePoolConfig : Type 0 where
  pub feed_url : String
  pub refresh_seconds : ℤ
  pub expire_seconds : ℤ
  pub max_proxies : ℤ
  pub max_speed_ms : ℤ
  pub delete_latency_ms : ℤ

-- A nil pointer to a part is `none`; `min_alive_ratio` is a float64.
pub record ProviderCfg : Type 0 where
  pub name : String
  pub provider_type : String
  pub enabled : Bool
  pub weight : ℤ
  pub priority : ℤ
  pub check_interval_s : ℤ
  pub min_alive_ratio : ℕ
  pub sticky_seconds : ℤ
  pub check_url : String
  pub check_urls : List CheckUrlItem
  pub country : String
  pub urls : List String
  pub tunnel : Option TunnelConfig
  pub ip_pool : Option IpPoolConfig
  pub free : Option FreePoolConfig
  pub owner : String
  pub is_public : Bool

pub record HealthConfig : Type 0 where
  pub interval_seconds : ℤ
  pub timeout_ms : ℤ
  pub concurrency : ℤ
  pub check_url : String
  pub check_urls : List CheckUrlItem
  pub max_fails : ℤ
  pub rebuild_interval_ms : ℤ

pub record Webhook : Type 0 where
  pub url : String
  pub secret : String
  pub events : List String
  pub remark : String

pub record EmailConfig : Type 0 where
  pub smtp_host : String
  pub smtp_port : ℤ
  pub username : String
  pub password : String
  pub from : String
  pub to : List String
  pub use_tls : Bool
  pub events : List String

pub record AlertConfig : Type 0 where
  pub webhooks : List Webhook
  pub email : EmailConfig
  pub dedup_seconds : ℤ
  pub monitor_seconds : ℤ
  pub recover_seconds : ℤ

pub record DbConfig : Type 0 where
  pub path : String
  pub batch_size : ℤ
  pub flush_interval_ms : ℤ

pub record ServerConfig : Type 0 where
  pub listen : String
  pub read_timeout : ℤ
  pub write_timeout : ℤ
  pub max_workers : ℤ
  pub gateway_listen : String

pub record GeoConfig : Type 0 where
  pub enabled : Bool
  pub url : String
  pub interval_secs : ℤ

pub record Settings : Type 0 where
  pub site_name : String
  pub registration_enabled : Bool
  pub theme_default : String
  pub health_check : HealthConfig

pub record Config : Type 0 where
  pub server : ServerConfig
  pub health_check : HealthConfig
  pub providers : List ProviderCfg
  pub groups : List GroupCfg
  pub accounts : List AccountCfg
  pub db : DbConfig
  pub alerts : AlertConfig
  pub geo : GeoConfig
  pub settings : Settings
  pub data_dir : String

-- The test for zero of an `int`.
abbrev pub is_zero : ℤ → Bool
is_zero (pos n) = n == 0
is_zero (negsuc n) = Bool.false

-- A number or a text where it is left out.
abbrev pub default_int : ℤ → ℤ → ℤ
default_int d v = if is_zero v then d else v

abbrev pub default_text : String → String → String
default_text d v = if str_eq v "" then d else v
