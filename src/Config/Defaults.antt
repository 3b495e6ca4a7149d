-- ===== src/Config/Defaults.antt =====
-- `applyDefaults` and `defaultCheckURLs` of internal/config/config.go.
use proxy_gateway.Prelude.{String, true, ◌||◌, List, [], ◌∷◌, some, str_eq, if◌then◌else◌, pos}
use proxy_gateway.Config.{
  CheckUrlItem, HealthConfig, ServerConfig, DbConfig, GeoConfig, Settings, AlertConfig, Config,
  default_int, default_text, is_zero,
}

abbrev target : String → String → CheckUrlItem
target name url = record { name = name; url = url; enabled = some true }

unfoldable pub default_check_urls : List CheckUrlItem
default_check_urls =
    target "ipapi-cc" "http://ip-api.com/line/?fields=countryCode"
    ∷ target "ipapi-json" "http://ip-api.com/json/?fields=countryCode,query"
    ∷ target "ipify" "https://api.ipify.org"
    ∷ target "ipsb" "https://ip.sb"
    ∷ target "icanhazip" "https://icanhazip.com"
    ∷ []

unfoldable pub default_urls : List CheckUrlItem → List CheckUrlItem
default_urls [] = default_check_urls
default_urls (it ∷ its) = it ∷ its

unfoldable pub server_defaults : ServerConfig → ServerConfig
server_defaults s = record s {
  listen = default_text ":8080" s.listen;
  read_timeout = default_int (pos 3000) s.read_timeout;
  write_timeout = default_int (pos 3000) s.write_timeout;
  max_workers = default_int (pos 4096) s.max_workers;
}

unfoldable pub health_defaults : HealthConfig → HealthConfig
health_defaults h = record h {
  interval_seconds = default_int (pos 30) h.interval_seconds;
  timeout_ms = default_int (pos 5000) h.timeout_ms;
  concurrency = default_int (pos 64) h.concurrency;
  check_url = default_text "http://httpbin.org/ip" h.check_url;
  check_urls = default_urls h.check_urls;
  max_fails = default_int (pos 3) h.max_fails;
  rebuild_interval_ms = default_int (pos 200) h.rebuild_interval_ms;
}

unfoldable pub alert_defaults : AlertConfig → AlertConfig
alert_defaults a = record a {
  dedup_seconds = default_int (pos 300) a.dedup_seconds;
  monitor_seconds = default_int (pos 15) a.monitor_seconds;
  recover_seconds = default_int (pos 3600) a.recover_seconds;
  email = record a.email { smtp_port = default_int (pos 587) a.email.smtp_port };
}

unfoldable pub db_defaults : DbConfig → DbConfig
db_defaults d = record d {
  batch_size = default_int (pos 200) d.batch_size;
  flush_interval_ms = default_int (pos 1000) d.flush_interval_ms;
}

unfoldable pub geo_defaults : GeoConfig → GeoConfig
geo_defaults g = record g {
  interval_secs = default_int (pos 60) g.interval_secs;
  url = default_text "http://ip-api.com/batch" g.url;
}

unfoldable pub valid_theme : String → String
valid_theme t = if str_eq t "dark" || str_eq t "light" then t else "dark"

-- The settings, for the health checks of the configuration.
unfoldable pub settings_defaults : HealthConfig → Settings → Settings
settings_defaults h s = record s {
  site_name = default_text "Proxy Pool" s.site_name;
  theme_default = valid_theme s.theme_default;
  health_check = if is_zero s.health_check.interval_seconds then h else s.health_check;
}

-- `applyDefaults`
unfoldable pub apply_defaults : Config → Config
apply_defaults c = record c {
  server = server_defaults c.server;
  health_check = health_defaults c.health_check;
  alerts = alert_defaults c.alerts;
  db = db_defaults c.db;
  geo = geo_defaults c.geo;
  data_dir = default_text "data" c.data_dir;
  settings = settings_defaults (health_defaults c.health_check) c.settings;
}
