-- ===== src/Tests/Config.antt =====
-- A concrete configuration that is accepted.
use proxy_gateway.Prelude.{◌≡◌, refl, false, List, [], ◌∷◌, some, pos}
use proxy_gateway.Config.{ProviderCfg, HealthConfig, Config}
use proxy_gateway.Config.Defaults.{
  apply_defaults, server_defaults, health_defaults, alert_defaults, db_defaults, geo_defaults,
  settings_defaults, valid_theme, default_urls, default_check_urls,
}
use proxy_gateway.Config.Validate.{
  ok, refused, primary_unknown, and_then, unless_bad, with_tunnel, with_ip_pool, with_sticky,
  with_free, check_rest, check_provider, check_providers,
}
use proxy_gateway.Config.Groups.{
  validate, check_groups, check_group, check_weights, check_backups, check_accounts,
}
use proxy_gateway.Config.Accepted.{IsAccepted, validate-IsAccepted}
use proxy_gateway.Manager.{Manager, new_manager}
use proxy_gateway.Manager.Start.{new_manager-validate}
use proxy_gateway.Text.{trim_space, trim_left, trim_right, is_space}
use proxy_gateway.Tests.{milli, home}
use proxy_gateway.Tests.Manager.{paid}

abbrev no_health : HealthConfig
no_health = record {
  interval_seconds = pos 0;
  timeout_ms = pos 0;
  concurrency = pos 0;
  check_url = "";
  check_urls = [];
  max_fails = pos 0;
  rebuild_interval_ms = pos 0;
}

abbrev fixed : ProviderCfg
fixed = record paid { provider_type = "sticky"; urls = "h:1" ∷ [] }

-- The file as it is read, with these providers.
abbrev given : List ProviderCfg → Config
given ps = record {
  server = record {
    listen = "";
    read_timeout = pos 0;
    write_timeout = pos 0;
    max_workers = pos 0;
    gateway_listen = "";
  };
  health_check = no_health;
  providers = ps;
  groups = home ∷ [];
  accounts = [];
  db = record { path = ""; batch_size = pos 0; flush_interval_ms = pos 0 };
  alerts = record {
    webhooks = [];
    email = record {
      smtp_host = "";
      smtp_port = pos 0;
      username = "";
      password = "";
      from = "";
      to = [];
      use_tls = false;
      events = [];
    };
    dedup_seconds = pos 0;
    monitor_seconds = pos 0;
    recover_seconds = pos 0;
  };
  geo = record { enabled = false; url = ""; interval_secs = pos 0 };
  settings = record {
    site_name = "";
    registration_enabled = false;
    theme_default = "";
    health_check = no_health;
  };
  data_dir = "";
}

abbrev complete : Config
complete = record (apply_defaults (given [])) {
  providers = record fixed { sticky_seconds = pos 60 } ∷ [];
}

-- What the check computes with.
checking : Unit {0}
unfolding apply_defaults server_defaults health_defaults alert_defaults db_defaults geo_defaults
    settings_defaults valid_theme default_urls default_check_urls and_then unless_bad with_tunnel
    with_ip_pool with_sticky with_free check_rest check_provider check_providers validate
    check_groups check_group check_weights check_backups check_accounts trim_space trim_left
    trim_right is_space
checking = tt

is_complete : validate (apply_defaults (given (fixed ∷ []))) ≡ ok complete
unfolding checking
is_complete = refl

unknown_refused : validate (apply_defaults (given [])) ≡ refused primary_unknown
unfolding checking
unknown_refused = refl

validate-IsAccepted_example : IsAccepted complete
validate-IsAccepted_example = validate-IsAccepted (apply_defaults (given (fixed ∷ []))) is_complete

new_manager-validate_example : (m : Manager) × (new_manager complete.providers ≡ some m)
new_manager-validate_example =
    new_manager-validate (apply_defaults (given (fixed ∷ []))) is_complete
