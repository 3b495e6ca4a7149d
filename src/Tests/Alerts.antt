-- ===== src/Tests/Alerts.antt =====
-- A concrete run of the monitor of providers.
use proxy_gateway.Prelude.{
  keep, inr, inl, String, false, none, arith, pos, ℕ, ◌≡◌, refl, true, List, [], ◌∷◌,
}
use proxy_gateway.Prelude.Dict.{lookup, insert, delete}
use proxy_gateway.Alert.{
  ProviderInfo, provider_down, provider_recovered, new_monitor, was_down, attempt, is_provider_down,
  note_state, report, check_one,
}
use proxy_gateway.Alert.Alternate.{Alternates, is_about, watch, watch-Alternates}
use proxy_gateway.Config.{Webhook}
use proxy_gateway.Alert.Dispatch.{
  Dispatcher, Alarm, new_dispatcher, emit, is_repeated, cleared_key, clear_opposite, dedup_key,
}
use proxy_gateway.Alert.Quiet.{emit_all, emit_quiet, clears}
use proxy_gateway.Text.{append_text}
use proxy_gateway.Tests.{milli}

abbrev info : ℕ → ProviderInfo
info alive = record {
  name = "paid";
  provider_type = "ip_pool";
  enabled = true;
  alive = alive;
  total = 4;
  min_alive_ratio = 500;
}

-- A time, the interval of recovery, and what the pool reports.
abbrev seen : List (ℕ × ℕ × ProviderInfo)
seen =
    (1, 10, info 4)
    ∷ (2, 10, info 1)
    ∷ (2, 10, record (info 0) { name = "other" })
    ∷ (3, 10, info 0)
    ∷ (4, 10, info 2)
    ∷ []

three_events :
    (watch new_monitor seen).1
    ≡ provider_down "paid" ∷ provider_down "other" ∷ provider_recovered "paid" ∷ []
unfolding watch check_one report note_state attempt is_provider_down was_down lookup insert delete
three_events = refl

watch-Alternates_example :
    Alternates "paid"
      (was_down new_monitor "paid")
      (was_down (watch new_monitor seen).0 "paid")
      (keep (is_about "paid") (watch new_monitor seen).1)
watch-Alternates_example =
    watch-Alternates "paid" seen new_monitor
      (inr refl, (inr refl, (inl refl, (inr refl, (inr refl, tt)))))

abbrev hook : Webhook
hook = record { url = "http://hook"; secret = ""; events = []; remark = "" }

abbrev ringing : Dispatcher
ringing = new_dispatcher (record {
  webhooks = hook ∷ [];
  email = record {
    smtp_host = "";
    smtp_port = pos 0;
    username = "";
    password = "";
    from = "";
    to = [];
    use_tls = false;
    events = [];
  };
  dedup_seconds = pos 300;
  monitor_seconds = pos 15;
  recover_seconds = pos 60;
})

abbrev down : String → Alarm
down name = record { event_type = "provider_down"; provider = name }

emit_quiet_example :
    (emit 9 (emit_all (emit 5 ringing (down "paid")).0 ((7, down "other") ∷ [])) (down "paid")).1
    ≡ none
unfolding new_dispatcher emit is_repeated lookup delete cleared_key clear_opposite dedup_key
    append_text clears
emit_quiet_example =
    emit_quiet 5 9 ringing (down "paid") ((7, down "other") ∷ []) (omega arith) (omega arith)
      (omega arith) ((refl, omega arith, omega arith), tt) (λ e. absurd (cc))
