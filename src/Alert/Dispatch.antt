-- ===== src/Alert/Dispatch.antt =====
-- The dispatcher of internal/alert/alert.go: its settings, and `Emit` with the suppression of repeated
-- events. Times are in nanoseconds; whether the file can be written is an argument. The delivery
-- itself is I/O: the model says which channels get an event.
use proxy_gateway.Prelude.{
  ℕ, String, Bool, true, false, not, ◌&&◌, ◌||◌, List, [], ◌∷◌, Option, none, some, ltb, str_eq,
  if◌then◌else◌, ℤ, pos, ltb_ℤ, int64_of, scale_ℤ, is_within, any, keep, map, length,
}
use proxy_gateway.Prelude.Dict.{lookup, insert, delete, keep_entries}
use proxy_gateway.Config.{AlertConfig, EmailConfig, Webhook, default_int, default_text}
use proxy_gateway.Text.{append_text}

-- `has_file` is whether a file is set, `stored` what the file holds.
pub record Dispatcher : Type 0 where
  pub cfg : AlertConfig
  pub dedup : List (String × ℕ)
  pub has_file : Bool
  pub stored : Option AlertConfig

-- What `Emit` reads of an event.
pub record Alarm : Type 0 where
  pub event_type : String
  pub provider : String

-- Who gets an event: the mail, and the webhooks of these URLs.
pub record Sent : Type 0 where
  pub email : Bool
  pub hooks : List String

-- `NewDispatcher`
unfoldable pub new_dispatcher : AlertConfig → Dispatcher
new_dispatcher cfg = record { cfg = cfg; dedup = []; has_file = false; stored = none }

-- `persist`, with whether it returns no error.
unfoldable pub persist_cfg : Bool → Dispatcher → Dispatcher × Bool
persist_cfg written d =
    if d.has_file
    then if written then (record d { stored = some d.cfg }, true) else (d, false)
    else (d, true)

abbrev pub with_cfg : Dispatcher → AlertConfig → Dispatcher
with_cfg d cfg = record d { cfg = cfg }

-- `UpdateEmail`
unfoldable pub update_email : Bool → Dispatcher → EmailConfig → Dispatcher × Bool
update_email written d e = persist_cfg written (
    with_cfg d (record d.cfg {
      email = record e {
        password = default_text d.cfg.email.password e.password;
        smtp_port = default_int d.cfg.email.smtp_port e.smtp_port;
      };
    }))

-- `UpdateDedup`, `UpdateMonitorSeconds` and `UpdateRecoverSeconds`
unfoldable pub update_dedup : Bool → Dispatcher → ℤ → Dispatcher × Bool
update_dedup written d seconds =
    if ltb_ℤ seconds (pos 0)
    then (d, false)
    else persist_cfg written (with_cfg d (record d.cfg { dedup_seconds = seconds }))

unfoldable pub update_monitor_seconds : Bool → Dispatcher → ℤ → Dispatcher × Bool
update_monitor_seconds written d seconds =
    if ltb_ℤ seconds (pos 1)
    then (d, false)
    else persist_cfg written (with_cfg d (record d.cfg { monitor_seconds = seconds }))

unfoldable pub update_recover_seconds : Bool → Dispatcher → ℤ → Dispatcher × Bool
update_recover_seconds written d seconds =
    if ltb_ℤ seconds (pos 0)
    then (d, false)
    else persist_cfg written (with_cfg d (record d.cfg { recover_seconds = seconds }))

-- `emailEnabled`
unfoldable pub email_enabled : EmailConfig → Bool
email_enabled e = not (str_eq e.smtp_host "") && not (str_eq e.from "") && ltb 0 (length e.to)

-- `eventMatch`
unfoldable pub event_match : List String → String → Bool
event_match [] t = true
event_match (p ∷ ps) t = any (λ q. str_eq q t || str_eq q "*" || str_eq q "all") (p ∷ ps)

-- ev.Type + ":" + ev.Provider
unfoldable pub dedup_key : String → String → String
dedup_key event_type provider = append_text event_type (append_text ":" provider)

-- The entry that an event deletes: that of its opposite.
unfoldable pub cleared_key : Alarm → Option String
cleared_key ev =
    if str_eq ev.event_type "provider_down"
    then some (dedup_key "provider_recovered" ev.provider)
    else if str_eq ev.event_type "provider_recovered"
    then some (dedup_key "provider_down" ev.provider)
    else none

unfoldable pub clear_opposite : Option String → List (String × ℕ) → List (String × ℕ)
clear_opposite none m = m
clear_opposite (some k) m = delete k m

-- The suppression window in nanoseconds, an int64 that wraps; one that is not positive suppresses
-- nothing.
abbrev pub window_of : Dispatcher → ℤ
window_of d = int64_of (scale_ℤ d.cfg.dedup_seconds 1000000000)

-- `ok && time.Since(last) < window`
unfoldable pub is_repeated : ℕ → ℤ → Option ℕ → Bool
is_repeated now window none = false
is_repeated now window (some last) = is_within now last window

-- The entry of an event, and the pruning of old ones above 128 entries.
unfoldable pub note_event : ℕ → ℤ → String → List (String × ℕ) → List (String × ℕ)
note_event now window key m =
    let n = insert key now m in
    if ltb 128 (length n) then keep_entries (λ k t. is_within now t window) n else n

abbrev pub channels : AlertConfig → Alarm → Sent
channels cfg ev = record {
  email = email_enabled cfg.email;
  hooks =
      map (λ (w : Webhook). w.url)
        (keep (λ (w : Webhook). event_match w.events ev.event_type) cfg.webhooks);
}

-- `Emit`: who gets the event, `none` if it is suppressed or there is no channel.
unfoldable pub emit : ℕ → Dispatcher → Alarm → Dispatcher × Option Sent
emit now d ev =
    let key = dedup_key ev.event_type ev.provider in
    let cleared = clear_opposite (cleared_key ev) d.dedup in
    if not (ltb 0 (length d.cfg.webhooks)) && not (email_enabled d.cfg.email)
    then (d, none)
    else if is_repeated now (window_of d) (lookup key cleared)
    then (record d { dedup = cleared }, none)
    else (record d { dedup = note_event now (window_of d) key cleared }, some (channels d.cfg ev))
