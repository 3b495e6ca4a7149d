-- ===== src/Alert.antt =====
-- internal/alert/monitor.go: the monitor that reports when a provider goes down and recovers, and
-- that refreshes a provider which stays down; and the list of webhooks of internal/alert/alert.go. A
-- time is a number of nanoseconds.
pub mod Alternate
pub mod Dispatch
pub mod Quiet
use proxy_gateway.Prelude.{
  ℕ, ◌+◌, String, Bool, true, false, not, ◌&&◌, ◌||◌, List, [], ◌∷◌, ◌++◌, Option, none, some, ltb,
  ◌==◌, str_eq, if◌then◌else◌, ℤ, pos, is_pos, pos_part, int64_of, scale_ℤ, any,
}
use proxy_gateway.Prelude.Dict.{lookup, insert, delete}
use proxy_gateway.Prelude.Float.{Float64}
use proxy_gateway.Config.{Webhook}
use proxy_gateway.Text.{trim_space}

-- What the monitor reads of `pool.ProviderInfo`; `min_alive_ratio` is a float64.
pub record ProviderInfo : Type 0 where
  pub name : String
  pub provider_type : String
  pub enabled : Bool
  pub alive : ℕ
  pub total : ℕ
  pub min_alive_ratio : ℕ

-- The maps of `ProviderMonitor`. A zero time is a missing key.
pub record Monitor : Type 0 where
  pub states : List (String × Bool)
  pub down_since : List (String × ℕ)
  pub last_attempt : List (String × ℕ)

-- The two types of event, with the provider.
pub data Event : Type 0 where
  provider_down provider_recovered : String → Event

abbrev pub new_monitor : Monitor
new_monitor = record { states = []; down_since = []; last_attempt = [] }

-- `m.states[name]`, false for a missing key.
unfoldable pub was_down : Monitor → String → Bool
was_down m name = elim (lookup name m.states) [ none ↦ false | some b ↦ b ]

-- `recoverInterval`, from the dispatcher's and the monitor's own settings; the product is an int64 that
-- wraps. A result that is not positive is 0 here: the caller returns on both.
unfoldable pub recover_interval : ℤ → ℤ → ℕ
recover_interval current initial =
    if is_pos current
    then pos_part (int64_of (scale_ℤ current 1000000000))
    else if is_pos initial
    then pos_part (int64_of (scale_ℤ initial 1000000000))
    else 0

-- Less than `interval` has passed since a time.
abbrev pub is_recent : ℕ → ℕ → ℕ → Bool
is_recent now interval since = ltb now (since + interval)

-- `maybeAttemptRecovery`, with whether the provider is refreshed.
unfoldable pub attempt : ℕ → ℕ → Monitor → String → Monitor × Bool
attempt now interval m name =
    if interval == 0 then (m, false) else elim (lookup name m.down_since) [
      | none ↦ (m, false)
      | some since ↦
          if is_recent now interval since then (m, false) else elim (lookup name m.last_attempt) [
            | none ↦ (record m { last_attempt = insert name now m.last_attempt }, true)
            | some last ↦
                if is_recent now interval last
                then (m, false)
                else (record m { last_attempt = insert name now m.last_attempt }, true)
          ]
    ]

module _ ⦃fl : Float64⦄ where
  unfoldable pub is_provider_down : ProviderInfo → Bool
  is_provider_down pi =
      if pi.total == 0
      then true
      else if fl.less fl.zero_f pi.min_alive_ratio
      then fl.less (fl.div (fl.of_int pi.alive) (fl.of_int pi.total)) pi.min_alive_ratio
      else pi.alive == 0

  -- The part of a turn of `check` under the lock, for an enabled provider.
  unfoldable pub note_state : ℕ → Monitor → String → Bool → Monitor
  note_state now m name down =
      let s =
        if down && not (was_down m name) then insert name now m.down_since else m.down_since in
      record {
        states = insert name down m.states;
        down_since = if down then s else delete name s;
        last_attempt = if down then m.last_attempt else delete name m.last_attempt;
      }

  -- The event of a turn of `check`, from the states before and after it.
  unfoldable pub report : ProviderInfo → Bool → Bool → List Event
  report pi was down =
      if str_eq pi.provider_type "free"
      then []
      else if down && not was
      then provider_down pi.name ∷ []
      else if not down && was
      then provider_recovered pi.name ∷ []
      else []

  -- One turn of the loop of `check`: the monitor, the events, and whether the provider is refreshed.
  unfoldable pub check_one : ℕ → ℕ → Monitor → ProviderInfo → Monitor × List Event × Bool
  check_one now interval m pi =
      if pi.enabled
      then (let down = is_provider_down pi in
          let events = report pi (was_down m pi.name) down in
          let q = note_state now m pi.name down in
          if down
          then (let (r, refreshed) = attempt now interval q pi.name in (r, events, refreshed))
          else (q, events, false))
      else (
        record m { states = insert pi.name false m.states },
        (if was_down m pi.name then provider_recovered pi.name ∷ [] else []),
        false,
      )

  unfoldable pub check : ℕ → ℕ → Monitor → List ProviderInfo → Monitor × List Event
  check now interval m [] = (m, [])
  check now interval m (pi ∷ pis) =
      let (q, events, refreshed) = check_one now interval m pi in
      let (r, more) = check now interval q pis in (r, events ++ more)

pub data WebhookFault : Type 0 where
  url_required already_exists webhook_not_found : WebhookFault

abbrev pub has_url : String → Webhook → Bool
has_url url w = str_eq w.url url

-- `AddWebhook`, before the config is written.
unfoldable pub add_webhook : List Webhook → Webhook → List Webhook × Option WebhookFault
add_webhook ws w =
    if str_eq (trim_space w.url) ""
    then (ws, some url_required)
    else if any (has_url w.url) ws
    then (ws, some already_exists)
    else (ws ++ w ∷ [], none)

-- The first webhook of the URL goes.
unfoldable pub drop_webhook : String → List Webhook → List Webhook
drop_webhook url [] = []
drop_webhook url (w ∷ ws) = if str_eq w.url url then ws else w ∷ drop_webhook url ws

unfoldable pub remove_webhook : List Webhook → String → List Webhook × Option WebhookFault
remove_webhook ws url =
    if str_eq url ""
    then (ws, some url_required)
    else if any (has_url url) ws
    then (drop_webhook url ws, none)
    else (ws, some webhook_not_found)

-- The first webhook of the URL is replaced.
unfoldable pub put_webhook : String → Webhook → List Webhook → List Webhook
put_webhook url v [] = []
put_webhook url v (w ∷ ws) = if str_eq w.url url then v ∷ ws else w ∷ put_webhook url v ws

unfoldable pub update_webhook : List Webhook → String → Webhook → List Webhook × Option WebhookFault
update_webhook ws old_url w =
    if str_eq (trim_space w.url) ""
    then (ws, some url_required)
    else if any (has_url old_url) ws
    then (put_webhook old_url w ws, none)
    else (ws, some webhook_not_found)
