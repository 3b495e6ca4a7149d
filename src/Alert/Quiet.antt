-- ===== src/Alert/Quiet.antt =====
-- What the suppression of internal/alert/alert.go promises.
use proxy_gateway.Prelude.{
  ℕ, ◌+◌, ◌*◌, ◌≤◌, ◌<◌, ◌≡◌, ◌≢◌, refl, sym, ap, ◌∙◌, subst, inl, inr, String, Bool, true, false,
  not, ◌&&◌, List, [], ◌∷◌, Option, none, some, ltb, str_eq, str_eq_iff, str_eq_refl, str_eq_ne,
  arith, All, Bool-cases, if_cases, length, pos, pos_part, int64_of, scale_ℤ, is_within,
  is_within-true, scaled-fits,
}
use proxy_gateway.Prelude.Dict.{lookup, insert, keep_entries, lookup-insert, lookup-delete}
use proxy_gateway.Config.{AlertConfig}
use proxy_gateway.Text.{append_text, char_at}
use Prim.Native.Char.{code}
use proxy_gateway.Alert.Dispatch.{
  Dispatcher, Alarm, Sent, dedup_key, cleared_key, clear_opposite, window_of, is_repeated,
  note_event, emit, email_enabled,
}

-- Events, each with its time.
unfoldable pub emit_all : Dispatcher → List (ℕ × Alarm) → Dispatcher
emit_all d [] = d
emit_all d ((now, ev) ∷ evs) = emit_all (emit now d ev).0 evs

-- The event deletes the entry of the key.
unfoldable pub clears : String → Option String → Bool
clears key none = false
clears key (some k) = str_eq k key

-- An entry of the key suppresses its event up to a time.
abbrev IsQuiet : String → ℕ → ℕ → List (String × ℕ) → Type 0
IsQuiet key u window m = (s : ℕ) × (lookup key m ≡ some s) × (u < s + window)

clear-IsQuiet :
    (key : String) (u window : ℕ) (o : Option String) (m : List (String × ℕ))
    → clears key o ≡ false
    → IsQuiet key u window m
    → IsQuiet key u window (clear_opposite o m)
unfolding clears clear_opposite
clear-IsQuiet key u window none m h q = q
clear-IsQuiet key u window (some k) m h (s, found, near) =
    (s, lookup-delete k key m ∙ rw h found, near)

keep-IsQuiet :
    (key : String) (u window now : ℕ) (m : List (String × ℕ))
    → now ≤ u
    → IsQuiet key u window m
    → IsQuiet key u window (keep_entries (λ k t. is_within now t (pos window)) m)
unfolding lookup keep_entries
keep-IsQuiet key u window now [] le (s, found, near) = absurd (cc)
keep-IsQuiet key u window now ((j, t) ∷ m) le (s, found, near) = elim (Bool-cases (str_eq j key)) [
  | inl same ↦
      let e : t ≡ s = cc (rw same at found) in
      let stays = is_within-true now t window (omega (arith, e, near, le)) in
      rw stays (s, rw same (ap some e), near)
  | inr other ↦
      let rest = keep-IsQuiet key u window now m le (s, rw other at found, near) in
      if_cases (IsQuiet key u window) (is_within now t (pos window))
        (λ _. (rest.0, rw other rest.1, rest.2)) (λ _. rest)
]

insert-IsQuiet :
    (key k : String) (u window now : ℕ) (m : List (String × ℕ))
    → u < now + window
    → IsQuiet key u window m
    → IsQuiet key u window (insert k now m)
insert-IsQuiet key k u window now m fresh (s, found, near) = elim (Bool-cases (str_eq k key)) [
  | inl same ↦ (now, lookup-insert k key now m ∙ rw same refl, fresh)
  | inr other ↦ (s, lookup-insert k key now m ∙ rw other found, near)
]

note_event-IsQuiet :
    (key k : String) (u window now : ℕ) (m : List (String × ℕ))
    → now ≤ u
    → u < now + window
    → IsQuiet key u window m
    → IsQuiet key u window (note_event now (pos window) k m)
unfolding note_event
note_event-IsQuiet key k u window now m le fresh q =
    let n = insert-IsQuiet key k u window now m fresh q in
    if_cases (IsQuiet key u window) (ltb 128 (length (insert k now m)))
      (λ _. keep-IsQuiet key u window now (insert k now m) le n) (λ _. n)

-- The settings stay, and the entry suppresses its event; `w` is the window.
abbrev Holds : String → ℕ → ℕ → Dispatcher → Dispatcher → Type 0
Holds key u w d e = (e.cfg ≡ d.cfg) × IsQuiet key u w e.dedup

same_window : (d e : Dispatcher) (w : ℕ) → window_of d ≡ pos w → e.cfg ≡ d.cfg → window_of e ≡ pos w
same_window d e w fits same =
    ap (λ (c : AlertConfig). int64_of (scale_ℤ c.dedup_seconds 1000000000)) same ∙ fits

-- An event that does not delete the entry, between the two times.
emit-Holds :
    (key : String) (t u w now : ℕ) (d e : Dispatcher) (ev : Alarm)
    → window_of d ≡ pos w
    → clears key (cleared_key ev) ≡ false
    → t ≤ now
    → now ≤ u
    → u < t + w
    → Holds key u w d e
    → Holds key u w d (emit now e ev).0
unfolding emit
emit-Holds key t u w now d e ev fits c after le near (same, q) =
    let P : Dispatcher × Option Sent → Type 0 = λ out. Holds key u w d out.0 in
    let k = dedup_key ev.event_type ev.provider in
    let m = clear_opposite (cleared_key ev) e.dedup in
    let cleared = clear-IsQuiet key u w (cleared_key ev) e.dedup c q in
    let noted = note_event-IsQuiet key k u w now m le (omega (arith, near, after)) cleared in
    let moved : IsQuiet key u w (note_event now (window_of e) k m) =
      subst (λ v. IsQuiet key u w (note_event now v k m)) (sym (same_window d e w fits same))
        noted in
    if_cases P (not (ltb 0 (length e.cfg.webhooks)) && not (email_enabled e.cfg.email))
      (λ _. (same, q))
      (λ _.
        if_cases P (is_repeated now (window_of e) (lookup k m)) (λ _. (same, cleared))
          (λ _. (same, moved)))

-- An event at a time between two others, which is not the opposite of the key's.
abbrev pub IsBetween : String → ℕ → ℕ → ℕ × Alarm → Type 0
IsBetween key t u x = (clears key (cleared_key x.1) ≡ false) × (t ≤ x.0) × (x.0 ≤ u)

emit_all-Holds :
    (key : String) (t u w : ℕ) (d e : Dispatcher) (evs : List (ℕ × Alarm))
    → window_of d ≡ pos w
    → u < t + w
    → All (IsBetween key t u) evs
    → Holds key u w d e
    → Holds key u w d (emit_all e evs)
unfolding emit_all
emit_all-Holds key t u w d e [] fits near b h = h
emit_all-Holds key t u w d e ((now, ev) ∷ evs) fits near ((c, after, le), b) h =
    emit_all-Holds key t u w d (emit now e ev).0 evs fits near b
      (emit-Holds key t u w now d e ev fits c after le near h)

-- A delivered event leaves its entry.
sent-Holds :
    (t u w : ℕ) (d : Dispatcher) (ev : Alarm)
    → window_of d ≡ pos w
    → t ≤ u
    → u < t + w
    → (emit t d ev).1 ≢ none
    → Holds (dedup_key ev.event_type ev.provider) u w d (emit t d ev).0
unfolding emit note_event
sent-Holds t u w d ev fits le near sent =
    let key = dedup_key ev.event_type ev.provider in
    let m = clear_opposite (cleared_key ev) d.dedup in
    let P : Dispatcher × Option Sent → Type 0 = λ out. out.1 ≢ none → Holds key u w d out.0 in
    let noted : IsQuiet key u w (insert key t m) =
      (t, lookup-insert key key t m ∙ rw (str_eq_refl key) refl, near) in
    let kept : IsQuiet key u w (note_event t (pos w) key m) =
      if_cases (IsQuiet key u w) (ltb 128 (length (insert key t m)))
        (λ _. keep-IsQuiet key u w t (insert key t m) le noted) (λ _. noted) in
    let stored : IsQuiet key u w (note_event t (window_of d) key m) =
      subst (λ v. IsQuiet key u w (note_event t v key m)) (sym fits) kept in
    if_cases P (not (ltb 0 (length d.cfg.webhooks)) && not (email_enabled d.cfg.email))
      (λ _ s. absurd (s refl))
      (λ _.
        if_cases P (is_repeated t (window_of d) (lookup key m)) (λ _ s. absurd (s refl))
          (λ _ s. (refl, stored)))
      sent

quiet-suppressed :
    (u w : ℕ) (d e : Dispatcher) (ev : Alarm)
    → window_of d ≡ pos w
    → clears (dedup_key ev.event_type ev.provider) (cleared_key ev) ≡ false
    → Holds (dedup_key ev.event_type ev.provider) u w d e
    → (emit u e ev).1 ≡ none
unfolding emit is_repeated
quiet-suppressed u w d e ev fits c (same, q) =
    let key = dedup_key ev.event_type ev.provider in
    let (s, found, near) = clear-IsQuiet key u w (cleared_key ev) e.dedup c q in
    let again : is_within u s (window_of e) ≡ true =
      ap (is_within u s) (same_window d e w fits same) ∙ is_within-true u s w near in
    let P : Dispatcher × Option Sent → Type 0 = λ out. out.1 ≡ none in
    if_cases P (not (ltb 0 (length e.cfg.webhooks)) && not (email_enabled e.cfg.email)) (λ _. refl)
      (λ _. rw (found, is_repeated, again) refl)

-- The tenth character, where the two types first differ.
abbrev tenth : String → ℕ
tenth s = elim (char_at 9 s) [ String.[] ↦ 0 | String.◌∷◌ c rest ↦ code c ]

keys_differ : (p : String) → dedup_key "provider_recovered" p ≡ dedup_key "provider_down" p → ⊥
unfolding dedup_key append_text
keys_differ p e = let codes : ◌≡◌ {A = ℕ} 114 100 = ap tenth e in omega (arith, codes)

-- No event deletes its own entry.
clears-own : (ev : Alarm) → clears (dedup_key ev.event_type ev.provider) (cleared_key ev) ≡ false
unfolding cleared_key clears
clears-own ev =
    let p = ev.provider in
    let key = dedup_key ev.event_type p in
    let P : Option String → Type 0 = λ o. clears key o ≡ false in
    if_cases P (str_eq ev.event_type "provider_down")
      (λ down.
        let e : key ≡ dedup_key "provider_down" p =
          ap (λ t. dedup_key t p) ((str_eq_iff ev.event_type "provider_down").0 down) in
        str_eq_ne (dedup_key "provider_recovered" p) key (λ h. keys_differ p (h ∙ e)))
      (λ _.
        if_cases P (str_eq ev.event_type "provider_recovered")
          (λ up.
            let e : key ≡ dedup_key "provider_recovered" p =
              ap (λ t. dedup_key t p) ((str_eq_iff ev.event_type "provider_recovered").0 up) in
            str_eq_ne (dedup_key "provider_down" p) key (λ h. keys_differ p (sym (h ∙ e))))
          (λ _. refl))

-- An event that was delivered is not delivered again before the suppression window has passed, when
-- no settings change and, of the events that come between, none is its opposite. The window has at
-- most 9223372036 seconds, the largest number whose nanoseconds int64 holds.
pub emit_quiet :
    (t u : ℕ) (d : Dispatcher) (ev : Alarm) (evs : List (ℕ × Alarm))
    → pos_part d.cfg.dedup_seconds ≤ 9223372036
    → t ≤ u
    → u < t + pos_part d.cfg.dedup_seconds * 1000000000
    → All (IsBetween (dedup_key ev.event_type ev.provider) t u) evs
    → (emit t d ev).1 ≢ none
    → (emit u (emit_all (emit t d ev).0 evs) ev).1 ≡ none
emit_quiet t u d ev evs small le near between sent =
    let key = dedup_key ev.event_type ev.provider in
    let w = pos_part d.cfg.dedup_seconds * 1000000000 in
    let fits =
      scaled-fits d.cfg.dedup_seconds 1000000000 (omega (arith, le, near)) (omega (arith, small)) in
    quiet-suppressed u w d (emit_all (emit t d ev).0 evs) ev fits (clears-own ev) (
      emit_all-Holds key t u w d (emit t d ev).0 evs fits near between
        (sent-Holds t u w d ev fits le near sent))
