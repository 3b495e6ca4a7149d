-- ===== src/Alert/Alternate.antt =====
-- The events that internal/alert/monitor.go emits for a provider.
use proxy_gateway.Prelude.{
  ℕ, ◌≡◌, refl, sym, ap, ◌∙◌, String, Bool, true, false, List, [], ◌∷◌, ◌++◌, some, str_eq,
  str_eq_refl, str_eq_iff, keep, ◌⊎◌, inl, inr, if◌then◌else◌, arith, All, if_cases, subst,
  Bool-cases,
}
use proxy_gateway.Prelude.Dict.{lookup, insert, lookup-insert}
use proxy_gateway.Prelude.Float.{Float64}
use proxy_gateway.Alert.{
  ProviderInfo, Monitor, Event, provider_down, provider_recovered, was_down, attempt,
  is_provider_down, note_state, report, check_one,
}

-- The events are about the provider, in turns: recovered comes next if it is down, else down; at the
-- end it is down as the last of them says.
abbrev pub Alternates : String → Bool → Bool → List Event → Type 0
Alternates name now last [] = now ≡ last
Alternates name now last (provider_down p ∷ es) =
    (now ≡ false) × (p ≡ name) × Alternates name true last es
Alternates name now last (provider_recovered p ∷ es) =
    (now ≡ true) × (p ≡ name) × Alternates name false last es

Alternates-append :
    (name : String) (a b c : Bool) (es fs : List Event)
    → Alternates name a b es
    → Alternates name b c fs
    → Alternates name a c (es ++ fs)
Alternates-append name a b c [] fs h k = subst (λ x. Alternates name x c fs) (sym h) k
Alternates-append name a b c (provider_down p ∷ es) fs (s, n, h) k =
    (s, n, Alternates-append name true b c es fs h k)
Alternates-append name a b c (provider_recovered p ∷ es) fs (s, n, h) k =
    (s, n, Alternates-append name false b c es fs h k)

attempt-states :
    (now interval : ℕ) (m : Monitor) (name : String)
    → (attempt now interval m name).0.states ≡ m.states
unfolding attempt
attempt-states now interval m name = ground arith

stored_down :
    (q : Monitor) (name : String) (b : Bool) (s : List (String × Bool))
    → q.states ≡ insert name b s
    → was_down q name ≡ b
unfolding was_down
stored_down q name b s e =
    let found : lookup name q.states ≡ some b =
      ap (lookup name) e ∙ lookup-insert name name b s ∙ rw (str_eq_refl name) refl in
    rw (found, was_down) refl

kept_down :
    (q m : Monitor) (name other : String) (b : Bool)
    → q.states ≡ insert other b m.states
    → str_eq other name ≡ false
    → was_down q name ≡ was_down m name
unfolding was_down
kept_down q m name other b e ne =
    let found : lookup name q.states ≡ lookup name m.states =
      ap (lookup name) e ∙ lookup-insert other name b m.states ∙ rw ne refl in
    rw (found, was_down) refl

-- The event is about the provider.
abbrev pub is_about : String → Event → Bool
is_about name (provider_down p) = str_eq p name
is_about name (provider_recovered p) = str_eq p name

keep-append : (p : Event → Bool) (xs ys : List Event) → keep p (xs ++ ys) ≡ keep p xs ++ keep p ys
keep-append p [] ys = refl
keep-append p (x ∷ xs) ys = elim (Bool-cases (p x)) [
  | inl e ↦ rw (e, keep-append p xs ys) refl
  | inr e ↦ rw (e, keep-append p xs ys) refl
]

keep-Alternates :
    (name : String) (a b : Bool) (es : List Event)
    → Alternates name a b es
    → keep (is_about name) es ≡ es
keep-Alternates name a b [] h = refl
keep-Alternates name a b (provider_down p ∷ es) (s, n, h) =
    rw ((str_eq_iff p name).1 n, keep-Alternates name true b es h) refl
keep-Alternates name a b (provider_recovered p ∷ es) (s, n, h) =
    rw ((str_eq_iff p name).1 n, keep-Alternates name false b es h) refl

disabled-Alternates :
    (name : String) (was : Bool)
    → Alternates name was false (if was then provider_recovered name ∷ [] else [])
disabled-Alternates name true = (refl, refl, refl)
disabled-Alternates name false = refl

module _ ⦃fl : Float64⦄ where
  -- Turns for providers, each with its time, the interval and what the pool reports.
  unfoldable pub watch : Monitor → List (ℕ × ℕ × ProviderInfo) → Monitor × List Event
  watch m [] = (m, [])
  watch m ((now, interval, pi) ∷ seen) =
      let (q, events, refreshed) = check_one now interval m pi in
      let (r, more) = watch q seen in (r, events ++ more)

  report-Alternates :
      (pi : ProviderInfo) (was down : Bool)
      → str_eq pi.provider_type "free" ≡ false
      → Alternates pi.name was down (report pi was down)
  unfolding report
  report-Alternates pi true true paid = rw paid refl
  report-Alternates pi true false paid = rw paid (refl, refl, refl)
  report-Alternates pi false true paid = rw paid (refl, refl, refl)
  report-Alternates pi false false paid = rw paid refl

  check_one-Alternates :
      (now interval : ℕ) (m : Monitor) (pi : ProviderInfo)
      → str_eq pi.provider_type "free" ≡ false
      → Alternates pi.name
          (was_down m pi.name)
          (was_down (check_one now interval m pi).0 pi.name)
          (check_one now interval m pi).1
  unfolding check_one
  check_one-Alternates now interval m pi paid =
      let down = is_provider_down pi in
      let q = note_state now m pi.name down in
      let r = (attempt now interval q pi.name).0 in
      let q_states : q.states ≡ insert pi.name down m.states = unfold note_state in refl in
      let events = report-Alternates pi (was_down m pi.name) down paid in
      if_cases Turns pi.enabled
        (λ _.
          if_cases Turns down
            (λ _.
              subst
                (λ b.
                  Alternates pi.name (was_down m pi.name) b (report pi (was_down m pi.name) down))
                (sym (
                  stored_down r pi.name down m.states
                    (attempt-states now interval q pi.name ∙ q_states)))
                events)
            (λ _.
              subst
                (λ b.
                  Alternates pi.name (was_down m pi.name) b (report pi (was_down m pi.name) down))
                (sym (stored_down q pi.name down m.states q_states)) events))
        (λ _.
          subst
            (λ b.
              Alternates pi.name (was_down m pi.name) b
                (if was_down m pi.name then provider_recovered pi.name ∷ [] else []))
            (sym (
              stored_down (record m { states = insert pi.name false m.states }) pi.name false
                m.states refl))
            (disabled-Alternates pi.name (was_down m pi.name)))
    where
      Turns : Monitor × List Event × Bool → Type 0
      Turns out = Alternates pi.name (was_down m pi.name) (was_down out.0 pi.name) out.1

  -- What a turn for one provider does to what is known of another: nothing.
  other_turn :
      (name : String) (now interval : ℕ) (m : Monitor) (pi : ProviderInfo)
      → str_eq pi.name name ≡ false
      → (was_down (check_one now interval m pi).0 name ≡ was_down m name)
        × (keep (is_about name) (check_one now interval m pi).1 ≡ [])
  unfolding check_one
  other_turn name now interval m pi other =
      let down = is_provider_down pi in
      let q = note_state now m pi.name down in
      let r = (attempt now interval q pi.name).0 in
      let q_states : q.states ≡ insert pi.name down m.states = unfold note_state in refl in
      let none_about : keep (is_about name) (report pi (was_down m pi.name) down) ≡ [] =
        unfold report in ground arith in
      if_cases Same pi.enabled
        (λ _.
          if_cases Same down
            (λ _. (
              kept_down r m name pi.name down (attempt-states now interval q pi.name ∙ q_states)
                  other,
              none_about,
            ))
            (λ _. (kept_down q m name pi.name down q_states other, none_about)))
        (λ _. (
          kept_down (record m { states = insert pi.name false m.states }) m name pi.name false refl
              other,
          ground arith,
        ))
    where
      Same : Monitor × List Event × Bool → Type 0
      Same out = (was_down out.0 name ≡ was_down m name) × (keep (is_about name) out.1 ≡ [])

  -- The events about a provider that is not free, among those of any sequence of turns, whether it
  -- is enabled or not: it is reported down and recovered in turns, first down if the monitor did not
  -- have it down, and the monitor has it down at the end if the last event said so.
  pub watch-Alternates :
      (name : String) (seen : List (ℕ × ℕ × ProviderInfo)) (m : Monitor)
      → All
          (λ (x : ℕ × ℕ × ProviderInfo).
            (str_eq x.2.name name ≡ false) ⊎ (str_eq x.2.provider_type "free" ≡ false))
          seen
      → Alternates name
          (was_down m name)
          (was_down (watch m seen).0 name)
          (keep (is_about name) (watch m seen).1)
  unfolding watch
  watch-Alternates name [] m h = refl
  watch-Alternates name ((now, interval, pi) ∷ seen) m (h, hs) =
      let q = (check_one now interval m pi).0 in
      let es = (check_one now interval m pi).1 in
      let rest = watch-Alternates name seen q hs in
      rw (keep-append (is_about name) es (watch q seen).1) (
        Alternates-append name (was_down m name) (was_down q name) _ (keep (is_about name) es)
          (keep (is_about name) (watch q seen).1) (turn h) rest)
    where
      paid :
          (str_eq pi.name name ≡ false) ⊎ (str_eq pi.provider_type "free" ≡ false)
          → str_eq pi.name name ≡ true
          → str_eq pi.provider_type "free" ≡ false
      paid (inl other) same = absurd (cc (other, same))
      paid (inr p) same = p

      turn :
          (str_eq pi.name name ≡ false) ⊎ (str_eq pi.provider_type "free" ≡ false)
          → Alternates name
              (was_down m name)
              (was_down (check_one now interval m pi).0 name)
              (keep (is_about name) (check_one now interval m pi).1)
      turn h = elim (Bool-cases (str_eq pi.name name)) [
        | inr other ↦
            let (still, none_about) = other_turn name now interval m pi other in
            rw none_about (sym still)
        | inl same ↦
            let own : Alternates name (was_down m name)
                (was_down (check_one now interval m pi).0 name) (check_one now interval m pi).1 =
              subst
                (λ n.
                  Alternates n (was_down m n) (was_down (check_one now interval m pi).0 n)
                    (check_one now interval m pi).1)
                ((str_eq_iff pi.name name).0 same)
                (check_one-Alternates now interval m pi (paid h same)) in
            rw (keep-Alternates name _ _ (check_one now interval m pi).1 own) own
      ]
