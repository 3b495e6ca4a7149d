-- ===== src/Health/Due.antt =====
-- When internal/health/checker.go probes a proxy again.
use proxy_gateway.Prelude.{
  ◌⊎◌, str_eq_refl, ℕ, ◌+◌, ◌*◌, ◌<◌, ◌≤◌, ◌≡◌, refl, String, Bool, true, false, List, [], ◌∷◌,
  some, arith, str_eq, if◌then◌else◌, if_cases, In, inl, inr, Bool-cases, subst, ◌∙◌, ap, All, pos,
  scaled-fits, is_within-true,
}
use proxy_gateway.Prelude.Dict.{lookup, insert, lookup-insert}
use proxy_gateway.Model.{Proxy}
use proxy_gateway.Config.{HealthConfig}
use proxy_gateway.Health.{
  Checker, base_interval, interval_of, interval_ns, duration_ms, is_due, due_loop, check_due,
  stamp_all, check_all,
}

-- A round of the checker: `checkDue` at a time, or `checkAll` with the time that each proxy gets.
pub data CheckRound : Type 0 where
  due_round : ℕ → List Proxy → CheckRound
  full_round : List (Proxy × ℕ) → CheckRound

unfoldable pub run_round : Checker → CheckRound → Checker
run_round c (due_round now prs) = (check_due c now prs).1
run_round c (full_round prs) = check_all c prs

unfoldable pub run_rounds : Checker → List CheckRound → Checker
run_rounds c [] = c
run_rounds c (r ∷ rs) = run_rounds (run_round c r) rs

-- The round does not come before a time.
abbrev pub IsAfter : ℕ → CheckRound → Type 0
IsAfter t (due_round now prs) = t ≤ now
IsAfter t (full_round prs) = All (λ (x : Proxy × ℕ). t ≤ x.1) prs

-- The last probe of the proxy is less than `w` before a time.
abbrev IsRecent : String → ℕ → ℕ → List (String × ℕ) → Type 0
IsRecent id u w last = (t : ℕ) × (lookup id last ≡ some t) × (u < t + w)

module _ (id : String) (u w : ℕ) where
  -- A probe of any proxy at a time `t`, from which `u` is less than the interval away.
  insert-IsRecent :
      (t : ℕ) (q : Proxy) (last : List (String × ℕ))
      → u < t + w
      → IsRecent id u w last
      → IsRecent id u w (insert q.id t last)
  insert-IsRecent t q last near (s, found, close) = elim (Bool-cases (str_eq q.id id)) [
    | inl same ↦ (t, lookup-insert q.id id t last ∙ rw same refl, near)
    | inr other ↦ (s, lookup-insert q.id id t last ∙ rw other found, close)
  ]

  stamp-IsRecent :
      (t : ℕ) (q : Proxy) (last : List (String × ℕ)) (due : Bool)
      → u < t + w
      → IsRecent id u w last
      → IsRecent id u w (if due then insert q.id t last else last)
  stamp-IsRecent t q last due near r =
      if_cases (IsRecent id u w) due (λ _. insert-IsRecent t q last near r) (λ _. r)

  due_loop-keeps :
      (cfg : HealthConfig) (t : ℕ) (prs : List Proxy) (last : List (String × ℕ))
      → u < t + w
      → IsRecent id u w last
      → IsRecent id u w (due_loop cfg t prs last).1
  unfolding due_loop
  due_loop-keeps cfg t [] last near r = r
  due_loop-keeps cfg t (q ∷ prs) last near r =
      due_loop-keeps cfg t prs _ near (stamp-IsRecent t q last (is_due cfg t last q) near r)

  stamp_all-keeps :
      (t : ℕ) (prs : List (Proxy × ℕ)) (last : List (String × ℕ))
      → u < t + w
      → All (λ (x : Proxy × ℕ). t ≤ x.1) prs
      → IsRecent id u w last
      → IsRecent id u w (stamp_all prs last)
  unfolding stamp_all
  stamp_all-keeps t [] last near a r = r
  stamp_all-keeps t ((q, now) ∷ prs) last near (le, a) r =
      stamp_all-keeps t prs _ near a (insert-IsRecent now q last (omega (arith, near, le)) r)

  run_round-keeps :
      (t : ℕ) (r : CheckRound) (c : Checker)
      → u < t + w
      → IsAfter t r
      → IsRecent id u w c.last_check
      → IsRecent id u w (run_round c r).last_check
  unfolding run_round check_due check_all
  run_round-keeps t (due_round now prs) c near le r =
      due_loop-keeps c.cfg now prs c.last_check (omega (arith, near, le)) r
  run_round-keeps t (full_round prs) c near a r = stamp_all-keeps t prs c.last_check near a r

  run_rounds-keeps :
      (t : ℕ) (rs : List CheckRound) (c : Checker)
      → u < t + w
      → All (IsAfter t) rs
      → IsRecent id u w c.last_check
      → IsRecent id u w (run_rounds c rs).last_check
  unfolding run_rounds
  run_rounds-keeps t [] c near a r = r
  run_rounds-keeps t (x ∷ rs) c near (le, a) r =
      run_rounds-keeps t rs (run_round c x) near a (run_round-keeps t x c near le r)

  recent_not_due :
      (cfg : HealthConfig) (q : Proxy) (last : List (String × ℕ))
      → q.id ≡ id
      → interval_ns cfg q ≡ pos w
      → IsRecent id u w last
      → is_due cfg u last q ≡ false
  unfolding is_due
  recent_not_due cfg q last same fits (t, found, close) =
      rw (same, found, is_due, fits, is_within-true u t w close) refl

run_round-cfg : (c : Checker) (r : CheckRound) → (run_round c r).cfg ≡ c.cfg
unfolding run_round check_due check_all
run_round-cfg c (due_round now prs) = refl
run_round-cfg c (full_round prs) = refl

run_rounds-cfg : (c : Checker) (rs : List CheckRound) → (run_rounds c rs).cfg ≡ c.cfg
unfolding run_rounds
run_rounds-cfg c [] = refl
run_rounds-cfg c (r ∷ rs) = run_rounds-cfg (run_round c r) rs ∙ run_round-cfg c r

In-if :
    (b : Bool) (x y : Proxy) (ys : List Proxy)
    → In x (if b then y ∷ ys else ys)
    → ((b ≡ true) × (x ≡ y)) ⊎ In x ys
In-if true x y ys (inl e) = inl (refl, e)
In-if true x y ys (inr i) = inr i
In-if false x y ys i = inr i

-- A recent proxy is not probed.
due_loop-skips :
    (cfg : HealthConfig) (u w : ℕ) (pr : Proxy) (prs : List Proxy) (last : List (String × ℕ))
    → 0 < w
    → interval_ns cfg pr ≡ pos w
    → IsRecent pr.id u w last
    → In pr (due_loop cfg u prs last).0
    → ⊥
unfolding due_loop
due_loop-skips cfg u w pr [] last p fits r i = i
due_loop-skips cfg u w pr (q ∷ prs) last p fits r i =
    let next = stamp-IsRecent pr.id u w u q last (is_due cfg u last q) (omega (arith, p)) r in
    elim (In-if (is_due cfg u last q) pr q _ i) [
      | inr j ↦ due_loop-skips cfg u w pr prs _ p fits next j
      | inl (due, e) ↦
          let not_due =
            subst (λ x. is_due cfg u last x ≡ false) e
              (recent_not_due pr.id u w cfg pr last refl fits r) in
          cc (due, not_due)
    ]

-- A proxy that is probed is recent afterwards.
due_loop-IsRecent :
    (cfg : HealthConfig) (u w t : ℕ) (pr : Proxy) (prs : List Proxy) (last : List (String × ℕ))
    → u < t + w
    → In pr (due_loop cfg t prs last).0
    → IsRecent pr.id u w (due_loop cfg t prs last).1
unfolding due_loop
due_loop-IsRecent cfg u w t pr [] last near i = absurd i
due_loop-IsRecent cfg u w t pr (q ∷ prs) last near i = elim (In-if (is_due cfg t last q) pr q _ i) [
  | inr j ↦ due_loop-IsRecent cfg u w t pr prs _ near j
  | inl (due, e) ↦
      let first : IsRecent pr.id u w (if is_due cfg t last q then insert q.id t last else last) =
        rw due (
          t,
          ap (λ (x : Proxy). lookup x.id (insert q.id t last)) e
              ∙ lookup-insert q.id q.id t last
              ∙ rw (str_eq_refl q.id) refl,
          near,
        ) in
      due_loop-keeps pr.id u w cfg t prs _ near first
]

interval-pos : (cfg : HealthConfig) (pr : Proxy) → 0 < interval_of cfg pr
interval-pos cfg pr = let base : 0 < base_interval cfg = ground arith in ground (arith, base)

-- A proxy that `checkDue` probes at a time is not probed by a later `checkDue` before its interval has
-- passed, also when the record of the proxy has changed but for its ID and its interval, after any
-- rounds of `checkDue` and `checkAll` in between, on whatever proxies. The configuration stays, and
-- the interval has at most 9223372036854 milliseconds, the largest number whose nanoseconds int64
-- holds. `checkAll` itself probes every proxy.
pub check_due_spaced :
    (c : Checker) (t u : ℕ) (prs later : List Proxy) (rounds : List CheckRound) (pr q : Proxy)
    → interval_of c.cfg pr ≤ 9223372036854
    → q.id ≡ pr.id
    → interval_of c.cfg q ≡ interval_of c.cfg pr
    → In pr (check_due c t prs).0
    → u < t + interval_of c.cfg pr * 1000000
    → All (IsAfter t) rounds
    → ¬ In q (check_due (run_rounds (check_due c t prs).1 rounds) u later).0
unfolding check_due
check_due_spaced c t u prs later rounds pr q small same_id same_interval i near a j =
    let w = interval_of c.cfg pr * 1000000 in
    let mid = (check_due c t prs).1 in
    let positive = interval-pos c.cfg pr in
    let fits : interval_ns c.cfg q ≡ pos w =
      ap (λ n. duration_ms n) same_interval
      ∙ scaled-fits (pos (interval_of c.cfg pr)) 1000000 positive (omega (arith, small)) in
    let config : (run_rounds mid rounds).cfg ≡ c.cfg = run_rounds-cfg mid rounds in
    let recent : IsRecent q.id u w (run_rounds mid rounds).last_check = rw same_id (
      run_rounds-keeps pr.id u w t rounds mid near a
        (due_loop-IsRecent c.cfg u w t pr prs c.last_check near i)) in
    due_loop-skips (run_rounds mid rounds).cfg u w q later _ (omega (arith, positive))
      (ap (λ (x : HealthConfig). interval_ns x q) config ∙ fits) recent j
