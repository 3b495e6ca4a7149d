-- ===== src/Pool/Prio/Tiles.antt =====
-- The groups that `buildPrioGroups` of internal/pool/pool.go makes of the sorted proxies.
use proxy_gateway.Prelude.{
  ℕ, ◌+◌, ◌<◌, ◌≡◌, refl, ap, ◌∙◌, subst, inl, inr, true, false, List, [], ◌∷◌, ◌++◌, map, arith,
  length, length-append, All, ℤ, keep, if◌then◌else◌, pos_part, Bool-cases,
}
use mathlib.Core.Path.{ap₂}
use mathlib.Core.List.{append_assoc, map-append}
use proxy_gateway.Prelude.Float.{Float64}
use proxy_gateway.Model.{Proxy}
use proxy_gateway.Pool.State.{PrioGroup}
use proxy_gateway.Pool.Layer.{running, sum}
use proxy_gateway.Pool.Prio.{GStat, eq_ℤ, count_stat, stat_loop, close_group, scan, prio_groups}

pub eq_ℤ-sound : (a b : ℤ) → eq_ℤ a b ≡ true → a ≡ b
eq_ℤ-sound a b h = ground arith

abbrev pub weights_of : List Proxy → List ℕ
weights_of = map (λ pr. pos_part pr.weight)

pub running-append :
    (a : ℕ) (ws : List ℕ) (w : ℕ)
    → running a (ws ++ (w ∷ [])) ≡ running a ws ++ ((a + sum ws + w) ∷ [])
unfolding running sum
running-append a [] w = ap (λ n. n ∷ []) (omega arith)
running-append a (v ∷ ws) w =
    ap (λ l. (a + v) ∷ l)
      (running-append (a + v) ws w ∙ ap (λ n. running (a + v) ws ++ (n ∷ [])) (omega arith))

pub sum-append : (ws : List ℕ) (w : ℕ) → sum (ws ++ (w ∷ [])) ≡ sum ws + w
unfolding sum
sum-append [] w = omega arith
sum-append (v ∷ ws) w = omega (arith, sum-append ws w)

All-snoc :
    {A : Type 0} (P : A → Type 0) (xs : List A) (y : A) → All P xs → P y → All P (xs ++ (y ∷ []))
All-snoc P [] y ps p = (p, tt)
All-snoc P (x ∷ xs) y (q, ps) p = (q, All-snoc P xs y ps p)

one_sum : (w : ℕ) → w ∷ [] ≡ running 0 (w ∷ [])
unfolding running
one_sum w = ap (λ n. n ∷ []) (omega arith)

one_total : (w : ℕ) → w ≡ sum (w ∷ [])
unfolding sum
one_total w = omega arith

more_total :
    (now : List Proxy) (pr : Proxy) (acc : ℕ)
    → acc ≡ sum (weights_of now)
    → acc + pos_part pr.weight ≡ sum (weights_of (now ++ (pr ∷ [])))
more_total now pr acc s =
    rw (map-append (λ (q : Proxy). pos_part q.weight) now (pr ∷ []))
      (omega (arith, sum-append (weights_of now) (pos_part pr.weight)))

more_sums :
    (now : List Proxy) (pr : Proxy) (cum : List ℕ) (acc : ℕ)
    → cum ≡ running 0 (weights_of now)
    → acc ≡ sum (weights_of now)
    → cum ++ ((acc + pos_part pr.weight) ∷ []) ≡ running 0 (weights_of (now ++ (pr ∷ [])))
more_sums now pr cum acc c s = rw (map-append (λ (q : Proxy). pos_part q.weight) now (pr ∷ [])) (
    rw (running-append 0 (weights_of now) (pos_part pr.weight))
      (ap₂ (λ l n. l ++ (n ∷ [])) c (omega arith)))

-- The proxies of a priority.
abbrev pub of_priority : ℤ → List Proxy → List Proxy
of_priority prio = keep (λ pr. eq_ℤ pr.priority prio)

module _ ⦃fl : Float64⦄ where
  -- The lowest ratio of these proxies, if it is below the first argument.
  unfoldable pub lowest : ℕ → List Proxy → ℕ
  lowest m [] = m
  lowest m (pr ∷ prs) = lowest (if fl.less pr.min_alive_ratio m then pr.min_alive_ratio else m) prs

  -- The loop of `Rebuild` counts the proxies of the priority.
  stat_loop_lem :
      (prio : ℤ) (st : GStat) (prs : List Proxy)
      → ((stat_loop prio st prs).total ≡ st.total + length (of_priority prio prs))
        × ((stat_loop prio st prs).alive_n
            ≡ st.alive_n + length (keep (λ (pr : Proxy). pr.alive) (of_priority prio prs)))
        × ((stat_loop prio st prs).min_ratio ≡ lowest st.min_ratio (of_priority prio prs))
  unfolding stat_loop count_stat lowest
  stat_loop_lem prio st [] = (omega arith, omega arith, refl)
  stat_loop_lem prio st (pr ∷ prs) = elim (Bool-cases (eq_ℤ pr.priority prio)) [
    | inr other ↦ let rest = stat_loop_lem prio st prs in rw (other, stat_loop, count_stat) rest
    | inl same ↦
        let n : GStat = record {
          total = st.total + 1;
          alive_n = if pr.alive then st.alive_n + 1 else st.alive_n;
          min_ratio =
              if fl.less pr.min_alive_ratio st.min_ratio then pr.min_alive_ratio else st.min_ratio;
        } in
        let (a, b, c) = stat_loop_lem prio n prs in
        rw (same, stat_loop, count_stat) (omega (arith, a), ground (arith, b), c)
  ]

module _ ⦃fl : Float64⦄ (all : List Proxy) where
  -- A group over the run `now` of the sorted proxies, which begins at index `i`.
  pub record IsRun (i : ℕ) (g : PrioGroup) (now : List Proxy) : Type 0 where
    pub filled : 0 < length now
    pub same : All (λ pr. pr.priority ≡ g.priority) now
    pub starts : g.start ≡ i
    pub ends : g.end ≡ i + length now
    pub sums : g.cum_w ≡ running 0 (weights_of now)
    pub total : g.total_w ≡ sum (weights_of now)
    pub all_count : g.alive_total ≡ length (of_priority g.priority all)
    pub live_count :
        g.alive_count ≡ length (keep (λ (pr : Proxy). pr.alive) (of_priority g.priority all))
    pub lowest_ratio : g.min_ratio ≡ lowest fl.one_f (of_priority g.priority all)

  -- The group that follows has another priority.
  abbrev pub Differs : PrioGroup → List PrioGroup → Type 0
  Differs g [] = Unit
  Differs g (h ∷ gs) = eq_ℤ h.priority g.priority ≡ false

  -- The groups cut the proxies into runs, without gap or overlap, each as long as possible.
  abbrev pub Tiles : ℕ → List Proxy → List PrioGroup → Type 0
  Tiles i prs [] = prs ≡ []
  Tiles i prs (g ∷ gs) =
      (now : List Proxy) × (rest : List Proxy) × (prs ≡ now ++ rest)
      × IsRun i g now
      × Differs g gs
      × Tiles g.end rest gs

  -- A group that is closed after the run `now`.
  close_group-IsRun :
      (prio : ℤ) (start i acc : ℕ) (cum : List ℕ) (now : List Proxy)
      → 0 < length now
      → All (λ pr. pr.priority ≡ prio) now
      → i ≡ start + length now
      → cum ≡ running 0 (weights_of now)
      → acc ≡ sum (weights_of now)
      → IsRun start (close_group all prio start i acc cum) now
  close_group-IsRun prio start i acc cum now filled same e c s =
      let zero_stat : GStat = record { total = 0; alive_n = 0; min_ratio = fl.one_f } in
      let counts = stat_loop_lem prio zero_stat all in
      record {
        filled = filled;
        same = same;
        starts = refl;
        ends = e;
        sums = c;
        total = s;
        all_count = omega (arith, counts.0);
        live_count = omega (arith, counts.1);
        lowest_ratio = counts.2;
      }

  abbrev StartsWith : ℤ → List PrioGroup → Type 0
  StartsWith prio [] = Unit
  StartsWith prio (h ∷ gs) = h.priority ≡ prio

  scan-StartsWith :
      (prio : ℤ) (start i acc : ℕ) (cum : List ℕ) (prs : List Proxy)
      → StartsWith prio (scan all prio start i acc cum prs)
  unfolding scan
  scan-StartsWith prio start i acc cum [] = refl
  scan-StartsWith prio start i acc cum (pr ∷ prs) =
      elim (eq_ℤ pr.priority prio)
        as (λ b. StartsWith prio (elim b [
          | true ↦
              scan all prio start (i + 1) (acc + pos_part pr.weight)
                (cum ++ ((acc + pos_part pr.weight) ∷ [])) prs
          | false ↦
              close_group all prio start i acc cum
              ∷ scan all pr.priority i (i + 1) (pos_part pr.weight) (pos_part pr.weight ∷ []) prs
        ])) [
          | true ↦
              scan-StartsWith prio start (i + 1) (acc + pos_part pr.weight)
                (cum ++ ((acc + pos_part pr.weight) ∷ [])) prs
          | false ↦ refl
        ]

  starts-Differs :
      (prio : ℤ) (g : PrioGroup) (gs : List PrioGroup)
      → eq_ℤ prio g.priority ≡ false
      → StartsWith prio gs
      → Differs g gs
  starts-Differs prio g [] ne s = tt
  starts-Differs prio g (h ∷ gs) ne s = ap (λ p. eq_ℤ p g.priority) s ∙ ne

  scan_nil :
      (prio : ℤ) (start i acc : ℕ) (cum : List ℕ)
      → scan all prio start i acc cum [] ≡ close_group all prio start i acc cum ∷ []
  unfolding scan
  scan_nil prio start i acc cum = refl

  scan_same :
      (prio : ℤ) (start i acc : ℕ) (cum : List ℕ) (pr : Proxy) (prs : List Proxy)
      → eq_ℤ pr.priority prio ≡ true
      → scan all prio start i acc cum (pr ∷ prs)
        ≡ scan all prio start
            (i + 1)
            (acc + pos_part pr.weight)
            (cum ++ ((acc + pos_part pr.weight) ∷ []))
            prs
  unfolding scan
  scan_same prio start i acc cum pr prs e = rw (e, scan)

  scan_cut :
      (prio : ℤ) (start i acc : ℕ) (cum : List ℕ) (pr : Proxy) (prs : List Proxy)
      → eq_ℤ pr.priority prio ≡ false
      → scan all prio start i acc cum (pr ∷ prs)
        ≡ close_group all prio start i acc cum
          ∷ scan all pr.priority i (i + 1) (pos_part pr.weight) (pos_part pr.weight ∷ []) prs
  unfolding scan
  scan_cut prio start i acc cum pr prs e = rw (e, scan)

  -- The loop, with the run collected so far.
  scan-Tiles :
      (prio : ℤ) (start i acc : ℕ) (cum : List ℕ) (now prs : List Proxy)
      → 0 < length now
      → All (λ pr. pr.priority ≡ prio) now
      → i ≡ start + length now
      → cum ≡ running 0 (weights_of now)
      → acc ≡ sum (weights_of now)
      → Tiles start (now ++ prs) (scan all prio start i acc cum prs)
  scan-Tiles prio start i acc cum now [] filled same e c s =
      rw (scan_nil prio start i acc cum)
        (now, [], refl, close_group-IsRun prio start i acc cum now filled same e c s, tt, refl)
  scan-Tiles prio start i acc cum now (pr ∷ prs) filled same e c s =
      elim (Bool-cases (eq_ℤ pr.priority prio)) [
        | inl eq ↦ rw (scan_same prio start i acc cum pr prs eq) (
            subst
              (λ l. Tiles start l (
                scan all prio start (i + 1) (acc + pos_part pr.weight)
                  (cum ++ ((acc + pos_part pr.weight) ∷ [])) prs))
              (append_assoc now (pr ∷ []) prs)
              (scan-Tiles prio start (i + 1) (acc + pos_part pr.weight)
                (cum ++ ((acc + pos_part pr.weight) ∷ [])) (now ++ (pr ∷ [])) prs
                (omega (arith, length-append now (pr ∷ [])))
                (All-snoc _ now pr same (eq_ℤ-sound pr.priority prio eq))
                (omega (arith, length-append now (pr ∷ []))) (more_sums now pr cum acc c s)
                (more_total now pr acc s)))
        | inr new ↦ rw (scan_cut prio start i acc cum pr prs new) (
          now,
          pr ∷ prs,
          refl,
          close_group-IsRun prio start i acc cum now filled same e c s,
          starts-Differs pr.priority (close_group all prio start i acc cum) _ new (
              scan-StartsWith pr.priority i (i + 1) (pos_part pr.weight) (pos_part pr.weight ∷ [])
                prs),
          scan-Tiles pr.priority i (i + 1) (pos_part pr.weight) (pos_part pr.weight ∷ []) (pr ∷ [])
              prs (omega arith) (refl, tt) (omega arith) (one_sum (pos_part pr.weight))
              (one_total (pos_part pr.weight)),
        )
      ]

  -- The groups of the legacy scheduler: runs of equal priority that cut the sorted proxies without
  -- gap or overlap, each as long as possible. The running sums and the total of each are those of the
  -- weights of its proxies. Its counts are the numbers of all proxies and of the live ones that have
  -- the priority, and its ratio is the lowest of theirs, at most 1.
  pub prio_groups-Tiles : (sorted : List Proxy) → Tiles 0 sorted (prio_groups all sorted)
  unfolding prio_groups
  prio_groups-Tiles [] = refl
  prio_groups-Tiles (pr ∷ prs) =
      scan-Tiles pr.priority 0 1 (pos_part pr.weight) (pos_part pr.weight ∷ []) (pr ∷ []) prs
        (omega arith) (refl, tt) (omega arith) (one_sum (pos_part pr.weight))
        (one_total (pos_part pr.weight))
