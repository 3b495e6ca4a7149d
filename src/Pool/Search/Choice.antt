-- ===== src/Pool/Search/Choice.antt =====
-- What the binary search finds, and which proxy a draw selects: `sort.Search` and the weighted
-- random choice of internal/pool/pool.go.
use proxy_gateway.Prelude.{
  ℕ, zero, suc, ◌+◌, ◌-◌, ◌/◌, ◌≤◌, ◌<◌, ◌≡◌, refl, sym, ap, subst, ◌∙◌, ◌⊎◌, inl, inr, String,
  Bool, true, false, List, [], ◌∷◌, some, arith, ltb, ◌==◌, get_elem?, length, Bool-cases,
}
use proxy_gateway.Pool.Layer.{running, sum}
use proxy_gateway.Pool.Search.{pick, search_loop, sort_search, above, weighted}

-- `r` is where the test turns from false to true.
abbrev pub IsEdge : (ℕ → Bool) → ℕ → ℕ → Type 0
IsEdge f n r = (r ≤ n) × ((r ≡ 0) ⊎ (f (r - 1) ≡ false)) × ((r ≡ n) ⊎ (f r ≡ true))

search_loop-IsEdge :
    (fuel : ℕ) (f : ℕ → Bool) (n i j : ℕ)
    → i ≤ j
    → j ≤ n
    → j ≤ i + fuel
    → (i ≡ 0) ⊎ (f (i - 1) ≡ false)
    → (j ≡ n) ⊎ (f j ≡ true)
    → IsEdge f n (search_loop fuel f i j)
unfolding search_loop
search_loop-IsEdge zero f n i j ij jn enough low high =
    let e : j ≡ i = omega arith in (omega arith, low, rw e at high)
search_loop-IsEdge (suc fuel) f n i j ij jn enough low high = elim (Bool-cases (ltb i j)) [
  | inr done ↦ let e : j ≡ i = ground arith in rw done (omega arith, low, rw e at high)
  | inl more ↦
      let lt : i < j = ground arith in
      elim (Bool-cases (f ((i + j) / 2))) [
        | inl hit ↦
            rw (more, hit)
              (search_loop-IsEdge fuel f n i ((i + j) / 2) (omega arith) (omega arith) (omega arith)
                low (inr hit))
        | inr miss ↦
            let e : (i + j) / 2 + 1 - 1 ≡ (i + j) / 2 = omega arith in
            rw (more, miss)
              (search_loop-IsEdge fuel f n ((i + j) / 2 + 1) j (omega arith) (omega arith)
                (omega arith) (inr (ap f e ∙ miss)) high)
      ]
]

-- The binary search ends, within the range, at an edge of the test.
pub sort_search-IsEdge : (n : ℕ) (f : ℕ → Bool) → IsEdge f n (sort_search n f)
sort_search-IsEdge n f =
    search_loop-IsEdge n f n 0 n (omega arith) (omega arith) (omega arith) (inl refl) (inl refl)

-- The sum of the first k weights.
unfoldable pub prefix : ℕ → List ℕ → ℕ
prefix zero ws = 0
prefix (suc k) [] = 0
prefix (suc k) (w ∷ ws) = w + prefix k ws

pub prefix-length : (ws : List ℕ) → prefix (length ws) ws ≡ sum ws
unfolding prefix sum
prefix-length [] = refl
prefix-length (w ∷ ws) = ap (λ s. w + s) (prefix-length ws)

pub length-running : (acc : ℕ) (ws : List ℕ) → length (running acc ws) ≡ length ws
unfolding running
length-running acc [] = refl
length-running acc (w ∷ ws) = ap suc (length-running (acc + w) ws)

get_elem?-running :
    (acc : ℕ) (ws : List ℕ) (i : ℕ)
    → i < length ws
    → get_elem? (running acc ws) i ≡ some (acc + prefix (suc i) ws)
unfolding running prefix
get_elem?-running acc [] i h = elim h [ ]
get_elem?-running acc (w ∷ ws) zero h = ap some (omega arith)
get_elem?-running acc (w ∷ ws) (suc i) h =
    get_elem?-running (acc + w) ws i (omega arith) ∙ ap some (omega arith)

above-running :
    (ws : List ℕ) (t i : ℕ) → i < length ws → above (running 0 ws) t i ≡ ltb t (prefix (suc i) ws)
unfolding above
above-running ws t i h = rw (get_elem?-running 0 ws i h, above) (ap (ltb t) (omega arith))

pub get_elem?-in {ℓ} :
    {A : Type ℓ} (xs : List A) (i : ℕ) → i < length xs → (x : A) × (get_elem? xs i ≡ some x)
get_elem?-in [] i h = elim h [ ]
get_elem?-in (x ∷ xs) zero h = (x, refl)
get_elem?-in (x ∷ xs) (suc i) h = get_elem?-in xs i (omega arith)

-- The two sides of the index that a draw selects.
share_below :
    (ws : List ℕ) (t j : ℕ)
    → j ≤ length ws
    → (j ≡ 0) ⊎ (above (running 0 ws) t (j - 1) ≡ false)
    → prefix j ws ≤ t
unfolding prefix
share_below ws t zero le low = omega arith
share_below ws t (suc j) le (inl e) = absurd (omega arith)
share_below ws t (suc j) le (inr miss) =
    let e : suc j - 1 ≡ j = omega arith in
    let test : ltb t (prefix (suc j) ws) ≡ false =
      sym (above-running ws t j (omega arith)) ∙ ap (above (running 0 ws) t) (sym e) ∙ miss in
    ground arith

share_above :
    (ws : List ℕ) (t j : ℕ)
    → t < sum ws
    → prefix j ws ≤ t
    → j ≤ length ws
    → (j ≡ length ws) ⊎ (above (running 0 ws) t j ≡ true)
    → (j < length ws) × (t < prefix (suc j) ws)
share_above ws t j h low le (inl at_end) =
    let e : prefix j ws ≡ sum ws = ap (λ k. prefix k ws) at_end ∙ prefix-length ws in
    absurd (omega arith)
share_above ws t j h low le (inr hit) = elim (Bool-cases (ltb j (length ws))) [
  | inl lt ↦
      let bound : j < length ws = ground arith in
      let test : ltb t (prefix (suc j) ws) ≡ true = sym (above-running ws t j bound) ∙ hit in
      (bound, ground arith)
  | inr ge ↦
      let at_end : j ≡ length ws = ground arith in
      let e : prefix j ws ≡ sum ws = ap (λ k. prefix k ws) at_end ∙ prefix-length ws in
      absurd (omega arith)
]

-- A draw `t` below the total selects the proxy in whose share of the total it lies: the choice
-- never fails, and each index is selected by as many draws as its weight.
pub weighted-share :
    (ids : List String) (start : ℕ) (ws : List ℕ) (t : ℕ)
    → start + length ws ≤ length ids
    → t < sum ws
    → (j : ℕ) × (id : String) × (weighted ids start (running 0 ws) (sum ws) t ≡ pick id)
      × (get_elem? ids (start + j) ≡ some id)
      × (j < length ws)
      × (prefix j ws ≤ t)
      × (t < prefix (suc j) ws)
unfolding weighted
weighted-share ids start ws t fits h =
    let n = length (running 0 ws) in
    let j = sort_search n (above (running 0 ws) t) in
    let e : n ≡ length ws = length-running 0 ws in
    let edge : IsEdge (above (running 0 ws) t) (length ws) j =
      subst (λ m. IsEdge (above (running 0 ws) t) m j) e
        (sort_search-IsEdge n (above (running 0 ws) t)) in
    let low : prefix j ws ≤ t = share_below ws t j edge.0 edge.1 in
    let (bound, high) = share_above ws t j h low edge.0 edge.2 in
    let (id, found) = get_elem?-in ids (start + j) (omega arith) in
    let positive : (sum ws == 0) ≡ false = ground arith in
    (j, id, rw (positive, found), found, bound, low, high)
