-- ===== src/Pool/Search.antt =====
-- The weighted random choice of internal/pool/pool.go: a draw below the total weight, and a binary
-- search in the running sums.
pub mod Choice
use proxy_gateway.Prelude.{
  ℕ, zero, suc, ◌+◌, ◌/◌, String, Bool, true, false, List, [], ◌∷◌, Option, none, some, ltb, ◌==◌,
  if◌then◌else◌, get_elem?, length,
}

-- What a selection returns: nil, the pointer to a proxy, or a panic of the Go runtime.
pub data Pick : Type 0 where
  nil panic : Pick
  pick : String → Pick

-- A source of random numbers: the k-th draw of a call, below a bound. `rand.Int64N` of math/rand/v2
-- returns a number below its bound if that is positive.
abbrev pub Draws : Type 0
Draws = ℕ → ℕ → ℕ

-- What the source returns once `n` draws are used up.
abbrev pub skip : ℕ → Draws → Draws
skip n rnd k bound = rnd (n + k) bound

-- `sort.Search(n, f)` of Go's library: the loop with `i < j`, on fuel.
unfoldable pub search_loop : ℕ → (ℕ → Bool) → ℕ → ℕ → ℕ
search_loop zero f i j = i
search_loop (suc fuel) f i j =
    let h = (i + j) / 2 in
    if ltb i j
    then elim (f h) [ true ↦ search_loop fuel f i h | false ↦ search_loop fuel f (h + 1) j ]
    else i

abbrev pub sort_search : ℕ → (ℕ → Bool) → ℕ
sort_search n f = search_loop n f 0 n

-- `l.cumW[i] > target`, for an index in range.
unfoldable pub above : List ℕ → ℕ → ℕ → Bool
above cum target i = elim (get_elem? cum i) [ none ↦ false | some c ↦ ltb target c ]

abbrev pub or_panic : Option String → Pick
or_panic none = panic
or_panic (some id) = pick id

-- A draw, and the proxy at the index that the search finds. `rand.Int64N` panics on 0, and an index
-- out of range panics.
unfoldable pub weighted : List String → ℕ → List ℕ → ℕ → ℕ → Pick
unfolding above
weighted ids start cum total target =
    if total == 0
    then panic
    else or_panic (get_elem? ids (start + sort_search (length cum) (above cum target)))
