-- ===== src/Pool/Prio.antt =====
-- The legacy priority groups: `gStat` and `buildPrioGroups` of internal/pool/pool.go.
pub mod Tiles
use Prim.Native.Nat.{Ordering}
use Prim.Native.String.{compare}
use proxy_gateway.Prelude.{
  ℕ, suc, ◌+◌, String, Bool, true, false, List, [], ◌∷◌, ◌++◌, ◌==◌, if◌then◌else◌, ◌&&◌, ◌||◌, ℤ,
  pos, negsuc, ltb_ℤ, pos_part,
}
use proxy_gateway.Prelude.Float.{Float64}
use proxy_gateway.Model.{Proxy}
use proxy_gateway.Pool.State.{PrioGroup}

abbrev pub eq_ℤ : ℤ → ℤ → Bool
eq_ℤ (pos m) (pos n) = m == n
eq_ℤ (pos m) (negsuc n) = false
eq_ℤ (negsuc m) (pos n) = false
eq_ℤ (negsuc m) (negsuc n) = m == n

-- The entry of the map `stats` for one priority.
pub record GStat : Type 0 where
  pub total : ℕ
  pub alive_n : ℕ
  pub min_ratio : ℕ

-- Go's order of texts, byte by byte.
abbrev pub before_str : String → String → Bool
before_str s t = elim (compare s t) [ Ordering.lt ↦ true | _ ↦ false ]

-- The order of `sort.Slice`: falling priority, then rising ID.
unfoldable pub comes_before : Proxy → Proxy → Bool
comes_before a b =
    if eq_ℤ a.priority b.priority then before_str a.id b.id else ltb_ℤ b.priority a.priority

unfoldable pub insert_sorted : Proxy → List Proxy → List Proxy
insert_sorted a [] = a ∷ []
insert_sorted a (b ∷ l) = if comes_before b a then b ∷ insert_sorted a l else a ∷ b ∷ l

-- `sort.Slice`. The order is total on proxies of different IDs, so the result does not depend on the
-- sorting algorithm.
unfoldable pub sort_alive : List Proxy → List Proxy
sort_alive [] = []
sort_alive (a ∷ l) = insert_sorted a (sort_alive l)

module _ ⦃fl : Float64⦄ where
  -- One turn of the loop of `Rebuild`, for the entry of priority `prio`.
  unfoldable pub count_stat : ℤ → GStat → Proxy → GStat
  count_stat prio st pr =
      if eq_ℤ pr.priority prio
      then (record {
        total = st.total + 1;
        alive_n = if pr.alive then st.alive_n + 1 else st.alive_n;
        min_ratio =
            if fl.less pr.min_alive_ratio st.min_ratio then pr.min_alive_ratio else st.min_ratio;
      })
      else st

  unfoldable pub stat_loop : ℤ → GStat → List Proxy → GStat
  stat_loop prio st [] = st
  stat_loop prio st (pr ∷ rest) = stat_loop prio (count_stat prio st pr) rest

  abbrev pub stat_of : List Proxy → ℤ → GStat
  stat_of all prio = stat_loop prio (record { total = 0; alive_n = 0; min_ratio = fl.one_f }) all

  -- The group that ends before index `i`.
  abbrev pub close_group : List Proxy → ℤ → ℕ → ℕ → ℕ → List ℕ → PrioGroup
  close_group all prio start i acc cum =
      let st = stat_of all prio in
      record {
        priority = prio;
        start = start;
        end = i;
        alive_total = st.total;
        alive_count = st.alive_n;
        min_ratio = st.min_ratio;
        cum_w = cum;
        total_w = acc;
      }

  -- The inner loop of `buildPrioGroups` at index `i`, and the groups behind it. A weight in the pool
  -- is positive.
  unfoldable pub scan : List Proxy → ℤ → ℕ → ℕ → ℕ → List ℕ → List Proxy → List PrioGroup
  scan all prio start i acc cum [] = close_group all prio start i acc cum ∷ []
  scan all prio start i acc cum (pr ∷ rest) = elim (eq_ℤ pr.priority prio) [
    | true ↦
        scan all prio start (i + 1) (acc + pos_part pr.weight)
          (cum ++ ((acc + pos_part pr.weight) ∷ [])) rest
    | false ↦
        close_group all prio start i acc cum
        ∷ scan all pr.priority i (i + 1) (pos_part pr.weight) (pos_part pr.weight ∷ []) rest
  ]

  -- The outer loop of `buildPrioGroups`, on the sorted proxies.
  unfoldable pub prio_groups : List Proxy → List Proxy → List PrioGroup
  prio_groups all [] = []
  prio_groups all (pr ∷ rest) =
      scan all pr.priority 0 1 (pos_part pr.weight) (pos_part pr.weight ∷ []) rest
