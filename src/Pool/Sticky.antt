-- ===== src/Pool/Sticky.antt =====
-- `StickyNext` of internal/pool/pool.go.
use proxy_gateway.Prelude.{
  ℕ, String, not, ◌||◌, Option, none, some, ltb, str_eq, if◌then◌else◌, length, ℤ, is_pos, pos,
  ltb_ℤ, ◌+ℤ◌, int64_of, scale_ℤ,
}
use proxy_gateway.Prelude.Dict.{lookup, insert, delete, keep_entries}
use proxy_gateway.Prelude.Float.{Float64}
use proxy_gateway.Pool.State.{Pool, StickyEntry, is_live}
use proxy_gateway.Pool.Search.{Pick, nil, panic, pick, Draws}
use proxy_gateway.Pool.Next.{next, next_in_group}

-- The window in nanoseconds, and the end of a window that begins now. Both are int64 and wrap.
abbrev pub window_ns : ℤ → ℤ
window_ns seconds = int64_of (scale_ℤ seconds 1000000000)

unfoldable pub window_end : ℕ → ℤ → ℤ
window_end now seconds = int64_of (pos now +ℤ window_ns seconds)

-- The first critical section: the session's proxy if it can be used again, and the sessions left.
unfoldable pub reuse : ℕ → Pool → String → Option String × Pool
reuse now p client = elim (lookup client p.sticky) [
  | none ↦ (none, p)
  | some e ↦
      if ltb_ℤ (pos now) e.expire_at
      then if is_live p e.proxy_id
        then (some e.proxy_id, p)
        else (none, record p { sticky = delete client p.sticky })
      else (none, p)
]

-- The second: the new session, and the pruning of those that have expired.
unfoldable pub remember : ℕ → Pool → String → String → ℤ → Pool
remember now p client id expire =
    let entry : StickyEntry = record { proxy_id = id; expire_at = expire } in
    let s = insert client entry p.sticky in
    if ltb 4096 (length s)
    then record p { sticky = keep_entries (λ k e. ltb_ℤ (pos now) e.expire_at) s }
    else record p { sticky = s }

module _ ⦃fl : Float64⦄ where
  unfoldable pub choose : Draws → Pool → String → Pick × Pool
  choose rnd p group = if str_eq group "" then next rnd p else next_in_group rnd p group

  unfoldable pub sticky_next : Draws → ℕ → Pool → String → ℤ → String → Pick × Pool
  sticky_next rnd now p client seconds group =
      if str_eq client "" || not (is_pos seconds)
      then choose rnd p group
      else (let (found, q) = reuse now p client in
          elim found [
            | some id ↦ (pick id, q)
            | none ↦
                let (out, r) = choose rnd q group in
                elim out [
                  | nil ↦ (nil, r)
                  | panic ↦ (panic, r)
                  | pick id ↦ (pick id, remember now r client id (window_end now seconds))
                ]
          ])
