-- ===== src/Lpm/Small.antt =====
-- `add_depth_small` of lpm/lpm.c, entry by entry.
use dpdk_code_modify.Base.{
  ℕ, ◌+◌, ◌*◌, ◌/◌, ◌^◌, ◌≤◌, ◌<◌, ◌≡◌, refl, true, false, arith, if◌then◌else◌, store, ◌⊎◌, inl,
  inr, Bool-cases, zero, suc, ◌-◌, le→leb,
}
use dpdk_code_modify.Lpm.Types.{Entry, entry, Lpm, depth_to_range}
use dpdk_code_modify.Lpm.Tables.{group_start, over, small_tbl8, small_round, add_depth_small}
use dpdk_code_modify.Base.Loops.{within, repeat, for_loop, for_loop-repeat}
use dpdk_code_modify.Base.Words.{add32, pow-le}
use dpdk_code_modify.Lpm.Lookup.{is_extended, view}
use dpdk_code_modify.Lpm.Cells.{
  IsLinked, overlay, over-cells, group_start_lem, Rewritten, cell-Rewritten, Rewritten-IsLinked,
  plain-IsLinked,
}

-- The answers after rule `d, next_hop` has gone over the tbl24 entries from `lo` on, `n` of them.
abbrev pub Overlaid : ℕ → ℕ → ℕ → ℕ → Lpm → Lpm → Type 0
Overlaid d next_hop lo n l l' =
    (q : ℕ)
    → view l' q ≡ (if within lo n (q / 256) then overlay d next_hop (view l q) else view l q)

module _ (d next_hop : ℕ) (small : d ≤ 24) (hop : next_hop < 2 ^ 24) where
  -- The table after the inner loop.
  abbrev swept : Lpm → ℕ → ℕ → Entry
  swept l i = over (group_start (l.tbl24 i).next_hop) 256 (small_tbl8 d next_hop) l.tbl8

  swept-Rewritten :
      (l : Lpm) (i : ℕ)
      → IsLinked l
      → is_extended (l.tbl24 i) ≡ true
      → Rewritten ((l.tbl24 i).next_hop * 256) 256 (small_tbl8 d next_hop) l.tbl8 (swept l i)
  swept-Rewritten l i k ext j =
      let within8 = k.inside i ext in
      let few = k.few in
      let start = group_start_lem (l.tbl24 i).next_hop (omega arith) in
      rw start
        (over-cells ((l.tbl24 i).next_hop * 256) 256 (small_tbl8 d next_hop) l.tbl8 j (omega arith))

  -- The three outcomes of a round.
  small_round-cases :
      (l : Lpm) (i : ℕ)
      → (small_round d next_hop i l
          ≡ record l { tbl24 = store l.tbl24 i (entry next_hop true false d) })
        ⊎ ((is_extended (l.tbl24 i) ≡ true)
            × (small_round d next_hop i l ≡ record l { tbl8 = swept l i }))
        ⊎ (small_round d next_hop i l ≡ l)
  unfolding small_round
  small_round-cases l i = ground arith

  small_round-view :
      (l : Lpm) (i : ℕ) → IsLinked l → Overlaid d next_hop i 1 l (small_round d next_hop i l)
  unfolding small_round
  small_round-view l i k q = elim (Bool-cases (is_extended (l.tbl24 i))) [
    | inl ext ↦ ground (
      arith,
      cell-Rewritten k i ((l.tbl24 i).next_hop * 256) 256 (small_tbl8 d next_hop) (swept l i) q ext,
      swept-Rewritten l i k ext,
    )
    | inr plain ↦ ground arith
  ]

  small_round-IsLinked : (l : Lpm) (i : ℕ) → IsLinked l → IsLinked (small_round d next_hop i l)
  small_round-IsLinked l i k = elim (small_round-cases l i) [
    | inl plain ↦
        rw plain (plain-IsLinked k i (entry next_hop true false d) (omega arith) (omega arith) refl)
    | inr (inl (ext, sweeps)) ↦ rw sweeps (
        Rewritten-IsLinked k ((l.tbl24 i).next_hop * 256) 256 (small_tbl8 d next_hop) (swept l i)
          (λ e n. ground arith) (λ e m. ground arith) (swept-Rewritten l i k ext))
    | inr (inr same) ↦ rw same k
  ]

  repeat-Overlaid :
      (n lo : ℕ) (l : Lpm)
      → IsLinked l
      → IsLinked (repeat n lo (small_round d next_hop) l)
        × Overlaid d next_hop lo n l (repeat n lo (small_round d next_hop) l)
  unfolding repeat
  repeat-Overlaid zero lo l k = (k, λ q. ground arith)
  repeat-Overlaid (suc n) lo l k =
      let l' = small_round d next_hop lo l in
      let (k', rest) = repeat-Overlaid n (lo + 1) l' (small_round-IsLinked l lo k) in
      (k', λ q. ground (arith, rest q, small_round-view l lo k q))

  -- On linked tables, for an address below 2 ^ 32, a depth of at most 24 and a next hop below 2 ^
  -- 24, `add_depth_small` lays the rule over the answers of a run of `2 ^ (24 - depth)` tbl24
  -- entries, through their tbl8 groups too, gives way to deeper rules, and keeps the tables
  -- linked.
  pub add_depth_small-Overlaid :
      (l : Lpm) (ip : ℕ)
      → ip < 2 ^ 32
      → IsLinked l
      → IsLinked (add_depth_small l ip d next_hop)
        × Overlaid d next_hop (ip / 256) (2 ^ (24 - d)) l (add_depth_small l ip d next_hop)
  unfolding add_depth_small depth_to_range
  add_depth_small-Overlaid l ip word k =
      let room = pow-le (24 - d) 24 (omega arith) in
      let lo = ip / 2 ^ 8 in
      let n = 2 ^ (24 - d) in
      let whole : for_loop n lo (add32 lo n) (small_round d next_hop) l
          ≡ repeat n lo (small_round d next_hop) l =
        for_loop-repeat n lo (add32 lo n) (small_round d next_hop) l (omega arith) (omega arith) in
      rw (le→leb d 24 small, whole) (repeat-Overlaid n lo l k)
