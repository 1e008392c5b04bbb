-- ===== src/Lpm/Big.antt =====
-- `add_depth_big` of lpm/lpm.c, entry by entry.
use dpdk_code_modify.Base.{
  ℕ, ◌+◌, ◌-◌, ◌*◌, ◌/◌, ◌%◌, ◌^◌, ◌≤◌, ◌<◌, ◌≡◌, true, false, ◌&&◌, arith, ◌==◌, if◌then◌else◌,
  store, inl, inr, Bool-cases, bit_and, lt→not-leb,
}
use dpdk_code_modify.Base.Bits.{bit_and-mask}
use dpdk_code_modify.Base.Words.{add32}
use dpdk_code_modify.Base.Loops.{within}
use dpdk_code_modify.Base.Errno.{Status, done, fail, enospc}
use dpdk_code_modify.Lpm.Types.{Entry, Lpm, depth_to_range}
use dpdk_code_modify.Lpm.Tables.{
  group_start, over, clean_group, fresh_tbl8, big_tbl8, extended, big_invalid, big_plain,
  big_extended, add_depth_big,
}
use dpdk_code_modify.Lpm.Lookup.{is_extended, answer, view}
use dpdk_code_modify.Lpm.Alloc.{clean_group_cells, free_group, tbl8_alloc-cases}
use dpdk_code_modify.Lpm.Cells.{
  IsLinked, overlay, over-cells, group_start_lem, cell-Rewritten, Rewritten-IsLinked,
  extended-IsLinked, fresh-IsLinked,
}

module _ (l : Lpm) (k : IsLinked l) (ip d next_hop g : ℕ) (low : 24 < d) (high : d ≤ 32)
    (hop : next_hop < 2 ^ 24) (tail : ip % 256 + 2 ^ (32 - d) ≤ 256) where
  abbrev i24 : ℕ
  i24 = ip / 256

  abbrev range : ℕ
  range = 2 ^ (32 - d)

  -- The rule goes over the answers of the addresses of one tbl24 entry that lie in its range.
  abbrev pub Refined : Lpm → Type 0
  Refined l' =
      (q : ℕ)
      → view l' q ≡ (
          if (q / 256 == i24) && within (ip % 256) range (q % 256)
          then overlay d next_hop (view l q)
          else view l q)

  -- A new group `t'` behind the tbl24 entry.
  attach :
      (t' : ℕ → Entry)
      → g < l.number_tbl8s
      → (l.tbl8 (g * 256)).valid_group ≡ false
      → ((j : ℕ) → (t' j).next_hop < 2 ^ 24)
      → ((j : ℕ) → within (g * 256) 256 j ≡ false → t' j ≡ l.tbl8 j)
      → (t' (g * 256)).valid_group ≡ true
      → ((x : ℕ)
          → x < 256
          → answer (t' (g * 256 + x)) ≡ (
              if within (ip % 256) range x
              then overlay d next_hop (answer (l.tbl24 i24))
              else answer (l.tbl24 i24)))
      → is_extended (l.tbl24 i24) ≡ false
      → let l' = record l { tbl8 = t'; tbl24 = store l.tbl24 i24 (extended g) } in
        IsLinked l' × Refined l'
  attach t' inside free narrow same mark answers plain =
      let few = k.few in
      let fresh = free_group l g k free in
      let (k', cells) = fresh-IsLinked k g t' fresh narrow same in
      (
        extended-IsLinked k' i24 (extended g) (omega arith) (omega arith) (ground arith)
            (λ j ext. ground (arith, fresh j ext)),
        λ q. ground (arith, cells q, answers (q % 256)),
      )

  -- The loop over the rule's range in group `h`.
  pub range_cells :
      (h : ℕ) (f : Entry → Entry) (t : ℕ → Entry) (j : ℕ)
      → h < 2 ^ 23
      → over (add32 (group_start h) (bit_and ip 0xff)) (depth_to_range d) f t j
        ≡ (if within (h * 256 + ip % 256) range j then f (t j) else t j)
  unfolding depth_to_range
  range_cells h f t j few =
      let lo : add32 (group_start h) (bit_and ip 0xff) ≡ h * 256 + ip % 256 =
        omega (arith, bit_and-mask 8 ip) in
      rw (lo, lt→not-leb d 24 low) (over-cells (h * 256 + ip % 256) range f t j (omega arith))

  big_invalid-Refined :
      g < l.number_tbl8s
      → (l.tbl8 (g * 256)).valid_group ≡ false
      → (l.tbl24 i24).valid ≡ false
      → let l' = big_invalid g ip d next_hop (record l { tbl8 = clean_group g l.tbl8 }) in
        IsLinked l' × Refined l'
  unfolding big_invalid
  big_invalid-Refined inside free miss =
      let few = k.few in
      let clean = clean_group g l.tbl8 in
      let at = λ (j : ℕ). range_cells g (fresh_tbl8 d next_hop) clean j (omega arith) in
      let was = λ (j : ℕ). clean_group_cells g l.tbl8 j (omega arith) in
      attach _ inside free (λ j. ground (arith, at j, was j, k.narrow8 j))
        (λ j out. ground (arith, at j, was j)) (ground (arith, at (g * 256), was (g * 256)))
        (λ x lt. ground (arith, at (g * 256 + x), was (g * 256 + x))) (ground arith)

  -- The copies of the tbl24 entry that fill a new group.
  fill_cells :
      (old : Entry) (t : ℕ → Entry) (j : ℕ)
      → g < 2 ^ 23
      → over (group_start g) 256 (fresh_tbl8 old.depth old.next_hop) t j
        ≡ (if within (g * 256) 256 j then fresh_tbl8 old.depth old.next_hop (t j) else t j)
  fill_cells old t j few =
      rw (group_start_lem g few)
        (over-cells (g * 256) 256 (fresh_tbl8 old.depth old.next_hop) t j (omega arith))

  big_plain-Refined :
      g < l.number_tbl8s
      → (l.tbl8 (g * 256)).valid_group ≡ false
      → (l.tbl24 i24).valid ≡ true
      → (l.tbl24 i24).valid_group ≡ false
      → let l' = big_plain g ip d next_hop (record l { tbl8 = clean_group g l.tbl8 }) in
        IsLinked l' × Refined l'
  unfolding big_plain
  big_plain-Refined inside free hit plain =
      let few = k.few in
      let clean = clean_group g l.tbl8 in
      let old = l.tbl24 i24 in
      let full = over (group_start g) 256 (fresh_tbl8 old.depth old.next_hop) clean in
      let at = λ (j : ℕ). range_cells g (fresh_tbl8 d next_hop) full j (omega arith) in
      let filled = λ (j : ℕ). fill_cells old clean j (omega arith) in
      let was = λ (j : ℕ). clean_group_cells g l.tbl8 j (omega arith) in
      let shallow = k.shallow i24 in
      let narrow = k.narrow24 i24 in
      attach _ inside free (λ j. ground (arith, at j, filled j, was j, k.narrow8 j))
        (λ j out. ground (arith, at j, filled j, was j))
        (ground (arith, at (g * 256), filled (g * 256), was (g * 256)))
        (λ x lt.
          ground
            (arith, at (g * 256 + x), filled (g * 256 + x), was (g * 256 + x), shallow, narrow))
        (ground arith)

  big_extended-Refined :
      is_extended (l.tbl24 i24) ≡ true
      → let l' = big_extended ip d next_hop l in IsLinked l' × Refined l'
  unfolding big_extended
  big_extended-Refined ext =
      let few = k.few in
      let h = (l.tbl24 i24).next_hop in
      let there = k.inside i24 ext in
      let at = λ (j : ℕ). range_cells h (big_tbl8 d next_hop) l.tbl8 j (omega arith) in
      (
        Rewritten-IsLinked k (h * 256 + ip % 256) range (big_tbl8 d next_hop) _
            (λ e n. ground arith) (λ e m. ground arith) at,
        λ q. ground (
          arith,
          cell-Rewritten k i24 (h * 256 + ip % 256) range (big_tbl8 d next_hop)
              (over (add32 (group_start h) (bit_and ip 0xff)) (depth_to_range d)
                (big_tbl8 d next_hop) l.tbl8)
              q ext (omega arith) (omega arith) at,
        ),
      )

-- What `add_depth_big` owes: the rule over the answers of its addresses, or `-ENOSPC` with the
-- tables as they were, every group in use and no group behind the tbl24 entry.
pub data BigOutcome (l : Lpm) (Refines : Lpm → Type 0) (i : ℕ) : Status × Lpm → Type 0 where
  written : {l' : Lpm} → IsLinked l' → Refines l' → BigOutcome l Refines i (done, l')
  no_space :
      ((g : ℕ) → g < l.number_tbl8s → (l.tbl8 (g * 256)).valid_group ≡ true)
      → is_extended (l.tbl24 i) ≡ false
      → BigOutcome l Refines i (fail enospc, l)

-- On linked tables, for a depth from 25 to 32, a next hop below 2 ^ 24 and a range that stays in
-- its group, `add_depth_big` either lays the rule over the answers of exactly its addresses and
-- keeps the tables linked, or fails with `-ENOSPC` and changes nothing, when every group is in use
-- and the tbl24 entry has none.
pub add_depth_big-BigOutcome :
    (l : Lpm) (ip d next_hop : ℕ)
    → IsLinked l
    → 24 < d
    → d ≤ 32
    → next_hop < 2 ^ 24
    → ip % 256 + 2 ^ (32 - d) ≤ 256
    → BigOutcome l
        (λ l'.
          (q : ℕ)
          → view l' q ≡ (
              if (q / 256 == ip / 256) && within (ip % 256) (2 ^ (32 - d)) (q % 256)
              then overlay d next_hop (view l q)
              else view l q))
        (ip / 256)
        (add_depth_big l ip d next_hop)
unfolding add_depth_big
add_depth_big-BigOutcome l ip d next_hop k low high hop tail =
    elim (Bool-cases (l.tbl24 (ip / 256)).valid) [
      | inr miss ↦ elim (tbl8_alloc-cases l k) [
        | inl (failed, full) ↦ rw (miss, failed) (no_space full (ground arith))
        | inr (g, got, inside, free) ↦
            let (k', r) =
              big_invalid-Refined l k ip d next_hop g low high hop tail inside free miss in
            rw (miss, got) (written k' r)
      ]
      | inl hit ↦ elim (Bool-cases (l.tbl24 (ip / 256)).valid_group) [
        | inr plain ↦ elim (tbl8_alloc-cases l k) [
          | inl (failed, full) ↦ rw (hit, plain, failed) (no_space full (ground arith))
          | inr (g, got, inside, free) ↦
              let (k', r) =
                big_plain-Refined l k ip d next_hop g low high hop tail inside free hit plain in
              rw (hit, plain, got) (written k' r)
        ]
        | inl ext ↦
            let (k', r) =
              big_extended-Refined l k ip d next_hop 0 low high hop tail (ground arith) in
            rw (hit, ext) (written k' r)
      ]
    ]
