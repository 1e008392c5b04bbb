-- ===== src/Lpm/DeleteBig.antt =====
-- `delete_depth_big` of lpm/lpm.c, entry by entry: the range of the rule, and the group behind it.
use dpdk_code_modify.Base.{
  ℕ, ◌+◌, ◌-◌, ◌*◌, ◌/◌, ◌%◌, ◌^◌, ◌≤◌, ◌<◌, ◌≡◌, refl, Bool, true, false, ◌&&◌, Option, none, some,
  arith, ◌==◌, if◌then◌else◌, bit_and,
}
use dpdk_code_modify.Base.Words.{add32}
use dpdk_code_modify.Base.Loops.{within}
use dpdk_code_modify.Lpm.Types.{Entry, entry, Lpm, depth_to_range}
use dpdk_code_modify.Lpm.Tables.{group_start, over}
use dpdk_code_modify.Lpm.Lookup.{is_extended, answer, view}
use dpdk_code_modify.Lpm.Cells.{
  IsLinked, group_start_lem, cell-Rewritten, Rewritten-IsLinked, plain-IsLinked,
}
use dpdk_code_modify.Lpm.Big.{range_cells}
use dpdk_code_modify.Lpm.Delete.{is_covered, retract, sub_answer, is_shallower}
use dpdk_code_modify.Lpm.Recycle.{
  RecycleOutcome, nothing_valid, one_depth, one_valid, deep, two_depths,
}
use dpdk_code_modify.Lpm.Api.{Recycle, drop_tbl8, swap_tbl8, delete_range, unlink}

module _ (l : Lpm) (k : IsLinked l) (ip d : ℕ) (low : 24 < d) (high : d ≤ 32)
    (tail : ip % 256 + 2 ^ (32 - d) ≤ 256) (ext : is_extended (l.tbl24 (ip / 256)) ≡ true) where
  abbrev h : ℕ
  h = (l.tbl24 (ip / 256)).next_hop

  -- The address is one of those of the rule.
  abbrev pub in_range : ℕ → Bool
  in_range q = (q / 256 == ip / 256) && within (ip % 256) (2 ^ (32 - d)) (q % 256)

  module _ (covered : (q : ℕ) → in_range q ≡ true → is_covered l q ≡ true) where
    -- Any store to the range that takes an answer of depth `d` at most to that of `sub`.
    retracted :
        (sub : Option (ℕ × ℕ)) (g : Entry → Entry)
        → ((e : Entry) → e.next_hop < 2 ^ 24 → (g e).next_hop < 2 ^ 24)
        → ((e : Entry) → e.valid_group ≡ true → (g e).valid_group ≡ true)
        → ((e : Entry) → e.valid ≡ true → answer (g e) ≡ retract d sub (answer e))
        → let l' = record l {
          tbl8 = over (add32 (group_start h) (bit_and ip 0xff)) (depth_to_range d) g l.tbl8;
        } in
          IsLinked l'
          × ((q : ℕ) → view l' q ≡ (if in_range q then retract d sub (view l q) else view l q))
    retracted sub g narrow8 marked8 answer8 =
        let few = k.few in
        let there = k.inside (ip / 256) ext in
        let at = λ (j : ℕ).
          range_cells l k ip d 0 0 low high (omega arith) tail h g l.tbl8 j (omega arith) in
        (
          Rewritten-IsLinked k (h * 256 + ip % 256) (2 ^ (32 - d)) g _ narrow8 marked8 at,
          λ q. ground (
            arith,
            covered q,
            answer8 (l.tbl8 (h * 256 + q % 256)),
            cell-Rewritten k (ip / 256) (h * 256 + ip % 256) (2 ^ (32 - d)) g
                (over (add32 (group_start h) (bit_and ip 0xff)) (depth_to_range d) g l.tbl8) q ext
                (omega arith) (omega arith) at,
          ),
        )

    pub delete_range-lem :
        (sub : Option (ℕ × ℕ))
        → is_shallower d sub ≡ true
        → let start = group_start h in
          let l' = delete_range l start (add32 start (bit_and ip 0xff)) d sub in
          IsLinked l'
          × ((q : ℕ)
              → view l' q ≡ (
                  if in_range q
                  then retract d (sub_answer l.rules_tbl sub) (view l q)
                  else view l q))
    unfolding delete_range
    delete_range-lem none less =
        retracted none (drop_tbl8 d) (λ e n. ground arith) (λ e m. ground arith)
          (λ e v. ground arith)
    delete_range-lem (some (index, depth)) less =
        let next_hop = (l.rules_tbl index).next_hop in
        let few = k.few in
        let there = k.inside (ip / 256) ext in
        let start : group_start h ≡ h * 256 = group_start_lem h (omega arith) in
        let mark : (l.tbl8 (group_start h)).valid_group ≡ true =
          rw start (k.marked (ip / 256) ext) in
        retracted (some (depth, next_hop % 2 ^ 24))
          (swap_tbl8 d (entry next_hop true (l.tbl8 (group_start h)).valid_group depth))
          (λ e n. ground arith) (λ e m. ground (arith, mark)) (λ e v. ground arith)

-- The group is unlinked only where its entries agree with the tbl24 entry that takes its place.
module _ (l : Lpm) (k : IsLinked l) (i : ℕ) (ext : is_extended (l.tbl24 i) ≡ true) where
  abbrev start : ℕ
  start = (l.tbl24 i).next_hop * 256

  pub unlink-lem :
      (r : Recycle)
      → RecycleOutcome l.tbl8 start r
      → ((l.tbl8 start).valid ≡ true
          → (l.tbl8 start).depth ≤ 24
          → ((j : ℕ) → start ≤ j → j < start + 256 → (l.tbl8 j).depth ≡ (l.tbl8 start).depth)
          → (x : ℕ) → x < 256
          → answer (l.tbl8 (start + x)) ≡ answer (l.tbl8 start))
      → IsLinked (unlink i r l) × ((q : ℕ) → view (unlink i r l) q ≡ view l q)
  unfolding unlink
  unlink-lem _ (nothing_valid none_there) agree = (
    plain-IsLinked k i (record (l.tbl24 i) { valid = false }) (k.narrow24 i) (k.shallow i) refl,
    λ q. ground (arith, none_there (start + q % 256)),
  )
  unlink-lem _ (one_depth hit low same) agree =
      let e = l.tbl8 start in
      let narrow = k.narrow8 start in
      (
        plain-IsLinked k i (entry e.next_hop true false e.depth) (omega arith) (ground arith) refl,
        λ q. ground (arith, agree hit low same (q % 256)),
      )
  unlink-lem _ (one_valid j le lt miss hit) agree = (k, λ q. refl)
  unlink-lem _ (deep hit over) agree = (k, λ q. refl)
  unlink-lem _ (two_depths j le lt hit other) agree = (k, λ q. refl)

pub delete_range-tbl24 :
    (l : Lpm) (front index depth : ℕ) (sub : Option (ℕ × ℕ))
    → (delete_range l front index depth sub).tbl24 ≡ l.tbl24
unfolding delete_range
delete_range-tbl24 l front index depth none = refl
delete_range-tbl24 l front index depth (some (rule, p)) = refl
