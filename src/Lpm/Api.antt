-- ===== src/Lpm/Api.antt =====
-- The calls that change the table: `rte_lpm_add` and `rte_lpm_delete` of lpm/lpm.c, with
-- `tbl8_recycle_check`, `delete_depth_small` and `delete_depth_big`. Pointers are not NULL.
use dpdk_code_modify.Base.{
  ℕ, zero, suc, ◌/◌, ◌^◌, Bool, true, false, not, ◌&&◌, ◌||◌, Option, none, some, bit_and, ltb, leb,
  ◌==◌, if◌then◌else◌, store,
}
use dpdk_code_modify.Base.Errno.{Errno, Status, done, fail, einval, eexist}
use dpdk_code_modify.Base.Words.{add32}
use dpdk_code_modify.Base.Loops.{for_loop}
use dpdk_code_modify.Lpm.Types.{
  Entry, entry, Lpm, max_depth_tbl24, rte_lpm_max_depth, tbl8_group_num_entries, depth_to_mask,
  depth_to_range,
}
use dpdk_code_modify.Lpm.Tables.{group_start, over, add_depth_small, add_depth_big}
use dpdk_code_modify.Lpm.Rules.{
  Placed, placed, refused, rule_add, rule_find, rule_delete, find_previous_rule,
}

-- The end of `rte_lpm_add` for a deep rule: a rule without a tbl8 group is taken back.
unfoldable pub settle_big : ℕ → ℕ → Status × Lpm → Status × Lpm
settle_big rule_index depth (done, l) = (done, l)
settle_big rule_index depth (fail e, l) = (fail e, rule_delete l rule_index depth)

-- `-EEXIST` of `rule_add` is a success of `rte_lpm_add`; any other error is its own.
unfoldable pub refuse : Errno → Status
refuse eexist = done
refuse e = fail e

-- `rte_lpm_add` from the result of `rule_add` on.
unfoldable pub settle_rule : ℕ → ℕ → ℕ → Placed × Lpm → Status × Lpm
settle_rule ip_masked depth next_hop (refused e, l) = (refuse e, l)
settle_rule ip_masked depth next_hop (placed rule_index, l) = elim (leb depth max_depth_tbl24) [
  | true ↦ (done, add_depth_small l ip_masked depth next_hop)
  | false ↦ settle_big rule_index depth (add_depth_big l ip_masked depth next_hop)
]

-- `rte_lpm_add`
unfoldable pub add : Lpm → ℕ → ℕ → ℕ → Status × Lpm
add l ip depth next_hop =
    if ltb depth 1 || ltb rte_lpm_max_depth depth
    then (fail einval, l)
    else (let ip_masked = bit_and ip (depth_to_mask depth) in
        settle_rule ip_masked depth next_hop (rule_add l ip_masked depth next_hop))

-- What `tbl8_recycle_check` returns: `-EEXIST`, `-EINVAL`, or the first index of the group.
pub data Recycle : Type 0 where
  in_use empty : Recycle
  uniform : ℕ → Recycle

-- A loop that stops at the first entry with `stop`: whether it got to the end.
unfoldable pub all_from : ℕ → ℕ → ℕ → (Entry → Bool) → (ℕ → Entry) → Bool
all_from zero i end stop t = true
all_from (suc fuel) i end stop t = elim (ltb i end) [
  | true ↦ elim (stop (t i)) [ true ↦ false | false ↦ all_from fuel (add32 i 1) end stop t ]
  | false ↦ true
]

-- `tbl8_recycle_check`
unfoldable pub tbl8_recycle_check : (ℕ → Entry) → ℕ → Recycle
tbl8_recycle_check tbl8 start =
    let end = add32 start tbl8_group_num_entries in
    let first = tbl8 start in
    if first.valid
    then (if leb first.depth max_depth_tbl24
        then (if all_from 255 (add32 start 1) end (λ e. not (e.depth == first.depth)) tbl8
            then uniform start
            else in_use)
        else in_use)
    else if all_from 255 (add32 start 1) end (λ e. e.valid) tbl8
    then empty
    else in_use

-- The stores of the two deletes: an entry of no greater depth is made invalid, or replaced.
abbrev pub drop_tbl8 : ℕ → Entry → Entry
drop_tbl8 depth e = if leb e.depth depth then record e { valid = false } else e

abbrev pub swap_tbl8 : ℕ → Entry → Entry → Entry
swap_tbl8 depth new e = if leb e.depth depth then new else e

-- One round of `delete_depth_small`: what goes to a plain tbl24 entry, and to the cells of a group.
unfoldable pub delete_round : ℕ → Entry → (Entry → Entry) → ℕ → Lpm → Lpm
delete_round depth new24 on_tbl8 i l =
    let e = l.tbl24 i in
    if not e.valid_group && leb e.depth depth
    then record l { tbl24 = store l.tbl24 i new24 }
    else if e.valid_group
    then record l { tbl8 = over (group_start e.next_hop) tbl8_group_num_entries on_tbl8 l.tbl8 }
    else l

-- `delete_depth_small`; the rule to put in place is an index with its depth.
unfoldable pub delete_depth_small : Lpm → ℕ → ℕ → Option (ℕ × ℕ) → Lpm
delete_depth_small l ip_masked depth sub =
    let range = depth_to_range depth in
    let index = ip_masked / 2 ^ 8 in
    let rounds = for_loop range index (add32 index range) in
    elim sub [
      | none ↦ rounds (delete_round depth (entry 0 false false 0) (drop_tbl8 depth)) l
      | some (sub_rule_index, sub_rule_depth) ↦
          let next_hop = (l.rules_tbl sub_rule_index).next_hop in
          rounds
            (delete_round depth (entry next_hop true false sub_rule_depth)
              (swap_tbl8 depth (entry next_hop true true sub_rule_depth)))
            l
    ]

-- The end of `delete_depth_big`: an empty or uniform group is unlinked. `tbl8_free` does nothing.
unfoldable pub unlink : ℕ → Recycle → Lpm → Lpm
unlink i in_use l = l
unlink i empty l = record l { tbl24 = store l.tbl24 i (record (l.tbl24 i) { valid = false }) }
unlink i (uniform start) l =
    let e = l.tbl8 start in
    record l { tbl24 = store l.tbl24 i (entry e.next_hop true false e.depth) }

-- The loop of `delete_depth_big` over the range of the rule.
unfoldable pub delete_range : Lpm → ℕ → ℕ → ℕ → Option (ℕ × ℕ) → Lpm
delete_range l start index depth none = record l {
  tbl8 = over index (depth_to_range depth) (drop_tbl8 depth) l.tbl8;
}
delete_range l start index depth (some (sub_rule_index, sub_rule_depth)) =
    let next_hop = (l.rules_tbl sub_rule_index).next_hop in
    let new = entry next_hop true (l.tbl8 start).valid_group sub_rule_depth in
    record l { tbl8 = over index (depth_to_range depth) (swap_tbl8 depth new) l.tbl8 }

-- `delete_depth_big`
unfoldable pub delete_depth_big : Lpm → ℕ → ℕ → Option (ℕ × ℕ) → Lpm
delete_depth_big l ip_masked depth sub =
    let i = ip_masked / 2 ^ 8 in
    let start = group_start (l.tbl24 i).next_hop in
    let index = add32 start (bit_and ip_masked 0xff) in
    let l' = delete_range l start index depth sub in unlink i (tbl8_recycle_check l'.tbl8 start) l'

-- `rte_lpm_delete`
unfoldable pub delete : Lpm → ℕ → ℕ → Status × Lpm
delete l ip depth =
    if ltb depth 1 || ltb rte_lpm_max_depth depth
    then (fail einval, l)
    else (let ip_masked = bit_and ip (depth_to_mask depth) in
        elim (rule_find l ip_masked depth) [
          | none ↦ (fail einval, l)
          | some rule_to_delete_index ↦
              let l' = rule_delete l rule_to_delete_index depth in
              let sub = find_previous_rule l' ip depth in
              (
                done,
                if leb depth max_depth_tbl24
                    then delete_depth_small l' ip_masked depth sub
                    else delete_depth_big l' ip_masked depth sub,
              )
        ])
