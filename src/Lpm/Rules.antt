-- ===== src/Lpm/Rules.antt =====
-- The rule table of lpm/lpm.c: `rule_add`, `rule_find`, `rule_delete` and `find_previous_rule`.
-- Group `depth` of the table is `rule_info[depth - 1]`.
use dpdk_code_modify.Base.{
  ℕ, zero, suc, ◌-◌, Bool, true, false, Option, none, some, bit_and, ltb, ◌==◌, if◌then◌else◌,
  store,
}
use dpdk_code_modify.Base.Errno.{Errno, enospc, eexist}
use dpdk_code_modify.Base.Words.{add32, sub32}
use dpdk_code_modify.Base.Loops.{for_loop}
use dpdk_code_modify.Lpm.Types.{Rule, RuleInfo, Lpm, rte_lpm_max_depth, depth_to_mask}

-- How a scan over rules ends: at the rule that has the address, or past the last one.
pub data Scan : Type 0 where
  hit : ℕ → Scan
  past : ℕ → Scan

-- `for (; rule_index < last_rule; rule_index++) if (rules_tbl[rule_index].ip == ip_masked) ..`
unfoldable pub scan : ℕ → ℕ → ℕ → ℕ → (ℕ → Rule) → Scan
scan zero rule_index last_rule ip_masked t = past rule_index
scan (suc fuel) rule_index last_rule ip_masked t = elim (ltb rule_index last_rule) [
  | true ↦ elim ((t rule_index).ip == ip_masked) [
    | true ↦ hit rule_index
    | false ↦ scan fuel (add32 rule_index 1) last_rule ip_masked t
  ]
  | false ↦ past rule_index
]

-- One past the last used rule of a group.
abbrev pub group_end : RuleInfo → ℕ
group_end info = add32 info.first_rule info.used_rules

-- The scan of a whole group.
abbrev pub scan_group : Lpm → ℕ → ℕ → Scan
scan_group l ip_masked depth =
    let info = l.rule_info (depth - 1) in
    scan info.used_rules info.first_rule (group_end info) ip_masked l.rules_tbl

-- `rule_find`; `none` is `-EINVAL`.
unfoldable pub rule_find : Lpm → ℕ → ℕ → Option ℕ
rule_find l ip_masked depth = elim (scan_group l ip_masked depth) [
  | hit rule_index ↦ some rule_index
  | past rule_index ↦ none
]

-- The result of `rule_add`: a rule index, or `-errno`.
pub data Placed : Type 0 where
  placed : ℕ → Placed
  refused : Errno → Placed

-- The place of a first rule: behind the nearest group of a smaller depth that has rules.
unfoldable pub fresh_index : ℕ → Lpm → ℕ
fresh_index zero l = 0
fresh_index (suc i) l = elim (ltb 0 (l.rule_info i).used_rules) [
  | true ↦ group_end (l.rule_info i)
  | false ↦ fresh_index i l
]

-- The first rule of group `i` goes to the group's end.
unfoldable pub shift_up : ℕ → Lpm → Lpm
shift_up i l =
    let info = l.rule_info (i - 1) in
    if ltb 0 info.used_rules
    then record l {
      rules_tbl = store l.rules_tbl (group_end info) (l.rules_tbl info.first_rule);
      rule_info = store l.rule_info (i - 1) (record info { first_rule = add32 info.first_rule 1 });
    }
    else l

-- `for (i = RTE_LPM_MAX_DEPTH; i > depth; i--)` of `rule_add`; `false` is `-ENOSPC`.
unfoldable pub make_room : ℕ → ℕ → ℕ → Lpm → Bool × Lpm
make_room zero i depth l = (true, l)
make_room (suc fuel) i depth l = elim (ltb depth i) [
  | true ↦ elim (group_end (l.rule_info (i - 1)) == l.max_rules) [
    | true ↦ (false, l)
    | false ↦ make_room fuel (i - 1) depth (shift_up i l)
  ]
  | false ↦ (true, l)
]

-- The last lines of `rule_add`: the rule at `rule_index`, and one more rule in the group.
unfoldable pub write_rule : ℕ → ℕ → ℕ → ℕ → Lpm → Lpm
write_rule rule_index ip_masked depth next_hop l =
    let info = l.rule_info (depth - 1) in
    record l {
      rules_tbl = store l.rules_tbl rule_index (record { ip = ip_masked; next_hop = next_hop });
      rule_info =
          store l.rule_info (depth - 1) (record info { used_rules = add32 info.used_rules 1 });
    }

unfoldable pub insert_rule : ℕ → ℕ → ℕ → ℕ → Lpm → Placed × Lpm
insert_rule rule_index ip_masked depth next_hop l =
    let (fits, l') = make_room (rte_lpm_max_depth - depth) rte_lpm_max_depth depth l in
    if fits
    then (placed rule_index, write_rule rule_index ip_masked depth next_hop l')
    else (refused enospc, l')

-- `rule_add` on a rule that is there: a new next hop, or `-EEXIST` for the same one.
unfoldable pub update_rule : ℕ → ℕ → Lpm → Placed × Lpm
update_rule rule_index next_hop l =
    let rule = l.rules_tbl rule_index in
    if rule.next_hop == next_hop then (refused eexist, l) else (
      placed rule_index,
      record l { rules_tbl = store l.rules_tbl rule_index (record rule { next_hop = next_hop }) },
    )

-- `rule_add`
unfoldable pub rule_add : Lpm → ℕ → ℕ → ℕ → Placed × Lpm
rule_add l ip_masked depth next_hop =
    let info = l.rule_info (depth - 1) in
    elim (ltb 0 info.used_rules) [
      | true ↦ elim (scan_group l ip_masked depth) [
        | hit rule_index ↦ update_rule rule_index next_hop l
        | past rule_index ↦
            if rule_index == l.max_rules
            then (refused enospc, l)
            else insert_rule rule_index ip_masked depth next_hop l
      ]
      | false ↦
          let rule_index = fresh_index (depth - 1) l in
          if rule_index == l.max_rules
          then (refused enospc, l)
          else insert_rule rule_index ip_masked depth next_hop (record l {
            rule_info = store l.rule_info (depth - 1) (record info { first_rule = rule_index });
          })
    ]

-- The last rule of group `i + 1` goes in front of its first.
unfoldable pub shift_down : ℕ → Lpm → Lpm
shift_down i l =
    let info = l.rule_info i in
    if ltb 0 info.used_rules
    then record l {
      rules_tbl =
          store l.rules_tbl (sub32 info.first_rule 1) (l.rules_tbl (sub32 (group_end info) 1));
      rule_info = store l.rule_info i (record info { first_rule = sub32 info.first_rule 1 });
    }
    else l

-- `rule_delete`
unfoldable pub rule_delete : Lpm → ℕ → ℕ → Lpm
rule_delete l rule_index depth =
    let last = sub32 (group_end (l.rule_info (depth - 1))) 1 in
    let moved = record l { rules_tbl = store l.rules_tbl rule_index (l.rules_tbl last) } in
    let l' = for_loop (rte_lpm_max_depth - depth) depth rte_lpm_max_depth shift_down moved in
    let info = l'.rule_info (depth - 1) in
    record l' {
      rule_info =
          store l'.rule_info (depth - 1) (record info { used_rules = sub32 info.used_rules 1 });
    }

-- `find_previous_rule` on the depths from `prev_depth` down: the index and the depth of the rule.
unfoldable pub find_previous : ℕ → Lpm → ℕ → Option (ℕ × ℕ)
find_previous zero l ip = none
find_previous (suc below) l ip =
    let prev_depth = suc below in
    elim (rule_find l (bit_and ip (depth_to_mask prev_depth)) prev_depth) [
      | some rule_index ↦ some (rule_index, prev_depth)
      | none ↦ find_previous below l ip
    ]

-- `find_previous_rule`; `none` is -1.
unfoldable pub find_previous_rule : Lpm → ℕ → ℕ → Option (ℕ × ℕ)
find_previous_rule l ip depth = find_previous (depth - 1) l ip
