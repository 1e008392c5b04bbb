-- ===== src/Lpm/Single.antt =====
-- A rule table of lpm/lpm.c with rules of one depth only: `rule_add` finds room below `max_rules`.
use dpdk_code_modify.Base.{
  ℕ, zero, suc, ◌+◌, ◌-◌, ◌^◌, ◌≤◌, ◌<◌, ◌≡◌, ◌≢◌, refl, true, false, arith, ltb, ◌==◌, Bool-cases,
  inl, inr, dec_lt, store, lt→ltb, le→not-ltb,
}
use dpdk_code_modify.Base.Errno.{eexist}
use dpdk_code_modify.Lpm.Types.{Lpm}
use dpdk_code_modify.Lpm.Rules.{
  scan_group, group_end, Placed, placed, refused, fresh_index, shift_up, make_room, write_rule,
  insert_rule, update_rule, rule_add,
}
use dpdk_code_modify.Lpm.Groups.{used, first}
use dpdk_code_modify.Lpm.Slot.{scan_past}
use dpdk_code_modify.Lpm.Table.{Scan-cases}

-- Only the group of depth `d` has rules, at most `c` of them, from index 0 on.
pub record IsSingle (d : ℕ) (l : Lpm) (c : ℕ) : Type 0 where
  pub others : (j : ℕ) → j < 32 → j ≢ d - 1 → (used l j ≡ 0) × (first l j ≡ 0)
  pub few : used l (d - 1) ≤ c
  pub front : first l (d - 1) ≡ 0

shift_still : (i : ℕ) (l : Lpm) → used l (i - 1) ≡ 0 → shift_up i l ≡ l
unfolding shift_up
shift_still i l e = rw e

make_room_still :
    (d fuel i : ℕ) (l : Lpm)
    → ((j : ℕ) → d ≤ j → j < 32 → (used l j ≡ 0) × (first l j ≡ 0))
    → 0 < l.max_rules
    → i ≤ 32
    → make_room fuel i d l ≡ (true, l)
unfolding make_room
make_room_still d zero i l unused room top = refl
make_room_still d (suc fuel) i l unused room top = elim (dec_lt d i) [
  | yes more ↦
      let (none_used, at_zero) = unused (i - 1) (omega arith) (omega arith) in
      let inside : (group_end (l.rule_info (i - 1)) == l.max_rules) ≡ false =
        ground (arith, none_used, at_zero, room) in
      rw (lt→ltb d i more, make_room, inside, shift_still i l none_used)
        (make_room_still d fuel (i - 1) l unused room (omega arith))
  | no over ↦ rw (le→not-ltb d i (omega arith), make_room) refl
]

fresh_still : (n : ℕ) (l : Lpm) → ((j : ℕ) → j < n → used l j ≡ 0) → fresh_index n l ≡ 0
unfolding fresh_index
fresh_still zero l unused = refl
fresh_still (suc n) l unused =
    let e : used l n ≡ 0 = unused n (omega arith) in
    rw (e, fresh_index) (fresh_still n l (λ j lt. unused j (omega arith)))

-- `rule_add` places the rule or knows it, and adds at most one rule.
pub data Fits (d c : ℕ) : Placed × Lpm → Type 0 where
  placed_there : {i : ℕ} {l : Lpm} → IsSingle d l (c + 1) → Fits d c (placed i, l)
  known_there : {l : Lpm} → IsSingle d l (c + 1) → Fits d c (refused eexist, l)

one_more : {d : ℕ} {l : Lpm} {c : ℕ} → IsSingle d l c → IsSingle d l (c + 1)
one_more s = record { others = s.others; few = omega (arith, s.few); front = s.front }

module _ (d : ℕ) (low : 1 ≤ d) (high : d ≤ 32) (ip next_hop : ℕ) where
  write_rule-IsSingle :
      (r : ℕ) (l : Lpm) (c : ℕ)
      → IsSingle d l c
      → c < 2 ^ 31
      → IsSingle d (write_rule r ip d next_hop l) (c + 1)
  unfolding write_rule
  write_rule-IsSingle r l c s small = record {
    others = λ j lt ne. ground (arith, s.others j lt ne);
    few = ground (arith, s.few);
    front = ground (arith, s.front);
  }

  insert_rule-Fits :
      (r : ℕ) (l : Lpm) (c : ℕ)
      → IsSingle d l c
      → c < l.max_rules
      → l.max_rules < 2 ^ 31
      → Fits d c (insert_rule r ip d next_hop l)
  unfolding insert_rule
  insert_rule-Fits r l c s room small =
      rw
        (make_room_still d (32 - d) 32 l (λ j ge lt. s.others j lt (omega arith)) (omega arith)
          (omega arith))
        (placed_there (write_rule-IsSingle r l c s (omega arith)))

  update_rule-Fits :
      (r : ℕ) (l : Lpm) (c : ℕ) → IsSingle d l c → Fits d c (update_rule r next_hop l)
  unfolding update_rule
  update_rule-Fits r l c s = elim (Bool-cases ((l.rules_tbl r).next_hop == next_hop)) [
    | inl again ↦ rw again (known_there (one_more s))
    | inr fresh ↦
        rw fresh
          (placed_there (one_more (record { others = s.others; few = s.few; front = s.front })))
  ]

  pub rule_add-Fits :
      (l : Lpm) (c : ℕ)
      → IsSingle d l c
      → c < l.max_rules
      → l.max_rules < 2 ^ 31
      → Fits d c (rule_add l ip d next_hop)
  unfolding rule_add
  rule_add-Fits l c s room small = elim (Bool-cases (ltb 0 (used l (d - 1)))) [
    | inl pos ↦ elim (Scan-cases (scan_group l ip d)) [
      | inl (i, found) ↦ rw (rule_add, pos, found) (update_rule-Fits i l c s)
      | inr (i, missed) ↦
          let whole : group_end (l.rule_info (d - 1)) ≡ used l (d - 1) =
            omega (arith, s.front, s.few) in
          let last : i ≡ group_end (l.rule_info (d - 1)) =
            scan_past (used l (d - 1)) (first l (d - 1)) (group_end (l.rule_info (d - 1))) ip
              l.rules_tbl {j = i} (omega (arith, s.front)) (omega arith) (omega arith) missed in
          let inside : (i == l.max_rules) ≡ false = ground (arith, s.few, last, whole) in
          rw (rule_add, pos, missed, inside) (insert_rule-Fits i l c s room small)
    ]
    | inr none_used ↦
        let unused : used l (d - 1) ≡ 0 = ground arith in
        let at_zero : fresh_index (d - 1) l ≡ 0 =
          fresh_still (d - 1) l (λ j lt. (s.others j (omega arith) (omega arith)).0) in
        let inside : (fresh_index (d - 1) l == l.max_rules) ≡ false =
          ground (arith, at_zero, room) in
        let l' = record l {
          rule_info =
              store l.rule_info (d - 1)
                (record (l.rule_info (d - 1)) { first_rule = fresh_index (d - 1) l });
        } in
        let s' : IsSingle d l' c = record {
          others = λ j lt ne. ground (arith, s.others j lt ne);
          few = ground (arith, s.few);
          front = ground (arith, at_zero);
        } in
        rw (rule_add, none_used, inside)
          (insert_rule-Fits (fresh_index (d - 1) l) l' c s' room small)
  ]
