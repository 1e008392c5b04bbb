-- ===== src/Lpm/Full.antt =====
-- When `rule_add` of lpm/lpm.c may find no space.
use dpdk_code_modify.Base.{
  ℕ, zero, suc, ◌-◌, ◌≤◌, ◌<◌, ◌≡◌, sym, ◌∙◌, ◌⊎◌, inl, inr, false, arith, ltb, ◌==◌, Bool-cases,
  dec_lt, ==_iff,
}
use dpdk_code_modify.Lpm.Types.{Lpm}
use dpdk_code_modify.Lpm.Rules.{group_end, shift_up, make_room, fresh_index}
use dpdk_code_modify.Lpm.Groups.{used}

-- A new rule of group `g` finds no space: the table has no cell at all, or a group ends where the table
-- does, one with rules, or one that is `g` or behind it.
pub data IsFull (l : Lpm) (g : ℕ) : Type 0 where
  no_cells : l.max_rules ≡ 0 → IsFull l g
  at_end :
      (j : ℕ)
      → j < 32
      → (g ≤ j) ⊎ (0 < used l j)
      → group_end (l.rule_info j) ≡ l.max_rules
      → IsFull l g

pub fresh_index-IsFull : (n g : ℕ) (l : Lpm) → n ≤ 32 → fresh_index n l ≡ l.max_rules → IsFull l g
unfolding fresh_index
fresh_index-IsFull zero g l few e = no_cells (sym e)
fresh_index-IsFull (suc n) g l few e = elim (Bool-cases (ltb 0 (used l n))) [
  | inl some_used ↦ at_end n (omega arith) (inr (ground arith)) (ground arith)
  | inr none_used ↦ fresh_index-IsFull n g l (omega arith) (ground arith)
]

-- Moving group `m` leaves the groups before it.
shift_up_before :
    (m j : ℕ) (l : Lpm)
    → j < m
    → (group_end ((shift_up (suc m) l).rule_info j) ≡ group_end (l.rule_info j))
      × ((shift_up (suc m) l).max_rules ≡ l.max_rules)
unfolding shift_up
shift_up_before m j l lt = elim (Bool-cases (ltb 0 (used l m))) [
  | inl pos ↦ ground arith
  | inr none_used ↦ ground arith
]

-- The loop of `rule_add` stops early only where a group ends with the table.
pub make_room_full :
    (fuel i depth : ℕ) (l : Lpm)
    → (make_room fuel i depth l).0 ≡ false
    → (j : ℕ) × (depth ≤ j) × (j < i) × (group_end (l.rule_info j) ≡ l.max_rules)
unfolding make_room
make_room_full zero i depth l e = absurd (ground arith)
make_room_full (suc fuel) zero depth l e = absurd (ground arith)
make_room_full (suc fuel) (suc m) depth l e = elim (dec_lt depth (suc m)) [
  | no over ↦ absurd (ground arith)
  | yes more ↦
      let before : suc m - 1 ≡ m = omega arith in
      elim (Bool-cases (group_end (l.rule_info m) == l.max_rules)) [
        | inl full ↦
            (m, omega arith, omega arith, (==_iff (group_end (l.rule_info m)) l.max_rules).0 full)
        | inr fits ↦
            let rest : (make_room fuel m depth (shift_up (suc m) l)).0 ≡ false =
              ground (arith, before) in
            let (j, ge, lt, at) = make_room_full fuel m depth (shift_up (suc m) l) rest in
            let (same, limit) = shift_up_before m j l lt in
            (j, ge, omega arith, sym same ∙ at ∙ limit)
      ]
]
