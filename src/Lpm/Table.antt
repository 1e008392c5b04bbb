-- ===== src/Lpm/Table.antt =====
-- The rule table of lpm/lpm.c leaves the lookup tables alone.
use dpdk_code_modify.Base.{
  ℕ, zero, suc, ◌-◌, ◌≡◌, refl, ◌∙◌, arith, ltb, ◌==◌, Bool-cases, ◌⊎◌, inl, inr, ==_iff,
}
use dpdk_code_modify.Base.Errno.{enospc, eexist}
use dpdk_code_modify.Base.Words.{add32}
use dpdk_code_modify.Base.Loops.{for_loop}
use dpdk_code_modify.Lpm.Types.{Rule, Lpm}
use dpdk_code_modify.Lpm.Rules.{
  Scan, hit, past, scan, scan_group, group_end, Placed, placed, refused, fresh_index, shift_up,
  make_room, write_rule, insert_rule, update_rule, rule_add, shift_down, rule_delete,
}
use dpdk_code_modify.Lpm.Lookup.{view}
use dpdk_code_modify.Lpm.Cells.{IsLinked}

-- What a lookup reads is the same in both.
pub record SameTables (l l' : Lpm) : Type 0 where
  pub tbl24 : l'.tbl24 ≡ l.tbl24
  pub tbl8 : l'.tbl8 ≡ l.tbl8
  pub number : l'.number_tbl8s ≡ l.number_tbl8s

same : {l : Lpm} → SameTables l l
same = record { tbl24 = refl; tbl8 = refl; number = refl }

pub SameTables-trans : {l l' l'' : Lpm} → SameTables l l' → SameTables l' l'' → SameTables l l''
SameTables-trans s t = record {
  tbl24 = t.tbl24 ∙ s.tbl24;
  tbl8 = t.tbl8 ∙ s.tbl8;
  number = t.number ∙ s.number;
}

pub view-SameTables : {l l' : Lpm} → SameTables l l' → (q : ℕ) → view l' q ≡ view l q
view-SameTables s q = rw (s.tbl24, s.tbl8) refl

pub IsLinked-SameTables : {l l' : Lpm} → SameTables l l' → IsLinked l → IsLinked l'
IsLinked-SameTables s k = record {
  few = rw s.number k.few;
  narrow24 = rw s.tbl24 k.narrow24;
  shallow = rw s.tbl24 k.shallow;
  narrow8 = rw s.tbl8 k.narrow8;
  inside = rw (s.tbl24, s.number) k.inside;
  marked = rw (s.tbl24, s.tbl8) k.marked;
  apart = rw s.tbl24 k.apart;
}

shift_up-SameTables : (i : ℕ) (l : Lpm) → SameTables l (shift_up i l)
unfolding shift_up
shift_up-SameTables i l = elim (Bool-cases (ltb 0 (l.rule_info (i - 1)).used_rules)) [
  | inl used ↦ rw used (record { tbl24 = refl; tbl8 = refl; number = refl })
  | inr free ↦ rw free same
]

make_room-SameTables : (fuel i depth : ℕ) (l : Lpm) → SameTables l (make_room fuel i depth l).1
unfolding make_room
make_room-SameTables zero i depth l = same
make_room-SameTables (suc fuel) i depth l = elim (Bool-cases (ltb depth i)) [
  | inr over ↦ rw (over, make_room) same
  | inl more ↦ elim (Bool-cases (group_end (l.rule_info (i - 1)) == l.max_rules)) [
    | inl full ↦ rw (more, full, make_room) same
    | inr fits ↦
        rw (more, fits, make_room)
          (SameTables-trans (shift_up-SameTables i l)
            (make_room-SameTables fuel (i - 1) depth (shift_up i l)))
  ]
]

shift_down-SameTables : (i : ℕ) (l : Lpm) → SameTables l (shift_down i l)
unfolding shift_down
shift_down-SameTables i l = elim (Bool-cases (ltb 0 (l.rule_info i).used_rules)) [
  | inl used ↦ rw used (record { tbl24 = refl; tbl8 = refl; number = refl })
  | inr free ↦ rw free same
]

shifts-SameTables : (fuel i end : ℕ) (l : Lpm) → SameTables l (for_loop fuel i end shift_down l)
unfolding for_loop
shifts-SameTables zero i end l = same
shifts-SameTables (suc fuel) i end l = elim (Bool-cases (ltb i end)) [
  | inr over ↦ rw (over, for_loop) same
  | inl more ↦
      rw (more, for_loop)
        (SameTables-trans (shift_down-SameTables i l)
          (shifts-SameTables fuel (add32 i 1) end (shift_down i l)))
]

pub rule_delete-SameTables :
    (l : Lpm) (rule_index depth : ℕ) → SameTables l (rule_delete l rule_index depth)
unfolding rule_delete
rule_delete-SameTables l rule_index depth =
    let kept = shifts-SameTables (32 - depth) depth 32 (record l { rules_tbl = _ }) in
    record { tbl24 = kept.tbl24; tbl8 = kept.tbl8; number = kept.number }

-- How `rule_add` ends: the rule is in the table, or was there with the same next hop, or there is
-- no space. The lookup tables are as they were.
pub data RuleOutcome (l : Lpm) (ip_masked next_hop : ℕ) : Placed × Lpm → Type 0 where
  put : {i : ℕ} {l' : Lpm} → SameTables l l' → RuleOutcome l ip_masked next_hop (placed i, l')
  known :
      (i : ℕ)
      → (l.rules_tbl i).ip ≡ ip_masked
      → (l.rules_tbl i).next_hop ≡ next_hop
      → RuleOutcome l ip_masked next_hop (refused eexist, l)
  full : {l' : Lpm} → SameTables l l' → RuleOutcome l ip_masked next_hop (refused enospc, l')

scan_hit :
    (fuel i last ip_masked : ℕ) (t : ℕ → Rule) {j : ℕ}
    → scan fuel i last ip_masked t ≡ hit j
    → (t j).ip ≡ ip_masked
unfolding scan
scan_hit zero i last ip_masked t e = absurd (ground arith)
scan_hit (suc fuel) i last ip_masked t {j} e =
    ground (arith, scan_hit fuel (add32 i 1) last ip_masked t {j = j})

pub Scan-cases : (s : Scan) → ((i : ℕ) × (s ≡ hit i)) ⊎ ((i : ℕ) × (s ≡ past i))
Scan-cases (hit i) = inl (i, refl)
Scan-cases (past i) = inr (i, refl)

module _ (ip_masked depth next_hop : ℕ) where
  insert_rule-RuleOutcome :
      (i : ℕ) {l : Lpm} (l' : Lpm)
      → SameTables l l'
      → RuleOutcome l ip_masked next_hop (insert_rule i ip_masked depth next_hop l')
  unfolding insert_rule write_rule
  insert_rule-RuleOutcome i l' s =
      let room = make_room (32 - depth) 32 depth l' in
      let kept = SameTables-trans s (make_room-SameTables (32 - depth) 32 depth l') in
      elim (Bool-cases (room.0)) [
        | inl fits ↦
            rw fits (put (record { tbl24 = kept.tbl24; tbl8 = kept.tbl8; number = kept.number }))
        | inr none_left ↦ rw none_left (full kept)
      ]

  update_rule-RuleOutcome :
      (i : ℕ) (l : Lpm)
      → (l.rules_tbl i).ip ≡ ip_masked
      → RuleOutcome l ip_masked next_hop (update_rule i next_hop l)
  unfolding update_rule
  update_rule-RuleOutcome i l e = elim (Bool-cases ((l.rules_tbl i).next_hop == next_hop)) [
    | inl again ↦ rw again (known i e ((==_iff (l.rules_tbl i).next_hop next_hop).0 again))
    | inr fresh ↦ rw fresh (put (record { tbl24 = refl; tbl8 = refl; number = refl }))
  ]

  -- `rule_add` on any table returns an index, or `-EEXIST` with nothing changed when some rule has
  -- the address and the next hop given, or `-ENOSPC`; in every case the lookup tables are as they
  -- were.
  pub rule_add-RuleOutcome :
      (l : Lpm) → RuleOutcome l ip_masked next_hop (rule_add l ip_masked depth next_hop)
  unfolding rule_add
  rule_add-RuleOutcome l =
      let info = l.rule_info (depth - 1) in
      let fresh = fresh_index (depth - 1) l in
      elim (Bool-cases (ltb 0 info.used_rules)) [
        | inl used ↦ elim (Scan-cases (scan_group l ip_masked depth)) [
          | inl (i, found) ↦
              rw (rule_add, used, found)
                (update_rule-RuleOutcome i l (
                  scan_hit info.used_rules info.first_rule (group_end info) ip_masked l.rules_tbl
                    found))
          | inr (i, missed) ↦ elim (Bool-cases (i == l.max_rules)) [
            | inl none_left ↦ rw (rule_add, used, missed, none_left) (full same)
            | inr fits ↦ rw (rule_add, used, missed, fits) (insert_rule-RuleOutcome i l same)
          ]
        ]
        | inr unused ↦ elim (Bool-cases (fresh == l.max_rules)) [
          | inl none_left ↦ rw (rule_add, unused, none_left) (full same)
          | inr fits ↦
              rw (rule_add, unused, fits)
                (insert_rule-RuleOutcome fresh _
                  (record { tbl24 = refl; tbl8 = refl; number = refl }))
        ]
      ]

-- Whatever `rule_add` answers, the lookup tables are as before.
pub placed_tables :
    {l : Lpm} {ip next_hop : ℕ} {o : Placed × Lpm}
    → RuleOutcome l ip next_hop o
    → SameTables l (o.1)
placed_tables (put s) = s
placed_tables (known i at hop) = record { tbl24 = refl; tbl8 = refl; number = refl }
placed_tables (full s) = s
