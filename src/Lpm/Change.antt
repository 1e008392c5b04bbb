-- ===== src/Lpm/Change.antt =====
-- `rule_add` of lpm/lpm.c against the set of rules that the table holds.
use dpdk_code_modify.Base.{
  ℕ, ◌+◌, ◌-◌, ◌≤◌, ◌<◌, ◌≡◌, ◌≢◌, refl, sym, ap, ◌∙◌, Bool, arith, ◌==◌, if◌then◌else◌, Bool-cases,
  inl, inr, ==_iff, dec_lt, lt→ltb,
}
use dpdk_code_modify.Base.Errno.{enospc}
use dpdk_code_modify.Base.Words.{add32}
use dpdk_code_modify.Lpm.Types.{Lpm}
use dpdk_code_modify.Lpm.Rules.{
  Scan, hit, past, scan, scan_group, Placed, placed, refused, fresh_index, write_rule, insert_rule,
  make_room, group_end, update_rule, rule_add,
}
use dpdk_code_modify.Lpm.Find.{ScanOutcome, scan-ScanOutcome}
use dpdk_code_modify.Lpm.Groups.{
  used, first, IsGrouped, SameRules, SameRules-self, SameRules-trans, HasGap,
}
use dpdk_code_modify.Lpm.Written.{
  IsChanged-after, IsAbsent, write_rule-IsGrouped, write_rule-IsChanged, write_rule-at,
}
use dpdk_code_modify.Lpm.Full.{IsFull, at_end, fresh_index-IsFull, make_room_full}
use dpdk_code_modify.Lpm.Room.{RoomOutcome, room_made, no_room, make_room-RoomOutcome}
use dpdk_code_modify.Lpm.Slot.{
  scan_past, used-HasGap, started-IsGrouped, started-SameRules, started-HasGap,
}
use dpdk_code_modify.Lpm.Updated.{RuleChange, changed, full, update_rule-RuleChange}

module _ (depth ip next_hop : ℕ) (one : 1 ≤ depth) (top : depth ≤ 32) where
  -- A rule that is not there, with its place `r` known.
  insert_rule-RuleChange :
      (r : ℕ) (l l' : Lpm)
      → IsGrouped l'
      → SameRules l l'
      → HasGap depth 32 r l'
      → IsAbsent l (depth - 1) ip
      → ((j : ℕ)
          → depth ≤ j
          → j < 32
          → group_end (l'.rule_info j) ≡ l'.max_rules
          → IsFull l (depth - 1))
      → RuleChange l (depth - 1) ip next_hop (insert_rule r ip depth next_hop l')
  unfolding insert_rule
  insert_rule-RuleChange r l l' k s p absent filled =
      go _ refl
        (make_room-RoomOutcome (32 - depth) 32 depth r l' k one top (omega arith) (omega arith) p)
    where
      go :
          (o : Bool × Lpm)
          → make_room (32 - depth) 32 depth l' ≡ o
          → RoomOutcome depth r l' o
          → RuleChange l (depth - 1) ip next_hop (
              if o.0
              then (placed r, write_rule r ip depth next_hop (o.1))
              else (refused enospc, o.1))
      go _ e (no_room k' t) =
          let (j, ge, lt, at) =
            make_room_full (32 - depth) 32 depth l' (ap (λ (o : Bool × Lpm). o.0) e) in
          full k' (SameRules-trans s t) absent (filled j ge lt at)
      go _ e (room_made {l' = m} k' p' t) =
          let both = SameRules-trans s t in
          let absent' : IsAbsent m (depth - 1) ip =
            λ n o. absent n (both.only (depth - 1) ip n (omega arith) o) in
          let (from, to, at) = write_rule-at m k' depth r ip next_hop one top p' absent' in
          changed r (write_rule-IsGrouped m k' depth r ip next_hop one top p' absent')
            (IsChanged-after both
              (write_rule-IsChanged m k' depth r ip next_hop one top p' absent'))
            from to at

  scanned :
      (l : Lpm)
      → IsGrouped l
      → 0 < used l (depth - 1)
      → (o : Scan) → scan_group l ip depth ≡ o
      → ScanOutcome
          (first l (depth - 1))
          (first l (depth - 1) + used l (depth - 1))
          ip
          l.rules_tbl
          o
      → RuleChange l (depth - 1) ip next_hop (elim o as (λ _. Placed × Lpm) [
        | hit rule_index ↦ update_rule rule_index next_hop l
        | past rule_index ↦
            if rule_index == l.max_rules
            then (refused enospc, l)
            else insert_rule rule_index ip depth next_hop l
      ])
  scanned l k pos _ e (ScanOutcome.at i from to at before) =
      update_rule-RuleChange l k (depth - 1) i ip next_hop (omega arith) from to at
  scanned l k pos _ e (ScanOutcome.nowhere {j} none_there) =
      let limit = k.few in
      let ends = k.ends (depth - 1) (omega arith) pos in
      let last = first l (depth - 1) + used l (depth - 1) in
      let whole : add32 (first l (depth - 1)) (used l (depth - 1)) ≡ last = omega arith in
      let stop : j ≡ last =
        scan_past (used l (depth - 1)) (first l (depth - 1)) last ip l.rules_tbl (omega arith)
          (omega arith) (omega arith)
          (ap (λ (t : ℕ). scan (used l (depth - 1)) (first l (depth - 1)) t ip l.rules_tbl)
              (sym whole)
            ∙ e) in
      let absent : IsAbsent l (depth - 1) ip = λ n o. none_there o.k o.from o.to o.at in
      elim (Bool-cases (j == l.max_rules)) [
        | inl none_left ↦
            let ended : group_end (l.rule_info (depth - 1)) ≡ l.max_rules =
              whole ∙ sym stop ∙ (==_iff j l.max_rules).0 none_left in
            rw none_left (
              full k (SameRules-self l) absent
                (at_end (depth - 1) (omega arith) (inl (omega arith)) ended))
        | inr fits ↦
            let room : last ≢ l.max_rules = ground (arith, (==_iff j l.max_rules).1) in
            rw (fits, stop)
              (insert_rule-RuleChange last l l k (SameRules-self l)
                (used-HasGap l k depth one top pos room) absent
                (λ a ge lt ended. at_end a lt (inl (omega arith)) ended))
      ]

  -- On a grouped rule table, for a depth from 1 to 32, `rule_add` ends in one of the three ways of
  -- `RuleChange`: the rule is at the index returned, in place of any other next hop for its
  -- prefix, and all other rules are kept; or it was there with the same next hop and nothing
  -- changes; or the prefix has no rule, there is no space (the table has no cell, or a group with
  -- rules, or one of this depth or deeper, ends where the table does), and the rules are those
  -- that were there. The table stays grouped: the groups in order, inside the table, and each
  -- address once in a group.
  pub rule_add-RuleChange :
      (l : Lpm) → IsGrouped l → RuleChange l (depth - 1) ip next_hop (rule_add l ip depth next_hop)
  unfolding rule_add
  rule_add-RuleChange l k = elim (dec_lt 0 (used l (depth - 1))) [
    | yes pos ↦
        let limit = k.few in
        let ends = k.ends (depth - 1) (omega arith) pos in
        let last = first l (depth - 1) + used l (depth - 1) in
        let whole : add32 (first l (depth - 1)) (used l (depth - 1)) ≡ last = omega arith in
        rw (rule_add, lt→ltb 0 (used l (depth - 1)) pos)
          (scanned l k pos _ refl (
            rw (whole, scan_group)
              (scan-ScanOutcome (used l (depth - 1)) (first l (depth - 1)) last ip l.rules_tbl
                (omega arith) (omega arith))))
    | no zero_used ↦
        let none_used : used l (depth - 1) ≡ 0 = omega arith in
        let r = fresh_index (depth - 1) l in
        let absent : IsAbsent l (depth - 1) ip =
          λ n o. let from = o.from in let to = o.to in omega arith in
        elim (Bool-cases (r == l.max_rules)) [
          | inl none_left ↦
              rw (rule_add, none_used, none_left)
                (full k (SameRules-self l) absent (
                  fresh_index-IsFull (depth - 1) (depth - 1) l (omega arith)
                    ((==_iff r l.max_rules).0 none_left)))
          | inr fits ↦
              let room : r ≢ l.max_rules = ground (arith, (==_iff r l.max_rules).1) in
              rw (rule_add, none_used, fits)
                (insert_rule-RuleChange r l _ (started-IsGrouped l k depth one top none_used)
                  (started-SameRules l k depth one top none_used)
                  (started-HasGap l k depth one top none_used room) absent
                  (λ a ge lt ended. at_end a lt (inl (omega arith)) (ground arith)))
        ]
  ]
