-- ===== src/Lpm/Deletion.antt =====
-- `rte_lpm_delete` of lpm/lpm.c, against longest-prefix match.
use mathlib.Core.Path.{subst}
use dpdk_code_modify.Base.{
  ℕ, ◌+◌, ◌-◌, ◌*◌, ◌/◌, ◌^◌, ◌≤◌, ◌<◌, ◌≡◌, refl, sym, ap, ◌∙◌, true, Option, some, none, arith,
  leb, if◌then◌else◌, Bool-cases, inl, inr, dec_lt, le→leb, lt→not-leb, le→not-ltb, lt→ltb, bit_and,
}
use dpdk_code_modify.Base.Errno.{Status, done, fail, einval}
use dpdk_code_modify.Base.Words.{add32}
use dpdk_code_modify.Lpm.Types.{Lpm, depth_to_mask, max_depth_tbl24}
use dpdk_code_modify.Lpm.Prefix.{
  base, covers, masked-base, base-lt, small-covers, big-tail, big-covers,
}
use dpdk_code_modify.Lpm.Lookup.{view}
use dpdk_code_modify.Lpm.Cells.{IsLinked, group_start_lem}
use dpdk_code_modify.Lpm.Tables.{group_start}
use dpdk_code_modify.Lpm.Lookup.{is_extended}
use dpdk_code_modify.Lpm.Delete.{
  retract, sub_answer, Covered, is_shallower, delete_depth_small-Retracted,
}
use dpdk_code_modify.Lpm.Rules.{rule_delete, find_previous_rule}
use dpdk_code_modify.Lpm.Table.{SameTables, view-SameTables, IsLinked-SameTables}
use dpdk_code_modify.Lpm.Api.{
  delete_range, unlink, tbl8_recycle_check, delete_depth_small, delete_depth_big, delete,
}
use dpdk_code_modify.Lpm.Find.{find_previous_rule-PreviousOutcome}
use dpdk_code_modify.Lpm.Groups.{used, first}
use dpdk_code_modify.Lpm.Written.{IsAbsent}
use dpdk_code_modify.Lpm.Removed.{IsRemoved-after}
use dpdk_code_modify.Lpm.Ended.{
  GroupOutcome, no_group, DeleteOutcome, gone, no_rule, no_depth, unlink-GroupOutcome,
}
use dpdk_code_modify.Lpm.Kept.{
  SameRuleTable, SameRuleTable-trans, SameRuleTable-SameRules, delete_depth_small-SameRuleTable,
  delete_range-SameRuleTable, unlink-SameRuleTable,
}
use dpdk_code_modify.Lpm.Retract.{
  shallower, l1, sub, deleted, tables, retract-IsBest, prefix_covered, retracted-IsRouting,
}
use dpdk_code_modify.Lpm.DeleteBig.{delete_range-lem, delete_range-tbl24, unlink-lem}
use dpdk_code_modify.Lpm.Agree.{agree}
use dpdk_code_modify.Lpm.Recycle.{tbl8_recycle_check-RecycleOutcome}
use dpdk_code_modify.Lpm.Routing.{plain-IsAbsent}
use dpdk_code_modify.Lpm.Best.{IsRouting}
use dpdk_code_modify.Lpm.Dropped.{RuleFound, there, absent, rule_find-RuleFound}

-- The rule at `i` of the group of depth `d` is deleted.
module _ (l : Lpm) (ip d i : ℕ) (t : IsRouting l) (word : ip < 2 ^ 32) (low : 1 ≤ d) (high : d ≤ 32)
    (from : first l (d - 1) ≤ i) (to : i < first l (d - 1) + used l (d - 1))
    (at : (l.rules_tbl i).ip ≡ base ip d) where
  abbrev rest : Lpm
  rest = l1 l ip d i t word low high from to at

  abbrev instead : Option (ℕ × ℕ)
  instead = sub l ip d i t word low high from to at

  same : SameTables l rest
  same = tables l ip d i t word low high from to at

  linked : IsLinked rest
  linked = IsLinked-SameTables same t.linked

  shallow : is_shallower d instead ≡ true
  shallow = shallower (find_previous_rule-PreviousOutcome rest ip d low)

  -- What is left when only the lookup tables are written after the rule has gone.
  left :
      (l2 : Lpm)
      → SameRuleTable rest l2
      → IsRouting l2
      → GroupOutcome d (base ip d / 256) l2
      → DeleteOutcome l ip d (done, l2)
  left l2 s routing group =
      gone (record { k = i; from = from; to = to; at = at; hop = refl })
        (IsRemoved-after (omega arith) (deleted l ip d i t word low high from to at).1
          (SameRuleTable-SameRules s))
        routing group

  small-DeleteOutcome :
      d ≤ 24 → DeleteOutcome l ip d (done, delete_depth_small rest (base ip d) d instead)
  small-DeleteOutcome small =
      let run : Covered (base ip d / 256) (2 ^ (24 - d)) rest = λ q h.
        prefix_covered l ip d i t word low high from to at q
          (sym (small-covers ip d low high word small q) ∙ h) in
      let (k, over) =
        delete_depth_small-Retracted rest (base ip d) d instead (base-lt ip d low high word) small
          shallow linked run in
      let s = delete_depth_small-SameRuleTable rest (base ip d) d instead in
      left _ s
        (retracted-IsRouting l ip d i t word low high from to at _ s k (λ q.
          ground (arith, over q, small-covers ip d low high word small q, view-SameTables same q)))
        (no_group small)

  -- The group of a deep rule is there.
  deep_extended : 24 < d → is_extended (rest.tbl24 (base ip d / 256)) ≡ true
  deep_extended deep = elim (Bool-cases (is_extended (l.tbl24 (base ip d / 256)))) [
    | inl ext ↦ ap (λ (x : ℕ → _). is_extended (x (base ip d / 256))) same.tbl24 ∙ ext
    | inr plain ↦ absurd (
        plain-IsAbsent l ip d 0 t word low high (omega arith) deep plain (l.rules_tbl i).next_hop
          (record { k = i; from = from; to = to; at = at; hop = refl }))
  ]

  -- The tables once the range of the rule has been rewritten.
  abbrev ranged : Lpm
  ranged =
      let start = group_start (rest.tbl24 (base ip d / 256)).next_hop in
      delete_range rest start (add32 start (bit_and (base ip d) 0xff)) d instead

  module _ (deep : 24 < d) where
    ranged-lem :
        IsLinked ranged
        × ((q : ℕ)
            → view ranged q ≡ (
                if covers ip d q
                then retract d (sub_answer rest.rules_tbl instead) (view l q)
                else view l q))
    ranged-lem =
        let tail = big-tail ip d low high word deep in
        let ext = deep_extended deep in
        let (k, over) =
          delete_range-lem rest linked (base ip d) d deep high tail ext
            (λ q inside.
              prefix_covered l ip d i t word low high from to at q
                (sym (big-covers ip d low high word deep q) ∙ inside))
            instead shallow in
        (
          k,
          λ q. ground (arith, over q, big-covers ip d low high word deep q, view-SameTables same q),
        )

    ranged_tbl24 : ranged.tbl24 ≡ rest.tbl24
    ranged_tbl24 = delete_range-tbl24 rest _ _ d instead

    ranged_extended : is_extended (ranged.tbl24 (base ip d / 256)) ≡ true
    ranged_extended =
        ap (λ (x : ℕ → _). is_extended (x (base ip d / 256))) ranged_tbl24 ∙ deep_extended deep

    ranged_start :
        group_start (rest.tbl24 (base ip d / 256)).next_hop
        ≡ (ranged.tbl24 (base ip d / 256)).next_hop * 256
    ranged_start =
        let few = ranged-lem.0.few in
        let inside = ranged-lem.0.inside (base ip d / 256) ranged_extended in
        let e : (rest.tbl24 (base ip d / 256)).next_hop
            ≡ (ranged.tbl24 (base ip d / 256)).next_hop =
          ap (λ (x : ℕ → _). (x (base ip d / 256)).next_hop) (sym ranged_tbl24) in
        ap (λ (x : ℕ). group_start x) e
        ∙ group_start_lem (ranged.tbl24 (base ip d / 256)).next_hop (omega arith)

    big-DeleteOutcome : DeleteOutcome l ip d (done, delete_depth_big rest (base ip d) d instead)
    unfolding delete_depth_big
    big-DeleteOutcome =
        let (k, over) = ranged-lem in
        let few = k.few in
        let inside = k.inside (base ip d / 256) ranged_extended in
        let word' = base-lt ip d low high word in
        let start = (ranged.tbl24 (base ip d / 256)).next_hop * 256 in
        let outcome = tbl8_recycle_check-RecycleOutcome ranged.tbl8 start (omega arith) in
        let (k', kept) =
          unlink-lem ranged k (base ip d / 256) ranged_extended
            (tbl8_recycle_check ranged.tbl8 start) outcome
            (agree rest ranged (deleted l ip d i t word low high from to at).0
              (λ q fits. rw (over q) (
                retract-IsBest l ip d i t word low high from to at q (view l q) (t.answers q fits)))
              (base ip d / 256) (omega arith) ranged_extended) in
        let s =
          SameRuleTable-trans (delete_range-SameRuleTable rest _ _ d instead)
            (unlink-SameRuleTable _ _ _) in
        subst
          (λ (s : ℕ).
            DeleteOutcome l ip d
              (done, unlink (base ip d / 256) (tbl8_recycle_check ranged.tbl8 s) ranged))
          (sym ranged_start)
          (left _ s
            (retracted-IsRouting l ip d i t word low high from to at _ s k' (λ q. kept q ∙ over q))
            (unlink-GroupOutcome d (base ip d / 256) ranged _ outcome))

-- On a table that routes, for an address below 2 ^ 32 and any depth, `rte_lpm_delete` ends in one
-- of the three ways of `DeleteOutcome`. It returns 0, the rule table had the rule, now has all the
-- others and not this one, every address has the answer of longest-prefix match over the rules
-- that are left, and for a depth above 24 either the tbl24 entry is no longer linked to a tbl8
-- group, or the group is still needed: it has a valid entry, but its entries are not all valid
-- with one depth of 24 at most. Or it returns `-EINVAL` and nothing changes, because the rule
-- table has no rule for the prefix; or because the depth is not from 1 to 32.
pub delete-DeleteOutcome :
    (l : Lpm) (ip d : ℕ) → IsRouting l → ip < 2 ^ 32 → DeleteOutcome l ip d (delete l ip d)
unfolding delete
delete-DeleteOutcome l ip d t word = elim (dec_lt d 1) [
  | yes none_of_depth ↦ rw (lt→ltb d 1 none_of_depth) (no_depth (inl none_of_depth))
  | no some_depth ↦ elim (dec_lt 32 d) [
    | yes over ↦ rw (le→not-ltb d 1 (omega arith), lt→ltb 32 d over) (no_depth (inr over))
    | no word_depth ↦
        let low : 1 ≤ d = omega arith in
        let high : d ≤ 32 = omega arith in
        rw (le→not-ltb d 1 low, le→not-ltb 32 d high)
          (go low high _ (masked-base ip d low high word) _
            (rule_find-RuleFound l (bit_and ip (depth_to_mask d)) d t.grouped low high))
  ]
]
  where
    go :
        1 ≤ d
        → d ≤ 32
        → (m : ℕ) → m ≡ base ip d
        → (o : Option ℕ) → RuleFound l m d o
        → DeleteOutcome l ip d (elim o as (λ _. Status × Lpm) [
          | none ↦ (fail einval, l)
          | some rule_to_delete_index ↦
              let l' = rule_delete l rule_to_delete_index d in
              let sub = find_previous_rule l' ip d in
              (
                done,
                if leb d max_depth_tbl24
                    then delete_depth_small l' m d sub
                    else delete_depth_big l' m d sub,
              )
        ])
    go low high m e _ (there i from to at) = elim (dec_lt 24 d) [
      | yes deep ↦
          rw (lt→not-leb d 24 deep, e)
            (big-DeleteOutcome l ip d i t word low high from to (at ∙ e) deep)
      | no flat ↦
          let small : d ≤ 24 = omega arith in
          rw (le→leb d 24 small, e)
            (small-DeleteOutcome l ip d i t word low high from to (at ∙ e) small)
    ]
    go low high m e _ (absent none_there) =
        no_rule low high (subst (λ (x : ℕ). IsAbsent l (d - 1) x) e none_there)

DeleteOutcome-IsRouting :
    {l : Lpm} {ip d : ℕ} {o : Status × Lpm} → IsRouting l → DeleteOutcome l ip d o → IsRouting (o.1)
DeleteOutcome-IsRouting t (gone found removed routing group) = routing
DeleteOutcome-IsRouting t (no_rule low high none_there) = t
DeleteOutcome-IsRouting t (no_depth none_such) = t

-- Whatever it returns, `rte_lpm_delete` keeps a table routing.
pub delete-IsRouting :
    (l : Lpm) (ip d : ℕ) → IsRouting l → ip < 2 ^ 32 → IsRouting (delete l ip d).1
delete-IsRouting l ip d t word = DeleteOutcome-IsRouting t (delete-DeleteOutcome l ip d t word)
