-- ===== src/Lpm/Added.antt =====
-- What `rte_lpm_add` of lpm/lpm.c does to the answers of the tables.
use dpdk_code_modify.Base.{
  ℕ, ◌+◌, ◌-◌, ◌*◌, ◌/◌, ◌%◌, ◌^◌, ◌≤◌, ◌<◌, ◌≡◌, refl, sym, ◌∙◌, ap, true, false, ◌&&◌, Option,
  none, some, arith, ◌==◌, if◌then◌else◌, dec_lt, le→leb, lt→not-leb, le→not-ltb, Bool-cases, inl,
  inr,
}
use dpdk_code_modify.Base.Errno.{Status, done, fail, enospc, enoent}
use dpdk_code_modify.Base.Loops.{within}
use dpdk_code_modify.Lpm.Types.{Lpm}
use dpdk_code_modify.Lpm.Lookup.{is_extended, cell, view, lookup, lookup-cell}
use dpdk_code_modify.Lpm.Cells.{IsLinked, overlay}
use dpdk_code_modify.Lpm.Small.{add_depth_small-Overlaid}
use dpdk_code_modify.Lpm.Big.{BigOutcome, written, no_space, add_depth_big-BigOutcome}
use dpdk_code_modify.Lpm.Prefix.{
  base, covers, masked-base, base-lt, small-covers, big-tail, big-covers,
}
use dpdk_code_modify.Lpm.Rules.{Placed}
use dpdk_code_modify.Lpm.Groups.{IsGrouped, HasRule, SameRules}
use dpdk_code_modify.Lpm.Full.{IsFull}
use dpdk_code_modify.Lpm.Written.{IsChanged, IsAbsent}
use dpdk_code_modify.Lpm.Updated.{RuleChange, changed, known, full}
use dpdk_code_modify.Lpm.Change.{rule_add-RuleChange}
use dpdk_code_modify.Lpm.Kept.{
  SameRuleTable, SameRuleTable-SameRules, add_depth_small-SameRuleTable,
  add_depth_big-SameRuleTable,
}
use dpdk_code_modify.Lpm.Table.{
  SameTables, SameTables-trans, view-SameTables, IsLinked-SameTables, rule_delete-SameTables,
  rule_add-RuleOutcome, placed_tables,
}
use dpdk_code_modify.Lpm.Api.{refuse, settle_big, settle_rule, add}

-- How `rte_lpm_add` of a rule of depth `d` ends. Either the rule is in the rule table, it lies over
-- the answers of exactly the addresses of its prefix, and the tables hang together; or the rule was
-- in the rule table already with that next hop, and nothing has changed; or it was not, and the rule
-- table has no space for it; or every tbl8 group is in use and the rule needs a new one. In the last
-- two cases all answers are as before.
pub data AddOutcome (l : Lpm) (ip d next_hop : ℕ) : Status × Lpm → Type 0 where
  added :
      {l' : Lpm}
      → IsLinked l'
      → HasRule l' (d - 1) (base ip d) next_hop
      → ((q : ℕ) → view l' q ≡ (if covers ip d q then overlay d next_hop (view l q) else view l q))
      → AddOutcome l ip d next_hop (done, l')
  there : HasRule l (d - 1) (base ip d) next_hop → AddOutcome l ip d next_hop (done, l)
  rules_full :
      {l' : Lpm}
      → IsAbsent l (d - 1) (base ip d)
      → IsFull l (d - 1)
      → SameRules l l'
      → SameTables l l'
      → AddOutcome l ip d next_hop (fail enospc, l')
  groups_full :
      {l' : Lpm}
      → 24 < d
      → ((g : ℕ) → g < l.number_tbl8s → (l.tbl8 (g * 256)).valid_group ≡ true)
      → is_extended (l.tbl24 (base ip d / 256)) ≡ false
      → SameTables l l'
      → AddOutcome l ip d next_hop (fail enospc, l')

module _ (l : Lpm) (ip d next_hop : ℕ) (k : IsLinked l) (ordered : IsGrouped l) (word : ip < 2 ^ 32)
    (low : 1 ≤ d) (high : d ≤ 32) (hop : next_hop < 2 ^ 24) where
  -- The lookup tables are written after the rule.
  still_there :
      {l' l'' : Lpm}
      → IsChanged l (d - 1) (base ip d) next_hop l'
      → SameRuleTable l' l''
      → HasRule l'' (d - 1) (base ip d) next_hop
  still_there c r =
      (SameRuleTable-SameRules r).kept (d - 1) (base ip d) next_hop (omega arith) c.here

  settle_big-AddOutcome :
      (i : ℕ) (l' : Lpm) (o : Status × Lpm)
      → SameTables l l'
      → IsChanged l (d - 1) (base ip d) next_hop l'
      → SameRuleTable l' (o.1)
      → 24 < d
      → BigOutcome l'
          (λ l''.
            (q : ℕ)
            → view l'' q ≡ (
                if (q / 256 == base ip d / 256) && within (base ip d % 256) (2 ^ (32 - d)) (q % 256)
                then overlay d next_hop (view l' q)
                else view l' q))
          (base ip d / 256)
          o
      → AddOutcome l ip d next_hop (settle_big i d o)
  unfolding settle_big
  settle_big-AddOutcome i l' _ s c r big (written k' over) =
      added k' (still_there c r)
        (λ q. ground (arith, over q, big-covers ip d low high word big q, view-SameTables s q))
  settle_big-AddOutcome i l' _ s c r big (no_space used plain) =
      groups_full big
        (λ g lt.
          ap (λ (t : ℕ → _). (t (g * 256)).valid_group) (sym s.tbl8) ∙ used g (rw s.number lt))
        (ap (λ (t : ℕ → _). is_extended (t (base ip d / 256))) (sym s.tbl24) ∙ plain)
        (SameTables-trans s (rule_delete-SameTables l' i d))

  settle_rule-AddOutcome :
      (o : Placed × Lpm)
      → SameTables l (o.1)
      → RuleChange l (d - 1) (base ip d) next_hop o
      → AddOutcome l ip d next_hop (settle_rule (base ip d) d next_hop o)
  unfolding settle_rule refuse
  settle_rule-AddOutcome _ s (changed {l'} i g c from to at) = elim (dec_lt 24 d) [
    | yes big ↦
        rw (lt→not-leb d 24 big, settle_rule)
          (settle_big-AddOutcome i l' _ s c (add_depth_big-SameRuleTable d next_hop l' (base ip d))
            big
            (add_depth_big-BigOutcome l' (base ip d) d next_hop (IsLinked-SameTables s k) big high
              hop (big-tail ip d low high word big)))
    | no q ↦
        let small : d ≤ 24 = omega arith in
        let (k', over) =
          add_depth_small-Overlaid d next_hop small hop l' (base ip d) (base-lt ip d low high word)
            (IsLinked-SameTables s k) in
        rw (le→leb d 24 small, settle_rule)
          (added k' (still_there c (add_depth_small-SameRuleTable d next_hop l' (base ip d))) (λ q.
            ground (arith, over q, small-covers ip d low high word small q, view-SameTables s q)))
  ]
  settle_rule-AddOutcome _ s (known in_table) = there in_table
  settle_rule-AddOutcome _ s (full g same none_there no_cell) = rules_full none_there no_cell same s

  -- On linked tables with grouped rules, for an address below 2 ^ 32, a depth from 1 to 32 and a
  -- next hop below 2 ^ 24, `rte_lpm_add` ends in one of the four ways of `AddOutcome`. It returns
  -- 0, the rule is in the rule table, lies over the answers of exactly the addresses of its
  -- prefix, and the tables stay linked; or it returns 0, the rule table had the rule with that
  -- next hop, and nothing changes; or it returns `-ENOSPC`, the rule table had no rule for the
  -- prefix and no space for one, its rules are those that were there and every lookup table is as
  -- before; or it returns `-ENOSPC`, the depth is above 24, every tbl8 group is in use, the tbl24
  -- entry has none, and every lookup table is as before.
  pub add-AddOutcome : AddOutcome l ip d next_hop (add l ip d next_hop)
  unfolding add
  add-AddOutcome =
      rw (le→not-ltb d 1 low, le→not-ltb 32 d high, masked-base ip d low high word)
        (settle_rule-AddOutcome _ (placed_tables (rule_add-RuleOutcome (base ip d) d next_hop l))
          (rule_add-RuleChange d (base ip d) next_hop low high l ordered))

-- On linked tables a lookup tells the answer of the address: the next hop, or `-ENOENT`.
abbrev pub Says : Option (ℕ × ℕ) → Status × ℕ → Type 0
Says none (s, next_hop) = s ≡ fail enoent
Says (some (depth, old)) (s, next_hop) = (s ≡ done) × (next_hop ≡ old)

-- On linked tables `rte_lpm_lookup` tells the answer of the address: 0 and its next hop, or
-- `-ENOENT` where no rule answers.
pub lookup-Says : {l : Lpm} → IsLinked l → (q : ℕ) → Says (view l q) (lookup l q)
lookup-Says {l} k q =
    let narrow : (cell l q).next_hop < 2 ^ 24 =
      ground
        (arith, k.narrow24 (q / 256), k.narrow8 ((l.tbl24 (q / 256)).next_hop * 256 + q % 256)) in
    rw (lookup-cell l q (k.narrow24 (q / 256)) narrow) (elim (Bool-cases (cell l q).valid) [
      | inl hit ↦ rw hit (refl, refl)
      | inr miss ↦ rw miss refl
    ])
