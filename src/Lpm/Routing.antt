-- ===== src/Lpm/Routing.antt =====
-- `rte_lpm_add` of lpm/lpm.c against longest-prefix match.
use native.Mathlib.Nat.{mul-div_cancel}
use dpdk_code_modify.Base.{
  ℕ, ◌+◌, ◌-◌, ◌*◌, ◌/◌, ◌%◌, ◌^◌, ◌≤◌, ◌<◌, ◌≡◌, refl, sym, ap, ◌∙◌, false, ◌&&◌, Option, some,
  arith, ◌==◌, if◌then◌else◌, Bool-cases, inl, inr, ==_iff, dec_lt, le→leb, lt→not-leb, le→not-ltb,
}
use dpdk_code_modify.Base.Errno.{Status}
use dpdk_code_modify.Base.Bits.{pow_split}
use dpdk_code_modify.Base.Loops.{within}
use dpdk_code_modify.Lpm.Types.{Rule, Lpm}
use dpdk_code_modify.Lpm.Prefix.{
  base, covers, masked-base, base-lt, small-covers, big-tail, big-covers,
}
use dpdk_code_modify.Lpm.Lookup.{view, is_extended}
use dpdk_code_modify.Lpm.Cells.{IsLinked, overlay}
use dpdk_code_modify.Lpm.Small.{add_depth_small-Overlaid}
use dpdk_code_modify.Lpm.Big.{BigOutcome, written, no_space, add_depth_big-BigOutcome}
use dpdk_code_modify.Lpm.Rules.{Placed, rule_delete}
use dpdk_code_modify.Lpm.Table.{
  SameTables, SameTables-trans, view-SameTables, IsLinked-SameTables, rule_delete-SameTables,
  rule_add-RuleOutcome, placed_tables,
}
use dpdk_code_modify.Lpm.Api.{settle_big, settle_rule, add}
use dpdk_code_modify.Lpm.Groups.{used, first, IsGrouped, HasRule, SameRules}
use dpdk_code_modify.Lpm.Written.{IsChanged, IsAbsent}
use dpdk_code_modify.Lpm.Updated.{RuleChange, changed, known, full}
use dpdk_code_modify.Lpm.Change.{rule_add-RuleChange}
use dpdk_code_modify.Lpm.Removed.{IsRemoved}
use dpdk_code_modify.Lpm.Deleted.{rule_delete-IsRemoved}
use dpdk_code_modify.Lpm.Kept.{
  SameRuleTable, SameRuleTable-SameRules, SameRuleTable-IsGrouped, add_depth_small-SameRuleTable,
  add_depth_big-SameRuleTable,
}
use dpdk_code_modify.Lpm.Best.{
  IsBest, unmatched, deepest, IsRouting, IsBest-SameRules, IsBest-IsChanged,
}

-- Neither the rules nor the tables have changed.
unchanged-IsRouting :
    {l l' : Lpm} → IsRouting l → SameTables l l' → IsGrouped l' → SameRules l l' → IsRouting l'
unchanged-IsRouting t s g r = record {
  linked = IsLinked-SameTables s t.linked;
  grouped = g;
  narrow = λ j ip n lt o. t.narrow j ip n lt (r.only j ip n lt o);
  answers = λ q word. rw (view-SameTables s q) (IsBest-SameRules r (t.answers q word));
}

module _ (l : Lpm) (ip d next_hop : ℕ) (t : IsRouting l) (word : ip < 2 ^ 32) (low : 1 ≤ d)
    (high : d ≤ 32) (hop : next_hop < 2 ^ 24) where
  laid_narrow :
      {l' : Lpm}
      → IsChanged l (d - 1) (base ip d) next_hop l'
      → (j ip' n : ℕ) → j < 32
      → HasRule l' j ip' n
      → n < 2 ^ 24
  laid_narrow c j ip' n lt o = elim (Bool-cases ((j == d - 1) && (ip' == base ip d))) [
    | inl same ↦
        let ej : j ≡ d - 1 = ground (arith, (==_iff j (d - 1)).0) in
        let ei : ip' ≡ base ip d = ground (arith, (==_iff ip' (base ip d)).0) in
        let e = c.alone n (rw (ej, ei) at o) in omega arith
    | inr other ↦ t.narrow j ip' n lt (c.only j ip' n lt other o)
  ]

  -- The rule is in the rule table, and then over the answers of its prefix.
  laid-IsRouting :
      (l' l'' : Lpm)
      → IsGrouped l'
      → IsChanged l (d - 1) (base ip d) next_hop l'
      → SameRuleTable l' l''
      → IsLinked l''
      → ((q : ℕ) → view l'' q ≡ (if covers ip d q then overlay d next_hop (view l q) else view l q))
      → IsRouting l''
  laid-IsRouting l' l'' g c s k over = record {
    linked = k;
    grouped = SameRuleTable-IsGrouped s g;
    narrow =
        λ j ip' n lt o. laid_narrow c j ip' n lt ((SameRuleTable-SameRules s).only j ip' n lt o);
    answers = λ q small. rw (over q) (
        IsBest-SameRules (SameRuleTable-SameRules s)
          (IsBest-IsChanged ip d next_hop q low high c (view l q) (t.answers q small)));
  }

  -- A deep prefix whose tbl24 entry has no group has no rule of that depth.
  pub plain-IsAbsent :
      24 < d → is_extended (l.tbl24 (base ip d / 256)) ≡ false → IsAbsent l (d - 1) (base ip d)
  plain-IsAbsent deep plain n o = go _ (t.answers (base ip d) (base-lt ip d low high word)) refl
    where
      again : base (base ip d) d ≡ base ip d
      again =
          let pos : 0 < 2 ^ (32 - d) = omega (arith, pow_split (32 - d)) in
          ap (λ (x : ℕ). x * 2 ^ (32 - d)) (mul-div_cancel (ip / 2 ^ (32 - d)) pos)

      shallow : {dep h : ℕ} → view l (base ip d) ≡ some (dep, h) → dep ≤ 24
      shallow e = let s = t.linked.shallow (base ip d / 256) in ground (arith, e, s, plain)

      go : (v : Option (ℕ × ℕ)) → IsBest l (base ip d) v → view l (base ip d) ≡ v → ⊥
      go _ (unmatched none_there) e = none_there d n low high (rw again o)
      go _ (deepest dep h low' high' m none_deeper) e =
          let few = shallow e in none_deeper d n (omega arith) high (rw again o)

  -- A rule that was not there is put and taken back.
  back-SameRules :
      {l' l'' : Lpm}
      → IsAbsent l (d - 1) (base ip d)
      → IsChanged l (d - 1) (base ip d) next_hop l'
      → IsRemoved l' (d - 1) (base ip d) l''
      → SameRules l l''
  back-SameRules {l''} absent c r = record {
    limit = r.limit ∙ c.limit;
    kept = λ j ip' n lt o. elim (Bool-cases ((j == d - 1) && (ip' == base ip d))) [
      | inl same ↦
          let ej : j ≡ d - 1 = ground (arith, (==_iff j (d - 1)).0) in
          let ei : ip' ≡ base ip d = ground (arith, (==_iff ip' (base ip d)).0) in
          absurd (absent n (rw (ej, ei) at o))
      | inr other ↦ r.kept j ip' n lt other (c.kept j ip' n lt other o)
    ];
    only = λ j ip' n lt o. elim (Bool-cases ((j == d - 1) && (ip' == base ip d))) [
      | inl same ↦
          let ej : j ≡ d - 1 = ground (arith, (==_iff j (d - 1)).0) in
          let ei : ip' ≡ base ip d = ground (arith, (==_iff ip' (base ip d)).0) in
          absurd (r.gone n (rw (ej, ei) at o))
      | inr other ↦ c.only j ip' n lt other (r.only j ip' n lt o)
    ];
  }

  settle_big-IsRouting :
      (i : ℕ) (l' : Lpm) (o : Status × Lpm)
      → SameTables l l'
      → IsGrouped l'
      → IsChanged l (d - 1) (base ip d) next_hop l'
      → first l' (d - 1) ≤ i
      → i < first l' (d - 1) + used l' (d - 1)
      → l'.rules_tbl i ≡ record { ip = base ip d; next_hop = next_hop }
      → 24 < d
      → SameRuleTable l' (o.1)
      → BigOutcome l'
          (λ l''.
            (q : ℕ)
            → view l'' q ≡ (
                if (q / 256 == base ip d / 256) && within (base ip d % 256) (2 ^ (32 - d)) (q % 256)
                then overlay d next_hop (view l' q)
                else view l' q))
          (base ip d / 256)
          o
      → IsRouting (settle_big i d o).1
  unfolding settle_big
  settle_big-IsRouting i l' _ s g c from to at deep r (written {l' = l''} k over) =
      laid-IsRouting l' l'' g c r k
        (λ q. ground (arith, over q, big-covers ip d low high word deep q, view-SameTables s q))
  settle_big-IsRouting i l' _ s g c from to at deep r (no_space none_left plain) =
      let (g', gone) = rule_delete-IsRemoved l' g i d low high from to in
      let where_it_was : (l'.rules_tbl i).ip ≡ base ip d = ap (λ (x : Rule). x.ip) at in
      let gone' : IsRemoved l' (d - 1) (base ip d) (rule_delete l' i d) = rw where_it_was at gone in
      let no_group : is_extended (l.tbl24 (base ip d / 256)) ≡ false =
        ap (λ (x : ℕ → _). is_extended (x (base ip d / 256))) (sym s.tbl24) ∙ plain in
      unchanged-IsRouting t (SameTables-trans s (rule_delete-SameTables l' i d)) g'
        (back-SameRules (plain-IsAbsent deep no_group) c gone')

  settle_rule-IsRouting :
      (o : Placed × Lpm)
      → SameTables l (o.1)
      → RuleChange l (d - 1) (base ip d) next_hop o
      → IsRouting (settle_rule (base ip d) d next_hop o).1
  unfolding settle_rule
  settle_rule-IsRouting _ s (changed {l'} i g c from to at) = elim (dec_lt 24 d) [
    | yes deep ↦
        rw (lt→not-leb d 24 deep, settle_rule)
          (settle_big-IsRouting i l' _ s g c from to at deep
            (add_depth_big-SameRuleTable d next_hop l' (base ip d))
            (add_depth_big-BigOutcome l' (base ip d) d next_hop (IsLinked-SameTables s t.linked)
              deep high hop (big-tail ip d low high word deep)))
    | no q ↦
        let small : d ≤ 24 = omega arith in
        let (k, over) =
          add_depth_small-Overlaid d next_hop small hop l' (base ip d) (base-lt ip d low high word)
            (IsLinked-SameTables s t.linked) in
        rw (le→leb d 24 small, settle_rule)
          (laid-IsRouting l' _ g c (add_depth_small-SameRuleTable d next_hop l' (base ip d)) k (λ q.
            ground (arith, over q, small-covers ip d low high word small q, view-SameTables s q)))
  ]
  settle_rule-IsRouting _ s (known there) = t
  settle_rule-IsRouting _ s (full g same absent none_free) = unchanged-IsRouting t s g same

  -- Whatever it returns, `rte_lpm_add` of an address below 2 ^ 32 with a depth from 1 to 32 and a
  -- next hop below 2 ^ 24 keeps a table routing: its rule groups stay in order, its lookup tables
  -- linked, and every address has the answer that longest-prefix match over the rules asks for.
  pub add-IsRouting : IsRouting (add l ip d next_hop).1
  unfolding add
  add-IsRouting =
      rw (le→not-ltb d 1 low, le→not-ltb 32 d high, masked-base ip d low high word)
        (settle_rule-IsRouting _ (placed_tables (rule_add-RuleOutcome (base ip d) d next_hop l))
          (rule_add-RuleChange d (base ip d) next_hop low high l t.grouped))
