-- ===== src/Lpm/Retract.antt =====
-- What `rte_lpm_delete` of lpm/lpm.c leaves of the best answers when it takes a rule out.
use native.Mathlib.Nat.{div-lt_iff_lt-mul}
use dpdk_code_modify.Base.{
  ℕ, ◌+◌, ◌-◌, ◌*◌, ◌/◌, ◌^◌, ◌≤◌, ◌<◌, ◌≡◌, ◌≢◌, refl, ap, ◌∙◌, Bool, true, false, Option, some,
  none, arith, if◌then◌else◌, Bool-cases, inl, inr, ==_iff, dec_lt, le→leb, lt→not-leb, lt→ltb,
}
use dpdk_code_modify.Base.Words.{pow_sum}
use dpdk_code_modify.Base.Bits.{pow_split}
use dpdk_code_modify.Lpm.Types.{Lpm}
use dpdk_code_modify.Lpm.Prefix.{base, covers}
use dpdk_code_modify.Lpm.Lookup.{view}
use dpdk_code_modify.Lpm.Cells.{IsLinked}
use dpdk_code_modify.Lpm.Delete.{retract, sub_answer, is_covered, is_shallower}
use dpdk_code_modify.Lpm.Rules.{rule_delete, find_previous_rule}
use dpdk_code_modify.Lpm.Table.{SameTables, view-SameTables, rule_delete-SameTables}
use dpdk_code_modify.Lpm.Find.{PreviousOutcome, find_previous_rule-PreviousOutcome}
use dpdk_code_modify.Lpm.Groups.{used, first, IsGrouped, HasRule}
use dpdk_code_modify.Lpm.Removed.{IsRemoved}
use dpdk_code_modify.Lpm.Deleted.{rule_delete-IsRemoved}
use dpdk_code_modify.Lpm.Kept.{SameRuleTable, SameRuleTable-SameRules, SameRuleTable-IsGrouped}
use dpdk_code_modify.Lpm.Best.{
  Matches, IsBest, unmatched, deepest, IsRouting, IsBest-SameRules, other_depth, other_base,
  covers-base, base-covers,
}
use dpdk_code_modify.Lpm.Dropped.{sub-IsBest}

pub shallower :
    {l : Lpm} {ip d : ℕ} {sub : Option (ℕ × ℕ)}
    → PreviousOutcome l ip d sub
    → is_shallower d sub ≡ true
shallower (PreviousOutcome.at i p pos below found above) = lt→ltb p _ below
shallower (PreviousOutcome.nowhere none_below) = refl

some_answer : (l : Lpm) (q : ℕ) {x : ℕ × ℕ} → view l q ≡ some x → is_covered l q ≡ true
some_answer l q e =
    ap (λ (o : Option (ℕ × ℕ)). elim o as (λ _. Bool) [ none ↦ false | some _ ↦ true ]) e

-- An address with the prefix of a word is a word.
covers_word : (ip d q : ℕ) → ip < 2 ^ 32 → d ≤ 32 → covers ip d q ≡ true → q < 2 ^ 32
covers_word ip d q word high inside =
    let pos : 0 < 2 ^ (32 - d) = omega (arith, pow_split (32 - d)) in
    let full : 32 ≡ d + (32 - d) = omega arith in
    let whole : 2 ^ 32 ≡ 2 ^ d * 2 ^ (32 - d) = ap (λ (t : ℕ). 2 ^ t) full ∙ pow_sum d (32 - d) in
    let e : q / 2 ^ (32 - d) ≡ ip / 2 ^ (32 - d) =
      (==_iff (q / 2 ^ (32 - d)) (ip / 2 ^ (32 - d))).0 inside in
    let few : ip / 2 ^ (32 - d) < 2 ^ d =
      (div-lt_iff_lt-mul {k = 2 ^ (32 - d)} {x = ip} {y = 2 ^ d} pos).1 (omega arith) in
    let lt : q < 2 ^ d * 2 ^ (32 - d) =
      (div-lt_iff_lt-mul {k = 2 ^ (32 - d)} {x = q} {y = 2 ^ d} pos).0 (omega arith) in
    omega arith

-- The rule at `i` of the group of depth `d` is deleted.
module _ (l : Lpm) (ip d i : ℕ) (t : IsRouting l) (word : ip < 2 ^ 32) (low : 1 ≤ d) (high : d ≤ 32)
    (from : first l (d - 1) ≤ i) (to : i < first l (d - 1) + used l (d - 1))
    (at : (l.rules_tbl i).ip ≡ base ip d) where
  abbrev pub l1 : Lpm
  l1 = rule_delete l i d

  abbrev pub sub : Option (ℕ × ℕ)
  sub = find_previous_rule l1 ip d

  pub deleted : IsGrouped l1 × IsRemoved l (d - 1) (base ip d) l1
  deleted =
      let (g, r) = rule_delete-IsRemoved l t.grouped i d low (omega arith) from to in
      (g, rw at at r)

  pub narrow1 : (j a n : ℕ) → j < 32 → HasRule l1 j a n → n < 2 ^ 24
  narrow1 j a n lt o = t.narrow j a n lt (deleted.1.only j a n lt o)

  -- The rule answered, at least.
  pub matched : (q : ℕ) → covers ip d q ≡ true → Matches l q d (l.rules_tbl i).next_hop
  matched q inside =
      rw (covers-base ip d 0 q low (omega arith) inside)
        (record { k = i; from = from; to = to; at = at; hop = refl })

  -- The best answers without the rule.
  pub retract-IsBest :
      (q : ℕ) (o : Option (ℕ × ℕ))
      → IsBest l q o
      → IsBest l1 q (if covers ip d q then retract d (sub_answer l1.rules_tbl sub) o else o)
  retract-IsBest q o best = elim (Bool-cases (covers ip d q)) [
    | inl inside ↦ rw inside (go o best inside)
    | inr outside ↦ rw outside (away o best (base-covers ip d 0 q low (omega arith) outside))
  ]
    where
      go :
          (o : Option (ℕ × ℕ))
          → IsBest l q o
          → covers ip d q ≡ true
          → IsBest l1 q (retract d (sub_answer l1.rules_tbl sub) o)
      go _ (unmatched none_there) inside =
          absurd (none_there d (l.rules_tbl i).next_hop low (omega arith) (matched q inside))
      go _ (deepest dep n low' high' m none_deeper) inside = elim (dec_lt d dep) [
        | yes deep ↦ rw (lt→not-leb dep d deep) (
            deepest dep n low' high'
              (deleted.1.kept (dep - 1) (base q dep) n (omega arith)
                (other_depth ip d 0 q low (omega arith) dep low' (omega arith)) m)
              (λ d' n' more few m'.
                none_deeper d' n' more few
                  (deleted.1.only (d' - 1) (base q d') n' (omega arith) m')))
        | no shallow ↦ rw (le→leb dep d (omega arith)) (
            sub-IsBest l l1 ip d q word low (omega arith) deleted.0 narrow1 deleted.1 sub inside
              (find_previous_rule-PreviousOutcome l1 ip d low)
              (λ d' n' more few m'.
                none_deeper d' n' (omega arith) few
                  (deleted.1.only (d' - 1) (base q d') n' (omega arith) m')))
      ]

      away : (o : Option (ℕ × ℕ)) → IsBest l q o → base q d ≢ base ip d → IsBest l1 q o
      away _ (unmatched none_there) ne = unmatched (λ d' n low' high' m.
          none_there d' n low' high' (deleted.1.only (d' - 1) (base q d') n (omega arith) m))
      away _ (deepest dep n low' high' m none_deeper) ne =
          deepest dep n low' high'
            (deleted.1.kept (dep - 1) (base q dep) n (omega arith)
              (other_base ip d 0 q low (omega arith) ne dep low') m)
            (λ d' n' more few m'.
              none_deeper d' n' more few (deleted.1.only (d' - 1) (base q d') n' (omega arith) m'))

  pub tables : SameTables l l1
  tables = rule_delete-SameTables l i d

  -- Every address with the prefix has an answer.
  pub prefix_covered : (q : ℕ) → covers ip d q ≡ true → is_covered l1 q ≡ true
  prefix_covered q inside =
      go _ (t.answers q (covers_word ip d q word high inside)) (view-SameTables tables q)
    where
      go : (o : Option (ℕ × ℕ)) → IsBest l q o → view l1 q ≡ o → is_covered l1 q ≡ true
      go _ (unmatched none_there) e =
          absurd (none_there d (l.rules_tbl i).next_hop low (omega arith) (matched q inside))
      go _ (deepest dep n low' high' m none_deeper) e = some_answer l1 q e

  -- Tables over the rules that are left route, once they answer as `retract` says.
  pub retracted-IsRouting :
      (l2 : Lpm)
      → SameRuleTable l1 l2
      → IsLinked l2
      → ((q : ℕ)
          → view l2 q ≡ (
              if covers ip d q
              then retract d (sub_answer l1.rules_tbl sub) (view l q)
              else view l q))
      → IsRouting l2
  retracted-IsRouting l2 s k over = record {
    linked = k;
    grouped = SameRuleTable-IsGrouped s deleted.0;
    narrow = λ j a n lt o. narrow1 j a n lt ((SameRuleTable-SameRules s).only j a n lt o);
    answers = λ q fits. rw (over q) (
        IsBest-SameRules (SameRuleTable-SameRules s)
          (retract-IsBest q (view l q) (t.answers q fits)));
  }
