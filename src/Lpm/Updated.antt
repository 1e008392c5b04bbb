-- ===== src/Lpm/Updated.antt =====
-- How `rule_add` of lpm/lpm.c changes the set of rules, and its branch for a rule that is there.
use dpdk_code_modify.Base.{
  ℕ, ◌+◌, ◌≤◌, ◌<◌, ◌≡◌, refl, sym, ap, ◌∙◌, false, ◌&&◌, arith, ◌==◌, if◌then◌else◌, Bool-cases,
  inl, inr, ==_iff, ==_self, store,
}
use dpdk_code_modify.Base.Errno.{enospc, eexist}
use dpdk_code_modify.Lpm.Types.{Lpm}
use dpdk_code_modify.Lpm.Rules.{Placed, placed, refused, update_rule}
use dpdk_code_modify.Lpm.Groups.{used, first, IsGrouped, HasRule, SameRules}
use dpdk_code_modify.Lpm.Full.{IsFull}
use dpdk_code_modify.Lpm.Written.{IsChanged, IsAbsent}

-- How `rule_add` ends. The rule is in the table, at the index that is returned, in place of any
-- other next hop; or it was there, and nothing has changed; or it is not there and there is no space
-- (`IsFull`), and the table has the rules that it had.
pub data RuleChange (l : Lpm) (g ip next_hop : ℕ) : Placed × Lpm → Type 0 where
  changed :
      {l' : Lpm} (i : ℕ)
      → IsGrouped l'
      → IsChanged l g ip next_hop l'
      → first l' g ≤ i
      → i < first l' g + used l' g
      → l'.rules_tbl i ≡ record { ip = ip; next_hop = next_hop }
      → RuleChange l g ip next_hop (placed i, l')
  known : HasRule l g ip next_hop → RuleChange l g ip next_hop (refused eexist, l)
  full :
      {l' : Lpm}
      → IsGrouped l'
      → SameRules l l'
      → IsAbsent l g ip
      → IsFull l g
      → RuleChange l g ip next_hop (refused enospc, l')

-- `update_rule` of the rule at `i` of group `g`.
module _ (l : Lpm) (k : IsGrouped l) (g i ip next_hop : ℕ) (few : g < 32) (from : first l g ≤ i)
    (to : i < first l g + used l g) (at : (l.rules_tbl i).ip ≡ ip) where
  updated : Lpm
  updated = record l {
    rules_tbl = store l.rules_tbl i (record (l.rules_tbl i) { next_hop = next_hop });
  }

  updated-ip : (a : ℕ) → (updated.rules_tbl a).ip ≡ (l.rules_tbl a).ip
  unfolding updated
  updated-ip a = ground (arith, (==_iff i a).0, ap (λ (t : ℕ). (l.rules_tbl t).ip))

  updated-hop :
      (a : ℕ)
      → (updated.rules_tbl a).next_hop ≡ (if i == a then next_hop else (l.rules_tbl a).next_hop)
  unfolding updated
  updated-hop a = ground arith

  updated-IsGrouped : IsGrouped updated
  unfolding updated
  updated-IsGrouped = record {
    few = k.few;
    ends = k.ends;
    ordered = k.ordered;
    unique = λ j a b lt fa ta fb tb same.
        k.unique j a b lt fa ta fb tb (sym (updated-ip a) ∙ same ∙ updated-ip b);
  }

  -- A rule of another group or address is not the one at `i`.
  elsewhere :
      (j ip' a : ℕ)
      → j < 32
      → ((j == g) && (ip' == ip)) ≡ false
      → first l j ≤ a
      → a < first l j + used l j
      → (l.rules_tbl a).ip ≡ ip'
      → (i == a) ≡ false
  elsewhere j ip' a lt other f t e = elim (Bool-cases (i == a)) [
    | inr away ↦ away
    | inl same ↦
        let ea : i ≡ a = (==_iff i a).0 same in
        let ei : ip' ≡ ip = sym e ∙ ap (λ (t : ℕ). (l.rules_tbl t).ip) (sym ea) ∙ at in
        absurd (ground (arith, (==_iff ip' ip).1 ei, (==_iff j g).1, k.ordered j g, k.ordered g j))
  ]

  updated-IsChanged : IsChanged l g ip next_hop updated
  unfolding updated
  updated-IsChanged = record {
    limit = refl;
    here = record {
      k = i;
      from = from;
      to = to;
      at = updated-ip i ∙ at;
      hop = ground (arith, updated-hop i, ==_self i);
    };
    alone = λ n o.
        let e : i ≡ o.k =
          k.unique g i o.k few from to o.from o.to (at ∙ sym o.at ∙ updated-ip o.k) in
        sym o.hop ∙ ground (arith, updated-hop o.k, (==_iff i o.k).1 e);
    kept = λ j ip' n lt other o.
        let away = elsewhere j ip' o.k lt other o.from o.to o.at in
        record {
          k = o.k;
          from = o.from;
          to = o.to;
          at = updated-ip o.k ∙ o.at;
          hop = ground (arith, updated-hop o.k, away, o.hop);
        };
    only = λ j ip' n lt other o.
        let here = sym (updated-ip o.k) ∙ o.at in
        let away = elsewhere j ip' o.k lt other o.from o.to here in
        record {
          k = o.k;
          from = o.from;
          to = o.to;
          at = here;
          hop = ground (arith, updated-hop o.k, away, o.hop);
        };
  }

  pub update_rule-RuleChange : RuleChange l g ip next_hop (update_rule i next_hop l)
  unfolding update_rule updated
  update_rule-RuleChange = elim (Bool-cases ((l.rules_tbl i).next_hop == next_hop)) [
    | inl again ↦ rw again (
        known (record {
          k = i;
          from = from;
          to = to;
          at = at;
          hop = (==_iff (l.rules_tbl i).next_hop next_hop).0 again;
        }))
    | inr fresh ↦
        rw fresh
          (changed i updated-IsGrouped updated-IsChanged from to (ground (arith, ==_self i, at)))
  ]
