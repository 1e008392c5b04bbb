-- ===== src/Lpm/Dropped.antt =====
-- The answers of lpm/lpm.c when a rule of the rule table is gone.
use native.Mathlib.Nat.{div-div-eq-div-mul}
use dpdk_code_modify.Base.{
  ℕ, ◌+◌, ◌-◌, ◌*◌, ◌/◌, ◌%◌, ◌^◌, ◌≤◌, ◌<◌, ◌≡◌, refl, sym, ap, ◌∙◌, true, Option, some, none,
  arith, ==_iff, dec_lt, bit_and,
}
use dpdk_code_modify.Base.Words.{pow_sum}
use dpdk_code_modify.Lpm.Types.{Lpm, depth_to_mask}
use dpdk_code_modify.Lpm.Prefix.{base, covers, masked-base}
use dpdk_code_modify.Lpm.Delete.{sub_answer}
use dpdk_code_modify.Lpm.Rules.{rule_find, scan_group, scan}
use dpdk_code_modify.Lpm.Find.{FindOutcome, rule_find-FindOutcome, PreviousOutcome}
use dpdk_code_modify.Lpm.Groups.{used, first, IsGrouped, HasRule}
use dpdk_code_modify.Lpm.Removed.{IsRemoved}
use dpdk_code_modify.Lpm.Best.{Matches, IsBest, unmatched, deepest, covers-base}

-- Addresses that share `d` bits share fewer ones.
pub fewer_bits : (ip q d p : ℕ) → p ≤ d → d ≤ 32 → covers ip d q ≡ true → base q p ≡ base ip p
fewer_bits ip q d p le high c =
    let e : q / 2 ^ (32 - d) ≡ ip / 2 ^ (32 - d) =
      (==_iff (q / 2 ^ (32 - d)) (ip / 2 ^ (32 - d))).0 c in
    let full : 32 - p ≡ 32 - d + (d - p) = omega arith in
    let whole : 2 ^ (32 - p) ≡ 2 ^ (32 - d) * 2 ^ (d - p) =
      ap (λ (t : ℕ). 2 ^ t) full ∙ pow_sum (32 - d) (d - p) in
    let split : (x : ℕ) → x / 2 ^ (32 - p) ≡ x / 2 ^ (32 - d) / 2 ^ (d - p) =
      λ x. ap (λ (t : ℕ). x / t) whole ∙ sym (div-div-eq-div-mul x (2 ^ (32 - d)) (2 ^ (d - p))) in
    ap (λ (t : ℕ). t * 2 ^ (32 - p)) (split q ∙ ap (λ (t : ℕ). t / 2 ^ (d - p)) e ∙ sym (split ip))

-- What `rule_find` says of the rules of a group.
pub data RuleFound (l : Lpm) (ip p : ℕ) : Option ℕ → Type 0 where
  there :
      (i : ℕ)
      → first l (p - 1) ≤ i
      → i < first l (p - 1) + used l (p - 1)
      → (l.rules_tbl i).ip ≡ ip
      → RuleFound l ip p (some i)
  absent : ((n : ℕ) → HasRule l (p - 1) ip n → ⊥) → RuleFound l ip p none

rule_find_unused : (l : Lpm) (ip p : ℕ) → used l (p - 1) ≡ 0 → rule_find l ip p ≡ none
unfolding rule_find scan
rule_find_unused l ip p none_used = rw (rule_find, scan_group, none_used, scan) refl

RuleFound-FindOutcome :
    {l : Lpm} {ip p : ℕ} {o : Option ℕ} → FindOutcome l ip p o → RuleFound l ip p o
RuleFound-FindOutcome (FindOutcome.at j from to at before) = there j from to at
RuleFound-FindOutcome (FindOutcome.nowhere none_there) =
    absent (λ n o. none_there o.k o.from o.to o.at)

pub rule_find-RuleFound :
    (l : Lpm) (ip p : ℕ) → IsGrouped l → 1 ≤ p → p ≤ 32 → RuleFound l ip p (rule_find l ip p)
rule_find-RuleFound l ip p g low high = elim (dec_lt 0 (used l (p - 1))) [
  | yes pos ↦
      let limit = g.few in
      let ends = g.ends (p - 1) (omega arith) pos in
      RuleFound-FindOutcome (rule_find-FindOutcome l ip p (omega arith))
  | no zero_used ↦
      let none_used : used l (p - 1) ≡ 0 = omega arith in
      rw (rule_find_unused l ip p none_used)
        (absent (λ n o. let from = o.from in let to = o.to in omega arith))
]

-- At a depth where `rule_find` fails, the address has no rule.
pub no_match :
    (l : Lpm) (ip p : ℕ)
    → IsGrouped l
    → ip < 2 ^ 32
    → 1 ≤ p
    → p ≤ 32
    → rule_find l (bit_and ip (depth_to_mask p)) p ≡ none
    → (n : ℕ) → Matches l ip p n
    → ⊥
no_match l ip p g word low high e =
    go _ (rule_find-RuleFound l (base ip p) p g low high) (rw (masked-base ip p low high word) at e)
  where
    go : (o : Option ℕ) → RuleFound l (base ip p) p o → o ≡ none → (n : ℕ) → Matches l ip p n → ⊥
    go _ (there i from to at) same n m = absurd (ground arith)
    go _ (absent none_there) same n m = none_there n m

-- Where it succeeds, the rule is that of the address.
pub found_match :
    (l : Lpm) (ip p i : ℕ)
    → IsGrouped l
    → ip < 2 ^ 32
    → 1 ≤ p
    → p ≤ 32
    → rule_find l (bit_and ip (depth_to_mask p)) p ≡ some i
    → (first l (p - 1) ≤ i)
      × (i < first l (p - 1) + used l (p - 1))
      × ((l.rules_tbl i).ip ≡ base ip p)
found_match l ip p i g word low high e =
    go _ (rule_find-RuleFound l (base ip p) p g low high) (rw (masked-base ip p low high word) at e)
  where
    go :
        (o : Option ℕ)
        → RuleFound l (base ip p) p o
        → o ≡ some i
        → (first l (p - 1) ≤ i)
          × (i < first l (p - 1) + used l (p - 1))
          × ((l.rules_tbl i).ip ≡ base ip p)
    go _ (there j from to at) same = let ej : j ≡ i = ground arith in rw (sym ej) (from, to, at)
    go _ (absent none_there) same = absurd (ground arith)

-- The rules of `l'` lack one of depth `d`, and `sub` is what `find_previous_rule` has in its place.
module _ (l l' : Lpm) (ip d q : ℕ) (word : ip < 2 ^ 32) (low : 1 ≤ d) (high : d ≤ 32)
    (g' : IsGrouped l') (narrow : (j a n : ℕ) → j < 32 → HasRule l' j a n → n < 2 ^ 24)
    (c : IsRemoved l (d - 1) (base ip d) l') where
  -- An address that has the prefix: the deleted rule gives way.
  pub sub-IsBest :
      (sub : Option (ℕ × ℕ))
      → covers ip d q ≡ true
      → PreviousOutcome l' ip d sub
      → ((d' n' : ℕ) → d < d' → d' ≤ 32 → Matches l' q d' n' → ⊥)
      → IsBest l' q (sub_answer l'.rules_tbl sub)
  sub-IsBest _ inside (PreviousOutcome.nowhere none_below) none_deeper =
      unmatched (λ p n low' high' m. elim (dec_lt p d) [
        | yes below ↦
            no_match l' ip p g' word low' high' (none_below p low' below) n
              (rw (fewer_bits ip q d p (omega arith) high inside) at m)
        | no above ↦ elim (dec_lt d p) [
          | yes deep ↦ none_deeper p n deep high' m
          | no same ↦
              let e : p ≡ d = omega arith in
              c.gone n (rw (e, covers-base ip d 0 q low high inside) at m)
        ]
      ])
  sub-IsBest _ inside (PreviousOutcome.at i p pos below found above) none_deeper =
      let (from, to, at) = found_match l' ip p i g' word pos (omega arith) found in
      let m : Matches l' ip p (l'.rules_tbl i).next_hop = record {
        k = i;
        from = from;
        to = to;
        at = at;
        hop = refl;
      } in
      let small = narrow (p - 1) (base ip p) (l'.rules_tbl i).next_hop (omega arith) m in
      let whole : (l'.rules_tbl i).next_hop % 2 ^ 24 ≡ (l'.rules_tbl i).next_hop = omega arith in
      rw whole (
        deepest p (l'.rules_tbl i).next_hop pos (omega arith)
          (rw (fewer_bits ip q d p (omega arith) high inside) m)
          (λ p' n more high' m'. elim (dec_lt p' d) [
            | yes below' ↦
                no_match l' ip p' g' word (omega arith) high' (above p' more below') n
                  (rw (fewer_bits ip q d p' (omega arith) high inside) at m')
            | no over ↦ elim (dec_lt d p') [
              | yes deep ↦ none_deeper p' n deep high' m'
              | no same ↦
                  let e : p' ≡ d = omega arith in
                  c.gone n (rw (e, covers-base ip d 0 q low high inside) at m')
            ]
          ]))
