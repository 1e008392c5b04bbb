-- ===== src/Lpm/Find.antt =====
-- Finding rules in the rule table of lpm/lpm.c.
use mathlib.Core.Path.{subst}
use dpdk_code_modify.Base.{
  ℕ, zero, suc, ◌+◌, ◌-◌, ◌^◌, ◌≤◌, ◌<◌, ◌≡◌, ◌≢◌, sym, true, false, Option, none, some, bit_and,
  arith, ltb, ◌==◌, Bool-cases, Option-cases, inl, inr, dec_lt,
}
use dpdk_code_modify.Base.Words.{add32}
use dpdk_code_modify.Lpm.Types.{Rule, Lpm, depth_to_mask}
use dpdk_code_modify.Lpm.Rules.{
  Scan, hit, past, scan, scan_group, rule_find, find_previous, find_previous_rule,
}

-- What a scan of the rules from `i` up to `last` says.
pub data ScanOutcome (i last ip_masked : ℕ) (t : ℕ → Rule) : Scan → Type 0 where
  at :
      (j : ℕ)
      → i ≤ j
      → j < last
      → (t j).ip ≡ ip_masked
      → ((k : ℕ) → i ≤ k → k < j → (t k).ip ≢ ip_masked)
      → ScanOutcome i last ip_masked t (hit j)
  nowhere :
      {j : ℕ}
      → ((k : ℕ) → i ≤ k → k < last → (t k).ip ≢ ip_masked)
      → ScanOutcome i last ip_masked t (past j)

scan_next :
    {i last ip_masked : ℕ} {t : ℕ → Rule} {s : Scan}
    → (t i).ip ≢ ip_masked
    → ScanOutcome (i + 1) last ip_masked t s
    → ScanOutcome i last ip_masked t s
scan_next other (at j le lt same before) =
    at j (omega arith) lt same (λ k ge less. ground (arith, before k))
scan_next other (nowhere none_there) = nowhere (λ k ge less. ground (arith, none_there k))

pub scan-ScanOutcome :
    (fuel i last ip_masked : ℕ) (t : ℕ → Rule)
    → last ≤ i + fuel
    → last < 2 ^ 32
    → ScanOutcome i last ip_masked t (scan fuel i last ip_masked t)
unfolding scan
scan-ScanOutcome zero i last ip_masked t enough w = nowhere (λ k ge less. absurd (omega arith))
scan-ScanOutcome (suc fuel) i last ip_masked t enough w = elim (dec_lt i last) [
  | no over ↦
      let stop : ltb i last ≡ false = ground arith in
      rw (stop, scan) (nowhere (λ k ge less. absurd (omega arith)))
  | yes more ↦
      let go : ltb i last ≡ true = ground arith in
      let next : add32 i 1 ≡ i + 1 = omega arith in
      elim (Bool-cases ((t i).ip == ip_masked)) [
        | inl found ↦
            rw (go, found, scan)
              (at i (omega arith) more (ground arith) (λ k ge less. absurd (omega arith)))
        | inr other ↦
            rw (go, other, next, scan)
              (scan_next (ground arith)
                (scan-ScanOutcome fuel (i + 1) last ip_masked t (omega arith) w))
      ]
]

-- What `rule_find` says of a group: the first rule that has the address, or that there is none.
pub data FindOutcome (l : Lpm) (ip_masked depth : ℕ) : Option ℕ → Type 0 where
  at :
      (j : ℕ)
      → (l.rule_info (depth - 1)).first_rule ≤ j
      → j < (l.rule_info (depth - 1)).first_rule + (l.rule_info (depth - 1)).used_rules
      → (l.rules_tbl j).ip ≡ ip_masked
      → ((k : ℕ)
          → (l.rule_info (depth - 1)).first_rule ≤ k
          → k < j
          → (l.rules_tbl k).ip ≢ ip_masked)
      → FindOutcome l ip_masked depth (some j)
  nowhere :
      ((k : ℕ)
        → (l.rule_info (depth - 1)).first_rule ≤ k
        → k < (l.rule_info (depth - 1)).first_rule + (l.rule_info (depth - 1)).used_rules
        → (l.rules_tbl k).ip ≢ ip_masked)
      → FindOutcome l ip_masked depth none

-- For a group that ends below 2 ^ 32, `rule_find` gives the first rule of the group that has the
-- address, or fails when no rule of the group has it.
pub rule_find-FindOutcome :
    (l : Lpm) (ip_masked depth : ℕ)
    → (l.rule_info (depth - 1)).first_rule + (l.rule_info (depth - 1)).used_rules < 2 ^ 32
    → FindOutcome l ip_masked depth (rule_find l ip_masked depth)
unfolding rule_find
rule_find-FindOutcome l ip_masked depth fits =
    let info = l.rule_info (depth - 1) in
    let whole : add32 info.first_rule info.used_rules ≡ info.first_rule + info.used_rules =
      omega arith in
    go _ (
      rw (whole, scan_group)
        (scan-ScanOutcome info.used_rules info.first_rule (info.first_rule + info.used_rules)
          ip_masked l.rules_tbl (omega arith) fits))
  where
    go :
        (s : Scan)
        → ScanOutcome
            (l.rule_info (depth - 1)).first_rule
            ((l.rule_info (depth - 1)).first_rule + (l.rule_info (depth - 1)).used_rules)
            ip_masked
            l.rules_tbl
            s
        → FindOutcome l ip_masked depth
            (elim s as (λ _. Option ℕ) [ hit i ↦ some i | past i ↦ none ])
    go _ (ScanOutcome.at j le lt same before) = at j le lt same before
    go _ (ScanOutcome.nowhere none_there) = nowhere none_there

-- What `find_previous_rule` says: the rule of the greatest depth below, or that there is none.
pub data PreviousOutcome (l : Lpm) (ip limit : ℕ) : Option (ℕ × ℕ) → Type 0 where
  at :
      (i p : ℕ)
      → 0 < p
      → p < limit
      → rule_find l (bit_and ip (depth_to_mask p)) p ≡ some i
      → ((k : ℕ) → p < k → k < limit → rule_find l (bit_and ip (depth_to_mask k)) k ≡ none)
      → PreviousOutcome l ip limit (some (i, p))
  nowhere :
      ((k : ℕ) → 0 < k → k < limit → rule_find l (bit_and ip (depth_to_mask k)) k ≡ none)
      → PreviousOutcome l ip limit none

previous_next :
    {l : Lpm} {ip p : ℕ} {o : Option (ℕ × ℕ)}
    → rule_find l (bit_and ip (depth_to_mask p)) p ≡ none
    → PreviousOutcome l ip p o
    → PreviousOutcome l ip (suc p) o
previous_next {p} none_here (PreviousOutcome.at i q pos lt found above) =
    PreviousOutcome.at i q pos (omega arith) found (λ k more less. elim (dec_lt k p) [
      | yes below ↦ above k more below
      | no top ↦ let e : k ≡ p = omega arith in rw e none_here
    ])
previous_next {p} none_here (PreviousOutcome.nowhere none_below) =
    PreviousOutcome.nowhere (λ k pos less. elim (dec_lt k p) [
      | yes below ↦ none_below k pos below
      | no top ↦ let e : k ≡ p = omega arith in rw e none_here
    ])

find_previous-PreviousOutcome :
    (n : ℕ) (l : Lpm) (ip : ℕ) → PreviousOutcome l ip (suc n) (find_previous n l ip)
unfolding find_previous
find_previous-PreviousOutcome zero l ip =
    PreviousOutcome.nowhere (λ k pos less. absurd (omega arith))
find_previous-PreviousOutcome (suc below) l ip =
    let p = suc below in
    elim (Option-cases (rule_find l (bit_and ip (depth_to_mask p)) p)) [
      | inl none_here ↦
          rw (none_here, find_previous)
            (previous_next none_here (find_previous-PreviousOutcome below l ip))
      | inr (i, found) ↦
          rw (found, find_previous)
            (PreviousOutcome.at i p (omega arith) (omega arith) found
              (λ k more less. absurd (omega arith)))
    ]

-- For a depth of at least 1, `find_previous_rule` gives the rule that `rule_find` has for the
-- address at the greatest smaller depth, with that depth, or -1 when `rule_find` has none at any
-- smaller depth.
pub find_previous_rule-PreviousOutcome :
    (l : Lpm) (ip depth : ℕ)
    → 1 ≤ depth
    → PreviousOutcome l ip depth (find_previous_rule l ip depth)
unfolding find_previous_rule
find_previous_rule-PreviousOutcome l ip depth low =
    let e : depth ≡ suc (depth - 1) = omega arith in
    subst (λ (t : ℕ). PreviousOutcome l ip t (find_previous (depth - 1) l ip)) (sym e)
      (find_previous-PreviousOutcome (depth - 1) l ip)
