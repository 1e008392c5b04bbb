-- ===== src/Lpm/Best.antt =====
-- Longest-prefix match: what the rules of lpm/lpm.c say of an address.
use native.Mathlib.Nat.{mul-div_cancel}
use dpdk_code_modify.Base.{
  ℕ, ◌-◌, ◌*◌, ◌/◌, ◌^◌, ◌≤◌, ◌<◌, ◌≡◌, ◌≢◌, sym, ap, ◌∙◌, true, false, ◌&&◌, Option, some, none,
  arith, ◌==◌, if◌then◌else◌, Bool-cases, inl, inr, ==_iff, dec_lt, le→leb, lt→not-leb,
}
use dpdk_code_modify.Base.Bits.{pow_split}
use dpdk_code_modify.Lpm.Types.{Lpm}
use dpdk_code_modify.Lpm.Prefix.{base, covers}
use dpdk_code_modify.Lpm.Lookup.{view}
use dpdk_code_modify.Lpm.Cells.{IsLinked, overlay}
use dpdk_code_modify.Lpm.Groups.{IsGrouped, HasRule, SameRules}
use dpdk_code_modify.Lpm.Written.{IsChanged}

-- The table has a rule of depth `d` for the prefix of `q`.
abbrev pub Matches : Lpm → ℕ → ℕ → ℕ → Type 0
Matches l q d next_hop = HasRule l (d - 1) (base q d) next_hop

-- The answer for `q` that the rules ask for: the depth and the next hop of the deepest rule with the
-- prefix of `q`, or none where no rule has it.
pub data IsBest (l : Lpm) (q : ℕ) : Option (ℕ × ℕ) → Type 0 where
  unmatched : ((d n : ℕ) → 1 ≤ d → d ≤ 32 → Matches l q d n → ⊥) → IsBest l q none
  deepest :
      (d n : ℕ)
      → 1 ≤ d
      → d ≤ 32
      → Matches l q d n
      → ((d' n' : ℕ) → d < d' → d' ≤ 32 → Matches l q d' n' → ⊥)
      → IsBest l q (some (d, n))

-- The tables hang together, and answer for every address as the rules ask, whose next hops have 24
-- bits.
pub record IsRouting (l : Lpm) : Type 0 where
  pub linked : IsLinked l
  pub grouped : IsGrouped l
  pub narrow : (j ip n : ℕ) → j < 32 → HasRule l j ip n → n < 2 ^ 24
  pub answers : (q : ℕ) → q < 2 ^ 32 → IsBest l q (view l q)

pub IsBest-SameRules :
    {l l' : Lpm} {q : ℕ} {o : Option (ℕ × ℕ)} → SameRules l l' → IsBest l q o → IsBest l' q o
IsBest-SameRules {q} s (unmatched none_there) =
    unmatched
      (λ d n low high m. none_there d n low high (s.only (d - 1) (base q d) n (omega arith) m))
IsBest-SameRules {q} s (deepest d n low high m none_deeper) =
    deepest d n low high (s.kept (d - 1) (base q d) n (omega arith) m) (λ d' n' more high' m'.
      none_deeper d' n' more high' (s.only (d' - 1) (base q d') n' (omega arith) m'))

module _ (ip d next_hop q : ℕ) (low : 1 ≤ d) (high : d ≤ 32) where
  pub covers-base : covers ip d q ≡ true → base q d ≡ base ip d
  covers-base c =
      let e : q / 2 ^ (32 - d) ≡ ip / 2 ^ (32 - d) =
        (==_iff (q / 2 ^ (32 - d)) (ip / 2 ^ (32 - d))).0 c in
      ap (λ (t : ℕ). t * 2 ^ (32 - d)) e

  -- A rule of another depth is another rule.
  pub other_depth :
      (d' : ℕ) → 1 ≤ d' → d' ≢ d → ((d' - 1 == d - 1) && (base q d' == base ip d)) ≡ false
  other_depth d' low' ne = elim (Bool-cases (d' - 1 == d - 1)) [
    | inr away ↦ ground (arith, away)
    | inl at ↦ let e : d' - 1 ≡ d - 1 = (==_iff (d' - 1) (d - 1)).0 at in absurd (ne (omega arith))
  ]

  -- An address that does not have the prefix.
  pub other_base :
      base q d ≢ base ip d
      → (d' : ℕ) → 1 ≤ d'
      → ((d' - 1 == d - 1) && (base q d' == base ip d)) ≡ false
  other_base ne d' low' = elim (Bool-cases (d' == d)) [
    | inl at ↦
        let e : d' ≡ d = (==_iff d' d).0 at in
        let away : (base q d == base ip d) ≡ false =
          ground (arith, (==_iff (base q d) (base ip d)).0) in
        rw e (ground (arith, away))
    | inr away ↦ other_depth d' low' (ground (arith, (==_iff d' d).1))
  ]

  pub base-covers : covers ip d q ≡ false → base q d ≢ base ip d
  base-covers c same =
      let pos : 0 < 2 ^ (32 - d) = omega (arith, pow_split (32 - d)) in
      let e : q / 2 ^ (32 - d) ≡ ip / 2 ^ (32 - d) =
        sym (mul-div_cancel (q / 2 ^ (32 - d)) pos)
        ∙ ap (λ (t : ℕ). t / 2 ^ (32 - d)) same
        ∙ mul-div_cancel (ip / 2 ^ (32 - d)) pos in
      ground (arith, (==_iff (q / 2 ^ (32 - d)) (ip / 2 ^ (32 - d))).1 e)

  module _ {l l' : Lpm} (c : IsChanged l (d - 1) (base ip d) next_hop l') where
    -- An address of the prefix.
    inside-IsBest :
        {o : Option (ℕ × ℕ)}
        → base q d ≡ base ip d
        → IsBest l q o
        → IsBest l' q (overlay d next_hop o)
    inside-IsBest same (unmatched none_there) =
        deepest d next_hop low high (rw same c.here) (λ d' n' more high' m'.
          none_there d' n' (omega arith) high' (
            c.only (d' - 1) (base q d') n' (omega arith)
              (other_depth d' (omega arith) (omega arith)) m'))
    inside-IsBest same (deepest dep n low' high' m none_deeper) = elim (dec_lt d dep) [
      | yes deep ↦ rw (lt→not-leb dep d deep) (
          deepest dep n low' high'
            (c.kept (dep - 1) (base q dep) n (omega arith) (other_depth dep low' (omega arith)) m)
            (λ d' n' more few m'. none_deeper d' n' more few (
              c.only (d' - 1) (base q d') n' (omega arith)
                (other_depth d' (omega arith) (omega arith)) m')))
      | no shallow ↦ rw (le→leb dep d (omega arith)) (
          deepest d next_hop low high (rw same c.here) (λ d' n' more few m'.
            none_deeper d' n' (omega arith) few (
              c.only (d' - 1) (base q d') n' (omega arith)
                (other_depth d' (omega arith) (omega arith)) m')))
    ]

    outside-IsBest : {o : Option (ℕ × ℕ)} → base q d ≢ base ip d → IsBest l q o → IsBest l' q o
    outside-IsBest ne (unmatched none_there) = unmatched (λ d' n low' high' m.
        none_there d' n low' high'
          (c.only (d' - 1) (base q d') n (omega arith) (other_base ne d' low') m))
    outside-IsBest ne (deepest dep n low' high' m none_deeper) =
        deepest dep n low' high'
          (c.kept (dep - 1) (base q dep) n (omega arith) (other_base ne dep low') m)
          (λ d' n' more few m'.
            none_deeper d' n' more few
              (c.only (d' - 1) (base q d') n' (omega arith) (other_base ne d' (omega arith)) m'))

    -- The rule laid over the best answer is the best answer of the changed rules.
    pub IsBest-IsChanged :
        (o : Option (ℕ × ℕ))
        → IsBest l q o
        → IsBest l' q (if covers ip d q then overlay d next_hop o else o)
    IsBest-IsChanged o best = elim (Bool-cases (covers ip d q)) [
      | inl inside ↦ rw inside (inside-IsBest (covers-base inside) best)
      | inr outside ↦ rw outside (outside-IsBest (base-covers outside) best)
    ]
