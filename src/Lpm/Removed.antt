-- ===== src/Lpm/Removed.antt =====
-- The loop of `rule_delete` of lpm/lpm.c, and what it means for the rules to lose one.
use dpdk_code_modify.Base.{
  ℕ, zero, suc, ◌+◌, ◌-◌, ◌≤◌, ◌<◌, ◌≡◌, refl, ap, ◌∙◌, false, ◌&&◌, arith, ltb, ◌==◌, Bool-cases,
  inl, inr, ==_iff, dec_lt, lt→ltb,
}
use dpdk_code_modify.Base.Words.{add32}
use dpdk_code_modify.Base.Loops.{for_loop}
use dpdk_code_modify.Lpm.Types.{Lpm}
use dpdk_code_modify.Lpm.Rules.{shift_down}
use dpdk_code_modify.Lpm.Groups.{
  used, IsGrouped, HasRule, SameRules, SameRules-self, SameRules-trans, HasGap,
}
use dpdk_code_modify.Lpm.Written.{IsAbsent}
use dpdk_code_modify.Lpm.Drop.{drop, shift_down-IsGrouped, shift_down-SameRules, shift_down-HasGap}

-- The rules of `l'` are those of `l`, but that group `g` has none for `ip`.
pub record IsRemoved (l : Lpm) (g ip : ℕ) (l' : Lpm) : Type 0 where
  pub limit : l'.max_rules ≡ l.max_rules
  pub gone : IsAbsent l' g ip
  pub kept :
      (j ip' n : ℕ)
      → j < 32
      → ((j == g) && (ip' == ip)) ≡ false
      → HasRule l j ip' n
      → HasRule l' j ip' n
  pub only : (j ip' n : ℕ) → j < 32 → HasRule l' j ip' n → HasRule l j ip' n

pub IsRemoved-after :
    {l l' l'' : Lpm} {g ip : ℕ}
    → g < 32
    → IsRemoved l g ip l'
    → SameRules l' l''
    → IsRemoved l g ip l''
IsRemoved-after {g} {ip} lt c s = record {
  limit = s.limit ∙ c.limit;
  gone = λ n o. c.gone n (s.only g ip n lt o);
  kept = λ j ip' n few other o. s.kept j ip' n few (c.kept j ip' n few other o);
  only = λ j ip' n few o. c.only j ip' n few (s.only j ip' n few o);
}

module _ (depth r : ℕ) (one : 1 ≤ depth) where
  unmoved : (m : ℕ) (l : Lpm) → depth ≤ m → used (drop (depth - 1) l) m ≡ 0 → shift_down m l ≡ l
  unfolding shift_down drop
  unmoved m l over none_used =
      let away : (depth - 1 == m) ≡ false = ground arith in
      let none_there : used l m ≡ 0 = ground (arith, away) in rw none_there refl

  stays : (m : ℕ) {l : Lpm} → used l m ≡ 0 → HasGap depth m r l → HasGap depth (suc m) r l
  stays m {l} none_used p = record {
    slot = p.slot;
    inside = p.inside;
    low = p.low;
    mid = λ j ge lt pos. elim (Bool-cases (m == j)) [
      | inl at ↦
          let e : m ≡ j = (==_iff m j).0 at in absurd (ground (arith, ap (λ (t : ℕ). used l t) e))
      | inr away ↦ p.mid j ge (ground (arith, (==_iff m j).1)) pos
    ];
    high = λ j ge lt pos. p.high j (omega arith) lt pos;
    gap = λ a j ge la gj lj pa pj. elim (Bool-cases (m == a)) [
      | inl at ↦
          let e : m ≡ a = (==_iff m a).0 at in absurd (ground (arith, ap (λ (t : ℕ). used l t) e))
      | inr away ↦ p.gap a j ge (ground (arith, (==_iff m a).1)) (omega arith) lj pa pj
    ];
  }

  -- The loop of `rule_delete` from group `i` on.
  pub closed :
      (fuel i : ℕ) (l : Lpm)
      → IsGrouped (drop (depth - 1) l)
      → depth ≤ i
      → i ≤ 32
      → 32 ≤ i + fuel
      → HasGap depth i r (drop (depth - 1) l)
      → let l' = for_loop fuel i 32 shift_down l in
        IsGrouped (drop (depth - 1) l') × SameRules (drop (depth - 1) l) (drop (depth - 1) l')
  unfolding for_loop
  closed zero i l k over few enough p = (k, SameRules-self _)
  closed (suc fuel) i l k over few enough p = elim (dec_lt i 32) [
    | no top ↦
        let stop : ltb i 32 ≡ false = ground arith in rw (stop, for_loop) (k, SameRules-self _)
    | yes more ↦
        let next : add32 i 1 ≡ i + 1 = omega arith in
        elim (dec_lt 0 (used (drop (depth - 1) l) i)) [
          | yes pos ↦
              let (k', s) =
                closed fuel (i + 1) (shift_down i l)
                  (shift_down-IsGrouped l depth k r i one over more p pos) (omega arith)
                  (omega arith) (omega arith)
                  (rw next_suc (shift_down-HasGap l depth k r i one over more p pos)) in
              rw (lt→ltb i 32 more, for_loop, next)
                (k', SameRules-trans (shift_down-SameRules l depth k r i one over more p pos) s)
          | no zero_used ↦
              let none_used : used (drop (depth - 1) l) i ≡ 0 = omega arith in
              rw (lt→ltb i 32 more, for_loop, next, unmoved i l over none_used)
                (closed fuel (i + 1) l k (omega arith) (omega arith) (omega arith)
                  (rw next_suc (stays i none_used p)))
        ]
  ]
    where
      next_suc : i + 1 ≡ suc i
      next_suc = omega arith
