-- ===== src/Lpm/Drop.antt =====
-- How `rule_delete` of lpm/lpm.c closes the gap that a rule leaves.
use dpdk_code_modify.Base.{
  ℕ, suc, ◌+◌, ◌-◌, ◌≤◌, ◌<◌, ◌≡◌, sym, ap, ◌∙◌, false, ◌&&◌, arith, ◌==◌, if◌then◌else◌,
  Bool-cases, inl, inr, ==_iff, store,
}
use dpdk_code_modify.Base.Words.{add32, sub32}
use dpdk_code_modify.Lpm.Types.{Rule, Lpm}
use dpdk_code_modify.Lpm.Rules.{shift_down}
use dpdk_code_modify.Lpm.Groups.{used, first, IsGrouped, SameRules, HasGap}

-- The last line of `rule_delete`: group `g` has one rule less.
unfoldable pub drop : ℕ → Lpm → Lpm
drop g l = record l {
  rule_info = store l.rule_info g (record (l.rule_info g) { used_rules = sub32 (used l g) 1 });
}

-- One group moves: `shift_down` of group `m`, with rules in it and a gap in front of it.
module _ (l0 : Lpm) (depth : ℕ) (g : IsGrouped (drop (depth - 1) l0)) (r m : ℕ) (one : 1 ≤ depth)
    (over : depth ≤ m) (few : m < 32) (p : HasGap depth m r (drop (depth - 1) l0))
    (some_used : 0 < used (drop (depth - 1) l0) m) where
  abbrev l : Lpm
  l = drop (depth - 1) l0

  abbrev end : ℕ
  end = first l m + used l m - 1

  moved : Lpm
  moved = drop (depth - 1) (shift_down m l0)

  raw : (used l0 m ≡ used l m) × (first l0 m ≡ first l m)
  unfolding drop
  raw =
      let away : (depth - 1 == m) ≡ false = ground arith in
      (ground (arith, away), ground (arith, away))

  moved-info :
      (j : ℕ)
      → (used moved j ≡ used l j) × (first moved j ≡ (if m == j then first l m - 1 else first l j))
  unfolding moved shift_down drop
  moved-info j =
      let limit = g.few in
      let ends = g.ends m few some_used in
      let high = p.high m (omega arith) few some_used in
      let (ru, rf) = raw in
      let away : (depth - 1 == m) ≡ false = ground arith in
      let next : sub32 (first l0 m) 1 ≡ first l0 m - 1 = omega arith in ground (arith, next)

  moved-rules :
      (k : ℕ) → moved.rules_tbl k ≡ (if first l m - 1 == k then l.rules_tbl end else l.rules_tbl k)
  unfolding moved shift_down drop
  moved-rules k =
      let limit = g.few in
      let ends = g.ends m few some_used in
      let high = p.high m (omega arith) few some_used in
      let (ru, rf) = raw in
      let next : sub32 (first l0 m) 1 ≡ first l0 m - 1 = omega arith in
      let whole : sub32 (add32 (first l0 m) (used l0 m)) 1 ≡ first l0 m + used l0 m - 1 =
        omega arith in
      ground (arith, next, whole)

  moved-limit : moved.max_rules ≡ l.max_rules
  unfolding moved shift_down drop
  moved-limit = ground arith

  -- Where a rule of group `j` was before.
  abbrev old : ℕ → ℕ → ℕ
  old j k = if (m == j) && (first l m - 1 == k) then end else k

  moved-cell :
      (j k : ℕ)
      → j < 32
      → first moved j ≤ k
      → k < first moved j + used moved j
      → (first l j ≤ old j k)
        × (old j k < first l j + used l j)
        × (moved.rules_tbl k ≡ l.rules_tbl (old j k))
  moved-cell j k lt from to = elim (Bool-cases (m == j)) [
    | inl at ↦
        let e : m ≡ j = (==_iff m j).0 at in
        ground (
          arith,
          moved-info j,
          moved-rules k,
          p.high m,
          ap (λ (t : ℕ). first l t) e,
          ap (λ (t : ℕ). used l t) e,
        )
    | inr away ↦
        ground (arith, moved-info j, moved-rules k, g.ordered m j, p.gap j m, p.low j, p.high m)
  ]

  -- And where it is now.
  abbrev new : ℕ → ℕ → ℕ
  new j k = if (m == j) && (end == k) then first l m - 1 else k

  new-cell :
      (j k : ℕ)
      → j < 32
      → first l j ≤ k
      → k < first l j + used l j
      → (first moved j ≤ new j k)
        × (new j k < first moved j + used moved j)
        × (moved.rules_tbl (new j k) ≡ l.rules_tbl k)
  new-cell j k lt from to = elim (Bool-cases (m == j)) [
    | inl at ↦
        let e : m ≡ j = (==_iff m j).0 at in
        ground (
          arith,
          moved-info j,
          moved-rules (new j k),
          p.high m,
          ap (λ (t : ℕ). first l t) e,
          ap (λ (t : ℕ). used l t) e,
        )
    | inr away ↦
        ground (arith, moved-info j, moved-rules k, g.ordered m j, p.gap j m, p.low j, p.high m)
  ]

  pub shift_down-IsGrouped : IsGrouped (drop (depth - 1) (shift_down m l0))
  unfolding moved
  shift_down-IsGrouped = record {
    few = rw moved-limit g.few;
    ends =
        λ j lt pos. ground (arith, moved-info j, moved-limit, g.ends j, p.high j, (==_iff m j).0);
    ordered = λ i j below lt pi pj. ground (
      arith,
      moved-info i,
      moved-info j,
      g.ordered i j,
      p.high j,
      p.gap i m,
      p.low i,
      (==_iff m i).0,
      (==_iff m j).0,
    );
    unique = λ j a b lt fa ta fb tb same.
        let (fa0, ta0, ca) = moved-cell j a lt fa ta in
        let (fb0, tb0, cb) = moved-cell j b lt fb tb in
        let e : old j a ≡ old j b =
          g.unique j (old j a) (old j b) lt fa0 ta0 fb0 tb0
            (ap (λ (t : Rule). t.ip) (sym ca) ∙ same ∙ ap (λ (t : Rule). t.ip) cb) in
        elim (Bool-cases (m == j)) [
          | inl at ↦
              let es : m ≡ j = (==_iff m j).0 at in
              ground (
                arith,
                moved-info j,
                p.high m,
                ap (λ (t : ℕ). first l t) es,
                ap (λ (t : ℕ). used l t) es,
              )
          | inr away ↦ ground arith
        ];
  }

  pub shift_down-SameRules : SameRules (drop (depth - 1) l0) (drop (depth - 1) (shift_down m l0))
  unfolding moved
  shift_down-SameRules = record {
    limit = moved-limit;
    kept = λ j ip n lt o.
        let (f, t, c) = new-cell j o.k lt o.from o.to in
        record {
          k = new j o.k;
          from = f;
          to = t;
          at = ap (λ (t : Rule). t.ip) c ∙ o.at;
          hop = ap (λ (t : Rule). t.next_hop) c ∙ o.hop;
        };
    only = λ j ip n lt o.
        let (f, t, c) = moved-cell j o.k lt o.from o.to in
        record {
          k = old j o.k;
          from = f;
          to = t;
          at = ap (λ (t : Rule). t.ip) (sym c) ∙ o.at;
          hop = ap (λ (t : Rule). t.next_hop) (sym c) ∙ o.hop;
        };
  }

  pub shift_down-HasGap : HasGap depth (suc m) r (drop (depth - 1) (shift_down m l0))
  unfolding moved
  shift_down-HasGap = record {
    slot = ground (arith, moved-info (depth - 1), p.slot);
    inside = rw moved-limit p.inside;
    low = λ j lt pos. ground (arith, moved-info j, p.low j);
    mid = λ j ge lt pos. ground (arith, moved-info j, p.mid j, p.high m, (==_iff m j).0);
    high = λ j ge lt pos. ground (arith, moved-info j, p.high j);
    gap = λ a j ge la gj lj pa pj.
        ground
          (arith, moved-info a, moved-info j, p.gap a j, g.ordered m j, p.high m, (==_iff m a).0);
  }
