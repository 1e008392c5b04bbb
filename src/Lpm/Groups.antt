-- ===== src/Lpm/Groups.antt =====
-- The groups of the rule table of lpm/lpm.c, and how a gap for a new rule moves through them.
use dpdk_code_modify.Base.{
  ℕ, suc, ◌+◌, ◌-◌, ◌^◌, ◌≤◌, ◌<◌, ◌≡◌, refl, sym, ap, ◌∙◌, ◌&&◌, arith, ◌==◌, if◌then◌else◌,
  Bool-cases, inl, inr, ==_iff,
}
use dpdk_code_modify.Base.Words.{add32}
use dpdk_code_modify.Lpm.Types.{Rule, Lpm}
use dpdk_code_modify.Lpm.Rules.{shift_up}

abbrev pub used : Lpm → ℕ → ℕ
used l j = (l.rule_info j).used_rules

abbrev pub first : Lpm → ℕ → ℕ
first l j = (l.rule_info j).first_rule

-- The groups end inside the table, one after the other, and have each address once.
pub record IsGrouped (l : Lpm) : Type 0 where
  pub few : l.max_rules < 2 ^ 31
  pub ends : (j : ℕ) → j < 32 → 0 < used l j → first l j + used l j ≤ l.max_rules
  pub ordered :
      (i j : ℕ) → i < j → j < 32 → 0 < used l i → 0 < used l j → first l i + used l i ≤ first l j
  pub unique :
      (j a b : ℕ)
      → j < 32
      → first l j ≤ a
      → a < first l j + used l j
      → first l j ≤ b
      → b < first l j + used l j
      → (l.rules_tbl a).ip ≡ (l.rules_tbl b).ip
      → a ≡ b

-- The table has a rule in group `j`.
pub record HasRule (l : Lpm) (j ip next_hop : ℕ) : Type 0 where
  pub k : ℕ
  pub from : first l j ≤ k
  pub to : k < first l j + used l j
  pub at : (l.rules_tbl k).ip ≡ ip
  pub hop : (l.rules_tbl k).next_hop ≡ next_hop

-- Two tables have the same rules.
pub record SameRules (l l' : Lpm) : Type 0 where
  pub limit : l'.max_rules ≡ l.max_rules
  pub kept : (j ip next_hop : ℕ) → j < 32 → HasRule l j ip next_hop → HasRule l' j ip next_hop
  pub only : (j ip next_hop : ℕ) → j < 32 → HasRule l' j ip next_hop → HasRule l j ip next_hop

pub SameRules-self : (l : Lpm) → SameRules l l
SameRules-self l = record { limit = refl; kept = λ j ip n lt r. r; only = λ j ip n lt r. r }

pub SameRules-trans : {l l' l'' : Lpm} → SameRules l l' → SameRules l' l'' → SameRules l l''
SameRules-trans s t = record {
  limit = t.limit ∙ s.limit;
  kept = λ j ip n lt r. t.kept j ip n lt (s.kept j ip n lt r);
  only = λ j ip n lt r. s.only j ip n lt (t.only j ip n lt r);
}

-- The groups from `i` on have moved up by one, and `r` is where the group below `depth` goes on.
pub record HasGap (depth i r : ℕ) (l : Lpm) : Type 0 where
  pub slot : first l (depth - 1) + used l (depth - 1) ≡ r
  pub inside : r < l.max_rules
  pub low : (j : ℕ) → j < depth → 0 < used l j → first l j + used l j ≤ r
  pub mid : (j : ℕ) → depth ≤ j → j < i → 0 < used l j → r ≤ first l j
  pub high : (j : ℕ) → i ≤ j → j < 32 → 0 < used l j → r + 1 ≤ first l j
  pub gap :
      (a j : ℕ)
      → depth ≤ a
      → a < i
      → i ≤ j
      → j < 32
      → 0 < used l a
      → 0 < used l j
      → first l a + used l a + 1 ≤ first l j

-- One group moves: `shift_up` of group `m`, with rules in it and room behind it.
module _ (l : Lpm) (g : IsGrouped l) (depth r m : ℕ) (one : 1 ≤ depth) (over : depth ≤ m)
    (few : m < 32) (p : HasGap depth (suc m) r l) (some_used : 0 < used l m)
    (room : first l m + used l m < l.max_rules) where
  abbrev end : ℕ
  end = first l m + used l m

  moved : Lpm
  moved = shift_up (suc m) l

  moved-info :
      (j : ℕ)
      → (used moved j ≡ used l j) × (first moved j ≡ (if m == j then first l m + 1 else first l j))
  unfolding moved shift_up
  moved-info j =
      let limit = g.few in
      let next : add32 (first l m) 1 ≡ first l m + 1 = omega arith in ground (arith, next)

  moved-rules :
      (k : ℕ) → moved.rules_tbl k ≡ (if end == k then l.rules_tbl (first l m) else l.rules_tbl k)
  unfolding moved shift_up
  moved-rules k =
      let limit = g.few in
      let whole : add32 (first l m) (used l m) ≡ end = omega arith in ground (arith, whole)

  moved-limit : moved.max_rules ≡ l.max_rules
  unfolding moved shift_up
  moved-limit = ground arith

  -- Where a rule of group `j` was before.
  abbrev old : ℕ → ℕ → ℕ
  old j k = if (m == j) && (end == k) then first l m else k

  moved-cell :
      (j k : ℕ)
      → j < 32
      → first moved j ≤ k
      → k < first moved j + used moved j
      → (first l j ≤ old j k)
        × (old j k < first l j + used l j)
        × (moved.rules_tbl k ≡ l.rules_tbl (old j k))
  moved-cell j k lt from to = elim (Bool-cases (m == j)) [
    | inl at ↦
        let e : m ≡ j = (==_iff m j).0 at in
        ground (
          arith,
          moved-info j,
          moved-rules k,
          ap (λ (t : ℕ). first l t) e,
          ap (λ (t : ℕ). used l t) e,
        )
    | inr away ↦ ground (arith, moved-info j, moved-rules k, g.ordered j m, p.gap m j)
  ]

  -- And where it is now.
  abbrev new : ℕ → ℕ → ℕ
  new j k = if (m == j) && (first l m == k) then end else k

  new-cell :
      (j k : ℕ)
      → j < 32
      → first l j ≤ k
      → k < first l j + used l j
      → (first moved j ≤ new j k)
        × (new j k < first moved j + used moved j)
        × (moved.rules_tbl (new j k) ≡ l.rules_tbl k)
  new-cell j k lt from to = elim (Bool-cases (m == j)) [
    | inl at ↦
        let e : m ≡ j = (==_iff m j).0 at in
        ground (
          arith,
          moved-info j,
          moved-rules (new j k),
          ap (λ (t : ℕ). first l t) e,
          ap (λ (t : ℕ). used l t) e,
        )
    | inr away ↦ ground (arith, moved-info j, moved-rules k, g.ordered j m, p.gap m j)
  ]

  pub shift_up-IsGrouped : IsGrouped (shift_up (suc m) l)
  unfolding moved
  shift_up-IsGrouped = record {
    few = rw moved-limit g.few;
    ends = λ j lt pos. ground (arith, moved-info j, moved-limit, g.ends j, (==_iff m j).0);
    ordered = λ i j below lt pi pj. ground (
      arith,
      moved-info i,
      moved-info j,
      g.ordered i j,
      p.high j,
      p.gap m j,
      (==_iff m i).0,
      (==_iff m j).0,
    );
    unique = λ j a b lt fa ta fb tb same.
        let (fa0, ta0, ca) = moved-cell j a lt fa ta in
        let (fb0, tb0, cb) = moved-cell j b lt fb tb in
        let e : old j a ≡ old j b =
          g.unique j (old j a) (old j b) lt fa0 ta0 fb0 tb0
            (ap (λ (t : Rule). t.ip) (sym ca) ∙ same ∙ ap (λ (t : Rule). t.ip) cb) in
        ground (arith, moved-info j, (==_iff m j).0);
  }

  pub shift_up-SameRules : SameRules l (shift_up (suc m) l)
  unfolding moved
  shift_up-SameRules = record {
    limit = moved-limit;
    kept = λ j ip n lt o.
        let (f, t, c) = new-cell j o.k lt o.from o.to in
        record {
          k = new j o.k;
          from = f;
          to = t;
          at = ap (λ (t : Rule). t.ip) c ∙ o.at;
          hop = ap (λ (t : Rule). t.next_hop) c ∙ o.hop;
        };
    only = λ j ip n lt o.
        let (f, t, c) = moved-cell j o.k lt o.from o.to in
        record {
          k = old j o.k;
          from = f;
          to = t;
          at = ap (λ (t : Rule). t.ip) (sym c) ∙ o.at;
          hop = ap (λ (t : Rule). t.next_hop) (sym c) ∙ o.hop;
        };
  }

  pub shift_up-HasGap : HasGap depth m r (shift_up (suc m) l)
  unfolding moved
  shift_up-HasGap = record {
    slot = ground (arith, moved-info (depth - 1), p.slot);
    inside = rw moved-limit p.inside;
    low = λ j lt pos. ground (arith, moved-info j, p.low j);
    mid = λ j ge lt pos. ground (arith, moved-info j, p.mid j);
    high = λ j ge lt pos. ground (arith, moved-info j, p.high j, p.mid m, (==_iff m j).0);
    gap = λ a j ge la gj lj pa pj.
        ground (arith, moved-info a, moved-info j, p.gap a j, g.ordered a m, (==_iff m j).0);
  }
