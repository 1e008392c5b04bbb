-- ===== src/Lpm/Deleted.antt =====
-- `rule_delete` of lpm/lpm.c against the set of rules that the table holds.
use dpdk_code_modify.Base.{
  ℕ, ◌+◌, ◌-◌, ◌≤◌, ◌<◌, ◌≡◌, ◌≢◌, refl, sym, ap, ◌∙◌, false, ◌&&◌, arith, ◌==◌, if◌then◌else◌,
  Bool-cases, inl, inr, ==_iff, ==_self, store,
}
use dpdk_code_modify.Base.Words.{add32, sub32}
use dpdk_code_modify.Lpm.Types.{Rule, Lpm}
use dpdk_code_modify.Lpm.Rules.{rule_delete}
use dpdk_code_modify.Lpm.Groups.{used, first, IsGrouped, HasGap}
use dpdk_code_modify.Lpm.Drop.{drop}
use dpdk_code_modify.Lpm.Removed.{IsRemoved, IsRemoved-after, closed}

module _ (l : Lpm) (k : IsGrouped l) (i depth : ℕ) (one : 1 ≤ depth) (top : depth ≤ 32)
    (from : first l (depth - 1) ≤ i) (to : i < first l (depth - 1) + used l (depth - 1)) where
  abbrev g : ℕ
  g = depth - 1

  abbrev last : ℕ
  last = first l g + used l g - 1

  -- The first line of `rule_delete`: the last rule of the group goes to `i`.
  abbrev filled : Lpm
  filled = record l { rules_tbl = store l.rules_tbl i (l.rules_tbl last) }

  dropped : Lpm
  dropped = drop g filled

  ends : first l g + used l g ≤ l.max_rules
  ends = k.ends g (omega arith) (omega arith)

  dropped-info :
      (j : ℕ)
      → (first dropped j ≡ first l j)
        × (used dropped j ≡ (if g == j then used l g - 1 else used l j))
  unfolding dropped drop
  dropped-info j = elim (Bool-cases (g == j)) [
    | inl at ↦
        let e : g ≡ j = (==_iff g j).0 at in
        let limit = k.few in
        let high = ends in
        let less : sub32 (used l g) 1 ≡ used l g - 1 = omega arith in
        ground (arith, less, ap (λ (t : ℕ). first l t) e)
    | inr away ↦ ground arith
  ]

  dropped-rules :
      (a : ℕ) → dropped.rules_tbl a ≡ (if i == a then l.rules_tbl last else l.rules_tbl a)
  unfolding dropped drop
  dropped-rules a = ground arith

  dropped-limit : dropped.max_rules ≡ l.max_rules
  unfolding dropped drop
  dropped-limit = refl

  -- Where a rule was before.
  abbrev old : ℕ → ℕ
  old a = if i == a then last else a

  old_rule : (a : ℕ) → dropped.rules_tbl a ≡ l.rules_tbl (old a)
  old_rule a = ground (arith, dropped-rules a)

  -- The rules of `dropped` were there, and none of them at `i`.
  old-cell :
      (j a : ℕ)
      → j < 32
      → first dropped j ≤ a
      → a < first dropped j + used dropped j
      → (first l j ≤ old a) × (old a < first l j + used l j) × (old a ≢ i)
  old-cell j a lt f t = elim (Bool-cases (g == j)) [
    | inl at ↦
        let e : g ≡ j = (==_iff g j).0 at in
        ground (
          arith,
          dropped-info j,
          (==_iff i a).1,
          ap (λ (t : ℕ). first l t) e,
          ap (λ (t : ℕ). used l t) e,
        )
    | inr away ↦
        ground (arith, dropped-info j, (==_iff i a).0, (==_iff g j).1, k.ordered j g, k.ordered g j)
  ]

  -- Where a rule is now.
  abbrev new : ℕ → ℕ
  new a = if last == a then i else a

  new-cell :
      (j a : ℕ)
      → j < 32
      → first l j ≤ a
      → a < first l j + used l j
      → a ≢ i
      → (first dropped j ≤ new a)
        × (new a < first dropped j + used dropped j)
        × (dropped.rules_tbl (new a) ≡ l.rules_tbl a)
  new-cell j a lt f t ne = elim (Bool-cases (g == j)) [
    | inl at ↦
        let e : g ≡ j = (==_iff g j).0 at in
        ground (
          arith,
          dropped-info j,
          dropped-rules (new a),
          ==_self i,
          (==_iff i a).0,
          ap (λ (t : ℕ). l.rules_tbl t),
          (==_iff last a).0,
          ap (λ (t : ℕ). first l t) e,
          ap (λ (t : ℕ). used l t) e,
        )
    | inr away ↦ ground (
      arith,
      dropped-info j,
      dropped-rules a,
      (==_iff i a).0,
      (==_iff last a).0,
      (==_iff g j).1,
      k.ordered j g,
      k.ordered g j,
    )
  ]

  not_last :
      (j a : ℕ) → j < 32 → first dropped j ≤ a → a < first dropped j + used dropped j → a ≢ last
  not_last j a lt f t = elim (Bool-cases (g == j)) [
    | inl at ↦
        let e : g ≡ j = (==_iff g j).0 at in
        ground (arith, dropped-info j, ap (λ (t : ℕ). first l t) e, ap (λ (t : ℕ). used l t) e)
    | inr away ↦ ground (arith, dropped-info j, (==_iff g j).1, k.ordered j g, k.ordered g j)
  ]

  -- A rule of another group or address is not the one at `i`.
  elsewhere :
      (j ip' a : ℕ)
      → j < 32
      → ((j == g) && (ip' == (l.rules_tbl i).ip)) ≡ false
      → first l j ≤ a
      → a < first l j + used l j
      → (l.rules_tbl a).ip ≡ ip'
      → a ≢ i
  elsewhere j ip' a lt other f t e same =
      let ei : ip' ≡ (l.rules_tbl i).ip = sym e ∙ ap (λ (t : ℕ). (l.rules_tbl t).ip) same in
      ground
        (arith, (==_iff ip' (l.rules_tbl i).ip).1 ei, (==_iff j g).1, k.ordered j g, k.ordered g j)

  dropped-IsGrouped : IsGrouped dropped
  dropped-IsGrouped = record {
    few = rw dropped-limit k.few;
    ends = λ j lt pos.
        ground (arith, dropped-info j, dropped-limit, k.ends j, k.ends g, (==_iff g j).0);
    ordered = λ a j below lt pa pj.
        ground
          (arith, dropped-info a, dropped-info j, k.ordered a j, (==_iff g a).0, (==_iff g j).0);
    unique = λ j a b lt fa ta fb tb same.
        let (f, t, ne) = old-cell j a lt fa ta in
        let (f', t', ne') = old-cell j b lt fb tb in
        let e : old a ≡ old b = k.unique j (old a) (old b) lt f t f' t' (
          ap (λ (t : Rule). t.ip) (sym (old_rule a))
          ∙ same
          ∙ ap (λ (t : Rule). t.ip) (old_rule b)) in
        ground
          (arith, not_last j a lt fa ta, not_last j b lt fb tb, (==_iff i a).0, (==_iff i b).0);
  }

  dropped-HasGap : HasGap depth depth last dropped
  dropped-HasGap = record {
    slot = ground (arith, dropped-info g, ==_self g);
    inside = let high = ends in rw dropped-limit (omega arith);
    low = λ j lt pos. elim (Bool-cases (g == j)) [
      | inl at ↦
          let e : g ≡ j = (==_iff g j).0 at in
          ground (arith, dropped-info j, ap (λ (t : ℕ). first l t) e, ap (λ (t : ℕ). used l t) e)
      | inr away ↦ ground (arith, dropped-info j, k.ordered j g, (==_iff g j).1)
    ];
    mid = λ j ge lt pos. absurd (omega arith);
    high = λ j ge lt pos. ground (arith, dropped-info j, k.ordered g j, (==_iff g j).0);
    gap = λ a j ge la gj lj pa pj. absurd (omega arith);
  }

  dropped-IsRemoved : IsRemoved l g (l.rules_tbl i).ip dropped
  dropped-IsRemoved = record {
    limit = dropped-limit;
    gone = λ n o.
        let (f, t, ne) = old-cell g o.k (omega arith) o.from o.to in
        ne (
          k.unique g (old o.k) i (omega arith) f t from to
            (ap (λ (t : Rule). t.ip) (sym (old_rule o.k)) ∙ o.at));
    kept = λ j ip' n lt other o.
        let ne : o.k ≢ i = λ e. elsewhere j ip' o.k lt other o.from o.to o.at e in
        let (f, t, c) = new-cell j o.k lt o.from o.to ne in
        record {
          k = new o.k;
          from = f;
          to = t;
          at = ap (λ (t : Rule). t.ip) c ∙ o.at;
          hop = ap (λ (t : Rule). t.next_hop) c ∙ o.hop;
        };
    only = λ j ip' n lt o.
        let (f, t, ne) = old-cell j o.k lt o.from o.to in
        record {
          k = old o.k;
          from = f;
          to = t;
          at = ap (λ (t : Rule). t.ip) (sym (old_rule o.k)) ∙ o.at;
          hop = ap (λ (t : Rule). t.next_hop) (sym (old_rule o.k)) ∙ o.hop;
        };
  }

  -- On a grouped rule table, for an index in the group of a depth from 1 to 32, `rule_delete`
  -- leaves a grouped table whose rules are those that were there without the one at the index.
  pub rule_delete-IsRemoved :
      let l' = rule_delete l i depth in IsGrouped l' × IsRemoved l (depth - 1) (l.rules_tbl i).ip l'
  unfolding rule_delete dropped drop
  rule_delete-IsRemoved =
      let limit = k.few in
      let high = ends in
      let at_last : sub32 (add32 (first l g) (used l g)) 1 ≡ last = omega arith in
      let (k', s) =
        closed depth last one (32 - depth) depth filled dropped-IsGrouped (omega arith) top
          (omega arith) dropped-HasGap in
      rw at_last (k', IsRemoved-after (omega arith) dropped-IsRemoved s)
