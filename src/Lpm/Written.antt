-- ===== src/Lpm/Written.antt =====
-- The last lines of `rule_add` of lpm/lpm.c against the set of rules that the table holds.
use dpdk_code_modify.Base.{
  ℕ, ◌+◌, ◌-◌, ◌≤◌, ◌<◌, ◌≡◌, ◌≢◌, ◌⊎◌, refl, sym, ap, ◌∙◌, false, ◌&&◌, arith, ◌==◌, if◌then◌else◌,
  Bool-cases, inl, inr, ==_iff, ==_self,
}
use dpdk_code_modify.Base.Words.{add32}
use dpdk_code_modify.Lpm.Types.{Rule, Lpm}
use dpdk_code_modify.Lpm.Rules.{write_rule}
use dpdk_code_modify.Lpm.Groups.{used, first, IsGrouped, HasRule, SameRules, HasGap}

-- The rules of `l'` are those of `l`, but that group `g` has `next_hop`, and no other, for `ip`.
pub record IsChanged (l : Lpm) (g ip next_hop : ℕ) (l' : Lpm) : Type 0 where
  pub limit : l'.max_rules ≡ l.max_rules
  pub here : HasRule l' g ip next_hop
  pub alone : (n : ℕ) → HasRule l' g ip n → n ≡ next_hop
  pub kept :
      (j ip' n : ℕ)
      → j < 32
      → ((j == g) && (ip' == ip)) ≡ false
      → HasRule l j ip' n
      → HasRule l' j ip' n
  pub only :
      (j ip' n : ℕ)
      → j < 32
      → ((j == g) && (ip' == ip)) ≡ false
      → HasRule l' j ip' n
      → HasRule l j ip' n

pub IsChanged-after :
    {l l' l'' : Lpm} {g ip next_hop : ℕ}
    → SameRules l l'
    → IsChanged l' g ip next_hop l''
    → IsChanged l g ip next_hop l''
IsChanged-after s c = record {
  limit = c.limit ∙ s.limit;
  here = c.here;
  alone = c.alone;
  kept = λ j ip n lt other r. c.kept j ip n lt other (s.kept j ip n lt r);
  only = λ j ip n lt other r. s.only j ip n lt (c.only j ip n lt other r);
}

-- No rule of group `g` is for `ip`.
abbrev pub IsAbsent : Lpm → ℕ → ℕ → Type 0
IsAbsent l g ip = (n : ℕ) → HasRule l g ip n → ⊥

-- The last lines of `rule_add`, with the gap in front of them.
module _ (l : Lpm) (k : IsGrouped l) (depth r ip next_hop : ℕ) (one : 1 ≤ depth) (top : depth ≤ 32)
    (p : HasGap depth depth r l) (absent : IsAbsent l (depth - 1) ip) where
  abbrev g : ℕ
  g = depth - 1

  written : Lpm
  written = write_rule r ip depth next_hop l

  written-info :
      (j : ℕ)
      → (first written j ≡ first l j)
        × (used written j ≡ (if g == j then used l g + 1 else used l j))
  unfolding written write_rule
  written-info j = elim (Bool-cases (g == j)) [
    | inl at ↦
        let e : g ≡ j = (==_iff g j).0 at in
        let limit = k.few in
        let slot = p.slot in
        let inside = p.inside in
        let next : add32 (used l g) 1 ≡ used l g + 1 = omega arith in
        ground (arith, next, ap (λ (t : ℕ). first l t) e)
    | inr away ↦ ground arith
  ]

  written-rules :
      (i : ℕ)
      → written.rules_tbl i
        ≡ (if r == i then record { ip = ip; next_hop = next_hop } else l.rules_tbl i)
  unfolding written write_rule
  written-rules i = ground arith

  written-limit : written.max_rules ≡ l.max_rules
  unfolding written write_rule
  written-limit = refl

  -- A rule of `written` is the new one, or was there.
  written-cell :
      (j i : ℕ)
      → j < 32
      → first written j ≤ i
      → i < first written j + used written j
      → ((j ≡ g) × (i ≡ r)) ⊎ ((first l j ≤ i) × (i < first l j + used l j) × (i ≢ r))
  written-cell j i lt from to = elim (Bool-cases (g == j)) [
    | inl at ↦
        let e : g ≡ j = (==_iff g j).0 at in
        ground
          (arith, written-info j, p.slot, ap (λ (t : ℕ). first l t) e, ap (λ (t : ℕ). used l t) e)
    | inr away ↦
        let ne : g ≢ j = ground (arith, (==_iff g j).1) in
        inr (ground (arith, written-info j, p.low j, p.high j))
  ]

  -- And a rule that was there is in `written`.
  kept-cell :
      (j i : ℕ)
      → j < 32
      → first l j ≤ i
      → i < first l j + used l j
      → (first written j ≤ i) × (i < first written j + used written j) × (i ≢ r)
  kept-cell j i lt from to = elim (Bool-cases (g == j)) [
    | inl at ↦
        let e : g ≡ j = (==_iff g j).0 at in
        ground
          (arith, written-info j, p.slot, ap (λ (t : ℕ). first l t) e, ap (λ (t : ℕ). used l t) e)
    | inr away ↦
        let ne : g ≢ j = ground (arith, (==_iff g j).1) in
        ground (arith, written-info j, p.low j, p.high j)
  ]

  at_slot : (first written g ≤ r) × (r < first written g + used written g)
  at_slot = ground (arith, written-info g, p.slot, ==_self g)

  new_rule : written.rules_tbl r ≡ record { ip = ip; next_hop = next_hop }
  new_rule = ground (arith, written-rules r, ==_self r)

  old_rule : (i : ℕ) → i ≢ r → written.rules_tbl i ≡ l.rules_tbl i
  old_rule i ne = ground (arith, written-rules i, (==_iff r i).0)

  -- An old rule of group `g` is for another address.
  other_address : (i : ℕ) → first l g ≤ i → i < first l g + used l g → (l.rules_tbl i).ip ≢ ip
  other_address i from to same =
      absent (l.rules_tbl i).next_hop
        (record { k = i; from = from; to = to; at = same; hop = refl })

  new_ip : (written.rules_tbl r).ip ≡ ip
  new_ip = ap (λ (t : Rule). t.ip) new_rule

  -- The new rule and an old one of its group have different addresses.
  new_apart :
      (j i : ℕ)
      → j ≡ g
      → first l j ≤ i
      → i < first l j + used l j
      → i ≢ r
      → (written.rules_tbl i).ip ≢ ip
  new_apart j i e from to ne same =
      other_address i (ground (arith, ap (λ (t : ℕ). first l t) e))
        (ground (arith, ap (λ (t : ℕ). first l t) e, ap (λ (t : ℕ). used l t) e))
        (ap (λ (t : Rule). t.ip) (sym (old_rule i ne)) ∙ same)

  pub write_rule-IsGrouped : IsGrouped (write_rule r ip depth next_hop l)
  unfolding written
  write_rule-IsGrouped = record {
    few = rw written-limit k.few;
    ends = λ j lt pos.
        ground (arith, written-info j, written-limit, k.ends j, p.slot, p.inside, (==_iff g j).0);
    ordered = λ i j below lt pi pj. ground (
      arith,
      written-info i,
      written-info j,
      k.ordered i j,
      p.slot,
      p.low i,
      p.high j,
      (==_iff g i).0,
      (==_iff g j).0,
    );
    unique = λ j a b lt fa ta fb tb same. elim (written-cell j a lt fa ta) [
      | inl (e, at_a) ↦ elim (written-cell j b lt fb tb) [
        | inl (e', at_b) ↦ at_a ∙ sym at_b
        | inr (f, t, ne) ↦ absurd (
            new_apart j b e f t ne
              (sym same ∙ ap (λ (t : ℕ). (written.rules_tbl t).ip) at_a ∙ new_ip))
      ]
      | inr (f, t, ne) ↦ elim (written-cell j b lt fb tb) [
        | inl (e', at_b) ↦ absurd (
            new_apart j a e' f t ne (same ∙ ap (λ (t : ℕ). (written.rules_tbl t).ip) at_b ∙ new_ip))
        | inr (f', t', ne') ↦ k.unique j a b lt f t f' t' (
            ap (λ (t : Rule). t.ip) (sym (old_rule a ne))
            ∙ same
            ∙ ap (λ (t : Rule). t.ip) (old_rule b ne'))
      ]
    ];
  }

  pub write_rule-IsChanged : IsChanged l (depth - 1) ip next_hop (write_rule r ip depth next_hop l)
  unfolding written
  write_rule-IsChanged = record {
    limit = written-limit;
    here = record {
      k = r;
      from = at_slot.0;
      to = at_slot.1;
      at = new_ip;
      hop = ap (λ (t : Rule). t.next_hop) new_rule;
    };
    alone = λ n o. elim (written-cell g o.k (omega arith) o.from o.to) [
      | inl (e, at) ↦
          sym o.hop
          ∙ ap (λ (t : ℕ). (written.rules_tbl t).next_hop) at
          ∙ ap (λ (t : Rule). t.next_hop) new_rule
      | inr (f, t, ne) ↦ absurd (new_apart g o.k refl f t ne o.at)
    ];
    kept = λ j ip' n lt other o.
        let (f, t, ne) = kept-cell j o.k lt o.from o.to in
        record {
          k = o.k;
          from = f;
          to = t;
          at = ap (λ (t : Rule). t.ip) (old_rule o.k ne) ∙ o.at;
          hop = ap (λ (t : Rule). t.next_hop) (old_rule o.k ne) ∙ o.hop;
        };
    only = λ j ip' n lt other o. elim (written-cell j o.k lt o.from o.to) [
      | inl (e, at) ↦
          let same : ip' ≡ ip = sym o.at ∙ ap (λ (t : ℕ). (written.rules_tbl t).ip) at ∙ new_ip in
          absurd (ground (arith, (==_iff j g).1 e, (==_iff ip' ip).1 same))
      | inr (f, t, ne) ↦ record {
        k = o.k;
        from = f;
        to = t;
        at = ap (λ (t : Rule). t.ip) (sym (old_rule o.k ne)) ∙ o.at;
        hop = ap (λ (t : Rule). t.next_hop) (sym (old_rule o.k ne)) ∙ o.hop;
      }
    ];
  }

  pub write_rule-at :
      let l' = write_rule r ip depth next_hop l in
      (first l' (depth - 1) ≤ r)
      × (r < first l' (depth - 1) + used l' (depth - 1))
      × (l'.rules_tbl r ≡ record { ip = ip; next_hop = next_hop })
  unfolding written
  write_rule-at = (at_slot.0, at_slot.1, new_rule)
