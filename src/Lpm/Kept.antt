-- ===== src/Lpm/Kept.antt =====
-- Writing the lookup tables of lpm/lpm.c leaves the rule table alone.
use dpdk_code_modify.Base.{
  Option, none, some, true, false, ℕ, zero, suc, ◌/◌, ◌^◌, ◌≡◌, refl, ◌∙◌, not, ◌&&◌, ◌||◌, ltb,
  leb, Bool-cases, Option-cases, inl, inr,
}
use dpdk_code_modify.Base.Words.{add32}
use dpdk_code_modify.Base.Loops.{for_loop}
use dpdk_code_modify.Lpm.Types.{Lpm, depth_to_range}
use dpdk_code_modify.Lpm.Tables.{
  small_round, add_depth_small, find_group, tbl8_alloc, big_invalid, big_plain, big_extended,
  add_depth_big,
}
use dpdk_code_modify.Lpm.Types.{Entry, entry}
use dpdk_code_modify.Lpm.Api.{
  Recycle, in_use, empty, uniform, delete_range, unlink, delete_round, drop_tbl8, swap_tbl8,
  delete_depth_small,
}
use dpdk_code_modify.Lpm.Groups.{IsGrouped, SameRules}

-- The rule table of two tables is the same.
pub record SameRuleTable (l l' : Lpm) : Type 0 where
  pub info : l'.rule_info ≡ l.rule_info
  pub rules : l'.rules_tbl ≡ l.rules_tbl
  pub limit : l'.max_rules ≡ l.max_rules

unchanged : {l : Lpm} → SameRuleTable l l
unchanged = record { info = refl; rules = refl; limit = refl }

pub SameRuleTable-trans :
    {l l' l'' : Lpm} → SameRuleTable l l' → SameRuleTable l' l'' → SameRuleTable l l''
SameRuleTable-trans s t = record {
  info = t.info ∙ s.info;
  rules = t.rules ∙ s.rules;
  limit = t.limit ∙ s.limit;
}

pub SameRuleTable-SameRules : {l l' : Lpm} → SameRuleTable l l' → SameRules l l'
SameRuleTable-SameRules {l} {l'} s = record {
  limit = s.limit;
  kept = λ j ip n lt o. record {
    k = o.k;
    from = rw s.info o.from;
    to = rw s.info o.to;
    at = rw s.rules o.at;
    hop = rw s.rules o.hop;
  };
  only = λ j ip n lt o. record {
    k = o.k;
    from = rw s.info at o.from;
    to = rw s.info at o.to;
    at = rw s.rules at o.at;
    hop = rw s.rules at o.hop;
  };
}

pub SameRuleTable-IsGrouped : {l l' : Lpm} → SameRuleTable l l' → IsGrouped l → IsGrouped l'
SameRuleTable-IsGrouped s g = record {
  few = rw s.limit g.few;
  ends = rw (s.info, s.limit) g.ends;
  ordered = rw s.info g.ordered;
  unique = rw (s.info, s.rules) g.unique;
}

for_loop-SameRuleTable :
    (fuel i end : ℕ) (body : ℕ → Lpm → Lpm) (l : Lpm)
    → ((k : ℕ) (m : Lpm) → SameRuleTable m (body k m))
    → SameRuleTable l (for_loop fuel i end body l)
unfolding for_loop
for_loop-SameRuleTable zero i end body l each = unchanged
for_loop-SameRuleTable (suc fuel) i end body l each = elim (Bool-cases (ltb i end)) [
  | inr over ↦ rw (over, for_loop) unchanged
  | inl more ↦
      rw (more, for_loop)
        (SameRuleTable-trans (each i l)
          (for_loop-SameRuleTable fuel (add32 i 1) end body (body i l) each))
]

module _ (depth next_hop : ℕ) where
  small_round-SameRuleTable : (i : ℕ) (l : Lpm) → SameRuleTable l (small_round depth next_hop i l)
  unfolding small_round
  small_round-SameRuleTable i l =
      let e = l.tbl24 i in
      elim (Bool-cases (not e.valid || (not e.valid_group && leb e.depth depth))) [
        | inl direct ↦ rw direct (record { info = refl; rules = refl; limit = refl })
        | inr other ↦ elim (Bool-cases e.valid_group) [
          | inl group ↦ rw (other, group) (record { info = refl; rules = refl; limit = refl })
          | inr deeper ↦ rw (other, deeper) unchanged
        ]
      ]

  pub add_depth_small-SameRuleTable :
      (l : Lpm) (ip : ℕ) → SameRuleTable l (add_depth_small l ip depth next_hop)
  unfolding add_depth_small
  add_depth_small-SameRuleTable l ip =
      for_loop-SameRuleTable (depth_to_range depth) (ip / 2 ^ 8)
        (add32 (ip / 2 ^ 8) (depth_to_range depth)) (small_round depth next_hop) l
        small_round-SameRuleTable

  pub add_depth_big-SameRuleTable :
      (l : Lpm) (ip : ℕ) → SameRuleTable l (add_depth_big l ip depth next_hop).1
  unfolding add_depth_big tbl8_alloc big_invalid big_plain big_extended
  add_depth_big-SameRuleTable l ip =
      let e = l.tbl24 (ip / 2 ^ 8) in
      let group = find_group l.number_tbl8s 0 l.number_tbl8s l.tbl8 in
      elim (Bool-cases e.valid) [
        | inr invalid ↦ elim (Option-cases group) [
          | inl none_left ↦ rw (invalid, none_left) unchanged
          | inr (g, got) ↦ rw (invalid, got) (record { info = refl; rules = refl; limit = refl })
        ]
        | inl valid ↦ elim (Bool-cases e.valid_group) [
          | inr plain ↦ elim (Option-cases group) [
            | inl none_left ↦ rw (valid, plain, none_left) unchanged
            | inr (g, got) ↦
                rw (valid, plain, got) (record { info = refl; rules = refl; limit = refl })
          ]
          | inl extended ↦ rw (valid, extended) (record { info = refl; rules = refl; limit = refl })
        ]
      ]

delete_round-SameRuleTable :
    (depth : ℕ) (new24 : Entry) (g : Entry → Entry) (i : ℕ) (l : Lpm)
    → SameRuleTable l (delete_round depth new24 g i l)
unfolding delete_round
delete_round-SameRuleTable depth new24 g i l =
    let e = l.tbl24 i in
    elim (Bool-cases (not e.valid_group && leb e.depth depth)) [
      | inl direct ↦ rw direct (record { info = refl; rules = refl; limit = refl })
      | inr other ↦ elim (Bool-cases e.valid_group) [
        | inl group ↦ rw (other, group) (record { info = refl; rules = refl; limit = refl })
        | inr deeper ↦ rw (other, deeper) unchanged
      ]
    ]

pub delete_depth_small-SameRuleTable :
    (l : Lpm) (ip depth : ℕ) (sub : Option (ℕ × ℕ))
    → SameRuleTable l (delete_depth_small l ip depth sub)
unfolding delete_depth_small
delete_depth_small-SameRuleTable l ip depth none =
    for_loop-SameRuleTable (depth_to_range depth) (ip / 2 ^ 8)
      (add32 (ip / 2 ^ 8) (depth_to_range depth)) _ l
      (delete_round-SameRuleTable depth (entry 0 false false 0) (drop_tbl8 depth))
delete_depth_small-SameRuleTable l ip depth (some (index, p)) =
    let next_hop = (l.rules_tbl index).next_hop in
    for_loop-SameRuleTable (depth_to_range depth) (ip / 2 ^ 8)
      (add32 (ip / 2 ^ 8) (depth_to_range depth)) _ l
      (delete_round-SameRuleTable depth (entry next_hop true false p)
        (swap_tbl8 depth (entry next_hop true true p)))

pub delete_range-SameRuleTable :
    (l : Lpm) (start index depth : ℕ) (sub : Option (ℕ × ℕ))
    → SameRuleTable l (delete_range l start index depth sub)
unfolding delete_range
delete_range-SameRuleTable l start index depth none = record {
  info = refl;
  rules = refl;
  limit = refl;
}
delete_range-SameRuleTable l start index depth (some (rule, p)) = record {
  info = refl;
  rules = refl;
  limit = refl;
}

pub unlink-SameRuleTable : (i : ℕ) (r : Recycle) (l : Lpm) → SameRuleTable l (unlink i r l)
unfolding unlink
unlink-SameRuleTable i in_use l = unchanged
unlink-SameRuleTable i empty l = record { info = refl; rules = refl; limit = refl }
unlink-SameRuleTable i (uniform start) l = record { info = refl; rules = refl; limit = refl }
