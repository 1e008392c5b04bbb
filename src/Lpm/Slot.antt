-- ===== src/Lpm/Slot.antt =====
-- Where `rule_add` of lpm/lpm.c puts a rule that is not in the rule table.
use dpdk_code_modify.Base.{
  ℕ, zero, suc, ◌+◌, ◌-◌, ◌^◌, ◌≤◌, ◌<◌, ◌≡◌, ◌≢◌, refl, ap, arith, ◌==◌, Bool-cases, inl, inr,
  ==_iff, dec_lt, store, lt→ltb,
}
use dpdk_code_modify.Base.Words.{add32}
use dpdk_code_modify.Lpm.Types.{Rule, Lpm}
use dpdk_code_modify.Lpm.Rules.{past, scan, fresh_index}
use dpdk_code_modify.Lpm.Groups.{used, first, IsGrouped, SameRules, HasGap}

-- A scan that finds nothing stops at the end of the group.
pub scan_past :
    (fuel i last ip_masked : ℕ) (t : ℕ → Rule) {j : ℕ}
    → i ≤ last
    → last ≤ i + fuel
    → last < 2 ^ 32
    → scan fuel i last ip_masked t ≡ past j
    → j ≡ last
unfolding scan
scan_past zero i last ip_masked t le enough word e = ground arith
scan_past (suc fuel) i last ip_masked t {j} le enough word e =
    ground (arith, scan_past fuel (add32 i 1) last ip_masked t {j = j})

module _ (l : Lpm) (g : IsGrouped l) where
  -- Among the groups below `n`, the last one with rules ends at the place of `fresh_index`.
  pub fresh_index_lem :
      (n : ℕ)
      → n ≤ 32
      → ((j : ℕ) → j < n → 0 < used l j → first l j + used l j ≤ fresh_index n l)
        × (fresh_index n l ≤ l.max_rules)
        × ((j : ℕ) → n ≤ j → j < 32 → 0 < used l j → fresh_index n l ≤ first l j)
  unfolding fresh_index
  fresh_index_lem zero few =
      (λ j lt pos. absurd (omega arith), omega arith, λ j ge lt pos. omega arith)
  fresh_index_lem (suc n) few =
      let limit = g.few in
      let (low, inside, high) = fresh_index_lem n (omega arith) in
      elim (dec_lt 0 (used l n)) [
        | yes pos ↦
            let ends = g.ends n (omega arith) pos in
            let whole : add32 (first l n) (used l n) ≡ first l n + used l n = omega arith in
            rw (lt→ltb 0 (used l n) pos, fresh_index, whole)
              (
                λ j lt pj. elim (dec_lt j n) [
                  | yes below ↦ let before = g.ordered j n below (omega arith) pj pos in omega arith
                  | no top ↦ let e : j ≡ n = omega arith in rw e (omega arith)
                ],
                ends,
                λ j ge lt pj. g.ordered n j (omega arith) lt pos pj,
              )
        | no zero_used ↦
            let none_used : used l n ≡ 0 = omega arith in
            rw (none_used, fresh_index)
              (
                λ j lt pj. elim (dec_lt j n) [
                  | yes below ↦ low j below pj
                  | no top ↦
                      let e : j ≡ n = omega arith in
                      absurd (ground (arith, ap (λ (t : ℕ). used l t) e))
                ],
                inside,
                λ j ge lt pj. high j (omega arith) lt pj,
              )
      ]

  module _ (depth : ℕ) (one : 1 ≤ depth) (top : depth ≤ 32) where
    -- A group with rules goes on at its end.
    pub used-HasGap :
        0 < used l (depth - 1)
        → first l (depth - 1) + used l (depth - 1) ≢ l.max_rules
        → HasGap depth 32 (first l (depth - 1) + used l (depth - 1)) l
    used-HasGap pos room =
        let ends = g.ends (depth - 1) (omega arith) pos in
        record {
          slot = refl;
          inside = omega arith;
          low = λ j lt pj. elim (dec_lt j (depth - 1)) [
            | yes below ↦
                let before = g.ordered j (depth - 1) below (omega arith) pj pos in omega arith
            | no same ↦ let e : j ≡ depth - 1 = omega arith in rw e (omega arith)
          ];
          mid = λ j ge lt pj. g.ordered (depth - 1) j (omega arith) lt pos pj;
          high = λ j ge lt pj. absurd (omega arith);
          gap = λ a j ge la gj lj pa pj. absurd (omega arith);
        }

    -- A group without rules starts behind the nearest one below that has some.
    abbrev pub started : Lpm
    started = record l {
      rule_info =
          store l.rule_info (depth - 1)
            (record (l.rule_info (depth - 1)) { first_rule = fresh_index (depth - 1) l });
    }

    module _ (none_used : used l (depth - 1) ≡ 0) where
      started-info :
          (j : ℕ) → (used started j ≡ used l j) × (0 < used l j → first started j ≡ first l j)
      started-info j = elim (Bool-cases (depth - 1 == j)) [
        | inl at ↦
            let e : depth - 1 ≡ j = (==_iff (depth - 1) j).0 at in
            ground (arith, none_used, ap (λ (t : ℕ). used l t) e)
        | inr away ↦ ground arith
      ]

      pub started-IsGrouped : IsGrouped started
      started-IsGrouped = record {
        few = g.few;
        ends = λ j lt pos. ground (arith, started-info j, g.ends j);
        ordered =
            λ i j below lt pi pj. ground (arith, started-info i, started-info j, g.ordered i j);
        unique = λ j a b lt fa ta fb tb same.
            let (u, f) = started-info j in
            let at : first started j ≡ first l j = f (omega arith) in
            g.unique j a b lt (omega arith) (omega arith) (omega arith) (omega arith) same;
      }

      pub started-SameRules : SameRules l started
      started-SameRules = record {
        limit = refl;
        kept = λ j ip n lt o.
            let (u, f) = started-info j in
            let from = o.from in
            let to = o.to in
            let at : first started j ≡ first l j = f (omega arith) in
            record { k = o.k; from = omega arith; to = omega arith; at = o.at; hop = o.hop };
        only = λ j ip n lt o.
            let (u, f) = started-info j in
            let from = o.from in
            let to = o.to in
            let at : first started j ≡ first l j = f (omega arith) in
            record { k = o.k; from = omega arith; to = omega arith; at = o.at; hop = o.hop };
      }

      pub started-HasGap :
          fresh_index (depth - 1) l ≢ l.max_rules
          → HasGap depth 32 (fresh_index (depth - 1) l) started
      started-HasGap room =
          let (low, inside, high) = fresh_index_lem (depth - 1) (omega arith) in
          record {
            slot = ground (arith, none_used, (==_iff (depth - 1) (depth - 1)).1 refl);
            inside = omega arith;
            low = λ j lt pj. elim (Bool-cases (depth - 1 == j)) [
              | inl at ↦
                  let e : depth - 1 ≡ j = (==_iff (depth - 1) j).0 at in
                  absurd (ground (arith, none_used, started-info j, ap (λ (t : ℕ). used l t) e))
              | inr away ↦ ground (arith, started-info j, low j)
            ];
            mid = λ j ge lt pj. ground (arith, started-info j, high j);
            high = λ j ge lt pj. absurd (omega arith);
            gap = λ a j ge la gj lj pa pj. absurd (omega arith);
          }
