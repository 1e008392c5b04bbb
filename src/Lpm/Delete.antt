-- ===== src/Lpm/Delete.antt =====
-- `delete_depth_small` of lpm/lpm.c, entry by entry.
use dpdk_code_modify.Base.{
  ℕ, zero, suc, ◌+◌, ◌-◌, ◌*◌, ◌/◌, ◌%◌, ◌^◌, ◌≤◌, ◌<◌, ◌≡◌, refl, Bool, true, false, Option, none,
  some, arith, leb, ltb, if◌then◌else◌, Bool-cases, inl, inr, le→leb, store,
}
use dpdk_code_modify.Base.Words.{add32, pow-le}
use dpdk_code_modify.Base.Loops.{within, repeat, for_loop, for_loop-repeat}
use dpdk_code_modify.Lpm.Types.{Entry, entry, Lpm, Rule, depth_to_range}
use dpdk_code_modify.Lpm.Tables.{group_start, over}
use dpdk_code_modify.Lpm.Lookup.{is_extended, answer, view}
use dpdk_code_modify.Lpm.Cells.{
  IsLinked, over-cells, group_start_lem, Rewritten, cell-Rewritten, Rewritten-IsLinked,
  plain-IsLinked,
}
use dpdk_code_modify.Lpm.Api.{drop_tbl8, swap_tbl8, delete_round, delete_depth_small}

-- Some rule answers for the address.
abbrev pub is_covered : Lpm → ℕ → Bool
is_covered l q = elim (view l q) [ none ↦ false | some _ ↦ true ]

-- The answer once a rule of depth `d` is gone: that of `sub`, unless a deeper rule answers.
abbrev pub retract : ℕ → Option (ℕ × ℕ) → Option (ℕ × ℕ) → Option (ℕ × ℕ)
retract d sub none = none
retract d sub (some (depth, old)) = if leb depth d then sub else some (depth, old)

abbrev pub Retracted : ℕ → Option (ℕ × ℕ) → ℕ → ℕ → Lpm → Lpm → Type 0
Retracted d sub lo n l l' =
    (q : ℕ) → view l' q ≡ (if within lo n (q / 256) then retract d sub (view l q) else view l q)

-- Every address of the tbl24 entries from `lo` on, `n` of them, has an answer.
abbrev pub Covered : ℕ → ℕ → Lpm → Type 0
Covered lo n l = (q : ℕ) → within lo n (q / 256) ≡ true → is_covered l q ≡ true

module _ (d : ℕ) (sub : Option (ℕ × ℕ)) (new24 : Entry) (g : Entry → Entry)
    (plain24 : is_extended new24 ≡ false) (narrow24 : new24.next_hop < 2 ^ 24)
    (shallow24 : new24.depth ≤ 24) (answer24 : answer new24 ≡ sub)
    (narrow8 : (e : Entry) → e.next_hop < 2 ^ 24 → (g e).next_hop < 2 ^ 24)
    (marked8 : (e : Entry) → e.valid_group ≡ true → (g e).valid_group ≡ true)
    (answer8 : (e : Entry) → e.valid ≡ true → answer (g e) ≡ retract d sub (answer e)) where
  abbrev swept : Lpm → ℕ → ℕ → Entry
  swept l i = over (group_start (l.tbl24 i).next_hop) 256 g l.tbl8

  swept-Rewritten :
      (l : Lpm) (i : ℕ)
      → IsLinked l
      → is_extended (l.tbl24 i) ≡ true
      → Rewritten ((l.tbl24 i).next_hop * 256) 256 g l.tbl8 (swept l i)
  swept-Rewritten l i k ext j =
      let inside = k.inside i ext in
      let few = k.few in
      rw (group_start_lem (l.tbl24 i).next_hop (omega arith))
        (over-cells ((l.tbl24 i).next_hop * 256) 256 g l.tbl8 j (omega arith))

  delete_round-lem :
      (l : Lpm) (i : ℕ)
      → IsLinked l
      → Covered i 1 l
      → IsLinked (delete_round d new24 g i l) × Retracted d sub i 1 l (delete_round d new24 g i l)
  unfolding delete_round
  delete_round-lem l i k c = elim (Bool-cases (is_extended (l.tbl24 i))) [
    | inl ext ↦
        let made : delete_round d new24 g i l ≡ record l { tbl8 = swept l i } = ground arith in
        rw made (
          Rewritten-IsLinked k ((l.tbl24 i).next_hop * 256) 256 g (swept l i) narrow8 marked8
              (swept-Rewritten l i k ext),
          λ q. ground (
            arith,
            c q,
            answer8 (l.tbl8 ((l.tbl24 i).next_hop * 256 + q % 256)),
            cell-Rewritten k i ((l.tbl24 i).next_hop * 256) 256 g (swept l i) q ext (omega arith)
                (omega arith) (swept-Rewritten l i k ext),
          ),
        )
    | inr plain ↦ elim (Bool-cases (leb (l.tbl24 i).depth d)) [
      | inl low ↦
          let here = c (i * 256) in
          let made : delete_round d new24 g i l ≡ record l { tbl24 = store l.tbl24 i new24 } =
            ground arith in
          rw made (plain-IsLinked k i new24 narrow24 shallow24 plain24, λ q. ground (arith, c q))
      | inr deep ↦
          let here = c (i * 256) in
          let made : delete_round d new24 g i l ≡ l = ground arith in
          rw made (k, λ q. ground (arith, c q))
    ]
  ]

  repeat-Retracted :
      (n lo : ℕ) (l : Lpm)
      → IsLinked l
      → Covered lo n l
      → let l' = repeat n lo (delete_round d new24 g) l in IsLinked l' × Retracted d sub lo n l l'
  unfolding repeat
  repeat-Retracted zero lo l k c = (k, λ q. ground arith)
  repeat-Retracted (suc n) lo l k c =
      let (k1, first) = delete_round-lem l lo k (λ q h. ground (arith, c q)) in
      let l1 = delete_round d new24 g lo l in
      let rest_covered : Covered (lo + 1) n l1 = λ q h. ground (arith, c q, first q) in
      let (k', rest) = repeat-Retracted n (lo + 1) l1 k1 rest_covered in
      (k', λ q. ground (arith, rest q, first q))

  loop-Retracted :
      (l : Lpm) (ip : ℕ)
      → ip < 2 ^ 32
      → d ≤ 24
      → IsLinked l
      → Covered (ip / 256) (2 ^ (24 - d)) l
      → let n = depth_to_range d in
        let l' = for_loop n (ip / 2 ^ 8) (add32 (ip / 2 ^ 8) n) (delete_round d new24 g) l in
        IsLinked l' × Retracted d sub (ip / 256) (2 ^ (24 - d)) l l'
  unfolding depth_to_range
  loop-Retracted l ip word small k c =
      let room = pow-le (24 - d) 24 (omega arith) in
      let lo = ip / 2 ^ 8 in
      let n = 2 ^ (24 - d) in
      let whole : for_loop n lo (add32 lo n) (delete_round d new24 g) l
          ≡ repeat n lo (delete_round d new24 g) l =
        for_loop-repeat n lo (add32 lo n) (delete_round d new24 g) l (omega arith) (omega arith) in
      rw (le→leb d 24 small, whole) (repeat-Retracted n lo l k c)

-- The answer of the rule that takes the place of a deleted one.
abbrev pub sub_answer : (ℕ → Rule) → Option (ℕ × ℕ) → Option (ℕ × ℕ)
sub_answer rules none = none
sub_answer rules (some (index, depth)) = some (depth, (rules index).next_hop % 2 ^ 24)

-- The replacement rule, if any, is shallower than the deleted one.
abbrev pub is_shallower : ℕ → Option (ℕ × ℕ) → Bool
is_shallower d none = true
is_shallower d (some (index, depth)) = ltb depth d

-- On linked tables, for an address below 2 ^ 32, a depth of at most 24, a replacement rule (if
-- any) of a smaller depth, and a run of tbl24 entries whose addresses all have an answer,
-- `delete_depth_small` puts the replacement, or no answer, exactly where a rule of at most that
-- depth answered in the run, and keeps the tables linked.
pub delete_depth_small-Retracted :
    (l : Lpm) (ip d : ℕ) (sub : Option (ℕ × ℕ))
    → ip < 2 ^ 32
    → d ≤ 24
    → is_shallower d sub ≡ true
    → IsLinked l
    → Covered (ip / 256) (2 ^ (24 - d)) l
    → let l' = delete_depth_small l ip d sub in
      IsLinked l' × Retracted d (sub_answer l.rules_tbl sub) (ip / 256) (2 ^ (24 - d)) l l'
unfolding delete_depth_small
delete_depth_small-Retracted l ip d none word small less k c =
    loop-Retracted d none (entry 0 false false 0) (drop_tbl8 d) refl (omega arith) (omega arith)
      refl (λ e narrow. ground arith) (λ e marked. ground arith) (λ e hit. ground arith) l ip word
      small k c
delete_depth_small-Retracted l ip d (some (index, depth)) word small less k c =
    let next_hop = (l.rules_tbl index).next_hop in
    let shallow : depth < d = ground arith in
    loop-Retracted d (some (depth, next_hop % 2 ^ 24)) (entry next_hop true false depth)
      (swap_tbl8 d (entry next_hop true true depth)) refl (omega arith) (omega arith) (ground arith)
      (λ e narrow. ground arith) (λ e marked. ground arith) (λ e hit. ground arith) l ip word small
      k c
