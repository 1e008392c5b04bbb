-- ===== src/Lpm/Agree.antt =====
-- The entries of a tbl8 group of lpm/lpm.c that answer by rules of one depth of 24 at most.
use dpdk_code_modify.Base.{
  ℕ, ◌+◌, ◌*◌, ◌/◌, ◌%◌, ◌^◌, ◌≤◌, ◌<◌, ◌≡◌, ◌≢◌, refl, sym, ap, ◌∙◌, true, Option, none, some,
  arith, Option-cases, inl, inr, ==_iff,
}
use dpdk_code_modify.Lpm.Types.{Lpm}
use dpdk_code_modify.Lpm.Prefix.{base, covers}
use dpdk_code_modify.Lpm.Lookup.{is_extended, answer, view}
use dpdk_code_modify.Lpm.Groups.{IsGrouped, HasRule}
use dpdk_code_modify.Lpm.Dropped.{fewer_bits}
use dpdk_code_modify.Lpm.Best.{Matches, IsBest, unmatched, deepest}

-- A group has one next hop for an address.
hop_unique :
    {l : Lpm} {j ip n n' : ℕ} → IsGrouped l → j < 32 → HasRule l j ip n → HasRule l j ip n' → n ≡ n'
hop_unique {l} {j} g lt a b =
    let e = g.unique j a.k b.k lt a.from a.to b.from b.to (a.at ∙ sym b.at) in
    sym a.hop ∙ ap (λ (t : ℕ). (l.rules_tbl t).next_hop) e ∙ b.hop

-- The rule behind an answer.
answer_match :
    {l : Lpm} {q : ℕ} {o : Option (ℕ × ℕ)} {p n : ℕ}
    → IsBest l q o
    → o ≡ some (p, n)
    → (1 ≤ p) × (p ≤ 32) × Matches l q p n
answer_match (unmatched none_there) e = absurd (ground arith)
answer_match {l} {q} {p} {n} (deepest d n' low high m none_deeper) e =
    let ed : d ≡ p = ground arith in
    let en : n' ≡ n = ground arith in rw (← ed, ← en) (low, high, m)

-- Where there is a rule, there is an answer.
match_answer :
    {l : Lpm} {q p n : ℕ} {o : Option (ℕ × ℕ)}
    → IsBest l q o
    → 1 ≤ p
    → p ≤ 32
    → Matches l q p n
    → o ≢ none
match_answer {p} {n} (unmatched none_there) low high m e = none_there p n low high m
match_answer (deepest d n' low' high' m' none_deeper) low high m e = absurd (ground arith)

module _ (rules l : Lpm) (g : IsGrouped rules)
    (answers : (q : ℕ) → q < 2 ^ 32 → IsBest rules q (view l q)) (i : ℕ) (word : i < 2 ^ 24)
    (ext : is_extended (l.tbl24 i) ≡ true) where
  abbrev start : ℕ
  start = (l.tbl24 i).next_hop * 256

  group_view : (x : ℕ) → x < 256 → view l (i * 256 + x) ≡ answer (l.tbl8 (start + x))
  group_view x lt =
      let quot : (i * 256 + x) / 256 ≡ i = omega arith in
      let rem : (i * 256 + x) % 256 ≡ x = omega arith in rw (quot, rem, ext) refl

  group_covers : (x : ℕ) → x < 256 → covers (i * 256) 24 (i * 256 + x) ≡ true
  group_covers x lt =
      let quot : (i * 256 + x) / 256 ≡ i * 256 / 256 = omega arith in
      (==_iff ((i * 256 + x) / 256) (i * 256 / 256)).1 quot

  pub agree :
      (l.tbl8 start).valid ≡ true
      → (l.tbl8 start).depth ≤ 24
      → ((j : ℕ) → start ≤ j → j < start + 256 → (l.tbl8 j).depth ≡ (l.tbl8 start).depth)
      → (x : ℕ) → x < 256
      → answer (l.tbl8 (start + x)) ≡ answer (l.tbl8 start)
  agree hit shallow same x lt =
      let p = (l.tbl8 start).depth in
      let n = (l.tbl8 start).next_hop in
      let first : i * 256 + 0 ≡ i * 256 = omega arith in
      let front : start + 0 ≡ start = omega arith in
      let here : view l (i * 256) ≡ some (p, n) =
        rw (first, front) at (group_view 0 (omega arith)) ∙ rw hit refl in
      let (low, high, m) = answer_match (answers (i * 256) (omega arith)) here in
      let shared : base (i * 256 + x) p ≡ base (i * 256) p =
        fewer_bits (i * 256) (i * 256 + x) 24 p shallow (omega arith) (group_covers x lt) in
      let m' : Matches rules (i * 256 + x) p n = rw shared m in
      let best = answers (i * 256 + x) (omega arith) in
      let depths = same (start + x) (omega arith) (omega arith) in
      elim (Option-cases (view l (i * 256 + x))) [
        | inl none_there ↦ absurd (match_answer best low high m' none_there)
        | inr ((p', n'), there) ↦
            let (low', high', m'') = answer_match best there in
            let at : answer (l.tbl8 (start + x)) ≡ some (p', n') = sym (group_view x lt) ∙ there in
            let ep : p' ≡ p = ground (arith, at, depths) in
            let en : n ≡ n' = hop_unique g (omega arith) m' (rw ep at m'') in
            at ∙ rw (ep, ← en, hit) refl
      ]
