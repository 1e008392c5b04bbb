-- ===== src/Ring/Threads/Progress.antt =====
-- A thread that waits for a tail waits for one that can move.
use mathlib.Core.Path.{subst}
use dpdk_code_modify.Base.{
  ℕ, zero, suc, ◌+◌, ◌-◌, ◌≤◌, ◌<◌, ◌≡◌, ◌≢◌, ◌⊎◌, inl, inr, refl, sym, ap, ◌∙◌, true, arith, store,
  ℕ_discrete,
}
use dpdk_code_modify.Base.Words.{u32}
use dpdk_code_modify.Ring.Types.{Ring}
use dpdk_code_modify.Ring.Inv.{IsValid}
use dpdk_code_modify.Ring.Threads.{
  Pc, idle, p_copy, c_copy, History, slot, Move, prod_copy, prod_publish, cons_copy, cons_publish,
  System, Step, step, Reach, start, later, initial,
}
use dpdk_code_modify.Ring.Threads.Inv.{Making, Taking, makes, takes, IsFresh, Inv}
use dpdk_code_modify.Ring.Threads.Moves.{Reach-Inv}
use dpdk_code_modify.Ring.Threads.Safety.{Reach_trans}

-- Thread `j` goes from `s` to the end of its call on its own; `tail` is the count that it moves.
record Done (tail : System → ℕ) (s : System) (j n : ℕ) : Type 0 where
  last : System
  run : Reach s last
  over : last.pc j ≡ idle
  others : (l : ℕ) → j ≢ l → last.pc l ≡ s.pc l
  moved : tail last ≡ tail s + n

abbrev prod_count : System → ℕ
prod_count s = s.hist.prod_tail

abbrev cons_count : System → ℕ
cons_count s = s.hist.cons_tail

module _ (s : System) (j : ℕ) {p : Pc} (e : s.pc j ≡ p) where
  moves :
      {r : Ring} {g : History} {q : Pc}
      → Move s.ring s.hist p r g q
      → Step s (record { ring = r; hist = g; pc = store s.pc j q })
  moves {r} {g} {q} mv = step j (subst (λ x. Move s.ring s.hist x r g q) (sym e) mv)

-- One step more at the front.
first :
    {tail : System → ℕ} {s t : System} {j n : ℕ}
    → Step s t
    → tail t ≡ tail s
    → ((l : ℕ) → j ≢ l → t.pc l ≡ s.pc l)
    → Done tail t j n
    → Done tail s j n
first st same kept d = record {
  last = d.last;
  run = Reach_trans (later start st) d.run;
  over = d.over;
  others = λ l ne. d.others l ne ∙ kept l ne;
  moved = omega (arith, d.moved);
}

finish_making :
    (m : ℕ) (s : System) (j : ℕ) (obj : ℕ → ℕ) (old seen n k : ℕ)
    → k + m ≡ n
    → s.pc j ≡ p_copy obj old seen n k
    → s.ring.prod.tail ≡ old
    → Done prod_count s j n
finish_making zero s j obj old seen n k q e turn = record {
  last = _;
  run = later start (moves s j (e ∙ ap (p_copy obj old seen n) (omega arith)) (prod_publish turn));
  over = ground arith;
  others = λ l ne. ground arith;
  moved = refl;
}
finish_making (suc m) s j obj old seen n k q e turn =
    first (moves s j e (prod_copy (omega arith))) refl (λ l ne. ground arith)
      (finish_making m _ j obj old seen n (k + 1) (omega arith) (ground arith) turn)

finish_taking :
    (m : ℕ) (s : System) (j : ℕ) (old seen n k : ℕ) (got : ℕ → ℕ)
    → k + m ≡ n
    → s.pc j ≡ c_copy old seen n k got
    → s.ring.cons.tail ≡ old
    → Done cons_count s j n
finish_taking zero s j old seen n k got q e turn = record {
  last = _;
  run =
      later start
        (moves s j (e ∙ ap (λ (x : ℕ). c_copy old seen n x got) (omega arith)) (cons_publish turn));
  over = ground arith;
  others = λ l ne. ground arith;
  moved = refl;
}
finish_taking (suc m) s j old seen n k got q e turn =
    first (moves s j e (cons_copy (omega arith))) refl (λ l ne. ground arith)
      (finish_taking m _ j old seen n (k + 1) (store got k (s.ring.slots (slot s.ring old k)))
        (omega arith) (ground arith) turn)

-- The thread with the element at the producers' tail in hand, and what it has in hand.
made_first :
    {order : ℕ} {s : System}
    → Inv order s.ring s.hist s.pc
    → (j : ℕ) (p : Pc) → s.pc j ≡ p
    → makes p s.hist.prod_tail ≡ true
    → (n : ℕ) × (0 < n) × Done prod_count s j n
made_first {s} inv j (p_copy obj old seen n k) e q = (
  n,
  omega (arith, own.some_n),
  finish_making (n - k) s j obj old seen n k (omega (arith, own.i_le)) e
      (inv.counts.prod_tail_word ∙ ap u32 at ∙ sym own.word),
)
  where
    own : Making s.ring s.hist obj old seen n k
    own = subst (IsFresh s.ring s.hist) e (inv.fresh j)

    at : s.hist.prod_tail ≡ seen
    at = ground (arith, own.from)
made_first inv j p e q = absurd (ground arith)

taken_first :
    {order : ℕ} {s : System}
    → Inv order s.ring s.hist s.pc
    → (j : ℕ) (p : Pc) → s.pc j ≡ p
    → takes p s.hist.cons_tail ≡ true
    → (n : ℕ) × (0 < n) × Done cons_count s j n
taken_first {s} inv j (c_copy old seen n k got) e q = (
  n,
  omega (arith, own.some_n),
  finish_taking (n - k) s j old seen n k got (omega (arith, own.i_le)) e
      (inv.counts.cons_tail_word ∙ ap u32 at ∙ sym own.word),
)
  where
    own : Taking s.hist old seen n k got
    own = subst (IsFresh s.ring s.hist) e (inv.fresh j)

    at : s.hist.cons_tail ≡ seen
    at = ground (arith, own.from)
taken_first inv j p e q = absurd (ground arith)

made_bounds :
    (r : Ring) (g : History) (p : Pc) (x : ℕ)
    → IsFresh r g p
    → makes p x ≡ true
    → (g.prod_tail ≤ x) × (x < g.prod_head)
made_bounds r g (p_copy _ _ _ _ _) x f q = (ground (arith, f.from), ground (arith, f.upto))
made_bounds r g p x f q = absurd (ground arith)

taken_bounds :
    (r : Ring) (g : History) (p : Pc) (x : ℕ)
    → IsFresh r g p
    → takes p x ≡ true
    → (g.cons_tail ≤ x) × (x < g.cons_head)
taken_bounds r g (c_copy _ _ _ _ _) x f q = (ground (arith, f.from), ground (arith, f.upto))
taken_bounds r g p x f q = absurd (ground arith)

-- A run from `s` after which thread `i` is between calls.
abbrev pub Ended : System → ℕ → Type 0
Ended s i = (t : System) × Reach s t × (t.pc i ≡ idle)

module _ {order : ℕ} {r : Ring} (v : IsValid order r) (i x : ℕ) where
  -- `fuel` bounds how far the tail is behind `x`.
  end_making :
      (fuel : ℕ) (s : System)
      → Reach (initial r) s
      → makes (s.pc i) x ≡ true
      → x < s.hist.prod_tail + fuel
      → Ended s i
  end_making zero s run q u =
      absurd (omega (arith, (made_bounds s.ring s.hist (s.pc i) x ((Reach-Inv v run).fresh i) q).0))
  end_making (suc fuel) s run q u =
      let inv = Reach-Inv v run in
      let (l, h) = made_bounds s.ring s.hist (s.pc i) x (inv.fresh i) q in
      let (j, at) = inv.made s.hist.prod_tail (omega arith) (omega arith) in
      let (n, some_n, d) = made_first inv j (s.pc j) refl at in
      elim (ℕ_discrete j i) [
        | yes e ↦ (d.last, d.run, ap d.last.pc (sym e) ∙ d.over)
        | no ne ↦
            let (t, more, over) =
              end_making fuel d.last (Reach_trans run d.run)
                (ap (λ p. makes p x) (d.others i ne) ∙ q) (omega (arith, d.moved)) in
            (t, Reach_trans d.run more, over)
      ]

  end_taking :
      (fuel : ℕ) (s : System)
      → Reach (initial r) s
      → takes (s.pc i) x ≡ true
      → x < s.hist.cons_tail + fuel
      → Ended s i
  end_taking zero s run q u =
      absurd
        (omega (arith, (taken_bounds s.ring s.hist (s.pc i) x ((Reach-Inv v run).fresh i) q).0))
  end_taking (suc fuel) s run q u =
      let inv = Reach-Inv v run in
      let (l, h) = taken_bounds s.ring s.hist (s.pc i) x (inv.fresh i) q in
      let (j, at) = inv.taken s.hist.cons_tail (omega arith) (omega arith) in
      let (n, some_n, d) = taken_first inv j (s.pc j) refl at in
      elim (ℕ_discrete j i) [
        | yes e ↦ (d.last, d.run, ap d.last.pc (sym e) ∙ d.over)
        | no ne ↦
            let (t, more, over) =
              end_taking fuel d.last (Reach_trans run d.run)
                (ap (λ p. takes p x) (d.others i ne) ∙ q) (omega (arith, d.moved)) in
            (t, Reach_trans d.run more, over)
      ]

-- In every state so reached, a thread that has elements in hand, between the move of its head and
-- of its tail, can be brought to the end of its call: there is a run from that state after which
-- it is between calls, whatever the other threads had in hand.
pub no_deadlock :
    {order : ℕ} {r : Ring} {s : System}
    → IsValid order r
    → Reach (initial r) s
    → (i x : ℕ) → (makes (s.pc i) x ≡ true) ⊎ (takes (s.pc i) x ≡ true)
    → Ended s i
no_deadlock {s} v run i x (inl q) = end_making v i x (x + 1) s run q (omega arith)
no_deadlock {s} v run i x (inr q) = end_taking v i x (x + 1) s run q (omega arith)
