-- ===== src/Ring/Threads/Safety.antt =====
-- What no interleaving of enqueues and dequeues can do to the elements.
use mathlib.Core.Path.{subst}
use dpdk_code_modify.Base.{
  ℕ, ◌+◌, ◌%◌, ◌≤◌, ◌<◌, ◌≡◌, ◌≢◌, ◌⊎◌, inl, inr, refl, sym, ap, ◌∙◌, Bool, true, Option, some,
  none, arith, ltb, if◌then◌else◌, dec_lt,
}
use dpdk_code_modify.Ring.Types.{Ring}
use dpdk_code_modify.Ring.Shape.{Shape, slots_differ}
use dpdk_code_modify.Ring.Inv.{IsValid}
use dpdk_code_modify.Ring.Threads.{
  Pc, p_copy, c_copy, History, Move, prod_win, slot, System, step, Reach, start, later, initial,
}
use dpdk_code_modify.Ring.Threads.Inv.{makes, takes, Making, Taking, IsFresh}
use dpdk_code_modify.Ring.Threads.Copy.{slot-mod}
use dpdk_code_modify.Ring.Threads.Moves.{Reach-Inv}

-- The slot that the thread's next step writes.
abbrev pub writes : Ring → Pc → Option ℕ
writes r (p_copy _ old _ n i) = if ltb i n then some (slot r old i) else none
writes r _ = none

-- The slot that the thread's next step reads.
abbrev pub reads : Ring → Pc → Option ℕ
reads r (c_copy old _ n i _) = if ltb i n then some (slot r old i) else none
reads r _ = none

-- The element whose slot is written or read.
record At (size low high : ℕ) (holds : ℕ → Bool) (w : ℕ) : Type 0 where
  place : ℕ
  at : w ≡ place % size
  held : holds place ≡ true
  from : low ≤ place
  upto : place < high

writes-At :
    {order : ℕ} {r : Ring} (g : History)
    → Shape order r
    → (p : Pc) → IsFresh r g p
    → (w : ℕ) → writes r p ≡ some w
    → At r.size g.prod_tail g.prod_head (makes p) w
writes-At {r} g s (p_copy _ old seen n i) f w e = record {
  place = seen + i;
  at = ground (arith, slot-mod s old seen i f.word);
  held = ground arith;
  from = omega (arith, f.from);
  upto = ground (arith, f.upto);
}
writes-At g s p f w e = absurd (ground arith)

reads-At :
    {order : ℕ} {r : Ring} (g : History)
    → Shape order r
    → (p : Pc) → IsFresh r g p
    → (w : ℕ) → reads r p ≡ some w
    → At r.size g.cons_tail g.cons_head (takes p) w
reads-At {r} g s (c_copy old seen n i _) f w e = record {
  place = seen + i;
  at = ground (arith, slot-mod s old seen i f.word);
  held = ground arith;
  from = omega (arith, f.from);
  upto = ground (arith, f.upto);
}
reads-At g s p f w e = absurd (ground arith)

far_apart :
    (size low x y : ℕ)
    → low ≤ x
    → x < low + size
    → low ≤ y
    → y < low + size
    → x ≢ y
    → x % size ≢ y % size
far_apart size low x y lx ux ly uy ne = elim (dec_lt x y) [
  | yes l ↦ slots_differ size x y l (omega arith)
  | no l ↦ λ e. slots_differ size y x (omega arith) (omega arith) (sym e)
]

-- In every state so reached, a slot that a producer is about to write is neither the slot that
-- another producer is about to write nor one that a consumer is about to read.
pub slots_apart :
    {order : ℕ} {r : Ring} {s : System}
    → IsValid order r
    → Reach (initial r) s
    → (i j w v : ℕ) → i ≢ j
    → writes s.ring (s.pc i) ≡ some w
    → (writes s.ring (s.pc j) ≡ some v) ⊎ (reads s.ring (s.pc j) ≡ some v)
    → w ≢ v
slots_apart {s} v0 run i j w v ne qw (inl qv) same =
    far_apart s.ring.size s.hist.cons_tail a.place b.place
      (omega (arith, a.from, counts.taking, counts.visible))
      (omega (arith, a.upto, counts.fits, shape.spare))
      (omega (arith, b.from, counts.taking, counts.visible))
      (omega (arith, b.upto, counts.fits, shape.spare))
      (λ e. ne (one_maker i j a.place a.held (ground (arith, b.held)))) (sym a.at ∙ same ∙ b.at)
  where
    open (Reach-Inv v0 run) use {shape, counts, fresh, one_maker}

    a : At s.ring.size s.hist.prod_tail s.hist.prod_head (makes (s.pc i)) w
    a = writes-At s.hist shape (s.pc i) (fresh i) w qw

    b : At s.ring.size s.hist.prod_tail s.hist.prod_head (makes (s.pc j)) v
    b = writes-At s.hist shape (s.pc j) (fresh j) v qv
slots_apart {s} v0 run i j w v ne qw (inr qv) same =
    far_apart s.ring.size s.hist.cons_tail a.place b.place
      (omega (arith, a.from, counts.taking, counts.visible))
      (omega (arith, a.upto, counts.fits, shape.spare)) b.from
      (omega (arith, b.upto, counts.visible, counts.making, counts.fits, shape.spare))
      (omega (arith, a.from, b.upto, counts.visible)) (sym a.at ∙ same ∙ b.at)
  where
    open (Reach-Inv v0 run) use {shape, counts, fresh}

    a : At s.ring.size s.hist.prod_tail s.hist.prod_head (makes (s.pc i)) w
    a = writes-At s.hist shape (s.pc i) (fresh i) w qw

    b : At s.ring.size s.hist.cons_tail s.hist.cons_head (takes (s.pc j)) v
    b = reads-At s.hist shape (s.pc j) (fresh j) v qv

Move-log :
    {r r' : Ring} {g g' : History} {p p' : Pc}
    → Move r g p r' g' p'
    → (g.prod_head ≤ g'.prod_head) × ((x : ℕ) → x < g.prod_head → g'.log x ≡ g.log x)
Move-log (prod_win _ _) = (omega arith, λ x l. ground arith)
Move-log mv = (omega arith, λ x l. refl)

-- What is logged is never logged again.
Reach-log :
    {s t : System}
    → Reach s t
    → (s.hist.prod_head ≤ t.hist.prod_head)
      × ((x : ℕ) → x < s.hist.prod_head → t.hist.log x ≡ s.hist.log x)
Reach-log start = (omega arith, λ x l. refl)
Reach-log (later run (step i mv)) =
    let (a, b) = Reach-log run in
    let (c, d) = Move-log mv in (omega arith, λ x l. d x (omega arith) ∙ b x l)

pub Reach_trans : {s t u : System} → Reach s t → Reach t u → Reach s u
Reach_trans a start = a
Reach_trans a (later b st) = later (Reach_trans a b) st

-- When a producer has moved the head over `n` elements from the place `seen` on, in a state so
-- reached, and in some later state a consumer has copied `k'` elements from the place `seen'` on,
-- then at a place that both have, the consumer's table holds the object of the producer's table.
pub delivered :
    {order : ℕ} {r : Ring} {s t : System}
    → IsValid order r
    → Reach (initial r) s
    → Reach s t
    → (i : ℕ) {obj : ℕ → ℕ} {old seen n k : ℕ} → s.pc i ≡ p_copy obj old seen n k
    → (j : ℕ) {got : ℕ → ℕ} {old' seen' n' k' : ℕ} → t.pc j ≡ c_copy old' seen' n' k' got
    → (x y : ℕ) → x < n
    → y < k'
    → seen + x ≡ seen' + y
    → got y ≡ obj x
delivered {s} {t} v run more i {obj} {old} {seen} {n} {k} e j {got} {old'} {seen'} {n'} {k'} e' x y
      lx ly same =
    took.read y ly
    ∙ ap t.hist.log (sym same)
    ∙ (Reach-log more).1 (seen + x) (omega (arith, made.upto))
    ∙ sym (made.sent x lx)
  where
    made : Making s.ring s.hist obj old seen n k
    made = subst (IsFresh s.ring s.hist) e ((Reach-Inv v run).fresh i)

    took : Taking t.hist old' seen' n' k' got
    took = subst (IsFresh t.ring t.hist) e' ((Reach-Inv v (Reach_trans run more)).fresh j)
