-- ===== src/Ring/Dequeue.antt =====
-- The dequeue path of ring/ring.c on a ring with no other call under way.
use native.Mathlib.Nat.{mod-add-mod}
use dpdk_code_modify.Base.{
  ℕ, zero, suc, ◌+◌, ◌-◌, ◌%◌, ◌≤◌, ◌≡◌, ◌≢◌, refl, sym, ◌∙◌, ap, ap₂, Option, some, ◌++◌, arith,
  ◌==◌, if◌then◌else◌, ne→not-==,
}
use dpdk_code_modify.Base.Words.{add32, sub32}
use dpdk_code_modify.Ring.Types.{Behavior, SyncType, mt, st, Ring}
use dpdk_code_modify.Ring.Copy.Around.{around}
use dpdk_code_modify.Ring.Ops.{
  advance_cons, Moved, none_moved, moved, granted, move_cons_head, update_tail, get_word,
  dequeue_elems, Dequeued, finish_dequeue, do_dequeue_elem, ◌>>=◌,
}
use dpdk_code_modify.Ring.Window.{window, taken, window-append, taken-around_get, around_get_beyond}
use dpdk_code_modify.Ring.Inv.{
  IsValid, held, contents, size_bounds, index-lt, u32-mod-size, entries-eq-held,
}
use dpdk_code_modify.Ring.Enqueue.{granted-le, elems-around}

-- The ring after `k` elements have left.
abbrev pub drained : Ring → ℕ → Ring
drained r k = record r {
  cons = record (r.cons) { head = add32 (r.cons.head) k; tail = add32 (r.cons.head) k };
}

-- The object table after `k` elements have been copied to it.
abbrev pub fetched : Ring → (ℕ → ℕ) → ℕ → ℕ → ℕ
fetched r obj k = around (get_word r.slots) r.size k 0 (r.cons.head % r.size) obj

-- What `__rte_ring_move_cons_head` returns for a grant of `k`.
abbrev pub cons_moved : Ring → ℕ → Moved
cons_moved r k =
    if k == 0
    then none_moved (held r)
    else moved k (r.cons.head) (add32 (r.cons.head) k) (held r)
        (record r { cons = record (r.cons) { head = add32 (r.cons.head) k } })

-- What a dequeue that is granted `k` elements owes: their number, those that remain, the oldest
-- `k` elements in the table in order with its other cells unchanged, and the other elements left in
-- the ring, which is valid again.
pub record DequeuedWell (order : ℕ) (r : Ring) (obj : ℕ → ℕ) (k : ℕ) (o : Dequeued) : Type 0 where
  pub count : o.n ≡ k
  pub available : o.available ≡ held r - k
  pub left : held (o.ring) ≡ held r - k
  pub split : contents r ≡ taken (o.table) 0 k ++ contents (o.ring)
  pub spared : (j : ℕ) → k ≤ j → o.table j ≡ obj j
  pub valid : IsValid order (o.ring)
  pub prod_kept : o.ring.prod ≡ r.prod
  pub slots_kept : o.ring.slots ≡ r.slots
  pub size_kept : (o.ring.size ≡ r.size) × (o.ring.capacity ≡ r.capacity)

module _ {order : ℕ} {r : Ring} (v : IsValid order r) where
  advance_cons_lem :
      (is_sc : SyncType) (k : ℕ) (again : Option Moved)
      → advance_cons r is_sc k (held r) again ≡ some (cons_moved r k)
  unfolding advance_cons
  advance_cons_lem st k again = ground arith
  advance_cons_lem mt k again = ground arith

  pub move_cons_head_lem :
      (fuel : ℕ) (is_sc : SyncType) (n : ℕ) (b : Behavior)
      → move_cons_head (suc fuel) r is_sc n b ≡ some (cons_moved r (granted b n (held r)))
  unfolding move_cons_head
  move_cons_head_lem fuel is_sc n b =
      ap (λ (e : ℕ). advance_cons r is_sc (granted b n e) e (move_cons_head fuel r is_sc n b))
        (entries-eq-held v)
      ∙ advance_cons_lem is_sc (granted b n (held r)) (move_cons_head fuel r is_sc n b)

  finish_dequeue_lem :
      (obj : ℕ → ℕ) (is_sc : SyncType) (k : ℕ)
      → k ≤ held r
      → k ≢ 0
      → finish_dequeue r obj 8 is_sc (cons_moved r k)
        ≡ some
            (record { n = k; available = held r - k; table = fetched r obj k; ring = drained r k })
  unfolding finish_dequeue dequeue_elems update_tail
  finish_dequeue_lem obj st k few ne =
      rw (ne→not-== k 0 ne)
        (ground (arith, size_bounds v, elems-around v (get_word r.slots) (r.cons.head) k obj))
  finish_dequeue_lem obj mt k few ne =
      rw (ne→not-== k 0 ne)
        (ground (arith, size_bounds v, elems-around v (get_word r.slots) (r.cons.head) k obj))

  drained-index : (k : ℕ) → (drained r k).cons.tail % r.size ≡ (r.cons.tail % r.size + k) % r.size
  drained-index k =
      u32-mod-size v (r.cons.head + k)
      ∙ ap (λ (t : ℕ). (t + k) % r.size) (sym v.cons_quiet)
      ∙ sym (mod-add-mod (r.cons.tail) r.size k)

  drained-contents :
      (obj : ℕ → ℕ) (k : ℕ)
      → k ≤ held r
      → contents r ≡ taken (fetched r obj k) 0 k ++ contents (drained r k)
  drained-contents obj k few =
      let at = r.cons.tail % r.size in
      let parts : held r ≡ k + held (drained r k) = omega (arith, size_bounds v) in
      let got : taken (fetched r obj k) 0 k ≡ window r.size r.slots at k =
        taken-around_get r.size r.slots k 0 (r.cons.head % r.size) obj
        ∙ ap (λ (t : ℕ). window r.size r.slots (t % r.size) k) (sym v.cons_quiet) in
      ap (λ (t : ℕ). window r.size r.slots at t) parts
      ∙ window-append r.size r.slots at k (held (drained r k)) (index-lt v (r.cons.tail))
      ∙ ap₂ ◌++◌ (sym got)
          (ap (λ (t : ℕ). window r.size r.slots t (held (drained r k))) (sym (drained-index k)))

  drained-DequeuedWell :
      (obj : ℕ → ℕ) (k : ℕ)
      → k ≤ held r
      → DequeuedWell order r obj k
          (record { n = k; available = held r - k; table = fetched r obj k; ring = drained r k })
  drained-DequeuedWell obj k few = record {
    count = refl;
    available = refl;
    left = omega (arith, size_bounds v);
    split = drained-contents obj k few;
    spared = λ j l. around_get_beyond r.size r.slots k 0 (r.cons.head % r.size) obj j (omega arith);
    valid = omega (arith, size_bounds v);
    prod_kept = refl;
    slots_kept = refl;
    size_kept = (refl, refl);
  }

  unmoved-DequeuedWell :
      (obj : ℕ → ℕ)
      → DequeuedWell order r obj 0
          (record { n = 0; available = sub32 (held r) 0; table = obj; ring = r })
  unmoved-DequeuedWell obj = record {
    count = refl;
    available = omega arith;
    left = omega arith;
    split = refl;
    spared = λ j l. refl;
    valid = v;
    prod_kept = refl;
    slots_kept = refl;
    size_kept = (refl, refl);
  }

  drained_well :
      (obj : ℕ → ℕ) (is_sc : SyncType) (k : ℕ)
      → k ≤ held r
      → (o : Dequeued) × (finish_dequeue r obj 8 is_sc (cons_moved r k) ≡ some o)
        × DequeuedWell order r obj k o
  unfolding finish_dequeue
  drained_well obj is_sc zero few = (
    record { n = 0; available = sub32 (held r) 0; table = obj; ring = r },
    refl,
    unmoved-DequeuedWell obj,
  )
  drained_well obj is_sc (suc k) few = (
    record {
      n = suc k;
      available = held r - suc k;
      table = fetched r obj (suc k);
      ring = drained r (suc k);
    },
    finish_dequeue_lem obj is_sc (suc k) few (omega arith),
    drained-DequeuedWell obj (suc k) few,
  )

  -- On a valid ring `__rte_ring_do_dequeue_elem` of 8-byte elements returns, for every request,
  -- either behaviour and either kind of consumer; it has taken exactly the elements that it
  -- granted from the front, in order, leaves the rest of the object table alone, reports the
  -- counts, and leaves a valid ring.
  pub do_dequeue_elem_lem :
      (obj : ℕ → ℕ) (n : ℕ) (b : Behavior) (is_sc : SyncType)
      → (o : Dequeued) × (do_dequeue_elem r obj 8 n b is_sc ≡ some o)
        × DequeuedWell order r obj (granted b n (held r)) o
  unfolding do_dequeue_elem
  do_dequeue_elem_lem obj n b is_sc =
      let k = granted b n (held r) in
      let (o, e, well) = drained_well obj is_sc k ((granted-le b n (held r)).1) in
      (
        o,
        ap (λ (m : Option Moved). m >>= finish_dequeue r obj 8 is_sc)
              (move_cons_head_lem 1 is_sc n b)
            ∙ e,
        well,
      )
