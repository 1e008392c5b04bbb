-- ===== src/Ring/Enqueue.antt =====
-- The enqueue path of ring/ring.c on a ring with no other call under way.
use dpdk_code_modify.Base.{
  ℕ, zero, suc, ◌+◌, ◌-◌, ◌%◌, ◌≤◌, ◌≡◌, ◌≢◌, refl, sym, ◌∙◌, ap, Option, some, ◌++◌, arith,
  bit_and, ◌==◌, if◌then◌else◌, ne→not-==,
}
use mathlib.Core.List.{append-nil}
use dpdk_code_modify.Base.Words.{add32, sub32}
use dpdk_code_modify.Ring.Types.{Behavior, fixed, variable, SyncType, mt, st, Ring}
use dpdk_code_modify.Ring.Copy.{elems_64}
use dpdk_code_modify.Ring.Copy.Around.{around, elems_64-around}
use dpdk_code_modify.Ring.Ops.{
  advance_prod, Moved, none_moved, moved, granted, move_prod_head, update_tail, put_word,
  enqueue_elems, Enqueued, finish_enqueue, do_enqueue_elem, ◌>>=◌,
}
use dpdk_code_modify.Ring.Window.{taken, window-around_put}
use dpdk_code_modify.Ring.Inv.{
  IsValid, held, room, contents, size_bounds, mask-mod, index-lt, prod_index, free-eq-room,
}

pub granted-le : (b : Behavior) (n e : ℕ) → (granted b n e ≤ n) × (granted b n e ≤ e)
granted-le fixed n e = ground arith
granted-le variable n e = ground arith

-- The ring after `k` words of `obj` have gone in.
abbrev pub filled : Ring → (ℕ → ℕ) → ℕ → Ring
filled r obj k = record r {
  prod = record (r.prod) { head = add32 (r.prod.head) k; tail = add32 (r.prod.head) k };
  slots = around (put_word obj) r.size k 0 (r.prod.head % r.size) r.slots;
}

-- What `__rte_ring_move_prod_head` returns for a grant of `k`.
abbrev pub prod_moved : Ring → ℕ → Moved
prod_moved r k =
    if k == 0
    then none_moved (room r)
    else moved k (r.prod.head) (add32 (r.prod.head) k) (room r)
        (record r { prod = record (r.prod) { head = add32 (r.prod.head) k } })

module _ {order : ℕ} {r : Ring} (v : IsValid order r) where
  advance_prod_lem :
      (is_sp : SyncType) (k : ℕ) (again : Option Moved)
      → advance_prod r is_sp k (room r) again ≡ some (prod_moved r k)
  unfolding advance_prod
  advance_prod_lem st k again = ground arith
  advance_prod_lem mt k again = ground arith

  pub move_prod_head_lem :
      (fuel : ℕ) (is_sp : SyncType) (n : ℕ) (b : Behavior)
      → move_prod_head (suc fuel) r is_sp n b ≡ some (prod_moved r (granted b n (room r)))
  unfolding move_prod_head
  move_prod_head_lem fuel is_sp n b =
      ap (λ (e : ℕ). advance_prod r is_sp (granted b n e) e (move_prod_head fuel r is_sp n b))
        (free-eq-room v)
      ∙ advance_prod_lem is_sp (granted b n (room r)) (move_prod_head fuel r is_sp n b)

  pub elems-around :
      (assign : ℕ → ℕ → (ℕ → ℕ) → ℕ → ℕ) (h k : ℕ) (m : ℕ → ℕ)
      → k ≤ r.size
      → elems_64 assign r.size (bit_and h r.mask) k m ≡ around assign r.size k 0 (h % r.size) m
  elems-around assign h k m few =
      rw (mask-mod v h)
        (elems_64-around assign r.size (h % r.size) k m (index-lt v h) few (size_bounds v).1)

  finish_enqueue_lem :
      (obj : ℕ → ℕ) (is_sp : SyncType) (k : ℕ)
      → k ≤ room r
      → k ≢ 0
      → finish_enqueue r obj 8 is_sp (prod_moved r k)
        ≡ some (record { n = k; free_space = room r - k; ring = filled r obj k })
  unfolding finish_enqueue enqueue_elems update_tail
  finish_enqueue_lem obj st k few ne =
      rw (ne→not-== k 0 ne)
        (ground (arith, size_bounds v, elems-around (put_word obj) (r.prod.head) k r.slots))
  finish_enqueue_lem obj mt k few ne =
      rw (ne→not-== k 0 ne)
        (ground (arith, size_bounds v, elems-around (put_word obj) (r.prod.head) k r.slots))

  filled-contents :
      (obj : ℕ → ℕ) (k : ℕ) → k ≤ room r → contents (filled r obj k) ≡ contents r ++ taken obj 0 k
  filled-contents obj k few =
      let more : held (filled r obj k) ≡ held r + k = omega (arith, size_bounds v) in
      rw (more, prod_index v)
        (window-around_put r.size obj k 0 r.slots (r.cons.tail % r.size) (held r)
          (index-lt v (r.cons.tail)) (omega arith))

  filled-IsValid : (obj : ℕ → ℕ) (k : ℕ) → k ≤ room r → IsValid order (filled r obj k)
  filled-IsValid obj k few = omega (arith, size_bounds v)

-- What an enqueue that is granted `k` elements owes: their number, the space left, the elements
-- behind the old ones in order, a ring that is valid again, and the consumer's side untouched.
pub record EnqueuedWell (order : ℕ) (r : Ring) (obj : ℕ → ℕ) (k : ℕ) (o : Enqueued) : Type 0 where
  pub count : o.n ≡ k
  pub space : o.free_space ≡ room r - k
  pub left : room (o.ring) ≡ room r - k
  pub appended : contents (o.ring) ≡ contents r ++ taken obj 0 k
  pub valid : IsValid order (o.ring)
  pub cons_kept : o.ring.cons ≡ r.cons
  pub size_kept : (o.ring.size ≡ r.size) × (o.ring.capacity ≡ r.capacity)

module _ {order : ℕ} {r : Ring} (v : IsValid order r) where
  filled-EnqueuedWell :
      (obj : ℕ → ℕ) (k : ℕ)
      → k ≤ room r
      → EnqueuedWell order r obj k
          (record { n = k; free_space = room r - k; ring = filled r obj k })
  filled-EnqueuedWell obj k few = record {
    count = refl;
    space = refl;
    left = omega (arith, size_bounds v);
    appended = filled-contents v obj k few;
    valid = filled-IsValid v obj k few;
    cons_kept = refl;
    size_kept = (refl, refl);
  }

  unmoved-EnqueuedWell :
      (obj : ℕ → ℕ)
      → EnqueuedWell order r obj 0 (record { n = 0; free_space = sub32 (room r) 0; ring = r })
  unmoved-EnqueuedWell obj = record {
    count = refl;
    space = omega (arith, size_bounds v);
    left = omega arith;
    appended = sym (append-nil (contents r));
    valid = v;
    cons_kept = refl;
    size_kept = (refl, refl);
  }

  finished :
      (obj : ℕ → ℕ) (is_sp : SyncType) (k : ℕ)
      → k ≤ room r
      → (o : Enqueued) × (finish_enqueue r obj 8 is_sp (prod_moved r k) ≡ some o)
        × EnqueuedWell order r obj k o
  unfolding finish_enqueue
  finished obj is_sp zero few =
      (record { n = 0; free_space = sub32 (room r) 0; ring = r }, refl, unmoved-EnqueuedWell obj)
  finished obj is_sp (suc k) few = (
    record { n = suc k; free_space = room r - suc k; ring = filled r obj (suc k) },
    finish_enqueue_lem v obj is_sp (suc k) few (omega arith),
    filled-EnqueuedWell obj (suc k) few,
  )

  -- On a valid ring `__rte_ring_do_enqueue_elem` of 8-byte elements returns, for every request,
  -- either behaviour and either kind of producer; it has appended exactly the elements that it
  -- granted, reports their number and the space left, and leaves a valid ring.
  pub do_enqueue_elem_lem :
      (obj : ℕ → ℕ) (n : ℕ) (b : Behavior) (is_sp : SyncType)
      → (o : Enqueued) × (do_enqueue_elem r obj 8 n b is_sp ≡ some o)
        × EnqueuedWell order r obj (granted b n (room r)) o
  unfolding do_enqueue_elem
  do_enqueue_elem_lem obj n b is_sp =
      let k = granted b n (room r) in
      let (o, e, well) = finished obj is_sp k ((granted-le b n (room r)).1) in
      (
        o,
        ap (λ (m : Option Moved). m >>= finish_enqueue r obj 8 is_sp)
              (move_prod_head_lem v 1 is_sp n b)
            ∙ e,
        well,
      )
