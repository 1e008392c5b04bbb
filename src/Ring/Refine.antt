-- ===== src/Ring/Refine.antt =====
-- `rte_ring_enqueue` and `rte_ring_dequeue` of ring/ring.c against the queue of `Ring.Queue`.
use mathlib.Core.List.{append-nil}
use dpdk_code_modify.Base.{
  ℕ, zero, suc, ◌+◌, ◌-◌, ◌%◌, dec_lt, ◌≤◌, ◌≡◌, refl, ◌∙◌, ap, Option, some, List, [], ◌∷◌, ◌++◌,
  arith, length,
}
use dpdk_code_modify.Base.Errno.{Status, enobufs, enoent}
use dpdk_code_modify.Ring.Types.{fixed, SyncType, mt, st, Ring}
use dpdk_code_modify.Ring.Ops.{
  ◌>>=◌, granted, Enqueued, Dequeued, do_enqueue_elem, do_dequeue_elem, enqueue_bulk_elem,
  dequeue_bulk_elem, status_of, enqueue, dequeue,
}
use dpdk_code_modify.Ring.Window.{window, taken}
use dpdk_code_modify.Ring.Inv.{IsValid, held, room, contents}
use dpdk_code_modify.Ring.Enqueue.{EnqueuedWell, do_enqueue_elem_lem}
use dpdk_code_modify.Ring.Dequeue.{DequeuedWell, do_dequeue_elem_lem}
use dpdk_code_modify.Ring.Queue
use dpdk_code_modify.Ring.Queue.{Call, put, get, Reply, push, pop}

length-window : (size : ℕ) (m : ℕ → ℕ) (idx k : ℕ) → length (window size m idx k) ≡ k
length-window size m idx zero = refl
length-window size m idx (suc k) = ap suc (length-window size m ((idx + 1) % size) k)

pub length-contents : (r : Ring) → length (contents r) ≡ held r
length-contents r = length-window r.size r.slots (r.cons.tail % r.size) (held r)

-- A client's calls in order; the run stops with `none` at a call that does not return.
unfoldable pub serve : ℕ → Ring → List Call → Option (List Reply)
serve old r [] = some []
serve old r (put x ∷ cs) = do
  (s, r') ← enqueue r x
  replies ← serve old r' cs
  some ((s, 0) ∷ replies)
serve old r (get ∷ cs) = do
  (s, x, r') ← dequeue r old
  replies ← serve old r' cs
  some ((s, x) ∷ replies)

-- One word granted or none: the answers of the queue.
push_answer :
    (cap h n x : ℕ) (q q' : List ℕ)
    → length q ≡ h
    → n ≡ granted fixed 1 (cap - h)
    → q' ≡ q ++ taken (λ _. x) 0 (granted fixed 1 (cap - h))
    → (status_of n enobufs, q') ≡ push cap q x
push_answer cap h n x q q' size count appended = elim (dec_lt h cap) [
  | yes p ↦
      let g : granted fixed 1 (cap - h) ≡ 1 = ground arith in
      let e : q' ≡ q ++ x ∷ [] = appended ∙ ap (λ (t : ℕ). q ++ taken (λ _. x) 0 t) g in
      ground (arith, g)
  | no p ↦
      let g : granted fixed 1 (cap - h) ≡ 0 = ground arith in
      let e : q' ≡ q = appended ∙ ap (λ (t : ℕ). q ++ taken (λ _. x) 0 t) g ∙ append-nil q in
      ground (arith, g)
]

pop_answer :
    (old h n : ℕ) (t : ℕ → ℕ) (q q' : List ℕ)
    → length q ≡ h
    → n ≡ granted fixed 1 h
    → q ≡ taken t 0 (granted fixed 1 h) ++ q'
    → ((j : ℕ) → granted fixed 1 h ≤ j → t j ≡ old)
    → (status_of n enoent, t 0, q') ≡ pop old q
pop_answer old h n t [] q' size count split spared = ground (arith, spared 0)
pop_answer old h n t (x ∷ q) q' size count split spared =
    let g : granted fixed 1 h ≡ 1 = ground arith in
    let e : x ∷ q ≡ t 0 ∷ q' = split ∙ ap (λ (k : ℕ). taken t 0 k ++ q') g in ground (arith, g)

module _ {order : ℕ} {r : Ring} (v : IsValid order r) where
  enqueue_bulk_lem :
      (obj : ℕ → ℕ) (n : ℕ)
      → (o : Enqueued) × (enqueue_bulk_elem r obj 8 n ≡ some o)
        × EnqueuedWell order r obj (granted fixed n (room r)) o
  unfolding enqueue_bulk_elem
  enqueue_bulk_lem obj n = go (r.prod.sync_type)
    where
      go :
          (s : SyncType)
          → (o : Enqueued) × (elim s as (λ _. Option Enqueued) [
            | mt ↦ do_enqueue_elem r obj 8 n fixed mt
            | st ↦ do_enqueue_elem r obj 8 n fixed st
          ]
              ≡ some o)
            × EnqueuedWell order r obj (granted fixed n (room r)) o
      go mt = do_enqueue_elem_lem v obj n fixed mt
      go st = do_enqueue_elem_lem v obj n fixed st

  dequeue_bulk_lem :
      (obj : ℕ → ℕ) (n : ℕ)
      → (o : Dequeued) × (dequeue_bulk_elem r obj 8 n ≡ some o)
        × DequeuedWell order r obj (granted fixed n (held r)) o
  unfolding dequeue_bulk_elem
  dequeue_bulk_lem obj n = go (r.cons.sync_type)
    where
      go :
          (s : SyncType)
          → (o : Dequeued) × (elim s as (λ _. Option Dequeued) [
            | mt ↦ do_dequeue_elem r obj 8 n fixed mt
            | st ↦ do_dequeue_elem r obj 8 n fixed st
          ]
              ≡ some o)
            × DequeuedWell order r obj (granted fixed n (held r)) o
      go mt = do_dequeue_elem_lem v obj n fixed mt
      go st = do_dequeue_elem_lem v obj n fixed st

  -- On a valid ring `rte_ring_enqueue` returns, answers as the bounded queue of the ring's
  -- elements does, and leaves a valid ring of the same capacity that holds that queue.
  pub enqueue-push :
      (x : ℕ)
      → (s : Status) × (r' : Ring) × (enqueue r x ≡ some (s, r'))
        × ((s, contents r') ≡ push r.capacity (contents r) x)
        × IsValid order r'
        × (r'.capacity ≡ r.capacity)
  unfolding enqueue
  enqueue-push x =
      let (o, e, well) = enqueue_bulk_lem (λ _. x) 1 in
      (
        status_of o.n enobufs,
        o.ring,
        rw e,
        push_answer (r.capacity) (held r) o.n x (contents r) (contents o.ring) (length-contents r)
            well.count well.appended,
        well.valid,
        well.size_kept.1,
      )

  -- On a valid ring `rte_ring_dequeue` returns, answers as that queue does (`*obj_p` is left alone
  -- when it is empty), and leaves a valid ring of the same capacity that holds the rest.
  pub dequeue-pop :
      (old : ℕ)
      → (s : Status) × (x : ℕ) × (r' : Ring) × (dequeue r old ≡ some (s, x, r'))
        × ((s, x, contents r') ≡ pop old (contents r))
        × IsValid order r'
        × (r'.capacity ≡ r.capacity)
  unfolding dequeue
  dequeue-pop old =
      let (o, e, well) = dequeue_bulk_lem (λ _. old) 1 in
      (
        status_of o.n enoent,
        o.table 0,
        o.ring,
        rw e,
        pop_answer old (held r) o.n o.table (contents r) (contents o.ring) (length-contents r)
            well.count well.split well.spared,
        well.valid,
        well.size_kept.1,
      )

-- On a valid ring every sequence of `rte_ring_enqueue` and `rte_ring_dequeue` calls, made one
-- after the other, returns, and each call is answered as by a first-in first-out queue of at most
-- `capacity` pointers that holds the ring's elements at the start.
pub serve-run :
    {order : ℕ} (old : ℕ) (cs : List Call) {r : Ring}
    → IsValid order r
    → serve old r cs ≡ some (Queue.run r.capacity old (contents r) cs)
unfolding serve Queue.run
serve-run old [] v = refl
serve-run {order} old (put x ∷ cs) {r} v =
    let (s, r', e, answer, v', same) = enqueue-push v x in
    rw (e, serve-run old cs v', same)
      (ap (λ (a : Status × List ℕ). some ((a.0, 0) ∷ Queue.run r.capacity old a.1 cs)) answer)
serve-run {order} old (get ∷ cs) {r} v =
    let (s, x, r', e, answer, v', same) = dequeue-pop v old in
    rw (e, serve-run old cs v', same)
      (ap (λ (a : Status × ℕ × List ℕ). some ((a.0, a.1) ∷ Queue.run r.capacity old a.2 cs)) answer)
