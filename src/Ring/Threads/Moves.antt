-- ===== src/Ring/Threads/Moves.antt =====
-- Every step of a thread keeps `Inv`.
use dpdk_code_modify.Base.{ℕ, ◌+◌, ◌≤◌, ◌<◌, ◌≡◌, ◌≢◌, refl, arith, store}
use dpdk_code_modify.Base.Words.{u32, add32, sub32}
use dpdk_code_modify.Ring.Types.{Behavior, Ring}
use dpdk_code_modify.Ring.Ops.{granted}
use dpdk_code_modify.Ring.Enqueue.{granted-le}
use dpdk_code_modify.Ring.Shape.{shape_bounds}
use dpdk_code_modify.Ring.Inv.{IsValid}
use dpdk_code_modify.Ring.Threads.{
  Pc, idle, History, Move, call_enqueue, read_prod_head, no_room, read_cons_tail, prod_win,
  prod_lose, prod_copy, prod_spin, prod_publish, call_dequeue, read_cons_head, no_entry,
  read_prod_tail, cons_win, cons_lose, cons_copy, cons_spin, cons_publish, slot, System, Step, step,
  Reach, start, later, initial,
}
use dpdk_code_modify.Ring.Threads.Inv.{MayMake, MayTake, Taking, IsFresh, Inv}
use dpdk_code_modify.Ring.Threads.Quiet.{quiet}
use dpdk_code_modify.Ring.Threads.ProdHead.{make}
use dpdk_code_modify.Ring.Threads.ConsHead.{take}
use dpdk_code_modify.Ring.Threads.Copy.{slot-mod, write}
use dpdk_code_modify.Ring.Threads.Publish.{publish_made, publish_taken}

module _ {order : ℕ} {r : Ring} {g : History} {pc : ℕ → Pc} (inv : Inv order r g pc) (i : ℕ) where
  open inv use {shape, counts, filled}

  may_make :
      (b : Behavior) (max : ℕ) {old seen n : ℕ}
      → old ≡ u32 seen
      → seen ≤ g.prod_head
      → n ≡ granted b max (sub32 (add32 r.capacity r.cons.tail) old)
      → n ≢ 0
      → MayMake r g old seen n g.cons_tail
  may_make b max {old} {seen} {n} w l e ne = record {
    word = w;
    seen_le = l;
    tail_le = omega arith;
    some_n = ne;
    free = λ le. omega (
      arith,
      e,
      (granted-le b max (sub32 (add32 r.capacity r.cons.tail) old)).1,
      counts.cons_tail_word,
      counts.fits,
      shape.spare,
      shape_bounds shape,
    );
  }

  may_take :
      (b : Behavior) (max : ℕ) {old seen n : ℕ}
      → old ≡ u32 seen
      → seen ≤ g.cons_head
      → n ≡ granted b max (sub32 r.prod.tail old)
      → n ≢ 0
      → MayTake g old seen n
  may_take b max {old} {seen} {n} w l e ne = record {
    word = w;
    seen_le = l;
    some_n = ne;
    ready = omega (
      arith,
      e,
      (granted-le b max (sub32 r.prod.tail old)).1,
      counts.prod_tail_word,
      counts.visible,
    );
  }

  read_one :
      {old seen n k : ℕ} {got : ℕ → ℕ}
      → Taking g old seen n k got
      → k < n
      → Taking g old seen n (k + 1) (store got k (r.slots (slot r old k)))
  read_one {old} {seen} {n} {k} own lt = record {
    word = own.word;
    some_n = own.some_n;
    i_le = omega arith;
    from = own.from;
    upto = own.upto;
    read = λ j l. ground (
      arith,
      own.read j,
      slot-mod shape old seen k own.word,
      filled (seen + k) (omega (arith, own.from)) (omega (arith, own.upto, counts.visible)),
    );
  }

  pub Move-Inv :
      {p p' : Pc} {r' : Ring} {g' : History}
      → pc i ≡ p
      → IsFresh r g p
      → Move r g p r' g' p'
      → Inv order r' g' (store pc i p')
  Move-Inv here f call_enqueue = quiet inv i _ here tt (λ x. refl) (λ x. refl)
  Move-Inv here f read_prod_head =
      quiet inv i _ here (counts.prod_head_word, omega arith) (λ x. refl) (λ x. refl)
  Move-Inv here f (no_room _) = quiet inv i _ here tt (λ x. refl) (λ x. refl)
  Move-Inv here f (read_cons_tail {max} {b} e ne) =
      quiet inv i _ here (may_make b max (f.0) (f.1) e ne) (λ x. refl) (λ x. refl)
  Move-Inv here f (prod_win {obj} {old} {seen} {n} e near) =
      make inv i obj old seen n f e near here (λ x. refl) (λ x. refl)
  Move-Inv here f (prod_lose _) = quiet inv i _ here tt (λ x. refl) (λ x. refl)
  Move-Inv here f (prod_copy {obj} {old} {seen} {n} {i = k} lt) =
      write inv i obj old seen n k f lt here
  Move-Inv here f (prod_spin _) = quiet inv i _ here f (λ x. refl) (λ x. refl)
  Move-Inv here f (prod_publish {obj} {old} {seen} {n} e) =
      publish_made inv i obj old seen n f here e
  Move-Inv here f call_dequeue = quiet inv i _ here tt (λ x. refl) (λ x. refl)
  Move-Inv here f read_cons_head =
      quiet inv i _ here (counts.cons_head_word, omega arith) (λ x. refl) (λ x. refl)
  Move-Inv here f (no_entry _) = quiet inv i _ here tt (λ x. refl) (λ x. refl)
  Move-Inv here f (read_prod_tail {max} {b} e ne) =
      quiet inv i _ here (may_take b max (f.0) (f.1) e ne) (λ x. refl) (λ x. refl)
  Move-Inv here f (cons_win {old} {seen} {n} {table} e near) =
      take inv i old seen n f e near table here (λ x. refl) (λ x. refl)
  Move-Inv here f (cons_lose _) = quiet inv i _ here tt (λ x. refl) (λ x. refl)
  Move-Inv here f (cons_copy lt) = quiet inv i _ here (read_one f lt) (λ x. refl) (λ x. refl)
  Move-Inv here f (cons_spin _) = quiet inv i _ here f (λ x. refl) (λ x. refl)
  Move-Inv here f (cons_publish {old} {seen} {n} {got} e) =
      publish_taken inv i old seen n got f here e

Step-Inv :
    {order : ℕ} {s t : System}
    → Inv order s.ring s.hist s.pc
    → Step s t
    → Inv order t.ring t.hist t.pc
Step-Inv {s} inv (step i mv) = Move-Inv inv i refl (inv.fresh i) mv

initial-Inv : {order : ℕ} (r : Ring) → IsValid order r → Inv order r (initial r).hist (λ _. idle)
initial-Inv r v = record {
  shape = record {
    order_le = v.order_le;
    size_pow = v.size_pow;
    mask_low = v.mask_low;
    spare = v.spare;
  };
  counts = record {
    prod_head_word = omega (arith, v.prod_word, v.prod_quiet);
    prod_tail_word = omega (arith, v.prod_word, v.prod_quiet);
    cons_head_word = omega (arith, v.cons_word, v.cons_quiet);
    cons_tail_word = omega (arith, v.cons_word, v.cons_quiet);
    taking = omega arith;
    visible = omega arith;
    making = omega arith;
    fits = omega (arith, v.held_le);
  };
  filled = λ x l u. refl;
  fresh = λ j. tt;
  one_maker = λ a b x qa qb. ground arith;
  one_taker = λ a b x qa qb. ground arith;
  made = λ x l u. absurd (omega arith);
  taken = λ x l u. absurd (omega arith);
}

-- From a valid ring on which no thread is in a call, after any steps of any number of producers
-- and consumers in the multi-thread mode, in any order, `Inv` holds: the heads and tails are the
-- words of counts with consumers' tail <= consumers' head <= producers' tail <= producers' head <=
-- consumers' tail + capacity; every slot between the consumers' and the producers' tail holds the
-- element that was put there; and each element between a tail and its head is in the hands of
-- exactly one thread.
pub Reach-Inv :
    {order : ℕ} {r : Ring} {s : System}
    → IsValid order r
    → Reach (initial r) s
    → Inv order s.ring s.hist s.pc
Reach-Inv {r} v start = initial-Inv r v
Reach-Inv v (later run st) = Step-Inv (Reach-Inv v run) st
