-- ===== src/Ring/Threads.antt =====
-- Any number of producers and consumers on one ring: the enqueue and dequeue paths of ring/ring.c, a
-- shared access at a time, for rings in the mode RTE_RING_SYNC_MT and elements of 8 bytes.
pub mod Inv
pub mod Quiet
pub mod ProdHead
pub mod ConsHead
pub mod Copy
pub mod Publish
pub mod Moves
pub mod Safety
pub mod Fifo
pub mod Progress
mod Runs
use dpdk_code_modify.Base.{
  ℕ, ◌+◌, ◌-◌, ◌%◌, ◌^◌, ◌≤◌, ◌<◌, ◌≡◌, ◌≢◌, Bool, true, false, bit_and, if◌then◌else◌, store,
}
use dpdk_code_modify.Base.Words.{add32, sub32}
use dpdk_code_modify.Base.Loops.{within}
use dpdk_code_modify.Ring.Types.{Behavior, HeadTail, Ring}
use dpdk_code_modify.Ring.Ops.{granted}
use dpdk_code_modify.Ring.Inv.{held}

-- Where a thread stands, with the local variables that are live there. Beside them stand counts that
-- never wrap, for the proofs alone: `seen` is how many elements the head had counted when it was read,
-- `tail` the same of the other side's tail.
pub data Pc : Type 0 where
  -- between calls
  idle : Pc
  -- head of the `do` loop of `__rte_ring_move_prod_head`
  p_loop : (max : ℕ) → Behavior → (obj : ℕ → ℕ) → Pc
  -- `*old_head` is read
  p_head : (max : ℕ) → Behavior → (obj : ℕ → ℕ) → (old seen : ℕ) → Pc
  -- `n` is computed, and not 0
  p_ready : (max : ℕ) → Behavior → (obj : ℕ → ℕ) → (old seen n tail : ℕ) → Pc
  -- the head is moved, and `i` of the `n` elements are copied
  p_copy : (obj : ℕ → ℕ) → (old seen n i : ℕ) → Pc
  -- the same for `__rte_ring_move_cons_head` and after
  c_loop : (max : ℕ) → Behavior → Pc
  c_head : (max : ℕ) → Behavior → (old seen : ℕ) → Pc
  c_ready : (max : ℕ) → Behavior → (old seen n tail : ℕ) → Pc
  c_copy : (old seen n i : ℕ) → (got : ℕ → ℕ) → Pc

-- What the run has counted so far, in numbers that never wrap: heads and tails, and the elements in the
-- order in which the producers moved the head.
pub record History : Type 0 where
  pub prod_head : ℕ
  pub prod_tail : ℕ
  pub cons_head : ℕ
  pub cons_tail : ℕ
  pub log : ℕ → ℕ

-- The slot of the `i`-th element of a copy that starts at a head.
abbrev pub slot : Ring → ℕ → ℕ → ℕ
slot r old i = (bit_and old r.mask + i) % r.size

-- `n` elements of a table join the log.
abbrev pub logged : (ℕ → ℕ) → ℕ → ℕ → (ℕ → ℕ) → ℕ → ℕ
logged obj seen n log x = if within seen n x then obj (x - seen) else log x

-- One step of one thread. A compare-and-set succeeds only when the head is where it was read; that the
-- head has not gone once around all 2 ^ 32 counts in between is assumed of the schedule (`near`).
pub data Move (r : Ring) (g : History) : Pc → Ring → History → Pc → Type 0 where
  call_enqueue : {max : ℕ} {b : Behavior} {obj : ℕ → ℕ} → Move r g idle r g (p_loop max b obj)
  read_prod_head :
      {max : ℕ} {b : Behavior} {obj : ℕ → ℕ}
      → Move r g (p_loop max b obj) r g (p_head max b obj r.prod.head g.prod_head)
  no_room :
      {max : ℕ} {b : Behavior} {obj : ℕ → ℕ} {old seen : ℕ}
      → granted b max (sub32 (add32 r.capacity r.cons.tail) old) ≡ 0
      → Move r g (p_head max b obj old seen) r g idle
  read_cons_tail :
      {max : ℕ} {b : Behavior} {obj : ℕ → ℕ} {old seen n : ℕ}
      → n ≡ granted b max (sub32 (add32 r.capacity r.cons.tail) old)
      → n ≢ 0
      → Move r g (p_head max b obj old seen) r g (p_ready max b obj old seen n g.cons_tail)
  prod_win :
      {max : ℕ} {b : Behavior} {obj : ℕ → ℕ} {old seen n tail : ℕ}
      → r.prod.head ≡ old
      → (near : g.prod_head < seen + 2 ^ 32)
      → Move r g
          (p_ready max b obj old seen n tail)
          (record r { prod = record (r.prod) { head = add32 old n } })
          (record g { prod_head = g.prod_head + n; log = logged obj g.prod_head n g.log })
          (p_copy obj old seen n 0)
  prod_lose :
      {max : ℕ} {b : Behavior} {obj : ℕ → ℕ} {old seen n tail : ℕ}
      → r.prod.head ≢ old
      → Move r g (p_ready max b obj old seen n tail) r g (p_loop max b obj)
  prod_copy :
      {obj : ℕ → ℕ} {old seen n i : ℕ}
      → i < n
      → Move r g
          (p_copy obj old seen n i)
          (record r { slots = store r.slots (slot r old i) (obj i) })
          g
          (p_copy obj old seen n (i + 1))
  prod_spin :
      {obj : ℕ → ℕ} {old seen n : ℕ}
      → r.prod.tail ≢ old
      → Move r g (p_copy obj old seen n n) r g (p_copy obj old seen n n)
  prod_publish :
      {obj : ℕ → ℕ} {old seen n : ℕ}
      → r.prod.tail ≡ old
      → Move r g
          (p_copy obj old seen n n)
          (record r { prod = record (r.prod) { tail = add32 old n } })
          (record g { prod_tail = g.prod_tail + n })
          idle
  call_dequeue : {max : ℕ} {b : Behavior} → Move r g idle r g (c_loop max b)
  read_cons_head :
      {max : ℕ} {b : Behavior} → Move r g (c_loop max b) r g (c_head max b r.cons.head g.cons_head)
  no_entry :
      {max : ℕ} {b : Behavior} {old seen : ℕ}
      → granted b max (sub32 r.prod.tail old) ≡ 0
      → Move r g (c_head max b old seen) r g idle
  read_prod_tail :
      {max : ℕ} {b : Behavior} {old seen n : ℕ}
      → n ≡ granted b max (sub32 r.prod.tail old)
      → n ≢ 0
      → Move r g (c_head max b old seen) r g (c_ready max b old seen n g.prod_tail)
  cons_win :
      {max : ℕ} {b : Behavior} {old seen n tail : ℕ} {table : ℕ → ℕ}
      → r.cons.head ≡ old
      → (near : g.cons_head < seen + 2 ^ 32)
      → Move r g
          (c_ready max b old seen n tail)
          (record r { cons = record (r.cons) { head = add32 old n } })
          (record g { cons_head = g.cons_head + n })
          (c_copy old seen n 0 table)
  cons_lose :
      {max : ℕ} {b : Behavior} {old seen n tail : ℕ}
      → r.cons.head ≢ old
      → Move r g (c_ready max b old seen n tail) r g (c_loop max b)
  cons_copy :
      {old seen n i : ℕ} {got : ℕ → ℕ}
      → i < n
      → Move r g
          (c_copy old seen n i got)
          r
          g
          (c_copy old seen n (i + 1) (store got i (r.slots (slot r old i))))
  cons_spin :
      {old seen n : ℕ} {got : ℕ → ℕ}
      → r.cons.tail ≢ old
      → Move r g (c_copy old seen n n got) r g (c_copy old seen n n got)
  cons_publish :
      {old seen n : ℕ} {got : ℕ → ℕ}
      → r.cons.tail ≡ old
      → Move r g
          (c_copy old seen n n got)
          (record r { cons = record (r.cons) { tail = add32 old n } })
          (record g { cons_tail = g.cons_tail + n })
          idle

-- A ring, and the threads that are at work on it.
pub record System : Type 0 where
  pub ring : Ring
  pub hist : History
  pub pc : ℕ → Pc

-- No thread is in a call. The counts begin at the consumers' tail.
abbrev pub initial : Ring → System
initial r = record {
  ring = r;
  hist = record {
    prod_head = r.cons.tail + held r;
    prod_tail = r.cons.tail + held r;
    cons_head = r.cons.tail;
    cons_tail = r.cons.tail;
    log = λ x. r.slots (x % r.size);
  };
  pc = λ _. idle;
}

pub data Step (s : System) : System → Type 0 where
  step :
      (i : ℕ) {r : Ring} {g : History} {p : Pc}
      → Move s.ring s.hist (s.pc i) r g p
      → Step s (record { ring = r; hist = g; pc = store s.pc i p })

pub data Reach (s : System) : System → Type 0 where
  start : Reach s s
  later : {t u : System} → Reach s t → Step t u → Reach s u
