-- ===== src/Ring/Threads/Inv.antt =====
-- What holds of a ring on which threads are at work: the words follow counts that never wrap, and each
-- element between a tail and its head belongs to one thread.
use dpdk_code_modify.Base.{ℕ, ◌+◌, ◌%◌, ◌≤◌, ◌<◌, ◌≡◌, ◌≢◌, Bool, true, false}
use dpdk_code_modify.Base.Words.{u32}
use dpdk_code_modify.Base.Loops.{within}
use dpdk_code_modify.Ring.Types.{Ring}
use dpdk_code_modify.Ring.Shape.{Shape}
use dpdk_code_modify.Ring.Threads.{Pc, p_head, p_ready, p_copy, c_head, c_ready, c_copy, History}

-- The thread has moved the producers' head over element `x`, and not yet the tail.
abbrev pub makes : Pc → ℕ → Bool
makes (p_copy _ _ seen n _) x = within seen n x
makes _ x = false

-- The same for the consumers' head and tail.
abbrev pub takes : Pc → ℕ → Bool
takes (c_copy _ seen n _ _) x = within seen n x
takes _ x = false

pub record Counts (r : Ring) (g : History) : Type 0 where
  pub prod_head_word : r.prod.head ≡ u32 g.prod_head
  pub prod_tail_word : r.prod.tail ≡ u32 g.prod_tail
  pub cons_head_word : r.cons.head ≡ u32 g.cons_head
  pub cons_tail_word : r.cons.tail ≡ u32 g.cons_tail
  pub taking : g.cons_tail ≤ g.cons_head
  pub visible : g.cons_head ≤ g.prod_tail
  pub making : g.prod_tail ≤ g.prod_head
  pub fits : g.prod_head ≤ g.cons_tail + r.capacity

-- A producer that is about to try to move the head.
pub record MayMake (r : Ring) (g : History) (old seen n tail : ℕ) : Type 0 where
  pub word : old ≡ u32 seen
  pub seen_le : seen ≤ g.prod_head
  pub tail_le : tail ≤ g.cons_tail
  pub some_n : n ≢ 0
  pub free : tail ≤ seen → seen + n ≤ tail + r.capacity

pub record Making (r : Ring) (g : History) (obj : ℕ → ℕ) (old seen n i : ℕ) : Type 0 where
  pub word : old ≡ u32 seen
  pub some_n : n ≢ 0
  pub i_le : i ≤ n
  pub from : g.prod_tail ≤ seen
  pub upto : seen + n ≤ g.prod_head
  pub sent : (j : ℕ) → j < n → obj j ≡ g.log (seen + j)
  pub stored : (j : ℕ) → j < i → r.slots ((seen + j) % r.size) ≡ obj j

pub record MayTake (g : History) (old seen n : ℕ) : Type 0 where
  pub word : old ≡ u32 seen
  pub seen_le : seen ≤ g.cons_head
  pub some_n : n ≢ 0
  pub ready : seen + n ≤ g.prod_tail

pub record Taking (g : History) (old seen n i : ℕ) (got : ℕ → ℕ) : Type 0 where
  pub word : old ≡ u32 seen
  pub some_n : n ≢ 0
  pub i_le : i ≤ n
  pub from : g.cons_tail ≤ seen
  pub upto : seen + n ≤ g.cons_head
  pub read : (j : ℕ) → j < i → got j ≡ g.log (seen + j)

-- What the locals of a thread say about the shared state.
abbrev pub IsFresh : Ring → History → Pc → Type 0
IsFresh r g (p_head _ _ _ old seen) = (old ≡ u32 seen) × (seen ≤ g.prod_head)
IsFresh r g (p_ready _ _ _ old seen n tail) = MayMake r g old seen n tail
IsFresh r g (p_copy obj old seen n i) = Making r g obj old seen n i
IsFresh r g (c_head _ _ old seen) = (old ≡ u32 seen) × (seen ≤ g.cons_head)
IsFresh r g (c_ready _ _ old seen n tail) = MayTake g old seen n
IsFresh r g (c_copy old seen n i got) = Taking g old seen n i got
IsFresh r g _ = Unit

pub record Inv (order : ℕ) (r : Ring) (g : History) (pc : ℕ → Pc) : Type 0 where
  pub shape : Shape order r
  pub counts : Counts r g
  pub filled : (x : ℕ) → g.cons_tail ≤ x → x < g.prod_tail → r.slots (x % r.size) ≡ g.log x
  pub fresh : (i : ℕ) → IsFresh r g (pc i)
  pub one_maker : (i j x : ℕ) → makes (pc i) x ≡ true → makes (pc j) x ≡ true → i ≡ j
  pub one_taker : (i j x : ℕ) → takes (pc i) x ≡ true → takes (pc j) x ≡ true → i ≡ j
  pub made : (x : ℕ) → g.prod_tail ≤ x → x < g.prod_head → (i : ℕ) × (makes (pc i) x ≡ true)
  pub taken : (x : ℕ) → g.cons_tail ≤ x → x < g.cons_head → (i : ℕ) × (takes (pc i) x ≡ true)
