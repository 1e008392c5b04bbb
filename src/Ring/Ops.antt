-- ===== src/Ring/Ops.antt =====
-- Moving the heads, copying, publishing the tails: the enqueue and dequeue paths of ring/ring.c.
-- A run is that of one thread: between two reads nobody else writes. `none` is a call that never
-- returns (a spin on a tail that no one will move, or compare-and-set rounds beyond the fuel).
use dpdk_code_modify.Base.{
  ℕ, zero, suc, ◌/◌, Bool, true, false, Option, none, some, bit_and, ltb, ◌==◌, if◌then◌else◌,
  store,
}
use dpdk_code_modify.Base.Errno.{Status, done, fail, Errno, enobufs, enoent}
use dpdk_code_modify.Base.Words.{add32, sub32, mul32}
use dpdk_code_modify.Ring.Types.{
  Behavior, fixed, variable, SyncType, mt, st, is_single, HeadTail, Ring,
}
use dpdk_code_modify.Ring.Copy.{elems_64, elems_32}

infixl 5 ◌>>=◌
abbrev pub ◌>>=◌ : {A B : Type 0} → Option A → (A → Option B) → Option B
none >>= f = none
some a >>= f = f a

-- `rte_atomic32_cmpset(&ht->head, exp, src)`
unfoldable pub cmpset_head : HeadTail → ℕ → ℕ → Bool × HeadTail
cmpset_head ht exp src = if ht.head == exp then (true, record ht { head = src }) else (false, ht)

-- What `__rte_ring_move_prod_head` and `__rte_ring_move_cons_head` hand back: with `n == 0` only
-- the count of entries, else also the heads and the ring with its head moved.
pub data Moved : Type 0 where
  none_moved : (entries : ℕ) → Moved
  moved : (n old_head new_head entries : ℕ) → Ring → Moved

-- The number of entries to move when `entries` are there.
abbrev pub granted : Behavior → ℕ → ℕ → ℕ
granted fixed n entries = if ltb entries n then 0 else n
granted variable n entries = if ltb entries n then entries else n

-- `if (is_sp) head = new, success = 1; else success = cmpset(&head, old, new);`
unfoldable pub set_head : SyncType → HeadTail → ℕ → ℕ → Bool × HeadTail
unfolding cmpset_head
set_head st ht old_head new_head = (true, record ht { head = new_head })
set_head mt ht old_head new_head = cmpset_head ht old_head new_head

-- One round of the producer's loop after `n` is known; `again` is the rest of the loop.
unfoldable pub advance_prod : Ring → SyncType → ℕ → ℕ → Option Moved → Option Moved
unfolding set_head
advance_prod r is_sp n free_entries again =
    let old_head = r.prod.head in
    let new_head = add32 old_head n in
    let (success, prod) = set_head is_sp (r.prod) old_head new_head in
    elim (n == 0) [
      | true ↦ some (none_moved free_entries)
      | false ↦ elim success [
        | true ↦ some (moved n old_head new_head free_entries (record r { prod = prod }))
        | false ↦ again
      ]
    ]

-- `__rte_ring_move_prod_head`
unfoldable pub move_prod_head : ℕ → Ring → SyncType → ℕ → Behavior → Option Moved
unfolding advance_prod
move_prod_head zero r is_sp max behavior = none
move_prod_head (suc fuel) r is_sp max behavior =
    let again = move_prod_head fuel r is_sp max behavior in
    let free_entries = sub32 (add32 (r.capacity) (r.cons.tail)) (r.prod.head) in
    advance_prod r is_sp (granted behavior max free_entries) free_entries again

-- The same for the consumer's loop.
unfoldable pub advance_cons : Ring → SyncType → ℕ → ℕ → Option Moved → Option Moved
unfolding set_head
advance_cons r is_sc n entries again =
    let old_head = r.cons.head in
    let new_head = add32 old_head n in
    let (success, cons) = set_head is_sc (r.cons) old_head new_head in
    elim (n == 0) [
      | true ↦ some (none_moved entries)
      | false ↦ elim success [
        | true ↦ some (moved n old_head new_head entries (record r { cons = cons }))
        | false ↦ again
      ]
    ]

-- `__rte_ring_move_cons_head`
unfoldable pub move_cons_head : ℕ → Ring → SyncType → ℕ → Behavior → Option Moved
unfolding advance_cons
move_cons_head zero r is_sc max behavior = none
move_cons_head (suc fuel) r is_sc max behavior =
    let again = move_cons_head fuel r is_sc max behavior in
    let entries = sub32 (r.prod.tail) (r.cons.head) in
    advance_cons r is_sc (granted behavior max entries) entries again

-- The spin on `ht->tail != old_val` ends at once or, alone, never.
unfoldable pub update_tail : HeadTail → ℕ → ℕ → SyncType → Option HeadTail
update_tail ht old_val new_val single =
    if is_single single
    then some (record ht { tail = new_val })
    else if ht.tail == old_val
    then some (record ht { tail = new_val })
    else none

-- `ring[idx] = obj[i]`, on the words of the ring.
abbrev pub put_word : (ℕ → ℕ) → ℕ → ℕ → (ℕ → ℕ) → ℕ → ℕ
put_word obj i idx ring = store ring idx (obj i)

-- `obj[i] = ring[idx]`, on the words of the table.
abbrev pub get_word : (ℕ → ℕ) → ℕ → ℕ → (ℕ → ℕ) → ℕ → ℕ
get_word ring i idx obj = store obj i (ring idx)

-- `__rte_ring_enqueue_elems` and `__rte_ring_dequeue_elems`: the choice of the copy routine.
unfoldable pub copy_elems : Ring → (ℕ → ℕ → (ℕ → ℕ) → ℕ → ℕ) → ℕ → ℕ → ℕ → (ℕ → ℕ) → ℕ → ℕ
copy_elems r assign head esize num m =
    let idx = bit_and head r.mask in
    let scale = esize / 4 in
    if esize == 8
    then elems_64 assign r.size idx num m
    else elems_32 assign (mul32 r.size scale) (mul32 idx scale) (mul32 num scale) m

unfoldable pub enqueue_elems : Ring → ℕ → (ℕ → ℕ) → ℕ → ℕ → Ring
unfolding copy_elems
enqueue_elems r prod_head obj_table esize num = record r {
  slots = copy_elems r (put_word obj_table) prod_head esize num r.slots;
}

unfoldable pub dequeue_elems : Ring → ℕ → (ℕ → ℕ) → ℕ → ℕ → ℕ → ℕ
unfolding copy_elems
dequeue_elems r cons_head obj_table esize num =
    copy_elems r (get_word r.slots) cons_head esize num obj_table

-- `n`, `*free_space` and the ring after an enqueue.
pub record Enqueued : Type 0 where
  pub n : ℕ
  pub free_space : ℕ
  pub ring : Ring

-- `n`, `*available`, the object table and the ring after a dequeue.
pub record Dequeued : Type 0 where
  pub n : ℕ
  pub available : ℕ
  pub table : ℕ → ℕ
  pub ring : Ring

-- Rounds of the compare-and-set loop. Alone, the first succeeds.
abbrev pub rounds : ℕ
rounds = 2

-- The rest of `__rte_ring_do_enqueue_elem` once the head is moved; `r` is the ring before that.
unfoldable pub finish_enqueue : Ring → (ℕ → ℕ) → ℕ → SyncType → Moved → Option Enqueued
finish_enqueue r obj_table esize is_sp (none_moved free_entries) =
    some (record { n = 0; free_space = sub32 free_entries 0; ring = r })
finish_enqueue r obj_table esize is_sp (moved n prod_head prod_next free_entries r') =
    let filled = enqueue_elems r' prod_head obj_table esize n in
    do
      prod ← update_tail (filled.prod) prod_head prod_next is_sp
      some (record {
        n = n;
        free_space = sub32 free_entries n;
        ring = record filled { prod = prod };
      })

-- `__rte_ring_do_enqueue_elem`
unfoldable pub do_enqueue_elem : Ring → (ℕ → ℕ) → ℕ → ℕ → Behavior → SyncType → Option Enqueued
unfolding finish_enqueue
do_enqueue_elem r obj_table esize n behavior is_sp =
    move_prod_head rounds r is_sp n behavior >>= finish_enqueue r obj_table esize is_sp

unfoldable pub finish_dequeue : Ring → (ℕ → ℕ) → ℕ → SyncType → Moved → Option Dequeued
finish_dequeue r obj_table esize is_sc (none_moved entries) =
    some (record { n = 0; available = sub32 entries 0; table = obj_table; ring = r })
finish_dequeue r obj_table esize is_sc (moved n cons_head cons_next entries r') =
    let table = dequeue_elems r' cons_head obj_table esize n in
    do
      cons ← update_tail (r'.cons) cons_head cons_next is_sc
      some (record {
        n = n;
        available = sub32 entries n;
        table = table;
        ring = record r' { cons = cons };
      })

-- `__rte_ring_do_dequeue_elem`
unfoldable pub do_dequeue_elem : Ring → (ℕ → ℕ) → ℕ → ℕ → Behavior → SyncType → Option Dequeued
unfolding finish_dequeue
do_dequeue_elem r obj_table esize n behavior is_sc =
    move_cons_head rounds r is_sc n behavior >>= finish_dequeue r obj_table esize is_sc

-- `rte_ring_enqueue_bulk_elem`, over `rte_ring_mp_enqueue_bulk_elem` and its `sp` twin.
unfoldable pub enqueue_bulk_elem : Ring → (ℕ → ℕ) → ℕ → ℕ → Option Enqueued
enqueue_bulk_elem r obj_table esize n = elim (r.prod.sync_type) [
  | mt ↦ do_enqueue_elem r obj_table esize n fixed mt
  | st ↦ do_enqueue_elem r obj_table esize n fixed st
]

-- `rte_ring_dequeue_bulk_elem`, over `rte_ring_mc_dequeue_bulk_elem` and its `sc` twin.
unfoldable pub dequeue_bulk_elem : Ring → (ℕ → ℕ) → ℕ → ℕ → Option Dequeued
dequeue_bulk_elem r obj_table esize n = elim (r.cons.sync_type) [
  | mt ↦ do_dequeue_elem r obj_table esize n fixed mt
  | st ↦ do_dequeue_elem r obj_table esize n fixed st
]

-- `x ? 0 : -errno`
abbrev pub status_of : ℕ → Errno → Status
status_of n e = if n == 0 then fail e else done

-- `rte_ring_enqueue` over `rte_ring_enqueue_elem`: the table is the one cell `&obj`.
unfoldable pub enqueue : Ring → ℕ → Option (Status × Ring)
enqueue r obj = do o ← enqueue_bulk_elem r (λ _. obj) 8 1; some (status_of (o.n) enobufs, o.ring)

-- `rte_ring_dequeue` over `rte_ring_dequeue_elem`: the table is the one cell `*obj_p`.
unfoldable pub dequeue : Ring → ℕ → Option (Status × ℕ × Ring)
dequeue r obj_p = do
  o ← dequeue_bulk_elem r (λ _. obj_p) 8 1
  some (status_of (o.n) enoent, o.table 0, o.ring)
