-- ===== src/Lib.antt =====
-- Verification of the C sources of dpdk_code_modify: a lock-free ring of pointers (ring/ring.c,
-- ring/ring.h), a longest-prefix-match table of IPv4 routes (lpm/lpm.c, lpm/lpm.h) and a heap that
-- manages one area of memory (memory_manage/). The three parts do not call each other.
--
-- Base: what they share. Base.Tests has the Boolean comparisons and the conditional, and memory as a
-- function of the index (`store`). Base.Words has uint32_t as numbers below 2 ^ 32 that wrap
-- (`add32`, `sub32`, `mul32`), Base.Bits the masks and shifts, Base.Loops the counting `for` loop,
-- Base.Errno the error numbers. A status is `done` for 0 and `fail e` for -e.
--
-- Ring: ring/ring.c. Ring.Types has `struct rte_ring`; the words behind it are its field `slots`.
--   Ring.Copy: `__rte_ring_enqueue_elems_64`, `__rte_ring_enqueue_elems_32` and the dequeue twins, the
--     unrolled loops as they stand, over either direction of the assignment. Copy.Run and Copy.Around
--     compare them with the plain loop.
--   Ring.Ops: `__rte_ring_move_prod_head` (`move_prod_head`), `__rte_ring_move_cons_head`
--     (`move_cons_head`), `update_tail`, `__rte_ring_enqueue_elems` (`enqueue_elems`),
--     `__rte_ring_do_enqueue_elem` (`do_enqueue_elem`) and so on up to `rte_ring_enqueue` (`enqueue`)
--     and `rte_ring_dequeue` (`dequeue`). The prefix rte_ring is dropped.
--   Ring.Shape has what never changes of a ring; Ring.Inv has the invariant `IsValid` and the elements
--     `contents`, oldest first; Ring.Window the stretch of slots they lie in; Ring.Enqueue and
--     Ring.Dequeue the two paths; Ring.Queue the bounded queue that a client is promised, and Ring.Refine
--     the refinement to it.
--   Ring.Create: `rte_ring_get_memsize_elem`, `get_sync_type`, `rte_ring_init`, `rte_ring_create_elem`,
--     `rte_ring_create` and `rte_ring_free`; `malloc` is a parameter. Ring.Created is about plain counts,
--     Ring.Exact about `RING_F_EXACT_SZ`, Ring.Unchecked about the result of `rte_ring_init`. Ring.Smear is about `rte_combine32ms1b`; Ring.Align has the two
--     functions of ring/test2.c, and is about `rte_align32pow2`, which the one of them repeats.
--   In Ring.Ops each call is that of a thread that runs alone. `none` is a call that does not return: the spin of
--   `update_tail` on a tail that no one moves, or compare-and-set rounds beyond the fuel `rounds`. The
--   fuel is 2; on a valid ring one round is enough, since the compare-and-set of a lone thread succeeds.
--   Ring.Threads: any number of producers and consumers on one ring in the mode RTE_RING_SYNC_MT, with
--     elements of 8 bytes. `Move` is a step of one thread, with one access to what the threads share: the
--     read of a head; the read of the other side's tail, by which `n` is decided; the compare-and-set;
--     the copy of one element; a round of the spin of `update_tail`; the write of the tail. `Pc` says
--     where a thread stands, `Step` lets any thread make a step, `Reach` any number of steps. The
--     accesses take effect in the order of the text. `History` has counts that never wrap, which no
--     step reads. A successful compare-and-set assumes (`near`) that the head has not gone around all
--     2 ^ 32 counts since it was read. What a call reports of free space or of entries left is not part
--     of it.
--     Threads.Inv has the invariant; Threads.Quiet, Threads.ProdHead, Threads.ConsHead, Threads.Copy and
--     Threads.Publish are about the kinds of steps, Threads.Moves about all of them; Threads.Safety is about the slots and
--     the elements, Threads.Fifo about the queue in the slots, Threads.Progress about threads that wait for a tail.
--     Threads.Runs has two threads on a small ring.
--   Ring.Main: the loop of ring/main.c, and what it gets back from the ring. The write of `person_init`
--     behind `person` ends it (`out_of_bounds`), since C leaves open what happens from there on.
--   The loop of ring/test2.c has a fuel too, and `none` is a loop that is still running.
--   The loops of Ring.Copy have the count of words or the size as fuel, one round for each.
--
-- Lpm: lpm/lpm.c. Lpm.Types has the structures and `depth_to_mask`, `depth_to_range`.
--   Lpm.Tables: `add_depth_small`, `_tbl8_alloc` (`tbl8_alloc`) and `add_depth_big`, the tables as
--     functions of the index. Lpm.Lookup: `rte_lpm_lookup` (`lookup`) on packed words; `view` is the
--     answer that the tables hold for an address, a depth with a next hop. Lpm.Cells: the invariant
--     `IsLinked` of the two tables. Lpm.Alloc: taking a tbl8 group; Lpm.Small and Lpm.Big: adding
--     a rule to the tables.
--   Lpm.Rules: the rule table, with `rule_add`, `rule_find`, `rule_delete` and `find_previous_rule`.
--     Lpm.Table compares the tables before and after, Lpm.Find is about the searches. Lpm.Prefix: the
--     addresses of a prefix. Lpm.Create: `rte_lpm_create` (`create`); each `malloc` is a parameter.
--   Lpm.Api: `rte_lpm_add` (`add`) and `rte_lpm_delete` (`delete`) with `tbl8_recycle_check`,
--     `delete_depth_small` and `delete_depth_big`. Lpm.Added is about `add`, Lpm.Delete
--     about `delete_depth_small`, Lpm.Recycle about the check.
--   Lpm.Groups: the invariant `IsGrouped` of the rule table and the rules that it holds (`HasRule`);
--     Lpm.Room, Lpm.Slot, Lpm.Full, Lpm.Written, Lpm.Updated and Lpm.Change are about `rule_add`, Lpm.Drop,
--     Lpm.Removed and Lpm.Deleted about `rule_delete`. Lpm.Best: longest-prefix match (`IsBest`), and
--     the tables that answer by it (`IsRouting`); Lpm.Kept: what leaves the rule table alone;
--     Lpm.Routing is about `add`; Lpm.Dropped, Lpm.Retract, Lpm.Ended and Lpm.Deletion are about `delete`,
--     Lpm.DeleteBig about its depths from 25 on, Lpm.Agree about tables with the same answers;
--     Lpm.Match is about any calls one after the other.
--   Lpm.Main: lpm/main.c with an argument, so that its 200 threads take `lpm_mutex` around each
--     `rte_lpm_add`: where a thread stands (`Worker`), its steps (`Work`), and any number of steps of any
--     threads (`Run`). A call under the lock is one step. Lpm.Single is about a rule table with one depth,
--     Lpm.Served and Lpm.Workers about one more route, Lpm.Serves about the steps, Lpm.Finished about the
--     lookups.
--   Every loop has its number of rounds as fuel: the range of a depth, the 256 entries of a group, the
--   used rules of a group, the number of groups, or the 32 depths. `IsLinked` asks for fewer than
--   2 ^ 23 tbl8 groups, since the code computes the index of a tbl8 entry as an int32_t. A rule index
--   is taken to lie below 2 ^ 31, so that it is no error code.
--
-- Memory: memory_manage. Memory.Types has the structures of malloc_elem.h, malloc_heap.h and the macros
--   of common.h. A pointer is an address, 0 is NULL; the header of an element has 56 bytes.
--   Memory.Elem: malloc_elem.c, each function under its name, `malloc_elem_insert` to `malloc_elem_free`.
--     Memory.Heap: malloc_heap.c, with `malloc_heap_create`, `heap_alloc` and `heap_free`, and
--     `malloc_elem_from_data`. A free list of <sys/queue.h> is the list of its elements: its first cell
--     is the first element, and LIST_REMOVE takes an element out of the list that it is in.
--   Memory.Inv: the invariant `IsValid`. The elements lie side by side from one end of the area to the
--     other and are chained in that order (`IsTiled`), the free lists hold the free ones (`IsListed`),
--     and no two free ones are neighbours (`IsMerged`).
--   Memory.Index and Memory.Start are about the list of a size and the place of the data in an element;
--     Memory.Split and Memory.Join about the chain when an element is split or two are joined;
--     Memory.Search about the search, Memory.Carve and Memory.Alloc about `heap_alloc`; Memory.Open,
--     Memory.Close, Memory.Merge and Memory.Free about `heap_free`, in which an element is for a while
--     neither in use nor listed; Memory.Create about `malloc_heap_create`;
--     Memory.Insert about the walks of `malloc_elem_insert`; Memory.Round about one call
--     after the other; Memory.Client about the calls of a client; Memory.Faults about an exact fit
--     and a size that wraps.
--   The search has one round for each of the 13 lists, and one for each element of a list; the walks of
--   `malloc_elem_insert` have a fuel, and `none` is a walk that is longer.
--
-- Not modelled: output by printf; NULL arguments; the exit of VERIFY_DEPTH, which the guards of the
-- interface keep from being reached; accesses of memory that another thread sees in another order, and
-- producers in the single-thread mode beside other threads; the name of a table;
-- `rte_lpm_dump` and `generateRandomIPv4`, which only print or draw random numbers; `malloc_elem_dump` and
-- `malloc_heap_dump`, which only print; lpm/main.c without the lock, where calls of
-- `rte_lpm_add` race; the demonstration programs memory_manage/main.c and ring/test.c; the printing of the
-- other mains and the timing of ring/test2.c.
pub mod Base
pub mod Ring
pub mod Lpm
pub mod Memory
