-- ===== src/Ring/Tests.antt =====
-- Runs of the ring of ring/ring.c on concrete rings.
use dpdk_code_modify.Base.{
  ℕ, ◌+◌, ◌-◌, ◌^◌, ◌≡◌, ◌≢◌, refl, Option, some, none, List, [], ◌∷◌, arith, bit_and,
}
use dpdk_code_modify.Base.Errno.{done, fail, enobufs}
use dpdk_code_modify.Ring.Types.{Ring, fixed, variable, mt, st}
use dpdk_code_modify.Ring.Copy.{elems_64, elems_32}
use dpdk_code_modify.Ring.Copy.Around.{around, elems_64-around, elems_32-around}
use dpdk_code_modify.Ring.Ops.{
  Enqueued, Dequeued, granted, put_word, get_word, do_enqueue_elem, do_dequeue_elem,
}
use dpdk_code_modify.Ring.Inv.{IsValid, contents, room, held}
use dpdk_code_modify.Ring.Enqueue.{EnqueuedWell, do_enqueue_elem_lem}
use dpdk_code_modify.Ring.Dequeue.{DequeuedWell, do_dequeue_elem_lem}
use dpdk_code_modify.Ring.Queue.{Call, put, get, run}
use dpdk_code_modify.Ring.Refine.{serve, serve-run}
use dpdk_code_modify.Ring.Create.{
  is_power_of_2, get_memsize_elem, init, create_elem, create, align32pow2, combine32ms1b,
  ring_f_exact_sz,
}
use dpdk_code_modify.Ring.Align.{
  LeastPower, align-LeastPower, align_to_power_of_two_bitwise, align_to_power_of_two_loop,
  loop-bitwise, loop_endless,
}
use dpdk_code_modify.Ring.Main.{main, all_back, out_of_bounds, main-out_of_bounds}
use dpdk_code_modify.Ring.Unchecked.{UncheckedInit, create-UncheckedInit}
use dpdk_code_modify.Ring.Exact.{create_exact, create_exact_overflow}
use dpdk_code_modify.Ring.Created.{CreatedWell, create-CreatedWell, create_zero}

-- A ring of four slots with one element, whose producer is about to wrap at 2 ^ 32.
abbrev wrapping : Ring
wrapping = record {
  flags = 0;
  size = 4;
  mask = 3;
  capacity = 3;
  prod = record { head = 2 ^ 32 - 1; tail = 2 ^ 32 - 1; sync_type = mt };
  cons = record { head = 2 ^ 32 - 2; tail = 2 ^ 32 - 2; sync_type = st };
  slots = λ j. 10 + j;
}

wrapping-IsValid : IsValid 2 wrapping
wrapping-IsValid = omega arith

-- Four puts, of which the last finds the ring full, and two gets.
abbrev calls : List Call
calls = put 20 ∷ put 21 ∷ put 22 ∷ get ∷ get ∷ []

serve-calls :
    serve 0 wrapping calls
    ≡ some ((done, 0) ∷ (done, 0) ∷ (fail enobufs, 0) ∷ (done, 12) ∷ (done, 20) ∷ [])
unfolding serve run
serve-calls = serve-run {order = 2} 0 calls wrapping-IsValid

serve-run_example : serve 0 wrapping calls ≡ some (run 3 0 (contents wrapping) calls)
serve-run_example = serve-run {order = 2} 0 calls {r = wrapping} wrapping-IsValid

-- Five words where two fit: a variable request takes two of them.
do_enqueue_elem_lem_example :
    (o : Enqueued) × (do_enqueue_elem wrapping (λ i. 20 + i) 8 5 variable mt ≡ some o)
    × EnqueuedWell 2 wrapping (λ i. 20 + i) (granted variable 5 (room wrapping)) o
do_enqueue_elem_lem_example =
    do_enqueue_elem_lem {order = 2} {r = wrapping} wrapping-IsValid (λ i. 20 + i) 5 variable mt

do_dequeue_elem_lem_example :
    (o : Dequeued) × (do_dequeue_elem wrapping (λ _. 0) 8 1 fixed st ≡ some o)
    × DequeuedWell 2 wrapping (λ _. 0) (granted fixed 1 (held wrapping)) o
do_dequeue_elem_lem_example =
    do_dequeue_elem_lem {order = 2} {r = wrapping} wrapping-IsValid (λ _. 0) 1 fixed st

-- Seven words into eight slots from slot 5 on.
elems_64-around_example :
    elems_64 (put_word (λ i. i)) 8 5 7 (λ _. 99) ≡ around (put_word (λ i. i)) 8 7 0 5 (λ _. 99)
elems_64-around_example =
    elems_64-around (put_word (λ i. i)) 8 5 7 (λ _. 99) (omega arith) (omega arith) (omega arith)

elems_32-around_example :
    elems_32 (get_word (λ i. i)) 16 2 11 (λ _. 99) ≡ around (get_word (λ i. i)) 16 11 0 2 (λ _. 99)
elems_32-around_example =
    elems_32-around (get_word (λ i. i)) 16 2 11 (λ _. 99) (omega arith) (omega arith) (omega arith)

-- A single consumer, and blocks of memory that hold an old ring.
abbrev malloc : ℕ → Option Ring
malloc size = some wrapping

create_four : create malloc 4 2 ≡ some ((init wrapping 4 2).1)
unfolding create create_elem get_memsize_elem is_power_of_2
create_four = refl

create-CreatedWell_example : CreatedWell 2 3 ((init wrapping 4 2).1)
create-CreatedWell_example =
    create-CreatedWell malloc 4 2 (omega arith) (omega arith) refl refl create_four

create_odd : create malloc 4 0x20 ≡ some wrapping
unfolding create create_elem get_memsize_elem is_power_of_2 init
create_odd = refl

create-UncheckedInit_example :
    (size : ℕ) × (block : Ring) × (malloc size ≡ some block)
    × UncheckedInit 0x20 block (init block 4 0x20) wrapping
create-UncheckedInit_example = create-UncheckedInit malloc 4 0x20 create_odd

create_none : create malloc 0 2 ≡ some ((init wrapping 0 2).1)
unfolding create create_elem get_memsize_elem is_power_of_2
create_none = refl

create_zero_example :
    ((init wrapping 0 2).1.size ≡ 0) × ((init wrapping 0 2).1.capacity ≡ 2 ^ 32 - 1)
create_zero_example = create_zero malloc 2 refl refl create_none

align-LeastPower_example : LeastPower 1000000 (align32pow2 1000000)
align-LeastPower_example = align-LeastPower 1000000 (omega arith) (omega arith)

align_values : (align32pow2 1 ≡ 1) × (align32pow2 5 ≡ 8) × (align32pow2 64 ≡ 64)
unfolding align32pow2 combine32ms1b
align_values = (refl, refl, refl)

loop-bitwise_example :
    align_to_power_of_two_loop 32 1000000 ≡ some (align_to_power_of_two_bitwise 1000000)
loop-bitwise_example = loop-bitwise 1000000 (omega arith) (omega arith) 32 (omega arith)

loop_endless_example : align_to_power_of_two_loop 1000 (2 ^ 32 - 1) ≡ none
loop_endless_example = loop_endless (2 ^ 32 - 1) (omega arith) 1000

exact_flag : bit_and 4 ring_f_exact_sz ≢ 0
exact_flag = omega arith

create_exact_example : (r : Ring) × (create malloc 16 4 ≡ some r) × CreatedWell 4 16 r
create_exact_example =
    create_exact malloc 16 4 {block = wrapping} (omega arith) refl exact_flag refl

create_exact_overflow_example :
    (r : Ring) × (create malloc (2 ^ 32 - 1) 4 ≡ some r) × (r.size ≡ 0) × (r.capacity ≡ 2 ^ 32 - 1)
create_exact_overflow_example =
    create_exact_overflow malloc (2 ^ 32 - 1) 4 {block = wrapping} (omega arith) (omega arith) refl
      exact_flag refl

main-out_of_bounds_example :
    main malloc 0x1000 ≡ some (some (out_of_bounds 32 (all_back 32 0 0x1000)))
main-out_of_bounds_example = main-out_of_bounds malloc 0x1000 {block = wrapping} refl
