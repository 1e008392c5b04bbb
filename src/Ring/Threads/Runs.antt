-- ===== src/Ring/Threads/Runs.antt =====
-- Two threads at work on a ring of four slots.
use dpdk_code_modify.Base.{◌≤◌, ℕ, ◌+◌, ◌<◌, ◌≡◌, ◌≢◌, inl, refl, [], ◌∷◌, arith}
use dpdk_code_modify.Ring.Types.{fixed, variable, mt, Ring}
use dpdk_code_modify.Ring.Inv.{IsValid}
use dpdk_code_modify.Ring.Threads.{
  Pc, History, Move, call_enqueue, read_prod_head, read_cons_tail, prod_win, prod_copy,
  prod_publish, call_dequeue, read_cons_head, read_prod_tail, cons_win, cons_copy, System, step,
  Reach, start, later, initial,
}
use dpdk_code_modify.Ring.Threads.Inv.{Inv}
use dpdk_code_modify.Ring.Threads.Moves.{Reach-Inv}
use dpdk_code_modify.Ring.Threads.Safety.{slots_apart, delivered}
use dpdk_code_modify.Ring.Threads.Fifo.{shared, Move-QueueStep}
use dpdk_code_modify.Ring.Threads.Progress.{Ended, no_deadlock}

-- The heads are about to wrap.
abbrev four : Ring
four = record {
  flags = 0;
  size = 4;
  mask = 3;
  capacity = 3;
  prod = record { head = 4294967295; tail = 4294967295; sync_type = mt };
  cons = record { head = 4294967295; tail = 4294967295; sync_type = mt };
  slots = λ _. 0;
}

four-IsValid : IsValid 2 four
four-IsValid = record {
  order_le = omega arith;
  size_pow = refl;
  mask_low = refl;
  spare = omega arith;
  prod_word = omega arith;
  prod_quiet = refl;
  cons_word = omega arith;
  cons_quiet = refl;
  held_le = omega arith;
}

record Run (s : System) : Type 0 where
  last : System
  reach : Reach s last

abbrev begin : {s : System} → Run s
begin {s} = record { last = s; reach = start }

infixl 5 ◌at◌does◌
abbrev ◌at◌does◌ :
    {s : System} (run : Run s) (i : ℕ) {r : Ring} {g : History} {p : Pc}
    → Move run.last.ring run.last.hist (run.last.pc i) r g p
    → Run s
run at i does mv = record { last = _; reach = later run.reach (step i mv) }

abbrev table : ℕ → ℕ
table j = j + 70

-- Thread 0 has moved the head over two elements.
abbrev one_claim : Run (initial four)
one_claim =
    begin
    at 0 does call_enqueue {max = 2} {b = fixed} {obj = table}
    at 0 does read_prod_head
    at 0 does read_cons_tail refl (omega arith)
    at 0 does prod_win refl (omega arith)

-- Thread 1 is about to move it over one more.
abbrev about_to_claim : Run (initial four)
about_to_claim =
    one_claim
    at 1 does call_enqueue {max = 5} {b = variable} {obj = table}
    at 1 does read_prod_head
    at 1 does read_cons_tail refl (omega arith)

abbrev two_claims : Run (initial four)
two_claims = about_to_claim at 1 does prod_win refl (omega arith)

Reach-Inv_example : Inv 2 two_claims.last.ring two_claims.last.hist two_claims.last.pc
Reach-Inv_example = Reach-Inv four-IsValid two_claims.reach

slots_apart_example : ◌≢◌ {A = ℕ} 3 1
slots_apart_example =
    slots_apart four-IsValid two_claims.reach 0 1 3 1 (omega arith) refl (inl refl)

-- Thread 1 waits for thread 0.
no_deadlock_example : Ended two_claims.last 1
no_deadlock_example = no_deadlock four-IsValid two_claims.reach 1 4294967297 (inl refl)

first_of_two : ◌<◌ 0 2
first_of_two = omega arith

second_of_two : ◌<◌ 1 2
second_of_two = omega arith

-- Thread 0 has handed its two elements on.
abbrev sent : Run one_claim.last
sent =
    begin
    at 0 does prod_copy first_of_two
    at 0 does prod_copy second_of_two
    at 0 does prod_publish refl

-- Thread 1 has moved the consumers' head over them.
abbrev granted : Run one_claim.last
granted =
    sent
    at 1 does call_dequeue {max = 2} {b = fixed}
    at 1 does read_cons_head
    at 1 does read_prod_tail refl (omega arith)
    at 1 does cons_win {table = λ _. 0} refl (omega arith)

abbrev reading : Run one_claim.last
reading = granted at 1 does cons_copy first_of_two at 1 does cons_copy second_of_two

delivered_example : ◌≡◌ {A = ℕ} 71 (table 1)
delivered_example =
    delivered four-IsValid one_claim.reach reading.reach 0 refl 1 refl 1 1 (omega arith)
      (omega arith) refl

-- Thread 0 has copied its elements, and is about to hand them on.
abbrev copied : Run (initial four)
copied = one_claim at 0 does prod_copy first_of_two at 0 does prod_copy second_of_two

Move-QueueStep_example : (◌≤◌ 2 3) × (shared sent.last.ring ≡ table 0 ∷ table 1 ∷ [])
Move-QueueStep_example = Move-QueueStep four-IsValid copied.reach 0 (prod_publish refl)
