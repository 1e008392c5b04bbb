-- ===== src/Ring/Main.antt =====
-- ring/main.c: a ring of 16, into which each round puts the address of one person and takes it out.
use dpdk_code_modify.Base.{
  ltb, lt→ltb, if◌then◌else◌, ℕ, zero, suc, ◌+◌, ◌*◌, ◌<◌, ◌≡◌, refl, ap, ap₂, ◌∙◌, Option, some,
  none, List, [], ◌∷◌, arith,
}
use dpdk_code_modify.Base.Errno.{Status, done}
use dpdk_code_modify.Ring.Types.{Ring}
use dpdk_code_modify.Ring.Ops.{◌>>=◌, enqueue, dequeue}
use dpdk_code_modify.Ring.Inv.{IsValid, contents}
use dpdk_code_modify.Ring.Queue.{push, pop}
use dpdk_code_modify.Ring.Refine.{enqueue-push, dequeue-pop}
use dpdk_code_modify.Ring.Create.{init, get_memsize_elem, is_power_of_2, create_elem, create}
use dpdk_code_modify.Ring.Created.{CreatedWell, create-CreatedWell}

-- `sizeof(struct Person)`: a name of 16 bytes and three numbers.
abbrev pub sizeof_person : ℕ
sizeof_person = 16 + 3 * 4

-- `&person[i]`
abbrev pub person_at : ℕ → ℕ → ℕ
person_at person i = person + sizeof_person * i

-- `struct Person person[32]`
abbrev pub persons : ℕ
persons = 32

-- What a round prints by: the two results of the ring's calls, and where `p` then points.
abbrev pub Round : Type 0
Round = Status × Status × ℕ

-- How the loop goes: to its end, or up to the round that fills in a person behind the array. What
-- happens from there on C leaves open. Either way with the rounds before.
pub data Outcome : Type 0 where
  ended : List Round → Outcome
  out_of_bounds : (i : ℕ) → List Round → Outcome

abbrev pub after : Round → Outcome → Outcome
after x (ended xs) = ended (x ∷ xs)
after x (out_of_bounds i xs) = out_of_bounds i (x ∷ xs)

-- The loop of `main`, `n` rounds from `i` on, for `p` as it stands. `person_init` writes `person[i]`.
unfoldable pub main_rounds : ℕ → ℕ → ℕ → ℕ → Ring → Option Outcome
main_rounds zero i person p r = some (ended [])
main_rounds (suc n) i person p r =
    let round = enqueue r (person_at person i) >>= λ (s, r1). dequeue r1 p >>= λ (t, q, r2).
    main_rounds n (i + 1) person q r2 >>= λ rest. some (after (s, t, q) rest) in
    if ltb i persons then round else some (out_of_bounds i [])

-- The rest of `main` once `rte_ring_create` has answered; the inner `none` is the return of -1.
unfoldable pub with_ring : ℕ → Option Ring → Option (Option Outcome)
with_ring person none = some none
with_ring person (some r) = main_rounds 256 0 person 0 r >>= λ out. some (some out)

-- `main`
unfoldable pub main : (ℕ → Option Ring) → ℕ → Option (Option Outcome)
main malloc person = with_ring person (create malloc 16 0)

-- Each round succeeds and gets back what it put in.
abbrev pub all_back : ℕ → ℕ → ℕ → List Round
all_back zero i person = []
all_back (suc n) i person = (done, done, person_at person i) ∷ all_back n (i + 1) person

created :
    (malloc : ℕ → Option Ring) {block : Ring}
    → malloc 192 ≡ some block
    → create malloc 16 0 ≡ some ((init block 16 0).1)
unfolding create create_elem get_memsize_elem is_power_of_2
created malloc got = rw got

-- `k` persons are left, and the loop goes on for longer.
main_rounds-all_back :
    (k n i person p : ℕ) {order : ℕ} {r : Ring}
    → k < n
    → i + k ≡ persons
    → IsValid order r
    → contents r ≡ []
    → 0 < r.capacity
    → main_rounds n i person p r ≡ some (out_of_bounds persons (all_back k i person))
unfolding main_rounds
main_rounds-all_back k zero i person p lt at v e room = absurd (omega arith)
main_rounds-all_back zero (suc n) i person p lt at v e room =
    let last : i ≡ persons = omega arith in rw last refl
main_rounds-all_back (suc k) (suc n) i person p {r = r} lt at v e room =
    let x = person_at person i in
    let (s, r1, e1, put_one, v1, same1) = enqueue-push v x in
    let (t, q, r2, e2, got_one, v2, same2) = dequeue-pop v1 p in
    let shorter : k < n = omega arith in
    let onward : i + 1 + k ≡ persons = omega arith in
    let roomy : 0 < r2.capacity = omega (arith, same1, same2) in
    let pushed : (s, contents r1) ≡ (done, x ∷ []) =
      put_one ∙ ap (λ (xs : List ℕ). push r.capacity xs x) e ∙ ground (arith, room) in
    let popped : (t, q, contents r2) ≡ (done, x, []) =
      got_one ∙ ap (λ (a : Status × List ℕ). pop p a.1) pushed in
    let rest =
      main_rounds-all_back k n (i + 1) person q shorter onward v2
        (ap (λ (a : Status × ℕ × List ℕ). a.2) popped) roomy in
    rw (lt→ltb i persons (omega arith), e1, e2, rest)
      (ap₂
        (λ (a : Status × List ℕ) (b : Status × ℕ × List ℕ).
          some (out_of_bounds persons ((a.0, b.0, b.1) ∷ all_back k (i + 1) person)))
        pushed popped)

-- When `malloc` gives a block for the ring, whatever it holds, in the first 32 rounds of `main` of
-- ring/main.c both `rte_ring_enqueue` and `rte_ring_dequeue` succeed and the pointer taken out is
-- the address of `person[i]` that was put in; then the loop goes on to the round for i = 32, in
-- which `person_init` writes behind the array `person`, where the model stops.
pub main-out_of_bounds :
    (malloc : ℕ → Option Ring) (person : ℕ) {block : Ring}
    → malloc 192 ≡ some block
    → main malloc person ≡ some (some (out_of_bounds 32 (all_back 32 0 person)))
unfolding main with_ring
main-out_of_bounds malloc person {block} got =
    ap (with_ring person) made
    ∙ ap (λ (o : Option Outcome). o >>= λ out. some (some out))
        (main_rounds-all_back 32 256 0 person 0 (omega arith) refl well.valid well.empty
          (omega (arith, well.holds)))
  where
    made : create malloc 16 0 ≡ some ((init block 16 0).1)
    made = created malloc got

    well : CreatedWell 0 15 ((init block 16 0).1)
    well = create-CreatedWell malloc 16 0 (omega arith) (omega arith) refl refl made
