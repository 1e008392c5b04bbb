-- ===== src/Ring/Copy/Around.antt =====
-- The reference for the copy loops: one word at a time, the ring index taken modulo the size.
use native.Mathlib.Nat.{mod_self, mod-eq_of_lt, suc-add}
use dpdk_code_modify.Base.{
  ℕ, zero, suc, ◌+◌, ◌-◌, ◌*◌, ◌/◌, ◌%◌, ◌^◌, ◌≤◌, ◌<◌, ◌≡◌, refl, sym, ◌∙◌, ap, ap₂, arith,
  bit_and, dec_lt, le→leb, lt→not-leb,
}
use dpdk_code_modify.Base.Bits.{bit_and-mask}
use dpdk_code_modify.Base.Words.{add32, not32, bit_and-not_three, bit_and-not_seven}
use dpdk_code_modify.Ring.Copy.{
  Cursor, cursor, block4, block8, bulk, rest4, rest8, until_n, wrap, elems_64, elems_32,
}
use dpdk_code_modify.Ring.Copy.Run.{
  steps, steps-add, steps_indices, block4-steps, block8-steps, until_size-steps, until_n-steps,
  bulk-steps,
}

module _ {M : Type 0} (assign : ℕ → ℕ → M → M) (size : ℕ) where
  unfoldable pub around : ℕ → ℕ → ℕ → M → M
  around zero i idx m = m
  around (suc k) i idx m = around k (i + 1) ((idx + 1) % size) (assign i idx m)

  pub around-zero : (i idx : ℕ) (m : M) → around 0 i idx m ≡ m
  unfolding around
  around-zero i idx m = refl

  -- Up to the end of the ring the reference goes straight on.
  pub around-steps :
      (k j i idx : ℕ) (m : M)
      → idx < size
      → idx + k ≤ size
      → size < 2 ^ 32
      → i + k < 2 ^ 32
      → around (k + j) i idx m
        ≡ around j (i + k) ((idx + k) % size) (steps assign k (cursor i idx m)).mem
  unfolding around steps
  around-steps zero j i idx m l h s t = ground (arith, mod-eq_of_lt {n = idx} {m = size} l)
  around-steps (suc zero) j i idx m l h s t = rw suc-add (ground arith)
  around-steps (suc (suc k)) j i idx m l h s t = rw suc-add (
      ground (
        arith,
        mod-eq_of_lt {n = idx + 1} {m = size} (omega arith),
        around-steps (suc k) j (i + 1) (idx + 1) (assign i idx m),
      ))

module _ {M : Type 0} (assign : ℕ → ℕ → M → M) where
  rest4-steps : (n : ℕ) (c : Cursor M) → rest4 assign (bit_and n 3) c ≡ steps assign (n % 4) c
  unfolding rest4 steps
  rest4-steps n c = rw (bit_and-mask 2 n) (go (n % 4) (omega arith))
    where
      go : (r : ℕ) → r < 4 → rest4 assign r c ≡ steps assign r c
      go zero h = refl
      go (suc zero) h = refl
      go (suc (suc zero)) h = refl
      go (suc (suc (suc zero))) h = refl
      go (suc (suc (suc (suc r)))) h = absurd (omega arith)

  rest8-steps : (n : ℕ) (c : Cursor M) → rest8 assign (bit_and n 7) c ≡ steps assign (n % 8) c
  unfolding rest8 steps
  rest8-steps n c = rw (bit_and-mask 3 n) (go (n % 8) (omega arith))
    where
      go : (r : ℕ) → r < 8 → rest8 assign r c ≡ steps assign r c
      go zero h = refl
      go (suc zero) h = refl
      go (suc (suc zero)) h = refl
      go (suc (suc (suc zero))) h = refl
      go (suc (suc (suc (suc zero)))) h = refl
      go (suc (suc (suc (suc (suc zero))))) h = refl
      go (suc (suc (suc (suc (suc (suc zero)))))) h = refl
      go (suc (suc (suc (suc (suc (suc (suc zero))))))) h = refl
      go (suc (suc (suc (suc (suc (suc (suc (suc r)))))))) h = absurd (omega arith)

module _ {M : Type 0} (assign : ℕ → ℕ → M → M) (size idx n : ℕ) (m : M) (start : idx < size)
    (few : n ≤ size) (small : size ≤ 2 ^ 31) where
  abbrev origin : Cursor M
  origin = cursor 0 idx m

  straight-around : idx + n ≤ size → (steps assign n origin).mem ≡ around assign size n 0 idx m
  straight-around h = ground (
    arith,
    around-steps assign size n 0 0 idx m start h,
    around-zero assign size (0 + n) ((idx + n) % size) (steps assign n origin).mem,
  )

  unrolled4-steps :
      rest4 assign (bit_and n 3) (bulk assign (block4 assign) n (bit_and n (not32 3)) origin)
      ≡ steps assign n origin
  unrolled4-steps =
      rw
        (
          bit_and-not_three n (omega arith),
          bulk-steps assign 4 (block4 assign) (block4-steps assign) (n / 4) n (n / 4 * 4) origin
              (omega arith) (omega arith) (omega arith) (omega arith) (omega arith),
          rest4-steps assign n (steps assign (n / 4 * 4) origin),
          ← steps-add assign (n / 4 * 4) (n % 4) origin,
        )
        (ap (λ (t : ℕ). steps assign t origin) (omega arith))

  unrolled8-steps :
      rest8 assign (bit_and n 7) (bulk assign (block8 assign) n (bit_and n (not32 7)) origin)
      ≡ steps assign n origin
  unrolled8-steps =
      rw
        (
          bit_and-not_seven n (omega arith),
          bulk-steps assign 8 (block8 assign) (block8-steps assign) (n / 8) n (n / 8 * 8) origin
              (omega arith) (omega arith) (omega arith) (omega arith) (omega arith),
          rest8-steps assign n (steps assign (n / 8 * 8) origin),
          ← steps-add assign (n / 8 * 8) (n % 8) origin,
        )
        (ap (λ (t : ℕ). steps assign t origin) (omega arith))

  -- The words up to the end of the ring, and the memory once they are copied.
  abbrev front : ℕ
  front = size - idx

  abbrev turned : M
  turned = (steps assign front origin).mem

  wrap-steps :
      size < idx + n
      → wrap assign size idx n m ≡ (steps assign (n - front) (cursor front 0 turned)).mem
  unfolding wrap
  wrap-steps h =
      let moved = steps_indices assign front origin (omega arith) (omega arith) in
      let at : (steps assign front origin).i ≡ front = omega (arith, moved.0) in
      ap (λ (c : Cursor M). (until_n assign n n (cursor c.i 0 c.mem)).mem)
        (until_size-steps assign front size size origin (omega arith) (omega arith) (omega arith))
      ∙ ap (λ (i : ℕ). (until_n assign n n (cursor i 0 turned)).mem) at
      ∙ ap (λ (c : Cursor M). c.mem)
          (until_n-steps assign (n - front) n n (cursor front 0 turned) (omega arith) (omega arith)
            (omega arith))

  wrap-around : size < idx + n → wrap assign size idx n m ≡ around assign size n 0 idx m
  wrap-around h =
      let full : idx + front ≡ size = omega arith in
      let back : (idx + front) % size ≡ 0 = rw full (mod_self size) in
      let whole : n ≡ front + (n - front) = omega arith in
      let rest : n - front ≡ n - front + 0 = omega arith in
      wrap-steps h
      ∙ sym (
          ap (λ (t : ℕ). around assign size t 0 idx m) whole
          ∙ around-steps assign size front (n - front) 0 idx m start (omega arith) (omega arith)
              (omega arith)
          ∙ ap₂ (λ (i x : ℕ). around assign size (n - front) i x turned) (omega arith) back
          ∙ ap (λ (t : ℕ). around assign size t front 0 turned) rest
          ∙ around-steps assign size (n - front) 0 front 0 turned (omega arith) (omega arith)
              (omega arith) (omega arith)
          ∙ around-zero assign size _ _ _)

  -- From an index inside the ring, for at most `size` words and a size of at most 2 ^ 31, the
  -- 64-bit copy, unrolled by four and split at the end of the ring, does what the plain loop does
  -- that takes the index modulo the size.
  pub elems_64-around : elems_64 assign size idx n m ≡ around assign size n 0 idx m
  unfolding elems_64
  elems_64-around = elim (dec_lt size (idx + n)) [
    | yes over ↦ rw (lt→not-leb (add32 idx n) size (omega arith)) (wrap-around over)
    | no fits ↦
        rw (le→leb (add32 idx n) size (omega arith), unrolled4-steps)
          (straight-around (omega arith))
  ]

  -- Under the same bounds (an index inside the ring, at most `size` words, a size of at most 2 ^
  -- 31) the 32-bit copy, unrolled by eight and split at the end of the ring, does what the plain
  -- loop does.
  pub elems_32-around : elems_32 assign size idx n m ≡ around assign size n 0 idx m
  unfolding elems_32
  elems_32-around = elim (dec_lt size (idx + n)) [
    | yes over ↦ rw (lt→not-leb (add32 idx n) size (omega arith)) (wrap-around over)
    | no fits ↦
        rw (le→leb (add32 idx n) size (omega arith), unrolled8-steps)
          (straight-around (omega arith))
  ]
