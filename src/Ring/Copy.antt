-- ===== src/Ring/Copy.antt =====
-- The copy loops of ring/ring.c (`__rte_ring_enqueue_elems_64`, `__rte_ring_enqueue_elems_32` and
-- the two `dequeue` twins, which have the same loops with the assignment turned round).
-- Both directions are one text here: `assign i idx m` is `ring[idx] = obj[i]` or `obj[i] = ring[idx]`.
pub mod Run
pub mod Around
use dpdk_code_modify.Base.{
  ℕ, zero, suc, ◌+◌, Bool, true, false, bit_and, ltb, leb, ◌==◌, if◌then◌else◌,
}
use dpdk_code_modify.Base.Words.{add32, not32}

-- The locals `i` and `idx` and the memory that is written.
pub record Cursor (M : Type 0) : Type 0 where
  pub i : ℕ
  pub idx : ℕ
  pub mem : M

abbrev pub cursor : {M : Type 0} → ℕ → ℕ → M → Cursor M
cursor i idx m = record { i = i; idx = idx; mem = m }

module _ {M : Type 0} (assign : ℕ → ℕ → M → M) where
  -- `ring[idx++] = obj[i++]`
  abbrev pub step : Cursor M → Cursor M
  step c = cursor (add32 c.i 1) (add32 c.idx 1) (assign c.i c.idx c.mem)

  -- The assignment at offset `k` of an unrolled block.
  abbrev pub nth : ℕ → Cursor M → M → M
  nth k c m = assign (add32 c.i k) (add32 c.idx k) m

  -- The unrolled bodies, with `i += 4, idx += 4` and `i += 8, idx += 8`.
  pub block4 : Cursor M → Cursor M
  block4 c =
      cursor (add32 c.i 4) (add32 c.idx 4) (nth 3 c (nth 2 c (nth 1 c (assign c.i c.idx c.mem))))

  pub block8 : Cursor M → Cursor M
  block8 c =
      cursor (add32 c.i 8) (add32 c.idx 8) (
        nth 7 c
          (nth 6 c (nth 5 c (nth 4 c (nth 3 c (nth 2 c (nth 1 c (assign c.i c.idx c.mem))))))))

  -- `for (i = 0; i < limit; i += .., idx += ..)` around a block.
  pub bulk : (Cursor M → Cursor M) → ℕ → ℕ → Cursor M → Cursor M
  bulk block zero limit c = c
  bulk block (suc fuel) limit c = elim (ltb c.i limit) [
    | true ↦ bulk block fuel limit (block c)
    | false ↦ c
  ]

  -- The `switch` whose cases fall through.
  pub rest4 : ℕ → Cursor M → Cursor M
  rest4 r c =
      if r == 3
      then step (step (step c))
      else if r == 2
      then step (step c)
      else if r == 1
      then step c
      else c

  pub rest8 : ℕ → Cursor M → Cursor M
  rest8 r c =
      if r == 7
      then step (step (step (step (step (step (step c))))))
      else if r == 6
      then step (step (step (step (step (step c)))))
      else if r == 5
      then step (step (step (step (step c))))
      else if r == 4
      then step (step (step (step c)))
      else if r == 3
      then step (step (step c))
      else if r == 2
      then step (step c)
      else if r == 1
      then step c
      else c

  -- `for (i = 0; idx < size; i++, idx++)`
  pub until_size : ℕ → ℕ → Cursor M → Cursor M
  until_size zero size c = c
  until_size (suc fuel) size c = elim (ltb c.idx size) [
    | true ↦ until_size fuel size (step c)
    | false ↦ c
  ]

  -- `for (idx = 0; i < n; i++, idx++)`
  pub until_n : ℕ → ℕ → Cursor M → Cursor M
  until_n zero n c = c
  until_n (suc fuel) n c = elim (ltb c.i n) [ true ↦ until_n fuel n (step c) | false ↦ c ]

  -- The branch that goes round the end of the ring.
  pub wrap : ℕ → ℕ → ℕ → M → M
  wrap size idx n m =
      let c = until_size size size (cursor 0 idx m) in (until_n n n (cursor c.i 0 c.mem)).mem

  unfoldable pub elems_64 : ℕ → ℕ → ℕ → M → M
  elems_64 size idx n m =
      if leb (add32 idx n) size
      then (rest4 (bit_and n 3) (bulk block4 n (bit_and n (not32 3)) (cursor 0 idx m))).mem
      else wrap size idx n m

  unfoldable pub elems_32 : ℕ → ℕ → ℕ → M → M
  elems_32 size idx n m =
      if leb (add32 idx n) size
      then (rest8 (bit_and n 7) (bulk block8 n (bit_and n (not32 7)) (cursor 0 idx m))).mem
      else wrap size idx n m
