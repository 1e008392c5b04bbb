-- ===== src/Base/Loops.antt =====
-- `for (i = start; i < end; i++)` over uint32_t, and the loops that rewrite an array cell by cell.
use dpdk_code_modify.Base.{
  ℕ, zero, suc, ◌+◌, ◌^◌, ◌<◌, ◌≡◌, refl, Bool, true, false, ◌&&◌, arith, ltb, leb, if◌then◌else◌,
  store,
}
use dpdk_code_modify.Base.Words.{add32}

-- The fuel is the number of rounds; `for_loop-repeat` shows that it is enough.
unfoldable pub for_loop {ℓ} : {S : Type ℓ} → ℕ → ℕ → ℕ → (ℕ → S → S) → S → S
for_loop zero i end body s = s
for_loop (suc fuel) i end body s = elim (ltb i end) [
  | true ↦ for_loop fuel (add32 i 1) end body (body i s)
  | false ↦ s
]

-- The body at `i`, `i + 1`, .., `n` times.
unfoldable pub repeat {ℓ} : {S : Type ℓ} → ℕ → ℕ → (ℕ → S → S) → S → S
repeat zero i body s = s
repeat (suc n) i body s = repeat n (i + 1) body (body i s)

pub for_loop-repeat {ℓ} :
    {S : Type ℓ} (n i end : ℕ) (body : ℕ → S → S) (s : S)
    → i + n ≡ end
    → end < 2 ^ 32
    → for_loop n i end body s ≡ repeat n i body s
unfolding for_loop repeat
for_loop-repeat zero i end body s e w = refl
for_loop-repeat (suc n) i end body s e w =
    ground (arith, for_loop-repeat n (i + 1) end body (body i s))

-- `lo ≤ j < lo + n`
abbrev pub within : ℕ → ℕ → ℕ → Bool
within lo n j = leb lo j && ltb j (lo + n)

-- A body that rewrites the cell at its index, and only that.
pub repeat-store {ℓ} :
    {A : Type ℓ} (g : A → A) (n lo : ℕ) (f : ℕ → A) (j : ℕ)
    → repeat n lo (λ i h. store h i (g (h i))) f j ≡ (if within lo n j then g (f j) else f j)
unfolding repeat
repeat-store g zero lo f j = ground arith
repeat-store g (suc n) lo f j = ground (arith, repeat-store g n (lo + 1) (store f lo (g (f lo))) j)
