-- ===== src/Memory/Inv.antt =====
-- When the elements of a heap cover its area, and when its free lists hold the free ones.
use dpdk_code_modify.Base.{
  ℕ, ◌+◌, ◌^◌, ◌≤◌, ◌<◌, ◌≡◌, ◌≢◌, Bool, true, false, ◌&&◌, ◌||◌, not, List, [], ◌∷◌, arith, ◌==◌,
}
use dpdk_code_modify.Memory.Types.{is_free, Heap}
use dpdk_code_modify.Memory.Elem.{malloc_elem_free_list_index, without}

abbrev pub size_of : Heap → ℕ → ℕ
size_of h a = (h.elems a).size

-- The address behind an element.
abbrev pub end_of : Heap → ℕ → ℕ
end_of h a = a + (h.elems a).size

-- The elements at the addresses with `live` lie side by side from `lo` to `hi`, each with room for its
-- header, and are chained in that order.
pub record IsTiled (live : ℕ → Bool) (lo hi : ℕ) (h : Heap) : Type 0 where
  pub pos : 0 < lo
  pub top : hi < 2 ^ 64
  pub start : live lo ≡ true
  pub head : h.first ≡ lo
  pub front : (h.elems lo).prev ≡ 0
  pub above : (a : ℕ) → live a ≡ true → lo ≤ a
  pub roomy : (a : ℕ) → live a ≡ true → 56 ≤ (h.elems a).size
  pub inside : (a : ℕ) → live a ≡ true → a + (h.elems a).size ≤ hi
  pub apart : (a b : ℕ) → live a ≡ true → live b ≡ true → a < b → a + (h.elems a).size ≤ b
  pub onward :
      (a : ℕ)
      → live a ≡ true
      → a + (h.elems a).size < hi
      → (live (a + (h.elems a).size) ≡ true)
        × ((h.elems a).next ≡ a + (h.elems a).size)
        × ((h.elems (a + (h.elems a).size)).prev ≡ a)
  pub final :
      (a : ℕ) → live a ≡ true → a + (h.elems a).size ≡ hi → ((h.elems a).next ≡ 0) × (h.last ≡ a)
  pub back :
      (a : ℕ)
      → live a ≡ true
      → lo < a
      → (live (h.elems a).prev ≡ true) × ((h.elems a).prev + (h.elems (h.elems a).prev).size ≡ a)

-- Whether a list has an element.
unfoldable pub member : ℕ → List ℕ → Bool
member p [] = false
member p (q ∷ qs) = p == q || member p qs

pub member-without :
    (p q : ℕ) (xs : List ℕ) → member p (without q xs) ≡ (not (q == p) && member p xs)
unfolding member without
member-without p q [] = ground arith
member-without p q (x ∷ xs) = ground (arith, member-without p q xs)

-- The free elements, and they alone, are in the free lists, each in that of its size.
pub record IsListed (live : ℕ → Bool) (h : Heap) : Type 0 where
  pub listed :
      (i a : ℕ)
      → i < 13
      → member a (h.free_head i) ≡ (
          live a
          && is_free (h.elems a).state
          && (i == malloc_elem_free_list_index (h.elems a).size))

-- No two free elements lie side by side.
pub record IsMerged (live : ℕ → Bool) (h : Heap) : Type 0 where
  pub merged :
      (a : ℕ)
      → live a ≡ true
      → is_free (h.elems a).state ≡ true
      → (h.elems a).next ≢ 0
      → is_free (h.elems (h.elems a).next).state ≡ false

pub record IsValid (live : ℕ → Bool) (lo hi : ℕ) (h : Heap) : Type 0 where
  pub tiled : IsTiled live lo hi h
  pub listed : IsListed live h
  pub merged : IsMerged live h
