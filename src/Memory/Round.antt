-- ===== src/Memory/Round.antt =====
-- `heap_free` of what `heap_alloc` of malloc_heap.c just gave.
use dpdk_code_modify.Base.{
  ℕ, ◌+◌, ◌^◌, ◌≤◌, ◌<◌, ◌≡◌, ◌≢◌, refl, Bool, true, false, arith, ap, ◌∙◌, ==_self,
}
use dpdk_code_modify.Base.Words.{u32, sub32}
use dpdk_code_modify.Memory.Types.{is_free, Heap, cache_line_roundup}
use dpdk_code_modify.Memory.Heap.{heap_alloc, heap_free}
use dpdk_code_modify.Memory.Inv.{IsValid}
use dpdk_code_modify.Memory.Split.{with_elem}
use dpdk_code_modify.Memory.Alloc.{HasSlack, AllocOutcome, heap_alloc-AllocOutcome}
use dpdk_code_modify.Memory.Free.{FreedWell, heap_free-FreedWell}

-- Two heaps are both valid over the same area, and have the same elements in use and their count.
pub record IsBack (live : ℕ → Bool) (lo hi : ℕ) (h h' : Heap) : Type 0 where
  pub live' : ℕ → Bool
  pub valid : IsValid live' lo hi h'
  pub kept :
      (a : ℕ)
      → live a ≡ true
      → is_free (h.elems a).state ≡ false
      → (live' a ≡ true)
        × (is_free (h'.elems a).state ≡ false)
        × ((h'.elems a).size ≡ (h.elems a).size)
  pub only :
      (a : ℕ)
      → live' a ≡ true
      → is_free (h'.elems a).state ≡ false
      → (live a ≡ true) × (is_free (h.elems a).state ≡ false)
  pub counted : h'.alloc_count ≡ h.alloc_count

AllocOutcome-IsBack :
    (live : ℕ → Bool) (lo hi : ℕ) (h : Heap) (size2 k : ℕ)
    → IsValid live lo hi h
    → h.alloc_count < 2 ^ 32
    → (r : ℕ × Heap) → AllocOutcome live lo hi h size2 k r
    → IsBack live lo hi h (heap_free (r.1) (r.0))
unfolding heap_free
AllocOutcome-IsBack live lo hi h size2 k v word _ (AllocOutcome.refused none_fits) = record {
  live' = live;
  valid = v;
  kept = λ a l b. (l, b, refl);
  only = λ a l b. (l, b);
  counted = refl;
}
AllocOutcome-IsBack live lo hi h size2 k v word _
      (AllocOutcome.given {h'} e p l fr fits fresh v' busy ends kept counted) =
    let here : with_elem p live p ≡ true = ground (arith, ==_self p) in
    let f : FreedWell (with_elem p live) lo hi h' p (heap_free h' (p + 56)) =
      heap_free-FreedWell (with_elem p live) lo hi h' v' p here busy in
    record {
      live' = f.live';
      valid = f.valid;
      kept = λ a la b.
          let (l1, b1, s1) = kept.kept a la b in
          let away : a ≢ p = λ same. ground (arith, ap live same) in
          let (l2, b2, s2) = f.kept a l1 away b1 in (l2, b2, s2 ∙ s1);
      only = λ a l2 b2.
          let (l1, b1, away) = f.only a l2 b2 in
          let was : live a ≡ true = ground arith in (was, ground (arith, kept.only a was));
      counted = f.counted ∙ ap (λ (n : ℕ). sub32 n 1) counted ∙ omega arith;
    }

-- On a valid heap above `2 ^ k + 56` with fewer than 2 ^ 32 allocations, where in every free
-- element that can hold the data there is room for the header that stays in front, `heap_free` of
-- the result of `heap_alloc` of a size that is not 0, at an alignment that rounds to `2 ^ k` for k
-- below 32, leaves a valid heap with the same elements in use, of the same sizes, and the same
-- count of allocations.
pub heap_free-heap_alloc :
    (live : ℕ → Bool) (lo hi : ℕ) (h : Heap) (size align k : ℕ)
    → IsValid live lo hi h
    → h.alloc_count < 2 ^ 32
    → k < 32
    → 2 ^ k + 56 ≤ lo
    → HasSlack live h (cache_line_roundup size) (2 ^ k)
    → size ≢ 0
    → u32 (cache_line_roundup align) ≡ 2 ^ k
    → let (p, h') = heap_alloc h size align in IsBack live lo hi h (heap_free h' p)
heap_free-heap_alloc live lo hi h size align k v word small above slack ne aligned =
    AllocOutcome-IsBack live lo hi h (cache_line_roundup size) k v word _ (
      heap_alloc-AllocOutcome live lo hi h v (cache_line_roundup size) k small above slack size
        align ne refl aligned)
