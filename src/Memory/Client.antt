-- ===== src/Memory/Client.antt =====
-- Clients of the heap of malloc_heap.c: any sequence of `heap_alloc` and `heap_free`.
use dpdk_code_modify.Base.{
  ℕ, ◌+◌, ◌-◌, ◌^◌, ◌≤◌, ◌<◌, ◌≡◌, ◌≢◌, refl, Bool, true, false, ◌&&◌, ◌||◌, not, arith, ◌==◌, ap,
  ==_iff, Bool-cases, inl, inr,
}
use dpdk_code_modify.Base.Words.{u32}
use dpdk_code_modify.Memory.Types.{is_free, Heap, cache_line_roundup}
use dpdk_code_modify.Memory.Elem.{elem_start_pt, malloc_elem_free_list_index}
use dpdk_code_modify.Memory.Heap.{heap_alloc, heap_free}
use dpdk_code_modify.Memory.Inv.{IsValid, member}
use dpdk_code_modify.Memory.Index.{malloc_elem_free_list_index-InClass}
use dpdk_code_modify.Memory.Split.{with_elem}
use dpdk_code_modify.Memory.Alloc.{HasSlack, AllocOutcome, heap_alloc-AllocOutcome}
use dpdk_code_modify.Memory.Free.{heap_free-FreedWell}

-- No element of the free lists fits the data so tightly that no header can stay in front.
abbrev pub IsLoose : Heap → ℕ → ℕ → Type 0
IsLoose h size2 align2 =
    (i e : ℕ)
    → i < 13
    → member e (h.free_head i) ≡ true
    → elem_start_pt h e size2 align2 ≢ 0
    → e + 56 ≤ elem_start_pt h e size2 align2

-- The pointers that a client owns and the heap, after any calls from `h0` on. The client frees only
-- what it owns, and asks for alignments that round to a power of two.
pub data Reach (lo : ℕ) (h0 : Heap) : (ℕ → Bool) → Heap → Type 0 where
  start : Reach lo h0 (λ _. false) h0
  allocates :
      {owned : ℕ → Bool} {h : Heap} (size align k : ℕ)
      → Reach lo h0 owned h
      → size ≢ 0
      → u32 (cache_line_roundup align) ≡ 2 ^ k
      → k < 32
      → 2 ^ k + 56 ≤ lo
      → IsLoose h (cache_line_roundup size) (2 ^ k)
      → Reach lo h0
          (λ q. not (q == 0) && (q == (heap_alloc h size align).0) || owned q)
          ((heap_alloc h size align).1)
  frees :
      {owned : ℕ → Bool} {h : Heap} (p : ℕ)
      → Reach lo h0 owned h
      → owned p ≡ true
      → Reach lo h0 (λ q. not (q == p) && owned q) (heap_free h p)

-- The heap is valid, and the owned pointers are those of the elements in use.
pub record IsServed (lo hi : ℕ) (owned : ℕ → Bool) (h : Heap) : Type 0 where
  pub live : ℕ → Bool
  pub valid : IsValid live lo hi h
  pub owns : (x : ℕ) → owned (x + 56) ≡ (live x && not (is_free (h.elems x).state))
  pub above : (p : ℕ) → owned p ≡ true → 56 ≤ p

slack_of :
    {live : ℕ → Bool} {lo hi : ℕ} {h : Heap} (size2 align2 : ℕ)
    → IsValid live lo hi h
    → IsLoose h size2 align2
    → HasSlack live h size2 align2
slack_of {h} size2 align2 v loose e l fr =
    let high = v.tiled.inside e l in
    let top = v.tiled.top in
    let i = malloc_elem_free_list_index (h.elems e).size in
    let lt : i < 13 = (malloc_elem_free_list_index-InClass (h.elems e).size (omega arith)).there in
    loose i e lt (ground (arith, v.listed.listed i e lt))

module _ (lo hi : ℕ) {owned : ℕ → Bool} {h : Heap} (s : IsServed lo hi owned h) where
  AllocOutcome-IsServed :
      (size2 k : ℕ) (r : ℕ × Heap)
      → AllocOutcome s.live lo hi h size2 k r
      → IsServed lo hi (λ q. not (q == 0) && (q == r.0) || owned q) (r.1)
  AllocOutcome-IsServed size2 k _ (AllocOutcome.refused none_fits) = record {
    live = s.live;
    valid = s.valid;
    owns = λ x. ground (arith, s.owns x);
    above = λ p o. ground (arith, s.above p);
  }
  AllocOutcome-IsServed size2 k _
        (AllocOutcome.given {h'} e p l fr fits fresh v' busy ends kept counted) =
      record {
        live = with_elem p s.live;
        valid = v';
        owns = λ x. elim (Bool-cases (x == p)) [
          | inl at ↦
              let e : x ≡ p = (==_iff x p).0 at in
              ground (arith, ap (λ (t : ℕ). is_free (h'.elems t).state) e)
          | inr away ↦ ground (arith, s.owns x, kept.kept x, kept.only x)
        ];
        above = λ q o. ground (arith, s.above q);
      }

  heap_free-IsServed :
      (p : ℕ) → owned p ≡ true → IsServed lo hi (λ q. not (q == p) && owned q) (heap_free h p)
  heap_free-IsServed p mine =
      let high = s.above p mine in
      let x = p - 56 in
      let e : p ≡ x + 56 = omega arith in
      let at : (s.live x ≡ true) × (is_free (h.elems x).state ≡ false) =
        ground (arith, s.owns x, ap owned e) in
      let f = heap_free-FreedWell s.live lo hi h s.valid x at.0 at.1 in
      rw e (record {
        live = f.live';
        valid = f.valid;
        owns = λ a. elim (Bool-cases (a == x)) [
          | inl same ↦ let e' : a ≡ x = (==_iff a x).0 same in ground (arith, f.only a)
          | inr away ↦ ground (arith, s.owns a, f.kept a, f.only a)
        ];
        above = λ q o. ground (arith, s.above q);
      })

-- From a valid heap without elements in use, any sequence of `heap_alloc` (sizes that are not 0;
-- alignments that round to a power of two `2 ^ k` with k below 32 and with `2 ^ k + 56` not above
-- the start of the area; no free element that fits the data too tightly for a header) and of
-- `heap_free` of pointers that the client owns leaves a valid heap, and the pointers owned are
-- exactly those of the elements in use.
pub Reach-IsServed :
    {lo hi : ℕ} {h0 : Heap} {owned : ℕ → Bool} {h : Heap}
    → IsServed lo hi (λ _. false) h0
    → Reach lo h0 owned h
    → IsServed lo hi owned h
Reach-IsServed s start = s
Reach-IsServed {lo} {hi} s (allocates {owned} {h} size align k r ne aligned small above loose) =
    let t = Reach-IsServed s r in
    AllocOutcome-IsServed lo hi t (cache_line_roundup size) k _ (
      heap_alloc-AllocOutcome t.live lo hi h t.valid (cache_line_roundup size) k small above
        (slack_of (cache_line_roundup size) (2 ^ k) t.valid loose) size align ne refl aligned)
Reach-IsServed {lo} {hi} s (frees p r mine) = heap_free-IsServed lo hi (Reach-IsServed s r) p mine

-- The data behind a pointer: how long it is.
abbrev pub data_len : Heap → ℕ → ℕ
data_len h p = (h.elems (p - 56)).size - 56

-- From a valid heap without elements in use, after any sequence of `heap_alloc` (sizes that are
-- not 0; alignments that round to a power of two `2 ^ k` with k below 32 and with `2 ^ k + 56` not
-- above the start of the area; no free element that fits the data too tightly for a header) and of
-- `heap_free` of pointers that the client owns, the data of two owned pointers lies in the area of
-- the heap, the one wholly below the header of the other.
pub owned_apart :
    {lo hi : ℕ} {h0 : Heap} {owned : ℕ → Bool} {h : Heap}
    → IsServed lo hi (λ _. false) h0
    → Reach lo h0 owned h
    → (p q : ℕ) → owned p ≡ true
    → owned q ≡ true
    → p < q
    → (lo + 56 ≤ p) × (p + data_len h p + 56 ≤ q) × (q + data_len h q ≤ hi)
owned_apart {lo} {owned} {h} s r p q mine_p mine_q lt =
    let t = Reach-IsServed s r in
    let k = t.valid.tiled in
    let high_p = t.above p mine_p in
    let high_q = t.above q mine_q in
    let x = p - 56 in
    let y = q - 56 in
    let ep : p ≡ x + 56 = omega arith in
    let eq : q ≡ y + 56 = omega arith in
    let live_x : t.live x ≡ true = ground (arith, t.owns x, ap owned ep) in
    let live_y : t.live y ≡ true = ground (arith, t.owns y, ap owned eq) in
    let wide_x = k.roomy x live_x in
    let wide_y = k.roomy y live_y in
    let low = k.above x live_x in
    let apart = k.apart x y live_x live_y (omega arith) in
    let inside = k.inside y live_y in omega arith
