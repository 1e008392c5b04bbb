-- ===== src/Memory/Split.antt =====
-- `split_elem` of malloc_elem.c on a tiled heap.
use dpdk_code_modify.Base.{
  ℕ, ◌+◌, ◌-◌, ◌^◌, ◌≤◌, ◌<◌, ◌≡◌, ◌≢◌, refl, Bool, true, false, ◌&&◌, ◌||◌, not, arith, ◌==◌,
  if◌then◌else◌, store, fun_ext, ap, ◌∙◌, dec_lt, Bool-cases, inl, inr,
}
use dpdk_code_modify.Base.Words.{sub64}
use dpdk_code_modify.Memory.Types.{elem_free, Elem, Heap}
use dpdk_code_modify.Memory.Elem.{split_elem, set_prev, set_next, set_size, malloc_elem_init}
use dpdk_code_modify.Memory.Inv.{IsTiled}

-- The addresses of the elements with one more.
abbrev pub with_elem : ℕ → (ℕ → Bool) → ℕ → Bool
with_elem p live a = a == p || live a

-- The elements after `split_elem`, cell by cell.
abbrev pub split_cells : Heap → ℕ → ℕ → ℕ → Elem
split_cells h e p a =
    let old = h.elems e in
    if e == a
    then record old { size = p - e; next = p }
    else if p == a
    then record { prev = e; next = old.next; state = elem_free; size = e + old.size - p }
    else if not (old.next == 0) && (old.next == a)
    then record (h.elems a) { prev = p }
    else h.elems a

abbrev put_elem : ℕ → Elem → Heap → Heap
put_elem p v h = record h { elems = store h.elems p v }

-- Successive stores to one element.
init_links :
    (p s v n : ℕ) (h : Heap)
    → set_next p n (set_prev p v (malloc_elem_init p s h))
      ≡ put_elem p (record { prev = v; next = n; state = elem_free; size = s }) h
unfolding set_next set_prev malloc_elem_init
init_links p s v n h = ap (λ (f : ℕ → Elem). record h { elems = f }) (fun_ext (λ a. ground arith))

resize :
    (e s n : ℕ) (h : Heap)
    → set_size e s (set_next e n h) ≡ put_elem e (record (h.elems e) { next = n; size = s }) h
unfolding set_next set_size
resize e s n h = ap (λ (f : ℕ → Elem). record h { elems = f }) (fun_ext (λ a. ground arith))

module _ (h : Heap) (e p : ℕ) (before : e < p) (inside : p ≤ e + (h.elems e).size)
    (top : e + (h.elems e).size < 2 ^ 64) where
  abbrev old : Elem
  old = h.elems e

  abbrev new : Elem
  new = record { prev = e; next = old.next; state = elem_free; size = e + old.size - p }

  abbrev linked : Heap
  linked =
      if old.next == 0
      then record (put_elem p new h) { last = p }
      else put_elem old.next (record ((put_elem p new h).elems old.next) { prev = p })
          (put_elem p new h)

  sizes : (sub64 p e ≡ p - e) × (sub64 old.size (p - e) ≡ e + old.size - p)
  sizes = omega arith

  split_elem_stores :
      split_elem e p h ≡ put_elem e (record (linked.elems e) { next = p; size = p - e }) linked
  unfolding split_elem set_prev
  split_elem_stores =
      rw (sizes.0, sizes.1, resize, init_links p (e + old.size - p) e old.next h) refl

  pub split_elem-cells :
      (a : ℕ) → old.next ≢ e → old.next ≢ p → (split_elem e p h).elems a ≡ split_cells h e p a
  split_elem-cells a ne np = ap (λ (x : Heap). x.elems a) split_elem_stores ∙ ground arith

-- What `split_elem` does to the other fields of the heap.
pub split_elem-rest :
    (h : Heap) (e p : ℕ)
    → let h' = split_elem e p h in
      (h'.first ≡ h.first)
      × (h'.last ≡ (if (h.elems e).next == 0 then p else h.last))
      × (h'.free_head ≡ h.free_head)
      × (h'.bytes ≡ h.bytes)
      × (h'.alloc_count ≡ h.alloc_count)
unfolding split_elem malloc_elem_init set_size set_prev set_next
split_elem-rest h e p = elim (Bool-cases ((h.elems e).next == 0)) [
  | inl last ↦ rw last (refl, refl, refl, refl, refl)
  | inr more ↦ rw more (refl, refl, refl, refl, refl)
]

module _ (live : ℕ → Bool) (lo hi : ℕ) (h : Heap) (k : IsTiled live lo hi h) (e p : ℕ)
    (here : live e ≡ true) (left : e + 56 ≤ p) (right : p + 56 ≤ e + (h.elems e).size) where
  -- The element behind `e` is none of those at hand.
  next_apart : ((h.elems e).next ≢ e) × ((h.elems e).next ≢ p)
  next_apart = elim (dec_lt (e + (h.elems e).size) hi) [
    | yes more ↦ let (l, n, b) = k.onward e here more in (ground arith, ground arith)
    | no last ↦
        let le = k.inside e here in
        let (n, b) = k.final e here (omega arith) in
        let pos = k.pos in let low = k.above e here in (ground arith, ground arith)
  ]

  pub fresh : live p ≡ false
  fresh = ground (arith, k.apart e p here)

  pub split_cells_lem : (a : ℕ) → (split_elem e p h).elems a ≡ split_cells h e p a
  split_cells_lem a =
      let le = k.inside e here in
      let top = k.top in
      split_elem-cells h e p (omega arith) (omega arith) (omega arith) a next_apart.0 next_apart.1

  module _ (h' : Heap) (cells : (a : ℕ) → h'.elems a ≡ split_cells h e p a)
      (same_first : h'.first ≡ h.first)
      (new_last : h'.last ≡ (if (h.elems e).next == 0 then p else h.last)) where
    cells_size :
        (a : ℕ) → live a ≡ true → (h'.elems a).size ≡ (if e == a then p - e else (h.elems a).size)
    cells_size a l = let f = fresh in ground (arith, cells a)

    at_p : h'.elems p ≡ record {
      prev = e;
      next = (h.elems e).next;
      state = elem_free;
      size = e + (h.elems e).size - p;
    }
    at_p = ground (arith, cells p)

    cells_next :
        (a : ℕ) → live a ≡ true → (h'.elems a).next ≡ (if e == a then p else (h.elems a).next)
    cells_next a l = let f = fresh in ground (arith, cells a)

    cells_prev :
        (a : ℕ)
        → live a ≡ true
        → (h'.elems a).prev
          ≡ (if not ((h.elems e).next == 0) && ((h.elems e).next == a) then p else (h.elems a).prev)
    cells_prev a l = let f = fresh in let n = next_apart.0 in ground (arith, cells a)

    -- The new elements side by side again.
    pub split-IsTiled : IsTiled (with_elem p live) lo hi h'
    split-IsTiled =
        let pos = k.pos in
        let top = k.top in
        let low = k.above e here in
        let high = k.inside e here in
        let f = fresh in
        let new_p = at_p in
        record {
          pos = pos;
          top = top;
          start = let l = k.start in ground arith;
          head = same_first ∙ k.head;
          front = ground (arith, cells_prev lo k.start, k.front, k.onward e here, k.final e here);
          above = λ a l. ground (arith, k.above a);
          roomy = λ a l. ground (arith, cells_size a, k.roomy a);
          inside = λ a l. ground (arith, cells_size a, k.inside a);
          apart = λ a b la lb lt.
              ground (arith, cells_size a, k.apart a b, k.apart a e, k.apart e b, k.apart e a);
          onward = λ a l more. elim (Bool-cases (a == p)) [
            | inl at ↦
                let q = e + (h.elems e).size in
                let whole : a + (h'.elems a).size ≡ q = ground arith in
                let (ln, nn, pn) = k.onward e here (omega arith) in
                rw whole (ground (arith, cells_prev q ln))
            | inr other ↦ elim (Bool-cases (e == a)) [
              | inl here_e ↦ ground (arith, cells_size a, cells_next a)
              | inr away ↦
                  let la : live a ≡ true = ground arith in
                  let whole : a + (h'.elems a).size ≡ a + (h.elems a).size =
                    ground (arith, cells_size a la) in
                  let (ln, nn, pn) = k.onward a la (omega arith) in
                  let q = a + (h.elems a).size in
                  rw whole (
                    ground
                      (arith, cells_next a la, cells_prev q ln, k.onward e here, k.final e here))
            ]
          ];
          final = λ a l e'. elim (Bool-cases (a == p)) [
            | inl at ↦
                let last : e + (h.elems e).size ≡ hi = ground arith in
                ground (arith, k.final e here last)
            | inr other ↦ elim (Bool-cases (e == a)) [
              | inl here_e ↦ absurd (ground (arith, cells_size a))
              | inr away ↦
                  let la : live a ≡ true = ground arith in
                  let same = cells_size a la in
                  let (na, le) = k.final a la (ground arith) in
                  ground (
                    arith,
                    cells_next a la,
                    k.apart a e la here,
                    k.apart e a here la,
                    k.onward e here,
                    k.roomy a la,
                  )
            ]
          ];
          back = λ a l lt. elim (Bool-cases (a == p)) [
            | inl at ↦ ground (arith, cells_size e here)
            | inr other ↦
                let la : live a ≡ true = ground arith in
                let (lb, eb) = k.back a la lt in
                let b = (h.elems a).prev in
                ground (
                  arith,
                  cells_prev a la,
                  cells_size b lb,
                  k.onward e here,
                  k.final e here,
                  k.onward b lb,
                  k.roomy a la,
                  k.inside a la,
                )
          ];
        }
