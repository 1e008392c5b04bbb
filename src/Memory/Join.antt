-- ===== src/Memory/Join.antt =====
-- `join_elem` of malloc_elem.c on a tiled heap.
use dpdk_code_modify.Base.{
  ℕ, ◌+◌, ◌^◌, ◌<◌, ◌≡◌, ◌≢◌, refl, Bool, true, ◌&&◌, not, arith, ◌==◌, if◌then◌else◌, ◌∙◌, dec_lt,
  Bool-cases, inl, inr,
}
use dpdk_code_modify.Base.Words.{add64}
use dpdk_code_modify.Memory.Types.{Elem, Heap}
use dpdk_code_modify.Memory.Elem.{join_elem, set_prev, set_next, set_size}
use dpdk_code_modify.Memory.Inv.{IsTiled}

-- The addresses of the elements without one.
abbrev pub without_elem : ℕ → (ℕ → Bool) → ℕ → Bool
without_elem p live a = not (a == p) && live a

-- The elements after `join_elem`, cell by cell.
abbrev pub join_cells : Heap → ℕ → ℕ → ℕ → Elem
join_cells h e p a =
    let next = (h.elems p).next in
    if e == a
    then record (h.elems e) { size = (h.elems e).size + (h.elems p).size; next = next }
    else if not (next == 0) && (next == a)
    then record (h.elems a) { prev = e }
    else h.elems a

join_elem-cells :
    (h : Heap) (e p a : ℕ)
    → (h.elems e).size + (h.elems p).size < 2 ^ 64
    → (h.elems p).next ≢ e
    → (join_elem e p h).elems a ≡ join_cells h e p a
unfolding join_elem set_size set_prev set_next
join_elem-cells h e p a word ne =
    let sum : add64 (h.elems e).size (h.elems p).size ≡ (h.elems e).size + (h.elems p).size =
      omega arith in
    rw sum (elim (Bool-cases ((h.elems p).next == 0)) [
      | inl last ↦ rw last (ground arith)
      | inr more ↦ rw more (ground arith)
    ])

-- What `join_elem` does to the other fields of the heap.
pub join_elem-rest :
    (h : Heap) (e p : ℕ)
    → let h' = join_elem e p h in
      (h'.first ≡ h.first)
      × (h'.last ≡ (if (h.elems p).next == 0 then e else h.last))
      × (h'.free_head ≡ h.free_head)
      × (h'.bytes ≡ h.bytes)
      × (h'.alloc_count ≡ h.alloc_count)
unfolding join_elem set_size set_prev set_next
join_elem-rest h e p = elim (Bool-cases ((h.elems p).next == 0)) [
  | inl last ↦ rw last (refl, refl, refl, refl, refl)
  | inr more ↦ rw more (refl, refl, refl, refl, refl)
]

module _ (live : ℕ → Bool) (lo hi : ℕ) (h : Heap) (k : IsTiled live lo hi h) (e p : ℕ)
    (here : live e ≡ true) (there : live p ≡ true) (near : e + (h.elems e).size ≡ p) where
  next_apart : (h.elems p).next ≢ e
  next_apart =
      let wide = k.roomy e here in
      elim (dec_lt (p + (h.elems p).size) hi) [
        | yes more ↦ let (l, n, b) = k.onward p there more in ground arith
        | no last ↦
            let le = k.inside p there in
            let (n, b) = k.final p there (omega arith) in
            let pos = k.pos in let low = k.above e here in ground arith
      ]

  pub join_cells_lem : (a : ℕ) → (join_elem e p h).elems a ≡ join_cells h e p a
  join_cells_lem a =
      let le = k.inside p there in
      let top = k.top in join_elem-cells h e p a (omega arith) next_apart

  module _ (h' : Heap) (cells : (a : ℕ) → h'.elems a ≡ join_cells h e p a)
      (same_first : h'.first ≡ h.first)
      (new_last : h'.last ≡ (if (h.elems p).next == 0 then e else h.last)) where
    cells_size :
        (a : ℕ)
        → (h'.elems a).size
          ≡ (if e == a then (h.elems e).size + (h.elems p).size else (h.elems a).size)
    cells_size a = ground (arith, cells a)

    cells_next :
        (a : ℕ) → (h'.elems a).next ≡ (if e == a then (h.elems p).next else (h.elems a).next)
    cells_next a = ground (arith, cells a)

    cells_prev :
        (a : ℕ)
        → (h'.elems a).prev
          ≡ (if not ((h.elems p).next == 0) && ((h.elems p).next == a) then e else (h.elems a).prev)
    cells_prev a = let n = next_apart in ground (arith, cells a)

    -- The remaining elements side by side.
    pub join-IsTiled : IsTiled (without_elem p live) lo hi h'
    join-IsTiled =
        let pos = k.pos in
        let top = k.top in
        let low = k.above e here in
        let high = k.inside p there in
        let wide = k.roomy e here in
        let wide_p = k.roomy p there in
        record {
          pos = pos;
          top = top;
          start = let l = k.start in ground arith;
          head = same_first ∙ k.head;
          front = ground (arith, cells_prev lo, k.front, k.onward p there, k.final p there);
          above = λ a l. ground (arith, k.above a);
          roomy = λ a l. ground (arith, cells_size a, k.roomy a);
          inside = λ a l. ground (arith, cells_size a, k.inside a);
          apart = λ a b la lb lt.
              ground (arith, cells_size a, k.apart a b, k.apart p b, k.apart b p, k.roomy b);
          onward = λ a l more. elim (Bool-cases (e == a)) [
            | inl at ↦
                let q = p + (h.elems p).size in
                let whole : a + (h'.elems a).size ≡ q = ground (arith, cells_size a) in
                let (ln, nn, pn) = k.onward p there (omega arith) in
                rw whole (ground (arith, cells_next a, cells_prev q))
            | inr away ↦
                let la : live a ≡ true = ground arith in
                let whole : a + (h'.elems a).size ≡ a + (h.elems a).size =
                  ground (arith, cells_size a) in
                let (ln, nn, pn) = k.onward a la (omega arith) in
                let q = a + (h.elems a).size in
                rw whole (
                  ground (
                    arith,
                    cells_next a,
                    cells_prev q,
                    k.onward p there,
                    k.onward e here,
                    k.final p there,
                  ))
          ];
          final = λ a l e'. elim (Bool-cases (e == a)) [
            | inl at ↦ ground (arith, cells_size a, cells_next a, k.final p there)
            | inr away ↦
                let la : live a ≡ true = ground arith in
                let same = cells_size a in
                let (na, le) = k.final a la (ground arith) in
                ground (
                  arith,
                  cells_next a,
                  k.apart a p la there,
                  k.apart p a there la,
                  k.onward p there,
                  k.roomy a la,
                )
          ];
          back = λ a l lt.
              let la : live a ≡ true = ground arith in
              let (lb, eb) = k.back a la lt in
              let b = (h.elems a).prev in
              ground (
                arith,
                cells_prev a,
                cells_size b,
                cells_size e,
                k.onward p there,
                k.final p there,
                k.onward b lb,
                k.roomy a la,
                k.inside a la,
              );
        }
