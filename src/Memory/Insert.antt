-- ===== src/Memory/Insert.antt =====
-- The walks of `malloc_elem_insert` of malloc_elem.c on a chain of elements.
use dpdk_code_modify.Base.{
  ℕ, zero, suc, ◌+◌, ◌≤◌, ◌<◌, ◌≡◌, ◌≢◌, refl, ◌∙◌, Bool, true, false, some, arith, ltb, ◌==◌,
  Bool-cases, inl, inr, dec_lt, lt→ltb, le→not-ltb, ne→not-==,
}
use dpdk_code_modify.Base.Words.{sub64}
use dpdk_code_modify.Memory.Types.{Heap}
use dpdk_code_modify.Memory.Elem.{
  set_next, set_prev, walk_up, walk_down, link_between, insert_inside, malloc_elem_insert,
}
use dpdk_code_modify.Memory.Inv.{IsTiled}

-- Two elements that follow each other, with an address between them.
pub record IsBetween (live : ℕ → Bool) (h : Heap) (elem p n : ℕ) : Type 0 where
  pub before : live p ≡ true
  pub after : live n ≡ true
  pub low : p ≤ elem
  pub high : elem ≤ n
  pub onward : (h.elems p).next ≡ n
  pub back : (h.elems n).prev ≡ p

-- The heap `h'` is `h` with `elem` linked in between `p` and `n`, and is else the same.
pub record IsInserted (h : Heap) (elem p n : ℕ) (h' : Heap) : Type 0 where
  pub to_elem : (h'.elems p).next ≡ elem
  pub from_elem : (h'.elems elem).next ≡ n
  pub to_prev : (h'.elems elem).prev ≡ p
  pub from_next : (h'.elems n).prev ≡ elem
  pub nexts : (x : ℕ) → x ≢ p → x ≢ elem → (h'.elems x).next ≡ (h.elems x).next
  pub prevs : (x : ℕ) → x ≢ n → x ≢ elem → (h'.elems x).prev ≡ (h.elems x).prev
  pub sizes : (x : ℕ) → (h'.elems x).size ≡ (h.elems x).size
  pub states : (x : ℕ) → (h'.elems x).state ≡ (h.elems x).state
  pub ends : (h'.first ≡ h.first) × (h'.last ≡ h.last)
  pub lists : h'.free_head ≡ h.free_head

link_between-IsInserted :
    (h : Heap) (p elem n : ℕ)
    → 0 < p
    → p < elem
    → elem < n
    → IsInserted h elem p n (link_between p elem n h)
unfolding link_between set_next set_prev
link_between-IsInserted h p elem n pos low high =
    rw (ne→not-== p 0 (omega arith), ne→not-== n 0 (omega arith))
      (record {
        to_elem = ground arith;
        from_elem = ground arith;
        to_prev = ground arith;
        from_next = ground arith;
        nexts = λ x a b. ground arith;
        prevs = λ x a b. ground arith;
        sizes = λ x. ground arith;
        states = λ x. ground arith;
        ends = (refl, refl);
        lists = refl;
      })

module _ (live : ℕ → Bool) (lo hi : ℕ) (h : Heap) (k : IsTiled live lo hi h)
    (last_live : live h.last ≡ true) (elem : ℕ) (inside : lo < elem) (under : elem ≤ h.last) where
  -- An element below the last one has a next one, which has it as previous one.
  follows :
      (p : ℕ)
      → live p ≡ true
      → p < h.last
      → (live (h.elems p).next ≡ true)
        × (p + 56 ≤ (h.elems p).next)
        × ((h.elems (h.elems p).next).prev ≡ p)
  follows p l lt =
      let wide = k.roomy p l in
      let ends = k.inside p l in
      elim (dec_lt (p + (h.elems p).size) hi) [
        | yes more ↦ let (l', e, b) = k.onward p l more in rw e (l', omega arith, b)
        | no whole ↦ let (e, at) = k.final p l (omega arith) in absurd (omega arith)
      ]

  walk_up-IsBetween :
      (fuel p : ℕ)
      → live p ≡ true
      → p < elem
      → elem ≤ p + fuel
      → (q : ℕ) × (walk_up fuel h p elem ≡ some q) × IsBetween live h elem q (h.elems q).next
  unfolding walk_up
  walk_up-IsBetween zero p l lt enough = absurd (omega arith)
  walk_up-IsBetween (suc fuel) p l lt enough =
      let (l', wide, b) = follows p l (omega arith) in
      elim (dec_lt (h.elems p).next elem) [
        | yes more ↦
            let (q, e, at) = walk_up-IsBetween fuel (h.elems p).next l' more (omega arith) in
            (q, rw (lt→ltb (h.elems p).next elem more, walk_up) e, at)
        | no stop ↦ (
          p,
          rw (le→not-ltb (h.elems p).next elem (omega arith), walk_up) refl,
          record {
            before = l;
            after = l';
            low = omega arith;
            high = omega arith;
            onward = refl;
            back = b;
          },
        )
      ]

  walk_down-IsBetween :
      (fuel n : ℕ)
      → live n ≡ true
      → elem ≤ n
      → n < elem + fuel
      → (q : ℕ) × (walk_down fuel h n elem ≡ some q) × IsBetween live h elem (h.elems q).prev q
  unfolding walk_down
  walk_down-IsBetween zero n l le enough = absurd (omega arith)
  walk_down-IsBetween (suc fuel) n l le enough =
      let p = (h.elems n).prev in
      let (l', e) = k.back n l (omega arith) in
      let wide = k.roomy p l' in
      let wide' = k.roomy n l in
      let ends = k.inside n l in
      elim (dec_lt elem p) [
        | yes more ↦
            let (q, found, at) = walk_down-IsBetween fuel p l' (omega arith) (omega arith) in
            (q, rw (lt→ltb elem p more, walk_down) found, at)
        | no stop ↦
            let (l'', next, b) = k.onward p l' (omega arith) in
            (
              n,
              rw (le→not-ltb elem p (omega arith), walk_down) refl,
              record {
                before = l';
                after = l;
                low = omega arith;
                high = le;
                onward = next ∙ e;
                back = refl;
              },
            )
      ]

  found_place :
      (fuel : ℕ)
      → hi ≤ fuel
      → (p n : ℕ) × (malloc_elem_insert fuel elem h ≡ some (link_between p elem n h))
        × IsBetween live h elem p n
  unfolding malloc_elem_insert insert_inside
  found_place fuel enough =
      let pos = k.pos in
      let head = k.head in
      let ends = k.inside h.last last_live in
      let wide = k.roomy h.last last_live in
      let first_real : (h.first == 0) ≡ false = ne→not-== h.first 0 (omega arith) in
      let last_real : (h.last == 0) ≡ false = ne→not-== h.last 0 (omega arith) in
      let not_low : ltb elem h.first ≡ false = le→not-ltb elem h.first (omega arith) in
      let not_high : ltb h.last elem ≡ false = le→not-ltb h.last elem under in
      elim (Bool-cases (ltb (sub64 elem h.first) (sub64 h.last elem))) [
        | inl near_first ↦
            let (q, found, at) =
              walk_up-IsBetween fuel h.first (rw head k.start) (omega arith) (omega arith) in
            (
              q,
              (h.elems q).next,
              rw (first_real, last_real, not_low, not_high, near_first, found) refl,
              at,
            )
        | inr near_last ↦
            let (q, found, at) = walk_down-IsBetween fuel h.last last_live under (omega arith) in
            (
              (h.elems q).prev,
              q,
              rw (first_real, last_real, not_low, not_high, near_last, found) refl,
              at,
            )
      ]

  -- On a chain of elements that tile the area, for an address above the first element and not
  -- above the last that is no element of the chain, the walk of `malloc_elem_insert` ends, from
  -- either side, with as much fuel as the address at which the area ends. There are two elements
  -- that follow each other, the one below the address and the other above it; the address is
  -- linked between them in both directions, and all other links, every size and state, the ends of
  -- the chain and the free lists are as before.
  pub malloc_elem_insert-IsInserted :
      live elem ≡ false
      → (fuel : ℕ) → hi ≤ fuel
      → (p n : ℕ) × (h' : Heap) × (malloc_elem_insert fuel elem h ≡ some h')
        × IsBetween live h elem p n
        × IsInserted h elem p n h'
  malloc_elem_insert-IsInserted fresh fuel enough =
      let (p, n, e, at) = found_place fuel enough in
      let from = k.above p at.before in
      let pos = k.pos in
      let below : p < elem = ground (arith, at.low, at.before, fresh) in
      let above : elem < n = ground (arith, at.high, at.after, fresh) in
      (
        p,
        n,
        link_between p elem n h,
        e,
        at,
        link_between-IsInserted h p elem n (omega arith) below above,
      )
