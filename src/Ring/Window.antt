-- ===== src/Ring/Window.antt =====
-- The words that lie from an index on round a ring, and what the plain copy does to them.
use native.Mathlib.Nat.{mod-eq_of_lt, mod-lt, mod-add-mod, mod-eq-sub-mod, add-zero, suc-add}
use mathlib.Core.List.{append_assoc, append-nil}
use dpdk_code_modify.Base.{
  ℕ, zero, suc, ◌+◌, ◌-◌, ◌%◌, ◌≤◌, ◌<◌, ◌≡◌, ◌≢◌, refl, sym, ◌∙◌, ap, ap₂, List, [], ◌∷◌, ◌++◌,
  arith, dec_lt, store,
}
use dpdk_code_modify.Ring.Copy.Around.{around}
use dpdk_code_modify.Ring.Ops.{put_word, get_word}

-- `obj[i], obj[i + 1], ..`, `k` words.
abbrev pub taken : (ℕ → ℕ) → ℕ → ℕ → List ℕ
taken obj i zero = []
taken obj i (suc k) = obj i ∷ taken obj (i + 1) k

module _ (size : ℕ) where
  -- The next index round the ring, and the index after `k` of those.
  abbrev pub next : ℕ → ℕ
  next idx = (idx + 1) % size

  abbrev pub window : (ℕ → ℕ) → ℕ → ℕ → List ℕ
  window m idx zero = []
  window m idx (suc k) = m idx ∷ window m (next idx) k

  next-lt : (idx : ℕ) → idx < size → next idx < size
  next-lt idx l = mod-lt (idx + 1) (omega arith)

  next_shift : (idx h : ℕ) → (next idx + h) % size ≡ (idx + suc h) % size
  next_shift idx h = mod-add-mod (idx + 1) size h ∙ ap (λ (t : ℕ). t % size) (omega arith)

  -- Fewer than `size` steps do not come back to the start.
  round_ne : (idx h : ℕ) → idx < size → suc h < size → (idx + suc h) % size ≢ idx
  round_ne idx h l s = elim (dec_lt (idx + suc h) size) [
    | yes p ↦ omega (arith, mod-eq_of_lt {n = idx + suc h} {m = size} p)
    | no p ↦ omega (
      arith,
      mod-eq-sub-mod {n = idx + suc h} {m = size} (omega arith),
      mod-eq_of_lt {n = idx + suc h - size} {m = size} (omega arith),
    )
  ]

  pub window-append :
      (m : ℕ → ℕ) (idx h k : ℕ)
      → idx < size
      → window m idx (h + k) ≡ window m idx h ++ window m ((idx + h) % size) k
  window-append m idx zero k l =
      ap₂ (λ (i t : ℕ). window m i t)
        (sym (mod-eq_of_lt l) ∙ ap (λ (t : ℕ). t % size) (omega arith)) (omega arith)
  window-append m idx (suc h) k l = rw suc-add (
      ap (λ (xs : List ℕ). m idx ∷ xs)
        (window-append m (next idx) h k (next-lt idx l)
          ∙ ap (λ (t : ℕ). window m (next idx) h ++ window m t k) (next_shift idx h)))

  -- Writing just behind a window appends the word.
  pub window-store :
      (m : ℕ → ℕ) (idx h v : ℕ)
      → idx < size
      → h < size
      → window (store m ((idx + h) % size) v) idx (suc h) ≡ window m idx h ++ v ∷ []
  window-store m idx zero v l s =
      let e : (idx + 0) % size ≡ idx = rw add-zero (mod-eq_of_lt l) in rw e (ground arith)
  window-store m idx (suc h) v l s = ap₂ ◌∷◌ (ground (arith, round_ne idx h l s)) (
      ap (λ (w : ℕ). window (store m w v) (next idx) (suc h)) (sym (next_shift idx h))
      ∙ window-store m (next idx) h v (next-lt idx l) (omega arith))

  -- Copying `k` words of a table in behind a window appends them.
  pub window-around_put :
      (obj : ℕ → ℕ) (k i : ℕ) (m : ℕ → ℕ) (idx h : ℕ)
      → idx < size
      → h + k ≤ size
      → window (around (put_word obj) size k i ((idx + h) % size) m) idx (h + k)
        ≡ window m idx h ++ taken obj i k
  unfolding around
  window-around_put obj zero i m idx h l s = rw (add-zero, append-nil)
  window-around_put obj (suc k) i m idx h l s =
      let at = (idx + h) % size in
      let m' = store m at (obj i) in
      let onward : next at ≡ (idx + suc h) % size =
        mod-add-mod (idx + h) size 1 ∙ ap (λ (t : ℕ). t % size) (omega arith) in
      let longer : h + suc k ≡ suc h + k = omega arith in
      ap₂ (λ (w n : ℕ). window (around (put_word obj) size k (i + 1) w m') idx n) onward longer
      ∙ window-around_put obj k (i + 1) m' idx (suc h) l (omega arith)
      ∙ ap (λ (xs : List ℕ). xs ++ taken obj (i + 1) k)
          (window-store m idx h (obj i) l (omega arith))
      ∙ append_assoc (window m idx h) (obj i ∷ []) (taken obj (i + 1) k)

  -- Copying `k` words out of the ring gives the window, and spares the cells before.
  around_get_spares :
      (m : ℕ → ℕ) (k i idx : ℕ) (out : ℕ → ℕ) (j : ℕ)
      → j < i
      → around (get_word m) size k i idx out j ≡ out j
  unfolding around
  around_get_spares m zero i idx out j l = refl
  around_get_spares m (suc k) i idx out j l =
      ground (arith, around_get_spares m k (i + 1) (next idx) (store out i (m idx)) j)

  pub around_get_beyond :
      (m : ℕ → ℕ) (k i idx : ℕ) (out : ℕ → ℕ) (j : ℕ)
      → i + k ≤ j
      → around (get_word m) size k i idx out j ≡ out j
  unfolding around
  around_get_beyond m zero i idx out j l = refl
  around_get_beyond m (suc k) i idx out j l =
      ground (arith, around_get_beyond m k (i + 1) (next idx) (store out i (m idx)) j)

  pub taken-around_get :
      (m : ℕ → ℕ) (k i idx : ℕ) (out : ℕ → ℕ)
      → taken (around (get_word m) size k i idx out) i k ≡ window m idx k
  unfolding around
  taken-around_get m zero i idx out = refl
  taken-around_get m (suc k) i idx out =
      ap₂ ◌∷◌
        (around_get_spares m k (i + 1) (next idx) (store out i (m idx)) i (omega arith)
          ∙ ground arith)
        (taken-around_get m k (i + 1) (next idx) (store out i (m idx)))
