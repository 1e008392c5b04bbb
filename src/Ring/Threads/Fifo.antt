-- ===== src/Ring/Threads/Fifo.antt =====
-- The queue that the threads share, read from the slots.
use native.Mathlib.Nat.{mod-add-mod}
use dpdk_code_modify.Base.{
  ℕ, zero, suc, ◌+◌, ◌-◌, ◌%◌, ◌^◌, ◌≤◌, ◌<◌, ◌≡◌, refl, sym, ap, ap₂, ◌∙◌, List, ◌∷◌, ◌++◌, length,
  arith,
}
use dpdk_code_modify.Base.Words.{sub32}
use dpdk_code_modify.Ring.Types.{Ring}
use dpdk_code_modify.Ring.Shape.{shape_bounds, wrapped}
use dpdk_code_modify.Ring.Inv.{IsValid}
use dpdk_code_modify.Ring.Window.{window, taken}
use dpdk_code_modify.Ring.Threads.{
  Pc, idle, p_copy, c_ready, c_copy, History, Move, prod_copy, prod_publish, cons_win, System,
  Reach, initial,
}
use dpdk_code_modify.Ring.Threads.Inv.{MayTake, Making, IsFresh, Inv}
use dpdk_code_modify.Ring.Threads.Publish.{at_tail}
use dpdk_code_modify.Ring.Threads.ConsHead.{at_cons_head}
use dpdk_code_modify.Ring.Threads.Moves.{Move-Inv, Reach-Inv}

-- The elements from the consumers' head to the producers' tail, as the words and the slots have them.
abbrev pub shared : Ring → List ℕ
shared r = window r.size r.slots (r.cons.head % r.size) (sub32 r.prod.tail r.cons.head)

-- What the queue of at most `cap` elements does when a thread goes on from `p` to `p'`. The end of an
-- enqueue appends the elements of its table; a dequeue that moves the head by `n` takes the first `n`;
-- all else leaves the queue alone.
abbrev pub QueueStep : ℕ → Pc → Pc → List ℕ → List ℕ → Type 0
QueueStep cap (p_copy obj _ _ n _) idle q q' = (length q + n ≤ cap) × (q' ≡ q ++ taken obj 0 n)
QueueStep cap (c_ready _ _ _ _ n _) (c_copy _ _ _ _ _) q q' =
    (xs : List ℕ) × (length xs ≡ n) × (q ≡ xs ++ q')
QueueStep cap _ _ q q' = q' ≡ q

taken-append : (f : ℕ → ℕ) (i a b : ℕ) → taken f i (a + b) ≡ taken f i a ++ taken f (i + a) b
taken-append f i zero b = ap₂ (λ (x y : ℕ). taken f x y) (omega arith) (omega arith)
taken-append f i (suc a) b =
    let e : suc a + b ≡ suc (a + b) = omega arith in
    let e' : i + suc a ≡ i + 1 + a = omega arith in
    rw (e, e') (ap (λ (xs : List ℕ). f i ∷ xs) (taken-append f (i + 1) a b))

taken-eq :
    (f h : ℕ → ℕ) (i k n : ℕ)
    → ((j : ℕ) → j < n → f (i + j) ≡ h (k + j))
    → taken f i n ≡ taken h k n
taken-eq f h i k zero e = refl
taken-eq f h i k (suc n) e =
    ap₂ ◌∷◌ (ground (arith, e 0))
      (taken-eq f h (i + 1) (k + 1) n (λ j l. ground (arith, e (j + 1))))

length-taken : (f : ℕ → ℕ) (i n : ℕ) → length (taken f i n) ≡ n
length-taken f i zero = refl
length-taken f i (suc n) = omega (arith, length-taken f (i + 1) n)

-- A window whose slots hold a stretch of the log.
window-taken :
    (size : ℕ) (m log : ℕ → ℕ) (x n : ℕ)
    → ((j : ℕ) → j < n → m ((x + j) % size) ≡ log (x + j))
    → window size m (x % size) n ≡ taken log x n
window-taken size m log x zero e = refl
window-taken size m log x (suc n) e =
    let here : m (x % size) ≡ log x = ground (arith, e 0) in
    ap₂ ◌∷◌ here (
      ap (λ (t : ℕ). window size m t n) (mod-add-mod x size 1)
      ∙ window-taken size m log (x + 1) n (λ j l. ground (arith, e (j + 1))))

-- The slots between the consumers' head and the producers' tail hold the log.
shared-log :
    {order : ℕ} {r : Ring} {g : History} {pc : ℕ → Pc}
    → Inv order r g pc
    → shared r ≡ taken g.log g.cons_head (g.prod_tail - g.cons_head)
shared-log {r} {g} inv =
    ap₂ (λ (i n : ℕ). window r.size r.slots i n)
      (ap (λ (t : ℕ). t % r.size) counts.cons_head_word ∙ wrapped shape g.cons_head) many
    ∙ window-taken r.size r.slots g.log g.cons_head (g.prod_tail - g.cons_head) (λ j l.
      filled (g.cons_head + j) (omega (arith, counts.taking)) (omega (arith, counts.visible)))
  where
    open inv use {shape, counts, filled}

    many : sub32 r.prod.tail r.cons.head ≡ g.prod_tail - g.cons_head
    many = omega (
      arith,
      counts.prod_tail_word,
      counts.cons_head_word,
      counts.taking,
      counts.visible,
      counts.making,
      counts.fits,
      shape.spare,
      shape_bounds shape,
    )

module _ {order : ℕ} {r : Ring} {g : History} {pc : ℕ → Pc} (inv : Inv order r g pc) (i : ℕ) where
  open inv use {counts}

  -- A producer's `n` elements become visible.
  published :
      (obj : ℕ → ℕ) (old seen n : ℕ) {r' : Ring} {pc' : ℕ → Pc}
      → Making r g obj old seen n n
      → pc i ≡ p_copy obj old seen n n
      → r.prod.tail ≡ old
      → Inv order r' (record g { prod_tail = g.prod_tail + n }) pc'
      → (length (shared r) + n ≤ r.capacity) × (shared r' ≡ shared r ++ taken obj 0 n)
  published obj old seen n own here turn inv' = (
    omega (
      arith,
      ap length (shared-log inv),
      length-taken g.log g.cons_head (g.prod_tail - g.cons_head),
      tail,
      own.upto,
      counts.fits,
      counts.taking,
      counts.visible,
    ),
    shared-log inv'
        ∙ ap (taken g.log g.cons_head) (omega (arith, counts.visible))
        ∙ taken-append g.log g.cons_head (g.prod_tail - g.cons_head) n
        ∙ ap₂ (λ (xs ys : List ℕ). xs ++ ys) (sym (shared-log inv))
            (taken-eq g.log obj (g.cons_head + (g.prod_tail - g.cons_head)) 0 n (λ j l. sent j l)),
  )
    where
      tail : seen ≡ g.prod_tail
      tail = at_tail inv i obj old seen n own here turn

      sent : (j : ℕ) → j < n → g.log (g.cons_head + (g.prod_tail - g.cons_head) + j) ≡ obj (0 + j)
      sent j l =
          ap g.log (omega (arith, counts.visible, tail)) ∙ sym (own.sent j l) ∙ ap obj (omega arith)

  -- A consumer's head moves over `n` elements.
  removed :
      (old seen n : ℕ) {r' : Ring} {pc' : ℕ → Pc}
      → MayTake g old seen n
      → r.cons.head ≡ old
      → g.cons_head < seen + 2 ^ 32
      → Inv order r' (record g { cons_head = g.cons_head + n }) pc'
      → (xs : List ℕ) × (length xs ≡ n) × (shared r ≡ xs ++ shared r')
  removed old seen n f e near inv' = (
    taken g.log g.cons_head n,
    length-taken g.log g.cons_head n,
    shared-log inv
        ∙ ap (taken g.log g.cons_head)
            (omega (arith, at_cons_head inv i old seen n f e near, f.ready))
        ∙ taken-append g.log g.cons_head n (g.prod_tail - (g.cons_head + n))
        ∙ ap (λ (ys : List ℕ). taken g.log g.cons_head n ++ ys) (sym (shared-log inv')),
  )

  steps :
      {p p' : Pc} {r' : Ring} {g' : History} {pc' : ℕ → Pc}
      → pc i ≡ p
      → IsFresh r g p
      → Move r g p r' g' p'
      → Inv order r' g' pc'
      → QueueStep r.capacity p p' (shared r) (shared r')
  steps here f (prod_copy lt) inv' = shared-log inv' ∙ sym (shared-log inv)
  steps here f (prod_publish {obj} {old} {seen} {n} e) inv' = published obj old seen n f here e inv'
  steps here f (cons_win {old} {seen} {n} e near) inv' = removed old seen n f e near inv'
  steps here f mv inv' = refl

-- From a valid ring on which no thread is in a call, in every state that steps of producers and
-- consumers in the multi-thread mode reach, each further step of a thread acts on the queue of the
-- elements in the slots from the consumers' head to the producers' tail: the step that ends an
-- enqueue of `n` elements appends the `n` elements of its table, in order, and the queue then has
-- at most `capacity`; the step by which a dequeue moves the head by `n` takes the first `n`
-- elements; every other step leaves the queue as it is.
pub Move-QueueStep :
    {order : ℕ} {r0 : Ring} {s : System}
    → IsValid order r0
    → Reach (initial r0) s
    → (i : ℕ) {r : Ring} {g : History} {p : Pc} → Move s.ring s.hist (s.pc i) r g p
    → QueueStep s.ring.capacity (s.pc i) p (shared s.ring) (shared r)
Move-QueueStep v run i mv =
    let inv = Reach-Inv v run in
    steps inv i refl (inv.fresh i) mv (Move-Inv inv i refl (inv.fresh i) mv)
