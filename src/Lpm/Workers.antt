-- ===== src/Lpm/Workers.antt =====
-- How many routes the threads of lpm/main.c have added.
use dpdk_code_modify.Base.{ℕ, zero, suc, ◌+◌, ◌*◌, ◌≤◌, ◌<◌, ◌≡◌, refl, arith, dec_lt, store}
use dpdk_code_modify.Lpm.Main.{Worker, ready, locked, added}

-- The routes that the thread has added.
abbrev pub finished : Worker → ℕ
finished (ready j) = j
finished (locked j) = j
finished (added j) = j + 1

abbrev pub IsBounded : Worker → Type 0
IsBounded (ready j) = j ≤ 255
IsBounded (locked j) = j < 255
IsBounded (added j) = j < 255

pub total : ℕ → (ℕ → Worker) → ℕ
total zero f = 0
total (suc n) f = total n f + finished (f n)

total-store_above :
    (n : ℕ) (f : ℕ → Worker) (i : ℕ) (w : Worker) → n ≤ i → total n (store f i w) ≡ total n f
unfolding total
total-store_above zero f i w h = refl
total-store_above (suc n) f i w h = ground (arith, total-store_above n f i w)

pub total-store :
    (n : ℕ) (f : ℕ → Worker) (i : ℕ) (w : Worker)
    → i < n
    → total n (store f i w) + finished (f i) ≡ total n f + finished w
unfolding total
total-store zero f i w h = absurd (omega arith)
total-store (suc n) f i w h = elim (dec_lt i n) [
  | yes below ↦ ground (arith, total-store n f i w below)
  | no last ↦ ground (arith, total-store_above n f i w)
]

pub finished-le : (w : Worker) → IsBounded w → finished w ≤ 255
finished-le (ready j) b = b
finished-le (locked j) b = omega arith
finished-le (added j) b = omega arith

pub total-le : (n : ℕ) (f : ℕ → Worker) → ((i : ℕ) → IsBounded (f i)) → total n f ≤ n * 255
unfolding total
total-le zero f b = omega arith
total-le (suc n) f b = omega (arith, total-le n f b, finished-le (f n) (b n))
