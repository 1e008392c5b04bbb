-- ===== src/Ring/Threads/Quiet.antt =====
-- Steps of a thread that change nothing the others see.
use dpdk_code_modify.Base.{ℕ, ◌≡◌, arith, store}
use dpdk_code_modify.Ring.Types.{Ring}
use dpdk_code_modify.Ring.Threads.{Pc, History}
use dpdk_code_modify.Ring.Threads.Inv.{makes, takes, IsFresh, Inv}

module _ {order : ℕ} {r : Ring} {g : History} {pc : ℕ → Pc} (inv : Inv order r g pc) (i : ℕ) where
  open inv use {shape, counts, filled, fresh, one_maker, one_taker, made, taken}

  -- The thread goes on, with the same elements in hand.
  pub quiet :
      {p : Pc} (p' : Pc)
      → pc i ≡ p
      → IsFresh r g p'
      → ((x : ℕ) → makes p' x ≡ makes p x)
      → ((x : ℕ) → takes p' x ≡ takes p x)
      → Inv order r g (store pc i p')
  quiet {p} p' here own same_m same_t = record {
    shape = shape;
    counts = counts;
    filled = filled;
    fresh = λ j. ground (arith, fresh j);
    one_maker = λ a b x qa qb. ground (arith, same_m x, one_maker a b x);
    one_taker = λ a b x qa qb. ground (arith, same_t x, one_taker a b x);
    made = λ x l u. let (j, q) = made x l u in (j, ground (arith, same_m x));
    taken = λ x l u. let (j, q) = taken x l u in (j, ground (arith, same_t x));
  }
