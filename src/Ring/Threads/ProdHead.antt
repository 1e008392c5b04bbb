-- ===== src/Ring/Threads/ProdHead.antt =====
-- A producer moves the head: `__rte_ring_move_prod_head` of ring/ring.c.
use dpdk_code_modify.Base.{ℕ, ◌+◌, ◌^◌, ◌≤◌, ◌<◌, ◌≡◌, true, false, arith, store, dec_lt}
use dpdk_code_modify.Base.Words.{add32}
use dpdk_code_modify.Ring.Types.{Ring}
use dpdk_code_modify.Ring.Threads.{
  Pc, idle, p_loop, p_head, p_ready, p_copy, c_loop, c_head, c_ready, c_copy, History, logged,
}
use dpdk_code_modify.Ring.Threads.Inv.{makes, takes, Counts, MayMake, Making, IsFresh, Inv}

module _ {order : ℕ} {r : Ring} {g : History} {pc : ℕ → Pc} (inv : Inv order r g pc) (i : ℕ) where
  open inv use {shape, counts, filled, fresh, one_maker, one_taker, made, taken}

  module _ (obj : ℕ → ℕ) (old seen n : ℕ) where
    abbrev pub ring_made : Ring
    ring_made = record r { prod = record (r.prod) { head = add32 old n } }

    abbrev pub hist_made : History
    hist_made = record g { prod_head = g.prod_head + n; log = logged obj g.prod_head n g.log }

    module _ {tail : ℕ} (own : MayMake r g old seen n tail) (win : r.prod.head ≡ old)
        (near : g.prod_head < seen + 2 ^ 32) where
      pub at_head : seen ≡ g.prod_head
      at_head = omega (arith, own.word, own.seen_le, counts.prod_head_word)

      pub made_fits : g.prod_head + n ≤ g.cons_tail + r.capacity
      made_fits =
          omega
            (arith, at_head, own.free, own.tail_le, counts.taking, counts.visible, counts.making)

      made-Counts : Counts ring_made hist_made
      made-Counts = record {
        prod_head_word = omega (arith, at_head, own.word);
        prod_tail_word = counts.prod_tail_word;
        cons_head_word = counts.cons_head_word;
        cons_tail_word = counts.cons_tail_word;
        taking = counts.taking;
        visible = counts.visible;
        making = omega (arith, counts.making);
        fits = made_fits;
      }

      -- The log is as before up to the old head.
      pub same_log : (x : ℕ) → x < g.prod_head → hist_made.log x ≡ g.log x
      same_log x l = ground arith

      pub new_log : (j : ℕ) → j < n → obj j ≡ hist_made.log (seen + j)
      new_log j l = ground (arith, at_head)

      keep : (q : Pc) → IsFresh r g q → IsFresh ring_made hist_made q
      keep (p_head _ _ _ _ _) f = (f.0, omega (arith, f.1))
      keep (p_ready _ _ _ _ _ _ _) f = record {
        word = f.word;
        seen_le = omega (arith, f.seen_le);
        tail_le = f.tail_le;
        some_n = f.some_n;
        free = f.free;
      }
      keep (p_copy _ _ s m _) f = record {
        word = f.word;
        some_n = f.some_n;
        i_le = f.i_le;
        from = f.from;
        upto = omega (arith, f.upto);
        sent = λ j l. ground (arith, f.sent j l, f.upto, same_log (s + j));
        stored = f.stored;
      }
      keep (c_copy _ s m _ _) f = record {
        word = f.word;
        some_n = f.some_n;
        i_le = f.i_le;
        from = f.from;
        upto = f.upto;
        read = λ j l.
            ground
              (arith, f.read j l, f.upto, f.i_le, counts.visible, counts.making, same_log (s + j));
      }
      keep (c_head _ _ _ _) f = f
      keep (c_ready _ _ _ _ _ _) f = record {
        word = f.word;
        seen_le = f.seen_le;
        some_n = f.some_n;
        ready = f.ready;
      }
      keep idle f = f
      keep (p_loop _ _ _) f = f
      keep (c_loop _ _) f = f

      made-Making : Making ring_made hist_made obj old seen n 0
      made-Making = record {
        word = own.word;
        some_n = own.some_n;
        i_le = omega arith;
        from = omega (arith, at_head, counts.making);
        upto = omega (arith, at_head);
        sent = new_log;
        stored = λ j l. absurd (omega arith);
      }

      -- What any thread has in hand lies below the old head.
      below : (q : Pc) (x : ℕ) → IsFresh r g q → makes q x ≡ true → x < g.prod_head
      below (p_copy _ _ s m _) x f e = ground (arith, f.upto)
      below q x f e = ground arith

      pub make :
          {p : Pc}
          → pc i ≡ p
          → ((x : ℕ) → makes p x ≡ false)
          → ((x : ℕ) → takes p x ≡ false)
          → Inv order ring_made hist_made (store pc i (p_copy obj old seen n 0))
      make {p} here no_m no_t = record {
        shape = record {
          order_le = shape.order_le;
          size_pow = shape.size_pow;
          mask_low = shape.mask_low;
          spare = shape.spare;
        };
        counts = made-Counts;
        filled = λ x l u. ground (arith, filled x l u, counts.making, same_log x);
        fresh = λ j. ground (arith, keep (pc j) (fresh j), made-Making);
        one_maker = λ a b x qa qb.
            ground
              (arith, at_head, one_maker a b x, below (pc a) x (fresh a), below (pc b) x (fresh b));
        one_taker = λ a b x qa qb. ground (arith, one_taker a b x);
        made = λ x l u. elim (dec_lt x g.prod_head) [
          | yes lt ↦ let (j, q) = made x l lt in (j, ground (arith, no_m x))
          | no ge ↦ (i, ground (arith, at_head))
        ];
        taken = λ x l u. let (j, q) = taken x l u in (j, ground (arith, no_t x));
      }
