-- ===== src/Ring/Threads/ConsHead.antt =====
-- A consumer moves the head: `__rte_ring_move_cons_head` of ring/ring.c.
use dpdk_code_modify.Base.{ℕ, ◌+◌, ◌^◌, ◌<◌, ◌≡◌, true, false, arith, store, dec_lt}
use dpdk_code_modify.Base.Words.{add32}
use dpdk_code_modify.Ring.Types.{Ring}
use dpdk_code_modify.Ring.Threads.{
  Pc, idle, p_loop, p_head, p_ready, p_copy, c_loop, c_head, c_ready, c_copy, History,
}
use dpdk_code_modify.Ring.Threads.Inv.{makes, takes, Counts, MayTake, Taking, IsFresh, Inv}

module _ {order : ℕ} {r : Ring} {g : History} {pc : ℕ → Pc} (inv : Inv order r g pc) (i : ℕ) where
  open inv use {shape, counts, filled, fresh, one_maker, one_taker, made, taken}

  module _ (old seen n : ℕ) where
    abbrev pub ring_taken : Ring
    ring_taken = record r { cons = record (r.cons) { head = add32 old n } }

    abbrev pub hist_taken : History
    hist_taken = record g { cons_head = g.cons_head + n }

    module _ (own : MayTake g old seen n) (win : r.cons.head ≡ old)
        (near : g.cons_head < seen + 2 ^ 32) where
      pub at_cons_head : seen ≡ g.cons_head
      at_cons_head = omega (arith, own.word, own.seen_le, counts.cons_head_word)

      taken-Counts : Counts ring_taken hist_taken
      taken-Counts = record {
        prod_head_word = counts.prod_head_word;
        prod_tail_word = counts.prod_tail_word;
        cons_head_word = omega (arith, at_cons_head, own.word);
        cons_tail_word = counts.cons_tail_word;
        taking = omega (arith, counts.taking);
        visible = omega (arith, at_cons_head, own.ready);
        making = counts.making;
        fits = counts.fits;
      }

      keep_taken : (q : Pc) → IsFresh r g q → IsFresh ring_taken hist_taken q
      keep_taken (p_head _ _ _ _ _) f = f
      keep_taken (p_ready _ _ _ _ _ _ _) f = record {
        word = f.word;
        seen_le = f.seen_le;
        tail_le = f.tail_le;
        some_n = f.some_n;
        free = f.free;
      }
      keep_taken (p_copy _ _ _ _ _) f = record {
        word = f.word;
        some_n = f.some_n;
        i_le = f.i_le;
        from = f.from;
        upto = f.upto;
        sent = f.sent;
        stored = f.stored;
      }
      keep_taken (c_copy _ _ _ _ _) f = record {
        word = f.word;
        some_n = f.some_n;
        i_le = f.i_le;
        from = f.from;
        upto = omega (arith, f.upto);
        read = f.read;
      }
      keep_taken (c_head _ _ _ _) f = (f.0, omega (arith, f.1))
      keep_taken (c_ready _ _ _ _ _ _) f = record {
        word = f.word;
        seen_le = omega (arith, f.seen_le);
        some_n = f.some_n;
        ready = f.ready;
      }
      keep_taken idle f = f
      keep_taken (p_loop _ _ _) f = f
      keep_taken (c_loop _ _) f = f

      module _ (got : ℕ → ℕ) where
        taken-Taking : Taking hist_taken old seen n 0 got
        taken-Taking = record {
          word = own.word;
          some_n = own.some_n;
          i_le = omega arith;
          from = omega (arith, at_cons_head, counts.taking);
          upto = omega (arith, at_cons_head);
          read = λ j l. absurd (omega arith);
        }

        below_taken : (q : Pc) (x : ℕ) → IsFresh r g q → takes q x ≡ true → x < g.cons_head
        below_taken (c_copy _ s m _ _) x f e = ground (arith, f.upto)
        below_taken q x f e = ground arith

        pub take :
            {p : Pc}
            → pc i ≡ p
            → ((x : ℕ) → makes p x ≡ false)
            → ((x : ℕ) → takes p x ≡ false)
            → Inv order ring_taken hist_taken (store pc i (c_copy old seen n 0 got))
        take {p} here no_m no_t = record {
          shape = record {
            order_le = shape.order_le;
            size_pow = shape.size_pow;
            mask_low = shape.mask_low;
            spare = shape.spare;
          };
          counts = taken-Counts;
          filled = filled;
          fresh = λ j. ground (arith, keep_taken (pc j) (fresh j), taken-Taking);
          one_maker = λ a b x qa qb. ground (arith, one_maker a b x);
          one_taker = λ a b x qa qb. ground (
            arith,
            at_cons_head,
            one_taker a b x,
            below_taken (pc a) x (fresh a),
            below_taken (pc b) x (fresh b),
          );
          made = λ x l u. let (j, q) = made x l u in (j, ground (arith, no_m x));
          taken = λ x l u. elim (dec_lt x g.cons_head) [
            | yes lt ↦ let (j, q) = taken x l lt in (j, ground (arith, no_t x))
            | no ge ↦ (i, ground (arith, at_cons_head))
          ];
        }
