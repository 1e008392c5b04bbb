-- ===== src/Ring/Threads/Publish.antt =====
-- `update_tail` of ring/ring.c: a thread hands on the elements it has copied.
use dpdk_code_modify.Base.{
  ℕ, ◌+◌, ◌-◌, ◌%◌, ◌≤◌, ◌<◌, ◌≡◌, ◌≢◌, sym, ap, ◌∙◌, true, arith, store, store-elim, refl, dec_lt,
}
use dpdk_code_modify.Base.Words.{add32}
use dpdk_code_modify.Ring.Types.{Ring}
use dpdk_code_modify.Ring.Shape.{shape_bounds}
use dpdk_code_modify.Ring.Threads.{
  Pc, idle, p_loop, p_head, p_ready, p_copy, c_loop, c_head, c_ready, c_copy, History,
}
use dpdk_code_modify.Ring.Threads.Inv.{makes, takes, Making, Taking, IsFresh, Inv}

module _ {order : ℕ} {r : Ring} {g : History} {pc : ℕ → Pc} (inv : Inv order r g pc) (i : ℕ) where
  open inv use {shape, counts, filled, fresh, one_maker, one_taker, made, taken}

  module _ (obj : ℕ → ℕ) (old seen n : ℕ) (own : Making r g obj old seen n n)
      (here : pc i ≡ p_copy obj old seen n n) (turn : r.prod.tail ≡ old) where
    abbrev ring_sent : Ring
    ring_sent = record r { prod = record (r.prod) { tail = add32 old n } }

    abbrev hist_sent : History
    hist_sent = record g { prod_tail = g.prod_tail + n }

    pub at_tail : seen ≡ g.prod_tail
    at_tail = omega (
      arith,
      own.word,
      own.from,
      own.upto,
      own.some_n,
      counts.prod_tail_word,
      counts.taking,
      counts.visible,
      counts.fits,
      shape.spare,
      shape_bounds shape,
    )

    -- Another producer's elements come after these.
    after : (j x : ℕ) → i ≢ j → makes (pc j) x ≡ true → g.prod_tail ≤ x → g.prod_tail + n ≤ x
    after j x ne q l = elim (dec_lt x (g.prod_tail + n)) [
      | yes u ↦ absurd (ne (one_maker i j x (ground (arith, at_tail)) q))
      | no u ↦ omega arith
    ]

    keep : (j : ℕ) → i ≢ j → (q : Pc) → pc j ≡ q → IsFresh r g q → IsFresh ring_sent hist_sent q
    keep j ne (p_copy _ _ s m _) e f = record {
      word = f.word;
      some_n = f.some_n;
      i_le = f.i_le;
      from = after j s ne (ground (arith, f.some_n)) f.from;
      upto = f.upto;
      sent = f.sent;
      stored = f.stored;
    }
    keep j ne (p_head _ _ _ _ _) e f = f
    keep j ne (p_ready _ _ _ _ _ _ _) e f = record {
      word = f.word;
      seen_le = f.seen_le;
      tail_le = f.tail_le;
      some_n = f.some_n;
      free = f.free;
    }
    keep j ne (c_copy _ _ _ _ _) e f = record {
      word = f.word;
      some_n = f.some_n;
      i_le = f.i_le;
      from = f.from;
      upto = f.upto;
      read = f.read;
    }
    keep j ne (c_head _ _ _ _) e f = f
    keep j ne (c_ready _ _ _ _ _ _) e f = record {
      word = f.word;
      seen_le = f.seen_le;
      some_n = f.some_n;
      ready = omega (arith, f.ready);
    }
    keep j ne idle e f = f
    keep j ne (p_loop _ _ _) e f = f
    keep j ne (c_loop _ _) e f = f

    filled_sent : (x : ℕ) → g.cons_tail ≤ x → x < g.prod_tail + n → r.slots (x % r.size) ≡ g.log x
    filled_sent x l u = elim (dec_lt x g.prod_tail) [
      | yes lt ↦ filled x l lt
      | no ge ↦
          let same : seen + (x - seen) ≡ x = omega (arith, at_tail) in
          ap (λ (t : ℕ). r.slots (t % r.size)) (sym same)
          ∙ own.stored (x - seen) (omega (arith, at_tail))
          ∙ own.sent (x - seen) (omega (arith, at_tail))
          ∙ ap (λ (t : ℕ). g.log t) same
    ]

    pub publish_made : Inv order ring_sent hist_sent (store pc i idle)
    publish_made = record {
      shape = record {
        order_le = shape.order_le;
        size_pow = shape.size_pow;
        mask_low = shape.mask_low;
        spare = shape.spare;
      };
      counts = record {
        prod_head_word = counts.prod_head_word;
        prod_tail_word = omega (arith, at_tail, own.word);
        cons_head_word = counts.cons_head_word;
        cons_tail_word = counts.cons_tail_word;
        taking = counts.taking;
        visible = omega (arith, counts.visible);
        making = omega (arith, at_tail, own.upto);
        fits = counts.fits;
      };
      filled = filled_sent;
      fresh = λ j.
          store-elim (IsFresh ring_sent hist_sent) pc i idle j tt
            (λ ne. keep j ne (pc j) refl (fresh j));
      one_maker = λ a b x qa qb. ground (arith, one_maker a b x);
      one_taker = λ a b x qa qb. ground (arith, one_taker a b x);
      made = λ x l u. let (j, q) = made x (omega arith) u in (j, ground (arith, at_tail));
      taken = λ x l u. let (j, q) = taken x l u in (j, ground arith);
    }

  module _ (old seen n : ℕ) (got : ℕ → ℕ) (own : Taking g old seen n n got)
      (here : pc i ≡ c_copy old seen n n got) (turn : r.cons.tail ≡ old) where
    abbrev ring_freed : Ring
    ring_freed = record r { cons = record (r.cons) { tail = add32 old n } }

    abbrev hist_freed : History
    hist_freed = record g { cons_tail = g.cons_tail + n }

    pub at_cons_tail : seen ≡ g.cons_tail
    at_cons_tail = omega (
      arith,
      own.word,
      own.from,
      own.upto,
      own.some_n,
      counts.cons_tail_word,
      counts.visible,
      counts.making,
      counts.fits,
      shape.spare,
      shape_bounds shape,
    )

    after_freed : (j x : ℕ) → i ≢ j → takes (pc j) x ≡ true → g.cons_tail ≤ x → g.cons_tail + n ≤ x
    after_freed j x ne q l = elim (dec_lt x (g.cons_tail + n)) [
      | yes u ↦ absurd (ne (one_taker i j x (ground (arith, at_cons_tail)) q))
      | no u ↦ omega arith
    ]

    keep_freed :
        (j : ℕ) → i ≢ j → (q : Pc) → pc j ≡ q → IsFresh r g q → IsFresh ring_freed hist_freed q
    keep_freed j ne (p_copy _ _ s m _) e f = record {
      word = f.word;
      some_n = f.some_n;
      i_le = f.i_le;
      from = f.from;
      upto = f.upto;
      sent = f.sent;
      stored = f.stored;
    }
    keep_freed j ne (p_head _ _ _ _ _) e f = f
    keep_freed j ne (p_ready _ _ _ _ _ _ _) e f = record {
      word = f.word;
      seen_le = f.seen_le;
      tail_le = omega (arith, f.tail_le);
      some_n = f.some_n;
      free = f.free;
    }
    keep_freed j ne (c_copy _ s m _ _) e f = record {
      word = f.word;
      some_n = f.some_n;
      i_le = f.i_le;
      from = after_freed j s ne (ground (arith, f.some_n)) f.from;
      upto = f.upto;
      read = f.read;
    }
    keep_freed j ne (c_head _ _ _ _) e f = f
    keep_freed j ne (c_ready _ _ _ _ _ _) e f = record {
      word = f.word;
      seen_le = f.seen_le;
      some_n = f.some_n;
      ready = f.ready;
    }
    keep_freed j ne idle e f = f
    keep_freed j ne (p_loop _ _ _) e f = f
    keep_freed j ne (c_loop _ _) e f = f

    pub publish_taken : Inv order ring_freed hist_freed (store pc i idle)
    publish_taken = record {
      shape = record {
        order_le = shape.order_le;
        size_pow = shape.size_pow;
        mask_low = shape.mask_low;
        spare = shape.spare;
      };
      counts = record {
        prod_head_word = counts.prod_head_word;
        prod_tail_word = counts.prod_tail_word;
        cons_head_word = counts.cons_head_word;
        cons_tail_word = omega (arith, at_cons_tail, own.word);
        taking = omega (arith, at_cons_tail, own.upto);
        visible = counts.visible;
        making = counts.making;
        fits = omega (arith, counts.fits);
      };
      filled = λ x l u. filled x (omega arith) u;
      fresh = λ j.
          store-elim (IsFresh ring_freed hist_freed) pc i idle j tt
            (λ ne. keep_freed j ne (pc j) refl (fresh j));
      one_maker = λ a b x qa qb. ground (arith, one_maker a b x);
      one_taker = λ a b x qa qb. ground (arith, one_taker a b x);
      made = λ x l u. let (j, q) = made x l u in (j, ground arith);
      taken = λ x l u. let (j, q) = taken x (omega arith) u in (j, ground (arith, at_cons_tail));
    }
