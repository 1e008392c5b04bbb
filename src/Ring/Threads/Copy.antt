-- ===== src/Ring/Threads/Copy.antt =====
-- A producer writes one element into the slots.
use dpdk_code_modify.Base.{
  ℕ, ◌+◌, ◌%◌, ◌≤◌, ◌<◌, ◌≡◌, ◌≢◌, ap, ◌∙◌, true, arith, store, store-elim, refl,
}
use dpdk_code_modify.Ring.Types.{Ring}
use dpdk_code_modify.Ring.Shape.{Shape, masked, wrapped, slots_differ}
use dpdk_code_modify.Ring.Threads.{Pc, p_ready, p_copy, History, slot}
use dpdk_code_modify.Ring.Threads.Inv.{makes, Making, IsFresh, Inv}
use native.Mathlib.Nat.{mod-add-mod}
use dpdk_code_modify.Base.Words.{u32}

-- The slot of element `seen + i`, computed from the word of the head.
pub slot-mod :
    {order : ℕ} {r : Ring}
    → Shape order r
    → (old seen i : ℕ) → old ≡ u32 seen
    → slot r old i ≡ (seen + i) % r.size
slot-mod {r} s old seen i e =
    ap (λ (t : ℕ). (t + i) % r.size) (masked s old ∙ ap (λ (t : ℕ). t % r.size) e ∙ wrapped s seen)
    ∙ mod-add-mod seen r.size i

module _ {order : ℕ} {r : Ring} {g : History} {pc : ℕ → Pc} (inv : Inv order r g pc) (i : ℕ) where
  open inv use {shape, counts, filled, fresh, one_maker, one_taker, made, taken}

  module _ (obj : ℕ → ℕ) (old seen n k : ℕ) (own : Making r g obj old seen n k) (lt : k < n)
      (here : pc i ≡ p_copy obj old seen n k) where
    abbrev written : Ring
    written = record r { slots = store r.slots (slot r old k) (obj k) }

    -- The slot written is that of no other element that counts.
    other :
        (x : ℕ)
        → g.cons_tail ≤ x
        → x < g.prod_head
        → x ≢ seen + k
        → written.slots (x % r.size) ≡ r.slots (x % r.size)
    other x l u ne = ground (
      arith,
      slot-mod shape old seen k own.word,
      slots_differ r.size x (seen + k),
      slots_differ r.size (seen + k) x,
      own.from,
      own.upto,
      counts.taking,
      counts.visible,
      counts.fits,
      shape.spare,
    )

    this : written.slots ((seen + k) % r.size) ≡ obj k
    this = ground (arith, slot-mod shape old seen k own.word)

    -- Another producer's elements keep their slots.
    keep_stored :
        (j x : ℕ)
        → makes (pc j) x ≡ true
        → i ≢ j
        → g.prod_tail ≤ x
        → x < g.prod_head
        → written.slots (x % r.size) ≡ r.slots (x % r.size)
    keep_stored j x q ne l u =
        other x (omega (arith, counts.taking, counts.visible)) u
          (λ e. ne (one_maker i j x (ground arith) q))

    keep : (j : ℕ) → i ≢ j → (q : Pc) → pc j ≡ q → IsFresh r g q → IsFresh written g q
    keep j ne (p_copy _ _ s m _) e f = record {
      word = f.word;
      some_n = f.some_n;
      i_le = f.i_le;
      from = f.from;
      upto = f.upto;
      sent = f.sent;
      stored = λ y l.
          keep_stored j (s + y) (ground (arith, f.i_le)) ne (omega (arith, f.from))
            (omega (arith, f.upto, f.i_le))
          ∙ f.stored y l;
    }
    keep j ne (p_ready _ _ _ _ _ _ _) e f = record {
      word = f.word;
      seen_le = f.seen_le;
      tail_le = f.tail_le;
      some_n = f.some_n;
      free = f.free;
    }
    keep j ne q e f = f

    written-Making : Making written g obj old seen n (k + 1)
    written-Making = record {
      word = own.word;
      some_n = own.some_n;
      i_le = omega arith;
      from = own.from;
      upto = own.upto;
      sent = own.sent;
      stored = λ y l. ground (
        arith,
        own.stored y,
        this,
        other (seen + y),
        own.from,
        own.upto,
        counts.taking,
        counts.visible,
      );
    }

    pub write : Inv order written g (store pc i (p_copy obj old seen n (k + 1)))
    write = record {
      shape = record {
        order_le = shape.order_le;
        size_pow = shape.size_pow;
        mask_low = shape.mask_low;
        spare = shape.spare;
      };
      counts = record {
        prod_head_word = counts.prod_head_word;
        prod_tail_word = counts.prod_tail_word;
        cons_head_word = counts.cons_head_word;
        cons_tail_word = counts.cons_tail_word;
        taking = counts.taking;
        visible = counts.visible;
        making = counts.making;
        fits = counts.fits;
      };
      filled = λ x l u.
          other x l (omega (arith, counts.making)) (omega (arith, own.from)) ∙ filled x l u;
      fresh = λ j.
          store-elim (IsFresh written g) pc i (p_copy obj old seen n (k + 1)) j written-Making
            (λ ne. keep j ne (pc j) refl (fresh j));
      one_maker = λ a b x qa qb. ground (arith, one_maker a b x);
      one_taker = λ a b x qa qb. ground (arith, one_taker a b x);
      made = λ x l u. let (j, q) = made x l u in (j, ground arith);
      taken = λ x l u. let (j, q) = taken x l u in (j, ground arith);
    }
