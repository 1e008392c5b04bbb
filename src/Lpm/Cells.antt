-- ===== src/Lpm/Cells.antt =====
-- When the two tables of lpm/lpm.c hang together, and what a store to them does to the answers.
use dpdk_code_modify.Base.{
  ℕ, ◌+◌, ◌*◌, ◌/◌, ◌%◌, ◌^◌, ◌≤◌, ◌<◌, ◌≡◌, ◌≢◌, ap, ◌∙◌, store, true, false, ◌&&◌, Option, none,
  some, arith, leb, ◌==◌, if◌then◌else◌,
}
use dpdk_code_modify.Base.Words.{add32}
use dpdk_code_modify.Base.Loops.{for_loop-repeat, repeat-store, within}
use dpdk_code_modify.Lpm.Types.{Entry, Lpm}
use dpdk_code_modify.Lpm.Tables.{at_cell, group_start, over}
use dpdk_code_modify.Lpm.Lookup.{is_extended, cell}

-- Next hops have 24 bits; a tbl24 entry stands for a rule of depth 24 at most; an extended entry points to an allocated group that is marked as in use,
-- and no two point to the same group.
pub record IsLinked (l : Lpm) : Type 0 where
  pub few : l.number_tbl8s < 2 ^ 23
  pub narrow24 : (i : ℕ) → (l.tbl24 i).next_hop < 2 ^ 24
  pub shallow : (i : ℕ) → (l.tbl24 i).depth ≤ 24
  pub narrow8 : (j : ℕ) → (l.tbl8 j).next_hop < 2 ^ 24
  pub inside : (i : ℕ) → is_extended (l.tbl24 i) ≡ true → (l.tbl24 i).next_hop < l.number_tbl8s
  pub marked :
      (i : ℕ)
      → is_extended (l.tbl24 i) ≡ true
      → (l.tbl8 ((l.tbl24 i).next_hop * 256)).valid_group ≡ true
  pub apart :
      (i j : ℕ)
      → is_extended (l.tbl24 i) ≡ true
      → is_extended (l.tbl24 j) ≡ true
      → (l.tbl24 i).next_hop ≡ (l.tbl24 j).next_hop
      → i ≡ j

-- A rule of depth `d` goes over an answer of no greater depth.
abbrev pub overlay : ℕ → ℕ → Option (ℕ × ℕ) → Option (ℕ × ℕ)
overlay d next_hop none = some (d, next_hop)
overlay d next_hop (some (depth, old)) =
    if leb depth d then some (d, next_hop) else some (depth, old)

-- A loop over a range rewrites the cells of the range.
pub over-cells :
    (lo range : ℕ) (g : Entry → Entry) (t : ℕ → Entry) (j : ℕ)
    → lo + range < 2 ^ 32
    → over lo range g t j ≡ (if within lo range j then g (t j) else t j)
over-cells lo range g t j w =
    ap (λ (f : ℕ → Entry). f j)
      (for_loop-repeat range lo (add32 lo range) (at_cell g) t (omega arith) (omega arith))
    ∙ repeat-store g range lo t j

pub group_start_lem : (g : ℕ) → g < 2 ^ 23 → group_start g ≡ g * 256
group_start_lem g h = omega arith

-- A table in which the cells of a range are rewritten by `g`.
abbrev pub Rewritten : ℕ → ℕ → (Entry → Entry) → (ℕ → Entry) → (ℕ → Entry) → Type 0
Rewritten lo n g t t' = (j : ℕ) → t' j ≡ (if within lo n j then g (t j) else t j)

module _ {l : Lpm} (k : IsLinked l) where
  -- Rewriting part of the group behind tbl24 entry `i` touches the answers at that entry alone.
  pub cell-Rewritten :
      (i lo n : ℕ) (g : Entry → Entry) (t' : ℕ → Entry) (q : ℕ)
      → is_extended (l.tbl24 i) ≡ true
      → (l.tbl24 i).next_hop * 256 ≤ lo
      → lo + n ≤ (l.tbl24 i).next_hop * 256 + 256
      → Rewritten lo n g l.tbl8 t'
      → cell (record l { tbl8 = t' }) q ≡ (
          if (q / 256 == i) && within lo n ((l.tbl24 i).next_hop * 256 + q % 256)
          then g (cell l q)
          else cell l q)
  cell-Rewritten i lo n g t' q ext above below at =
      ground (arith, at ((l.tbl24 (q / 256)).next_hop * 256 + q % 256), k.apart (q / 256) i)

  pub Rewritten-IsLinked :
      (lo n : ℕ) (g : Entry → Entry) (t' : ℕ → Entry)
      → ((e : Entry) → e.next_hop < 2 ^ 24 → (g e).next_hop < 2 ^ 24)
      → ((e : Entry) → e.valid_group ≡ true → (g e).valid_group ≡ true)
      → Rewritten lo n g l.tbl8 t'
      → IsLinked (record l { tbl8 = t' })
  Rewritten-IsLinked lo n g t' narrow keeps at = record {
    few = k.few;
    narrow24 = k.narrow24;
    shallow = k.shallow;
    narrow8 = λ j. ground (arith, at j, narrow (l.tbl8 j), k.narrow8 j);
    inside = k.inside;
    marked = λ i ext.
        let j = (l.tbl24 i).next_hop * 256 in ground (arith, at j, keeps (l.tbl8 j), k.marked i);
    apart = k.apart;
  }

  -- Storing an entry that holds a next hop at tbl24 entry `i`.
  pub plain-IsLinked :
      (i : ℕ) (e : Entry)
      → e.next_hop < 2 ^ 24
      → e.depth ≤ 24
      → is_extended e ≡ false
      → IsLinked (record l { tbl24 = store l.tbl24 i e })
  plain-IsLinked i e narrow low plain = record {
    few = k.few;
    narrow24 = λ j. ground (arith, k.narrow24 j);
    shallow = λ j. ground (arith, k.shallow j);
    narrow8 = k.narrow8;
    inside = λ j ext. ground (arith, k.inside j);
    marked = λ j ext. ground (arith, k.marked j);
    apart = λ j h ej eh same. ground (arith, k.apart j h);
  }

  -- Pointing tbl24 entry `i` to a group that no entry points to.
  pub extended-IsLinked :
      (i : ℕ) (e : Entry)
      → e.next_hop < l.number_tbl8s
      → e.depth ≤ 24
      → (l.tbl8 (e.next_hop * 256)).valid_group ≡ true
      → ((j : ℕ) → is_extended (l.tbl24 j) ≡ true → (l.tbl24 j).next_hop ≢ e.next_hop)
      → IsLinked (record l { tbl24 = store l.tbl24 i e })
  extended-IsLinked i e inside low marked fresh = record {
    few = k.few;
    narrow24 = λ j. ground (arith, k.narrow24 j, k.few);
    shallow = λ j. ground (arith, k.shallow j);
    narrow8 = k.narrow8;
    inside = λ j ext. ground (arith, k.inside j);
    marked = λ j ext. ground (arith, k.marked j);
    apart = λ j h ej eh same. ground (arith, k.apart j h, fresh j, fresh h);
  }

  -- A table that differs in a group which no entry points to, and there alone.
  pub fresh-IsLinked :
      (g : ℕ) (t' : ℕ → Entry)
      → ((j : ℕ) → is_extended (l.tbl24 j) ≡ true → (l.tbl24 j).next_hop ≢ g)
      → ((j : ℕ) → (t' j).next_hop < 2 ^ 24)
      → ((j : ℕ) → within (g * 256) 256 j ≡ false → t' j ≡ l.tbl8 j)
      → IsLinked (record l { tbl8 = t' }) × ((q : ℕ) → cell (record l { tbl8 = t' }) q ≡ cell l q)
  fresh-IsLinked g t' fresh narrow same = (
    record {
      few = k.few;
      narrow24 = k.narrow24;
      shallow = k.shallow;
      narrow8 = narrow;
      inside = k.inside;
      marked = λ i ext.
          let j = (l.tbl24 i).next_hop * 256 in ground (arith, same j, fresh i ext, k.marked i);
      apart = k.apart;
    },
    λ q. let i = q / 256 in ground (arith, same ((l.tbl24 i).next_hop * 256 + q % 256), fresh i),
  )
