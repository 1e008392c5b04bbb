-- ===== src/Lpm/Room.antt =====
-- The loop of `rule_add` of lpm/lpm.c that makes room for a rule.
use mathlib.Core.Path.{subst}
use dpdk_code_modify.Base.{
  ℕ, zero, suc, ◌+◌, ◌-◌, ◌≤◌, ◌<◌, ◌≡◌, refl, ap, Bool, true, false, arith, ltb, ◌==◌, Bool-cases,
  inl, inr, dec_lt,
}
use dpdk_code_modify.Base.Words.{add32}
use dpdk_code_modify.Lpm.Types.{Lpm}
use dpdk_code_modify.Lpm.Rules.{group_end, shift_up, make_room}
use dpdk_code_modify.Lpm.Groups.{
  used, first, IsGrouped, SameRules, SameRules-self, SameRules-trans, HasGap, shift_up-IsGrouped,
  shift_up-SameRules, shift_up-HasGap,
}

-- How the loop ends: with a gap behind the group of `depth`, or without room for one.
pub data RoomOutcome (depth r : ℕ) (l : Lpm) : Bool × Lpm → Type 0 where
  room_made :
      {l' : Lpm}
      → IsGrouped l'
      → HasGap depth depth r l'
      → SameRules l l'
      → RoomOutcome depth r l (true, l')
  no_room : {l' : Lpm} → IsGrouped l' → SameRules l l' → RoomOutcome depth r l (false, l')

RoomOutcome-after :
    {depth r : ℕ} {l l' : Lpm} {o : Bool × Lpm}
    → SameRules l l'
    → RoomOutcome depth r l' o
    → RoomOutcome depth r l o
RoomOutcome-after s (room_made g p t) = room_made g p (SameRules-trans s t)
RoomOutcome-after s (no_room g t) = no_room g (SameRules-trans s t)

-- An empty group moves by standing still.
unmoved : {depth m r : ℕ} {l : Lpm} → used l m ≡ 0 → HasGap depth (suc m) r l → HasGap depth m r l
unmoved {m} none_used p = record {
  slot = p.slot;
  inside = p.inside;
  low = p.low;
  mid = λ j ge lt pos. p.mid j ge (omega arith) pos;
  high = λ j ge lt pos. ground (arith, p.high j, ap (λ (t : ℕ). t) none_used);
  gap = λ a j ga la gj lj pa pj. ground (arith, p.gap a j);
}

shift_up_unused : (m : ℕ) (l : Lpm) → used l m ≡ 0 → shift_up (suc m) l ≡ l
unfolding shift_up
shift_up_unused m l none_used =
    let before : suc m - 1 ≡ m = omega arith in rw (before, none_used) refl

pub make_room-RoomOutcome :
    (fuel i depth r : ℕ) (l : Lpm)
    → IsGrouped l
    → 1 ≤ depth
    → depth ≤ i
    → i ≤ 32
    → i ≤ depth + fuel
    → HasGap depth i r l
    → RoomOutcome depth r l (make_room fuel i depth l)
unfolding make_room
make_room-RoomOutcome zero i depth r l g one le few enough p =
    let e : i ≡ depth = omega arith in
    room_made g (subst (λ (t : ℕ). HasGap depth t r l) e p) (SameRules-self l)
make_room-RoomOutcome (suc fuel) zero depth r l g one le few enough p = absurd (omega arith)
make_room-RoomOutcome (suc fuel) (suc m) depth r l g one le few enough p =
    elim (dec_lt depth (suc m)) [
      | no over ↦
          let e : suc m ≡ depth = omega arith in
          let stop : ltb depth (suc m) ≡ false = ground arith in
          rw (stop, make_room)
            (room_made g (subst (λ (t : ℕ). HasGap depth t r l) e p) (SameRules-self l))
      | yes more ↦
          let go : ltb depth (suc m) ≡ true = ground arith in
          let before : suc m - 1 ≡ m = omega arith in
          elim (Bool-cases (group_end (l.rule_info m) == l.max_rules)) [
            | inl full ↦ rw (go, before, full, make_room) (no_room g (SameRules-self l))
            | inr fits ↦ elim (dec_lt 0 (used l m)) [
              | yes pos ↦
                  let limit = g.few in
                  let ends = g.ends m (omega arith) pos in
                  let whole : add32 (first l m) (used l m) ≡ first l m + used l m = omega arith in
                  let room : first l m + used l m < l.max_rules = ground (arith, whole) in
                  let over : depth ≤ m = omega arith in
                  let lt : m < 32 = omega arith in
                  rw (go, before, fits, make_room, before)
                    (RoomOutcome-after (shift_up-SameRules l g depth r m one over lt p pos room) (
                      make_room-RoomOutcome fuel m depth r (shift_up (suc m) l)
                        (shift_up-IsGrouped l g depth r m one over lt p pos room) one over
                        (omega arith) (omega arith)
                        (shift_up-HasGap l g depth r m one over lt p pos room)))
              | no zero_used ↦
                  let none_used : used l m ≡ 0 = omega arith in
                  rw (go, before, fits, make_room, before, shift_up_unused m l none_used)
                    (make_room-RoomOutcome fuel m depth r l g one (omega arith) (omega arith)
                      (omega arith) (unmoved none_used p))
            ]
          ]
    ]
