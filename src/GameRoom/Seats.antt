-- ===== src/GameRoom/Seats.antt =====
-- Slots and count of a game server's room, through entering and leaving.
use project_run_server.Base.{
  ℕ, ◌<◌, ◌≡◌, sym, ap, ◌∙◌, inl, inr, true, false, none, some, arith, length, length-set,
  length-replicate, set, Option-cases,
}
use project_run_server.Packets.{enter_room_full_user}
use project_run_server.Users.{Users}
use project_run_server.Slots.{find_free, find_slot, occupied, contains, Distinct}
use project_run_server.Slots.Laws.{
  find_free-some, find_slot-none, find_slot-some, occupied-le-length, occupied-set-some,
  occupied-set-none, occupied-replicate, contains-set-none_self,
}
use project_run_server.GameRoom.{FloatOps, GameRoom, u16}
use project_run_server.GameRoom.Doors.{
  init, enter_user, take_slot, leave_user, vacate_slot, hand_host,
}
use project_run_server.GameRoom.Ready.{check_all_ready, set_countdown}

-- The count is the number of slots taken, and the lists have an entry for each slot.
pub record IsSeated {F : Type 0} (r : GameRoom F) : Type 0 where
  pub small : r.max_user_count < u16
  pub seats : length r.slots ≡ r.max_user_count
  pub marks : length r.is_ready ≡ r.max_user_count
  pub escapes : length r.is_escaped ≡ r.max_user_count
  pub counted : r.current_user_count ≡ occupied r.slots

-- The same slots, marks and count.
pub record SameSeats {F : Type 0} (r r' : GameRoom F) : Type 0 where
  pub max_same : r'.max_user_count ≡ r.max_user_count
  pub slots_same : r'.slots ≡ r.slots
  pub ready_same : r'.is_ready ≡ r.is_ready
  pub escaped_same : r'.is_escaped ≡ r.is_escaped
  pub count_same : r'.current_user_count ≡ r.current_user_count

module _ {F : Type 0} (fl : FloatOps F) where
  pub IsSeated-SameSeats : (r r' : GameRoom F) → SameSeats r r' → IsSeated r → IsSeated r'
  IsSeated-SameSeats r r' e v = record {
    small = omega (arith, e.max_same, v.small);
    seats = ap length e.slots_same ∙ (v.seats ∙ sym e.max_same);
    marks = ap length e.ready_same ∙ (v.marks ∙ sym e.max_same);
    escapes = ap length e.escaped_same ∙ (v.escapes ∙ sym e.max_same);
    counted = e.count_same ∙ (v.counted ∙ sym (ap occupied e.slots_same));
  }

  pub init-IsSeated : (num max : ℕ) → max < u16 → IsSeated (init fl num max)
  unfolding init
  init-IsSeated num max h = record {
    small = h;
    seats = length-replicate max none;
    marks = length-replicate max false;
    escapes = length-replicate max false;
    counted = sym (occupied-replicate max);
  }

  pub check_all_ready-SameSeats : (r : GameRoom F) → SameSeats r (check_all_ready fl r).0
  unfolding check_all_ready set_countdown
  check_all_ready-SameSeats r = ground arith

  pub hand_host-SameSeats : (r : GameRoom F) (u : ℕ) → SameSeats r (hand_host fl r u).0
  unfolding hand_host
  hand_host-SameSeats r u = ground arith

  -- `EnterUser` of the game server keeps count and slots in step, whoever enters.
  pub enter_user-IsSeated :
      (r : GameRoom F) (us : Users) (u : ℕ) → IsSeated r → IsSeated (enter_user fl r us u).1
  unfolding enter_user take_slot
  enter_user-IsSeated r us u v = elim (Option-cases (find_free r.slots)) [
    | inl e ↦ ground (arith, e, v)
    | inr (i, e) ↦
        let n = occupied-set-some r.slots i u (find_free-some r.slots i e).1 in
        ground (arith, e, v, n, v.small, v.counted, v.seats, length-set r.slots i (some u))
  ]

  vacate_slot-IsSeated :
      (r : GameRoom F) (us : Users) (u : ℕ)
      → IsSeated r
      → contains u r.slots ≡ true
      → IsSeated (vacate_slot fl r us u)
  unfolding vacate_slot
  vacate_slot-IsSeated r us u v there = elim (Option-cases (find_slot u r.slots)) [
    | inl e ↦ absurd (cc ((find_slot-none u r.slots).0 e))
    | inr (i, e) ↦
        let n = occupied-set-none r.slots i u (find_slot-some u r.slots i e) in
        let size = occupied-le-length r.slots in
        elim (Option-cases (find_slot u (set r.slots i none))) [
          | inl e' ↦ ground (
            arith,
            e,
            e',
            n,
            size,
            v.small,
            v.counted,
            v.seats,
            v.marks,
            v.escapes,
            length-set r.slots i none,
          )
          | inr (j, e') ↦ ground (
            arith,
            e,
            e',
            n,
            size,
            v.small,
            v.counted,
            v.seats,
            v.marks,
            v.escapes,
            length-set r.slots i none,
            length-set r.is_ready j false,
          )
        ]
  ]

  -- `LeaveUser` of the game server keeps count and slots in step for a user who has a slot.
  pub leave_user-IsSeated :
      (r : GameRoom F) (us : Users) (u : ℕ)
      → IsSeated r
      → contains u r.slots ≡ true
      → IsSeated (leave_user fl r us u).0
  unfolding leave_user
  leave_user-IsSeated r us u v there =
      let r0 = vacate_slot fl r us u in
      let r1 = (check_all_ready fl r0).0 in
      IsSeated-SameSeats r1 (hand_host fl r1 u).0 (hand_host-SameSeats r1 u) (
        IsSeated-SameSeats r0 r1 (check_all_ready-SameSeats r0)
          (vacate_slot-IsSeated r us u v there))

  vacate_slot-ready_kept :
      (r : GameRoom F) (us : Users) (u : ℕ)
      → Distinct r.slots
      → (vacate_slot fl r us u).is_ready ≡ r.is_ready
  unfolding vacate_slot
  vacate_slot-ready_kept r us u d = elim (Option-cases (find_slot u r.slots)) [
    | inl e ↦ ground (arith, e)
    | inr (i, e) ↦
        let absent = contains-set-none_self r.slots i u (find_slot-some u r.slots i e) d in
        ground (arith, e, (find_slot-none u (set r.slots i none)).1 absent)
  ]

  vacate_slot-absent :
      (r : GameRoom F) (us : Users) (u : ℕ)
      → IsSeated r
      → occupied r.slots ≡ 0
      → contains u r.slots ≡ false
      → ((vacate_slot fl r us u).current_user_count ≡ 65535)
        × ((vacate_slot fl r us u).max_user_count ≡ r.max_user_count)
  unfolding vacate_slot
  vacate_slot-absent r us u v empty absent =
      let e = (find_slot-none u r.slots).1 absent in
      (ground (arith, e, v.counted), ground (arith, e))

  -- `LeaveUser` of the game server leaves every ready mark as it is, also that of the user who
  -- leaves, if nobody has two slots.
  pub leave_user-ready_kept :
      (r : GameRoom F) (us : Users) (u : ℕ)
      → Distinct r.slots
      → (leave_user fl r us u).0.is_ready ≡ r.is_ready
  unfolding leave_user
  leave_user-ready_kept r us u d =
      let r0 = vacate_slot fl r us u in
      let r1 = (check_all_ready fl r0).0 in
      (hand_host-SameSeats r1 u).ready_same
      ∙ ((check_all_ready-SameSeats r0).ready_same ∙ vacate_slot-ready_kept r us u d)

  -- In an empty room of the game server a user without a slot who leaves, as one does who leaves
  -- twice, sets the count to 65535, and nobody can enter after that.
  pub leave_user-wraps :
      (r : GameRoom F) (us us' : Users) (u w : ℕ)
      → IsSeated r
      → occupied r.slots ≡ 0
      → contains u r.slots ≡ false
      → let r' = (leave_user fl r us u).0 in
        (r'.current_user_count ≡ 65535) × ((enter_user fl r' us' w).0 ≡ enter_room_full_user)
  unfolding leave_user enter_user
  leave_user-wraps r us us' u w v empty absent =
      let r0 = vacate_slot fl r us u in
      let r1 = (check_all_ready fl r0).0 in
      let same = check_all_ready-SameSeats r0 in
      let same' = hand_host-SameSeats r1 u in
      let (wrapped, kept) = vacate_slot-absent r us u v empty absent in
      (
        same'.count_same ∙ (same.count_same ∙ wrapped),
        ground (
          arith, same.count_same, same'.count_same, same.max_same, same'.max_same, wrapped, kept,
          v.small,
        ),
      )
