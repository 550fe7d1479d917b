-- ===== src/GameRoom/Moves.antt =====
-- What entering and leaving a game server's room changes.
use project_run_server.Base.{
  ℕ, suc, ◌-◌, ◌<◌, ◌≡◌, refl, ◌∙◌, inl, inr, true, false, some, pos, arith, set, leb, Option-cases,
}
use project_run_server.Packets.{no_error}
use project_run_server.Users.{Users, room}
use project_run_server.Slots.{find_free, find_slot, occupied, contains}
use project_run_server.Slots.Laws.{
  find_free-none, find_free-some, find_slot-none, find_slot-some, occupied-le-length,
  occupied-set-some, occupied-set-none, contains-set-some,
}
use project_run_server.GameRoom.{FloatOps, GameRoom}
use project_run_server.GameRoom.Doors.{enter_user, take_slot, leave_user, vacate_slot}
use project_run_server.GameRoom.Ready.{check_all_ready}
use project_run_server.GameRoom.Seats.{IsSeated, hand_host-SameSeats, check_all_ready-SameSeats}

module _ {F : Type 0} (fl : FloatOps F) where
  -- Somebody who enters a room with a free slot gets one.
  pub enter_user-seats :
      (r : GameRoom F) (us : Users) (u : ℕ)
      → IsSeated r
      → occupied r.slots < r.max_user_count
      → let (code, r', us', sends) = enter_user fl r us u in
        (code ≡ no_error)
        × (contains u r'.slots ≡ true)
        × (occupied r'.slots ≡ suc (occupied r.slots))
        × ((us' u).domain_state ≡ room)
        × ((us' u).room_index ≡ pos r.room_num)
  unfolding enter_user take_slot
  enter_user-seats r us u v h = elim (Option-cases (find_free r.slots)) [
    | inl e ↦ absurd (omega (arith, (find_free-none r.slots).0 e, v.seats))
    | inr (i, e) ↦
        let free = (find_free-some r.slots i e).1 in
        let more = occupied-set-some r.slots i u free in
        let there : contains u (set r.slots i (some u)) ≡ true =
          contains-set-some r.slots i u u free ∙ ground arith in
        let open_room : leb r.max_user_count r.current_user_count ≡ false =
          ground (arith, v.counted) in
        rw (open_room, enter_user, e) (refl, there, more, ground arith, ground arith)
  ]

  vacate_slot-count :
      (r : GameRoom F) (us : Users) (u : ℕ)
      → IsSeated r
      → contains u r.slots ≡ true
      → (vacate_slot fl r us u).current_user_count ≡ occupied r.slots - 1
  unfolding vacate_slot
  vacate_slot-count r us u v there = elim (Option-cases (find_slot u r.slots)) [
    | inl e ↦ absurd (cc ((find_slot-none u r.slots).0 e))
    | inr (i, e) ↦
        let n = occupied-set-none r.slots i u (find_slot-some u r.slots i e) in
        let size = occupied-le-length r.slots in
        ground (arith, e, n, size, v.small, v.counted, v.seats)
  ]

  -- Somebody with a slot who leaves frees it.
  pub leave_user-count :
      (r : GameRoom F) (us : Users) (u : ℕ)
      → IsSeated r
      → contains u r.slots ≡ true
      → (leave_user fl r us u).0.current_user_count ≡ occupied r.slots - 1
  unfolding leave_user
  leave_user-count r us u v there =
      let r0 = vacate_slot fl r us u in
      let r1 = (check_all_ready fl r0).0 in
      (hand_host-SameSeats fl r1 u).count_same
      ∙ ((check_all_ready-SameSeats fl r0).count_same ∙ vacate_slot-count r us u v there)
