-- ===== src/LobbyRoom/Host.antt =====
-- Who is host of a lobby room, and who is told.
use project_run_server.Base.{
  ℕ, ◌<◌, ◌≡◌, inl, inr, ◌≢◌, true, ◌++◌, map, none, some, pos, eq_ℤ_iff, append-nil, arith,
  Option-cases, if◌then◌else◌, ◌==◌, set,
}
use project_run_server.Packets.{room_host_ntf, room_leave_user_ntf, copy_user_id, Send}
use project_run_server.Users.{Users}
use project_run_server.Slots.{find_slot, users, first_user, occupied, contains}
use project_run_server.Slots.Laws.{
  find_slot-some, find_slot-none, occupied-set-none, first_user-pos, occupied-le-length,
}
use project_run_server.LobbyRoom.{
  Room, enter_user, take_seat, leave_user, free_seat, vacate, pass_host, broadcast_packet,
  broadcast_host_info,
}
use project_run_server.LobbyRoom.Invariant.{IsValid}
use project_run_server.LobbyRoom.Seating.{enter_user-some}

-- The first to enter a valid empty room becomes its host; newcomers to a room with a free seat and
-- somebody in it leave the host as it is.
pub host-enter_user :
    (r : Room) (us : Users) (u : ℕ)
    → IsValid r
    → occupied r.slots < r.max_user_count
    → (enter_user r us u).1.host_uuid ≡ (if occupied r.slots == 0 then pos u else r.host_uuid)
unfolding take_seat
host-enter_user r us u v h =
    let (i, e, step) = enter_user-some r us u v h in rw step (ground (arith, v.counted, v.small))

free_seat_stays :
    (r : Room) (us : Users) (u i : ℕ)
    → IsValid r
    → find_slot u r.slots ≡ some i
    → 1 < occupied r.slots
    → free_seat r us u i ≡ (
        let (r'', sends) = pass_host (vacate r i) u in
        (
          r'',
          broadcast_packet (vacate r i) (room_leave_user_ntf u (copy_user_id (us u).user_id))
              ++ sends,
        ))
unfolding free_seat vacate
free_seat_stays r us u i v e h =
    ground (arith, v.counted, v.small, v.seats, occupied-le-length r.slots)

-- When the host leaves a valid room in which others stay, the user in the first taken seat becomes
-- host, and everybody who stays is told first that the host left and then who is host now.
pub leave_user-host :
    (r : Room) (us : Users) (u : ℕ)
    → IsValid r
    → r.host_uuid ≡ pos u
    → contains u r.slots ≡ true
    → 1 < occupied r.slots
    → let (r', sends) = leave_user r us u in
      (w : ℕ) × (r'.host_uuid ≡ pos w)
      × (first_user r'.slots ≡ pos w)
      × (contains w r'.slots ≡ true)
      × (sends
          ≡ map (λ t. (t, room_leave_user_ntf u (copy_user_id (us u).user_id))) (users r'.slots)
            ++ map (λ t. (t, room_host_ntf (pos w))) (users r'.slots))
unfolding leave_user vacate pass_host broadcast_packet broadcast_host_info
leave_user-host r us u v host sits h = elim (Option-cases (find_slot u r.slots)) [
  | inl e ↦ absurd (cc ((find_slot-none u r.slots).0 e))
  | inr (i, e) ↦
      let at = find_slot-some u r.slots i e in
      let n = occupied-set-none r.slots i u at in
      let (w, first, there) = first_user-pos (set r.slots i none) (omega (arith, n)) in
      rw (e, leave_user, free_seat_stays r us u i v e h)
        (
          w,
          ground (arith, first),
          ground (arith, first),
          ground (arith, there),
          ground (arith, first),
        )
]

-- When a user who is not host leaves a valid room in which others stay, the host stays, and those
-- who stay are told of the leave alone.
pub leave_user-guest :
    (r : Room) (us : Users) (u : ℕ)
    → IsValid r
    → r.host_uuid ≢ pos u
    → contains u r.slots ≡ true
    → 1 < occupied r.slots
    → let (r', sends) = leave_user r us u in
      (r'.host_uuid ≡ r.host_uuid)
      × (sends
          ≡ map (λ t. (t, room_leave_user_ntf u (copy_user_id (us u).user_id))) (users r'.slots))
unfolding leave_user vacate pass_host broadcast_packet
leave_user-guest r us u v other sits h = elim (Option-cases (find_slot u r.slots)) [
  | inl e ↦ absurd (cc ((find_slot-none u r.slots).0 e))
  | inr (i, e) ↦
      let no_host = eq_ℤ_iff (pos u) r.host_uuid in
      rw (e, leave_user, free_seat_stays r us u i v e h)
        (
          ground (arith, no_host),
          ground (
            arith,
            no_host,
            append-nil {A = Send} (
                map (λ t. (t, room_leave_user_ntf u (copy_user_id (us u).user_id)))
                  (users (set r.slots i none))),
          ),
        )
]
