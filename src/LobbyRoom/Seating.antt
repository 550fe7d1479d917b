-- ===== src/LobbyRoom/Seating.antt =====
-- Who may enter a lobby room, what entering changes, and that leaving undoes it.
use project_run_server.Base.{
  ℕ, suc, ◌-◌, ◌≤◌, ◌<◌, ◌≡◌, refl, sym, ap, ◌∙◌, inl, inr, ◌≢◌, ◌↔◌, true, false, ◌||◌, [], none,
  some, pos, arith, Option-cases, dec_lt, ◌==◌, set-set_back,
}
use project_run_server.Packets.{no_error, enter_room_full_user}
use project_run_server.Users.{Users, room}
use project_run_server.Slots.{find_free, find_slot, occupied, contains}
use project_run_server.Slots.Laws.{
  find_free-none, find_free-some, occupied-le-length, occupied-set-some, contains-set-some,
  find_slot-set-some, find_slot-some, find_slot-none, occupied-set-none,
}
use project_run_server.Slots.Marks.{free_unready}
use project_run_server.LobbyRoom.{
  Room, enter_user, take_seat, leave_user, free_seat, vacate, reset_empty, pass_host,
}
use project_run_server.LobbyRoom.Invariant.{IsValid}

refused_ne_ok : enter_room_full_user ≢ no_error
refused_ne_ok e = cc

enter_user-full :
    (r : Room) (us : Users) (u : ℕ)
    → r.max_user_count ≤ r.current_user_count
    → enter_user r us u ≡ (enter_room_full_user, r, us, [])
unfolding enter_user
enter_user-full r us u h = ground arith

-- In a valid room that is not full the newcomer gets the first free seat.
pub enter_user-some :
    (r : Room) (us : Users) (u : ℕ)
    → IsValid r
    → occupied r.slots < r.max_user_count
    → (i : ℕ) × (find_free r.slots ≡ some i)
      × (enter_user r us u
          ≡ (let (r', us', sends) = take_seat r us u i in (no_error, r', us', sends)))
unfolding enter_user
enter_user-some r us u v h = elim (Option-cases (find_free r.slots)) [
  | inl e ↦ absurd (omega (arith, (find_free-none r.slots).0 e, v.seats))
  | inr (i, e) ↦ (i, e, ground (arith, e, v.counted))
]

-- `EnterUser` of a valid room refuses exactly if every seat is taken, and then changes and sends
-- nothing.
pub enter_user-refuses :
    (r : Room) (us : Users) (u : ℕ)
    → IsValid r
    → ((enter_user r us u ≡ (enter_room_full_user, r, us, []))
        ↔ (occupied r.slots ≡ r.max_user_count))
      × (((enter_user r us u).0 ≢ no_error) ↔ (occupied r.slots ≡ r.max_user_count))
enter_user-refuses r us u v = elim (dec_lt (occupied r.slots) r.max_user_count) [
  | yes room_left ↦
      let ok : (enter_user r us u).0 ≡ no_error =
        ap (λ x. x.0) (enter_user-some r us u v room_left).2 in
      (
        (λ e. absurd (refused_ne_ok (sym (ap (λ x. x.0) e) ∙ ok)), λ e. absurd (omega arith)),
        (λ n. absurd (n ok), λ e. absurd (omega arith)),
      )
  | no taken ↦
      let all : occupied r.slots ≡ r.max_user_count =
        omega (arith, occupied-le-length r.slots, v.seats) in
      let refused = enter_user-full r us u (omega (arith, v.counted)) in
      (
        (λ e. all, λ e. refused),
        (λ n. all, λ e ok. refused_ne_ok (sym (ap (λ x. x.0) refused) ∙ ok)),
      )
]

-- A user who enters a valid room with a free seat gets one, and everybody else keeps or lacks
-- theirs as before; the user is marked as being in this room, and no other user is written to.
pub enter_user_lem :
    (r : Room) (us : Users) (u : ℕ)
    → IsValid r
    → occupied r.slots < r.max_user_count
    → let (code, r', us', sends) = enter_user r us u in
      (code ≡ no_error)
      × (occupied r'.slots ≡ suc (occupied r.slots))
      × ((w : ℕ) → contains w r'.slots ≡ ((u == w) || contains w r.slots))
      × ((us' u).domain_state ≡ room)
      × ((us' u).room_index ≡ pos r.room_num)
      × ((w : ℕ) → w ≢ u → us' w ≡ us w)
unfolding take_seat
enter_user_lem r us u v h =
    let (i, e, step) = enter_user-some r us u v h in
    let free = (find_free-some r.slots i e).1 in
    rw step (
      refl,
      occupied-set-some r.slots i u free,
      λ w. contains-set-some r.slots i u w free,
      ground arith,
      ground arith,
      λ w n. ground arith,
    )

-- A user with a seat who leaves frees it.
pub leave_user-count :
    (r : Room) (us : Users) (u : ℕ)
    → IsValid r
    → contains u r.slots ≡ true
    → (leave_user r us u).0.current_user_count ≡ occupied r.slots - 1
unfolding leave_user free_seat vacate reset_empty pass_host
leave_user-count r us u v there = elim (Option-cases (find_slot u r.slots)) [
  | inl e ↦ absurd (cc ((find_slot-none u r.slots).0 e))
  | inr (i, e) ↦
      let n = occupied-set-none r.slots i u (find_slot-some u r.slots i e) in
      ground (arith, e, n, v.counted, v.small, v.seats, occupied-le-length r.slots)
]

-- A user without a seat who enters a valid room with a free seat and leaves again leaves seats,
-- ready marks and count as they were.
pub leave_user-enter_user :
    (r : Room) (us us' : Users) (u : ℕ)
    → IsValid r
    → occupied r.slots < r.max_user_count
    → contains u r.slots ≡ false
    → let r' = (leave_user (enter_user r us u).1 us' u).0 in
      (r'.slots ≡ r.slots)
      × (r'.is_ready ≡ r.is_ready)
      × (r'.current_user_count ≡ r.current_user_count)
unfolding take_seat leave_user free_seat vacate reset_empty pass_host
leave_user-enter_user r us us' u v h absent =
    let (i, e, step) = enter_user-some r us u v h in
    let free = (find_free-some r.slots i e).1 in
    rw step (
      ground (
        arith,
        find_slot-set-some u r.slots i free absent,
        set-set_back r.slots i (some u) none free,
      ),
      ground (
        arith,
        find_slot-set-some u r.slots i free absent,
        free_unready r.slots r.is_ready i free v.ready,
      ),
      ground (arith, find_slot-set-some u r.slots i free absent, v.counted, v.small),
    )
