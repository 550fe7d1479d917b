-- ===== src/LobbyRoom/Buffers.antt =====
-- Entering a room of the lobby leaves the receive buffers alone.
use project_run_server.Base.{ℕ, refl, inl, inr, leb, Bool-cases, Option-cases}
use project_run_server.Users.{Users, set_domain_state, enter_room, room}
use project_run_server.Users.Buffers.{AllMilder, AllMilder-same, AllMilder-at_user, IsMilder-refl}
use project_run_server.Slots.{find_free}
use project_run_server.LobbyRoom.{Room, enter_user, take_seat}

pub enter_user-AllMilder : (r : Room) (us : Users) (u : ℕ) → AllMilder us (enter_user r us u).2
unfolding enter_user take_seat
enter_user-AllMilder r us u = elim (Bool-cases (leb r.max_user_count r.current_user_count)) [
  | inl full ↦ rw (full, enter_user) (AllMilder-same us)
  | inr left ↦ elim (Option-cases (find_free r.slots)) [
    | inl e ↦ rw (left, e, enter_user) (AllMilder-same us)
    | inr (i, e) ↦
        rw (left, e, enter_user)
          (AllMilder-at_user u (λ x. enter_room r.room_num (set_domain_state room x)) us
            (IsMilder-refl (us u) (enter_room r.room_num (set_domain_state room (us u))) refl))
  ]
]
