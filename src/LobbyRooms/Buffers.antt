-- ===== src/LobbyRooms/Buffers.antt =====
-- Entering and leaving by the lobby's room manager leave the receive buffers alone.
use project_run_server.Base.{ℕ, refl, inl, inr, ℤ, Option-cases}
use project_run_server.Users.{Users, set_domain_state, login}
use project_run_server.Users.Buffers.{AllMilder, AllMilder-same, AllMilder-at_user, IsMilder-refl}
use project_run_server.LobbyRoom.Buffers.{enter_user-AllMilder}
use project_run_server.LobbyRooms.{RoomManager, enter_user, leave_user, pick_room, find_room}

pub enter_user-AllMilder_at :
    (m : RoomManager) (us : Users) (n : ℤ) (u : ℕ) → AllMilder us (enter_user m us n u).2
unfolding enter_user
enter_user-AllMilder_at m us n u = elim (Option-cases (pick_room n m)) [
  | inl e ↦ rw (e, enter_user) (AllMilder-same us)
  | inr ((k, r), e) ↦ rw (e, enter_user) (enter_user-AllMilder r us u)
]

pub leave_user-AllMilder :
    (m : RoomManager) (us : Users) (n : ℤ) (u : ℕ) → AllMilder us (leave_user m us n u).2
unfolding leave_user
leave_user-AllMilder m us n u = elim (Option-cases (find_room m n)) [
  | inl e ↦ rw (e, leave_user) (AllMilder-same us)
  | inr ((k, r), e) ↦
      rw (e, leave_user)
        (AllMilder-at_user u (set_domain_state login) us
          (IsMilder-refl (us u) (set_domain_state login (us u)) refl))
]
