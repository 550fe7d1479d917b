-- ===== src/Lobby/Buffers.antt =====
-- No handler of the lobby adds anything to a receive buffer.
use project_run_server.Base.{
  ℕ, ◌+◌, ◌≡◌, ◌%◌, Bool, subst, sym, refl, true, inl, inr, List, [], ◌∷◌, ℤ, pos, eq_ℤ, minus_one,
  leb, ◌==◌, ◌&&◌, Option-cases, Bool-cases,
}
use project_run_server.Users.{
  Users, is_room, set_login, set_ping, clear, game, set_domain_state, at_user,
}
use project_run_server.Users.Buffers.{
  AllMilder, AllMilder-same, AllMilder-trans, AllMilder-at_user, IsMilder-refl, IsMilder-clear,
}
use project_run_server.Packets.{c_string}
use project_run_server.LobbyRooms.Buffers.{enter_user-AllMilder_at, leave_user-AllMilder}
use project_run_server.LobbyRooms.{find_room, put_room}
use project_run_server.LobbyRoom.{u16_mod, is_all_ready, set_is_playing, get_room_user_list}
use project_run_server.Lobby.{Lobby, user_of, room_of, set_rooms}
use project_run_server.Lobby.Session.{
  process_login, process_login_db_result, process_user_connect, leave_on_disconnect,
  process_user_disconnect, process_time_sync,
}
use project_run_server.Lobby.RoomList.{process_room_list_request}
use project_run_server.Lobby.Rooms.{
  leave_current, enter_new, title_room, leave_first, process_enter_room, process_leave_room,
  process_player_ready, process_character_select, process_room_chat_message,
}
use project_run_server.Lobby.Match.{
  hand_over, mark_playing, generate_game_session, sits_first, process_game_start_request,
}
use project_run_server.Lobby.Dispatch.{
  Request, sys_user_connect, sys_user_disconnect, login_request, sys_time_sync_req,
  room_enter_request, room_leave_request, room_chat_request, room_char_select_req,
  game_start_request, player_ready_request, process_recv_packet,
}

abbrev pool : Lobby → Users
pool l = l.users.user_obj_pool

process_login-AllMilder :
    (l : Lobby) (u : ℕ) (id : List ℕ) → AllMilder (pool l) (pool (process_login l u id).0)
unfolding process_login
process_login-AllMilder l u id =
    elim (Bool-cases (leb l.users.max_user_cnt l.users.current_user_cnt)) [
      | inl e ↦ rw (e, process_login) (AllMilder-same (pool l))
      | inr e ↦
          rw (e, process_login)
            (AllMilder-at_user u (set_login (c_string id)) (pool l)
              (IsMilder-refl (pool l u) (set_login (c_string id) (pool l u)) refl))
    ]

process_user_disconnect-AllMilder :
    (l : Lobby) (u : ℕ) → AllMilder (pool l) (pool (process_user_disconnect l u).0)
unfolding process_user_disconnect leave_on_disconnect
process_user_disconnect-AllMilder l u = elim (Bool-cases (is_room (user_of l u).domain_state)) [
  | inl e ↦
      let left = (leave_on_disconnect l u).0 in
      rw (e, process_user_disconnect)
        (AllMilder-trans (pool l) (pool left) (at_user u clear (pool left))
          (leave_user-AllMilder l.rooms (pool l) (user_of l u).room_index u)
          (AllMilder-at_user u clear (pool left) (IsMilder-clear (pool left u))))
  | inr e ↦
      rw (e, process_user_disconnect)
        (AllMilder-at_user u clear (pool l) (IsMilder-clear (pool l u)))
]

title_room-pool : (l : Lobby) (u : ℕ) (title : List ℕ) → pool (title_room l u title) ≡ pool l
unfolding title_room
title_room-pool l u title = elim (Option-cases (room_of l u)) [
  | inl e ↦ rw (e, title_room) refl
  | inr (k, e) ↦ rw (e, title_room) refl
]

leave_first-AllMilder : (l : Lobby) (u : ℕ) → AllMilder (pool l) (pool (leave_first l u).0)
unfolding leave_first leave_current
leave_first-AllMilder l u = elim (Bool-cases (eq_ℤ (user_of l u).room_index minus_one)) [
  | inl e ↦ rw (e, leave_first) (AllMilder-same (pool l))
  | inr e ↦ rw (e, leave_first) (leave_user-AllMilder l.rooms (pool l) (user_of l u).room_index u)
]

process_enter_room-AllMilder :
    (l : Lobby) (u : ℕ) (n : ℤ) (title : List ℕ)
    → AllMilder (pool l) (pool (process_enter_room l u n title).0)
unfolding process_enter_room enter_new
process_enter_room-AllMilder l u n title =
    let l1 = (leave_first l u).0 in
    let l2 = (enter_new l1 u n).1 in
    let both =
      AllMilder-trans (pool l) (pool l1) (pool l2) (leave_first-AllMilder l u)
        (enter_user-AllMilder_at l1.rooms (pool l1) n u) in
    elim (Bool-cases (((enter_new l1 u n).0 == 0) && eq_ℤ n minus_one)) [
      | inl e ↦ rw (process_enter_room, e, title_room-pool l2 u title) both
      | inr e ↦ rw (process_enter_room, e) both
    ]

hand_over-AllMilder :
    (to_string : ℕ → List ℕ) (draw : ℕ → ℕ) (port d : ℕ) (us : List ℕ) (l : Lobby)
    → AllMilder (pool l) (pool (hand_over to_string draw port d us l).0)
unfolding hand_over
hand_over-AllMilder to_string draw port d [] l = AllMilder-same (pool l)
hand_over-AllMilder to_string draw port d (u ∷ us) l =
    let l' = record l {
      users = record l.users { user_obj_pool = at_user u (set_domain_state game) (pool l) };
    } in
    AllMilder-trans (pool l) (pool l') (pool (hand_over to_string draw port (d + 1) us l').0)
      (AllMilder-at_user u (set_domain_state game) (pool l)
        (IsMilder-refl (pool l u) (set_domain_state game (pool l u)) refl))
      (hand_over-AllMilder to_string draw port (d + 1) us l')

mark_playing-pool :
    (to_string : ℕ → List ℕ) (draw : ℕ → ℕ) (num : ℕ) (l : Lobby)
    → pool (mark_playing to_string draw num l) ≡ pool l
unfolding mark_playing
mark_playing-pool to_string draw num l = elim (Option-cases (find_room l.rooms (pos num))) [
  | inl e ↦ rw (e, mark_playing) refl
  | inr (k, e) ↦ rw (e, mark_playing) refl
]

generate_game_session-AllMilder :
    (to_string : ℕ → List ℕ) (draw : ℕ → ℕ) (num : ℕ) (us : List ℕ) (l : Lobby)
    → AllMilder (pool l) (pool (generate_game_session to_string draw num us l).0)
unfolding generate_game_session
generate_game_session-AllMilder to_string draw num us l =
    let l1 = record l { next_game_port = (l.next_game_port + 1) % u16_mod } in
    let l2 = mark_playing to_string draw num l1 in
    subst (λ p. AllMilder p (pool (generate_game_session to_string draw num us l).0))
      (mark_playing-pool to_string draw num l1)
      (hand_over-AllMilder to_string draw l.next_game_port l.draws us l2)

process_game_start_request-AllMilder :
    (to_string : ℕ → List ℕ) (draw : ℕ → ℕ) (l : Lobby) (u : ℕ)
    → AllMilder (pool l) (pool (process_game_start_request to_string draw l u).0)
unfolding process_game_start_request generate_game_session
process_game_start_request-AllMilder to_string draw l u = elim (Option-cases (room_of l u)) [
  | inl e ↦ rw (e, process_game_start_request) (AllMilder-same (pool l))
  | inr ((k, r), e) ↦ elim (Bool-cases (sits_first to_string draw r u)) [
    | inr other ↦ rw (e, other, process_game_start_request) (AllMilder-same (pool l))
    | inl first ↦ elim (Bool-cases (is_all_ready r)) [
      | inr waits ↦ rw (e, first, waits, process_game_start_request) (AllMilder-same (pool l))
      | inl ready ↦
          let l' = set_rooms (put_room k (set_is_playing true r) l.rooms) l in
          rw (e, first, ready, process_game_start_request)
            (generate_game_session-AllMilder to_string draw r.room_num (get_room_user_list r) l')
    ]
  ]
]

process_player_ready-pool :
    (l : Lobby) (u : ℕ) (ready : Bool) → pool (process_player_ready l u ready).0 ≡ pool l
unfolding process_player_ready
process_player_ready-pool l u ready = elim (Option-cases (room_of l u)) [
  | inl e ↦ rw (e, process_player_ready) refl
  | inr (k, e) ↦ rw (e, process_player_ready) refl
]

process_character_select-pool :
    (l : Lobby) (u : ℕ) (c : ℤ) → pool (process_character_select l u c).0 ≡ pool l
unfolding process_character_select
process_character_select-pool l u c = elim (Option-cases (room_of l u)) [
  | inl e ↦ rw (e, process_character_select) refl
  | inr (k, e) ↦ rw (e, process_character_select) refl
]

process_room_chat_message-pool :
    (l : Lobby) (u : ℕ) (msg : List ℕ) → pool (process_room_chat_message l u msg).0 ≡ pool l
unfolding process_room_chat_message
process_room_chat_message-pool l u msg = elim (Option-cases (room_of l u)) [
  | inl e ↦ rw (e, process_room_chat_message) refl
  | inr (k, e) ↦ rw (e, process_room_chat_message) refl
]

AllMilder-pool : (l : Lobby) (us : Users) → us ≡ pool l → AllMilder (pool l) us
AllMilder-pool l us e = subst (AllMilder (pool l)) (sym e) (AllMilder-same (pool l))

-- After any request every buffer is as before, or cleared: valid if it was, with no more unread bytes.
pub process_recv_packet-AllMilder :
    (to_string : ℕ → List ℕ) (draw : ℕ → ℕ) (u : ℕ) (q : Request) (l : Lobby)
    → AllMilder (pool l) (pool (process_recv_packet to_string draw u q l).0)
unfolding process_recv_packet process_user_connect process_login_db_result process_time_sync
    process_leave_room leave_current process_room_list_request
process_recv_packet-AllMilder to_string draw u sys_user_connect l =
    AllMilder-at_user u clear (pool l) (IsMilder-clear (pool l u))
process_recv_packet-AllMilder to_string draw u sys_user_disconnect l =
    process_user_disconnect-AllMilder l u
process_recv_packet-AllMilder to_string draw u (login_request id) l = process_login-AllMilder l u id
process_recv_packet-AllMilder to_string draw u (sys_time_sync_req stamp ping now) l =
    AllMilder-at_user u (set_ping ping) (pool l)
      (IsMilder-refl (pool l u) (set_ping ping (pool l u)) refl)
process_recv_packet-AllMilder to_string draw u (room_enter_request n title) l =
    process_enter_room-AllMilder l u n title
process_recv_packet-AllMilder to_string draw u room_leave_request l =
    leave_user-AllMilder l.rooms (pool l) (user_of l u).room_index u
process_recv_packet-AllMilder to_string draw u (room_chat_request msg) l =
    AllMilder-pool l (pool (process_room_chat_message l u msg).0)
      (process_room_chat_message-pool l u msg)
process_recv_packet-AllMilder to_string draw u (room_char_select_req c) l =
    AllMilder-pool l (pool (process_character_select l u c).0) (process_character_select-pool l u c)
process_recv_packet-AllMilder to_string draw u game_start_request l =
    process_game_start_request-AllMilder to_string draw l u
process_recv_packet-AllMilder to_string draw u (player_ready_request ready) l =
    AllMilder-pool l (pool (process_player_ready l u ready).0) (process_player_ready-pool l u ready)
process_recv_packet-AllMilder to_string draw u _ l = AllMilder-same (pool l)
