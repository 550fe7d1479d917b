-- ===== src/Lobby/History.antt =====
-- Whatever the clients send, in whatever order, every room of the lobby stays valid.
use project_run_server.Base.{
  ℕ, ◌+◌, ◌≡◌, refl, sym, subst, inl, inr, true, List, [], ◌∷◌, pos, arith, Option-cases,
}
use project_run_server.LobbyRoom.{set_is_playing, get_room_user_list}
use project_run_server.LobbyRoom.Invariant.{set_is_playing-IsValid}
use project_run_server.LobbyRoom.Kept.{set_is_playing-SameRoom}
use project_run_server.LobbyRooms.{find_room, put_room}
use project_run_server.LobbyRooms.Invariant.{IsValid, clear_room-IsValid}
use project_run_server.Lobby.{Lobby, room_of, user_of, set_rooms}
use project_run_server.Lobby.Session.{
  process_login, process_login_db_result, process_user_connect, process_time_sync,
}
use project_run_server.Lobby.RoomList.{process_room_list_request}
use project_run_server.Lobby.Match.{
  hand_over, mark_playing, generate_game_session, process_game_start_request,
}
use project_run_server.Lobby.Dispatch.{
  sys_user_connect, sys_user_disconnect, login_request, response_login, response_notice,
  sys_time_sync_req, room_enter_request, room_leave_request, room_chat_request, room_list_req,
  room_char_select_req, game_start_request, player_ready_request, unregistered, Event, packet,
  room_delete, process_recv_packet, step, run,
}
use project_run_server.Lobby.Invariant.{
  found-IsValid, player_ready-IsValid, character_select-IsValid, process_enter_room-IsValid,
  process_leave_room-IsValid, disconnect-IsValid, chat-IsValid,
}

module _ (to_string : ℕ → List ℕ) (draw : ℕ → ℕ) (max : ℕ) where
  hand_over-rooms :
      (port d : ℕ) (us : List ℕ) (l : Lobby)
      → (hand_over to_string draw port d us l).0.rooms ≡ l.rooms
  unfolding hand_over
  hand_over-rooms port d [] l = refl
  hand_over-rooms port d (u ∷ us) l = hand_over-rooms port (d + 1) us _

  mark_playing-IsValid :
      (num : ℕ) (l : Lobby)
      → IsValid max l.rooms
      → IsValid max (mark_playing to_string draw num l).rooms
  unfolding mark_playing
  mark_playing-IsValid num l v = elim (Option-cases (find_room l.rooms (pos num))) [
    | inl e ↦ rw (e, mark_playing) v
    | inr ((k, r), e) ↦
        rw (e, mark_playing)
          (found-IsValid max l (pos num) k r (set_is_playing true r) v e
            (set_is_playing-IsValid true r) (set_is_playing-SameRoom true r))
  ]

  generate_game_session-IsValid :
      (num : ℕ) (us : List ℕ) (l : Lobby)
      → IsValid max l.rooms
      → IsValid max (generate_game_session to_string draw num us l).0.rooms
  unfolding generate_game_session
  generate_game_session-IsValid num us l v =
      subst (IsValid max) (sym (hand_over-rooms l.next_game_port l.draws us _))
        (mark_playing-IsValid num _ v)

  game_start-IsValid :
      (l : Lobby) (u : ℕ)
      → IsValid max l.rooms
      → IsValid max (process_game_start_request to_string draw l u).0.rooms
  unfolding process_game_start_request room_of
  game_start-IsValid l u v = elim (Option-cases (find_room l.rooms (user_of l u).room_index)) [
    | inl e ↦ rw (e, process_game_start_request) v
    | inr ((k, r), e) ↦
        let w =
          found-IsValid max l (user_of l u).room_index k r (set_is_playing true r) v e
            (set_is_playing-IsValid true r) (set_is_playing-SameRoom true r) in
        rw (e, process_game_start_request)
          (ground (
            arith,
            v,
            generate_game_session-IsValid r.room_num (get_room_user_list r)
                (set_rooms (put_room k (set_is_playing true r) l.rooms) l) w,
          ))
  ]

  -- One event keeps all rooms valid.
  step-IsValid :
      (e : Event) (l : Lobby) → IsValid max l.rooms → IsValid max (step to_string draw e l).0.rooms
  unfolding step process_recv_packet process_login process_login_db_result process_user_connect
      process_time_sync process_room_list_request
  step-IsValid (room_delete n) l v = clear_room-IsValid max n l.rooms v
  step-IsValid (packet u sys_user_connect) l v = v
  step-IsValid (packet u sys_user_disconnect) l v = disconnect-IsValid max l u v
  step-IsValid (packet u (login_request id)) l v = ground (arith, v)
  step-IsValid (packet u (response_login result)) l v = v
  step-IsValid (packet u response_notice) l v = v
  step-IsValid (packet u (sys_time_sync_req stamp ping now)) l v = v
  step-IsValid (packet u (room_enter_request n title)) l v =
      process_enter_room-IsValid max l u v n title
  step-IsValid (packet u room_leave_request) l v = process_leave_room-IsValid max l u v
  step-IsValid (packet u (room_chat_request msg)) l v = chat-IsValid max l u v msg
  step-IsValid (packet u room_list_req) l v = v
  step-IsValid (packet u (room_char_select_req c)) l v = character_select-IsValid max l u v c
  step-IsValid (packet u game_start_request) l v = game_start-IsValid l u v
  step-IsValid (packet u (player_ready_request ready)) l v = player_ready-IsValid max l u v ready
  step-IsValid (packet u (unregistered id)) l v = v

  -- Whatever packets the clients send and whichever rooms Redis deletes, in whatever order, every
  -- room of a valid lobby stays valid, under its number and of its size: its count is the number of
  -- seats taken, only taken seats are marked ready, and its host has a seat unless it is empty.
  pub run-IsValid :
      (es : List Event) (l : Lobby)
      → IsValid max l.rooms
      → IsValid max (run to_string draw es l).0.rooms
  unfolding run
  run-IsValid [] l v = v
  run-IsValid (e ∷ es) l v = run-IsValid es _ (step-IsValid e l v)
