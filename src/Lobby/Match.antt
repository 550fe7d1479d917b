-- ===== src/Lobby/Match.antt =====
-- `ProcessGameStartRequest` and `GenerateGameSession` of LobbyManager.h. The text of a number and the
-- numbers that the random engine draws from 1000 to 9999 are parameters.
use project_run_server.Base.{
  ℕ, ◌+◌, ◌%◌, Bool, true, false, not, List, [], ◌∷◌, ◌++◌, none, some, pos, take, ◌==◌,
  if◌then◌else◌,
}
use project_run_server.Packets.{match_start_ntf}
use project_run_server.Users.{game, set_domain_state, at_conn_idx}
use project_run_server.LobbyRoom.{
  Room, u16_mod, set_is_playing, get_user_by_slot, get_room_user_list, is_all_ready,
}
use project_run_server.LobbyRooms.{find_room, put_room}
use project_run_server.Lobby.{
  Lobby, send, launch_game_server, set_auth_token, Result, set_rooms, room_of,
}

module _ (to_string : ℕ → List ℕ) (draw : ℕ → ℕ) where
  -- "TOKEN_" + index + "_" + number, cut by `StringCbCopyA` to 63 bytes
  unfoldable pub token : ℕ → ℕ → List ℕ
  token u d = take 63 (84 ∷ 79 ∷ 75 ∷ 69 ∷ 78 ∷ 95 ∷ to_string u ++ 95 ∷ to_string (draw d))

  -- The loop over the users of the room, for the `d`-th draw and those after it.
  unfoldable pub hand_over : ℕ → ℕ → List ℕ → Lobby → Result
  hand_over port d [] l = (record l { draws = d }, [])
  hand_over port d (u ∷ us) l =
      let l' = record l { users = at_conn_idx u (set_domain_state game) l.users } in
      let (l'', effects) = hand_over port (d + 1) us l' in
      (l'', set_auth_token u (token u d) ∷ send u (match_start_ntf port port (token u d)) ∷ effects)

  -- `GetRoomByNumber(roomNum)` and `SetIsPlaying(true)`
  unfoldable pub mark_playing : ℕ → Lobby → Lobby
  mark_playing num l = elim (find_room l.rooms (pos num)) [
    | none ↦ l
    | some (k, r) ↦ set_rooms (put_room k (set_is_playing true r) l.rooms) l
  ]

  unfoldable pub generate_game_session : ℕ → List ℕ → Lobby → Result
  generate_game_session num us l =
      let port = l.next_game_port in
      let l1 = record l { next_game_port = (port + 1) % u16_mod } in
      let (l2, effects) = hand_over port l.draws us (mark_playing num l1) in
      (l2, launch_game_server port num ∷ effects)

  -- pHost == nullptr || pHost->GetNetConnIdx() != clientIndex_, the other way round
  unfoldable pub sits_first : Room → ℕ → Bool
  sits_first r u = elim (get_user_by_slot r 0) [ none ↦ false | some v ↦ v == u ]

  unfoldable pub process_game_start_request : Lobby → ℕ → Result
  process_game_start_request l u = elim (room_of l u) [
    | none ↦ (l, [])
    | some (k, r) ↦
        if not (sits_first r u)
        then (l, [])
        else if is_all_ready r
        then generate_game_session r.room_num (get_room_user_list r)
            (set_rooms (put_room k (set_is_playing true r) l.rooms) l)
        else (l, [])
  ]
