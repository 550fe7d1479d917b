-- ===== src/Lobby/Rooms.antt =====
-- The handlers of LobbyManager.h for rooms: `ProcessEnterRoom`, `ProcessLeaveRoom`,
-- `ProcessPlayerReady`, `ProcessCharacterSelect`, `ProcessRoomChatMessage`.
use project_run_server.Base.{
  ℕ, zero, suc, ◌+◌, Bool, ◌&&◌, List, [], ◌∷◌, ◌++◌, none, some, ℤ, pos, minus_one, eq_ℤ, ◌==◌,
  if◌then◌else◌,
}
use project_run_server.Packets.{
  code, room_enter_response, room_leave_response, room_char_select_ntf,
}
use project_run_server.LobbyRoom.{
  Room, set_title, set_user_char_id, get_user_by_slot, broadcast_packet, notify_chat,
}
use project_run_server.LobbyRoom
use project_run_server.LobbyRooms.{find_room, put_room}
use project_run_server.LobbyRooms
use project_run_server.Lobby.{
  Lobby, Effect, send, Result, sent, user_of, set_rooms, set_users, room_of,
}
use project_run_server.Lobby.RoomList.{broadcast_room_list}

-- `mRoomManager->LeaveUser` in the lobby's state
unfoldable pub leave_current : Lobby → ℕ → ℕ × Lobby × List Effect
leave_current l u =
    let (c, m, us, sends) =
      LobbyRooms.leave_user l.rooms l.users.user_obj_pool (user_of l u).room_index u in
    (code c, set_rooms m (set_users us l), sent sends)

-- `mRoomManager->EnterUser` in the lobby's state
unfoldable pub enter_new : Lobby → ℕ → ℤ → ℕ × Lobby × List Effect
enter_new l u n =
    let (c, m, us, sends) = LobbyRooms.enter_user l.rooms l.users.user_obj_pool n u in
    (code c, set_rooms m (set_users us l), sent sends)

-- the title of a room that was just opened
unfoldable pub title_room : Lobby → ℕ → List ℕ → Lobby
title_room l u title = elim (room_of l u) [
  | none ↦ l
  | some (k, r) ↦ set_rooms (put_room k (set_title title r) l.rooms) l
]

-- A user who has been in a room leaves it before entering another.
unfoldable pub leave_first : Lobby → ℕ → Result
leave_first l u =
    if eq_ℤ (user_of l u).room_index minus_one
    then (l, [])
    else (let (result, l', effects) = leave_current l u in (l', effects))

unfoldable pub process_enter_room : Lobby → ℕ → ℤ → List ℕ → Result
process_enter_room l u n title =
    let (l1, left) = leave_first l u in
    let (result, l2, entered) = enter_new l1 u n in
    let l3 = if (result == 0) && eq_ℤ n minus_one then title_room l2 u title else l2 in
    (l3, left ++ entered ++ send u (room_enter_response result) ∷ broadcast_room_list l3)

unfoldable pub process_leave_room : Lobby → ℕ → Result
process_leave_room l u =
    let (result, l', left) = leave_current l u in
    (l', left ++ send u (room_leave_response result) ∷ broadcast_room_list l')

unfoldable pub process_player_ready : Lobby → ℕ → Bool → Result
process_player_ready l u ready = elim (room_of l u) [
  | none ↦ (l, [])
  | some (k, r) ↦
      let (r', sends) = LobbyRoom.process_player_ready r u ready in
      (set_rooms (put_room k r' l.rooms) l, sent sends)
]

-- The loop over the slots in `ProcessCharacterSelect`, with `n` slots left from slot `i` on: everybody
-- but the host gets the character that the host did not take.
unfoldable pub force_guests : ℕ → ℕ → ℕ → ℤ → Room → Room
force_guests zero i u c r = r
force_guests (suc n) i u c r = elim (get_user_by_slot r i) [
  | none ↦ force_guests n (i + 1) u c r
  | some v ↦ force_guests n (i + 1) u c (if v == u then r else set_user_char_id v c r)
]

unfoldable pub select_char : ℕ → ℤ → Room → Room
select_char u c r =
    let r' = set_user_char_id u c r in
    if eq_ℤ r'.host_uuid (pos u)
    then force_guests r'.max_user_count 0 u (if eq_ℤ c (pos 0) then pos 1 else pos 0) r'
    else r'

unfoldable pub process_character_select : Lobby → ℕ → ℤ → Result
process_character_select l u c = elim (room_of l u) [
  | none ↦ (l, [])
  | some (k, r) ↦
      let r' = select_char u c r in
      (set_rooms (put_room k r' l.rooms) l, sent (broadcast_packet r' (room_char_select_ntf u c)))
]

unfoldable pub process_room_chat_message : Lobby → ℕ → List ℕ → Result
process_room_chat_message l u msg = elim (room_of l u) [
  | none ↦ (l, [])
  | some (k, r) ↦ (l, sent (notify_chat r (user_of l u).user_id msg))
]
