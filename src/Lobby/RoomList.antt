-- ===== src/Lobby/RoomList.antt =====
-- The room list of LobbyManager.h: `BroadcastRoomList` and `ProcessRoomListRequest`.
use project_run_server.Base.{
  ℕ, zero, suc, ◌+◌, ◌-◌, List, [], ◌∷◌, none, some, ℤ, pos, ltb, ◌==◌, eq_ℤ, if◌then◌else◌,
}
use project_run_server.Packets.{RoomInfo, room_list_res, ServerPacket}
use project_run_server.Users.{Users, is_login}
use project_run_server.LobbyRoom.{Room, get_user_by_slot, get_character_id_by_slot, is_slot_ready}
use project_run_server.LobbyRooms.{RoomManager, find_room}
use project_run_server.Lobby.{Lobby, Effect, send, Result}

-- pHost ? pHost->GetPing() : 0
abbrev pub host_ping : Users → Room → ℤ
host_ping us r = elim (get_user_by_slot r 0) [ none ↦ pos 0 | some u ↦ (us u).ping ]

-- 0 without a guest, 1 while the guest waits, 2 when the guest is ready; 0 for larger rooms, where
-- memset has left it
abbrev pub guest_ready_state : Room → ℕ
guest_ready_state r =
    if r.current_user_count == 1
    then 0
    else if r.current_user_count == 2
    then (if is_slot_ready r 1 then 2 else 1)
    else 0

-- The loop over the slots in `ProcessRoomListRequest`, with `n` slots left from slot `i` on: the
-- characters of the host and of the last other user.
unfoldable pub char_ids_from : ℕ → ℕ → Room → ℤ → ℤ → ℤ × ℤ
char_ids_from zero i r host guest = (host, guest)
char_ids_from (suc n) i r host guest =
    let c = get_character_id_by_slot r i in
    elim (get_user_by_slot r i) [
      | none ↦ char_ids_from n (i + 1) r host guest
      | some u ↦
          let is_host = eq_ℤ (pos u) r.host_uuid in
          char_ids_from n (i + 1) r (if is_host then c else host) (if is_host then guest else c)
    ]

-- An entry of the list; `chars` are the characters, both 0 in `BroadcastRoomList`.
unfoldable pub room_info : Users → Room → ℤ × ℤ → RoomInfo
room_info us r (host_char, guest_char) = record {
  room_num = r.room_num;
  cur_user = r.current_user_count;
  max_user = r.max_user_count;
  is_playing = r.is_playing;
  title = r.title;
  host_ping = host_ping us r;
  guest_ready_state = guest_ready_state r;
  host_char_id = host_char;
  guest_char_id = guest_char;
}

-- The loop of `BroadcastRoomList`, for the rooms numbered `i` and up to `n` more. It has no bound of
-- its own: from a 21st room with users on the code writes behind `res.rooms`.
unfoldable pub used_rooms : ℕ → ℕ → Users → RoomManager → List RoomInfo
used_rooms zero i us m = []
used_rooms (suc n) i us m =
    let rest = used_rooms n (i + 1) us m in
    elim (find_room m (pos i)) [
      | none ↦ rest
      | some (k, r) ↦
          if ltb 0 r.current_user_count then room_info us r (pos 0, pos 0) ∷ rest else rest
    ]

-- The loop over the users: those in the lobby get the list.
unfoldable pub send_to_lobby : ℕ → ℕ → Users → ServerPacket → List Effect
send_to_lobby zero i us p = []
send_to_lobby (suc n) i us p =
    let rest = send_to_lobby n (i + 1) us p in
    if is_login (us i).domain_state then send i p ∷ rest else rest

unfoldable pub broadcast_room_list : Lobby → List Effect
broadcast_room_list l =
    let us = l.users.user_obj_pool in
    send_to_lobby l.users.max_user_cnt 0 us
      (room_list_res (used_rooms l.rooms.max_room_count 0 us l.rooms))

-- The loop of `ProcessRoomListRequest`, which stops at the 20th entry; `left` more may be written.
unfoldable pub listed_rooms : ℕ → ℕ → ℕ → Users → RoomManager → List RoomInfo
listed_rooms zero i left us m = []
listed_rooms (suc n) i left us m = elim (find_room m (pos i)) [
  | none ↦ listed_rooms n (i + 1) left us m
  | some (k, r) ↦
      let used = ltb 0 r.current_user_count in
      let rest = listed_rooms n (i + 1) (if used then left - 1 else left) us m in
      if used
      then room_info us r (char_ids_from r.max_user_count 0 r (pos 0) (pos 1))
        ∷ (if ltb 1 left then rest else [])
      else rest
]

unfoldable pub process_room_list_request : Lobby → ℕ → Result
process_room_list_request l u = (
  l,
  send u (room_list_res (listed_rooms l.rooms.max_room_count 0 20 l.users.user_obj_pool l.rooms))
      ∷ [],
)
