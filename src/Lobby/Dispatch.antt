-- ===== src/Lobby/Dispatch.antt =====
-- The lobby's packets behind their handlers, as `PacketManager::Init` of Lobby_PacketManager.cpp
-- registers them, and the room deletion that `LobbyManager::Init` hands to the Redis manager.
use project_run_server.Base.{ℕ, Bool, List, [], ◌∷◌, ◌++◌, ℤ}
use project_run_server.LobbyRooms.{clear_room}
use project_run_server.Lobby.{Lobby, Result, set_rooms}
use project_run_server.Lobby.Session.{
  process_login, process_login_db_result, process_user_connect, process_user_disconnect,
  process_time_sync,
}
use project_run_server.Lobby.RoomList.{process_room_list_request}
use project_run_server.Lobby.Rooms.{
  process_enter_room, process_leave_room, process_player_ready, process_character_select,
  process_room_chat_message,
}
use project_run_server.Lobby.Match.{process_game_start_request}

-- a registered packet with the fields that its handler reads; `unregistered` is any other id
pub data Request : Type 0 where
  sys_user_connect sys_user_disconnect : Request
  login_request : List ℕ → Request
  response_login : ℕ → Request
  response_notice : Request
  sys_time_sync_req : ℤ → ℤ → ℤ → Request
  room_enter_request : ℤ → List ℕ → Request
  room_leave_request : Request
  room_chat_request : List ℕ → Request
  room_list_req : Request
  room_char_select_req : ℤ → Request
  game_start_request : Request
  player_ready_request : Bool → Request
  unregistered : ℕ → Request

-- a packet of a client, or a call of `OnRoomDeleteCallback`
pub data Event : Type 0 where
  packet : ℕ → Request → Event
  room_delete : ℤ → Event

module _ (to_string : ℕ → List ℕ) (draw : ℕ → ℕ) where
  -- the handlers, most of which pass the packet on to the LobbyManager
  abbrev pub call_handler : ℕ → Request → Lobby → Result
  call_handler u sys_user_connect l = process_user_connect l u
  call_handler u sys_user_disconnect l = process_user_disconnect l u
  call_handler u (login_request id) l = process_login l u id
  call_handler u (response_login result) l = process_login_db_result l u result
  call_handler u response_notice l = (l, [])
  call_handler u (sys_time_sync_req stamp ping now) l = process_time_sync l u stamp ping now
  call_handler u (room_enter_request n title) l = process_enter_room l u n title
  call_handler u room_leave_request l = process_leave_room l u
  call_handler u (room_chat_request msg) l = process_room_chat_message l u msg
  call_handler u room_list_req l = process_room_list_request l u
  call_handler u (room_char_select_req c) l = process_character_select l u c
  call_handler u game_start_request l = process_game_start_request to_string draw l u
  call_handler u (player_ready_request ready) l = process_player_ready l u ready
  call_handler u (unregistered id) l = (l, [])

  unfoldable pub process_recv_packet : ℕ → Request → Lobby → Result
  process_recv_packet u q l = call_handler u q l

  unfoldable pub step : Event → Lobby → Result
  step (packet u q) l = process_recv_packet u q l
  step (room_delete n) l = (set_rooms (clear_room n l.rooms) l, [])

  -- the events of a history in order, with all that they send
  unfoldable pub run : List Event → Lobby → Result
  run [] l = (l, [])
  run (e ∷ es) l =
      let (l', effects) = step e l in let (l'', more) = run es l' in (l'', effects ++ more)
