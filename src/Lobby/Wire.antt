-- ===== src/Lobby/Wire.antt =====
-- The lobby's requests in the bytes of their packets: what the handlers of LobbyManager.h and
-- Lobby_PacketManager.cpp read through casts to the structs of Server/Common/Packet/Packet.h.
use project_run_server.Base.{
  ℕ, ◌==◌, Bool, true, false, ◌||◌, drop, List, [], ◌∷◌, Option, none, some, ℤ, if◌then◌else◌,
}
use project_run_server.Packets.{c_string}
use project_run_server.Packets.Ids
use project_run_server.Packets.Layout.{Layout, Value, number, text, encode, sizeof, int32_value}
use project_run_server.Packets.LobbyStructs.{
  login_request_packet, room_char_select_req_packet, room_enter_request_packet,
  room_leave_request_packet, room_chat_request_packet, game_start_req_packet,
}
use project_run_server.Packets.GameStructs.{player_ready_request_packet}
use project_run_server.Packets.Reading.{field, uint_at, int32_at, int64_at, bool_at, in_int32}
use project_run_server.PacketBuffer.{Packet}
use project_run_server.Lobby.{Lobby, Result}
use project_run_server.Lobby.Dispatch.{
  Request, sys_user_connect, sys_user_disconnect, login_request, response_login, response_notice,
  sys_time_sync_req, room_enter_request, room_leave_request, room_chat_request, room_list_req,
  room_char_select_req, game_start_request, player_ready_request, unregistered, process_recv_packet,
}

-- The entry of the dictionary for an id, with what its handler reads, at the time `now`. `SetLogin` reads
-- the name up to the first zero byte, and on through the password if the name's own field has none.
unfoldable pub request_of : ℤ → Packet → Request
request_of now p =
    let b = p.payload in
    let id = p.packet_id in
    if id == Ids.packet_number Ids.sys_user_connect
    then sys_user_connect
    else if id == Ids.packet_number Ids.sys_user_disconnect
    then sys_user_disconnect
    else if id == Ids.packet_number Ids.login_request
    then login_request (c_string (drop 5 b))
    else if id == 1011
    then response_login (uint_at 0 2 b)
    else if id == 1002
    then response_notice
    else if id == Ids.packet_number Ids.sys_time_sync_req
    then sys_time_sync_req (int64_at 5 b) (int32_at 13 b) now
    else if id == Ids.packet_number Ids.room_enter_request
    then room_enter_request (int32_at 5 b) (field 9 32 b)
    else if id == Ids.packet_number Ids.room_leave_request
    then room_leave_request
    else if id == Ids.packet_number Ids.room_chat_request
    then room_chat_request (field 5 257 b)
    else if id == Ids.packet_number Ids.room_list_req
    then room_list_req
    else if id == Ids.packet_number Ids.room_char_select_req
    then room_char_select_req (int32_at 5 b)
    else if id == Ids.packet_number Ids.game_start_request
    then game_start_request
    else if id == Ids.packet_number Ids.player_ready_request
    then player_ready_request (bool_at 5 b)
    else unregistered id

-- a packet as it comes off the buffer, at the time `now`
unfoldable pub process_packet : (ℕ → List ℕ) → (ℕ → ℕ) → ℤ → ℕ → Packet → Lobby → Result
process_packet to_string draw now u p l = process_recv_packet to_string draw u (request_of now p) l

-- the struct that a client fills for a request, and the values, with a password for a login
unfoldable pub client_form : List ℕ → Request → Option (Layout × List Value)
client_form pw (login_request id) = some (login_request_packet, text id ∷ text pw ∷ [])
client_form pw (room_enter_request n title) =
    some (room_enter_request_packet, int32_value n ∷ text title ∷ [])
client_form pw room_leave_request = some (room_leave_request_packet, [])
client_form pw (room_chat_request msg) = some (room_chat_request_packet, text msg ∷ [])
client_form pw (room_char_select_req c) = some (room_char_select_req_packet, int32_value c ∷ [])
client_form pw game_start_request = some (game_start_req_packet, number 0 ∷ [])
client_form pw (player_ready_request ready) =
    some (player_ready_request_packet, number (if ready then 1 else 0) ∷ [])
client_form pw _ = none

abbrev pub has_zero : List ℕ → Bool
has_zero [] = false
has_zero (c ∷ s) = (c == 0) || has_zero s

-- its numbers are in range, and a name ends with a zero byte within its field
abbrev pub is_plain : Request → Bool
is_plain (login_request id) = has_zero id
is_plain (room_enter_request n title) = in_int32 n
is_plain (room_char_select_req c) = in_int32 c
is_plain _ = true

-- what a client sends for a struct and values
abbrev pub packet_with : Layout → List Value → Packet
packet_with l vs = record {
  packet_id = Ids.packet_number l.id;
  data_size = sizeof l;
  payload = encode l vs;
}
