-- ===== src/Packets/LobbyStructs.antt =====
-- The packet structs of Server/Common/Packet/Packet.h for time sync, the lobby and rooms.
use project_run_server.Base.{List, [], ◌∷◌, ◌++◌}
use project_run_server.Packets.Ids.{
  game_start_request, login_request, login_response, room_char_select_ntf, room_char_select_req,
  room_chat_notify, room_chat_request, room_chat_response, room_enter_request, room_enter_response,
  room_host_ntf, room_leave_request, room_leave_response, room_leave_user_ntf, room_list_res,
  room_new_user_ntf, room_user_info_ntf, sys_time_sync_req, sys_time_sync_res,
}
use project_run_server.Packets.Layout.{
  Layout, chars, int16, int32, int64, quaternion, repeated, room_info, vector3,
}

abbrev pub time_sync_req_packet : Layout
time_sync_req_packet = record { id = sys_time_sync_req; fields = int64 ∷ int32 ∷ [] }

abbrev pub time_sync_res_packet : Layout
time_sync_res_packet = record { id = sys_time_sync_res; fields = int64 ∷ int64 ∷ [] }

abbrev pub login_request_packet : Layout
login_request_packet = record { id = login_request; fields = chars 33 ∷ chars 33 ∷ [] }

abbrev pub login_response_packet : Layout
login_response_packet = record { id = login_response; fields = int16 ∷ int64 ∷ [] }

abbrev pub room_list_res_packet : Layout
room_list_res_packet = record { id = room_list_res; fields = int32 ∷ repeated 20 room_info }

abbrev pub room_char_select_req_packet : Layout
room_char_select_req_packet = record { id = room_char_select_req; fields = int32 ∷ [] }

abbrev pub room_char_select_ntf_packet : Layout
room_char_select_ntf_packet = record { id = room_char_select_ntf; fields = int64 ∷ int32 ∷ [] }

abbrev pub game_start_req_packet : Layout
game_start_req_packet = record { id = game_start_request; fields = int32 ∷ [] }

abbrev pub room_enter_request_packet : Layout
room_enter_request_packet = record { id = room_enter_request; fields = int32 ∷ chars 32 ∷ [] }

abbrev pub room_enter_response_packet : Layout
room_enter_response_packet = record { id = room_enter_response; fields = int16 ∷ int32 ∷ [] }

abbrev pub room_new_user_ntf_packet : Layout
room_new_user_ntf_packet = record { id = room_new_user_ntf; fields = int64 ∷ chars 33 ∷ int32 ∷ [] }

abbrev pub room_user_info_ntf_packet : Layout
room_user_info_ntf_packet = record {
  id = room_user_info_ntf;
  fields = int64 ∷ chars 33 ∷ vector3 ++ quaternion ++ int32 ∷ [];
}

abbrev pub room_host_ntf_packet : Layout
room_host_ntf_packet = record { id = room_host_ntf; fields = int64 ∷ [] }

abbrev pub room_leave_request_packet : Layout
room_leave_request_packet = record { id = room_leave_request; fields = [] }

abbrev pub room_leave_response_packet : Layout
room_leave_response_packet = record { id = room_leave_response; fields = int16 ∷ [] }

abbrev pub room_leave_user_ntf_packet : Layout
room_leave_user_ntf_packet = record { id = room_leave_user_ntf; fields = int64 ∷ chars 33 ∷ [] }

abbrev pub room_chat_request_packet : Layout
room_chat_request_packet = record { id = room_chat_request; fields = chars 257 ∷ [] }

abbrev pub room_chat_response_packet : Layout
room_chat_response_packet = record { id = room_chat_response; fields = int16 ∷ [] }

abbrev pub room_chat_notify_packet : Layout
room_chat_notify_packet = record { id = room_chat_notify; fields = chars 33 ∷ chars 257 ∷ [] }

abbrev pub lobby_packets : List Layout
lobby_packets =
    time_sync_req_packet ∷ time_sync_res_packet ∷ login_request_packet ∷ login_response_packet
    ∷ room_list_res_packet ∷ room_char_select_req_packet ∷ room_char_select_ntf_packet
    ∷ game_start_req_packet ∷ room_enter_request_packet ∷ room_enter_response_packet
    ∷ room_new_user_ntf_packet ∷ room_user_info_ntf_packet ∷ room_host_ntf_packet
    ∷ room_leave_request_packet ∷ room_leave_response_packet ∷ room_leave_user_ntf_packet
    ∷ room_chat_request_packet ∷ room_chat_response_packet ∷ room_chat_notify_packet ∷ []
