-- ===== src/Packets/Ids.antt =====
-- `PACKET_ID` of Server/Common/Packet/Packet.h.
use project_run_server.Base.{ℕ}

pub data PacketId : Type 0 where
  sys_user_connect sys_user_disconnect sys_end sys_time_sync_req sys_time_sync_res : PacketId
  db_end login_request login_response room_list_req room_list_res room_enter_request : PacketId
  room_enter_response room_new_user_ntf room_user_info_ntf room_char_select_req : PacketId
  room_char_select_ntf game_start_request match_start_ntf room_full_sync_ntf : PacketId
  game_auth_request game_auth_response room_leave_request room_leave_response : PacketId
  room_leave_user_ntf room_host_ntf game_clear_ranking_req room_chat_request : PacketId
  room_chat_response room_chat_notify player_movement update_player_movement : PacketId
  player_status_ntf player_action_request player_action_ntf : PacketId
  player_gimmick_interact_request player_gimmick_interact_ntf gimmick_bulk_reset_req : PacketId
  gimmick_bulk_reset_ntf player_ready_request room_ready_status_ntf : PacketId
  game_start_countdown_ntf game_ready_cancel_ntf game_start_ntf scene_sync_req : PacketId
  dungeon_escape_req dungeon_clear_ntf dungeon_return_village_req : PacketId
  dungeon_return_village_ntf player_dead_req player_dead_ntf inventory_info shop_info : PacketId
  shop_buy_request shop_buy_response trade_request trade_request_ntf trade_response : PacketId
  trade_start_ntf trade_item_update trade_item_ntf trade_lock trade_lock_ntf : PacketId
  trade_confirm trade_result trade_confirm_ntf monster_spawn_ntf monster_movement : PacketId
  monster_state_ntf monster_dead_req monster_dead_ntf : PacketId

abbrev pub packet_number : PacketId → ℕ
packet_number sys_user_connect = 11
packet_number sys_user_disconnect = 12
packet_number sys_end = 30
packet_number sys_time_sync_req = 101
packet_number sys_time_sync_res = 102
packet_number db_end = 199
packet_number login_request = 201
packet_number login_response = 202
packet_number room_list_req = 203
packet_number room_list_res = 204
packet_number room_enter_request = 206
packet_number room_enter_response = 207
packet_number room_new_user_ntf = 208
packet_number room_user_info_ntf = 209
packet_number room_char_select_req = 210
packet_number room_char_select_ntf = 211
packet_number game_start_request = 215
packet_number match_start_ntf = 220
packet_number room_full_sync_ntf = 222
packet_number game_auth_request = 223
packet_number game_auth_response = 224
packet_number room_leave_request = 225
packet_number room_leave_response = 226
packet_number room_leave_user_ntf = 227
packet_number room_host_ntf = 228
packet_number game_clear_ranking_req = 229
packet_number room_chat_request = 231
packet_number room_chat_response = 232
packet_number room_chat_notify = 233
packet_number player_movement = 241
packet_number update_player_movement = 242
packet_number player_status_ntf = 243
packet_number player_action_request = 251
packet_number player_action_ntf = 252
packet_number player_gimmick_interact_request = 261
packet_number player_gimmick_interact_ntf = 262
packet_number gimmick_bulk_reset_req = 263
packet_number gimmick_bulk_reset_ntf = 264
packet_number player_ready_request = 271
packet_number room_ready_status_ntf = 272
packet_number game_start_countdown_ntf = 273
packet_number game_ready_cancel_ntf = 274
packet_number game_start_ntf = 275
packet_number scene_sync_req = 276
packet_number dungeon_escape_req = 281
packet_number dungeon_clear_ntf = 282
packet_number dungeon_return_village_req = 283
packet_number dungeon_return_village_ntf = 284
packet_number player_dead_req = 285
packet_number player_dead_ntf = 286
packet_number inventory_info = 301
packet_number shop_info = 302
packet_number shop_buy_request = 303
packet_number shop_buy_response = 304
packet_number trade_request = 310
packet_number trade_request_ntf = 311
packet_number trade_response = 312
packet_number trade_start_ntf = 313
packet_number trade_item_update = 314
packet_number trade_item_ntf = 315
packet_number trade_lock = 316
packet_number trade_lock_ntf = 317
packet_number trade_confirm = 318
packet_number trade_result = 319
packet_number trade_confirm_ntf = 320
packet_number monster_spawn_ntf = 401
packet_number monster_movement = 402
packet_number monster_state_ntf = 403
packet_number monster_dead_req = 404
packet_number monster_dead_ntf = 405
