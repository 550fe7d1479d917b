-- ===== src/GameServer/Dispatch.antt =====
-- The packets of the game server behind their handlers, as `PacketManager::Init` of
-- Game_PacketManager.cpp registers them: `ProcessRecvPacket` on the bytes of a packet, whose fields are
-- read where Server/Common/Packet/Packet.h and RedisTaskDefine.h lay them out. Packets of clients and
-- answers of Redis share one table. A field behind the end of the bytes reads as 0.
use project_run_server.Base.{ℕ, ◌+◌, ◌==◌, List, [], ◌∷◌, Option, none, some, ℤ, leb, if◌then◌else◌}
use project_run_server.PacketBuffer.{Packet}
use project_run_server.Packets.Ids
use project_run_server.Packets.Reading.{
  field, uint_at, int32_at, int64_at, int32s_at, floats_at, bool_at, is_true_at,
}
use project_run_server.GameRoom.{FloatOps, Totals}
use project_run_server.Gimmicks.{GimmickFloats, Vector3, GimmickRequest}
use project_run_server.GameServer.{Game, GameEffect}
use project_run_server.GameServer.Access.{
  process_game_server_auth, process_auth_db_result, process_user_connect, clear_connection_info,
}
use project_run_server.GameServer.Play.{
  process_enter_room, process_leave_room, process_player_ready, process_dungeon_escape,
  process_dungeon_return_village, process_scene_sync,
}
use project_run_server.GameServer.Relays.{
  World, effects, process_player_movement, process_player_state_change, process_player_action,
  process_player_dead, process_monster_dead_request, process_monster_packet,
  process_gimmick_interact, process_gimmick_bulk_reset, process_inventory_db_result, process_login,
  process_login_db_result, process_notice_db_result, process_time_sync,
}
use project_run_server.GameServer.Chat.{ChatOutcome, process_room_chat_message}

unfoldable pub totals_at : ℕ → List ℕ → Totals
totals_at i b = record {
  p1_push = int32_at i b;
  p1_pull = int32_at (i + 4) b;
  p1_fall = int32_at (i + 8) b;
  p1_destroy = int32_at (i + 12) b;
  p1_fall_kill = int32_at (i + 16) b;
  p2_push = int32_at (i + 20) b;
  p2_pull = int32_at (i + 24) b;
  p2_fall = int32_at (i + 28) b;
  p2_destroy = int32_at (i + 32) b;
  p2_fall_kill = int32_at (i + 36) b;
}

-- the handlers that `Init` registers
pub data Handler : Type 0 where
  user_connect user_disconnect time_sync game_server_auth auth_db_result : Handler
  login login_db_result notice_db_result enter_room leave_room : Handler
  room_chat_message player_movement player_state_change dungeon_escape dungeon_return_village :
      Handler
  scene_sync player_ready player_action gimmick_interact gimmick_bulk_reset : Handler
  player_dead inventory_db_result monster_dead_request monster_state_change monster_movement :
      Handler

-- `mRecvFuntionDictionary`
abbrev pub recv_function_dictionary : List (ℕ × Handler)
recv_function_dictionary =
    (Ids.packet_number Ids.sys_user_connect, user_connect)
    ∷ (Ids.packet_number Ids.sys_user_disconnect, user_disconnect)
    ∷ (Ids.packet_number Ids.sys_time_sync_req, time_sync)
    ∷ (Ids.packet_number Ids.game_auth_request, game_server_auth)
    ∷ (1014, auth_db_result)
    ∷ (Ids.packet_number Ids.login_request, login)
    ∷ (1011, login_db_result)
    ∷ (1002, notice_db_result)
    ∷ (Ids.packet_number Ids.room_enter_request, enter_room)
    ∷ (Ids.packet_number Ids.room_leave_request, leave_room)
    ∷ (Ids.packet_number Ids.room_chat_request, room_chat_message)
    ∷ (Ids.packet_number Ids.player_movement, player_movement)
    ∷ (Ids.packet_number Ids.player_status_ntf, player_state_change)
    ∷ (Ids.packet_number Ids.dungeon_escape_req, dungeon_escape)
    ∷ (Ids.packet_number Ids.dungeon_return_village_req, dungeon_return_village)
    ∷ (Ids.packet_number Ids.scene_sync_req, scene_sync)
    ∷ (Ids.packet_number Ids.player_ready_request, player_ready)
    ∷ (Ids.packet_number Ids.player_action_request, player_action)
    ∷ (Ids.packet_number Ids.player_gimmick_interact_request, gimmick_interact)
    ∷ (Ids.packet_number Ids.gimmick_bulk_reset_req, gimmick_bulk_reset)
    ∷ (Ids.packet_number Ids.player_dead_req, player_dead)
    ∷ (1092, inventory_db_result)
    ∷ (Ids.packet_number Ids.monster_dead_req, monster_dead_request)
    ∷ (Ids.packet_number Ids.monster_state_ntf, monster_state_change)
    ∷ (Ids.packet_number Ids.monster_movement, monster_movement)
    ∷ []

unfoldable pub find_handler : List (ℕ × Handler) → ℕ → Option Handler
find_handler [] id = none
find_handler ((k, h) ∷ table) id =
    let rest = find_handler table id in if k == id then some h else rest

-- the clock during a request: `system_clock` in milliseconds, and the time that a room takes
pub record Clock : Type 0 where
  pub now_ms : ℤ
  pub now : ℕ

module _ {F : Type 0} (of_bits : ℕ → F) where
  abbrev vector3_at : ℕ → List ℕ → Vector3 F
  vector3_at i b = record {
    x = of_bits (uint_at i 4 b);
    y = of_bits (uint_at (i + 4) 4 b);
    z = of_bits (uint_at (i + 8) 4 b);
  }

  -- PLAYER_GIMMICK_INTERACT_REQUEST_PACKET
  unfoldable pub gimmick_request : List ℕ → GimmickRequest F
  gimmick_request b = record {
    active_uuid = int64_at 5 b;
    gimmick_id = int32_at 13 b;
    gimmick_key = uint_at 17 1 b;
    state = uint_at 18 1 b;
    target_pos = vector3_at 19 b;
    param = of_bits (uint_at 31 4 b);
    timestamp = int64_at 35 b;
  }

module _ {F : Type 0} (fl : FloatOps F) (gl : GimmickFloats F) (bits : F → ℕ) (of_bits : ℕ → F)
    (stoi : List ℕ → Option ℤ) where
  -- a handler that works on the game alone
  abbrev in_game : World F → Game F × List GameEffect → ChatOutcome fl gl bits stoi
  in_game w (g, es) = some (record w { game = g }, effects fl gl bits es)

  unfoldable pub handle : Handler → Clock → World F → ℕ → ℕ → List ℕ → ChatOutcome fl gl bits stoi
  handle user_connect c w u size b = in_game w (process_user_connect fl w.game u)
  handle user_disconnect c w u size b = in_game w (clear_connection_info fl w.game u)
  handle time_sync c w u size b =
      if size == 17
      then some (process_time_sync fl gl bits w u (int64_at 5 b) c.now_ms)
      else some (w, [])
  handle game_server_auth c w u size b =
      in_game w
        (process_game_server_auth fl w.game u (field 5 64 b) (field 69 33 b) (int32_at 102 b))
  handle auth_db_result c w u size b =
      in_game w (process_auth_db_result fl w.game u (is_true_at 4 b))
  handle login c w u size b =
      if size == 71 then some (process_login fl gl bits w u (field 5 33 b)) else some (w, [])
  handle login_db_result c w u size b = some (process_login_db_result fl gl bits w u (field 2 33 b))
  handle notice_db_result c w u size b =
      some (process_notice_db_result fl gl bits w u (field 33 256 b))
  handle enter_room c w u size b = in_game w (process_enter_room fl w.game u (int32_at 5 b))
  handle leave_room c w u size b = in_game w (process_leave_room fl w.game u)
  handle room_chat_message c w u size b =
      process_room_chat_message fl gl bits stoi w u (field 5 257 b)
  handle player_movement c w u size b =
      some (process_player_movement fl gl bits w u (floats_at 17 7 b))
  handle player_state_change c w u size b =
      some (process_player_state_change fl gl bits w u (uint_at 13 1 b) b)
  handle dungeon_escape c w u size b =
      in_game w (process_dungeon_escape fl w.game u (totals_at 5 b) c.now)
  handle dungeon_return_village c w u size b =
      in_game w (process_dungeon_return_village fl w.game u)
  handle scene_sync c w u size b = in_game w (process_scene_sync fl w.game u)
  handle player_ready c w u size b = in_game w (process_player_ready fl w.game u (bool_at 5 b))
  handle player_action c w u size b =
      some (process_player_action fl gl bits w u (int64_at 5 b) (uint_at 13 1 b))
  handle gimmick_interact c w u size b =
      some (process_gimmick_interact fl gl bits w u (gimmick_request of_bits b))
  handle gimmick_bulk_reset c w u size b =
      some (process_gimmick_bulk_reset fl gl bits w u (int32_at 5 b) (int32s_at 9 20 b) c.now_ms)
  handle player_dead c w u size b = some (process_player_dead fl gl bits w u (floats_at 5 3 b))
  handle inventory_db_result c w u size b =
      some (process_inventory_db_result fl gl bits w u (int32s_at 4 5 b))
  handle monster_dead_request c w u size b =
      some (process_monster_dead_request fl gl bits w u (int64_at 5 b) (int32_at 13 b))
  handle monster_state_change c w u size b = some (process_monster_packet fl gl bits w u b)
  handle monster_movement c w u size b = some (process_monster_packet fl gl bits w u b)

  -- `ProcessRecvPacket`; an id that is not registered is logged
  unfoldable pub process_recv_packet : Clock → World F → ℕ → Packet → ChatOutcome fl gl bits stoi
  process_recv_packet c w u p = elim (find_handler recv_function_dictionary p.packet_id) [
    | none ↦ some (w, [])
    | some h ↦ handle h c w u p.data_size p.payload
  ]

  -- `DequePacketData` gave a packet; ids up to SYS_END end the loop of `ProcessPacket` for clients
  unfoldable pub process_client_packet : Clock → World F → ℕ → Packet → ChatOutcome fl gl bits stoi
  process_client_packet c w u p =
      if leb p.packet_id 30 then some (w, []) else process_recv_packet c w u p
