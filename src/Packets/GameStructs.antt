-- ===== src/Packets/GameStructs.antt =====
-- The packet structs of Server/Common/Packet/Packet.h for the game, movement, gimmicks and monsters.
use project_run_server.Base.{List, [], ◌∷◌, ◌++◌}
use project_run_server.Packets.Ids.{
  dungeon_clear_ntf, dungeon_escape_req, dungeon_return_village_ntf, dungeon_return_village_req,
  game_auth_request, game_auth_response, game_clear_ranking_req, game_ready_cancel_ntf,
  game_start_countdown_ntf, game_start_ntf, gimmick_bulk_reset_req, match_start_ntf,
  monster_dead_ntf, monster_dead_req, monster_movement, monster_state_ntf, player_action_ntf,
  player_action_request, player_dead_ntf, player_dead_req, player_gimmick_interact_ntf,
  player_gimmick_interact_request, player_movement, player_ready_request, player_status_ntf,
  room_ready_status_ntf, scene_sync_req, update_player_movement,
}
use project_run_server.Packets.Layout.{
  Layout, chars, float32, int16, int32, int64, int8, quaternion, repeated, vector3,
}

abbrev pub match_start_ntf_packet : Layout
match_start_ntf_packet = record { id = match_start_ntf; fields = int16 ∷ int16 ∷ chars 64 ∷ [] }

abbrev pub game_auth_request_packet : Layout
game_auth_request_packet = record {
  id = game_auth_request;
  fields = chars 64 ∷ chars 33 ∷ int32 ∷ [];
}

abbrev pub game_auth_response_packet : Layout
game_auth_response_packet = record { id = game_auth_response; fields = int16 ∷ [] }

abbrev pub player_ready_request_packet : Layout
player_ready_request_packet = record { id = player_ready_request; fields = int8 ∷ [] }

abbrev pub room_ready_status_ntf_packet : Layout
room_ready_status_ntf_packet = record { id = room_ready_status_ntf; fields = int64 ∷ int8 ∷ [] }

abbrev pub game_start_countdown_ntf_packet : Layout
game_start_countdown_ntf_packet = record { id = game_start_countdown_ntf; fields = int32 ∷ [] }

abbrev pub game_start_ntf_packet : Layout
game_start_ntf_packet = record { id = game_start_ntf; fields = int32 ∷ [] }

abbrev pub game_ready_cancel_ntf_packet : Layout
game_ready_cancel_ntf_packet = record { id = game_ready_cancel_ntf; fields = int8 ∷ [] }

abbrev pub scene_sync_req_packet : Layout
scene_sync_req_packet = record { id = scene_sync_req; fields = int8 ∷ [] }

abbrev pub dungeon_escape_req_packet : Layout
dungeon_escape_req_packet = record {
  id = dungeon_escape_req;
  fields = int32 ∷ int32 ∷ int32 ∷ int32 ∷ int32 ∷ int32 ∷ int32 ∷ int32 ∷ int32 ∷ int32 ∷ [];
}

abbrev pub dungeon_clear_ntf_packet : Layout
dungeon_clear_ntf_packet = record {
  id = dungeon_clear_ntf;
  fields =
      int32 ∷ int32 ∷ int32 ∷ int32 ∷ int32 ∷ int32 ∷ int32 ∷ int32 ∷ int32 ∷ int32 ∷ int32 ∷ [];
}

abbrev pub dungeon_return_village_req_packet : Layout
dungeon_return_village_req_packet = record { id = dungeon_return_village_req; fields = int8 ∷ [] }

abbrev pub dungeon_return_village_ntf_packet : Layout
dungeon_return_village_ntf_packet = record { id = dungeon_return_village_ntf; fields = int8 ∷ [] }

abbrev pub game_clear_ranking_req_packet : Layout
game_clear_ranking_req_packet = record {
  id = game_clear_ranking_req;
  fields = float32 ∷ int32 ∷ [];
}

abbrev pub player_movement_packet : Layout
player_movement_packet = record {
  id = player_movement;
  fields = int64 ∷ int32 ∷ vector3 ++ quaternion ++ float32 ∷ float32 ∷ [];
}

abbrev pub update_player_movement_packet : Layout
update_player_movement_packet = record {
  id = update_player_movement;
  fields = int32 ∷ int64 ∷ vector3 ++ quaternion ++ float32 ∷ float32 ∷ float32 ∷ int8 ∷ [];
}

abbrev pub player_status_ntf_packet : Layout
player_status_ntf_packet = record {
  id = player_status_ntf;
  fields = int64 ∷ int8 ∷ vector3 ++ float32 ∷ int8 ∷ vector3 ++ int64 ∷ int64 ∷ [];
}

abbrev pub player_action_request_packet : Layout
player_action_request_packet = record { id = player_action_request; fields = int64 ∷ int8 ∷ [] }

abbrev pub player_action_ntf_packet : Layout
player_action_ntf_packet = record { id = player_action_ntf; fields = int64 ∷ int64 ∷ int8 ∷ [] }

abbrev pub player_gimmick_interact_request_packet : Layout
player_gimmick_interact_request_packet = record {
  id = player_gimmick_interact_request;
  fields = int64 ∷ int32 ∷ int8 ∷ int8 ∷ vector3 ++ float32 ∷ int64 ∷ [];
}

abbrev pub player_gimmick_interact_ntf_packet : Layout
player_gimmick_interact_ntf_packet = record {
  id = player_gimmick_interact_ntf;
  fields = int64 ∷ int32 ∷ int8 ∷ int8 ∷ vector3 ++ float32 ∷ int64 ∷ [];
}

abbrev pub gimmick_bulk_reset_packet : Layout
gimmick_bulk_reset_packet = record {
  id = gimmick_bulk_reset_req;
  fields = int32 ∷ repeated 20 (int32 ∷ []);
}

abbrev pub player_dead_req_packet : Layout
player_dead_req_packet = record { id = player_dead_req; fields = vector3 }

abbrev pub player_dead_ntf_packet : Layout
player_dead_ntf_packet = record { id = player_dead_ntf; fields = int64 ∷ vector3 }

abbrev pub monster_movement_packet : Layout
monster_movement_packet = record {
  id = monster_movement;
  fields = int64 ∷ int32 ∷ vector3 ++ quaternion ++ int64 ∷ [];
}

abbrev pub monster_state_packet : Layout
monster_state_packet = record {
  id = monster_state_ntf;
  fields = int64 ∷ int32 ∷ int8 ∷ vector3 ++ float32 ∷ int8 ∷ vector3 ++ int64 ∷ [];
}

abbrev pub monster_dead_req_packet : Layout
monster_dead_req_packet = record { id = monster_dead_req; fields = int64 ∷ int32 ∷ [] }

abbrev pub monster_dead_ntf_packet : Layout
monster_dead_ntf_packet = record { id = monster_dead_ntf; fields = int64 ∷ int32 ∷ [] }

abbrev pub game_packets : List Layout
game_packets =
    match_start_ntf_packet ∷ game_auth_request_packet ∷ game_auth_response_packet
    ∷ player_ready_request_packet ∷ room_ready_status_ntf_packet ∷ game_start_countdown_ntf_packet
    ∷ game_start_ntf_packet ∷ game_ready_cancel_ntf_packet ∷ scene_sync_req_packet
    ∷ dungeon_escape_req_packet ∷ dungeon_clear_ntf_packet ∷ dungeon_return_village_req_packet
    ∷ dungeon_return_village_ntf_packet ∷ game_clear_ranking_req_packet ∷ player_movement_packet
    ∷ update_player_movement_packet ∷ player_status_ntf_packet ∷ player_action_request_packet
    ∷ player_action_ntf_packet ∷ player_gimmick_interact_request_packet
    ∷ player_gimmick_interact_ntf_packet ∷ gimmick_bulk_reset_packet ∷ player_dead_req_packet
    ∷ player_dead_ntf_packet ∷ monster_movement_packet ∷ monster_state_packet
    ∷ monster_dead_req_packet ∷ monster_dead_ntf_packet ∷ []
