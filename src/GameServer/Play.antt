-- ===== src/GameServer/Play.antt =====
-- A user's requests in a room: `ProcessEnterRoom`, `ProcessLeaveRoom`, `ProcessPlayerReady`,
-- `ProcessDungeonEscape`, `ProcessDungeonReturnVillage` and `ProcessSceneSync` of Game_PacketManager.cpp.
use project_run_server.Base.{
  ℕ, Bool, ◌==◌, List, [], ◌∷◌, ◌++◌, Option, none, some, ℤ, minus_one, eq_ℤ, if◌then◌else◌,
}
use project_run_server.Packets.{code, room_enter_response, room_leave_response}
use project_run_server.Users.{Pose, at_conn_idx, set_pose}
use project_run_server.GameRoom.{FloatOps, GameRoom, Totals}
use project_run_server.GameRoom.Doors.{notify_user_enter, sync_room_state_to_user}
use project_run_server.GameRoom.Ready
use project_run_server.GameRoom.Finish.{process_escape_request, handle_dungeon_return_village_req}
use project_run_server.GameServer.{
  Game, GameEffect, reply, sent, find_room, put_room, user_of, set_rooms, enter_room_number,
  leave_room_number,
}

-- zeroPos and zeroRot, as the bits of their floats
abbrev pub zero_pose : Pose
zero_pose = 0 ∷ 0 ∷ 0 ∷ 0 ∷ 0 ∷ 0 ∷ 1065353216 ∷ []

module _ {F : Type 0} (fl : FloatOps F) where
  -- `GetRoomByNumber(pUser->GetCurrentRoom())`
  unfoldable pub room_of : Game F → ℕ → Option (ℕ × GameRoom F)
  room_of g u = find_room g.rooms (user_of g u).room_index

  unfoldable pub announce : Game F → ℕ → ℤ → List GameEffect
  announce g u n = elim (find_room g.rooms n) [
    | none ↦ []
    | some (k, r) ↦ sent (notify_user_enter fl r u (user_of g u).user_id (user_of g u).character_id)
  ]

  -- a user who has been in a room leaves it
  unfoldable pub leave_first : Game F → ℕ → Game F × List GameEffect
  leave_first g u =
      let (code, g', effects) = leave_room_number fl g (user_of g u).room_index u in
      if eq_ℤ (user_of g u).room_index minus_one then (g, []) else (g', effects)

  -- `ProcessEnterRoom`, without its statistics
  unfoldable pub process_enter_room : Game F → ℕ → ℤ → Game F × List GameEffect
  process_enter_room g u n =
      let (g1, left) = leave_first g u in
      let g2 = record g1 { users = at_conn_idx u (set_pose zero_pose) g1.users } in
      let (result, g3, entered) = enter_room_number fl g2 n u in
      (
        g3,
        left
            ++ entered
            ++ reply u (room_enter_response (code result))
              ∷ (if code result == 0 then announce g3 u n else []),
      )

  -- `ProcessLeaveRoom`
  unfoldable pub process_leave_room : Game F → ℕ → Game F × List GameEffect
  process_leave_room g u =
      let (result, g', effects) = leave_room_number fl g (user_of g u).room_index u in
      (g', effects ++ reply u (room_leave_response (code result)) ∷ [])

  -- `ProcessPlayerReady`
  unfoldable pub process_player_ready : Game F → ℕ → Bool → Game F × List GameEffect
  process_player_ready g u ready = elim (room_of g u) [
    | none ↦ (g, [])
    | some (k, r) ↦
        let (r', sends) = Ready.process_player_ready fl r u ready in
        (set_rooms (put_room k r' g.rooms) g, sent sends)
  ]

  -- `ProcessDungeonEscape`
  unfoldable pub process_dungeon_escape : Game F → ℕ → Totals → ℕ → Game F × List GameEffect
  process_dungeon_escape g u req now = elim (room_of g u) [
    | none ↦ (g, [])
    | some (k, r) ↦
        let (r', sends) = process_escape_request fl r u req now in
        (set_rooms (put_room k r' g.rooms) g, sent sends)
  ]

  -- `ProcessDungeonReturnVillage`
  unfoldable pub process_dungeon_return_village : Game F → ℕ → Game F × List GameEffect
  process_dungeon_return_village g u = elim (room_of g u) [
    | none ↦ (g, [])
    | some (k, r) ↦ (g, sent (handle_dungeon_return_village_req fl r))
  ]

  -- `ProcessSceneSync`
  unfoldable pub process_scene_sync : Game F → ℕ → Game F × List GameEffect
  process_scene_sync g u = elim (room_of g u) [
    | none ↦ (g, [])
    | some (k, r) ↦ (g, sent (sync_room_state_to_user fl r g.users.user_obj_pool u))
  ]
