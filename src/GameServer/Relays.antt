-- ===== src/GameServer/Relays.antt =====
-- The requests that Game_PacketManager.cpp passes on to the room or answers at once: movement, states,
-- actions, monsters, gimmicks, inventory, login and time sync. Positions of gimmicks are floats of the
-- type `F`; `bits` is the pattern of one, as it stands in a user's pose.
use project_run_server.Base.{
  ℕ, ◌%◌, ◌==◌, false, ◌&&◌, List, [], ◌∷◌, ◌++◌, map, none, some, ℤ, pos, leb, ltb, take, drop,
  if◌then◌else◌,
}
use project_run_server.Packets.{
  code, login_user_used_all_obj, login_response, time_sync_res, c_string,
}
use project_run_server.Users.{User, Pose, at_conn_idx, set_pose, set_login, is_room}
use project_run_server.GameRoom.{FloatOps, GameRoom, GamePacket, chat_ntf, send_to_users, u16}
use project_run_server.Gimmicks.{GimmickFloats, Vector3, Gimmick, GimmickRequest, GimmickNtf}
use project_run_server.Gimmicks.Interact
use project_run_server.Actors.{Actor}
use project_run_server.Redis.{RedisTask}
use project_run_server.GameServer.{Game, GameEffect, reply, sent, user_of}
use project_run_server.GameServer.Play.{room_of}

-- the game server with the gimmicks and the non-player characters of each room, by the room's index
pub record World (F : Type 0) : Type 0 where
  pub game : Game F
  pub gimmicks : ℕ → List (Gimmick F)
  pub npcs : ℕ → List (Actor F)

-- packets that are made up of a request, or are the request itself
pub data Relay (F : Type 0) : Type 0 where
  forward : List ℕ → Relay F
  action_ntf : ℕ → ℤ → ℕ → Relay F
  dead_ntf : ℕ → Pose → Relay F
  monster_dead_ntf : ℤ → ℤ → Relay F
  gimmick_ntf : GimmickNtf F → Relay F
  bulk_reset_ntf : List ℤ → Relay F
  chat_response : ℕ → Relay F
  inventory_info : ℕ → List ℤ → Relay F

-- what a handler does outside the state, in order
pub data WorldEffect (F : Type 0) : Type 0 where
  effect : GameEffect → WorldEffect F
  relay : ℕ → Relay F → WorldEffect F
  push : RedisTask → WorldEffect F

abbrev pub inventory_size : ℕ
inventory_size = 5

abbrev pub next_zone : ℕ
next_zone = 10

-- `SetPosition`
abbrev pub set_position : Pose → User → User
set_position p x = record x { pose = p ++ drop 3 x.pose }

-- `SetInventory`, for the slots from 0 on
abbrev pub set_inventory : List ℤ → User → User
set_inventory items x = record x { inventory = items }

module _ {F : Type 0} (fl : FloatOps F) (gl : GimmickFloats F) (bits : F → ℕ) where
  abbrev pub Outcome : Type 0
  Outcome = World F × List (WorldEffect F)

  abbrev pub set_game : Game F → World F → World F
  set_game g w = record w { game = g }

  abbrev pub set_user : ℕ → (User → User) → World F → World F
  set_user u f w = set_game (record w.game { users = at_conn_idx u f w.game.users }) w

  abbrev pub effects : List GameEffect → List (WorldEffect F)
  effects es = map effect es

  -- `BroadcastPacket`
  abbrev pub broadcast : GameRoom F → Relay F → List (WorldEffect F)
  broadcast r p = map (λ u. relay u p) r.user_list

  -- to the room of user `u`, if there is one
  unfoldable pub to_room : World F → ℕ → Relay F → List (WorldEffect F)
  to_room w u p = elim (room_of fl w.game u) [ none ↦ [] | some (k, r) ↦ broadcast r p ]

  -- `ProcessPlayerMovement`
  unfoldable pub process_player_movement : World F → ℕ → Pose → Outcome
  process_player_movement w u p = (set_user u (set_pose p) w, [])

  -- `ProcessPlayerStateChange`: the packet itself is passed on, unless it is a 0 from a user in a room
  unfoldable pub process_player_state_change : World F → ℕ → ℕ → List ℕ → Outcome
  process_player_state_change w u new_state packet =
      if (new_state == 0) && is_room (user_of w.game u).domain_state
      then (w, [])
      else (w, to_room w u (forward packet))

  unfoldable pub process_player_action : World F → ℕ → ℤ → ℕ → Outcome
  process_player_action w u target action = (w, to_room w u (action_ntf u target action))

  -- `ProcessPlayerDead`
  unfoldable pub process_player_dead : World F → ℕ → Pose → Outcome
  process_player_dead w u respawn = elim (room_of fl w.game u) [
    | none ↦ (w, [])
    | some (k, r) ↦ (set_user u (set_position respawn) w, broadcast r (dead_ntf u respawn))
  ]

  unfoldable pub process_monster_dead_request : World F → ℕ → ℤ → ℤ → Outcome
  process_monster_dead_request w u uuid monster = (w, to_room w u (monster_dead_ntf uuid monster))

  -- `ProcessMonsterStateChange` and `ProcessMonsterMovement`
  unfoldable pub process_monster_packet : World F → ℕ → List ℕ → Outcome
  process_monster_packet w u packet = (w, to_room w u (forward packet))

  abbrev pub position_bits : Vector3 F → Pose
  position_bits p = bits p.x ∷ bits p.y ∷ bits p.z ∷ []

  -- the packet of a portal; its `timestamp` is not written
  abbrev pub portal_ntf : GimmickRequest F → GimmickNtf F
  portal_ntf q = record {
    active_uuid = q.active_uuid;
    gimmick_id = q.gimmick_id;
    gimmick_key = q.gimmick_key;
    state = 2;
    target_pos = q.target_pos;
    param = some q.param;
    timestamp = none;
  }

  abbrev pub set_gimmicks : ℕ → List (Gimmick F) → World F → World F
  set_gimmicks k gs w = record w { gimmicks = λ j. if j == k then gs else w.gimmicks j }

  abbrev pub tell_all : GameRoom F → List (GimmickNtf F) → List (WorldEffect F)
  tell_all r [] = []
  tell_all r (n ∷ ns) = broadcast r (gimmick_ntf n) ++ tell_all r ns

  -- `ProcessGimmickInteract`
  unfoldable pub process_gimmick_interact : World F → ℕ → GimmickRequest F → Outcome
  process_gimmick_interact w u q = elim (room_of fl w.game u) [
    | none ↦ (w, [])
    | some (k, r) ↦
        let (gs, told) = Interact.process_gimmick_interact gl q (w.gimmicks k) in
        if q.gimmick_key == next_zone
        then (
          set_user u (set_position (position_bits q.target_pos)) w,
          broadcast r (gimmick_ntf (portal_ntf q)),
        )
        else (set_gimmicks k gs w, tell_all r told)
  ]

  -- `ProcessGimmickBulkReset` at the time `now`, for a count and the ids of the packet
  unfoldable pub process_gimmick_bulk_reset : World F → ℕ → ℤ → List ℤ → ℤ → Outcome
  process_gimmick_bulk_reset w u (pos count) all_ids now = elim (room_of fl w.game u) [
    | none ↦ (w, [])
    | some (k, r) ↦
        let ids = take count all_ids in
        let (gs, told) = Interact.reset_gimmicks gl now ids (w.gimmicks k) in
        if ltb 20 count
        then (w, [])
        else (set_gimmicks k gs w, broadcast r (bulk_reset_ntf ids) ++ tell_all r told)
  ]
  process_gimmick_bulk_reset w u count all_ids now = (w, [])

  -- `ProcessInventoryDBResult`
  unfoldable pub process_inventory_db_result : World F → ℕ → List ℤ → Outcome
  process_inventory_db_result w u items =
      (set_user u (set_inventory items) w, relay u (inventory_info u items) ∷ [])

  -- `ProcessLogin`; `userUUID` is not written
  unfoldable pub process_login : World F → ℕ → List ℕ → Outcome
  process_login w u id =
      if leb w.game.users.max_user_cnt w.game.users.current_user_cnt
      then (w, effects (reply u (login_response (code login_user_used_all_obj) none) ∷ []))
      else (
        set_user u (set_login (c_string id)) w,
        effects (reply u (login_response (u % u16) none) ∷ []),
      )

  -- `ProcessLoginDBResult`
  unfoldable pub process_login_db_result : World F → ℕ → List ℕ → Outcome
  process_login_db_result w u id = (
    set_user u (set_login (c_string id)) w,
    effects (reply u (login_response (u % u16) none) ∷ []),
  )

  -- `ProcessNoticeDBResult`: from "[GM]" to the users of all rooms; the text is cut to 255 bytes
  abbrev pub send_to_all_user : List (GameRoom F) → GamePacket → ℤ → List GameEffect
  send_to_all_user [] p pass = []
  send_to_all_user (r ∷ rs) p pass =
      sent (send_to_users r.user_list p pass false) ++ send_to_all_user rs p pass

  unfoldable pub process_notice_db_result : World F → ℕ → List ℕ → Outcome
  process_notice_db_result w u message = (
    w,
    effects (
        send_to_all_user w.game.rooms.room_list
          (chat_ntf (91 ∷ 71 ∷ 77 ∷ 93 ∷ []) (take 255 (c_string message))) (pos u)),
  )

  -- `ProcessTimeSync` at the time `now`
  unfoldable pub process_time_sync : World F → ℕ → ℤ → ℤ → Outcome
  process_time_sync w u stamp now = (w, effects (reply u (time_sync_res stamp now) ∷ []))
