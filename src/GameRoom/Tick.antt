-- ===== src/GameRoom/Tick.antt =====
-- Server/GameServer/Room.h: `Update`, which the logic thread calls for a room, and what it sends: who has
-- moved, what gimmicks do, and the countdown.
use project_run_server.Base.{
  ℕ, ◌==◌, Bool, true, false, ◌||◌, not, List, [], ◌∷◌, ◌++◌, map, Option, none, some, ℤ, eq_ℤ,
  if◌then◌else◌,
}
use project_run_server.Gimmicks.{Vector3, Gimmick, GimmickNtf}
use project_run_server.Gimmicks.Update.{update_gimmicks}
use project_run_server.Actors.{
  MotionFloats, Quaternion, Actor, set_target, set_dirty, set_rotation, set_position,
}
use project_run_server.GameRoom.{FloatOps, GamePacket, GameSend, GameRoom}
use project_run_server.GameRoom.Ready.{update_countdown}

-- `UPDATE_PLAYER_MOVEMENT_PACKET`. A field is `none` if the code does not write it, or writes what it reads
-- through a dangling reference, as `GetLastInputSeq` returns one.
pub record MovementNtf (F : Type 0) : Type 0 where
  pub last_input_seq : Option ℕ
  pub user_uuid : ℤ
  pub current_pos : Vector3 F
  pub current_rot : Quaternion F
  pub current_speed : Option F
  pub axis_h : F
  pub axis_v : F
  pub is_moving : Bool

-- what `Update` sends
pub data TickPacket (F : Type 0) : Type 0 where
  movement : MovementNtf F → TickPacket F
  gimmick : GimmickNtf F → TickPacket F
  countdown : GamePacket → TickPacket F

abbrev pub TickSend : Type 0 → Type 0
TickSend F = ℕ × TickPacket F

-- a room with its gimmicks, the actors of all users, and `mNpcList`
pub record Scene (F : Type 0) : Type 0 where
  pub room : GameRoom F
  pub gimmicks : List (Gimmick F)
  pub actors : ℕ → Actor F
  pub npcs : List (Actor F)

abbrev pub at_actor : {F : Type 0} → ℕ → (Actor F → Actor F) → (ℕ → Actor F) → ℕ → Actor F
at_actor u f acts v = if v == u then f (acts v) else acts v

-- `BroadcastPacket` to the users of a list
abbrev pub tell : {F : Type 0} → List ℕ → TickPacket F → List (TickSend F)
tell list p = map (λ u. (u, p)) list

abbrev pub tell_each : {F : Type 0} → List ℕ → List (GimmickNtf F) → List (TickSend F)
tell_each list [] = []
tell_each list (n ∷ ns) = tell list (gimmick n) ++ tell_each list ns

abbrev pub of_countdown : {F : Type 0} → List GameSend → List (TickSend F)
of_countdown ss = map (λ (u, p). (u, countdown p)) ss

-- what was sent is noted
unfoldable pub settle : {F : Type 0} → Actor F → Actor F
settle a = record a { last_sent_pos = a.server_pos; last_sent_rot = a.rotation; is_dirty = false }

-- what `UDPRecvThread` of Game_PacketManager.cpp does to the actor that a movement datagram names
unfoldable pub follow_datagram :
    {F : Type 0} → Vector3 F → Quaternion F → F → F → ℕ → Actor F → Actor F
follow_datagram p rot axis_h axis_v seq a =
    set_target p rot axis_h axis_v seq (set_dirty true (set_rotation rot (set_position p a)))

module _ {F : Type 0} (ml : MotionFloats F) where
  -- `(a - b) * (a - b)`
  abbrev pub gap_sq : F → F → F
  gap_sq a b = ml.calc.mul (ml.calc.sub a b) (ml.calc.sub a b)

  -- `moveDistSq` of a user
  unfoldable pub move_dist_sq : Vector3 F → Vector3 F → F
  move_dist_sq cur last =
      ml.calc.add (ml.calc.add (gap_sq cur.x last.x) (gap_sq cur.y last.y)) (gap_sq cur.z last.z)

  -- `moveDistSq` of a non-player character, which does not count the height
  unfoldable pub move_dist_sq2d : Vector3 F → Vector3 F → F
  move_dist_sq2d cur last = ml.calc.add (gap_sq cur.x last.x) (gap_sq cur.z last.z)

  -- `rotDiffSq`
  unfoldable pub rot_diff_sq : Quaternion F → Quaternion F → F
  rot_diff_sq cur last =
      ml.calc.add
        (ml.calc.add (ml.calc.add (gap_sq cur.x last.x) (gap_sq cur.y last.y))
          (gap_sq cur.z last.z))
        (gap_sq cur.w last.w)

  -- the condition on which the movement of an actor is sent, for its `moveDistSq`
  unfoldable pub needs_sync : F → Actor F → Bool
  needs_sync dist_sq a =
      ml.calc.less (ml.calc.ratio 1 10000) dist_sq
      || ml.calc.less (ml.calc.ratio 1 10000) (rot_diff_sq a.rotation a.last_sent_rot)
      || a.is_dirty

  abbrev pub user_needs_sync : Actor F → Bool
  user_needs_sync a = needs_sync (move_dist_sq a.server_pos a.last_sent_pos) a

  abbrev pub npc_needs_sync : Actor F → Bool
  npc_needs_sync a = needs_sync (move_dist_sq2d a.server_pos a.last_sent_pos) a

  -- the packet about an actor
  unfoldable pub sync_packet : Option ℕ → Actor F → MovementNtf F
  sync_packet seq a = record {
    last_input_seq = seq;
    user_uuid = a.index;
    current_pos = a.server_pos;
    current_rot = a.rotation;
    current_speed = none;
    axis_h = a.axis_x;
    axis_v = a.axis_y;
    is_moving = not (ml.is_zero a.axis_x) || not (ml.is_zero a.axis_y);
  }

  -- the loop of `Update` over the users who may have moved, for the users who are told
  unfoldable pub sync_users : List ℕ → List ℕ → (ℕ → Actor F) → (ℕ → Actor F) × List (TickSend F)
  sync_users told [] acts = (acts, [])
  sync_users told (u ∷ movers) acts =
      let a = acts u in
      let moves = user_needs_sync a in
      let (acts', sends) =
        sync_users told movers (if moves then at_actor u settle acts else acts) in
      (acts', (if moves then tell told (movement (sync_packet none a)) else []) ++ sends)

  -- the loop of `Update` over `mNpcList`
  unfoldable pub sync_npcs : List ℕ → List (Actor F) → List (Actor F) × List (TickSend F)
  sync_npcs told [] = ([], [])
  sync_npcs told (a ∷ npcs) =
      let (npcs', sends) = sync_npcs told npcs in
      if npc_needs_sync a
      then (settle a ∷ npcs', tell told (movement (sync_packet (some 0) a)) ++ sends)
      else (a ∷ npcs', sends)

  -- `Update`, `dt` later: `t1` and `t2` are the times at which `UpdateGimmicks` reads the clock, and
  -- `now` the time at which the countdown does
  unfoldable pub update : FloatOps F → F → ℤ → ℤ → ℕ → Scene F → Scene F × List (TickSend F)
  update fl dt t1 t2 now s =
      let list = s.room.user_list in
      let (gs1, told1) = update_gimmicks ml.calc t1 dt s.gimmicks in
      let (actors', moves) = sync_users list list s.actors in
      let (npcs', npc_moves) = sync_npcs list s.npcs in
      let (gs2, told2) = update_gimmicks ml.calc t2 dt gs1 in
      let (room', counted) = update_countdown fl dt now s.room in
      (
        record { room = room'; gimmicks = gs2; actors = actors'; npcs = npcs' },
        tell_each list told1 ++ moves ++ npc_moves ++ tell_each list told2 ++ of_countdown counted,
      )

  -- `GetActorByUUID`: a user of the room, or one of its non-player characters
  unfoldable pub get_actor_by_uuid : ℤ → List ℕ → (ℕ → Actor F) → List (Actor F) → Option (Actor F)
  get_actor_by_uuid uuid [] acts [] = none
  get_actor_by_uuid uuid [] acts (n ∷ npcs) =
      let rest = get_actor_by_uuid uuid [] acts npcs in if eq_ℤ n.index uuid then some n else rest
  get_actor_by_uuid uuid (u ∷ list) acts npcs =
      let rest = get_actor_by_uuid uuid list acts npcs in
      if eq_ℤ (acts u).index uuid then some (acts u) else rest

  -- `BroadcastPacketInRange`: to the users who are not farther from the center than the range
  unfoldable pub broadcast_packet_in_range :
      {P : Type 0} → List ℕ → (ℕ → Actor F) → P → Vector3 F → F → List (ℕ × P)
  broadcast_packet_in_range [] acts p center range = []
  broadcast_packet_in_range (u ∷ list) acts p center range =
      let rest = broadcast_packet_in_range list acts p center range in
      if ml.calc.at_most (move_dist_sq (acts u).server_pos center) (ml.calc.mul range range)
      then (u, p) ∷ rest
      else rest
