-- ===== src/GameServer/Logic.antt =====
-- `LogicThread` of Game_PacketManager.cpp: one round after the other, each of which updates the rooms with
-- users, logs the traffic of about a second, and sleeps until the next tick. Times of the steady clock
-- are in nanoseconds.
use project_run_server.Base.{
  ℕ, zero, suc, ◌+◌, ◌-◌, ◌/◌, ◌==◌, ltb, leb, List, [], ◌++◌, Option, none, some, ℤ, pos,
  if◌then◌else◌,
}
use project_run_server.Actors.{MotionFloats, Actor}
use project_run_server.GameRoom.{FloatOps, GameRoom}
use project_run_server.GameRoom.Tick.{Scene, TickSend, update}
use project_run_server.GameServer.{find_room, put_room, set_rooms}
use project_run_server.GameServer.Relays.{World}

-- the game server with the actors of all users
pub record Stage (F : Type 0) : Type 0 where
  pub world : World F
  pub actors : ℕ → Actor F

-- the times that the `Update` of a room reads: twice for its gimmicks, and for the countdown
pub record RoomClock : Type 0 where
  pub first_ms : ℤ
  pub second_ms : ℤ
  pub now : ℕ

-- `nextTick`, `lastBandwidthCheckTime`, `m_TotalRecvBytes` and `m_TotalSendBytes`
pub record Pace : Type 0 where
  pub next_tick : ℕ
  pub last_bandwidth_check_time : ℕ
  pub total_recv_bytes : ℕ
  pub total_send_bytes : ℕ

abbrev pub tick_interval : ℕ
tick_interval = 20000000

abbrev pub one_second : ℕ
one_second = 1000000000

-- the end of a round in which the clock reads `now`: how long to sleep, and the bytes that are logged
unfoldable pub end_round : ℕ → Pace → Pace × Option ℕ × Option (ℕ × ℕ)
end_round now p =
    let next = p.next_tick + tick_interval in
    let logs = leb 1 ((now - p.last_bandwidth_check_time) / one_second) in
    let p1 =
      if logs
      then (record p {
        last_bandwidth_check_time = now;
        total_recv_bytes = 0;
        total_send_bytes = 0;
      })
      else p in
    (
      record p1 { next_tick = if ltb now next then next else now },
      if ltb now next then some (next - now) else none,
      if logs then some (p.total_recv_bytes, p.total_send_bytes) else none,
    )

-- the room at an index is replaced, with its gimmicks, its characters and the actors
abbrev pub put_scene : {F : Type 0} → ℕ → Scene F → Stage F → Stage F
put_scene k c s =
    let w = s.world in
    record {
      world = record w {
        game = set_rooms (put_room k c.room w.game.rooms) w.game;
        gimmicks = λ j. if j == k then c.gimmicks else w.gimmicks j;
        npcs = λ j. if j == k then c.npcs else w.npcs j;
      };
      actors = c.actors;
    }

abbrev pub scene_of : {F : Type 0} → ℕ → GameRoom F → Stage F → Scene F
scene_of k r s = record {
  room = r;
  gimmicks = s.world.gimmicks k;
  actors = s.actors;
  npcs = s.world.npcs k;
}

module _ {F : Type 0} (fl : FloatOps F) (ml : MotionFloats F) where
  -- FIXED_DELTA_TIME, 0.02f
  abbrev pub fixed_delta_time : F
  fixed_delta_time = ml.calc.ratio 2 100

  -- the body of the loop over the rooms, for room number `i`
  unfoldable pub update_room : (ℕ → RoomClock) → ℕ → Stage F → Stage F × List (TickSend F)
  update_room clock i s = elim (find_room s.world.game.rooms (pos i)) [
    | none ↦ (s, [])
    | some (k, r) ↦
        let c = clock i in
        let (scene, sends) =
          update ml fl fixed_delta_time c.first_ms c.second_ms c.now (scene_of k r s) in
        if ltb 0 r.current_user_count then (put_scene k scene s, sends) else (s, [])
  ]

  -- the loop over the rooms, for so many room numbers from `i` on
  unfoldable pub update_rooms : (ℕ → RoomClock) → ℕ → ℕ → Stage F → Stage F × List (TickSend F)
  update_rooms clock zero i s = (s, [])
  update_rooms clock (suc n) i s =
      let (s1, sends) = update_room clock i s in
      let (s2, more) = update_rooms clock n (suc i) s1 in (s2, sends ++ more)
