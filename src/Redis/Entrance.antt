-- ===== src/Redis/Entrance.antt =====
-- The way of a token through all the servers, from the lobby's game start to the player in a room of the
-- game server.
use project_run_server.Base.{
  ℕ, suc, ◌<◌, false, ◌+◌, ◌≡◌, true, List, [], ◌∷◌, ◌++◌, Option, some, ℤ, pos, get_elem?,
}
use project_run_server.Lobby.{Lobby}
use project_run_server.Lobby.Match.{token, hand_over}
use project_run_server.Users.{is_room}
use project_run_server.GameRoom.{FloatOps, GameRoom}
use project_run_server.GameRoom.Seats.{IsSeated}
use project_run_server.Slots.{contains, occupied}
use project_run_server.Gimmicks.{GimmickFloats}
use project_run_server.GameServer.{Game, verify_token as check_token, find_room, user_of}
use project_run_server.GameServer.Access.{
  process_game_server_auth, process_auth_db_result, target_room,
}
use project_run_server.GameServer.Relays.{World, WorldEffect, effects}
use project_run_server.GameServer.Dispatch.{Clock, process_recv_packet}
use project_run_server.GameServer.Loop.{response_packet}
use project_run_server.GameServer.Threads.{answer_verified}
use project_run_server.GameServer.Joining.{admitted, admitted-seated}
use project_run_server.Redis.{
  RedisConn, IsRedis, RedisResponse, request_verify_token, response_verify_token, RedisManager,
  Chance,
}
use project_run_server.Redis.Tasks.{process_task}
use project_run_server.Redis.Handover.{process_tasks}
use project_run_server.Redis.Admission.{NoZero, tasks_of, hand_over-admits}

module _ {F D : Type 0} (fl : FloatOps F) (gl : GimmickFloats F) (bits : F → ℕ) (of_bits : ℕ → F)
    (stoi : List ℕ → Option ℤ) (c : RedisConn D) (laws : IsRedis c) where
  -- A token that `GenerateGameSession` hands out leads into a slot of a room: the game server asks
  -- Redis for the very token that a user sends; once Redis has done the lobby's tasks, before any
  -- other and before the token expires, it has an answer; and when that answer comes back through
  -- the table, the user is in the room state and has one of the free slots of the room that the
  -- user is put into. This holds if the user was not in the room state before, that room exists
  -- with a free slot and with count and slots in step, the texts of numbers hold no zero byte, and
  -- Redis obeys its laws.
  pub hand_over-joins :
      (to_string : ℕ → List ℕ) (draw : ℕ → ℕ)
      → ((n : ℕ) → NoZero (to_string n))
      → (ch later : Chance) (port d : ℕ) (us : List ℕ) (l : Lobby) (j u : ℕ) (m : RedisManager D)
        (k : Clock) (asked : Game F) (w : World F) (v : ℕ) (name : List ℕ) (char : ℤ) (i : ℕ)
        (r : GameRoom F)
      → get_elem? us j ≡ some u
      → is_room (user_of w.game v).domain_state ≡ false
      → find_room w.game.rooms (target_room (user_of w.game v)) ≡ some (i, r)
      → IsSeated r
      → occupied r.slots < r.max_user_count
      → let t = token to_string draw u (d + j) in
        let m' = process_tasks c (tasks_of ch (hand_over to_string draw port d us l).1) m in
        ((process_game_server_auth fl asked v t name char).1 ≡ check_token v t ∷ [])
        × (answer : RedisResponse) × ((process_task c later
              (request_verify_token (pos v) (pos v) t)
              m').response_task
            ≡ m'.response_task ++ answer ∷ [])
        × (o : World F × List (WorldEffect F)) × (process_recv_packet fl gl bits of_bits stoi k w v
              (response_packet answer).1
            ≡ some o)
        × (is_room (user_of o.0.game v).domain_state ≡ true)
        × (r' : GameRoom F) × (find_room o.0.game.rooms (target_room (user_of w.game v))
            ≡ some (i, r'))
        × (contains v r'.slots ≡ true)
        × (occupied r'.slots ≡ suc (occupied r.slots))
  hand_over-joins to_string draw digits ch later port d us l j u m k asked w v name char i r e
        outside found seated left =
      let (asks, answers) =
        hand_over-admits to_string draw digits c laws fl ch later port d us l j u m asked v name
          char e in
      let (g, es) = process_auth_db_result fl w.game v true in
      let (r', there, inside, more) = admitted-seated fl w.game v i r outside found seated left in
      (
        asks,
        response_verify_token (pos v) (pos v) true,
        answers,
        (record w { game = g }, effects fl gl bits es),
        answer_verified fl gl bits of_bits stoi k w v (pos v) (pos v) true,
        admitted fl w.game v,
        r',
        there,
        inside,
        more,
      )
