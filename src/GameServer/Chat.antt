-- ===== src/GameServer/Chat.antt =====
-- `ProcessRoomChatMessage` of Game_PacketManager.cpp, with the commands in a message. `std::stoi` is a
-- parameter, which gives `none` where it throws; nothing catches what it or `substr` throws.
use project_run_server.Base.{
  ℕ, ◌==◌, List, [], ◌∷◌, Option, none, some, ℤ, pos, minus_one, length, ltb, take, drop,
  if◌then◌else◌,
}
use project_run_server.Packets.{code, no_error, chat_room_invalid_room_number, c_string}
use project_run_server.GameRoom.{FloatOps, GameRoom}
use project_run_server.GameRoom.Doors.{notify_chat}
use project_run_server.Gimmicks.{GimmickFloats}
use project_run_server.Actors.{enter_npc}
use project_run_server.Redis.{request_notice, request_shop_update}
use project_run_server.Redis.Tasks.{starts_with}
use project_run_server.GameServer.{sent, user_of}
use project_run_server.GameServer.Play.{room_of}
use project_run_server.GameServer.Relays.{World, WorldEffect, relay, push, chat_response, effects}

-- "/c"
abbrev pub npc_command : List ℕ
npc_command = 47 ∷ 99 ∷ []

-- "/n"
abbrev pub notice_command : List ℕ
notice_command = 47 ∷ 110 ∷ []

-- "/shop_reset"
abbrev pub shop_reset_command : List ℕ
shop_reset_command = 47 ∷ 115 ∷ 104 ∷ 111 ∷ 112 ∷ 95 ∷ 114 ∷ 101 ∷ 115 ∷ 101 ∷ 116 ∷ []

-- "/t add"
abbrev pub time_command : List ℕ
time_command = 47 ∷ 116 ∷ 32 ∷ 97 ∷ 100 ∷ 100 ∷ []

module _ {F : Type 0} (fl : FloatOps F) (gl : GimmickFloats F) (bits : F → ℕ)
    (stoi : List ℕ → Option ℤ) where
  -- `none` is an exception that ends the server
  abbrev pub ChatOutcome : Type 0
  ChatOutcome = Option (World F × List (WorldEffect F))

  -- the command "/t add"; `substr(7)` throws if the text is shorter
  unfoldable pub add_time : World F → List ℕ → ChatOutcome
  add_time w cmd = if ltb (length cmd) 7 then none else (elim (stoi (drop 7 cmd)) [
    | none ↦ none
    | some t ↦ some (w, push (request_shop_update minus_one (some t)) ∷ [])
  ])

  -- the command "/c" in the room at an index
  abbrev pub spawn : ℕ → World F → World F
  spawn k w = record w { npcs = λ j. if j == k then enter_npc gl (w.npcs k) else w.npcs j }

  -- a message in the room at an index
  unfoldable pub chat_in : World F → ℕ → ℕ → GameRoom F → List ℕ → ChatOutcome
  chat_in w u k r msg =
      let cmd = c_string msg in
      if starts_with npc_command cmd
      then some (spawn k w, [])
      else if starts_with notice_command cmd
      then some (w, push (request_notice (pos u) (take 255 (drop 2 cmd))) ∷ [])
      else if starts_with shop_reset_command cmd
      then some (w, push (request_shop_update (pos u) none) ∷ [])
      else if starts_with time_command cmd
      then add_time w cmd
      else some (
        w,
        relay u (chat_response (code no_error))
            ∷ effects fl gl bits (sent (notify_chat fl r u (user_of w.game u).user_id msg)),
      )

  -- `ProcessRoomChatMessage`
  unfoldable pub process_room_chat_message : World F → ℕ → List ℕ → ChatOutcome
  process_room_chat_message w u msg = elim (room_of fl w.game u) [
    | none ↦ some (w, relay u (chat_response (code chat_room_invalid_room_number)) ∷ [])
    | some (k, r) ↦ chat_in w u k r msg
  ]
