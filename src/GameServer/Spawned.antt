-- ===== src/GameServer/Spawned.antt =====
-- The chat command "/c": what it does to the room, and what the room's users see of it at the next tick.
use project_run_server.Base.{
  ℕ, ◌+◌, ◌≡◌, refl, sym, ap, subst, ◌∙◌, inl, inr, true, Bool-cases, List, [], ◌∷◌, ◌++◌, Option,
  some, ℤ, pos, length, length-append, arith,
}
use mathlib.Core.List.{Mem, mem-append_left, mem-append_right}
use project_run_server.Packets.{c_string}
use project_run_server.Gimmicks.Update.{update_gimmicks}
use project_run_server.Actors.{MotionFloats, Actor, init, new_npc, enter_npc}
use project_run_server.GameRoom.{FloatOps, GameRoom}
use project_run_server.GameRoom.Ready.{update_countdown}
use project_run_server.GameRoom.Tick.{
  TickSend, movement, tell, tell_each, of_countdown, needs_sync, npc_needs_sync, sync_packet,
  sync_users, sync_npcs, update,
}
use project_run_server.GameRoom.Members.{member}
use project_run_server.GameRoom.Synced.{Mem-tell}
use project_run_server.Redis.Tasks.{starts_with}
use project_run_server.GameServer.Play.{room_of}
use project_run_server.GameServer.Relays.{World}
use project_run_server.GameServer.Chat.{npc_command, spawn, chat_in, process_room_chat_message}
use project_run_server.GameServer.Logic.{scene_of}

module _ {F : Type 0} (fl : FloatOps F) (ml : MotionFloats F) where
  -- The last of the characters is told of if it has changed.
  Mem-sync_npcs :
      (told : List ℕ) (v : ℕ) (npcs : List (Actor F)) (a : Actor F)
      → member v told ≡ true
      → npc_needs_sync ml a ≡ true
      → Mem (v, movement (sync_packet ml (some 0) a)) (sync_npcs ml told (npcs ++ a ∷ [])).1
  unfolding sync_npcs
  Mem-sync_npcs told v [] a m needs =
      let sent = Mem-tell ml told v (movement (sync_packet ml (some 0) a)) m in
      let none_after : List (TickSend F) = [] in
      let here = mem-append_left none_after sent in rw (needs) here
  Mem-sync_npcs told v (b ∷ npcs) a m needs =
      let later = Mem-sync_npcs told v npcs a m needs in
      elim (Bool-cases (npc_needs_sync ml b)) [
        | inl e ↦
            let sent = mem-append_right (tell told (movement (sync_packet ml (some 0) b))) later in
            rw (e) sent
        | inr e ↦ rw (e) later
      ]

  new_npc-needs_sync : (i : ℤ) → npc_needs_sync ml (init ml.calc i (new_npc ml.calc)) ≡ true
  unfolding needs_sync init new_npc
  new_npc-needs_sync i = ground arith

  -- A chat message of a user in a room of the game server that begins with the command for a
  -- non-player character sends nothing and adds one character to the room's, and the next `Update`
  -- of the room tells each user `v` on its list of a new actor, whose number is 10000 and the
  -- number of characters before.
  pub process_room_chat_message-spawns :
      (bits : F → ℕ) (stoi : List ℕ → Option ℤ) (w : World F) (actors : ℕ → Actor F) (u v k : ℕ)
      (r : GameRoom F) (msg : List ℕ) (dt : F) (t1 t2 : ℤ) (now : ℕ)
      → room_of fl w.game u ≡ some (k, r)
      → starts_with npc_command (c_string msg) ≡ true
      → member v r.user_list ≡ true
      → let n = length (w.npcs k) in
        (w' : World F) × (process_room_chat_message fl ml.calc bits stoi w u msg ≡ some (w', []))
        × (length (w'.npcs k) ≡ n + 1)
        × Mem
            (
              v,
              movement (sync_packet ml (some 0) (init ml.calc (pos (10000 + n)) (new_npc ml.calc))),
            )
            (update ml fl dt t1 t2 now (scene_of k r (record { world = w'; actors = actors }))).1
  unfolding process_room_chat_message chat_in enter_npc update
  process_room_chat_message-spawns bits stoi w actors u v k r msg dt t1 t2 now found cmd m =
      let list = r.user_list in
      let npc = init ml.calc (pos (10000 + length (w.npcs k))) (new_npc ml.calc) in
      let w' = spawn fl ml.calc bits stoi k w in
      let here : w'.npcs k ≡ w.npcs k ++ npc ∷ [] = ground arith in
      let there =
        Mem-sync_npcs list v (w.npcs k) npc m
          (new_npc-needs_sync (pos (10000 + length (w.npcs k)))) in
      let moves =
        tell_each list (update_gimmicks ml.calc t1 dt (w.gimmicks k)).1
        ++ (sync_users ml list list actors).1 in
      let gs1 = (update_gimmicks ml.calc t1 dt (w.gimmicks k)).0 in
      let later = tell_each list (update_gimmicks ml.calc t2 dt gs1).1 in
      let counted = of_countdown (update_countdown fl dt now r).1 in
      let send : TickSend F = (v, movement (sync_packet ml (some 0) npc)) in
      (
        w',
        rw (process_room_chat_message, found, chat_in, cmd) refl,
        ap length here ∙ length-append (w.npcs k) (npc ∷ []),
        mem-append_left counted (
            mem-append_left later (
              mem-append_right moves
                (subst (λ npcs. Mem send (sync_npcs ml list npcs).1) (sym here) there))),
      )
