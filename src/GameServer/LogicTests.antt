-- ===== src/GameServer/LogicTests.antt =====
-- Tests of the logic thread: two rounds on its clock, and a room with two users beside an empty one.
use project_run_server.Base.{
  ◌≤◌, ◌≡◌, refl, [], ◌∷◌, some, pos, get_elem?, length, true, arith, ℕ, ℤ,
}
use project_run_server.Actors.Examples.{whole_motion, runner}
use project_run_server.GameRoom.Examples.{ticks, pair, players}
use project_run_server.GameRoom.{GameRoom}
use project_run_server.GameRoom.TickTests.{platform}
use mathlib.Core.List.{Mem}
use project_run_server.Packets.{c_string}
use project_run_server.Actors.{init, new_npc}
use project_run_server.GameRoom.Tick.{movement, sync_packet, update}
use project_run_server.GameRoom.Members.{member}
use project_run_server.Redis.Tasks.{starts_with}
use project_run_server.GameServer.{find_room}
use project_run_server.GameServer.Play.{room_of}
use project_run_server.GameServer.Relays.{World}
use project_run_server.GameServer.Chat.{npc_command, process_room_chat_message}
use project_run_server.GameServer.Examples.{no_bits, no_number}
use project_run_server.GameServer.Spawned.{process_room_chat_message-spawns}
use project_run_server.GameServer.Logic.{scene_of, Stage, RoomClock, Pace, end_round, update_rooms}
use project_run_server.GameServer.Pacing.{
  end_of, end_of-paced, update_rooms-each, room_after, gimmicks_after,
}

abbrev start : Pace
start = record {
  next_tick = 5000000000;
  last_bandwidth_check_time = 4000000000;
  total_recv_bytes = 700;
  total_send_bytes = 300;
}

-- the traffic of a second is logged, and the thread sleeps for the rest of the tick
first_round : end_round 5001000000 start ≡ (
  record {
    next_tick = 5020000000;
    last_bandwidth_check_time = 5001000000;
    total_recv_bytes = 0;
    total_send_bytes = 0;
  },
  some 19000000,
  some (700, 300),
)
unfolding end_round
first_round = refl

-- a round that takes too long is not made up for
late : (end_round 5050000000 start).0.next_tick ≡ 5050000000
unfolding end_round
late = refl

end_of-paced_example :
    5040000000
    ≤ end_of 5000000000 start (
        record { begin = 5000000000; now = 5001000000 }
        ∷ record { begin = 5020500000; now = 5022000000 }
        ∷ [])
unfolding end_round
end_of-paced_example =
    end_of-paced 5000000000 start
      (record { begin = 5000000000; now = 5001000000 }
        ∷ record { begin = 5020500000; now = 5022000000 }
        ∷ [])
      (omega arith) (omega arith, omega arith, (omega arith, omega arith, tt))

abbrev counting : GameRoom ℤ
counting = record pair { countdown_timer = pos 90; last_announced_second = pos 2 }

abbrev stage : Stage ℤ
stage = record {
  world = record {
    game = record {
      rooms = record {
        room_list = record pair { current_user_count = 0 } ∷ counting ∷ [];
        begin_room_number = 0;
        end_room_number = 2;
      };
      users = record {
        max_user_cnt = 10;
        current_user_cnt = 0;
        user_obj_pool = λ u. record (players u) { room_index = pos 1 };
        user_id_dictionary = [];
      };
    };
    gimmicks = λ k. platform ∷ [];
    npcs = λ k. [];
  };
  actors = λ u. runner;
}

abbrev clock : ℕ → RoomClock
clock i = record { first_ms = pos 0; second_ms = pos 0; now = 7 }

update_rooms-each_example :
    let s' = (update_rooms ticks whole_motion clock 2 0 stage).0 in
    (get_elem? s'.world.game.rooms.room_list 1
      ≡ some (room_after ticks whole_motion (clock 1) counting))
    × (s'.world.gimmicks 1 ≡ gimmicks_after ticks whole_motion (clock 1) counting (platform ∷ []))
update_rooms-each_example =
    update_rooms-each ticks whole_motion clock 2 0 1 stage counting (refl, refl) (omega arith)
      (omega arith) refl

seven_listens : member 7 counting.user_list ≡ true
unfolding member
seven_listens = refl

found : room_of ticks stage.world.game 4 ≡ some (1, counting)
unfolding room_of find_room
found = refl

is_command : starts_with npc_command (c_string (47 ∷ 99 ∷ [])) ≡ true
unfolding starts_with c_string
is_command = refl

-- user 4 says "/c", and user 7 sees a character with the number 10000
process_room_chat_message-spawns_example :
    (w' : World ℤ) × (process_room_chat_message ticks whole_motion.calc no_bits no_number
        stage.world 4
        (47 ∷ 99 ∷ [])
      ≡ some (w', []))
    × (length (w'.npcs 1) ≡ 1)
    × Mem
        (
          7,
          movement (
              sync_packet whole_motion
                (some 0)
                (init whole_motion.calc (pos 10000) (new_npc whole_motion.calc))),
        )
        (update whole_motion ticks
          (pos 1)
          (pos 0)
          (pos 0)
          0
          (scene_of 1 counting (record { world = w'; actors = stage.actors }))).1
process_room_chat_message-spawns_example =
    process_room_chat_message-spawns ticks whole_motion no_bits no_number stage.world stage.actors 4
      7 1 counting (47 ∷ 99 ∷ []) (pos 1) (pos 0) (pos 0) 0 found is_command seven_listens
