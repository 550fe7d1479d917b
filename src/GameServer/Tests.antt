-- ===== src/GameServer/Tests.antt =====
-- A game server with one room, number 3, in which user 4 sits; user 9 has not been in a room.
use project_run_server.Base.{
  ℕ, suc, ◌+◌, ◌==◌, ◌≡◌, ◌≢◌, false, ◌<◌, refl, true, List, [], ◌∷◌, ◌++◌, some, ℤ, pos, minus_one,
  if◌then◌else◌, arith,
}
use project_run_server.Packets.{c_string}
use project_run_server.PacketBuffer.{Packet}
use project_run_server.Packets.Layout.{little_endian, all_fit, encode}
use project_run_server.Packets.GameStructs.{player_movement_packet}
use project_run_server.GameServer.Udp.{handled, udp_recv}
use project_run_server.GameServer.UdpPool.{
  UdpMemory, UdpStep, received, pushed, turn, system_turn, alloc_udp_buffer, run,
}
use project_run_server.GameServer.Leak.{kept, all_numbered, all_queued_bytes, run-kept}
use project_run_server.GameServer.Datagrams.{movement, udp_recv-moves}
use project_run_server.GameServer.Loop.{Server, process_packet}
use project_run_server.GameServer.Threads.{ran_out, process_packet-ends}
use project_run_server.Redis.{response_verify_token}
use project_run_server.Users.{Users, room, login, no_state, is_room}
use project_run_server.Slots.{contains, occupied}
use project_run_server.GameRoom.{GameRoom}
use project_run_server.GameRoom.Examples.{ticks, single, single-IsSeated, players}
use project_run_server.Redis.Tasks.{starts_with}
use project_run_server.GameServer.Relays.{World, effects}
use project_run_server.GameServer.Dispatch.{process_client_packet}
use project_run_server.GameServer.Forged.{is_fatal, process_client_packet-forged}
use project_run_server.GameServer.Examples.{wholes, no_bits, no_number, noon}
use project_run_server.GameServer.{Game, room_delete, find_room, user_of, leave_room_number}
use project_run_server.GameServer.Access.{process_auth_db_result, clear_connection_info}
use project_run_server.GameServer.Play.{process_enter_room, room_of}
use project_run_server.GameServer.Joining.{clear_connection_info-reports, process_enter_room-seats}

abbrev visitors : Users
visitors i =
    if i == 9
    then record (players i) { domain_state = login; room_index = minus_one }
    else players i

abbrev server : Game ℤ
server = record {
  rooms = record { room_list = single ∷ []; begin_room_number = 3; end_room_number = 4 };
  users = record {
    max_user_cnt = 10;
    current_user_cnt = 0;
    user_obj_pool = visitors;
    user_id_dictionary = [];
  };
}

the_room : find_room server.rooms (pos 3) ≡ some (0, single)
unfolding find_room
the_room = refl

in_it : (contains 4 single.slots ≡ true) × (occupied single.slots ≡ 1)
unfolding contains occupied
in_it = (refl, refl)

seat_left : occupied single.slots < single.max_user_count
seat_left = omega (arith, in_it.1)

clear_connection_info-reports_example :
    let (g', effects) = clear_connection_info ticks server 4 in
    (effects
      ≡ (leave_room_number ticks server (pos 3) 4).2
        ++ (if occupied single.slots == 1 then room_delete 4 (pos 3) ∷ [] else []))
    × ((user_of g' 4).domain_state ≡ no_state)
    × ((user_of g' 4).room_index ≡ minus_one)
clear_connection_info-reports_example =
    clear_connection_info-reports ticks server 4 0 single refl the_room single-IsSeated in_it.0

process_enter_room-seats_example :
    let g' = (process_enter_room ticks server 9 (pos 3)).0 in
    (r' : GameRoom ℤ) × (find_room g'.rooms (pos 3) ≡ some (0, r'))
    × (contains 9 r'.slots ≡ true)
    × (occupied r'.slots ≡ suc (occupied single.slots))
    × ((user_of g' 9).domain_state ≡ room)
    × ((user_of g' 9).room_index ≡ pos 3)
process_enter_room-seats_example =
    process_enter_room-seats ticks server 9 0 (pos 3) single refl the_room single-IsSeated seat_left

abbrev world : World ℤ
world = record { game = server; gimmicks = λ k. []; npcs = λ k. [] }

-- five bytes with the id 1014 and the type byte 1
abbrev forged_answer : Packet
forged_answer = record { packet_id = 1014; data_size = 5; payload = 5 ∷ 0 ∷ 246 ∷ 3 ∷ 1 ∷ [] }

process_client_packet-forged_example :
    let (g, es) = process_auth_db_result ticks server 9 true in
    (process_client_packet ticks wholes no_bits (λ x. pos x) no_number noon world 9 forged_answer
      ≡ some (record world { game = g }, effects ticks wholes no_bits es))
    × (is_room (user_of g 9).domain_state ≡ true)
unfolding little_endian
process_client_packet-forged_example =
    process_client_packet-forged ticks wholes no_bits (λ x. pos x) no_number noon world 9
      forged_answer refl refl

-- a chat message "/t add"
abbrev time_message : Packet
time_message = record {
  packet_id = 231;
  data_size = 262;
  payload = 6 ∷ 1 ∷ 231 ∷ 0 ∷ 0 ∷ 47 ∷ 116 ∷ 32 ∷ 97 ∷ 100 ∷ 100 ∷ 0 ∷ [];
}

-- User 4, who is in room 3, sends it: the server ends.
time_message_ends : is_fatal ticks wholes no_bits (λ x. pos x) no_number world 4 time_message ≡ true
unfolding starts_with room_of find_room c_string
time_message_ends = refl

-- User 9 is named by whoever sends the datagram.
udp_recv-moves_example :
    (w' : World ℤ) × (udp_recv ticks wholes no_bits world
        (pos 5)
        []
        (encode player_movement_packet (movement 9 1 10 20 30 0 0 0 1 0 0))
      ≡ handled w' [])
    × ((user_of w'.game 9).pose ≡ 10 ∷ 20 ∷ 30 ∷ 0 ∷ 0 ∷ 0 ∷ 1 ∷ [])
    × ((u : ℕ) → u ≢ 9 → user_of w'.game u ≡ user_of world.game u)
unfolding all_fit
udp_recv-moves_example =
    udp_recv-moves ticks wholes no_bits world (pos 5) [] 9 1 10 20 30 0 0 0 1 0 0 refl (omega arith)
      (omega arith)

-- two clients, one packet of the system and one answer of Redis
abbrev waiting : Server ℤ
waiting = record {
  world = world;
  in_coming_packet_user_index = 4 ∷ 9 ∷ [];
  system_packet_queue = (9, forged_answer) ∷ [];
  response_task = response_verify_token (pos 9) (pos 9) false ∷ [];
}

process_packet-ends_example :
    ran_out (process_packet ticks wholes no_bits (λ x. pos x) no_number 3 noon waiting) ≡ false
process_packet-ends_example =
    process_packet-ends ticks wholes no_bits (λ x. pos x) no_number 3 noon waiting (omega arith)
      (omega arith) (omega arith)

-- a datagram with the state of user 9, cut short behind the user
abbrev status_datagram : List ℕ
status_datagram = 13 ∷ 0 ∷ 243 ∷ 0 ∷ 0 ∷ 9 ∷ 0 ∷ 0 ∷ 0 ∷ 0 ∷ 0 ∷ 0 ∷ 0 ∷ []

abbrev fresh_memory : UdpMemory
fresh_memory = record { buf = []; udp_buffer_pool = []; system_packet_queue = []; next_address = 0 }

-- a user connects, two datagrams come in, and the packet thread takes all three packets
abbrev udp_history : List (UdpStep ℤ)
udp_history =
    pushed 11
    ∷ received world (pos 5) status_datagram
    ∷ received world (pos 6) status_datagram
    ∷ turn
    ∷ turn
    ∷ turn
    ∷ []

run-kept_example :
    kept (run ticks wholes no_bits udp_history fresh_memory)
    ≡ kept fresh_memory + all_queued_bytes [] udp_history
unfolding all_numbered
run-kept_example = run-kept ticks wholes no_bits udp_history fresh_memory refl

udp_bytes : all_queued_bytes [] udp_history ≡ 26
unfolding little_endian
udp_bytes = refl

udp_pool :
    (run ticks wholes no_bits udp_history fresh_memory).udp_buffer_pool
    ≡ record { address = 1; size = 13 } ∷ record { address = 0; size = 13 } ∷ []
unfolding run udp_recv little_endian system_turn
udp_pool = refl

-- After a state datagram, one of a single byte is queued as one too.
stale_bytes :
    all_queued_bytes {F = ℤ} []
      (received world (pos 5) status_datagram ∷ received world (pos 6) (1 ∷ []) ∷ [])
    ≡ 14
unfolding little_endian
stale_bytes = refl

-- What `AllocUdpBuffer` then gives has 13 bytes and not 2048.
udp_buffer_short :
    (alloc_udp_buffer (run ticks wholes no_bits udp_history fresh_memory)).0.size ≡ 13
unfolding run udp_recv little_endian system_turn alloc_udp_buffer
udp_buffer_short = refl
