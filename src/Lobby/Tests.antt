-- ===== src/Lobby/Tests.antt =====
-- A lobby with the two rooms that it makes, and a capacity of 10 clients.
use project_run_server.Base.{
  ℕ, ◌==◌, ◌^◌, ◌-◌, replicate, ◌+◌, ◌%◌, ◌≡◌, refl, sym, ◌∙◌, true, false, ◌&&◌, List, [], ◌∷◌,
  some, pos, minus_one, arith, length, if◌then◌else◌,
}
use project_run_server.Packets.{room_list_res}
use project_run_server.PacketBuffer
use project_run_server.Packets.Layout.{number, text, all_fit}
use project_run_server.Packets.LobbyStructs.{room_enter_request_packet}
use project_run_server.PacketQueue.Drain.{AllValid, total}
use project_run_server.Redis.{response_login}
use project_run_server.Lobby.Thread.{Server, process_round, process_round-ends}
use project_run_server.Lobby.Wire.{process_packet, client_form, packet_with}
use project_run_server.Lobby.Decoding.{process_packet-encode}
use project_run_server.Users.{User, UserManager, login, room, game, set_domain_state}
use project_run_server.Slots.{users, contains}
use project_run_server.LobbyRoom.{Room, is_all_ready, guests_ready, get_user_by_slot}
use project_run_server.LobbyRooms.{init, find_room, get_room_by_number}
use project_run_server.LobbyRooms.Invariant.{IsValid, init-IsValid}
use project_run_server.Lobby.{Lobby, Effect, launch_game_server, user_of, room_of}
use project_run_server.Lobby.RoomList.{broadcast_room_list, used_rooms}
use project_run_server.Lobby.Match.{process_game_start_request, sits_first}
use project_run_server.Lobby.Dispatch.{
  Event, packet, room_delete, login_request, room_enter_request, room_leave_request,
  player_ready_request, game_start_request, sys_user_disconnect, run, Request, process_recv_packet,
}
use project_run_server.Lobby.History.{run-IsValid}
use project_run_server.Lobby.Listing.{received, broadcast_room_list-received}
use project_run_server.Lobby.Starting.{invitations, process_game_start_request_lem}

abbrev client : ℕ → User
client i = record {
  domain_state = login;
  room_index = minus_one;
  user_id = 65 ∷ [];
  ping = pos 20;
  character_id = pos 0;
  inventory = [];
  pose = [];
  buffer = PacketBuffer.empty (λ j. 0);
}

abbrev clients : UserManager
clients = record {
  max_user_cnt = 10;
  current_user_cnt = 0;
  user_obj_pool = client;
  user_id_dictionary = [];
}

abbrev fresh : Lobby
fresh = record { rooms = init 0 2 2; users = clients; next_game_port = 11021; draws = 0 }

abbrev digits : ℕ → List ℕ
digits n = n ∷ []

abbrev dice : ℕ → ℕ
dice i = 1000

abbrev history : List Event
history =
    packet 4 (login_request (65 ∷ 66 ∷ []))
    ∷ packet 4 (room_enter_request minus_one (72 ∷ []))
    ∷ packet 7 (room_enter_request (pos 0) [])
    ∷ packet 7 (player_ready_request true)
    ∷ packet 4 game_start_request
    ∷ packet 4 room_leave_request
    ∷ packet 7 sys_user_disconnect
    ∷ room_delete (pos 0)
    ∷ []

run-IsValid_example : IsValid 2 (run digits dice history fresh).0.rooms
run-IsValid_example = run-IsValid digits dice 2 history fresh (init-IsValid 0 2 2 (omega arith))

broadcast_room_list-received_example :
    received 3 (broadcast_room_list fresh)
    ≡ room_list_res (used_rooms fresh.rooms.max_room_count 0 client fresh.rooms) ∷ []
broadcast_room_list-received_example = broadcast_room_list-received fresh 3

-- Room 0 with both seats taken, where the guest is ready.
abbrev meeting : Room
meeting = record {
  room_num = 0;
  max_user_count = 2;
  slots = some 4 ∷ some 7 ∷ [];
  is_ready = false ∷ true ∷ [];
  char_ids = pos 0 ∷ pos 1 ∷ [];
  current_user_count = 2;
  host_uuid = pos 4;
  is_playing = false;
  title = [];
}

abbrev met : Lobby
met = record fresh {
  rooms = record {
    room_list = meeting ∷ [];
    begin_room_number = 0;
    end_room_number = 1;
    max_room_count = 1;
  };
  users = record clients {
    user_obj_pool = λ i. record (client i) { domain_state = room; room_index = pos 0 };
  };
}

meets : (u : ℕ) → room_of met u ≡ some (0, meeting)
unfolding room_of find_room get_room_by_number
meets u = refl

may_start :
    (sits_first digits dice meeting 4 ≡ true)
    × (is_all_ready meeting ≡ true)
    × (sits_first digits dice meeting 7 ≡ false)
unfolding sits_first is_all_ready guests_ready get_user_by_slot
may_start = (refl, refl, refl)

process_game_start_request_lem_example :
    let (l', effects) = process_game_start_request digits dice met 4 in
    (effects ≡ launch_game_server 11021 0 ∷ invitations digits dice 11021 0 (users meeting.slots))
    × (l'.next_game_port ≡ (11021 + 1) % 65536)
    × (l'.draws ≡ 0 + length (users meeting.slots))
    × ((w : ℕ)
        → user_of l' w ≡ (
            if contains w meeting.slots
            then set_domain_state game (user_of met w)
            else user_of met w))
process_game_start_request_lem_example =
    process_game_start_request_lem digits dice met 4 0 meeting (meets 4) may_start.0 may_start.1

guest_refused :
    (k : ℕ) (r : Room)
    → room_of met 7 ≡ some (k, r)
    → sits_first digits dice r 7 && is_all_ready r ≡ false
guest_refused k r e =
    let same : some (0, meeting) ≡ some (k, r) = sym (meets 7) ∙ e in
    ground (arith, same, may_start.2)

-- a request for any room, under the title "H"
abbrev any_room : Request
any_room = room_enter_request minus_one (72 ∷ replicate 31 0)

process_packet-encode_example :
    process_packet digits dice
      (pos 0)
      4
      (packet_with room_enter_request_packet
        (number (2 ^ 32 - 1) ∷ text (72 ∷ replicate 31 0) ∷ []))
      fresh
    ≡ process_recv_packet digits dice 4 any_room fresh
unfolding client_form all_fit
process_packet-encode_example =
    process_packet-encode digits dice (pos 0) 4 [] any_room room_enter_request_packet
      (number (2 ^ 32 - 1) ∷ text (72 ∷ replicate 31 0) ∷ []) fresh refl refl refl

-- every client has a time sync request of five bytes
abbrev busy : Lobby
busy = record fresh {
  users = record clients {
    user_obj_pool = λ i. record (client i) {
      buffer = record {
        bytes = λ j. if j == 0 then 5 else if j == 2 then 101 else 0;
        wpos = 5;
        rpos = 0;
      };
    };
  };
}

busy-AllValid : AllValid busy.users.user_obj_pool
busy-AllValid w = record { ordered = omega arith; within = omega arith }

total-busy : total 5 busy.users.user_obj_pool ≡ 25
unfolding total
total-busy = refl

-- two clients' packets, a client who connects, and a login that Redis has answered
abbrev busy_server : Server
busy_server = record {
  lobby = busy;
  in_coming_packet_user_index = 4 ∷ 3 ∷ [];
  system_packet_queue = (2, record { packet_id = 11; data_size = 5; payload = [] }) ∷ [];
  response_task = response_login (pos 4) 0 (65 ∷ []) ∷ [];
}

process_round-ends_example :
    (s' : Server) × (es : List Effect) × (process_round digits dice 26 (λ i. pos 0) busy_server
      ≡ some (s', es))
    × (s'.system_packet_queue ≡ [])
    × (s'.response_task ≡ [])
process_round-ends_example =
    process_round-ends digits dice 5 26 (λ i. pos 0) busy_server busy-AllValid (omega arith)
      (refl, tt) (omega (arith, total-busy)) (omega arith) (omega arith)
