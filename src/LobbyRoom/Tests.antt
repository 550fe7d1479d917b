-- ===== src/LobbyRoom/Tests.antt =====
-- Lobby rooms of two seats: user 7 alone in the second seat, and users 4 and 7 together.
use project_run_server.Base.{
  ℕ, ◌<◌, ◌≡◌, ◌↔◌, refl, inr, true, false, [], ◌∷◌, ◌++◌, map, none, some, pos, arith,
}
use project_run_server.Packets.{room_leave_user_ntf, room_host_ntf, copy_user_id}
use project_run_server.PacketBuffer
use project_run_server.Users.{Users, login}
use project_run_server.Slots.{users, first_user, occupied, contains}
use project_run_server.LobbyRoom.{Room, leave_user, is_all_ready}
use project_run_server.LobbyRoom.Invariant.{IsValid}
use project_run_server.LobbyRoom.Host.{leave_user-host}
use project_run_server.LobbyRoom.Ready.{is_all_ready_iff, GuestsReady}

abbrev alone : Room
alone = record {
  room_num = 3;
  max_user_count = 2;
  slots = none ∷ some 7 ∷ [];
  is_ready = false ∷ false ∷ [];
  char_ids = pos 0 ∷ pos 1 ∷ [];
  current_user_count = 1;
  host_uuid = pos 7;
  is_playing = false;
  title = [];
}

abbrev together : Room
together = record alone {
  slots = some 4 ∷ some 7 ∷ [];
  is_ready = true ∷ false ∷ [];
  current_user_count = 2;
}

abbrev clients : Users
clients i = record {
  domain_state = login;
  room_index = pos 3;
  user_id = 65 ∷ i ∷ [];
  ping = pos 0;
  character_id = pos 0;
  inventory = [];
  pose = [];
  buffer = PacketBuffer.empty (λ j. 0);
}

alone-IsValid : IsValid alone
unfolding occupied contains
alone-IsValid = record {
  seated = record {
    small = omega arith;
    seats = refl;
    marks = refl;
    chars = refl;
    counted = refl;
    ready = (refl, tt);
  };
  host = inr (7, refl, refl);
}

together-IsValid : IsValid together
unfolding occupied contains
together-IsValid = record {
  seated = record {
    small = omega arith;
    seats = refl;
    marks = refl;
    chars = refl;
    counted = refl;
    ready = tt;
  };
  host = inr (7, refl, refl);
}

seat_left : occupied alone.slots < alone.max_user_count
unfolding occupied
seat_left = omega arith

two_sit : 1 < occupied together.slots
unfolding occupied
two_sit = omega arith

sits :
    (contains 7 together.slots ≡ true)
    × (contains 4 together.slots ≡ true)
    × (contains 4 alone.slots ≡ false)
unfolding contains
sits = (refl, refl, refl)

leave_user-host_example :
    let (r', sends) = leave_user together clients 7 in
    (w : ℕ) × (r'.host_uuid ≡ pos w)
    × (first_user r'.slots ≡ pos w)
    × (contains w r'.slots ≡ true)
    × (sends
        ≡ map (λ t. (t, room_leave_user_ntf 7 (copy_user_id (clients 7).user_id))) (users r'.slots)
          ++ map (λ t. (t, room_host_ntf (pos w))) (users r'.slots))
leave_user-host_example = leave_user-host together clients 7 together-IsValid refl sits.0 two_sit

is_all_ready_iff_example :
    (is_all_ready together ≡ true)
    ↔ ((occupied together.slots ≡ 2) × GuestsReady (pos 7) together.slots together.is_ready)
is_all_ready_iff_example = is_all_ready_iff together together-IsValid
