-- ===== src/LobbyRooms/Tests.antt =====
-- Two rooms of two seats, with user 4 alone in room 0 and nobody or user 5 in room 1.
use project_run_server.Base.{
  ℕ, zero, suc, ◌<◌, ◌≡◌, ◌≢◌, refl, inl, inr, true, false, [], ◌∷◌, none, some, pos, minus_one,
  arith, get_elem?,
}
use project_run_server.PacketBuffer
use project_run_server.Users.{Users, login}
use project_run_server.Slots.{occupied, contains}
use project_run_server.LobbyRoom.{Room}
use project_run_server.LobbyRoom.Invariant.{IsValid as IsValidRoom}
use project_run_server.LobbyRooms.{RoomManager}
use project_run_server.LobbyRooms.Invariant.{IsValid}

abbrev empty_room : ℕ → Room
empty_room n = record {
  room_num = n;
  max_user_count = 2;
  slots = none ∷ none ∷ [];
  is_ready = false ∷ false ∷ [];
  char_ids = pos 0 ∷ pos 1 ∷ [];
  current_user_count = 0;
  host_uuid = minus_one;
  is_playing = false;
  title = [];
}

abbrev taken_room : ℕ → ℕ → Room
taken_room n u = record (empty_room n) {
  slots = some u ∷ none ∷ [];
  current_user_count = 1;
  host_uuid = pos u;
}

abbrev half : RoomManager
half = record {
  room_list = taken_room 0 4 ∷ empty_room 1 ∷ [];
  begin_room_number = 0;
  end_room_number = 2;
  max_room_count = 2;
}

abbrev full : RoomManager
full = record half { room_list = taken_room 0 4 ∷ taken_room 1 5 ∷ [] }

abbrev clients : Users
clients i = record {
  domain_state = login;
  room_index = minus_one;
  user_id = 65 ∷ i ∷ [];
  ping = pos 0;
  character_id = pos 0;
  inventory = [];
  pose = [];
  buffer = PacketBuffer.empty (λ j. 0);
}

empty_room-IsValid : (n : ℕ) → IsValidRoom (empty_room n)
unfolding occupied
empty_room-IsValid n = record {
  seated = record {
    small = omega arith;
    seats = refl;
    marks = refl;
    chars = refl;
    counted = refl;
    ready = (refl, (refl, tt));
  };
  host = inl refl;
}

taken_room-IsValid : (n u : ℕ) → IsValidRoom (taken_room n u)
unfolding occupied contains
taken_room-IsValid n u = record {
  seated = record {
    small = omega arith;
    seats = refl;
    marks = refl;
    chars = refl;
    counted = refl;
    ready = (refl, tt);
  };
  host = inr (u, refl, ground arith);
}

half-IsValid : IsValid 2 half
half-IsValid = record {
  rooms = ((taken_room-IsValid 0 4, refl, refl), ((empty_room-IsValid 1, refl, refl), tt));
  counted = refl;
  last = refl;
  small = omega arith;
}

full-IsValid : IsValid 2 full
full-IsValid = record {
  rooms = ((taken_room-IsValid 0 4, refl, refl), ((taken_room-IsValid 1 5, refl, refl), tt));
  counted = refl;
  last = refl;
  small = omega arith;
}

first_taken :
    (j : ℕ) (s : Room) → get_elem? half.room_list j ≡ some s → j < 1 → s.current_user_count ≢ 0
first_taken zero s e h = ground (arith, e)
first_taken (suc j) s e h = absurd (omega arith)

all_taken : (k : ℕ) (r : Room) → get_elem? full.room_list k ≡ some r → r.current_user_count ≢ 0
all_taken zero r e = ground (arith, e)
all_taken (suc zero) r e = ground (arith, e)
all_taken (suc (suc k)) r e = absurd (cc)

one_there : (occupied (taken_room 0 4).slots ≡ 1) × (contains 4 (taken_room 0 4).slots ≡ true)
unfolding occupied contains
one_there = (refl, refl)
