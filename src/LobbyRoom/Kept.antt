-- ===== src/LobbyRoom/Kept.antt =====
-- No method of a lobby room changes its number or its number of seats.
use project_run_server.Base.{ℕ, ◌≡◌, refl, Bool, List, ℤ, arith, Option-cases, inl, inr}
use project_run_server.Users.{Users}
use project_run_server.Slots.{find_slot}
use project_run_server.LobbyRoom.{
  Room, init, enter_user, take_seat, leave_user, free_seat, vacate, reset_empty, pass_host,
  process_player_ready, set_user_char_id, set_title, set_is_playing,
}

abbrev pub SameRoom : Room → Room → Type 0
SameRoom r r' = (r'.room_num ≡ r.room_num) × (r'.max_user_count ≡ r.max_user_count)

pub init_fields :
    (num max : ℕ) → ((init num max).room_num ≡ num) × ((init num max).max_user_count ≡ max)
unfolding init
init_fields num max = (refl, refl)

pub enter_user-SameRoom : (r : Room) (us : Users) (u : ℕ) → SameRoom r (enter_user r us u).1
unfolding enter_user take_seat
enter_user-SameRoom r us u = ground arith

free_seat-SameRoom : (r : Room) (us : Users) (u i : ℕ) → SameRoom r (free_seat r us u i).0
unfolding free_seat vacate reset_empty pass_host
free_seat-SameRoom r us u i = ground arith

pub leave_user-SameRoom : (r : Room) (us : Users) (u : ℕ) → SameRoom r (leave_user r us u).0
unfolding leave_user
leave_user-SameRoom r us u = elim (Option-cases (find_slot u r.slots)) [
  | inl e ↦ rw (e, leave_user) (refl, refl)
  | inr (i, e) ↦ rw (e, leave_user) (free_seat-SameRoom r us u i)
]

pub process_player_ready-SameRoom :
    (r : Room) (u : ℕ) (b : Bool) → SameRoom r (process_player_ready r u b).0
unfolding process_player_ready
process_player_ready-SameRoom r u b = ground arith

pub set_user_char_id-SameRoom : (u : ℕ) (c : ℤ) (r : Room) → SameRoom r (set_user_char_id u c r)
unfolding set_user_char_id
set_user_char_id-SameRoom u c r = ground arith

pub set_title-SameRoom : (t : List ℕ) (r : Room) → SameRoom r (set_title t r)
unfolding set_title
set_title-SameRoom t r = (refl, refl)

pub set_is_playing-SameRoom : (b : Bool) (r : Room) → SameRoom r (set_is_playing b r)
unfolding set_is_playing
set_is_playing-SameRoom b r = (refl, refl)
