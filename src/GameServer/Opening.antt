-- ===== src/GameServer/Opening.antt =====
-- `RoomManager::Init` of the game server. The maps that it loads are left out.
use project_run_server.Base.{
  ℕ, zero, suc, ◌+◌, ◌-◌, ◌<◌, ◌≡◌, ap, ◌∙◌, List, [], ◌∷◌, some, pos, arith, get_elem?,
}
use project_run_server.GameRoom.{FloatOps, GameRoom}
use project_run_server.GameRoom.Doors
use project_run_server.GameServer.{GameRooms, find_room}

module _ {F : Type 0} (fl : FloatOps F) where
  -- the rooms from index `i` on
  make_rooms : ℕ → ℕ → ℕ → ℕ → List (GameRoom F)
  make_rooms zero i first max_users = []
  make_rooms (suc n) i first max_users =
      Doors.init fl (i + first) max_users ∷ make_rooms n (i + 1) first max_users

  init : ℕ → ℕ → ℕ → GameRooms F
  init first max_rooms max_users = record {
    room_list = make_rooms max_rooms 0 first max_users;
    begin_room_number = first;
    end_room_number = first + max_rooms;
  }

  get_elem?-make_rooms :
      (n i first max_users k : ℕ)
      → k < n
      → get_elem? (make_rooms n i first max_users) k
        ≡ some (Doors.init fl (i + k + first) max_users)
  unfolding make_rooms
  get_elem?-make_rooms zero i first max_users k h = absurd (omega arith)
  get_elem?-make_rooms (suc n) i first max_users zero h =
      let same : i + first ≡ i + 0 + first = omega arith in
      ap (λ j. some (Doors.init fl j max_users)) same
  get_elem?-make_rooms (suc n) i first max_users (suc k) h =
      let same : (i + 1) + k + first ≡ i + suc k + first = omega arith in
      get_elem?-make_rooms n (i + 1) first max_users k (omega arith)
      ∙ ap (λ j. some (Doors.init fl j max_users)) same

  -- A new manager finds each of its rooms, new and with its own number, under that number.
  find_room-init :
      (first max_rooms max_users k : ℕ)
      → k < max_rooms
      → find_room (init first max_rooms max_users) (pos (first + k))
        ≡ some (k, Doors.init fl (first + k) max_users)
  unfolding find_room init
  find_room-init first max_rooms max_users k h =
      let there = get_elem?-make_rooms max_rooms 0 first max_users k h in
      let index : first + k - first ≡ k = omega arith in
      let number : 0 + k + first ≡ first + k = omega arith in
      ground (arith, h, rw number at there, index)
