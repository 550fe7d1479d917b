-- ===== src/LobbyRooms.antt =====
-- Server/LobbyServer/RoomManager.h: the lobby's rooms by number. A room is its index in `mRoomList`.
-- The server calls `Init` with the first room number 0, so numbers are modelled from a natural one.
pub mod Invariant
pub mod Entering
pub mod Buffers
mod Tests
use project_run_server.Base.{
  ℕ, zero, suc, ◌+◌, ◌-◌, Bool, true, false, ◌||◌, ltb, leb, ◌==◌, List, [], ◌∷◌, ◌++◌, Option,
  none, some, ℤ, pos, negsuc, eq_ℤ, minus_one, set, get_elem?, if◌then◌else◌,
}
use project_run_server.Packets.{ErrorCode, no_error, room_invalid_index, Send, ServerPacket}
use project_run_server.Users.{Users, at_user, set_domain_state, login}
use project_run_server.LobbyRoom.{Room, send_to_all_user}
use project_run_server.LobbyRoom

pub record RoomManager : Type 0 where
  pub room_list : List Room
  pub begin_room_number : ℕ
  pub end_room_number : ℕ
  pub max_room_count : ℕ

-- the loop of `Init`, for room `i` and those after it
abbrev pub make_rooms : ℕ → ℕ → ℕ → ℕ → List Room
make_rooms zero i first max_users = []
make_rooms (suc n) i first max_users =
    LobbyRoom.init (i + first) max_users ∷ make_rooms n (i + 1) first max_users

pub init : ℕ → ℕ → ℕ → RoomManager
init first max_rooms max_users = record {
  room_list = make_rooms max_rooms 0 first max_users;
  begin_room_number = first;
  end_room_number = first + max_rooms;
  max_room_count = max_rooms;
}

-- `GetRoomByNumber`: the index of the room, if the number is in range
unfoldable pub get_room_by_number : RoomManager → ℤ → Option ℕ
get_room_by_number m (negsuc n) = none
get_room_by_number m (pos n) =
    if ltb n m.begin_room_number || leb m.end_room_number n
    then none
    else some (n - m.begin_room_number)

-- a room behind a pointer that `GetRoomByNumber` returned, with the number it was asked for
unfoldable pub find_room : RoomManager → ℤ → Option (ℕ × Room)
unfolding get_room_by_number
find_room m n = elim (get_room_by_number m n) [
  | none ↦ none
  | some k ↦ elim (get_elem? m.room_list k) [ none ↦ none | some r ↦ some (k, r) ]
]

pub put_room : ℕ → Room → RoomManager → RoomManager
put_room k r m = record m { room_list = set m.room_list k r }

-- `ClearRoom`
pub clear_room : ℤ → RoomManager → RoomManager
clear_room (negsuc n) m = m
clear_room (pos n) m = elim (find_room m (pos n)) [
  | none ↦ m
  | some (k, r) ↦ put_room k (LobbyRoom.init n r.max_user_count) m
]

-- The loop of `EnterUser` for room number -1: the first of the rooms numbered `i` and up to `n` more
-- that has no users.
pub find_empty_room : ℕ → ℕ → RoomManager → Option (ℕ × Room)
find_empty_room zero i m = none
find_empty_room (suc n) i m =
    let rest = find_empty_room n (i + 1) m in
    elim (find_room m (pos i)) [
      | none ↦ rest
      | some (k, r) ↦ if r.current_user_count == 0 then some (k, r) else rest
    ]

-- the room that `EnterUser` picks
pub pick_room : ℤ → RoomManager → Option (ℕ × Room)
pick_room n m = if eq_ℤ n minus_one then find_empty_room m.max_room_count 0 m else find_room m n

pub enter_user : RoomManager → Users → ℤ → ℕ → ErrorCode × RoomManager × Users × List Send
enter_user m us n u = elim (pick_room n m) [
  | none ↦ (room_invalid_index, m, us, [])
  | some (k, r) ↦
      let (code, r', us', sends) = LobbyRoom.enter_user r us u in
      (code, put_room k r' m, us', sends)
]

-- `LeaveUser`
pub leave_user : RoomManager → Users → ℤ → ℕ → ErrorCode × RoomManager × Users × List Send
leave_user m us n u = elim (find_room m n) [
  | none ↦ (room_invalid_index, m, us, [])
  | some (k, r) ↦
      let us' = at_user u (set_domain_state login) us in
      let (r', sends) = LobbyRoom.leave_user r us' u in
      let m' = put_room k r' m in
      (no_error, if r'.current_user_count == 0 then clear_room n m' else m', us', sends)
]

-- `SendToAllUser`
pub send_to_all : List Room → ServerPacket → ℤ → Bool → List Send
send_to_all [] p pass except_me = []
send_to_all (r ∷ rs) p pass except_me =
    send_to_all_user r p pass except_me ++ send_to_all rs p pass except_me
