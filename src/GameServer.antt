-- ===== src/GameServer.antt =====
-- The game server around its rooms: Server/GameServer/RoomManager.h here, and the handlers of
-- Server/GameServer/Game_PacketManager.cpp, with the table that calls them, in the children.
pub mod Access
pub mod Play
pub mod Relays
pub mod Chat
pub mod Dispatch
mod Forged
mod Requests
mod Udp
pub mod Loop
pub mod Logic
mod Pacing
mod Spawned
pub mod Threads
mod UdpPool
mod Leak
mod Datagrams
pub mod Examples
mod Opening
pub mod Joining
mod LogicTests
mod Tests
use project_run_server.Base.{
  ℕ, zero, suc, ◌+◌, ◌-◌, ◌%◌, ◌≤◌, ◌<◌, ◌≡◌, ◌≢◌, refl, sym, ap, ◌∙◌, inl, inr, Bool, true, false,
  ◌&&◌, ◌||◌, not, ltb, leb, ◌==◌, List, [], ◌∷◌, ◌++◌, map, Option, none, some, ℤ, pos, negsuc,
  minus_one, eq_ℤ, set, get_elem?, take, if◌then◌else◌, arith, Option-cases, Bool-cases,
}
use project_run_server.Packets.{ErrorCode, no_error, room_invalid_index, ServerPacket}
use project_run_server.Users.{User, Users, UserManager, at_user, set_domain_state, login}
use project_run_server.GameRoom.{FloatOps, GameRoom, GamePacket, GameSend}
use project_run_server.GameRoom.Doors

-- `RoomManager`
pub record GameRooms (F : Type 0) : Type 0 where
  pub room_list : List (GameRoom F)
  pub begin_room_number : ℕ
  pub end_room_number : ℕ

-- `mRoomManager` and `mUserManager`
pub record Game (F : Type 0) : Type 0 where
  pub rooms : GameRooms F
  pub users : UserManager

-- what a handler sends or pushes for Redis, in order
pub data GameEffect : Type 0 where
  send : ℕ → GamePacket → GameEffect
  reply : ℕ → ServerPacket → GameEffect
  verify_token : ℕ → List ℕ → GameEffect
  room_delete : ℕ → ℤ → GameEffect

abbrev pub sent : List GameSend → List GameEffect
sent ss = map (λ (u, p). send u p) ss

-- the room that `GetRoomByNumber` returns, with its index
unfoldable pub find_room : {F : Type 0} → GameRooms F → ℤ → Option (ℕ × GameRoom F)
find_room m (negsuc n) = none
find_room m (pos n) =
    if ltb n m.begin_room_number || leb m.end_room_number n
    then none
    else (let k = n - m.begin_room_number in
        elim (get_elem? m.room_list k) [ none ↦ none | some r ↦ some (k, r) ])

abbrev pub put_room : {F : Type 0} → ℕ → GameRoom F → GameRooms F → GameRooms F
put_room k r m = record m { room_list = set m.room_list k r }

abbrev pub user_of : {F : Type 0} → Game F → ℕ → User
user_of g u = g.users.user_obj_pool u

abbrev pub set_users : {F : Type 0} → Users → Game F → Game F
set_users us g = record g { users = record g.users { user_obj_pool = us } }

abbrev pub set_rooms : {F : Type 0} → GameRooms F → Game F → Game F
set_rooms m g = record g { rooms = m }

module _ {F : Type 0} (fl : FloatOps F) where
  -- `RoomManager::EnterUser`
  unfoldable pub enter_room_number : Game F → ℤ → ℕ → ErrorCode × Game F × List GameEffect
  enter_room_number g n u = elim (find_room g.rooms n) [
    | none ↦ (room_invalid_index, g, [])
    | some (k, r) ↦
        let (code, r', us, sends) = Doors.enter_user fl r g.users.user_obj_pool u in
        (code, set_users us (set_rooms (put_room k r' g.rooms) g), sent sends)
  ]

  -- `RoomManager::LeaveUser`
  unfoldable pub leave_room_number : Game F → ℤ → ℕ → ErrorCode × Game F × List GameEffect
  leave_room_number g n u = elim (find_room g.rooms n) [
    | none ↦ (room_invalid_index, g, [])
    | some (k, r) ↦
        let us = at_user u (set_domain_state login) g.users.user_obj_pool in
        let (r', sends) = Doors.leave_user fl r us u in
        (no_error, set_users us (set_rooms (put_room k r' g.rooms) g), sent sends)
  ]
