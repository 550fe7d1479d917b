-- ===== src/Lobby.antt =====
-- Server/LobbyServer/LobbyManager.h: the lobby's state and what its handlers send out. The handlers
-- stand in the children, one for each part of the class, and Lobby/Dispatch puts them behind the
-- packets that Server/LobbyServer/Lobby_PacketManager.cpp registers.
pub mod Session
pub mod RoomList
pub mod Rooms
pub mod Match
pub mod Dispatch
pub mod Invariant
pub mod History
pub mod Listing
pub mod Starting
mod Wire
mod Decoding
mod Buffers
mod Loop
mod Thread
mod Tests
use project_run_server.Base.{ℕ, List, [], ◌∷◌, map, Option, none, some, ℤ}
use project_run_server.Packets.{ServerPacket, Send}
use project_run_server.Users.{User, Users, UserManager}
use project_run_server.LobbyRoom.{Room}
use project_run_server.LobbyRooms.{RoomManager, find_room, put_room}

-- `mRoomManager`, `mUserManager` and `mNextGamePort`, a UINT16, with the count of draws that were
-- taken from `mRandomEngine`
pub record Lobby : Type 0 where
  pub rooms : RoomManager
  pub users : UserManager
  pub next_game_port : ℕ
  pub draws : ℕ

-- What a handler does outside the state, in order: a packet sent to a client, a process started by
-- `LaunchGameServer` with a port and a room number, a task pushed for Redis.
pub data Effect : Type 0 where
  send : ℕ → ServerPacket → Effect
  launch_game_server : ℕ → ℕ → Effect
  set_auth_token : ℕ → List ℕ → Effect

abbrev pub Result : Type 0
Result = Lobby × List Effect

abbrev pub sent : List Send → List Effect
sent ss = map (λ (u, p). send u p) ss

abbrev pub user_of : Lobby → ℕ → User
user_of l u = l.users.user_obj_pool u

abbrev pub set_rooms : RoomManager → Lobby → Lobby
set_rooms m l = record l { rooms = m }

abbrev pub set_users : Users → Lobby → Lobby
set_users us l = record l { users = record l.users { user_obj_pool = us } }

-- `GetRoomByNumber(pUser->GetCurrentRoom())`
unfoldable pub room_of : Lobby → ℕ → Option (ℕ × Room)
room_of l u = find_room l.rooms (user_of l u).room_index
