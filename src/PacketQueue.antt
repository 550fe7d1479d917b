-- ===== src/PacketQueue.antt =====
-- The queue of clients with received data in Server/LobbyServer/Lobby_PacketManager.cpp and
-- Server/GameServer/Game_PacketManager.cpp: `ReceivePacketData`, `EnqueuePacketData` and
-- `DequePacketData`, which the two servers write differently.
pub mod Pending
pub mod Drain
mod Stranded
mod Tests
use project_run_server.Base.{
  ℕ, ◌+◌, ◌*◌, ◌==◌, leb, Bool, true, false, ◌&&◌, ◌||◌, length, get_or, List, [], ◌∷◌, ◌++◌,
  Option, none, some, if◌then◌else◌,
}
use project_run_server.PacketBuffer.{
  PacketBuffer, Packet, packet_header_length, set_packet_data, get_packet, has_pending_packet,
}
use project_run_server.Users.{User, Users, at_user}

-- the users and `mInComingPacketUserIndex`
pub record Incoming : Type 0 where
  pub users : Users
  pub queue : List ℕ

abbrev pub set_buffer : PacketBuffer → User → User
set_buffer b u = record u { buffer = b }

abbrev pub enqueue_packet_data : ℕ → Incoming → Incoming
enqueue_packet_data u s = record s { queue = s.queue ++ u ∷ [] }

unfoldable pub receive_packet_data : ℕ → List ℕ → Incoming → Incoming
receive_packet_data u d s =
    enqueue_packet_data u
      (record s { users = at_user u (λ x. set_buffer (set_packet_data d x.buffer) x) s.users })

-- `size_ >= sizeof(PACKET_HEADER)` and the id of the first header is SYS_TIME_SYNC_REQ
abbrev pub is_time_sync : List ℕ → Bool
is_time_sync d = leb packet_header_length (length d) && (get_or d 2 0 + 256 * get_or d 3 0 == 101)

-- `OnReceive` of Server/LobbyServer/LobbyServer.h: whether the bytes went to `ProcessTimeSync`, all of
-- them, and the state after it. That handler leaves buffers and queue alone (Lobby/Session).
unfoldable pub on_receive : ℕ → List ℕ → Incoming → Bool × Incoming
on_receive u d s = if is_time_sync d then (true, s) else (false, receive_packet_data u d s)

-- `GetPacket` of user `u` with the queue `q`
abbrev pub take_packet : ℕ → List ℕ → Users → Option Packet × Incoming
take_packet u q us =
    let (p, b) = get_packet (us u).buffer in
    (p, record { users = at_user u (set_buffer b) us; queue = q })

-- the client that a packet came from, with the packet
abbrev pub from_client : ℕ → Option Packet → Option (ℕ × Packet)
from_client u none = none
from_client u (some p) = some (u, p)

-- the lobby's `DequePacketData`: a user whose next packet is complete is queued again
unfoldable pub deque_packet_data : Users → List ℕ → Option (ℕ × Packet) × Incoming
deque_packet_data us [] = (none, record { users = us; queue = [] })
deque_packet_data us (u ∷ q) =
    let (p, s) = take_packet u q us in
    (from_client u p, if has_pending_packet (s.users u).buffer then enqueue_packet_data u s else s)

-- the game server's `DequePacketData`
unfoldable pub deque_packet_data_once : Users → List ℕ → Option (ℕ × Packet) × Incoming
deque_packet_data_once us [] = (none, record { users = us; queue = [] })
deque_packet_data_once us (u ∷ q) = let (p, s) = take_packet u q us in (from_client u p, s)

unfoldable pub is_queued : ℕ → List ℕ → Bool
is_queued u [] = false
is_queued u (v ∷ q) = (v == u) || is_queued u q
