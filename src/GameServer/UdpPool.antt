-- ===== src/GameServer/UdpPool.antt =====
-- The buffers of the packets that `UDPRecvThread` of Game_PacketManager.cpp queues: `new` for each of
-- them, the queue of the packet thread, and `mUdpBufferPool`.
use project_run_server.Base.{
  ℕ, suc, ◌==◌, List, [], ◌∷◌, ◌++◌, Option, none, some, ℤ, if◌then◌else◌,
}
use project_run_server.GameRoom.{FloatOps}
use project_run_server.Gimmicks.{GimmickFloats}
use project_run_server.GameServer.Relays.{World}
use project_run_server.GameServer.Udp.{
  UdpResult, handled, queued, time_sync, dropped, recv_from, udp_recv,
}

-- a `char*` and the length that it was allocated with
pub record Buffer : Type 0 where
  pub address : ℕ
  pub size : ℕ

-- `buf` of `UDPRecvThread`, `mUdpBufferPool` with its back first, `mSystemPacketQueue` as ids and data pointers, where `none` is
-- the null pointer, and the next address that `new` gives
pub record UdpMemory : Type 0 where
  pub buf : List ℕ
  pub udp_buffer_pool : List Buffer
  pub system_packet_queue : List (ℕ × Option Buffer)
  pub next_address : ℕ

-- `new char[n]`
abbrev new_char : ℕ → UdpMemory → Buffer × UdpMemory
new_char n m =
    (record { address = m.next_address; size = n }, record m { next_address = suc m.next_address })

unfoldable pub alloc_udp_buffer : UdpMemory → Buffer × UdpMemory
alloc_udp_buffer m = elim m.udp_buffer_pool [
  | [] ↦ new_char 2048 m
  | b ∷ bs ↦ (b, record m { udp_buffer_pool = bs })
]

abbrev free_udp_buffer : Option Buffer → List Buffer → List Buffer
free_udp_buffer none pool = pool
free_udp_buffer (some b) pool = b ∷ pool

abbrev pub push_system_packet : ℕ → Option Buffer → UdpMemory → UdpMemory
push_system_packet id b m = record m { system_packet_queue = m.system_packet_queue ++ (id, b) ∷ [] }

-- what `UDPRecvThread` does to the memory with a datagram: a packet for the packet thread is copied
abbrev pub store : {F : Type 0} → UdpResult F → UdpMemory → UdpMemory
store (queued u p) m =
    let (b, m1) = new_char p.data_size m in push_system_packet p.packet_id (some b) m1
store (handled w es) m = m
store (time_sync a b) m = m
store dropped m = m

-- one turn of the packet thread's loop over the system's packets, with the queue as it is then
unfoldable pub system_turn : UdpMemory → UdpMemory
system_turn m = elim m.system_packet_queue [
  | [] ↦ m
  | (id, b) ∷ q ↦
      let pool = if id == 0 then m.udp_buffer_pool else free_udp_buffer b m.udp_buffer_pool in
      record m { system_packet_queue = q; udp_buffer_pool = pool }
]

-- a datagram that comes in, a packet without data that the server pushes itself, a turn of the packet
-- thread
pub data UdpStep (F : Type 0) : Type 0 where
  received : World F → ℤ → List ℕ → UdpStep F
  pushed : ℕ → UdpStep F
  turn : UdpStep F

module _ {F : Type 0} (fl : FloatOps F) (gl : GimmickFloats F) (bits : F → ℕ) where
  abbrev pub step : UdpStep F → UdpMemory → UdpMemory
  step (received w now b) m =
      store (udp_recv fl gl bits w now m.buf b) (record m { buf = recv_from m.buf b })
  step (pushed id) m = push_system_packet id none m
  step turn m = system_turn m

  unfoldable pub run : List (UdpStep F) → UdpMemory → UdpMemory
  run [] m = m
  run (x ∷ xs) m = run xs (step x m)
