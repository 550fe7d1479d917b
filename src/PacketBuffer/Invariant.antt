-- ===== src/PacketBuffer/Invariant.antt =====
-- The positions of the receive buffer stay in order and inside the vector.
use project_run_server.Base.{ℕ, ◌+◌, ◌-◌, ◌^◌, ◌≤◌, ◌<◌, ◌≡◌, List, some, arith, length}
use project_run_server.PacketBuffer.{
  PacketBuffer, Packet, Memory, packet_data_buffer_size, remain, empty, clear, compact, append,
  set_packet_data, get_packet,
}

pub record IsValid (b : PacketBuffer) : Type 0 where
  pub ordered : b.rpos ≤ b.wpos
  pub within : b.wpos ≤ packet_data_buffer_size

pub empty-IsValid : (m : Memory) → IsValid (empty m)
unfolding empty
empty-IsValid m = omega arith

pub clear-IsValid : (b : PacketBuffer) → IsValid (clear b)
unfolding clear
clear-IsValid b = omega arith

pub remain_lem : {b : PacketBuffer} → IsValid b → remain b ≡ b.wpos - b.rpos
remain_lem v = omega arith

pub compact-IsValid : {b : PacketBuffer} (n : ℕ) → IsValid b → IsValid (compact n b)
unfolding compact clear
compact-IsValid n v = ground arith

-- A UINT32 size that cannot wrap the write position; a receive delivers 4096 bytes at most.
abbrev pub Fits32 : ℕ → Type 0
Fits32 n = n + packet_data_buffer_size < 2 ^ 32

pub append-IsValid :
    {b : PacketBuffer} (d : List ℕ) → Fits32 (length d) → IsValid b → IsValid (append b d)
unfolding append
append-IsValid d h v = ground arith

-- `SetPacketData` keeps the read position before the write position and both within the vector, if
-- the size of the data cannot wrap a UINT32.
pub set_packet_data-IsValid :
    {b : PacketBuffer} (d : List ℕ) → Fits32 (length d) → IsValid b → IsValid (set_packet_data d b)
unfolding set_packet_data
set_packet_data-IsValid d h v = append-IsValid d h (compact-IsValid (length d) v)

-- `GetPacket` keeps the read position before the write position and both within the vector.
pub get_packet-IsValid : {b : PacketBuffer} → IsValid b → IsValid (get_packet b).1
unfolding get_packet clear
get_packet-IsValid v = ground arith

-- A packet that is taken off has five bytes at least.
pub get_packet-some :
    (b : PacketBuffer) (p : Packet)
    → IsValid b
    → (get_packet b).0 ≡ some p
    → remain (get_packet b).1 + 5 ≤ remain b
unfolding get_packet clear
get_packet-some b p v e = ground (arith, e)

pub remain-clear : (b : PacketBuffer) → remain (clear b) ≡ 0
unfolding clear
remain-clear b = omega arith
