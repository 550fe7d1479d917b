-- ===== src/PacketBuffer.antt =====
-- The receive buffer of Server/Common/UserModels/User.h: `SetPacketData` appends what one receive
-- delivered, `GetPacket` cuts the next packet off, `HasPendingPacket` tells whether one is complete.
-- The vector of 65536 bytes is a function from indices to bytes. UINT32 arithmetic wraps at 2 ^ 32.
pub mod Spec
pub mod Bytes
pub mod Invariant
pub mod Refine
pub mod Framing
pub mod Delivery
mod Tests
use project_run_server.Base.{
  ℕ, zero, suc, ◌+◌, ◌-◌, ◌*◌, ◌%◌, ◌^◌, Bool, true, false, Option, none, some, List, [], ◌∷◌, ◌&&◌,
  ◌||◌, ltb, leb, if◌then◌else◌, length, get_or,
}

abbrev pub packet_data_buffer_size : ℕ
packet_data_buffer_size = 65536

-- sizeof(PACKET_HEADER) under #pragma pack(1): two UINT16 and a UINT8
abbrev pub packet_header_length : ℕ
packet_header_length = 5

abbrev pub max_packet_length : ℕ
max_packet_length = 2048

abbrev pub Memory : Type 0
Memory = ℕ → ℕ

pub record PacketBuffer : Type 0 where
  pub bytes : Memory
  pub wpos : ℕ
  pub rpos : ℕ

-- `PacketId`, `DataSize` and the copied bytes of a `PacketInfo`. Where the code returns the one with
-- a null pointer, `get_packet` returns `none`.
pub record Packet : Type 0 where
  pub packet_id : ℕ
  pub data_size : ℕ
  pub payload : List ℕ

abbrev pub add32 : ℕ → ℕ → ℕ
add32 a b = (a + b) % 2 ^ 32

abbrev pub sub32 : ℕ → ℕ → ℕ
sub32 a b = (a + 2 ^ 32 - b) % 2 ^ 32

-- the `n` bytes from index `i` on
abbrev pub slice : Memory → ℕ → ℕ → List ℕ
slice m i zero = []
slice m i (suc n) = m i ∷ slice m (i + 1) n

-- memmove(&buffer[0], &buffer[src], n)
pub move_front : Memory → ℕ → ℕ → Memory
move_front m src n j = if ltb j n then m (src + j) else m j

-- CopyMemory(&buffer[dst], data, n), where n is the length of the data
pub copy_in : Memory → ℕ → List ℕ → Memory
copy_in m dst d j = if leb dst j && ltb j (dst + length d) then get_or d (j - dst) 0 else m j

-- a little-endian UINT16
abbrev pub u16_at : Memory → ℕ → ℕ
u16_at m i = m i + 256 * m (i + 1)

pub empty : Memory → PacketBuffer
empty m = record { bytes = m; wpos = 0; rpos = 0 }

pub clear : PacketBuffer → PacketBuffer
clear b = record b { wpos = 0; rpos = 0 }

abbrev pub remain : PacketBuffer → ℕ
remain b = sub32 b.wpos b.rpos

-- the first block of `SetPacketData`: make room at the end by moving the unread bytes to the front
pub compact : ℕ → PacketBuffer → PacketBuffer
compact data_size b =
    if leb packet_data_buffer_size (add32 b.wpos data_size)
    then (if ltb 0 (remain b)
        then (record { bytes = move_front b.bytes b.rpos (remain b); wpos = remain b; rpos = 0 })
        else clear b)
    else b

-- the second: drop the data if it does not fit, and append it otherwise
pub append : PacketBuffer → List ℕ → PacketBuffer
append b d =
    if ltb packet_data_buffer_size (add32 b.wpos (length d))
    then b
    else (record b { bytes = copy_in b.bytes b.wpos d; wpos = add32 b.wpos (length d) })

pub set_packet_data : List ℕ → PacketBuffer → PacketBuffer
set_packet_data d b = append (compact (length d) b) d

abbrev pub header_length : PacketBuffer → ℕ
header_length b = u16_at b.bytes b.rpos

-- pHeader->PacketLength < PACKET_HEADER_LENGTH || pHeader->PacketLength > 2048
abbrev pub is_bad_length : ℕ → Bool
is_bad_length n = ltb n packet_header_length || ltb max_packet_length n

unfoldable pub get_packet : PacketBuffer → Option Packet × PacketBuffer
get_packet b =
    if ltb (remain b) packet_header_length
    then (none, b)
    else if is_bad_length (header_length b)
    then (none, clear b)
    else if ltb (remain b) (header_length b)
    then (none, b)
    else (
      some (record {
        packet_id = u16_at b.bytes (b.rpos + 2);
        data_size = header_length b;
        payload = slice b.bytes b.rpos (header_length b);
      }),
      record b { rpos = add32 b.rpos (header_length b) },
    )

unfoldable pub has_pending_packet : PacketBuffer → Bool
has_pending_packet b =
    if ltb (remain b) packet_header_length
    then false
    else if is_bad_length (header_length b)
    then false
    else if ltb (remain b) (header_length b)
    then false
    else true
