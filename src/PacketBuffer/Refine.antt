-- ===== src/PacketBuffer/Refine.antt =====
-- A valid receive buffer behaves as the queue of the bytes between its two positions.
use project_run_server.Base.{
  ℕ, ◌+◌, ◌-◌, ◌≤◌, ◌<◌, ◌≡◌, ap, List, ◌++◌, none, arith, length, ◌↔◌, true, ◌≢◌,
}
use project_run_server.PacketBuffer.{
  PacketBuffer, packet_data_buffer_size, slice, clear, compact, append, set_packet_data, get_packet,
  has_pending_packet, header_length, copy_in,
}
use project_run_server.PacketBuffer.Spec.{Queue, put, next}
use project_run_server.PacketBuffer.Bytes.{
  length-slice, get_or-slice, take-slice, drop-slice, slice-append, slice-move_front,
  slice-copy_in_before, slice-copy_in_self,
}
use project_run_server.PacketBuffer.Invariant.{IsValid, Fits32, remain_lem, compact-IsValid}

abbrev pub contents : PacketBuffer → Queue
contents b = slice b.bytes b.rpos (b.wpos - b.rpos)

pub length-contents : (b : PacketBuffer) → length (contents b) ≡ b.wpos - b.rpos
length-contents b = length-slice b.bytes b.rpos (b.wpos - b.rpos)

-- Making room moves the unread bytes and changes none.
pub contents-compact : {b : PacketBuffer} (n : ℕ) → IsValid b → contents (compact n b) ≡ contents b
unfolding compact clear
contents-compact {b} n v =
    ground (arith, remain_lem v, slice-move_front b.bytes b.rpos (b.wpos - b.rpos))

contents-append :
    {b : PacketBuffer} (d : List ℕ)
    → Fits32 (length d)
    → IsValid b
    → b.wpos + length d ≤ packet_data_buffer_size
    → contents (append b d) ≡ contents b ++ d
unfolding append
contents-append {b} d h v fits =
    let m = copy_in b.bytes b.wpos d in
    let n = b.wpos - b.rpos in
    let e : b.wpos + length d - b.rpos ≡ n + length d = omega arith in
    let at : b.rpos + n ≡ b.wpos = omega arith in
    ground (
      arith,
      ap (slice m b.rpos) e,
      slice-append m b.rpos n (length d),
      slice-copy_in_before b.bytes b.wpos d b.rpos n,
      ap (λ i. slice m i (length d)) at,
      slice-copy_in_self b.bytes b.wpos d,
    )

append_drops :
    {b : PacketBuffer} (d : List ℕ)
    → Fits32 (length d)
    → IsValid b
    → packet_data_buffer_size < b.wpos + length d
    → append b d ≡ b
unfolding append
append_drops {b} d h v full = ground arith

-- After `compact` the data fits behind the write position exactly if it fits at all.
compact_makes_room :
    {b : PacketBuffer} (n : ℕ)
    → IsValid b
    → Fits32 n
    → (b.wpos - b.rpos + n ≤ packet_data_buffer_size)
      ↔ ((compact n b).wpos + n ≤ packet_data_buffer_size)
unfolding compact clear
compact_makes_room {b} n v h = ground arith

-- `SetPacketData` on a valid buffer appends the data to the unread bytes if both fit in the 65536
-- bytes of the vector, wherever the unread bytes lie in it, and otherwise drops the data and keeps
-- the unread bytes, if the size of the data cannot wrap a UINT32.
pub set_packet_data_refines :
    {b : PacketBuffer} (d : List ℕ)
    → Fits32 (length d)
    → IsValid b
    → contents (set_packet_data d b) ≡ put d (contents b)
unfolding set_packet_data put
set_packet_data_refines {b} d h v =
    let c = compact-IsValid (length d) v in
    ground (
      arith,
      length-contents b,
      compact_makes_room (length d) v h,
      contents-compact (length d) v,
      contents-append d h c,
      append_drops d h c,
    )

-- `GetPacket` on a valid buffer returns the packet that `Spec.next` cuts off the unread bytes, and
-- leaves the same rest.
pub get_packet_refines :
    {b : PacketBuffer}
    → IsValid b
    → let (p, b') = get_packet b in (p, contents b') ≡ next (contents b)
unfolding get_packet next clear
get_packet_refines {b} v = ground (
  arith,
  remain_lem v,
  length-contents b,
  get_or-slice b.bytes b.rpos (b.wpos - b.rpos) 0,
  get_or-slice b.bytes b.rpos (b.wpos - b.rpos) 1,
  get_or-slice b.bytes b.rpos (b.wpos - b.rpos) 2,
  get_or-slice b.bytes b.rpos (b.wpos - b.rpos) 3,
  take-slice b.bytes b.rpos (b.wpos - b.rpos) (header_length b),
  drop-slice b.bytes b.rpos (b.wpos - b.rpos) (header_length b),
)

-- `HasPendingPacket` holds exactly if `GetPacket` would return a packet.
pub has_pending_packet-get_packet :
    (b : PacketBuffer) → (has_pending_packet b ≡ true) ↔ ((get_packet b).0 ≢ none)
unfolding has_pending_packet get_packet
has_pending_packet-get_packet b = ground arith
