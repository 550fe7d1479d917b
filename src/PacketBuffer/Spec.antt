-- ===== src/PacketBuffer/Spec.antt =====
-- What the receive buffer promises: a bounded queue of bytes from which whole packets are cut.
use project_run_server.Base.{
  ℕ, ◌+◌, ◌*◌, Bool, true, false, Option, none, some, List, [], ◌++◌, ltb, leb, if◌then◌else◌,
  length, get_or, take, drop,
}
use project_run_server.PacketBuffer.{
  Packet, packet_data_buffer_size, packet_header_length, is_bad_length,
}

abbrev pub Queue : Type 0
Queue = List ℕ

abbrev pub u16_of : Queue → ℕ → ℕ
u16_of q i = get_or q i 0 + 256 * get_or q (i + 1) 0

unfoldable pub put : List ℕ → Queue → Queue
put d q = if leb (length q + length d) packet_data_buffer_size then q ++ d else q

unfoldable pub next : Queue → Option Packet × Queue
next q =
    if ltb (length q) packet_header_length
    then (none, q)
    else if is_bad_length (u16_of q 0)
    then (none, [])
    else if ltb (length q) (u16_of q 0)
    then (none, q)
    else (
      some (record {
        packet_id = u16_of q 2;
        data_size = u16_of q 0;
        payload = take (u16_of q 0) q;
      }),
      drop (u16_of q 0) q,
    )

unfoldable pub is_complete : Queue → Bool
is_complete q =
    if ltb (length q) packet_header_length
    then false
    else if is_bad_length (u16_of q 0)
    then false
    else if ltb (length q) (u16_of q 0)
    then false
    else true
