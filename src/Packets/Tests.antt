-- ===== src/Packets/Tests.antt =====
-- A movement update on the wire, followed by the first bytes of another packet.
use project_run_server.Base.{ℕ, ◌≡◌, refl, List, [], ◌∷◌, ◌++◌, some, arith, get_or, replicate}
use project_run_server.Packets.Ids.{packet_number}
use project_run_server.Packets.Layout.{
  Value, number, text, all_fit, encode, encode_fields, decode, sizeof, bytes_of,
}
use project_run_server.Packets.LobbyStructs.{room_leave_user_ntf_packet}
use project_run_server.Packets.Wire.{get_packet-encode}
use project_run_server.PacketBuffer.{PacketBuffer, get_packet}
use project_run_server.PacketBuffer.Refine.{contents}

abbrev farewell : List Value
farewell = number 300 ∷ text (replicate 33 65) ∷ []

abbrev wire : List ℕ
wire = encode room_leave_user_ntf_packet farewell ++ 7 ∷ 0 ∷ []

abbrev arrived : PacketBuffer
arrived = record { bytes = λ i. get_or wire i 0; wpos = 48; rpos = 0 }

arrives : contents arrived ≡ wire
unfolding encode encode_fields bytes_of
arrives = refl

get_packet-encode_example :
    let (p, b) = get_packet arrived in
    (p
      ≡ some (record {
        packet_id = packet_number room_leave_user_ntf_packet.id;
        data_size = sizeof room_leave_user_ntf_packet;
        payload = encode room_leave_user_ntf_packet farewell;
      }))
    × (contents b ≡ 7 ∷ 0 ∷ [])
    × (decode room_leave_user_ntf_packet (encode room_leave_user_ntf_packet farewell) ≡ farewell)
unfolding all_fit
get_packet-encode_example =
    get_packet-encode {b = arrived} 15 room_leave_user_ntf_packet farewell (7 ∷ 0 ∷ [])
      (omega arith) arrives refl refl
