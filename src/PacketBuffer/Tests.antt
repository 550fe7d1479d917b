-- ===== src/PacketBuffer/Tests.antt =====
-- The receive buffer on concrete bytes: a time sync request of 5 bytes and a login of 7.
use project_run_server.Base.{ℕ, ◌≡◌, refl, List, [], ◌∷◌, ◌++◌, arith, All}
use project_run_server.PacketBuffer.{
  PacketBuffer, empty, set_packet_data, get_packet, compact, append, clear, copy_in, move_front,
}
use project_run_server.PacketBuffer.Spec.{next, put}
use project_run_server.PacketBuffer.Refine.{contents, set_packet_data_refines, get_packet_refines}
use project_run_server.PacketBuffer.Framing.{IsWellFormed, Event, recv, get, run, NoDrop, packet_of}
use project_run_server.PacketBuffer.Delivery.{delivered}

abbrev sync : List ℕ
sync = 5 ∷ 0 ∷ 101 ∷ 0 ∷ 0 ∷ []

abbrev login : List ℕ
login = 7 ∷ 0 ∷ 201 ∷ 0 ∷ 0 ∷ 65 ∷ 0 ∷ []

abbrev fresh : PacketBuffer
fresh = record { bytes = λ i. 0; wpos = 0; rpos = 0 }

-- 65530 bytes have been read; the write position is 6 bytes from the end.
abbrev at_end : PacketBuffer
at_end = record { bytes = λ i. 5; wpos = 65533; rpos = 65530 }

abbrev history : List Event
history =
    recv (5 ∷ 0 ∷ 101 ∷ [])
    ∷ get
    ∷ recv (0 ∷ 0 ∷ 7 ∷ 0 ∷ 201 ∷ 0 ∷ [])
    ∷ get
    ∷ recv (0 ∷ 65 ∷ 0 ∷ [])
    ∷ []

two_packets : (run (history ++ get ∷ []) fresh).0 ≡ packet_of sync ∷ packet_of login ∷ []
unfolding run get_packet set_packet_data compact append copy_in move_front clear
two_packets = refl

moved : (set_packet_data sync at_end).wpos ≡ 8
unfolding set_packet_data compact append copy_in move_front clear
moved = refl

set_packet_data_refines_example : contents (set_packet_data sync at_end) ≡ put sync (5 ∷ 5 ∷ 5 ∷ [])
set_packet_data_refines_example =
    set_packet_data_refines {b = at_end} sync (omega arith) (omega arith)

get_packet_refines_example :
    let (p, b) = get_packet at_end in (p, contents b) ≡ next (5 ∷ 5 ∷ 5 ∷ [])
get_packet_refines_example = get_packet_refines {b = at_end} (omega arith)

packets-IsWellFormed : All IsWellFormed (sync ∷ login ∷ [])
packets-IsWellFormed = omega arith

history-NoDrop : NoDrop history []
unfolding next
history-NoDrop = omega arith

delivered_example :
    (run (history ++ get ∷ get ∷ []) (empty (λ i. 0))).0 ≡ packet_of sync ∷ packet_of login ∷ []
delivered_example =
    delivered history (sync ∷ login ∷ []) (λ i. 0) packets-IsWellFormed history-NoDrop refl
