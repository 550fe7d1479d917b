-- ===== src/GameServer/Udp.antt =====
-- One datagram of `UDPRecvThread` of Game_PacketManager.cpp. The address that a user's updates go to is
-- left out. The thread reads fields from its buffer of 2048 bytes, in which bytes of earlier datagrams stay
-- behind a short one; a datagram has 2048 bytes at most.
use project_run_server.Base.{
  ℕ, ◌%◌, ◌^◌, ◌==◌, List, [], ◌∷◌, ◌++◌, drop, ℤ, pos, ltb, length, if◌then◌else◌,
}
use project_run_server.PacketBuffer.{Packet}
use project_run_server.Users.{set_pose}
use project_run_server.GameRoom.{FloatOps}
use project_run_server.Gimmicks.{GimmickFloats}
use project_run_server.GameServer.Relays.{World, WorldEffect, forward, to_room, set_user}
use project_run_server.Packets.Reading.{uint_at, int64_at, floats_at}
use project_run_server.Packets.Ids

-- what becomes of a datagram: the users and what is sent to them, a packet for the packet thread, or an
-- answer to the sender with the two times
pub data UdpResult (F : Type 0) : Type 0 where
  handled : World F → List (WorldEffect F) → UdpResult F
  queued : ℕ → Packet → UdpResult F
  time_sync : ℤ → ℤ → UdpResult F
  dropped : UdpResult F

-- the buffer after `recvfrom`, with `old` in it before
abbrev pub recv_from : List ℕ → List ℕ → List ℕ
recv_from old b = b ++ drop (length b) old

-- `userUUID` or `activeUUID`, the first field of each of these packets
abbrev pub sender_named : List ℕ → ℤ
sender_named b = int64_at 5 b

module _ {F : Type 0} (fl : FloatOps F) (gl : GimmickFloats F) (bits : F → ℕ) where
  abbrev moved : World F → ℤ → List ℕ → UdpResult F
  moved w (pos u) b =
      if ltb u w.game.users.max_user_cnt
      then handled (set_user fl gl bits u (set_pose (floats_at 17 7 b)) w) []
      else dropped
  moved w _ b = dropped

  -- the datagram is passed on, its length as it was received
  abbrev monster_moved : World F → ℤ → List ℕ → UdpResult F
  monster_moved w (pos u) b =
      if ltb u w.game.users.max_user_cnt
      then handled w (to_room fl gl bits w u (forward b))
      else dropped
  monster_moved w _ b = dropped

  -- the packet as it is pushed for the packet thread, with the low 32 bits of the id as its client
  abbrev pub system_packet : ℕ → List ℕ → List ℕ → UdpResult F
  system_packet id buf b =
      queued (uint_at 5 8 buf % 2 ^ 32)
        (record { packet_id = id; data_size = length b; payload = b })

  -- A datagram `b` that comes in while `old` is in the buffer; `now` is the time in milliseconds.
  unfoldable pub udp_recv : World F → ℤ → List ℕ → List ℕ → UdpResult F
  udp_recv w now old [] = dropped
  udp_recv w now old (x ∷ rest) =
      let b = x ∷ rest in
      let buf = recv_from old b in
      let id = uint_at 2 2 buf in
      if id == Ids.packet_number Ids.player_movement
      then moved w (sender_named buf) buf
      else if id == Ids.packet_number Ids.monster_movement
      then monster_moved w (sender_named buf) b
      else if id == Ids.packet_number Ids.player_gimmick_interact_request
      then system_packet id buf b
      else if id == Ids.packet_number Ids.player_status_ntf
      then system_packet id buf b
      else if id == Ids.packet_number Ids.sys_time_sync_req
      then time_sync (int64_at 5 buf) now
      else dropped
