-- ===== src/GameServer/Datagrams.antt =====
-- A movement datagram of the game server: whom it moves.
use project_run_server.Base.{
  ℕ, ◌<◌, ◌≡◌, ◌≢◌, ◌^◌, refl, true, List, [], ◌∷◌, ◌++◌, drop, length, map, ℤ, pos, arith,
}
use project_run_server.Packets.Layout.{Value, number, all_fit, encode, bytes_of, little_endian}
use project_run_server.Packets.GameStructs.{player_movement_packet}
use project_run_server.Packets.Wire.{decode_at, decode_at-encode_tail}
use project_run_server.Users.{set_pose}
use project_run_server.GameRoom.{FloatOps}
use project_run_server.Gimmicks.{GimmickFloats}
use project_run_server.GameServer.{user_of}
use project_run_server.GameServer.Relays.{World, set_user}
use project_run_server.Packets.Reading.{uint_at, floats_at}
use project_run_server.GameServer.Udp.{handled, recv_from, udp_recv, sender_named}
use project_run_server.GameServer.Threads.{named_moves}

-- PLAYER_MOVEMENT_PACKET with a user, a number, a position, a rotation and the axes
abbrev pub movement : ℕ → ℕ → ℕ → ℕ → ℕ → ℕ → ℕ → ℕ → ℕ → ℕ → ℕ → List Value
movement v seq x y z i j k l h a = map number (v ∷ seq ∷ x ∷ y ∷ z ∷ i ∷ j ∷ k ∷ l ∷ h ∷ a ∷ [])

read_movement :
    (b : List ℕ) (v seq x y z i j k l h a : ℕ)
    → decode_at 5 player_movement_packet.fields b ≡ movement v seq x y z i j k l h a
    → (uint_at 5 8 b ≡ v) × (floats_at 17 7 b ≡ x ∷ y ∷ z ∷ i ∷ j ∷ k ∷ l ∷ [])
read_movement buf v seq x y z i j k l h a e = (cc, cc)

movement_id :
    (vs : List Value) (tail : List ℕ) → uint_at 2 2 (encode player_movement_packet vs ++ tail) ≡ 241
unfolding encode bytes_of little_endian
movement_id vs tail = refl

movement_full : (vs : List Value) → encode player_movement_packet vs ≢ []
unfolding encode bytes_of
movement_full vs e = absurd (cc)

module _ {F : Type 0} (fl : FloatOps F) (gl : GimmickFloats F) (bits : F → ℕ) where
  -- A movement datagram, whoever sent it and whatever was in the buffer before, puts the user that
  -- it names at the position and rotation in it, if the user is below the capacity, sends nothing,
  -- and touches nobody else.
  pub udp_recv-moves :
      (w : World F) (now : ℤ) (old : List ℕ) (v seq x y z i j k l h a : ℕ)
      → let vs = movement v seq x y z i j k l h a in
        all_fit player_movement_packet.fields vs ≡ true
        → v < w.game.users.max_user_cnt
        → v < 2 ^ 63
        → (w' : World F) × (udp_recv fl gl bits w now old (encode player_movement_packet vs)
            ≡ handled w' [])
          × ((user_of w'.game v).pose ≡ x ∷ y ∷ z ∷ i ∷ j ∷ k ∷ l ∷ [])
          × ((u : ℕ) → u ≢ v → user_of w'.game u ≡ user_of w.game u)
  udp_recv-moves w now old v seq x y z i j k l h a fit below small =
      let vs = movement v seq x y z i j k l h a in
      let b = encode player_movement_packet vs in
      let tail = drop (length b) old in
      let buf = recv_from old b in
      let (named, floats) =
        read_movement buf v seq x y z i j k l h a
          (decode_at-encode_tail player_movement_packet vs tail fit) in
      let n : sender_named buf ≡ pos v = rw named (ground (arith, small)) in
      (
        set_user fl gl bits v (set_pose (floats_at 17 7 buf)) w,
        named_moves fl gl bits w now old b v (movement_id vs tail) (movement_full vs) n below,
        ground (arith, floats),
        λ u other. ground (arith, other),
      )
