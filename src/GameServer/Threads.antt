-- ===== src/GameServer/Threads.antt =====
-- What the threads of the game server do: a round of the packet thread ends, an answer of Redis admits
-- its user, and a datagram moves whomever it names.
use project_run_server.Base.{
  ℕ, zero, suc, ◌<◌, ◌≡◌, ◌≢◌, ◌^◌, ◌==◌, refl, inl, inr, Bool, true, false, List, [], ◌∷◌, Option,
  some, ℤ, pos, arith, leb, length, Option-cases, Bool-cases,
}
use project_run_server.Packets.Layout.{encode_fields, bytes_of, little_endian, unsigned}
use project_run_server.PacketBuffer.{Packet, get_packet}
use project_run_server.PacketQueue.{take_packet, deque_packet_data_once}
use project_run_server.Users.{set_pose}
use project_run_server.GameRoom.{FloatOps}
use project_run_server.Gimmicks.{GimmickFloats}
use project_run_server.Redis.{RedisResponse, response_verify_token}
use project_run_server.GameServer.Access.{process_auth_db_result}
use project_run_server.GameServer.Relays.{World, WorldEffect, effects, set_user}
use project_run_server.GameServer.Dispatch.{Clock, handle, find_handler, process_recv_packet}
use project_run_server.Packets.Reading.{uint_at, floats_at}
use project_run_server.GameServer.Loop.{
  Server, Round, done, thrown, out_of_fuel, set_users, after, and_then, client_loop, system_loop,
  redis_loop, process_packet, response_packet,
}
use project_run_server.GameServer.Udp.{handled, recv_from, udp_recv, sender_named}

-- The loop did not run out of fuel, and left these packets and answers in place.
abbrev Leaves : {F : Type 0} → List (ℕ × Packet) → List RedisResponse → Round F → Type 0
Leaves sys rs (done s es) = (s.system_packet_queue ≡ sys) × (s.response_task ≡ rs)
Leaves sys rs thrown = Unit
Leaves sys rs out_of_fuel = true ≡ false

abbrev LeavesAnswers : {F : Type 0} → List RedisResponse → Round F → Type 0
LeavesAnswers rs (done s es) = s.response_task ≡ rs
LeavesAnswers rs thrown = Unit
LeavesAnswers rs out_of_fuel = true ≡ false

abbrev pub ran_out : {F : Type 0} → Round F → Bool
ran_out (done s es) = false
ran_out thrown = false
ran_out out_of_fuel = true

module _ {F : Type 0} (fl : FloatOps F) (gl : GimmickFloats F) (bits : F → ℕ) (of_bits : ℕ → F)
    (stoi : List ℕ → Option ℤ) where
  after-Leaves :
      (sys : List (ℕ × Packet)) (rs : List RedisResponse) (es : List (WorldEffect F)) (r : Round F)
      → Leaves sys rs r
      → Leaves sys rs (after fl gl bits of_bits stoi es r)
  after-Leaves sys rs es (done s more) h = h
  after-Leaves sys rs es thrown h = h
  after-Leaves sys rs es out_of_fuel h = h

  after-LeavesAnswers :
      (rs : List RedisResponse) (es : List (WorldEffect F)) (r : Round F)
      → LeavesAnswers rs r
      → LeavesAnswers rs (after fl gl bits of_bits stoi es r)
  after-LeavesAnswers rs es (done s more) h = h
  after-LeavesAnswers rs es thrown h = h
  after-LeavesAnswers rs es out_of_fuel h = h

  ran_out-after :
      (es : List (WorldEffect F)) (r : Round F)
      → ran_out r ≡ false
      → ran_out (after fl gl bits of_bits stoi es r) ≡ false
  ran_out-after es (done s more) h = refl
  ran_out-after es thrown h = refl
  ran_out-after es out_of_fuel h = h

  abbrev server : World F → List ℕ → List (ℕ × Packet) → List RedisResponse → Server F
  server w q sys rs = record {
    world = w;
    in_coming_packet_user_index = q;
    system_packet_queue = sys;
    response_task = rs;
  }

  client_loop-Leaves :
      (fuel : ℕ) (c : Clock) (w : World F) (q : List ℕ) (sys : List (ℕ × Packet))
      (rs : List RedisResponse)
      → length q < fuel
      → Leaves sys rs (client_loop fl gl bits of_bits stoi fuel c (server w q sys rs))
  unfolding client_loop deque_packet_data_once
  client_loop-Leaves zero c w q sys rs h = absurd (omega arith)
  client_loop-Leaves (suc fuel) c w [] sys rs h = (refl, refl)
  client_loop-Leaves (suc fuel) c w (u ∷ q) sys rs h =
      elim (Option-cases (get_packet (w.game.users.user_obj_pool u).buffer).0) [
        | inl e ↦ rw (e, client_loop, deque_packet_data_once) (refl, refl)
        | inr (p, e) ↦
            let w1 =
              set_users fl gl bits of_bits stoi (take_packet u q w.game.users.user_obj_pool).1.users
                w in
            elim (Bool-cases (leb p.packet_id 30)) [
              | inl low ↦ rw (e, client_loop, deque_packet_data_once, low) (refl, refl)
              | inr high ↦
                  elim (Option-cases (process_recv_packet fl gl bits of_bits stoi c w1 u p)) [
                    | inl bad ↦ rw (e, client_loop, deque_packet_data_once, high, bad) tt
                    | inr ((w2, es), ok) ↦
                        let rest = client_loop-Leaves fuel c w2 q sys rs (omega (arith, h)) in
                        rw (e, client_loop, deque_packet_data_once, high, ok)
                          (after-Leaves sys rs es _ rest)
                  ]
            ]
      ]

  -- The loop over system packets, in the same way.
  system_loop-Leaves :
      (fuel : ℕ) (c : Clock) (w : World F) (q : List ℕ) (sys : List (ℕ × Packet))
      (rs : List RedisResponse)
      → length sys < fuel
      → LeavesAnswers rs (system_loop fl gl bits of_bits stoi fuel c (server w q sys rs))
  unfolding system_loop
  system_loop-Leaves zero c w q sys rs h = absurd (omega arith)
  system_loop-Leaves (suc fuel) c w q [] rs h = refl
  system_loop-Leaves (suc fuel) c w q ((u, p) ∷ sys) rs h = elim (Bool-cases (p.packet_id == 0)) [
    | inl zero_id ↦ rw (system_loop, zero_id) refl
    | inr other ↦ elim (Option-cases (process_recv_packet fl gl bits of_bits stoi c w u p)) [
      | inl bad ↦ rw (system_loop, other, bad) tt
      | inr ((w2, es), ok) ↦
          let rest = system_loop-Leaves fuel c w2 q sys rs (omega (arith, h)) in
          rw (system_loop, other, ok) (after-LeavesAnswers rs es _ rest)
    ]
  ]

  redis_loop-Ends :
      (fuel : ℕ) (c : Clock) (w : World F) (q : List ℕ) (sys : List (ℕ × Packet))
      (rs : List RedisResponse)
      → length rs < fuel
      → ran_out (redis_loop fl gl bits of_bits stoi fuel c (server w q sys rs)) ≡ false
  unfolding redis_loop
  redis_loop-Ends zero c w q sys rs h = absurd (omega arith)
  redis_loop-Ends (suc fuel) c w q sys [] h = refl
  redis_loop-Ends (suc fuel) c w q sys (r ∷ rs) h =
      let (u, p) = response_packet r in
      elim (Option-cases
        (process_recv_packet fl gl bits of_bits stoi c w (unsigned (2 ^ 32) u) p)) [
          | inl bad ↦ rw (redis_loop, bad) refl
          | inr ((w2, es), ok) ↦
              let rest = redis_loop-Ends fuel c w2 q sys rs (omega (arith, h)) in
              rw (redis_loop, ok) (ran_out-after es _ rest)
        ]

  system_ends :
      (fuel : ℕ) (c : Clock) (rs : List RedisResponse) (r : Round F)
      → LeavesAnswers rs r
      → length rs < fuel
      → ran_out
          (and_then fl gl bits of_bits stoi r (λ s. redis_loop fl gl bits of_bits stoi fuel c s))
        ≡ false
  system_ends fuel c rs (done s es) h l = ran_out-after es _ (
      redis_loop-Ends fuel c s.world s.in_coming_packet_user_index s.system_packet_queue
        s.response_task (rw h l))
  system_ends fuel c rs thrown h l = refl
  system_ends fuel c rs out_of_fuel h l = h

  round_ends :
      (fuel : ℕ) (c : Clock) (sys : List (ℕ × Packet)) (rs : List RedisResponse) (r : Round F)
      → Leaves sys rs r
      → length sys < fuel
      → length rs < fuel
      → ran_out (
          and_then fl gl bits of_bits stoi r (λ s.
            and_then fl gl bits of_bits stoi
              (system_loop fl gl bits of_bits stoi fuel c s)
              (λ s2. redis_loop fl gl bits of_bits stoi fuel c s2)))
        ≡ false
  round_ends fuel c sys rs (done s es) (h, k) l m = ran_out-after es _ (
      system_ends fuel c s.response_task (system_loop fl gl bits of_bits stoi fuel c s)
        (system_loop-Leaves fuel c s.world s.in_coming_packet_user_index s.system_packet_queue
          s.response_task (rw h l))
        (rw k m))
  round_ends fuel c sys rs thrown h l m = refl
  round_ends fuel c sys rs out_of_fuel h l m = h

  -- A round of the game server's packet thread comes to its end, or is broken off by an exception,
  -- and never goes on for ever: fuel above the number of queued clients, of system packets and of
  -- answers is enough.
  pub process_packet-ends :
      (fuel : ℕ) (c : Clock) (s : Server F)
      → length s.in_coming_packet_user_index < fuel
      → length s.system_packet_queue < fuel
      → length s.response_task < fuel
      → ran_out (process_packet fl gl bits of_bits stoi fuel c s) ≡ false
  unfolding process_packet
  process_packet-ends fuel c s h k l =
      round_ends fuel c s.system_packet_queue s.response_task
        (client_loop fl gl bits of_bits stoi fuel c s)
        (client_loop-Leaves fuel c s.world s.in_coming_packet_user_index s.system_packet_queue
          s.response_task h)
        k l

  -- An answer of Redis to a token is handled as `ProcessGameServerAuthDBResult` does it.
  pub answer_verified :
      (c : Clock) (w : World F) (v : ℕ) (u ru : ℤ) (is_valid : Bool)
      → let (g, es) = process_auth_db_result fl w.game v is_valid in
        process_recv_packet fl gl bits of_bits stoi c w v
          (response_packet (response_verify_token u ru is_valid)).1
        ≡ some (record w { game = g }, effects fl gl bits es)
  unfolding process_recv_packet find_handler handle response_packet encode_fields bytes_of
      little_endian
  answer_verified c w v u ru true = refl
  answer_verified c w v u ru false = refl

module _ {F : Type 0} (fl : FloatOps F) (gl : GimmickFloats F) (bits : F → ℕ) where
  -- A movement datagram that names a user below the capacity sets the pose of that user.
  pub named_moves :
      (w : World F) (now : ℤ) (old b : List ℕ) (v : ℕ)
      → uint_at 2 2 (recv_from old b) ≡ 241
      → b ≢ []
      → sender_named (recv_from old b) ≡ pos v
      → v < w.game.users.max_user_cnt
      → udp_recv fl gl bits w now old b
        ≡ handled (set_user fl gl bits v (set_pose (floats_at 17 7 (recv_from old b))) w) []
  unfolding udp_recv
  named_moves w now old [] v e full n h = absurd (full refl)
  named_moves w now old (x ∷ rest) v e full n h = rw (e, udp_recv, n) (ground (arith, h))
