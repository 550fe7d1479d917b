-- ===== src/Lobby/Loop.antt =====
-- The first loop of the lobby's `ProcessPacket`: clients' packets are taken off and handled until none
-- comes.
use project_run_server.Base.{
  ℕ, zero, suc, ◌*◌, ◌≤◌, ◌<◌, ◌==◌, ◌≡◌, refl, inl, inr, List, [], ◌++◌, Option, none, some, ℤ,
  arith, Bool-cases, Option-cases, if◌then◌else◌,
}
use project_run_server.PacketQueue.{deque_packet_data}
use project_run_server.PacketQueue.Drain.{
  total, total-le, Below, AllValid, deque-Below, deque-AllValid, deque-total,
}
use project_run_server.Lobby.{Lobby, Effect, set_users}
use project_run_server.Lobby.Wire.{request_of, process_packet}
use project_run_server.Lobby.Buffers.{process_recv_packet-AllMilder}

-- the packets handled, the lobby and the queue after the loop, and what was sent
pub record Outcome : Type 0 where
  pub handled : ℕ
  pub lobby : Lobby
  pub queue : List ℕ
  pub effects : List Effect

-- one more packet was handled before
abbrev pub count_one : List Effect → Option Outcome → Option Outcome
count_one es none = none
count_one es (some o) = some (record o { handled = suc o.handled; effects = es ++ o.effects })

module _ (to_string : ℕ → List ℕ) (draw : ℕ → ℕ) where
  -- The loop, with fuel, where `now` is the time in milliseconds for the packet that comes with so much
  -- fuel left; `none` means that the fuel ran out.
  unfoldable pub client_loop : ℕ → (ℕ → ℤ) → Lobby → List ℕ → Option Outcome
  client_loop zero now l q = none
  client_loop (suc fuel) now l q =
      let (taken, inc) = deque_packet_data l.users.user_obj_pool q in
      let l1 = set_users inc.users l in
      elim taken [
        | none ↦ some (record { handled = 0; lobby = l1; queue = inc.queue; effects = [] })
        | some (u, p) ↦
            if p.packet_id == 0
            then some (record { handled = 0; lobby = l1; queue = inc.queue; effects = [] })
            else (let (l2, es) = process_packet to_string draw (now fuel) u p l1 in
                count_one es (client_loop fuel now l2 inc.queue))
      ]

  -- The lobby's loop over clients' packets ends by itself, whatever the clients have sent: from
  -- valid buffers and a queue of clients below `n`, fuel above the number of unread bytes of those
  -- clients gives a result, and the packets handled are at most a fifth of those bytes.
  pub client_loop-ends :
      (n fuel : ℕ) (now : ℕ → ℤ) (l : Lobby) (q : List ℕ)
      → AllValid l.users.user_obj_pool
      → Below n q
      → total n l.users.user_obj_pool < fuel
      → (o : Outcome) × (client_loop fuel now l q ≡ some o)
        × (5 * o.handled ≤ total n l.users.user_obj_pool)
  unfolding client_loop process_packet
  client_loop-ends n zero now l q v b h = absurd (omega arith)
  client_loop-ends n (suc fuel) now l q v b h =
      let us = l.users.user_obj_pool in
      let taken = (deque_packet_data us q).0 in
      let inc = (deque_packet_data us q).1 in
      let l1 = set_users inc.users l in
      let stopped : Outcome = record { handled = 0; lobby = l1; queue = inc.queue; effects = [] } in
      elim (Option-cases taken) [
        | inl e ↦ (stopped, rw (e, client_loop) refl, omega arith)
        | inr ((u, p), e) ↦ elim (Bool-cases (p.packet_id == 0)) [
          | inl stop ↦ (stopped, rw (e, client_loop, stop) refl, omega arith)
          | inr more ↦
              let (l2, es) = process_packet to_string draw (now fuel) u p l1 in
              let milder =
                process_recv_packet-AllMilder to_string draw u (request_of (now fuel) p) l1 in
              let less = deque-total n us q u p v b e in
              let v1 = deque-AllValid us q v in
              let fewer = total-le n l2.users.user_obj_pool inc.users (λ w. (milder w).no_more) in
              let (o, runs, bound) =
                client_loop-ends n fuel now l2 inc.queue (λ w. (milder w).valid (v1 w))
                  (deque-Below n us q b) (omega (arith, h, less, fewer)) in
              (
                record o { handled = suc o.handled; effects = es ++ o.effects },
                rw (e, client_loop, more, runs) refl,
                omega (arith, bound, less, fewer),
              )
        ]
      ]
