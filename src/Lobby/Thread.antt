-- ===== src/Lobby/Thread.antt =====
-- `ProcessPacket` of Lobby_PacketManager.cpp: one round of the packet thread over its three sources, the
-- packets of clients, those of the system, and the answers of Redis.
use project_run_server.Base.{
  ℕ, zero, suc, ◌^◌, ◌==◌, ◌≡◌, ◌<◌, refl, ap, false, List, [], ◌∷◌, ◌++◌, Option, none, some, ℤ,
  length, arith, if◌then◌else◌,
}
use project_run_server.Packets.Layout.{unsigned}
use project_run_server.PacketBuffer.{Packet}
use project_run_server.PacketQueue.Drain.{total, Below, AllValid}
use project_run_server.Redis.{RedisResponse}
use project_run_server.GameServer.Loop.{response_packet}
use project_run_server.Lobby.{Lobby, Effect}
use project_run_server.Lobby.Wire.{process_packet}
use project_run_server.Lobby.Loop.{Outcome, client_loop, client_loop-ends}

-- the packet thread's view of the server
pub record Server : Type 0 where
  pub lobby : Lobby
  pub in_coming_packet_user_index : List ℕ
  pub system_packet_queue : List (ℕ × Packet)
  pub response_task : List RedisResponse

-- `PushSystemPacket`
abbrev pub push_system_packet : ℕ → Packet → Server → Server
push_system_packet u p s = record s { system_packet_queue = s.system_packet_queue ++ (u, p) ∷ [] }

-- `DequeSystemPacketData`, where `none` is the empty PacketInfo
unfoldable pub deque_system_packet_data : Server → Option (ℕ × Packet) × Server
deque_system_packet_data s = elim s.system_packet_queue [
  | [] ↦ (none, s)
  | x ∷ q ↦ (some x, record s { system_packet_queue = q })
]

-- what a loop leaves and has sent; `none` means that its fuel ran out
abbrev pub Ran : Type 0
Ran = Option (Server × List Effect)

abbrev pub after : List Effect → Ran → Ran
after es none = none
after es (some (s, more)) = some (s, es ++ more)

abbrev pub and_then : Ran → (Server → Ran) → Ran
and_then none f = none
and_then (some (s, es)) f = after es (f s)

abbrev pub of_outcome : Server → Option Outcome → Ran
of_outcome s none = none
of_outcome s (some o) =
    some (record s { lobby = o.lobby; in_coming_packet_user_index = o.queue }, o.effects)

module _ (to_string : ℕ → List ℕ) (draw : ℕ → ℕ) where
  -- the loop over the packets of the system
  unfoldable pub system_loop : ℕ → (ℕ → ℤ) → Server → Ran
  system_loop zero now s = none
  system_loop (suc fuel) now s =
      let (taken, s1) = deque_system_packet_data s in
      elim taken [
        | none ↦ some (s1, [])
        | some (u, p) ↦
            if p.packet_id == 0
            then some (s1, [])
            else (let (l, es) = process_packet to_string draw (now fuel) u p s1.lobby in
                after es (system_loop fuel now (record s1 { lobby = l })))
      ]

  -- the loop over the answers of Redis
  unfoldable pub redis_loop : ℕ → (ℕ → ℤ) → Server → Ran
  redis_loop zero now s = none
  redis_loop (suc fuel) now s = elim s.response_task [
    | [] ↦ some (s, [])
    | r ∷ rs ↦
        let (u, p) = response_packet r in
        let (l, es) = process_packet to_string draw (now fuel) (unsigned (2 ^ 32) u) p s.lobby in
        after es (redis_loop fuel now (record s { lobby = l; response_task = rs }))
  ]

  -- one round of `ProcessPacket`
  unfoldable pub process_round : ℕ → (ℕ → ℤ) → Server → Ran
  process_round fuel now s =
      and_then
        (of_outcome s (client_loop to_string draw fuel now s.lobby s.in_coming_packet_user_index))
        (λ s1. and_then (system_loop fuel now s1) (λ s2. redis_loop fuel now s2))

  -- Every packet of the system has an id.
  abbrev pub HaveIds : List (ℕ × Packet) → Type 0
  HaveIds [] = Unit
  HaveIds ((u, p) ∷ q) = ((p.packet_id == 0) ≡ false) × HaveIds q

  abbrev server : Lobby → List ℕ → List (ℕ × Packet) → List RedisResponse → Server
  server l q sys rs = record {
    lobby = l;
    in_coming_packet_user_index = q;
    system_packet_queue = sys;
    response_task = rs;
  }

  system_loop-ends :
      (fuel : ℕ) (now : ℕ → ℤ) (l : Lobby) (q : List ℕ) (sys : List (ℕ × Packet))
      (rs : List RedisResponse)
      → HaveIds sys
      → length sys < fuel
      → (l' : Lobby) × (es : List Effect) × (system_loop fuel now (server l q sys rs)
          ≡ some (server l' q [] rs, es))
  unfolding system_loop deque_system_packet_data
  system_loop-ends zero now l q sys rs i h = absurd (omega arith)
  system_loop-ends (suc fuel) now l q [] rs i h = (l, [], refl)
  system_loop-ends (suc fuel) now l q ((u, p) ∷ sys) rs (id, i) h =
      let (l1, es) = process_packet to_string draw (now fuel) u p l in
      let (l2, more, e) = system_loop-ends fuel now l1 q sys rs i (omega (arith, h)) in
      (l2, es ++ more, rw (id, e) refl)

  redis_loop-ends :
      (fuel : ℕ) (now : ℕ → ℤ) (l : Lobby) (q : List ℕ) (sys : List (ℕ × Packet))
      (rs : List RedisResponse)
      → length rs < fuel
      → (l' : Lobby) × (es : List Effect) × (redis_loop fuel now (server l q sys rs)
          ≡ some (server l' q sys [], es))
  unfolding redis_loop
  redis_loop-ends zero now l q sys rs h = absurd (omega arith)
  redis_loop-ends (suc fuel) now l q sys [] h = (l, [], refl)
  redis_loop-ends (suc fuel) now l q sys (r ∷ rs) h =
      let (u, p) = response_packet r in
      let (l1, es) = process_packet to_string draw (now fuel) (unsigned (2 ^ 32) u) p l in
      let (l2, more, e) = redis_loop-ends fuel now l1 q sys rs (omega (arith, h)) in
      (l2, es ++ more, ap (after es) e)

  -- A round of the lobby's packet thread over its three sources ends by itself, and afterwards no
  -- packet of the system and no answer of Redis waits, whatever the clients have sent: from valid
  -- buffers, a queue of clients below `n`, and packets of the system that have ids, fuel above the
  -- number of unread bytes of those clients and above the length of the other two queues gives a
  -- result.
  pub process_round-ends :
      (n fuel : ℕ) (now : ℕ → ℤ) (s : Server)
      → AllValid s.lobby.users.user_obj_pool
      → Below n s.in_coming_packet_user_index
      → HaveIds s.system_packet_queue
      → total n s.lobby.users.user_obj_pool < fuel
      → length s.system_packet_queue < fuel
      → length s.response_task < fuel
      → (s' : Server) × (es : List Effect) × (process_round fuel now s ≡ some (s', es))
        × (s'.system_packet_queue ≡ [])
        × (s'.response_task ≡ [])
  unfolding process_round
  process_round-ends n fuel now s v b i h1 h2 h3 =
      let (o, e1, bound) =
        client_loop-ends to_string draw n fuel now s.lobby s.in_coming_packet_user_index v b h1 in
      let (l2, es2, e2) =
        system_loop-ends fuel now o.lobby o.queue s.system_packet_queue s.response_task i h2 in
      let (l3, es3, e3) = redis_loop-ends fuel now l2 o.queue [] s.response_task h3 in
      (server l3 o.queue [] [], o.effects ++ (es2 ++ es3), rw (e1, e2, e3) refl, refl, refl)
