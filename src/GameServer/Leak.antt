-- ===== src/GameServer/Leak.antt =====
-- What becomes of the buffers of UDP packets in the long run.
use project_run_server.Base.{
  ℕ, ◌+◌, ◌==◌, ◌≡◌, refl, ap, ◌∙◌, Bool, true, ◌&&◌, ◌||◌, not, List, [], ◌∷◌, ◌++◌, Option, none,
  some, ℤ, length, if◌then◌else◌, arith,
}
use project_run_server.Packets.Reading.{uint_at}
use project_run_server.GameRoom.{FloatOps}
use project_run_server.Gimmicks.{GimmickFloats}
use project_run_server.GameServer.Relays.{World}
use project_run_server.GameServer.Udp.{
  UdpResult, handled, queued, time_sync, dropped, recv_from, udp_recv,
}
use project_run_server.GameServer.UdpPool.{
  Buffer, UdpMemory, UdpStep, received, pushed, turn, store, system_turn, step, run,
}

abbrev data_bytes : Option Buffer → ℕ
data_bytes none = 0
data_bytes (some b) = b.size

abbrev queue_bytes : List (ℕ × Option Buffer) → ℕ
queue_bytes [] = 0
queue_bytes ((id, b) ∷ q) = data_bytes b + queue_bytes q

abbrev pool_bytes : List Buffer → ℕ
pool_bytes [] = 0
pool_bytes (b ∷ bs) = b.size + pool_bytes bs

-- a packet with data has an id other than 0
abbrev is_numbered : ℕ → Option Buffer → Bool
is_numbered id none = true
is_numbered id (some b) = not (id == 0)

unfoldable pub all_numbered : List (ℕ × Option Buffer) → Bool
all_numbered [] = true
all_numbered ((id, b) ∷ q) = is_numbered id b && all_numbered q

-- The bytes of a datagram, if the id that is in the buffer then is that of a gimmick request or of a
-- player's status.
abbrev queued_bytes : List ℕ → List ℕ → ℕ
queued_bytes old [] = 0
queued_bytes old (x ∷ rest) =
    let id = uint_at 2 2 (recv_from old (x ∷ rest)) in
    if (id == 261) || (id == 243) then length (x ∷ rest) else 0

abbrev pub all_queued_bytes : {F : Type 0} → List ℕ → List (UdpStep F) → ℕ
all_queued_bytes old [] = 0
all_queued_bytes old (received w now b ∷ xs) =
    queued_bytes old b + all_queued_bytes (recv_from old b) xs
all_queued_bytes old (pushed id ∷ xs) = all_queued_bytes old xs
all_queued_bytes old (turn ∷ xs) = all_queued_bytes old xs

queue_bytes-append :
    (q : List (ℕ × Option Buffer)) (id : ℕ) (b : Option Buffer)
    → queue_bytes (q ++ (id, b) ∷ []) ≡ queue_bytes q + data_bytes b
queue_bytes-append [] id b = omega arith
queue_bytes-append ((i, c) ∷ q) id b = omega (arith, queue_bytes-append q id b)

all_numbered-append :
    (q : List (ℕ × Option Buffer)) (id : ℕ) (b : Option Buffer)
    → all_numbered q ≡ true
    → is_numbered id b ≡ true
    → all_numbered (q ++ (id, b) ∷ []) ≡ true
unfolding all_numbered
all_numbered-append [] id b h n = ground (arith, n)
all_numbered-append ((i, c) ∷ q) id b h n = ground (arith, h, n, all_numbered-append q id b)

-- the bytes of the packet that is stored
abbrev stored_bytes : {F : Type 0} → UdpResult F → ℕ
stored_bytes (queued u p) = p.data_size
stored_bytes (handled w es) = 0
stored_bytes (time_sync a b) = 0
stored_bytes dropped = 0

abbrev has_number : {F : Type 0} → UdpResult F → Bool
has_number (queued u p) = not (p.packet_id == 0)
has_number (handled w es) = true
has_number (time_sync a b) = true
has_number dropped = true

module _ {F : Type 0} (fl : FloatOps F) (gl : GimmickFloats F) (bits : F → ℕ) where
  udp_recv-stored :
      (w : World F) (now : ℤ) (old b : List ℕ)
      → (stored_bytes (udp_recv fl gl bits w now old b) ≡ queued_bytes old b)
        × (has_number (udp_recv fl gl bits w now old b) ≡ true)
  unfolding udp_recv
  udp_recv-stored w now old [] = (refl, refl)
  udp_recv-stored w now old (x ∷ rest) = ground arith

-- bytes of the buffers in the queue and in the pool
abbrev pub kept : UdpMemory → ℕ
kept m = queue_bytes m.system_packet_queue + pool_bytes m.udp_buffer_pool

store-kept :
    {F : Type 0} (r : UdpResult F) (m : UdpMemory) → kept (store r m) ≡ kept m + stored_bytes r
store-kept (queued u p) m =
    let b : Buffer = record { address = m.next_address; size = p.data_size } in
    omega (arith, queue_bytes-append m.system_packet_queue p.packet_id (some b))
store-kept (handled w es) m = omega arith
store-kept (time_sync a b) m = omega arith
store-kept dropped m = omega arith

store-all_numbered :
    {F : Type 0} (r : UdpResult F) (m : UdpMemory)
    → all_numbered m.system_packet_queue ≡ true
    → has_number r ≡ true
    → all_numbered (store r m).system_packet_queue ≡ true
store-all_numbered (queued u p) m h n =
    let b : Buffer = record { address = m.next_address; size = p.data_size } in
    all_numbered-append m.system_packet_queue p.packet_id (some b) h n
store-all_numbered (handled w es) m h n = h
store-all_numbered (time_sync a b) m h n = h
store-all_numbered dropped m h n = h

store-buf : {F : Type 0} (r : UdpResult F) (m : UdpMemory) → (store r m).buf ≡ m.buf
store-buf (queued u p) m = refl
store-buf (handled w es) m = refl
store-buf (time_sync a b) m = refl
store-buf dropped m = refl

turn_of :
    (q : List (ℕ × Option Buffer)) (pool : List Buffer) (a : ℕ) (buf : List ℕ)
    → all_numbered q ≡ true
    → let m : UdpMemory = record {
      buf = buf;
      udp_buffer_pool = pool;
      system_packet_queue = q;
      next_address = a;
    } in
      (kept (system_turn m) ≡ kept m)
      × (all_numbered (system_turn m).system_packet_queue ≡ true)
      × ((system_turn m).buf ≡ buf)
unfolding system_turn all_numbered
turn_of [] pool a buf h = (refl, refl, refl)
turn_of ((id, none) ∷ q) pool a buf h = (ground arith, h, refl)
turn_of ((id, some b) ∷ q) pool a buf h = (ground (arith, h), ground (arith, h), ground arith)

module _ {F : Type 0} (fl : FloatOps F) (gl : GimmickFloats F) (bits : F → ℕ) where
  -- Memory for UDP packets is never given back: whatever datagrams come in, whatever else is pushed
  -- for the packet thread and however often that takes a packet, the buffers in the queue and in
  -- the pool together grow by the length of every datagram after which the id in the receive
  -- buffer, where bytes of earlier datagrams stay behind a short one, is that of a gimmick request
  -- or a player's status, if no packet with data on the queue at first has the id 0.
  pub run-kept :
      (xs : List (UdpStep F)) (m : UdpMemory)
      → all_numbered m.system_packet_queue ≡ true
      → kept (run fl gl bits xs m) ≡ kept m + all_queued_bytes m.buf xs
  unfolding run
  run-kept [] m h = omega arith
  run-kept (received w now b ∷ xs) m h =
      let r = udp_recv fl gl bits w now m.buf b in
      let m1 : UdpMemory = record m { buf = recv_from m.buf b } in
      let (bytes, numbered) = udp_recv-stored fl gl bits w now m.buf b in
      let more : kept (store r m1) ≡ kept m + queued_bytes m.buf b =
        store-kept r m1 ∙ ap (λ n. kept m + n) bytes in
      let later = run-kept xs (store r m1) (store-all_numbered r m1 h numbered) in
      let same = ap (λ old. all_queued_bytes old xs) (store-buf r m1) in
      later ∙ omega (arith, more, same)
  run-kept (pushed id ∷ xs) m h = omega (
    arith,
    queue_bytes-append m.system_packet_queue id none,
    run-kept xs (step fl gl bits (pushed id) m)
        (all_numbered-append m.system_packet_queue id none h refl),
  )
  run-kept (turn ∷ xs) m h =
      let (same, numbered, buffer) =
        turn_of m.system_packet_queue m.udp_buffer_pool m.next_address m.buf h in
      omega
        (arith, same, ap (λ b. all_queued_bytes b xs) buffer, run-kept xs (system_turn m) numbered)
