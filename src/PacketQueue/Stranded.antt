-- ===== src/PacketQueue/Stranded.antt =====
-- A client of the game server who sends two packets at once and then nothing: what becomes of the second.
use project_run_server.Base.{
  ℕ, ◌==◌, ◌≡◌, refl, ap, ◌∙◌, Bool, true, false, ◌&&◌, not, List, [], ◌∷◌, ◌++◌, Option, none,
  some, arith,
}
use project_run_server.PacketBuffer.{Packet, get_packet, has_pending_packet}
use project_run_server.Users.{Users}
use project_run_server.PacketQueue.{
  Incoming, receive_packet_data, deque_packet_data_once, from_client, take_packet, is_queued,
}

-- A history of the game server's queue: `some (u, d)` is data received from `u`, `none` a call of
-- `DequePacketData`; the clients that packets came from, and the state at the end.
unfoldable pub run_once : List (Option (ℕ × List ℕ)) → Incoming → List ℕ × Incoming
run_once [] s = ([], s)
run_once (some (u, d) ∷ es) s = run_once es (receive_packet_data u d s)
run_once (none ∷ es) s =
    let (taken, s1) = deque_packet_data_once s.users s.queue in
    let (from, s2) = run_once es s1 in (elim taken [ none ↦ from | some (u, p) ↦ u ∷ from ], s2)

-- `u` sends nothing.
abbrev pub is_silent : ℕ → List (Option (ℕ × List ℕ)) → Bool
is_silent u [] = true
is_silent u (none ∷ es) = is_silent u es
is_silent u (some (v, d) ∷ es) = not (v == u) && is_silent u es

is_queued-append_other :
    (u v : ℕ) (q : List ℕ)
    → (v == u) ≡ false
    → is_queued u q ≡ false
    → is_queued u (q ++ v ∷ []) ≡ false
unfolding is_queued
is_queued-append_other u v [] e h = ground (arith, e)
is_queued-append_other u v (w ∷ q) e h = ground (arith, h, is_queued-append_other u v q e)

abbrev is_from : ℕ → Option (ℕ × Packet) → Bool
is_from u none = false
is_from u (some (v, p)) = v == u

from_client-other :
    (u v : ℕ) (p : Option Packet) → (v == u) ≡ false → is_from u (from_client v p) ≡ false
from_client-other u v none e = refl
from_client-other u v (some p) e = e

-- A packet that is taken off is not from somebody who is not queued, whose buffer is left alone.
take_once-keeps :
    (u : ℕ) (us : Users) (q : List ℕ)
    → is_queued u q ≡ false
    → let (taken, s) = deque_packet_data_once us q in
      (is_from u taken ≡ false)
      × (is_queued u s.queue ≡ false)
      × ((s.users u).buffer ≡ (us u).buffer)
unfolding deque_packet_data_once is_queued
take_once-keeps u us [] out = (refl, refl, refl)
take_once-keeps u us (v ∷ q) out =
    let other : (v == u) ≡ false = ground (arith, out) in
    (from_client-other u v (take_packet v q us).0 other, ground (arith, out), ground (arith, other))

add_client-queued :
    (u : ℕ) (taken : Option (ℕ × Packet)) (from : List ℕ)
    → is_from u taken ≡ false
    → is_queued u from ≡ false
    → is_queued u (elim taken [ none ↦ from | some (v, p) ↦ v ∷ from ]) ≡ false
unfolding is_queued
add_client-queued u none from other h = h
add_client-queued u (some (v, p)) from other h = ground (arith, other, h)

-- Whoever is not queued and sends nothing keeps the buffer, and no packet is taken off it.
run_once-keeps :
    (u : ℕ) (es : List (Option (ℕ × List ℕ))) (s : Incoming)
    → is_silent u es ≡ true
    → is_queued u s.queue ≡ false
    → let (from, s') = run_once es s in
      (is_queued u from ≡ false)
      × (is_queued u s'.queue ≡ false)
      × ((s'.users u).buffer ≡ (s.users u).buffer)
unfolding run_once is_queued deque_packet_data_once receive_packet_data
run_once-keeps u [] s silent out = (refl, out, refl)
run_once-keeps u (some (v, d) ∷ es) s silent out =
    let other : (v == u) ≡ false = ground (arith, silent) in
    let still = is_queued-append_other u v s.queue other out in
    let s1 = receive_packet_data v d s in
    let (from, queued, same) = run_once-keeps u es s1 (ground (arith, silent)) still in
    let kept : (s1.users u).buffer ≡ (s.users u).buffer = ground (arith, other) in
    (from, queued, same ∙ kept)
run_once-keeps u (none ∷ es) s silent out =
    let (taken, s1) = deque_packet_data_once s.users s.queue in
    let (others, still, kept) = take_once-keeps u s.users s.queue out in
    let (from, queued, same) = run_once-keeps u es s1 silent still in
    (add_client-queued u taken (run_once es s1).0 others from, queued, same ∙ kept)

-- When a client of the game server is queued once and has another complete packet behind the first,
-- then once the first is taken off, the other stays in the buffer as long as the client sends
-- nothing more, whatever others send and however often packets are taken off: none that is taken
-- off is that client's.
pub deque_packet_data_once-strands :
    (us : Users) (q : List ℕ) (u : ℕ) (es : List (Option (ℕ × List ℕ)))
    → is_queued u q ≡ false
    → has_pending_packet (get_packet (us u).buffer).1 ≡ true
    → is_silent u es ≡ true
    → let (from, s) = run_once es (deque_packet_data_once us (u ∷ q)).1 in
      (is_queued u from ≡ false)
      × ((s.users u).buffer ≡ (get_packet (us u).buffer).1)
      × (has_pending_packet (s.users u).buffer ≡ true)
unfolding deque_packet_data_once
deque_packet_data_once-strands us q u es absent more silent =
    let s1 = (take_packet u q us).1 in
    let (from, queued, same) = run_once-keeps u es s1 silent absent in
    let first : (s1.users u).buffer ≡ (get_packet (us u).buffer).1 = ground arith in
    let buffer = same ∙ first in (from, buffer, ap has_pending_packet buffer ∙ more)
