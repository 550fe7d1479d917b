-- ===== src/PacketQueue/Pending.antt =====
-- In the lobby a client's complete packet is never forgotten.
use project_run_server.Base.{
  ℕ, ◌≡◌, refl, sym, ap, subst, ◌∙◌, inl, inr, ◌≢◌, Bool, true, false, List, [], ◌∷◌, ◌++◌, Option,
  none, some, arith, if◌then◌else◌, Bool-cases, ℕ_discrete,
}
use project_run_server.PacketBuffer.{has_pending_packet}
use project_run_server.Users.{Users}
use project_run_server.PacketQueue.{
  Incoming, enqueue_packet_data, receive_packet_data, on_receive, is_time_sync, deque_packet_data,
  is_queued, take_packet,
}

-- Whoever has a complete packet is queued.
abbrev pub PendingQueued : Incoming → Type 0
PendingQueued s =
    (u : ℕ) → has_pending_packet (s.users u).buffer ≡ true → is_queued u s.queue ≡ true

is_queued-append_self : (u : ℕ) (q : List ℕ) → is_queued u (q ++ u ∷ []) ≡ true
unfolding is_queued
is_queued-append_self u [] = ground arith
is_queued-append_self u (v ∷ q) = ground (arith, is_queued-append_self u q)

is_queued-append : (u v : ℕ) (q : List ℕ) → is_queued u q ≡ true → is_queued u (q ++ v ∷ []) ≡ true
unfolding is_queued
is_queued-append u v [] h = absurd (cc)
is_queued-append u v (w ∷ q) h = ground (arith, is_queued-append u v q)

-- Received data queues its client.
pub receive_packet_data-PendingQueued :
    (u : ℕ) (d : List ℕ) (s : Incoming)
    → PendingQueued s
    → PendingQueued (receive_packet_data u d s)
unfolding receive_packet_data
receive_packet_data-PendingQueued u d s h w p = elim (ℕ_discrete w u) [
  | yes same ↦
      subst (λ v. is_queued v (s.queue ++ u ∷ []) ≡ true) (sym same)
        (is_queued-append_self u s.queue)
  | no other ↦ is_queued-append w u s.queue (h w (ground (arith, p, other)))
]

on_receive-PendingQueued :
    (u : ℕ) (d : List ℕ) (s : Incoming) → PendingQueued s → PendingQueued (on_receive u d s).1
unfolding on_receive
on_receive-PendingQueued u d s h = elim (Bool-cases (is_time_sync d)) [
  | inl sync ↦ rw (sync, on_receive) h
  | inr other ↦ rw (other, on_receive) (receive_packet_data-PendingQueued u d s h)
]

-- The client `u` is queued again if `b`, as far as the others are queued.
requeue :
    (s : Incoming) (u w : ℕ) (b : Bool)
    → has_pending_packet (s.users u).buffer ≡ b
    → (w ≢ u → has_pending_packet (s.users w).buffer ≡ true → is_queued w s.queue ≡ true)
    → has_pending_packet ((if b then enqueue_packet_data u s else s).users w).buffer ≡ true
    → is_queued w (if b then enqueue_packet_data u s else s).queue ≡ true
requeue s u w true e h p = elim (ℕ_discrete w u) [
  | yes same ↦
      subst (λ v. is_queued v (s.queue ++ u ∷ []) ≡ true) (sym same)
        (is_queued-append_self u s.queue)
  | no other ↦ is_queued-append w u s.queue (h other p)
]
requeue s u w false e h p = elim (ℕ_discrete w u) [
  | yes same ↦
      let idle : has_pending_packet (s.users w).buffer ≡ false =
        ap (λ v. has_pending_packet (s.users v).buffer) same ∙ e in
      absurd (cc)
  | no other ↦ h other p
]

-- After the lobby has taken a packet off, everybody who has another complete one is queued.
pub deque_packet_data-PendingQueued :
    (us : Users) (q : List ℕ)
    → PendingQueued (record { users = us; queue = q })
    → PendingQueued (deque_packet_data us q).1
unfolding deque_packet_data is_queued
deque_packet_data-PendingQueued us [] h w p = h w p
deque_packet_data-PendingQueued us (u ∷ q) h w p =
    let s = (take_packet u q us).1 in
    requeue s u w (has_pending_packet (s.users u).buffer) refl (others u q w (h w)) p
  where
    others :
        (u : ℕ) (q : List ℕ) (w : ℕ)
        → (has_pending_packet (us w).buffer ≡ true → is_queued w (u ∷ q) ≡ true)
        → w ≢ u
        → has_pending_packet ((take_packet u q us).1.users w).buffer ≡ true
        → is_queued w q ≡ true
    others u q w h n p = ground (arith, h, n, p)

-- A history of the lobby's queue: `some (u, d)` is data received from `u`, `none` a packet taken off.
unfoldable pub run : List (Option (ℕ × List ℕ)) → Incoming → Incoming
run [] s = s
run (some (u, d) ∷ es) s = run es (on_receive u d s).1
run (none ∷ es) s = run es (deque_packet_data s.users s.queue).1

-- In the lobby every client with a complete packet is queued at any time, whatever was received and
-- taken off in whatever order, if it was so at first.
pub run-PendingQueued :
    (es : List (Option (ℕ × List ℕ))) (s : Incoming) → PendingQueued s → PendingQueued (run es s)
unfolding run
run-PendingQueued [] s h = h
run-PendingQueued (some (u, d) ∷ es) s h =
    run-PendingQueued es (on_receive u d s).1 (on_receive-PendingQueued u d s h)
run-PendingQueued (none ∷ es) s h =
    run-PendingQueued es (deque_packet_data s.users s.queue).1
      (deque_packet_data-PendingQueued s.users s.queue h)
