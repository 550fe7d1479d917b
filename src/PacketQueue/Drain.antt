-- ===== src/PacketQueue/Drain.antt =====
-- How `DequePacketData` of the lobby uses up the unread bytes of all clients.
use project_run_server.Base.{
  ℕ, zero, suc, ◌+◌, ◌≤◌, ◌<◌, ◌≡◌, refl, inl, inr, List, [], ◌∷◌, ◌++◌, some, arith, ℕ_discrete,
  Bool-cases, Option-cases,
}
use project_run_server.PacketBuffer.{Packet, remain, get_packet, has_pending_packet}
use project_run_server.PacketBuffer.Invariant.{IsValid, get_packet-IsValid, get_packet-some}
use project_run_server.Users.{User, Users, at_user}
use project_run_server.PacketQueue.{set_buffer, take_packet, deque_packet_data}

abbrev pub unread : User → ℕ
unread x = remain x.buffer

-- the unread bytes of the clients below `n`
unfoldable pub total : ℕ → Users → ℕ
total zero us = 0
total (suc n) us = unread (us n) + total n us

-- Fewer unread bytes of each are fewer of all.
pub total-le :
    (n : ℕ) (us vs : Users) → ((w : ℕ) → unread (us w) ≤ unread (vs w)) → total n us ≤ total n vs
unfolding total
total-le zero us vs h = omega arith
total-le (suc n) us vs h = omega (arith, total-le n us vs h, h n)

total-above :
    (n u : ℕ) (f : User → User) (us : Users) → n ≤ u → total n (at_user u f us) ≡ total n us
unfolding total
total-above zero u f us h = refl
total-above (suc n) u f us h = ground (arith, total-above n u f us (omega arith))

total-at_user :
    (n u : ℕ) (f : User → User) (us : Users)
    → u < n
    → total n (at_user u f us) + unread (us u) ≡ total n us + unread (f (us u))
unfolding total
total-at_user zero u f us h = elim h [ ]
total-at_user (suc n) u f us h = elim (ℕ_discrete n u) [
  | yes same ↦
      let above = total-above n u f us (omega arith) in
      rw (← same) (ground (arith, rw (← same) at above))
  | no other ↦ ground (arith, other, total-at_user n u f us (omega arith))
]

-- Every client on the queue is below `n`.
abbrev pub Below : ℕ → List ℕ → Type 0
Below n [] = Unit
Below n (u ∷ q) = (u < n) × Below n q

Below-append : (n : ℕ) (q : List ℕ) (u : ℕ) → Below n q → u < n → Below n (q ++ u ∷ [])
Below-append n [] u b h = (h, tt)
Below-append n (v ∷ q) u (k, b) h = (k, Below-append n q u b h)

abbrev pub AllValid : Users → Type 0
AllValid us = (w : ℕ) → IsValid (us w).buffer

take_packet-AllValid :
    (u : ℕ) (q : List ℕ) (us : Users) → AllValid us → AllValid (take_packet u q us).1.users
take_packet-AllValid u q us v w = elim (ℕ_discrete w u) [
  | yes same ↦ ground (arith, same, get_packet-IsValid (v u))
  | no other ↦ ground (arith, other, v w)
]

-- what one round does to the queue
pub deque-Below :
    (n : ℕ) (us : Users) (q : List ℕ) → Below n q → Below n (deque_packet_data us q).1.queue
unfolding deque_packet_data
deque-Below n us [] b = b
deque-Below n us (u ∷ q) (h, b) =
    elim (Bool-cases (has_pending_packet ((take_packet u q us).1.users u).buffer)) [
      | inl more ↦ rw (more, deque_packet_data) (Below-append n q u b h)
      | inr done ↦ rw (done, deque_packet_data) b
    ]

deque-users :
    (us : Users) (u : ℕ) (q : List ℕ)
    → (deque_packet_data us (u ∷ q)).1.users ≡ (take_packet u q us).1.users
unfolding deque_packet_data
deque-users us u q =
    elim (Bool-cases (has_pending_packet ((take_packet u q us).1.users u).buffer)) [
      | inl more ↦ rw (more, deque_packet_data) refl
      | inr done ↦ rw (done, deque_packet_data) refl
    ]

-- One round leaves valid buffers valid.
pub deque-AllValid :
    (us : Users) (q : List ℕ) → AllValid us → AllValid (deque_packet_data us q).1.users
unfolding deque_packet_data
deque-AllValid us [] v = v
deque-AllValid us (u ∷ q) v = rw (deque-users us u q) (take_packet-AllValid u q us v)

-- A packet that is taken off takes five bytes at least.
pub deque-total :
    (n : ℕ) (us : Users) (q : List ℕ) (u : ℕ) (p : Packet)
    → AllValid us
    → Below n q
    → (deque_packet_data us q).0 ≡ some (u, p)
    → total n (deque_packet_data us q).1.users + 5 ≤ total n us
unfolding deque_packet_data
deque-total n us [] u p v b e = absurd (cc)
deque-total n us (w ∷ q) u p v (h, b) e =
    let packet = (get_packet (us w).buffer).0 in
    let buffer = (get_packet (us w).buffer).1 in
    let moved = total-at_user n w (set_buffer buffer) us h in
    rw (deque-users us w q) (elim (Option-cases packet) [
      | inl nothing ↦ absurd (ground (arith, e, nothing))
      | inr (p', got) ↦ omega (arith, moved, get_packet-some (us w).buffer p' (v w) got)
    ])
