-- ===== src/PacketQueue/Tests.antt =====
-- Client 4 has sent two time sync requests at once.
use project_run_server.Base.{
  ℕ, ◌≡◌, ◌==◌, if◌then◌else◌, refl, true, false, List, [], ◌∷◌, Option, ◌++◌, none, some, pos,
  minus_one,
}
use project_run_server.PacketBuffer.{PacketBuffer, get_packet, has_pending_packet}
use project_run_server.Users.{User, Users, login}
use project_run_server.PacketQueue.{deque_packet_data_once, is_queued}
use project_run_server.PacketQueue.Stranded.{run_once, deque_packet_data_once-strands}
use project_run_server.PacketQueue.Pending.{PendingQueued, run, run-PendingQueued}

abbrev sync : List ℕ
sync = 5 ∷ 0 ∷ 101 ∷ 0 ∷ 0 ∷ []

abbrev client : PacketBuffer → User
client b = record {
  domain_state = login;
  room_index = minus_one;
  user_id = 65 ∷ [];
  ping = pos 0;
  character_id = pos 0;
  inventory = [];
  pose = [];
  buffer = b;
}

abbrev quiet : Users
quiet i = client (record { bytes = λ j. 0; wpos = 0; rpos = 0 })

-- the buffer after ten bytes
abbrev busy : Users
busy i = client (record {
  bytes = λ j.
      if j == 2 then 101 else if j == 7 then 101 else if j == 0 then 5 else if j == 5 then 5 else 0;
  wpos = 10;
  rpos = 0;
})

nobody_waits : PendingQueued (record { users = quiet; queue = [] })
unfolding has_pending_packet
nobody_waits u p = absurd (cc)

run-PendingQueued_example : PendingQueued (
    run
      (some (4, sync ++ sync) ∷ none ∷ some (7, sync) ∷ none ∷ [])
      (record { users = quiet; queue = [] }))
run-PendingQueued_example =
    run-PendingQueued (some (4, sync ++ sync) ∷ none ∷ some (7, sync) ∷ none ∷ [])
      (record { users = quiet; queue = [] }) nobody_waits

second_waits : (is_queued 4 [] ≡ false) × (has_pending_packet (get_packet (busy 4).buffer).1 ≡ true)
unfolding is_queued has_pending_packet get_packet
second_waits = (refl, refl)

-- Another client's packet comes in and the queue is emptied.
abbrev others_only : List (Option (ℕ × List ℕ))
others_only = none ∷ some (7, sync) ∷ none ∷ none ∷ []

deque_packet_data_once-strands_example :
    let (from, s) = run_once others_only (deque_packet_data_once busy (4 ∷ [])).1 in
    (is_queued 4 from ≡ false)
    × ((s.users 4).buffer ≡ (get_packet (busy 4).buffer).1)
    × (has_pending_packet (s.users 4).buffer ≡ true)
deque_packet_data_once-strands_example =
    deque_packet_data_once-strands busy [] 4 others_only second_waits.0 second_waits.1 refl
