-- ===== src/LobbyRooms/Entering.antt =====
-- Which room a user gets, and what becomes of a room that the last user leaves.
use project_run_server.Base.{
  ℕ, zero, suc, ◌+◌, ◌-◌, ◌≤◌, ◌<◌, ◌≡◌, refl, sym, ap, ◌∙◌, inl, inr, ◌≢◌, true, [], none, some, ℤ,
  pos, negsuc, minus_one, arith, get_elem?, Option-cases, dec_lt, ℕ_discrete, get_elem?-some,
  get_elem?-set_self, set-set, get_elem?-lt,
}
use project_run_server.Packets.{no_error, room_invalid_index}
use project_run_server.Users.{Users, at_user, set_domain_state, login}
use project_run_server.Slots.{occupied, contains}
use project_run_server.LobbyRoom.{Room}
use project_run_server.LobbyRoom
use project_run_server.LobbyRoom.Seating.{enter_user_lem, leave_user-count}
use project_run_server.LobbyRoom.Kept.{leave_user-SameRoom as leave_room-SameRoom}
use project_run_server.LobbyRooms.{
  RoomManager, get_room_by_number, find_room, put_room, clear_room, find_empty_room, pick_room,
  enter_user, leave_user,
}
use project_run_server.LobbyRooms.Invariant.{IsValid, Numbered-get, find_room_lem}

-- A number in range names the room at that distance from the first, and no other number names one.
pub find_room-in_range :
    (m : RoomManager) (max k : ℕ)
    → IsValid max m
    → k < m.max_room_count
    → (r : Room) × (get_elem? m.room_list k ≡ some r)
      × (find_room m (pos (m.begin_room_number + k)) ≡ some (k, r))
unfolding find_room get_room_by_number
find_room-in_range m max k v h =
    let (r, e) = get_elem?-some m.room_list k (omega (arith, v.counted)) in
    let at : m.begin_room_number + k - m.begin_room_number ≡ k = omega arith in
    (r, e, ground (arith, e, v.last, ap (get_elem? m.room_list) at, at))

-- A room that is found is found again after a method changed it.
find_room-put_room :
    (m : RoomManager) (n : ℤ) (k : ℕ) (r x : Room)
    → find_room m n ≡ some (k, r)
    → find_room (put_room k x m) n ≡ some (k, x)
unfolding find_room put_room
find_room-put_room m (negsuc n) k r x e = absurd (cc)
find_room-put_room m (pos n) k r x e =
    let (at, number) = find_room_lem m (pos n) k r e in
    ground (arith, at, number, get_elem?-set_self m.room_list k x (get_elem?-lt m.room_list k r at))

clear_room-put_room :
    (m : RoomManager) (n k : ℕ) (r x : Room)
    → find_room m (pos n) ≡ some (k, r)
    → clear_room (pos n) (put_room k x m) ≡ put_room k (LobbyRoom.init n x.max_user_count) m
unfolding clear_room put_room
clear_room-put_room m n k r x e =
    rw (find_room-put_room m (pos n) k r x e, clear_room)
      (ground (arith, set-set m.room_list k x (LobbyRoom.init n x.max_user_count)))

module _ (m : RoomManager) (max : ℕ) (v : IsValid max m)
    (zero_based : m.begin_room_number ≡ 0) where
  at_number :
      (k : ℕ)
      → k < m.max_room_count
      → (r : Room) × (get_elem? m.room_list k ≡ some r) × (find_room m (pos k) ≡ some (k, r))
  at_number k h =
      let (r, e, f) = find_room-in_range m max k v h in
      let at : m.begin_room_number + k ≡ k = omega arith in
      (r, e, sym (ap (λ j. find_room m (pos j)) at) ∙ f)

  find_empty_room-some :
      (j i k : ℕ) (r : Room)
      → get_elem? m.room_list k ≡ some r
      → r.current_user_count ≡ 0
      → i ≤ k
      → k < i + j
      → i + j ≤ m.max_room_count
      → (k' : ℕ) × (r' : Room) × (find_empty_room j i m ≡ some (k', r'))
        × (k' ≤ k)
        × (r'.current_user_count ≡ 0)
        × (get_elem? m.room_list k' ≡ some r')
  unfolding find_empty_room
  find_empty_room-some zero i k r e n lo hi all = absurd (omega arith)
  find_empty_room-some (suc j) i k r e n lo hi all =
      let (r', there, found) = at_number i (omega arith) in
      let here : i ≡ k → r'.current_user_count ≡ 0 = λ q.
        let same : some r' ≡ some r = sym there ∙ (ap (get_elem? m.room_list) q ∙ e) in
        ground (arith, same, n) in
      elim (ℕ_discrete r'.current_user_count 0) [
        | yes free ↦ (i, r', ground (arith, found, free), lo, free, there)
        | no busy ↦
            let apart : i ≢ k = λ q. busy (here q) in
            let (k', r'', f, le, z, g) =
              find_empty_room-some j (i + 1) k r e n (omega arith) (omega arith) (omega arith) in
            (k', r'', ground (arith, found, busy, f), le, z, g)
      ]

  find_empty_room-none :
      (j i : ℕ)
      → ((k : ℕ) (r : Room) → get_elem? m.room_list k ≡ some r → r.current_user_count ≢ 0)
      → find_empty_room j i m ≡ none
  unfolding find_empty_room
  find_empty_room-none zero i full = refl
  find_empty_room-none (suc j) i full = elim (Option-cases (find_room m (pos i))) [
    | inl e ↦ rw (e, find_empty_room) (find_empty_room-none j (i + 1) full)
    | inr ((k, r), e) ↦
        let busy = full k r (find_room_lem m (pos i) k r e).0 in
        ground (arith, e, busy, find_empty_room-none j (i + 1) full)
  ]

  -- With number -1 the room that `EnterUser` picks is the first of those with nobody in them.
  pick_room-any :
      (k : ℕ) (r : Room)
      → get_elem? m.room_list k ≡ some r
      → r.current_user_count ≡ 0
      → ((j : ℕ) (s : Room) → get_elem? m.room_list j ≡ some s → j < k → s.current_user_count ≢ 0)
      → pick_room minus_one m ≡ some (k, r)
  unfolding pick_room
  pick_room-any k r e n first =
      let bound : k < m.max_room_count = omega (arith, get_elem?-lt m.room_list k r e, v.counted) in
      let (k', r', f, le, z, g) =
        find_empty_room-some m.max_room_count 0 k r e n (omega arith) (omega arith) (omega arith) in
      elim (dec_lt k' k) [
        | yes less ↦ absurd (first k' r' g less z)
        | no ge ↦
            let same : k' ≡ k = omega arith in
            let there : some r' ≡ some r = sym g ∙ (ap (get_elem? m.room_list) same ∙ e) in
            ground (arith, f, same, there)
      ]

  -- With room number -1 a user gets a seat, alone, in the first room that has nobody, if there is
  -- one, in a valid manager whose rooms have seats and are numbered from 0.
  pub enter_user-any :
      (us : Users) (u k : ℕ) (r : Room)
      → 0 < max
      → get_elem? m.room_list k ≡ some r
      → r.current_user_count ≡ 0
      → ((j : ℕ) (s : Room) → get_elem? m.room_list j ≡ some s → j < k → s.current_user_count ≢ 0)
      → (r' : Room) × ((enter_user m us minus_one u).0 ≡ no_error)
        × ((enter_user m us minus_one u).1 ≡ put_room k r' m)
        × (contains u r'.slots ≡ true)
        × (occupied r'.slots ≡ 1)
        × (((enter_user m us minus_one u).2 u).room_index ≡ pos k)
  unfolding enter_user
  enter_user-any us u k r h e n first =
      let facts = Numbered-get max m.begin_room_number m.room_list k r v.rooms e in
      let w = facts.0 in
      let left : occupied r.slots < r.max_user_count = omega (arith, w.counted, facts.2) in
      let (ok, more, seats, s, at, others) = enter_user_lem r us u w left in
      let picked = pick_room-any k r e n first in
      let there : r.room_num ≡ k = omega (arith, facts.1, zero_based) in
      rw (picked, enter_user)
        (
          (LobbyRoom.enter_user r us u).1,
          ok,
          refl,
          seats u ∙ ground arith,
          omega (arith, more, w.counted),
          at ∙ ap pos there,
        )

  -- With room number -1 a user is refused, and nothing changes, when every room has somebody, in a
  -- valid manager whose rooms are numbered from 0.
  pub enter_user-no_room :
      (us : Users) (u : ℕ)
      → ((k : ℕ) (r : Room) → get_elem? m.room_list k ≡ some r → r.current_user_count ≢ 0)
      → enter_user m us minus_one u ≡ (room_invalid_index, m, us, [])
  unfolding enter_user pick_room
  enter_user-no_room us u full = ground (arith, find_empty_room-none m.max_room_count 0 full)

  -- The last user who leaves a room of a valid manager, whose rooms are numbered from 0, leaves the
  -- room as it was made.
  pub leave_user-last :
      (us : Users) (u k : ℕ) (r : Room)
      → get_elem? m.room_list k ≡ some r
      → occupied r.slots ≡ 1
      → contains u r.slots ≡ true
      → (leave_user m us (pos k) u).1 ≡ put_room k (LobbyRoom.init k max) m
  unfolding leave_user
  leave_user-last us u k r e one there =
      let (r', e', f) = at_number k (omega (arith, get_elem?-lt m.room_list k r e, v.counted)) in
      let facts = Numbered-get max m.begin_room_number m.room_list k r v.rooms e in
      let us' = at_user u (set_domain_state login) us in
      let x = (LobbyRoom.leave_user r us' u).0 in
      let empty : x.current_user_count ≡ 0 = leave_user-count r us' u facts.0 there ∙ omega arith in
      let same = leave_room-SameRoom r us' u in
      let found : find_room m (pos k) ≡ some (k, r) = ground (arith, f, e, e') in
      let cleared = clear_room-put_room m k k r x found in
      let max_same : x.max_user_count ≡ max = same.1 ∙ facts.2 in
      rw (found, leave_user) (ground (arith, empty, cleared, max_same))
