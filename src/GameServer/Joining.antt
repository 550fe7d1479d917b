-- ===== src/GameServer/Joining.antt =====
-- Who gets into a room of the game server, and when a room is reported for deletion.
use project_run_server.Base.{
  ℕ, suc, ◌<◌, ◌≡◌, refl, ap, ◌∙◌, inl, inr, Bool, true, false, ◌==◌, [], ◌∷◌, ◌++◌, none, some, ℤ,
  pos, negsuc, minus_one, get_elem?, get_elem?-set_self, get_elem?-lt, if◌then◌else◌, arith,
  Option-cases, Bool-cases,
}
use project_run_server.Users.{
  Users, no_state, room, login, is_room, at_user, at_conn_idx, set_domain_state, set_pose,
}
use project_run_server.Slots.{Slots, occupied, contains}
use project_run_server.GameRoom.{FloatOps, GameRoom}
use project_run_server.GameRoom.Doors.{enter_user, take_slot, leave_user}
use project_run_server.GameRoom.Seats.{IsSeated}
use project_run_server.GameRoom.Moves.{enter_user-seats, leave_user-count}
use project_run_server.GameServer.{
  Game, GameRooms, room_delete, find_room, put_room, user_of, enter_room_number, leave_room_number,
}
use project_run_server.GameServer.Access.{
  admit, process_auth_db_result, report_empty, clear_connection_info, target_room,
}
use project_run_server.GameServer.Play.{process_enter_room, leave_first, zero_pose}

module _ {F : Type 0} (fl : FloatOps F) where
  enter_user-state :
      (r : GameRoom F) (us : Users) (u : ℕ)
      → is_room (us u).domain_state ≡ true
      → is_room ((enter_user fl r us u).2 u).domain_state ≡ true
  unfolding enter_user take_slot
  enter_user-state r us u h = ground (arith, h)

  enter_room_number-state :
      (g : Game F) (n : ℤ) (u : ℕ)
      → is_room (user_of g u).domain_state ≡ true
      → is_room (user_of (enter_room_number fl g n u).1 u).domain_state ≡ true
  unfolding enter_room_number
  enter_room_number-state g n u h = elim (Option-cases (find_room g.rooms n)) [
    | inl e ↦ rw (e, enter_room_number) h
    | inr ((k, r), e) ↦ rw (e, enter_room_number) (enter_user-state r g.users.user_obj_pool u h)
  ]

  -- A valid token leads into the room state.
  pub admitted :
      (g : Game F) (u : ℕ)
      → is_room (user_of (process_auth_db_result fl g u true).0 u).domain_state ≡ true
  unfolding process_auth_db_result admit
  admitted g u = elim (Bool-cases (is_room (user_of g u).domain_state)) [
    | inl inside ↦ rw (inside, process_auth_db_result) inside
    | inr outside ↦
        let g1 = record g { users = at_conn_idx u (set_domain_state room) g.users } in
        rw (outside, process_auth_db_result)
          (enter_room_number-state g1 (target_room (user_of g1 u)) u (ground arith))
  ]

  -- A room that was put in place of another is found under the number of that one.
  find_room-put_room :
      (m : GameRooms F) (n : ℤ) (k : ℕ) (r x : GameRoom F)
      → find_room m n ≡ some (k, r)
      → find_room (put_room k x m) n ≡ some (k, x)
  unfolding find_room
  find_room-put_room m (negsuc n) k r x e = absurd (cc)
  find_room-put_room m (pos n) k r x e =
      let at : get_elem? m.room_list k ≡ some r = ground (arith, e) in
      ground (arith, e, at, get_elem?-set_self m.room_list k x (get_elem?-lt m.room_list k r at))

  -- A valid token of a user who is not in a room leads into a slot of the user's room, if that has a
  -- free one and its count and slots are in step.
  pub admitted-seated :
      (g : Game F) (u k : ℕ) (r : GameRoom F)
      → is_room (user_of g u).domain_state ≡ false
      → find_room g.rooms (target_room (user_of g u)) ≡ some (k, r)
      → IsSeated r
      → occupied r.slots < r.max_user_count
      → let g' = (process_auth_db_result fl g u true).0 in
        (r' : GameRoom F) × (find_room g'.rooms (target_room (user_of g u)) ≡ some (k, r'))
        × (contains u r'.slots ≡ true)
        × (occupied r'.slots ≡ suc (occupied r.slots))
  unfolding process_auth_db_result admit enter_room_number
  admitted-seated g u k r outside e v left =
      let g1 = record g { users = at_conn_idx u (set_domain_state room) g.users } in
      let (ok, there, more, state, at) = enter_user-seats fl r g1.users.user_obj_pool u v left in
      let r' = (enter_user fl r g1.users.user_obj_pool u).1 in
      let n = target_room (user_of g u) in
      let same : target_room (user_of g1 u) ≡ n = ground arith in
      let found : find_room g1.rooms (target_room (user_of g1 u)) ≡ some (k, r) =
        ap (find_room g.rooms) same ∙ e in
      rw (outside, process_auth_db_result, found, enter_room_number)
        (r', find_room-put_room g.rooms n k r r' e, there, more)

  already_in :
      (g : Game F) (u : ℕ) (is_valid : Bool)
      → is_room (user_of g u).domain_state ≡ true
      → process_auth_db_result fl g u is_valid ≡ (g, [])
  unfolding process_auth_db_result
  already_in g u is_valid h = rw (h, process_auth_db_result) refl

  -- After the answer that a user's token is valid, a further answer for that user, valid or not,
  -- changes and sends nothing.
  pub process_auth_db_result-again :
      (g : Game F) (u : ℕ) (is_valid : Bool)
      → let g' = (process_auth_db_result fl g u true).0 in
        process_auth_db_result fl g' u is_valid ≡ (g', [])
  process_auth_db_result-again g u is_valid =
      already_in (process_auth_db_result fl g u true).0 u is_valid (admitted g u)

  contains-occupied : (u : ℕ) (s : Slots) → contains u s ≡ true → 0 < occupied s
  unfolding contains occupied
  contains-occupied u [] h = absurd (cc)
  contains-occupied u (none ∷ s) h = contains-occupied u s h
  contains-occupied u (some w ∷ s) h = omega arith

  -- When a user with a slot in a room of the game server, whose count and slots are in step, loses
  -- the connection, the effects are those of leaving the room and then a deletion task for it
  -- exactly if nobody else had a slot, and the user is left without a room and in no state.
  pub clear_connection_info-reports :
      (g : Game F) (u k : ℕ) (r : GameRoom F)
      → is_room (user_of g u).domain_state ≡ true
      → find_room g.rooms (user_of g u).room_index ≡ some (k, r)
      → IsSeated r
      → contains u r.slots ≡ true
      → let (g', effects) = clear_connection_info fl g u in
        (effects
          ≡ (leave_room_number fl g (user_of g u).room_index u).2
            ++ (if occupied r.slots == 1 then room_delete u (user_of g u).room_index ∷ [] else []))
        × ((user_of g' u).domain_state ≡ no_state)
        × ((user_of g' u).room_index ≡ minus_one)
  unfolding clear_connection_info report_empty leave_room_number
  clear_connection_info-reports g u k r inside e v there =
      let us = at_user u (set_domain_state login) g.users.user_obj_pool in
      let r' = (leave_user fl r us u).0 in
      let found = find_room-put_room g.rooms (user_of g u).room_index k r r' e in
      let empty = leave_user-count fl r us u v there in
      rw (clear_connection_info, leave_room_number, report_empty, e, inside, found)
        (ground (arith, empty, contains-occupied u r.slots there), ground arith, ground arith)

  fresh_stays :
      (g : Game F) (u : ℕ) → (user_of g u).room_index ≡ minus_one → leave_first fl g u ≡ (g, [])
  unfolding leave_first
  fresh_stays g u e = rw (e, leave_first) refl

  fresh_enter :
      (g : Game F) (u : ℕ) (n : ℤ)
      → (user_of g u).room_index ≡ minus_one
      → (process_enter_room fl g u n).0
        ≡ (enter_room_number fl
            (record g { users = at_conn_idx u (set_pose zero_pose) g.users })
            n
            u).1
  unfolding process_enter_room
  fresh_enter g u n e =
      ap
        (λ p.
          (enter_room_number fl
            (record p.0 { users = at_conn_idx u (set_pose zero_pose) p.0.users }) n u).1)
        (fresh_stays g u e)

  -- In the game server a user who has not been in a room and asks for a room with a free slot,
  -- whose count and slots are in step, gets a slot there: the room is found under the same number
  -- and index with the user in it and one more slot taken, and the user is in the room state with
  -- that room's own number.
  pub process_enter_room-seats :
      (g : Game F) (u k : ℕ) (n : ℤ) (r : GameRoom F)
      → (user_of g u).room_index ≡ minus_one
      → find_room g.rooms n ≡ some (k, r)
      → IsSeated r
      → occupied r.slots < r.max_user_count
      → let g' = (process_enter_room fl g u n).0 in
        (r' : GameRoom F) × (find_room g'.rooms n ≡ some (k, r'))
        × (contains u r'.slots ≡ true)
        × (occupied r'.slots ≡ suc (occupied r.slots))
        × ((user_of g' u).domain_state ≡ room)
        × ((user_of g' u).room_index ≡ pos r.room_num)
  unfolding enter_room_number
  process_enter_room-seats g u k n r fresh e v left =
      let us = at_user u (set_pose zero_pose) g.users.user_obj_pool in
      let (ok, there, more, state, at) = enter_user-seats fl r us u v left in
      let r' = (enter_user fl r us u).1 in
      rw (fresh_enter g u n fresh, enter_room_number, e)
        (r', find_room-put_room g.rooms n k r r' e, there, more, state, at)
