-- ===== src/Lobby/Invariant.antt =====
-- The lobby's handlers for rooms keep every room valid.
use project_run_server.Base.{
  ℕ, zero, suc, ◌+◌, ◌≡◌, refl, ◌∙◌, inl, inr, Bool, List, some, ℤ, pos, arith, Option-cases,
  Bool-cases, ◌==◌, eq_ℤ, if◌then◌else◌,
}
use project_run_server.LobbyRoom.{
  Room, set_title, set_is_playing, set_user_char_id, get_user_by_slot, is_all_ready,
  get_room_user_list,
}
use project_run_server.LobbyRoom
use project_run_server.LobbyRoom.Invariant.{
  IsValid as IsValidRoom, process_player_ready-IsValid, set_user_char_id-IsValid, set_title-IsValid,
}
use project_run_server.LobbyRoom.Kept.{
  SameRoom, process_player_ready-SameRoom, set_user_char_id-SameRoom, set_title-SameRoom,
}
use project_run_server.LobbyRooms.{find_room, put_room}
use project_run_server.LobbyRooms.Invariant.{
  IsValid, find_room_lem, update-IsValid, enter_user-IsValid, leave_user-IsValid,
}
use project_run_server.Lobby.{Lobby, room_of, user_of}
use project_run_server.Lobby.Session.{process_user_disconnect, leave_on_disconnect}
use project_run_server.Lobby.Rooms.{
  leave_current, enter_new, leave_first, title_room, process_enter_room, process_leave_room,
  process_player_ready, force_guests, select_char, process_character_select,
  process_room_chat_message,
}

-- A method that keeps rooms valid, run on the room that was found for a number.
pub found-IsValid :
    (max : ℕ) (l : Lobby) (n : ℤ) (k : ℕ) (r r' : Room)
    → IsValid max l.rooms
    → find_room l.rooms n ≡ some (k, r)
    → (IsValidRoom r → IsValidRoom r')
    → SameRoom r r'
    → IsValid max (put_room k r' l.rooms)
found-IsValid max l n k r r' v e keep same =
    update-IsValid max l.rooms k r r' v (find_room_lem l.rooms n k r e).0 keep same

-- What a method has made of a room is valid if the room was, and has its number and size.
Keeps : Room → Room → Type 0
Keeps r r' = (IsValidRoom r → IsValidRoom r') × SameRoom r r'

Keeps-trans : (r r' r'' : Room) → Keeps r r' → Keeps r' r'' → Keeps r r''
unfolding Keeps
Keeps-trans r r' r'' (f, s) (g, t) = (λ v. g (f v), (t.0 ∙ s.0, t.1 ∙ s.1))

set_user_char_id-Keeps : (u : ℕ) (c : ℤ) (r : Room) → Keeps r (set_user_char_id u c r)
unfolding Keeps
set_user_char_id-Keeps u c r = (set_user_char_id-IsValid u c r, set_user_char_id-SameRoom u c r)

force_guests-Keeps : (n i u : ℕ) (c : ℤ) (r : Room) → Keeps r (force_guests n i u c r)
unfolding force_guests Keeps
force_guests-Keeps zero i u c r = (λ v. v, (refl, refl))
force_guests-Keeps (suc n) i u c r = elim (Option-cases (get_user_by_slot r i)) [
  | inl e ↦ rw (e, force_guests) (force_guests-Keeps n (i + 1) u c r)
  | inr (w, e) ↦ elim (Bool-cases (w == u)) [
    | inl host ↦ rw (e, force_guests, host) (force_guests-Keeps n (i + 1) u c r)
    | inr guest ↦
        let r' = set_user_char_id w c r in
        rw (e, force_guests, guest)
          (Keeps-trans r r' (force_guests n (i + 1) u c r') (set_user_char_id-Keeps w c r)
            (force_guests-Keeps n (i + 1) u c r'))
  ]
]

select_char-Keeps : (u : ℕ) (c : ℤ) (r : Room) → Keeps r (select_char u c r)
unfolding select_char
select_char-Keeps u c r =
    let r' = set_user_char_id u c r in
    let keeps = set_user_char_id-Keeps u c r in
    let other = if eq_ℤ c (pos 0) then pos 1 else pos 0 in
    elim (Bool-cases (eq_ℤ r'.host_uuid (pos u))) [
      | inl host ↦
          rw (host, select_char)
            (Keeps-trans r r' (force_guests r'.max_user_count 0 u other r') keeps
              (force_guests-Keeps r'.max_user_count 0 u other r'))
      | inr guest ↦ rw (guest, select_char) keeps
    ]

module _ (max : ℕ) (l : Lobby) (u : ℕ) (v : IsValid max l.rooms) where
  leave_current-IsValid : IsValid max (leave_current l u).1.rooms
  unfolding leave_current
  leave_current-IsValid = leave_user-IsValid max l.rooms _ _ u v

  enter_new-IsValid : (n : ℤ) → IsValid max (enter_new l u n).1.rooms
  unfolding enter_new
  enter_new-IsValid n = enter_user-IsValid max l.rooms _ n u v

  leave_first-IsValid : IsValid max (leave_first l u).0.rooms
  unfolding leave_first
  leave_first-IsValid = ground (arith, v, leave_current-IsValid)

  title_room-IsValid : (t : List ℕ) → IsValid max (title_room l u t).rooms
  unfolding title_room room_of
  title_room-IsValid t = elim (Option-cases (find_room l.rooms (user_of l u).room_index)) [
    | inl e ↦ rw (e, title_room) v
    | inr ((k, r), e) ↦
        rw (e, title_room)
          (found-IsValid max l (user_of l u).room_index k r (set_title t r) v e
            (set_title-IsValid t r) (set_title-SameRoom t r))
  ]

  pub player_ready-IsValid : (b : Bool) → IsValid max (process_player_ready l u b).0.rooms
  unfolding process_player_ready room_of
  player_ready-IsValid b = elim (Option-cases (find_room l.rooms (user_of l u).room_index)) [
    | inl e ↦ rw (e, process_player_ready) v
    | inr ((k, r), e) ↦
        rw (e, process_player_ready)
          (found-IsValid max l (user_of l u).room_index k r (LobbyRoom.process_player_ready r u b).0
            v e (process_player_ready-IsValid r u b) (process_player_ready-SameRoom r u b))
  ]

  pub character_select-IsValid : (c : ℤ) → IsValid max (process_character_select l u c).0.rooms
  unfolding process_character_select room_of
  character_select-IsValid c = elim (Option-cases (find_room l.rooms (user_of l u).room_index)) [
    | inl e ↦ rw (e, process_character_select) v
    | inr ((k, r), e) ↦
        let keeps : (IsValidRoom r → IsValidRoom (select_char u c r))
            × SameRoom r (select_char u c r) =
          unfold Keeps in select_char-Keeps u c r in
        rw (e, process_character_select)
          (found-IsValid max l (user_of l u).room_index k r (select_char u c r) v e keeps.0 keeps.1)
  ]

module _ (max : ℕ) (l : Lobby) (u : ℕ) (v : IsValid max l.rooms) where
  pub process_enter_room-IsValid :
      (n : ℤ) (t : List ℕ) → IsValid max (process_enter_room l u n t).0.rooms
  unfolding process_enter_room
  process_enter_room-IsValid n t =
      let l1 = (leave_first l u).0 in
      let w = enter_new-IsValid max l1 u (leave_first-IsValid max l u v) n in
      ground (arith, w, title_room-IsValid max (enter_new l1 u n).1 u w t)

  pub process_leave_room-IsValid : IsValid max (process_leave_room l u).0.rooms
  unfolding process_leave_room
  process_leave_room-IsValid = leave_current-IsValid max l u v

  pub disconnect-IsValid : IsValid max (process_user_disconnect l u).0.rooms
  unfolding process_user_disconnect leave_on_disconnect
  disconnect-IsValid =
      ground (
        arith,
        v,
        leave_user-IsValid max l.rooms l.users.user_obj_pool (user_of l u).room_index u v,
      )

  pub chat-IsValid : (msg : List ℕ) → IsValid max (process_room_chat_message l u msg).0.rooms
  unfolding process_room_chat_message
  chat-IsValid msg = ground (arith, v)
