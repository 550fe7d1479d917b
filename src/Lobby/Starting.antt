-- ===== src/Lobby/Starting.antt =====
-- What a game start request does: who may start, and what the players get.
use project_run_server.Base.{
  ℕ, ◌+◌, ◌%◌, ◌≡◌, refl, ap, ap₂, ◌∙◌, inl, inr, Bool, true, false, ◌&&◌, ◌||◌, List, [], ◌∷◌,
  none, some, arith, length, ◌==◌, Option-cases, if◌then◌else◌,
}
use project_run_server.Packets.{match_start_ntf}
use project_run_server.Users.{at_conn_idx, set_domain_state, game}
use project_run_server.LobbyRoom.{Room, u16_mod, is_all_ready, get_room_user_list, set_is_playing}
use project_run_server.Slots.{Slots, users, contains}
use project_run_server.LobbyRooms.{put_room}
use project_run_server.Lobby.{
  Lobby, Effect, send, launch_game_server, set_auth_token, user_of, room_of,
}
use project_run_server.Lobby.Match.{
  token, hand_over, mark_playing, generate_game_session, process_game_start_request, sits_first,
}

is_among : ℕ → List ℕ → Bool
is_among w [] = false
is_among w (u ∷ us) = (u == w) || is_among w us

is_among-users : (w : ℕ) (s : Slots) → is_among w (users s) ≡ contains w s
unfolding is_among users contains
is_among-users w [] = refl
is_among-users w (none ∷ s) = is_among-users w s
is_among-users w (some v ∷ s) = ap (λ b. (v == w) || b) (is_among-users w s)

module _ (to_string : ℕ → List ℕ) (draw : ℕ → ℕ) where
  -- what the players get, in the order of their seats, each with a draw of its own
  pub invitations : ℕ → ℕ → List ℕ → List Effect
  invitations port d [] = []
  invitations port d (u ∷ us) =
      set_auth_token u (token to_string draw u d)
      ∷ send u (match_start_ntf port port (token to_string draw u d))
      ∷ invitations port (d + 1) us

  hand_over_lem :
      (port d : ℕ) (us : List ℕ) (l : Lobby)
      → let (l', effects) = hand_over to_string draw port d us l in
        (effects ≡ invitations port d us)
        × (l'.draws ≡ d + length us)
        × (l'.next_game_port ≡ l.next_game_port)
        × (l'.rooms ≡ l.rooms)
        × ((w : ℕ)
            → user_of l' w
              ≡ (if is_among w us then set_domain_state game (user_of l w) else user_of l w))
  unfolding hand_over invitations is_among
  hand_over_lem port d [] l = (refl, ground arith, refl, refl, λ w. refl)
  hand_over_lem port d (u ∷ us) l =
      let l1 = record l { users = at_conn_idx u (set_domain_state game) l.users } in
      let (sends, drawn, ports, rooms, states) = hand_over_lem port (d + 1) us l1 in
      (
        ap
            (λ es.
              set_auth_token u (token to_string draw u d)
              ∷ send u (match_start_ntf port port (token to_string draw u d))
              ∷ es)
            sends,
        omega (arith, drawn),
        ports,
        rooms,
        λ w. states w ∙ ground arith,
      )

  mark_playing_lem :
      (num : ℕ) (l : Lobby)
      → let l' = mark_playing to_string draw num l in
        (l'.users ≡ l.users) × (l'.draws ≡ l.draws) × (l'.next_game_port ≡ l.next_game_port)
  unfolding mark_playing
  mark_playing_lem num l = ground arith

  -- A start request from the user in the first seat of a room for which `IsAllReady` holds is
  -- obeyed: a game server is launched on the next port, each user of the room gets a token and that
  -- port, in the order of the seats, and is in the game from then on, no other user is written to,
  -- and the port and the draws are used up.
  pub process_game_start_request_lem :
      (l : Lobby) (u k : ℕ) (r : Room)
      → room_of l u ≡ some (k, r)
      → sits_first to_string draw r u ≡ true
      → is_all_ready r ≡ true
      → let (l', effects) = process_game_start_request to_string draw l u in
        (effects
          ≡ launch_game_server l.next_game_port r.room_num
            ∷ invitations l.next_game_port l.draws (users r.slots))
        × (l'.next_game_port ≡ (l.next_game_port + 1) % u16_mod)
        × (l'.draws ≡ l.draws + length (users r.slots))
        × ((w : ℕ)
            → user_of l' w
              ≡ (if contains w r.slots then set_domain_state game (user_of l w) else user_of l w))
  unfolding process_game_start_request generate_game_session get_room_user_list
  process_game_start_request_lem l u k r e first ready =
      let l1 = record l {
        rooms = put_room k (set_is_playing true r) l.rooms;
        next_game_port = (l.next_game_port + 1) % u16_mod;
      } in
      let l2 = mark_playing to_string draw r.room_num l1 in
      let (same, drawn, port) = mark_playing_lem r.room_num l1 in
      let (sends, draws, ports, rooms, states) =
        hand_over_lem l.next_game_port l.draws (users r.slots) l2 in
      rw (e, process_game_start_request, first, ready)
        (
          ap (◌∷◌ (launch_game_server l.next_game_port r.room_num)) sends,
          ports ∙ port,
          draws,
          λ w.
              states w
              ∙ ap₂ (λ b x. if b then set_domain_state game x else x) (is_among-users w r.slots)
                  (ap (λ m. m.user_obj_pool w) same),
        )

  -- A start request changes nothing and sends nothing if the user is in no room, or not in its
  -- first seat, or if `IsAllReady` does not hold for it.
  pub process_game_start_request-refused :
      (l : Lobby) (u : ℕ)
      → ((k : ℕ) (r : Room)
          → room_of l u ≡ some (k, r)
          → sits_first to_string draw r u && is_all_ready r ≡ false)
      → process_game_start_request to_string draw l u ≡ (l, [])
  unfolding process_game_start_request
  process_game_start_request-refused l u h = elim (Option-cases (room_of l u)) [
    | inl e ↦ rw (e, process_game_start_request) refl
    | inr ((k, r), e) ↦ rw (e, process_game_start_request) (ground (arith, h k r e))
  ]
