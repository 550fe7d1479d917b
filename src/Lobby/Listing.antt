-- ===== src/Lobby/Listing.antt =====
-- Who gets the room list, and which rooms are on it.
use project_run_server.Base.{
  ℕ, zero, suc, ◌+◌, ◌-◌, ◌≤◌, ◌<◌, ◌≡◌, refl, sym, ap, subst, ◌∙◌, inl, inr, true, false, ◌&&◌,
  List, [], ◌∷◌, map, pos, arith, length, take, leb, ltb, ◌==◌, Option-cases, Bool-cases,
  if◌then◌else◌, ℕ_discrete,
}
use project_run_server.Packets.{RoomInfo, ServerPacket, room_list_res}
use project_run_server.Users.{Users, is_login}
use project_run_server.LobbyRooms.{RoomManager, find_room}
use project_run_server.Lobby.{Lobby, Effect, send, launch_game_server, set_auth_token, user_of}
use project_run_server.Lobby.RoomList.{
  send_to_lobby, broadcast_room_list, used_rooms, listed_rooms, room_info,
  process_room_list_request,
}

-- the packets that a client gets
unfoldable pub received : ℕ → List Effect → List ServerPacket
received u [] = []
received u (send v p ∷ es) = if v == u then p ∷ received u es else received u es
received u (launch_game_server port num ∷ es) = received u es
received u (set_auth_token v token ∷ es) = received u es

send_to_lobby-received :
    (n i : ℕ) (us : Users) (p : ServerPacket) (u : ℕ)
    → received u (send_to_lobby n i us p)
      ≡ (if leb i u && ltb u (i + n) && is_login (us u).domain_state then p ∷ [] else [])
unfolding send_to_lobby received
send_to_lobby-received zero i us p u = ground arith
send_to_lobby-received (suc n) i us p u =
    let rest = send_to_lobby-received n (i + 1) us p u in
    elim (Bool-cases (is_login (us i).domain_state)) [
      | inl in_lobby ↦ elim (ℕ_discrete i u) [
        | yes here ↦
            let also : is_login (us u).domain_state ≡ true =
              sym (ap (λ j. is_login (us j).domain_state) here) ∙ in_lobby in
            rw (in_lobby, send_to_lobby) (ground (arith, rest, here, also))
        | no there ↦ rw (in_lobby, send_to_lobby) (ground (arith, rest, there))
      ]
      | inr away ↦ elim (ℕ_discrete i u) [
        | yes here ↦
            let also : is_login (us u).domain_state ≡ false =
              sym (ap (λ j. is_login (us j).domain_state) here) ∙ away in
            rw (away, send_to_lobby) (ground (arith, rest, here, also))
        | no there ↦ rw (away, send_to_lobby) (ground (arith, rest, there))
      ]
    ]

listed_rooms-length :
    (n i left : ℕ) (us : Users) (m : RoomManager)
    → 0 < left
    → length (listed_rooms n i left us m) ≤ left
unfolding listed_rooms
listed_rooms-length zero i left us m h = omega arith
listed_rooms-length (suc n) i left us m h = elim (Option-cases (find_room m (pos i))) [
  | inl e ↦ rw (e, listed_rooms) (listed_rooms-length n (i + 1) left us m h)
  | inr ((k, r), e) ↦ ground (
    arith,
    e,
    listed_rooms-length n (i + 1) left us m,
    listed_rooms-length n (i + 1) (left - 1) us m,
  )
]

room_nums : List RoomInfo → List ℕ
room_nums xs = map (λ x. x.room_num) xs

listed_rooms-used_rooms :
    (n i left : ℕ) (us : Users) (m : RoomManager)
    → room_nums (listed_rooms n i (suc left) us m)
      ≡ take (suc left) (room_nums (used_rooms n i us m))
unfolding listed_rooms used_rooms room_info room_nums
listed_rooms-used_rooms zero i left us m = refl
listed_rooms-used_rooms (suc n) i left us m = elim (Option-cases (find_room m (pos i))) [
  | inl e ↦ rw (e, listed_rooms, used_rooms) (listed_rooms-used_rooms n (i + 1) left us m)
  | inr ((k, r), e) ↦ elim (Bool-cases (ltb 0 r.current_user_count)) [
    | inl used ↦
        rw (e, listed_rooms, used_rooms, used)
          (ap (◌∷◌ r.room_num) (more left (λ l. listed_rooms-used_rooms n (i + 1) l us m)))
    | inr empty ↦
        rw (e, listed_rooms, used_rooms, empty) (listed_rooms-used_rooms n (i + 1) left us m)
  ]
]
  where
    more :
        (left : ℕ)
        → ((l : ℕ)
            → room_nums (listed_rooms n (i + 1) (suc l) us m)
              ≡ take (suc l) (room_nums (used_rooms n (i + 1) us m)))
        → room_nums (if ltb 1 (suc left) then listed_rooms n (i + 1) (suc left - 1) us m else [])
          ≡ take left (room_nums (used_rooms n (i + 1) us m))
    more zero rest = refl
    more (suc left) rest =
        let at : suc (suc left) - 1 ≡ suc left = omega arith in
        subst
          (λ j.
            room_nums (if ltb 1 (suc (suc left)) then listed_rooms n (i + 1) j us m else [])
            ≡ take (suc left) (room_nums (used_rooms n (i + 1) us m)))
          (sym at) (ground (arith, rest left))

-- In the lobby's own state.
module _ (l : Lobby) where
  -- `BroadcastRoomList` sends the list once to each client below the capacity that is in the lobby,
  -- and nothing to the others.
  pub broadcast_room_list-received :
      (u : ℕ)
      → received u (broadcast_room_list l) ≡ (
          if ltb u l.users.max_user_cnt && is_login (user_of l u).domain_state
          then room_list_res (used_rooms l.rooms.max_room_count 0 l.users.user_obj_pool l.rooms)
            ∷ []
          else [])
  unfolding broadcast_room_list
  broadcast_room_list-received u =
      let us = l.users.user_obj_pool in
      let list = room_list_res (used_rooms l.rooms.max_room_count 0 us l.rooms) in
      send_to_lobby-received l.users.max_user_cnt 0 us list u ∙ ground arith

  -- A room list request is answered by one packet to the client who asked, with at most 20 rooms,
  -- which are, by number, the first ones of those that a broadcast lists.
  pub process_room_list_request_lem :
      (u : ℕ)
      → (rooms : List RoomInfo) × (process_room_list_request l u
          ≡ (l, send u (room_list_res rooms) ∷ []))
        × (length rooms ≤ 20)
        × (map (λ x. x.room_num) rooms
            ≡ take 20 (
                map
                  (λ x. x.room_num)
                  (used_rooms l.rooms.max_room_count 0 l.users.user_obj_pool l.rooms)))
  unfolding process_room_list_request room_nums
  process_room_list_request_lem u =
      let us = l.users.user_obj_pool in
      (
        listed_rooms l.rooms.max_room_count 0 20 us l.rooms,
        refl,
        listed_rooms-length l.rooms.max_room_count 0 20 us l.rooms (omega arith),
        listed_rooms-used_rooms l.rooms.max_room_count 0 19 us l.rooms,
      )
