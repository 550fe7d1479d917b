-- ===== src/GameRoom/Doors.antt =====
-- Entering and leaving a room of the game server, in Server/GameServer/Room.h: `Init`, `EnterUser`,
-- `LeaveUser`, the packets that show users to each other, and the chat.
use project_run_server.Base.{
  ℕ, ◌+◌, ◌-◌, ◌%◌, true, false, leb, ◌==◌, List, [], ◌∷◌, ◌++◌, map, none, some, ℤ, pos, minus_one,
  eq_ℤ, set, replicate, if◌then◌else◌,
}
use project_run_server.Packets.{ErrorCode, no_error, enter_room_full_user, copy_user_id}
use project_run_server.Users.{Users, at_user, enter_room, set_domain_state, room}
use project_run_server.Slots.{Slots, find_free, find_slot, first_user}
use project_run_server.GameRoom.{
  FloatOps, no_totals, GamePacket, user_info_ntf, host_ntf, leave_user_ntf, chat_ntf, new_user_ntf,
  GameSend, GameRoom, u16, introduce_to, remove_named, send_to_users, broadcast,
}
use project_run_server.GameRoom.Ready.{check_all_ready}

module _ {F : Type 0} (fl : FloatOps F) where
  -- `Init` of a new room
  unfoldable pub init : ℕ → ℕ → GameRoom F
  init num max = record {
    room_num = num;
    max_user_count = max;
    slots = replicate max none;
    is_ready = replicate max false;
    is_escaped = replicate max false;
    user_list = [];
    current_user_count = 0;
    host_uuid = minus_one;
    countdown_timer = fl.minus_one_f;
    last_announced_second = pos 0;
    start_time = 0;
    totals = no_totals;
  }

  unfoldable pub take_slot : GameRoom F → Users → ℕ → ℕ → GameRoom F × Users × List GameSend
  take_slot r us u i =
      let us' = at_user u (λ x. enter_room r.room_num (set_domain_state room x)) us in
      let count = (r.current_user_count + 1) % u16 in
      let r' = record r {
        slots = set r.slots i (some u);
        user_list = r.user_list ++ u ∷ [];
        current_user_count = count;
        host_uuid = if count == 1 then pos u else r.host_uuid;
      } in
      (r', us', introduce_to us' u r.user_list ++ broadcast r' (host_ntf r'.host_uuid))

  -- `EnterUser`
  unfoldable pub enter_user :
      GameRoom F → Users → ℕ → ErrorCode × GameRoom F × Users × List GameSend
  enter_user r us u =
      if leb r.max_user_count r.current_user_count
      then (enter_room_full_user, r, us, [])
      else elim (find_free r.slots) [
        | none ↦ (enter_room_full_user, r, us, [])
        | some i ↦ let (r', us', sends) = take_slot r us u i in (no_error, r', us', sends)
      ]

  abbrev pub clear_slot : ℕ → GameRoom F → GameRoom F
  clear_slot u r = elim (find_slot u r.slots) [
    | none ↦ r
    | some i ↦ record r { slots = set r.slots i none }
  ]

  -- The second search of `LeaveUser`, which looks for the user in the slots that the first has cleared.
  abbrev pub clear_ready : ℕ → GameRoom F → GameRoom F
  clear_ready u r = elim (find_slot u r.slots) [
    | none ↦ r
    | some i ↦ record r { is_ready = set r.is_ready i false }
  ]

  -- `LeaveUser` up to `CheckAllReady`
  unfoldable pub vacate_slot : GameRoom F → Users → ℕ → GameRoom F
  vacate_slot r us u =
      let r' = clear_slot u (record r { user_list = remove_named us (us u).user_id r.user_list }) in
      clear_ready u (record r' { current_user_count = (r'.current_user_count + u16 - 1) % u16 })

  -- the last part of `LeaveUser`
  unfoldable pub hand_host : GameRoom F → ℕ → GameRoom F × List GameSend
  hand_host r u =
      if eq_ℤ (pos u) r.host_uuid
      then (let r' = record r {
        host_uuid = if leb r.current_user_count 0 then minus_one else first_user r.slots;
      } in
          (r', if eq_ℤ r'.host_uuid minus_one then [] else broadcast r' (host_ntf r'.host_uuid)))
      else (r, [])

  -- `LeaveUser`
  unfoldable pub leave_user : GameRoom F → Users → ℕ → GameRoom F × List GameSend
  leave_user r us u =
      let (r1, cancelled) = check_all_ready fl (vacate_slot r us u) in
      let told =
        send_to_users r1.user_list (leave_user_ntf u (copy_user_id (us u).user_id)) (pos u) false in
      let (r2, hosted) = hand_host r1 u in (r2, cancelled ++ told ++ hosted)

  unfoldable pub notify_chat : GameRoom F → ℕ → List ℕ → List ℕ → List GameSend
  notify_chat r u user_id msg =
      send_to_users r.user_list (chat_ntf (copy_user_id user_id) msg) (pos u) false

  unfoldable pub notify_user_enter : GameRoom F → ℕ → List ℕ → ℤ → List GameSend
  notify_user_enter r u user_id char =
      send_to_users r.user_list (new_user_ntf u (copy_user_id user_id) char) (pos u) true

  -- the packet that shows user `u` to others
  abbrev pub info_of : Users → ℕ → GamePacket
  info_of us u = user_info_ntf u (copy_user_id (us u).user_id) (us u).pose (us u).character_id

  abbrev others : ℕ → List ℕ → List ℕ
  others u [] = []
  others u (v ∷ list) = if v == u then others u list else v ∷ others u list

  -- `SyncRoomStateToUser`: first the others to the user, then the user to the others
  unfoldable pub sync_room_state_to_user : GameRoom F → Users → ℕ → List GameSend
  sync_room_state_to_user r us u =
      map (λ v. (u, info_of us v)) (others u r.user_list)
      ++ map (λ v. (v, info_of us u)) (others u r.user_list)

  -- the loop of `SyncRoomUsers` over the slots
  abbrev sync_slots : Users → ℕ → Slots → List GameSend
  sync_slots us u [] = []
  sync_slots us u (none ∷ s) = sync_slots us u s
  sync_slots us u (some v ∷ s) =
      let rest = sync_slots us u s in
      if v == u then rest else (u, info_of us v) ∷ (v, info_of us u) ∷ rest

  -- `SyncRoomUsers`
  unfoldable pub sync_room_users : GameRoom F → Users → ℕ → List GameSend
  sync_room_users r us u = sync_slots us u r.slots
