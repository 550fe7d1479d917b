-- ===== src/LobbyRoom.antt =====
-- Server/LobbyServer/Room.h: a waiting room of the lobby. A method returns the room, the users where
-- it writes to them, and the packets it sends, in order. `mCurrentUserCount` is a UINT16. The loops
-- run over `mMaxUserCount` seats, which is the length of `mSlots` (LobbyRoom/Invariant).
pub mod Invariant
pub mod Kept
pub mod Seating
pub mod Host
pub mod Ready
pub mod Buffers
mod Tests
use project_run_server.Base.{
  ℕ, zero, suc, ◌+◌, ◌-◌, ◌%◌, Bool, true, false, ◌&&◌, ◌||◌, not, ltb, leb, ◌==◌, List, [], ◌∷◌,
  ◌++◌, map, Option, none, some, ℤ, pos, negsuc, minus_one, eq_ℤ, set, get_or, take, replicate,
  length, if◌then◌else◌,
}
use project_run_server.Packets.{
  ErrorCode, no_error, enter_room_full_user, Send, ServerPacket, room_user_info_ntf, room_host_ntf,
  room_leave_user_ntf, room_ready_status_ntf, room_chat_notify, c_string, copy_user_id,
}
use project_run_server.Users.{User, Users, at_user, enter_room, set_domain_state, room}
use project_run_server.Slots.{Slots, find_free, find_slot, users, first_user}

pub record Room : Type 0 where
  pub room_num : ℕ
  pub max_user_count : ℕ
  pub slots : Slots
  pub is_ready : List Bool
  pub char_ids : List ℤ
  pub current_user_count : ℕ
  pub host_uuid : ℤ
  pub is_playing : Bool
  pub title : List ℕ

abbrev pub u16_mod : ℕ
u16_mod = 65536

pub init : ℕ → ℕ → Room
init num max = record {
  room_num = num;
  max_user_count = max;
  slots = replicate max none;
  is_ready = replicate max false;
  char_ids = if ltb 1 max then set (replicate max (pos 0)) 1 (pos 1) else replicate max (pos 0);
  current_user_count = 0;
  host_uuid = minus_one;
  is_playing = false;
  title = [];
}

-- `BroadcastPacket`
pub broadcast_packet : Room → ServerPacket → List Send
broadcast_packet r p = map (λ u. (u, p)) (users r.slots)

-- `SendToAllUser`
pub send_to_all_user : Room → ServerPacket → ℤ → Bool → List Send
send_to_all_user r p pass except_me = go (users r.slots)
  where
    go : List ℕ → List Send
    go [] = []
    go (u ∷ us) = if except_me && eq_ℤ (pos u) pass then go us else (u, p) ∷ go us

pub broadcast_host_info : Room → List Send
broadcast_host_info r = broadcast_packet r (room_host_ntf r.host_uuid)

-- The loop of `EnterUser`: the newcomer hears of each user who is there, and each of the newcomer.
-- Its arguments are the character of the newcomer's seat, the seats and their characters.
pub introduce : Users → ℕ → ℤ → Slots → List ℤ → List Send
introduce us new new_char [] cs = []
introduce us new new_char (x ∷ s) [] = []
introduce us new new_char (none ∷ s) (c ∷ cs) = introduce us new new_char s cs
introduce us new new_char (some old ∷ s) (c ∷ cs) =
    let rest = introduce us new new_char s cs in
    if old == new
    then rest
    else (new, room_user_info_ntf old (copy_user_id (us old).user_id) c)
      ∷ (old, room_user_info_ntf new (copy_user_id (us new).user_id) new_char)
      ∷ rest

-- `EnterUser` once the free seat `i` is found
pub take_seat : Room → Users → ℕ → ℕ → Room × Users × List Send
take_seat r us u i =
    let seats = set r.slots i (some u) in
    let us' = at_user u (λ x. enter_room r.room_num (set_domain_state room x)) us in
    let count = (r.current_user_count + 1) % u16_mod in
    let r' = record r {
      slots = seats;
      current_user_count = count;
      host_uuid = if count == 1 then pos u else r.host_uuid;
    } in
    (
      r',
      us',
      introduce us' u (get_or r.char_ids i (pos 0)) seats r.char_ids ++ broadcast_host_info r',
    )

pub enter_user : Room → Users → ℕ → ErrorCode × Room × Users × List Send
enter_user r us u =
    if leb r.max_user_count r.current_user_count
    then (enter_room_full_user, r, us, [])
    else elim (find_free r.slots) [
      | none ↦ (enter_room_full_user, r, us, [])
      | some i ↦ let (r', us', sends) = take_seat r us u i in (no_error, r', us', sends)
    ]

-- `strncpy_s(mTitle, 32, title, _TRUNCATE)`: the bytes before the terminator, 31 at most
pub set_title : List ℕ → Room → Room
set_title t r = record r { title = take 31 (c_string t) }

-- `LeaveUser` when nobody is left
pub reset_empty : Room → Room
reset_empty r =
    if r.is_playing then (record r { current_user_count = 0; is_playing = false }) else (record r {
      current_user_count = 0;
      is_playing = false;
      title = [];
      host_uuid = minus_one;
    })

-- The last part of `LeaveUser`: a host who left is replaced by the user in the first taken seat.
pub pass_host : Room → ℕ → Room × List Send
pass_host r u =
    if eq_ℤ (pos u) r.host_uuid
    then (let r' = record r { host_uuid = first_user r.slots } in
        (r', if eq_ℤ r'.host_uuid minus_one then [] else broadcast_host_info r'))
    else (r, [])

-- the first part, for the user in seat `i`
pub vacate : Room → ℕ → Room
vacate r i = record r {
  slots = set r.slots i none;
  is_ready = set r.is_ready i false;
  current_user_count = (r.current_user_count + u16_mod - 1) % u16_mod;
}

pub free_seat : Room → Users → ℕ → ℕ → Room × List Send
free_seat r us u i =
    let r' = vacate r i in
    if leb r'.current_user_count 0
    then (reset_empty r', [])
    else (let (r'', sends) = pass_host r' u in
        (r'', broadcast_packet r' (room_leave_user_ntf u (copy_user_id (us u).user_id)) ++ sends))

pub leave_user : Room → Users → ℕ → Room × List Send
leave_user r us u = elim (find_slot u r.slots) [ none ↦ (r, []) | some i ↦ free_seat r us u i ]

-- `GetUserBySlot` and `IsSlotReady`; the callers pass no negative index
unfoldable pub get_user_by_slot : Room → ℕ → Option ℕ
get_user_by_slot r i = if leb r.max_user_count i then none else get_or r.slots i none

pub is_slot_ready : Room → ℕ → Bool
is_slot_ready r i = if leb r.max_user_count i then false else get_or r.is_ready i false

pub get_character_id_by_slot : Room → ℕ → ℤ
get_character_id_by_slot r i = if leb r.max_user_count i then pos 0 else get_or r.char_ids i (pos 0)

pub notify_chat : Room → List ℕ → List ℕ → List Send
notify_chat r user_id msg = broadcast_packet r (room_chat_notify (copy_user_id user_id) msg)

pub process_player_ready : Room → ℕ → Bool → Room × List Send
process_player_ready r u ready = elim (find_slot u r.slots) [
  | none ↦ (r, [])
  | some i ↦
      let r' = record r { is_ready = set r.is_ready i ready } in
      (r', broadcast_packet r' (room_ready_status_ntf u ready))
]

-- The loop of `IsAllReady`: every seat but the host's is free or ready.
unfoldable pub guests_ready : ℤ → Slots → List Bool → Bool
guests_ready host [] rs = true
guests_ready host (x ∷ s) [] = true
guests_ready host (none ∷ s) (r ∷ rs) = guests_ready host s rs
guests_ready host (some u ∷ s) (r ∷ rs) = (eq_ℤ (pos u) host || r) && guests_ready host s rs

unfoldable pub is_all_ready : Room → Bool
is_all_ready r =
    if ltb r.current_user_count r.max_user_count
    then false
    else guests_ready r.host_uuid r.slots r.is_ready

unfoldable pub get_room_user_list : Room → List ℕ
get_room_user_list r = users r.slots

pub set_user_char_id : ℕ → ℤ → Room → Room
set_user_char_id u c r = elim (find_slot u r.slots) [
  | none ↦ r
  | some i ↦ record r { char_ids = set r.char_ids i c }
]

-- The loops of `GetHostCharID` and `GetGuestCharID`: the character of the first user who is the host,
-- or is not, and `d` if there is none.
pub first_char : Bool → ℤ → ℤ → Slots → List ℤ → ℤ
first_char want host d [] cs = d
first_char want host d (x ∷ s) [] = d
first_char want host d (none ∷ s) (c ∷ cs) = first_char want host d s cs
first_char true host d (some u ∷ s) (c ∷ cs) =
    let rest = first_char true host d s cs in if eq_ℤ (pos u) host then c else rest
first_char false host d (some u ∷ s) (c ∷ cs) =
    let rest = first_char false host d s cs in if eq_ℤ (pos u) host then rest else c

pub get_host_char_id : Room → ℤ
get_host_char_id r = first_char true r.host_uuid (pos 0) r.slots r.char_ids

pub get_guest_char_id : Room → ℤ
get_guest_char_id r = first_char false r.host_uuid (pos 1) r.slots r.char_ids

pub set_is_playing : Bool → Room → Room
set_is_playing p r = record r { is_playing = p }
