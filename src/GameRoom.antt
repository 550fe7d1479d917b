-- ===== src/GameRoom.antt =====
-- Server/GameServer/Room.h: a room of the game server, from the first player who enters to the end of a
-- dungeon run. `mCountdownTimer` is a float; its operations are an argument (FloatOps). The periodic
-- sending of positions, gimmicks and non-player characters is in Tick. Not here: the sets of visible
-- users, which stay empty.
pub mod Doors
pub mod Ready
pub mod Finish
pub mod Seats
pub mod Moves
pub mod Countdown
pub mod Tick
pub mod Members
mod Listed
mod Visits
pub mod Synced
mod Platforms
pub mod Escape
pub mod Examples
mod VisitTests
pub mod TickTests
mod Tests
use project_run_server.Base.{
  ℕ, zero, suc, ◌+◌, ◌-◌, ◌/◌, ◌%◌, Bool, true, false, ◌&&◌, ◌||◌, not, ltb, leb, ◌==◌, List, [],
  ◌∷◌, ◌++◌, map, Option, none, some, ℤ, pos, negsuc, minus_one, eq_ℤ, add_ℤ, sub_ℕ, ltb_ℤ, set,
  get_or, replicate, length, if◌then◌else◌,
}
use project_run_server.Packets.{ErrorCode, no_error, enter_room_full_user, copy_user_id}
use project_run_server.Packets.Reading.{add_int32}
use project_run_server.Users.{User, Users, Pose, at_user, enter_room, set_domain_state, room, eq_id}
use project_run_server.Slots.{Slots, find_free, find_slot, first_user}

-- what the code does with floats: `a - b`, `a < b`, `a <= b`, `(int)ceil(a)` and three literals
pub record FloatOps (F : Type 0) : Type 0 where
  pub sub : F → F → F
  pub less : F → F → Bool
  pub at_most : F → F → Bool
  pub ceil : F → ℤ
  pub zero_f : F
  pub five : F
  pub minus_one_f : F

-- the counts of DUNGEON_ESCAPE_REQ_PACKET and DUNGEON_CLEAR_NTF_PACKET, and `mAccumP1Push` and so on
pub record Totals : Type 0 where
  pub p1_push : ℤ
  pub p1_pull : ℤ
  pub p1_fall : ℤ
  pub p1_destroy : ℤ
  pub p1_fall_kill : ℤ
  pub p2_push : ℤ
  pub p2_pull : ℤ
  pub p2_fall : ℤ
  pub p2_destroy : ℤ
  pub p2_fall_kill : ℤ

abbrev pub no_totals : Totals
no_totals = record {
  p1_push = pos 0;
  p1_pull = pos 0;
  p1_fall = pos 0;
  p1_destroy = pos 0;
  p1_fall_kill = pos 0;
  p2_push = pos 0;
  p2_pull = pos 0;
  p2_fall = pos 0;
  p2_destroy = pos 0;
  p2_fall_kill = pos 0;
}

-- the ten additions of `ProcessEscapeRequest`
unfoldable pub add_totals : Totals → Totals → Totals
add_totals a b = record {
  p1_push = add_int32 a.p1_push b.p1_push;
  p1_pull = add_int32 a.p1_pull b.p1_pull;
  p1_fall = add_int32 a.p1_fall b.p1_fall;
  p1_destroy = add_int32 a.p1_destroy b.p1_destroy;
  p1_fall_kill = add_int32 a.p1_fall_kill b.p1_fall_kill;
  p2_push = add_int32 a.p2_push b.p2_push;
  p2_pull = add_int32 a.p2_pull b.p2_pull;
  p2_fall = add_int32 a.p2_fall b.p2_fall;
  p2_destroy = add_int32 a.p2_destroy b.p2_destroy;
  p2_fall_kill = add_int32 a.p2_fall_kill b.p2_fall_kill;
}

-- the ten numbers, in the order of DUNGEON_ESCAPE_REQ_PACKET
abbrev pub listed : Totals → List ℤ
listed t =
    t.p1_push ∷ t.p1_pull ∷ t.p1_fall ∷ t.p1_destroy ∷ t.p1_fall_kill ∷ t.p2_push ∷ t.p2_pull
    ∷ t.p2_fall ∷ t.p2_destroy ∷ t.p2_fall_kill ∷ []

-- the packets of Server/Common/Packet/Packet.h that the room sends
pub data GamePacket : Type 0 where
  user_info_ntf : ℕ → List ℕ → Pose → ℤ → GamePacket
  host_ntf : ℤ → GamePacket
  leave_user_ntf : ℕ → List ℕ → GamePacket
  chat_ntf : List ℕ → List ℕ → GamePacket
  new_user_ntf : ℕ → List ℕ → ℤ → GamePacket
  ready_status_ntf : ℕ → Bool → GamePacket
  countdown_ntf : ℤ → GamePacket
  start_ntf : ℕ → GamePacket
  ready_cancel_ntf : GamePacket
  escape_status_ntf : ℕ → GamePacket
  clear_ntf : ℤ → Totals → GamePacket
  return_village_ntf : GamePacket

abbrev pub GameSend : Type 0
GameSend = ℕ × GamePacket

pub record GameRoom (F : Type 0) : Type 0 where
  pub room_num : ℕ
  pub max_user_count : ℕ
  pub slots : Slots
  pub is_ready : List Bool
  pub is_escaped : List Bool
  pub user_list : List ℕ
  pub current_user_count : ℕ
  pub host_uuid : ℤ
  pub countdown_timer : F
  pub last_announced_second : ℤ
  pub start_time : ℕ
  pub totals : Totals

abbrev pub u16 : ℕ
u16 = 65536

-- the loop of `EnterUser` over the users who are there
abbrev pub introduce_to : Users → ℕ → List ℕ → List GameSend
introduce_to us new [] = []
introduce_to us new (old ∷ list) =
    let rest = introduce_to us new list in
    if old == new
    then rest
    else (
      old,
      user_info_ntf new (copy_user_id (us new).user_id) (us new).pose (us new).character_id,
    )
      ∷ (new, user_info_ntf old (copy_user_id (us old).user_id) (us old).pose (us old).character_id)
      ∷ rest

-- `remove_if` by the name of the user who leaves
abbrev pub remove_named : Users → List ℕ → List ℕ → List ℕ
remove_named us id [] = []
remove_named us id (u ∷ list) =
    let rest = remove_named us id list in if eq_id id (us u).user_id then rest else u ∷ rest

-- `SendToAllUser`
abbrev pub send_to_users : List ℕ → GamePacket → ℤ → Bool → List GameSend
send_to_users [] p pass except_me = []
send_to_users (u ∷ list) p pass except_me =
    let rest = send_to_users list p pass except_me in
    if except_me && eq_ℤ (pos u) pass then rest else (u, p) ∷ rest

-- The loop of `CheckAllReady`: every slot is taken and ready.
unfoldable pub all_slots_ready : Slots → List Bool → Bool
all_slots_ready [] rs = true
all_slots_ready (none ∷ s) rs = false
all_slots_ready (some u ∷ s) [] = false
all_slots_ready (some u ∷ s) (r ∷ rs) = r && all_slots_ready s rs

-- The loop of `ProcessEscapeRequest`: every user with a slot has escaped.
unfoldable pub all_users_escaped : Slots → List Bool → Bool
all_users_escaped [] es = true
all_users_escaped (x ∷ s) [] = true
all_users_escaped (none ∷ s) (e ∷ es) = all_users_escaped s es
all_users_escaped (some u ∷ s) (e ∷ es) = e && all_users_escaped s es

abbrev pub broadcast : {F : Type 0} → GameRoom F → GamePacket → List GameSend
broadcast r p = map (λ u. (u, p)) r.user_list
