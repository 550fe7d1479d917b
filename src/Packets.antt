-- ===== src/Packets.antt =====
-- Server/Common/Packet/ErrorCode.h and the packets of Server/Common/Packet/Packet.h that the servers
-- send, each with the fields that the senders fill in. A field that the code leaves uninitialised is
-- absent here.
pub mod Ids
pub mod Layout
pub mod Reading
pub mod LobbyStructs
pub mod GameStructs
pub mod TradeStructs
pub mod Wire
mod Tests
use project_run_server.Base.{ℕ, zero, suc, Bool, List, [], ◌∷◌, Option, ℤ, take}

pub data ErrorCode : Type 0 where
  no_error : ErrorCode
  user_mgr_invalid_user_index user_mgr_invalid_user_uniqueid : ErrorCode
  login_user_already login_user_used_all_obj login_user_invalid_pw login_user_not_found : ErrorCode
  new_room_used_all_obj new_room_fail_enter : ErrorCode
  enter_room_not_finde_user enter_room_invalid_user_status : ErrorCode
  enter_room_not_used_status enter_room_full_user : ErrorCode
  room_invalid_index room_not_used room_too_many_packet : ErrorCode
  leave_room_invalid_room_index chat_room_invalid_room_number : ErrorCode

abbrev pub code : ErrorCode → ℕ
code no_error = 0
code user_mgr_invalid_user_index = 11
code user_mgr_invalid_user_uniqueid = 12
code login_user_already = 31
code login_user_used_all_obj = 32
code login_user_invalid_pw = 33
code login_user_not_found = 34
code new_room_used_all_obj = 41
code new_room_fail_enter = 42
code enter_room_not_finde_user = 51
code enter_room_invalid_user_status = 52
code enter_room_not_used_status = 53
code enter_room_full_user = 54
code room_invalid_index = 61
code room_not_used = 62
code room_too_many_packet = 63
code leave_room_invalid_room_index = 71
code chat_room_invalid_room_number = 81

-- `RoomInfo`, an entry of ROOM_LIST_RES_PACKET
pub record RoomInfo : Type 0 where
  pub room_num : ℕ
  pub cur_user : ℕ
  pub max_user : ℕ
  pub is_playing : Bool
  pub title : List ℕ
  pub host_ping : ℤ
  pub guest_ready_state : ℕ
  pub host_char_id : ℤ
  pub guest_char_id : ℤ

pub data ServerPacket : Type 0 where
  login_response : ℕ → Option ℕ → ServerPacket
  room_list_res : List RoomInfo → ServerPacket
  room_enter_response : ℕ → ServerPacket
  room_leave_response : ℕ → ServerPacket
  room_user_info_ntf : ℕ → List ℕ → ℤ → ServerPacket
  room_host_ntf : ℤ → ServerPacket
  room_leave_user_ntf : ℕ → List ℕ → ServerPacket
  room_ready_status_ntf : ℕ → Bool → ServerPacket
  room_char_select_ntf : ℕ → ℤ → ServerPacket
  room_chat_notify : List ℕ → List ℕ → ServerPacket
  match_start_ntf : ℕ → ℕ → List ℕ → ServerPacket
  time_sync_res : ℤ → ℤ → ServerPacket
  game_auth_response : ℕ → ServerPacket

-- A call of `SendPacketFunc`: the client index and the packet.
abbrev pub Send : Type 0
Send = ℕ × ServerPacket

-- a char array read as a text: the bytes before the terminator
unfoldable pub c_string : List ℕ → List ℕ
c_string [] = []
c_string (zero ∷ s) = []
c_string (suc c ∷ s) = suc c ∷ c_string s

-- `CopyUserID`, by strncpy_s with _TRUNCATE into 33 bytes
unfoldable pub copy_user_id : List ℕ → List ℕ
unfolding c_string
copy_user_id s = take 32 (c_string s)
