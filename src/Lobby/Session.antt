-- ===== src/Lobby/Session.antt =====
-- A client's session: `ProcessLogin` and `ProcessLoginDBResult` of LobbyManager.h, and
-- `ProcessUserConnect`, `ClearConnectionInfo` and `ProcessTimeSync` of Lobby_PacketManager.cpp.
use project_run_server.Base.{ℕ, List, [], ◌∷◌, none, some, ℤ, leb, if◌then◌else◌}
use project_run_server.Packets.{
  code, no_error, login_user_used_all_obj, login_response, time_sync_res, c_string,
}
use project_run_server.Users.{is_room, at_conn_idx, set_login, set_ping, clear, delete_user_info}
use project_run_server.LobbyRooms
use project_run_server.Lobby.{Lobby, send, Result, sent, user_of, set_rooms, set_users}

-- `ProcessLogin`; the refusal leaves its `userUUID` unset, and `SetLogin` takes the bytes from `userID` on
-- up to the first zero byte
unfoldable pub process_login : Lobby → ℕ → List ℕ → Result
process_login l u id =
    if leb l.users.max_user_cnt l.users.current_user_cnt
    then (l, send u (login_response (code login_user_used_all_obj) none) ∷ [])
    else (
      record l { users = at_conn_idx u (set_login (c_string id)) l.users },
      send u (login_response (code no_error) (some u)) ∷ [],
    )

-- `ProcessLoginDBResult`
unfoldable pub process_login_db_result : Lobby → ℕ → ℕ → Result
process_login_db_result l u result = (l, send u (login_response result none) ∷ [])

-- `ProcessUserConnect`
unfoldable pub process_user_connect : Lobby → ℕ → Result
process_user_connect l u = (record l { users = at_conn_idx u clear l.users }, [])

-- the branch of `ClearConnectionInfo` for a user in a room
unfoldable pub leave_on_disconnect : Lobby → ℕ → Result
leave_on_disconnect l u =
    let (code, m, us, sends) =
      LobbyRooms.leave_user l.rooms l.users.user_obj_pool (user_of l u).room_index u in
    (set_rooms m (set_users us l), sent sends)

-- `ProcessUserDisConnect`, which calls `ClearConnectionInfo`
unfoldable pub process_user_disconnect : Lobby → ℕ → Result
process_user_disconnect l u =
    let (l', effects) =
      if is_room (user_of l u).domain_state then leave_on_disconnect l u else (l, []) in
    (record l' { users = delete_user_info u l'.users }, effects)

-- `ProcessTimeSync` at the time `now`
unfoldable pub process_time_sync : Lobby → ℕ → ℤ → ℤ → ℤ → Result
process_time_sync l u stamp ping now = (
  record l { users = at_conn_idx u (set_ping ping) l.users },
  send u (time_sync_res stamp now) ∷ [],
)
