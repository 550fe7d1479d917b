-- ===== src/GameServer/Access.antt =====
-- Coming and going: `ProcessGameServerAuth`, `ProcessGameServerAuthDBResult`, `ProcessUserConnect` and
-- `ClearConnectionInfo` of Game_PacketManager.cpp.
use project_run_server.Base.{
  ℕ, ◌%◌, Bool, ◌==◌, List, [], ◌∷◌, ◌++◌, none, some, ℤ, pos, minus_one, eq_ℤ, take, if◌then◌else◌,
}
use project_run_server.Packets.{game_auth_response, c_string}
use project_run_server.Users.{
  User, at_conn_idx, set_login, set_character_id, set_domain_state, room, is_room, clear,
  delete_user_info,
}
use project_run_server.GameRoom.{FloatOps, u16}
use project_run_server.GameServer.{
  Game, GameEffect, reply, verify_token, room_delete, find_room, user_of, enter_room_number,
  leave_room_number,
}

-- the room that a user with a valid token is put into
abbrev pub target_room : User → ℤ
target_room x = if eq_ℤ x.room_index minus_one then pos 0 else x.room_index

module _ {F : Type 0} (fl : FloatOps F) where
  -- `ProcessGameServerAuth`; `StringCbCopyA` cuts the token to 63 bytes
  unfoldable pub process_game_server_auth :
      Game F → ℕ → List ℕ → List ℕ → ℤ → Game F × List GameEffect
  process_game_server_auth g u token name char = (
    record g {
      users = at_conn_idx u (λ x. set_character_id char (set_login (c_string name) x)) g.users;
    },
    verify_token u (take 63 (c_string token)) ∷ [],
  )

  -- the branch of a valid token; what `EnterUser` returns is not looked at
  unfoldable pub admit : Game F → ℕ → Game F × List GameEffect
  admit g u =
      let g1 = record g { users = at_conn_idx u (set_domain_state room) g.users } in
      let (code, g2, effects) = enter_room_number fl g1 (target_room (user_of g1 u)) u in
      (g2, effects ++ reply u (game_auth_response (u % u16)) ∷ [])

  -- `ProcessGameServerAuthDBResult`
  unfoldable pub process_auth_db_result : Game F → ℕ → Bool → Game F × List GameEffect
  process_auth_db_result g u is_valid =
      if is_room (user_of g u).domain_state
      then (g, [])
      else if is_valid
      then admit g u
      else (g, reply u (game_auth_response 9999) ∷ [])

  unfoldable pub process_user_connect : Game F → ℕ → Game F × List GameEffect
  process_user_connect g u = (record g { users = at_conn_idx u clear g.users }, [])

  -- The room `n` is reported for deletion if it is empty now.
  unfoldable pub report_empty : Game F → ℕ → ℤ → List GameEffect
  report_empty g u n = elim (find_room g.rooms n) [
    | none ↦ []
    | some (k, r) ↦ if r.current_user_count == 0 then room_delete u n ∷ [] else []
  ]

  -- `ClearConnectionInfo`
  unfoldable pub clear_connection_info : Game F → ℕ → Game F × List GameEffect
  clear_connection_info g u =
      let n = (user_of g u).room_index in
      let (code, g1, effects) = leave_room_number fl g n u in
      if is_room (user_of g u).domain_state
      then (record g1 { users = delete_user_info u g1.users }, effects ++ report_empty g1 u n)
      else (record g { users = delete_user_info u g.users }, [])
