-- ===== src/Redis/Tasks.antt =====
-- `ProcessTask`, `TaskProcessThread` and `SubscribeThread` of RedisManager.h.
use project_run_server.Base.{
  ℕ, ◌==◌, Bool, true, false, ◌&&◌, [], ◌∷◌, ◌++◌, Option, none, some, ℤ, take, drop, if◌then◌else◌,
}
use project_run_server.Packets.{copy_user_id, c_string}
use project_run_server.Users.{eq_id}
use project_run_server.Redis.{
  Text, RedisConn, RedisTask, request_login, request_set_auth_token, request_verify_token,
  request_room_delete, request_notice, request_load_inventory, request_shop_update,
  request_shop_buy, other_task, response_login, response_verify_token, response_notice,
  RedisManager, Chance, push_response, publish, set_database,
}
use project_run_server.Redis.Shop.{load_inventory, process_shop_update, process_shop_buy}

abbrev pub login_user_invalid_pw : ℕ
login_user_invalid_pw = 10001

abbrev pub login_user_not_found : ℕ
login_user_not_found = 10002

-- "AuthToken:" + token
abbrev pub token_key : Text → Text
token_key t = 65 ∷ 117 ∷ 116 ∷ 104 ∷ 84 ∷ 111 ∷ 107 ∷ 101 ∷ 110 ∷ 58 ∷ t

-- "DEL_ROOM:"
abbrev pub del_room : Text
del_room = 68 ∷ 69 ∷ 76 ∷ 95 ∷ 82 ∷ 79 ∷ 79 ∷ 77 ∷ 58 ∷ []

-- whether the second text starts with the first one
unfoldable pub starts_with : Text → Text → Bool
starts_with [] s = true
starts_with (x ∷ p) [] = false
starts_with (x ∷ p) (y ∷ s) = (x == y) && starts_with p s

module _ {D : Type 0} (c : RedisConn D) where
  -- REQUEST_LOGIN
  unfoldable pub login : ℤ → Text → Text → RedisManager D → RedisManager D
  login u id pw r = elim (c.get id r.database) [
    | none ↦ push_response (response_login u login_user_not_found []) r
    | some value ↦
        if eq_id value pw
        then push_response (response_login u 0 (copy_user_id id)) r
        else push_response (response_login u login_user_invalid_pw []) r
  ]

  -- REQUEST_VERIFY_TOKEN: a token that is there is deleted
  unfoldable pub verify_token : ℤ → Text → RedisManager D → RedisManager D
  verify_token u t r = elim (c.get (token_key t) r.database) [
    | none ↦ push_response (response_verify_token u u false) r
    | some value ↦
        push_response (response_verify_token u u true)
          (set_database (c.del (token_key t) r.database) r)
  ]

  -- `ProcessTask`
  unfoldable pub process_task : Chance → RedisTask → RedisManager D → RedisManager D
  process_task ch (request_login u id pw) r = login u id pw r
  process_task ch (request_set_auth_token u ru t) r =
      set_database (c.set_ex (token_key t) (c.to_string ru) r.database) r
  process_task ch (request_verify_token u ru t) r = verify_token ru t r
  process_task ch (request_room_delete u n) r = record (publish (del_room ++ c.to_string n) r) {
    is_server_running = false;
  }
  process_task ch (request_notice u m) r = publish m r
  process_task ch (request_load_inventory u ru id) r = load_inventory c ch u ru id r
  process_task ch (request_shop_update u command) r = process_shop_update c ch command r
  process_task ch (request_shop_buy u id item) r = process_shop_buy c u id item r
  process_task ch (other_task n) r = r

  -- one round of `TaskProcessThread`
  unfoldable pub task_round : Chance → RedisManager D → RedisManager D
  task_round ch r = elim r.request_task [
    | [] ↦ r
    | t ∷ ts ↦ process_task ch t (record r { request_task = ts })
  ]

  -- What `SubscribeThread` does with a message: the room of `OnRoomDeleteCallback`, and the manager
  -- after it. The name is "[GM]".
  unfoldable pub on_message : Text → RedisManager D → Option ℤ × RedisManager D
  on_message [] r = (none, r)
  on_message (x ∷ m) r =
      if starts_with del_room (x ∷ m) then (some (c.stoi (drop 9 (x ∷ m))), r) else (
        none,
        push_response (response_notice (91 ∷ 71 ∷ 77 ∷ 93 ∷ []) (take 255 (c_string (x ∷ m)))) r,
      )
