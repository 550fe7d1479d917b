-- ===== src/Redis/Tests.antt =====
-- A database that is a function from keys to texts, and what the theorems on tokens say of it.
use project_run_server.Base.{
  ℕ, suc, ◌+◌, ◌-◌, ◌≡◌, ◌≢◌, ◌<◌, refl, inl, inr, true, false, List, [], ◌∷◌, ◌++◌, Option, none,
  some, ℤ, pos, negsuc, replicate, set, arith, Bool-cases, if◌then◌else◌,
}
use project_run_server.Users.{UserManager, eq_id}
use project_run_server.LobbyRooms.{init}
use project_run_server.Lobby.{Lobby}
use project_run_server.Lobby.Match.{token, hand_over}
use project_run_server.GameServer.{Game, verify_token as check_token}
use project_run_server.GameServer.Access.{process_game_server_auth}
use project_run_server.GameRoom.Examples.{ticks, single, single-IsSeated, players}
use project_run_server.Redis.{
  Text, RedisConn, IsRedis, request_set_auth_token, request_verify_token, response_verify_token,
  RedisManager, Chance, push_response,
}
use project_run_server.Redis.Shop.{inventory_size, new_user_items}
use project_run_server.Redis.Tasks.{process_task}
use project_run_server.Redis.Tokens.{eq_id-eq, eq_id_self}
use project_run_server.Redis.Handover.{process_tasks, verify_token-once}
use project_run_server.Redis.Entrance.{hand_over-joins}
use project_run_server.GameServer.{find_room, user_of}
use project_run_server.Users.{is_room, login}
use project_run_server.Slots.{contains, occupied}
use project_run_server.GameRoom.{GameRoom}
use project_run_server.GameServer.Examples.{wholes, no_bits, no_number, noon}
use project_run_server.GameServer.Relays.{World, WorldEffect}
use project_run_server.GameServer.Dispatch.{process_recv_packet}
use project_run_server.GameServer.Loop.{response_packet}
use project_run_server.Redis.{RedisResponse}
use project_run_server.Redis.Admission.{NoZero, tasks_of}
use project_run_server.Redis.Items.{new_user_items_lem}

abbrev Texts : Type 0
Texts = Text → Option Text

abbrev write_number : ℤ → Text
write_number (pos n) = suc n ∷ []
write_number (negsuc n) = 45 ∷ suc n ∷ []

abbrev read_number : Text → ℤ
read_number [] = pos 0
read_number (x ∷ []) = pos (x - 1)
read_number (x ∷ y ∷ s) = negsuc (y - 1)

abbrev texts : RedisConn Texts
texts = record {
  get = λ k d. d k;
  set_ex = λ k v d j. if eq_id j k then some v else d j;
  del = λ k d j. if eq_id j k then none else d j;
  hget = λ k f d. none;
  hset = λ k f v d. d;
  hgetall = λ k d. [];
  to_string = write_number;
  stoi = read_number;
}

eq_id-false : (s t : Text) → s ≢ t → eq_id s t ≡ false
eq_id-false s t h = elim (Bool-cases (eq_id s t)) [
  | inl e ↦ absurd (h (eq_id-eq s t e))
  | inr e ↦ e
]

number_read : (n : ℤ) → read_number (write_number n) ≡ n
number_read (pos n) = ground arith
number_read (negsuc n) = ground arith

texts-IsRedis : IsRedis texts
texts-IsRedis = record {
  get-set_self = λ k v d. rw (eq_id_self k);
  get-set_ne = λ k j v d h. rw (eq_id-false k j h);
  get-del_self = λ k d. rw (eq_id_self k);
  get-del_ne = λ k j d h. rw (eq_id-false k j h);
  get-hset = λ k j f v d. refl;
  stoi-to_string = number_read;
}

abbrev manager : RedisManager Texts
manager = record {
  database = λ k. none;
  request_task = [];
  response_task = [];
  published = [];
  is_server_running = true;
  is_buying = false;
}

abbrev chance : Chance
chance = record { gen1 = 7; gen2 = 3; dis1 = 2; dis2 = 2; now = 100; next_midnight = 200 }

abbrev digit : ℕ → List ℕ
digit n = (n + 48) ∷ []

abbrev digit-NoZero : (n : ℕ) → NoZero (digit n)
digit-NoZero n = (omega arith, tt)

verify_token-once_example :
    let r' =
      process_tasks texts
        ((chance, request_verify_token (pos 4) (pos 4) (84 ∷ []))
          ∷ (chance, request_set_auth_token (pos 7) (pos 7) (85 ∷ []))
          ∷ [])
        manager in
    process_task texts chance (request_verify_token (pos 7) (pos 7) (84 ∷ [])) r'
    ≡ push_response (response_verify_token (pos 7) (pos 7) false) r'
unfolding eq_id
verify_token-once_example =
    verify_token-once texts texts-IsRedis (84 ∷ []) (pos 4) (pos 4) (pos 7) (pos 7) chance chance
      ((chance, request_set_auth_token (pos 7) (pos 7) (85 ∷ [])) ∷ []) manager (refl, tt)

new_user_items_lem_example :
    new_user_items chance ≡ set (replicate inventory_size (pos 0)) 4 (pos 104)
new_user_items_lem_example = new_user_items_lem chance (omega arith) (omega arith)

abbrev pool : UserManager
pool = record {
  max_user_cnt = 10;
  current_user_cnt = 0;
  user_obj_pool = players;
  user_id_dictionary = [];
}

abbrev lobby : Lobby
lobby = record { rooms = init 0 2 2; users = pool; next_game_port = 11021; draws = 0 }

-- the users of the game server, who are not in a room yet and belong into room 3
abbrev waiting : UserManager
waiting = record pool { user_obj_pool = λ i. record (players i) { domain_state = login } }

abbrev game_server : Game ℤ
game_server = record {
  rooms = record { room_list = single ∷ []; begin_room_number = 3; end_room_number = 4 };
  users = waiting;
}

room_three : find_room game_server.rooms (pos 3) ≡ some (0, single)
unfolding find_room
room_three = refl

one_left : occupied single.slots < single.max_user_count
unfolding occupied
one_left = omega arith

abbrev game_world : World ℤ
game_world = record { game = game_server; gimmicks = λ k. []; npcs = λ k. [] }

hand_over-joins_example :
    let t = token digit (λ i. 1000 + i) 7 (0 + 1) in
    let r' =
      process_tasks texts
        (tasks_of chance (hand_over digit (λ i. 1000 + i) 11021 0 (4 ∷ 7 ∷ []) lobby).1)
        manager in
    ((process_game_server_auth ticks game_server 9 t (65 ∷ []) (pos 1)).1 ≡ check_token 9 t ∷ [])
    × (answer : RedisResponse) × ((process_task texts chance
          (request_verify_token (pos 9) (pos 9) t)
          r').response_task
        ≡ r'.response_task ++ answer ∷ [])
    × (o : World ℤ × List (WorldEffect ℤ)) × (process_recv_packet ticks wholes no_bits
          (λ x. pos x)
          no_number
          noon
          game_world
          9
          (response_packet answer).1
        ≡ some o)
    × (is_room (user_of o.0.game 9).domain_state ≡ true)
    × (r' : GameRoom ℤ) × (find_room o.0.game.rooms (pos 3) ≡ some (0, r'))
    × (contains 9 r'.slots ≡ true)
    × (occupied r'.slots ≡ suc (occupied single.slots))
hand_over-joins_example =
    hand_over-joins ticks wholes no_bits (λ x. pos x) no_number texts texts-IsRedis digit
      (λ i. 1000 + i) digit-NoZero chance chance 11021 0 (4 ∷ 7 ∷ []) lobby 1 7 manager noon
      game_server game_world 9 (65 ∷ []) (pos 1) 0 single refl refl room_three single-IsSeated
      one_left
