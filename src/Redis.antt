-- ===== src/Redis.antt =====
-- Server/Common/Database/RedisManager.h: the tasks that a server pushes, what `ProcessTask` does with
-- them, and its answers. One thread takes the tasks (`Run` is called with a thread count of 1).
-- The database is a service: its commands and their laws are a parameter, and so are the texts of
-- numbers (`std::to_string`, `std::stoi`).
pub mod Tasks
pub mod Shop
pub mod Tokens
pub mod Handover
pub mod Admission
mod Entrance
pub mod Items
mod Tests
use project_run_server.Base.{
  ℕ, zero, suc, ◌+◌, ◌≡◌, ◌≢◌, Bool, List, [], ◌∷◌, ◌++◌, Option, none, some, ℤ, pos,
}

abbrev pub Text : Type 0
Text = List ℕ

-- The commands that the manager uses, on databases of a type.
pub record RedisConn (D : Type 0) : Type 0 where
  pub get : Text → D → Option Text
  pub set_ex : Text → Text → D → D
  pub del : Text → D → D
  pub hget : Text → Text → D → Option Text
  pub hset : Text → Text → Text → D → D
  pub hgetall : Text → D → List (Text × Text)
  pub to_string : ℤ → Text
  pub stoi : Text → ℤ

-- What the manager relies on: GET sees what SET and DEL of the same key did, HSET changes no text that
-- GET reads, and `stoi` reads what `to_string` writes. A key that SET gave 60 seconds is read within
-- them.
pub record IsRedis {D : Type 0} (c : RedisConn D) : Type 0 where
  pub get-set_self : (k v : Text) (d : D) → c.get k (c.set_ex k v d) ≡ some v
  pub get-set_ne : (k j v : Text) (d : D) → k ≢ j → c.get k (c.set_ex j v d) ≡ c.get k d
  pub get-del_self : (k : Text) (d : D) → c.get k (c.del k d) ≡ none
  pub get-del_ne : (k j : Text) (d : D) → k ≢ j → c.get k (c.del j d) ≡ c.get k d
  pub get-hset : (k j f v : Text) (d : D) → c.get k (c.hset j f v d) ≡ c.get k d
  pub stoi-to_string : (n : ℤ) → c.stoi (c.to_string n) ≡ n

-- A task of `RedisTaskID`, with the `UserIndex` of the task first and then the fields of its request.
pub data RedisTask : Type 0 where
  request_login : ℤ → Text → Text → RedisTask
  request_set_auth_token : ℤ → ℤ → Text → RedisTask
  request_verify_token : ℤ → ℤ → Text → RedisTask
  request_room_delete : ℤ → ℤ → RedisTask
  request_notice : ℤ → Text → RedisTask
  request_load_inventory : ℤ → ℤ → Text → RedisTask
  request_shop_update : ℤ → Option ℤ → RedisTask
  request_shop_buy : ℤ → Text → ℤ → RedisTask
  other_task : ℕ → RedisTask

pub data RedisResponse : Type 0 where
  response_login : ℤ → ℕ → Text → RedisResponse
  response_verify_token : ℤ → ℤ → Bool → RedisResponse
  response_load_inventory : ℤ → ℤ → List ℤ → RedisResponse
  response_shop_update : ℤ → ℕ → RedisResponse
  response_shop_buy : ℤ → Bool → RedisResponse
  response_notice : Text → Text → RedisResponse

-- the manager, with `g_IsServerRunning`, the messages published, and the flag of its thread
pub record RedisManager (D : Type 0) : Type 0 where
  pub database : D
  pub request_task : List RedisTask
  pub response_task : List RedisResponse
  pub published : List Text
  pub is_server_running : Bool
  pub is_buying : Bool

-- What one task draws and reads from the clock: two numbers of `gen()`, one from 0 to 4 and one from 0
-- to 3, `std::time` and the next midnight.
pub record Chance : Type 0 where
  pub gen1 : ℕ
  pub gen2 : ℕ
  pub dis1 : ℕ
  pub dis2 : ℕ
  pub now : ℕ
  pub next_midnight : ℕ

module _ {D : Type 0} where
  unfoldable pub push_task : RedisTask → RedisManager D → RedisManager D
  push_task t r = record r { request_task = r.request_task ++ t ∷ [] }

  unfoldable pub push_response : RedisResponse → RedisManager D → RedisManager D
  push_response t r = record r { response_task = r.response_task ++ t ∷ [] }

  unfoldable pub take_response_task : RedisManager D → Option RedisResponse × RedisManager D
  take_response_task r = elim r.response_task [
    | [] ↦ (none, r)
    | t ∷ ts ↦ (some t, record r { response_task = ts })
  ]

  unfoldable pub take_request_task : RedisManager D → Option RedisTask × RedisManager D
  take_request_task r = elim r.request_task [
    | [] ↦ (none, r)
    | t ∷ ts ↦ (some t, record r { request_task = ts })
  ]

  abbrev pub publish : Text → RedisManager D → RedisManager D
  publish m r = record r { published = r.published ++ m ∷ [] }

  abbrev pub set_database : D → RedisManager D → RedisManager D
  set_database d r = record r { database = d }
