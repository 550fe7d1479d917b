-- ===== src/Users.antt =====
-- Server/Common/UserModels: the parts of Actor.h, User.h and UserManager.h that carry a client's
-- session. A `User*` is its index in the pool, which is also its connection index (`Init(i)`). The
-- network layer hands out exactly the indices below the pool's size, so the pool is a function.
pub mod Buffers
use project_run_server.Base.{
  ℕ, ◌+◌, ◌-◌, ◌==◌, Bool, true, false, ◌&&◌, List, [], ◌∷◌, Option, none, some, ℤ, pos, minus_one,
  if◌then◌else◌, ltb,
}
use project_run_server.Packets.{ErrorCode, no_error}
use project_run_server.PacketBuffer.{PacketBuffer}
use project_run_server.PacketBuffer

-- `Actor::DOMAIN_STATE`
pub data DomainState : Type 0 where
  no_state login room game : DomainState

-- `GetPosition` and `GetRotation`, seven floats that the rooms pass on bit by bit
abbrev pub Pose : Type 0
Pose = List ℕ

pub record User : Type 0 where
  pub domain_state : DomainState
  pub room_index : ℤ
  pub user_id : List ℕ
  pub ping : ℤ
  pub character_id : ℤ
  pub inventory : List ℤ
  pub pose : Pose
  pub buffer : PacketBuffer

abbrev pub Users : Type 0
Users = ℕ → User

-- a call of a method of the user at an index
abbrev pub at_user : ℕ → (User → User) → Users → Users
at_user i f us j = if j == i then f (us j) else us j

-- `Actor::SetLogin`
abbrev pub set_login : List ℕ → User → User
set_login id u = record u { domain_state = login; user_id = id }

-- `Actor::EnterRoom`
abbrev pub enter_room : ℕ → User → User
enter_room num u = record u { room_index = pos num; domain_state = room }

abbrev pub set_domain_state : DomainState → User → User
set_domain_state s u = record u { domain_state = s }

abbrev pub set_ping : ℤ → User → User
set_ping p u = record u { ping = p }

-- `User::SetCharacterID`
abbrev pub set_character_id : ℤ → User → User
set_character_id c u = record u { character_id = c }

-- `Actor::SetTarget`, as far as `GetPosition` and `GetRotation` show it
abbrev pub set_pose : Pose → User → User
set_pose p u = record u { pose = p }

-- `User::Clear`, with `Actor::Clear`, which it calls
abbrev pub clear : User → User
clear u = record u {
  room_index = minus_one;
  user_id = [];
  domain_state = no_state;
  buffer = PacketBuffer.clear u.buffer;
}

abbrev pub is_login : DomainState → Bool
is_login login = true
is_login _ = false

abbrev pub is_room : DomainState → Bool
is_room room = true
is_room _ = false

abbrev pub is_game : DomainState → Bool
is_game game = true
is_game _ = false

pub record UserManager : Type 0 where
  pub max_user_cnt : ℕ
  pub current_user_cnt : ℕ
  pub user_obj_pool : Users
  pub user_id_dictionary : List (List ℕ × ℕ)

-- two user names, byte for byte
unfoldable pub eq_id : List ℕ → List ℕ → Bool
eq_id [] [] = true
eq_id [] (y ∷ ys) = false
eq_id (x ∷ xs) [] = false
eq_id (x ∷ xs) (y ∷ ys) = (x == y) && eq_id xs ys

-- `std::unordered_map::find` of a name
unfoldable pub lookup : List ℕ → List (List ℕ × ℕ) → Option ℕ
lookup id [] = none
lookup id ((k, i) ∷ d) = let rest = lookup id d in if eq_id id k then some i else rest

-- `std::unordered_map::erase` of a name
unfoldable pub erase : List ℕ → List (List ℕ × ℕ) → List (List ℕ × ℕ)
erase id [] = []
erase id ((k, i) ∷ d) = let rest = erase id d in if eq_id id k then rest else (k, i) ∷ rest

-- `std::unordered_map::insert`: an entry that is there stays
unfoldable pub insert : List ℕ → ℕ → List (List ℕ × ℕ) → List (List ℕ × ℕ)
insert id i d = elim (lookup id d) [ none ↦ (id, i) ∷ d | some j ↦ d ]

abbrev pub increase_user_cnt : UserManager → UserManager
increase_user_cnt m = record m { current_user_cnt = m.current_user_cnt + 1 }

abbrev pub decrease_user_cnt : UserManager → UserManager
decrease_user_cnt m =
    if ltb 0 m.current_user_cnt then (record m { current_user_cnt = m.current_user_cnt - 1 }) else m

-- a call of a method of the user that `GetUserByConnIdx` returns
abbrev pub at_conn_idx : ℕ → (User → User) → UserManager → UserManager
at_conn_idx i f m = record m { user_obj_pool = at_user i f m.user_obj_pool }

-- `AddUser`
pub add_user : List ℕ → ℕ → UserManager → ErrorCode × UserManager
add_user id i m =
    let m' = at_conn_idx i (set_login id) m in
    (no_error, record m' { user_id_dictionary = insert id i m.user_id_dictionary })

-- `FindUserIndexByID`
pub find_user_index_by_id : List ℕ → UserManager → ℤ
find_user_index_by_id id m = elim (lookup id m.user_id_dictionary) [
  | none ↦ minus_one
  | some i ↦ pos i
]

-- `DeleteUserInfo`
abbrev pub delete_user_info : ℕ → UserManager → UserManager
delete_user_info i m =
    let m' = at_conn_idx i clear m in
    record m' { user_id_dictionary = erase (m.user_obj_pool i).user_id m.user_id_dictionary }
