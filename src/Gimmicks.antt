-- ===== src/Gimmicks.antt =====
-- Server/GameServer/GimmickManager.cpp: what users do to the gimmicks of a map, and what time does.
-- `mGimmicks` is a list of gimmicks with different ids. Floats are a type with the operations that the
-- code uses; `hp` is an integer without bound. A field of a packet that the code does not write is `none`.
pub mod Interact
pub mod Update
pub mod Windows
pub mod MapNames
pub mod Loading
mod Origin
mod LoadTests
mod Tests
use project_run_server.Base.{
  ℕ, suc, ◌==◌, Bool, true, false, ◌&&◌, ◌||◌, not, List, [], ◌∷◌, Option, none, some, ℤ, pos,
  negsuc, sub_ℕ, add_ℤ, eq_ℤ, ltb_ℤ, if◌then◌else◌,
}

pub record GimmickFloats (F : Type 0) : Type 0 where
  pub add : F → F → F
  pub sub : F → F → F
  pub mul : F → F → F
  pub div : F → F → F
  pub sqrt : F → F
  pub less : F → F → Bool
  pub at_most : F → F → Bool
  pub trunc : F → ℤ
  pub ratio : ℕ → ℕ → F

pub record Vector3 (F : Type 0) : Type 0 where
  pub x : F
  pub y : F
  pub z : F

-- `ServerGimmickData`, with `properties` as far as `ResetGimmicks` reads it
pub record Gimmick (F : Type 0) : Type 0 where
  pub gimmick_id : ℤ
  pub type : ℕ
  pub position : Vector3 F
  pub start_pos : Vector3 F
  pub hp_property : Option F
  pub current_state : ℕ
  pub gimmick_recover_time : F
  pub hp : ℤ
  pub weight : ℤ
  pub is_bomb_only : Bool
  pub activation_type : ℤ
  pub wait_time : F
  pub is_returning : Bool
  pub is_move_triggered : Bool
  pub move_delay_timer : F
  pub is_interacting : Bool
  pub interact_window_timer : F
  pub interactor_uuids : List ℤ
  pub total_dir_x : F
  pub total_dir_z : F
  pub base_force : F

-- `PLAYER_GIMMICK_INTERACT_REQUEST_PACKET`
pub record GimmickRequest (F : Type 0) : Type 0 where
  pub active_uuid : ℤ
  pub gimmick_id : ℤ
  pub gimmick_key : ℕ
  pub state : ℕ
  pub target_pos : Vector3 F
  pub param : F
  pub timestamp : ℤ

-- `PLAYER_GIMMICK_INTERACT_NTF_PACKET`
pub record GimmickNtf (F : Type 0) : Type 0 where
  pub active_uuid : ℤ
  pub gimmick_id : ℤ
  pub gimmick_key : ℕ
  pub state : ℕ
  pub target_pos : Vector3 F
  pub param : Option F
  pub timestamp : Option ℤ

-- the members of `eGimmickKey` that the manager names
abbrev pub breakable_wall : ℕ
breakable_wall = 1

abbrev pub falling_platform : ℕ
falling_platform = 7

abbrev pub move_platform : ℕ
move_platform = 8

abbrev pub checkpoint : ℕ
checkpoint = 11

abbrev pub breakable_obj : ℕ
breakable_obj = 12

abbrev pub bomb : ℕ
bomb = 13

-- the members of `eGimmickState` that it names

abbrev pub sync : ℕ
sync = 2

abbrev pub restore : ℕ
restore = 3

abbrev pub gimmick_push : ℕ
gimmick_push = 5

-- no hit points are left
abbrev pub broken : {F : Type 0} → Gimmick F → Bool
broken g = not (ltb_ℤ (pos 0) g.hp)
