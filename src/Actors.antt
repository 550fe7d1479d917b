-- ===== src/Actors.antt =====
-- Server/Common/UserModels/Actor.h: where an actor is, where it was last seen, and what moves it. The
-- session of an actor (state, room, name) is in Users. Floats are a type with the operations that the
-- code uses; a literal such as 0.1f is a quotient of natural numbers.
pub mod Vectors
pub mod Speed
pub mod Physics
pub mod Examples
mod Lasting
mod Tests
use project_run_server.Base.{
  ℕ, Bool, true, false, List, [], ◌∷◌, ◌++◌, ℤ, pos, minus_one, ◌+◌, length,
}
use project_run_server.Gimmicks.{GimmickFloats, Vector3}

-- the operations of floats, with the test `x == 0.0f`
pub record MotionFloats (F : Type 0) : Type 0 where
  pub calc : GimmickFloats F
  pub is_zero : F → Bool

-- `Quaternion` of Server/Common/Utility/unity.h
pub record Quaternion (F : Type 0) : Type 0 where
  pub x : F
  pub y : F
  pub z : F
  pub w : F

-- `Actor::ModifierType`
pub data ModifierType : Type 0 where
  additive multiplicative flat : ModifierType

-- `Actor::SpeedModifier`; its `sourceID` is neither written nor read
pub record SpeedModifier (F : Type 0) : Type 0 where
  pub type : ModifierType
  pub value : F
  pub duration : F

pub record Actor (F : Type 0) : Type 0 where
  pub index : ℤ
  pub is_moving : Bool
  pub server_pos : Vector3 F
  pub target_pos : Vector3 F
  pub axis_x : F
  pub axis_y : F
  pub target_rot : Quaternion F
  pub input_x : F
  pub input_z : F
  pub last_input_seq : ℕ
  pub position : Vector3 F
  pub rotation : Quaternion F
  pub last_sent_pos : Vector3 F
  pub last_sent_rot : Quaternion F
  pub is_dirty : Bool
  pub speed_modifiers : List (SpeedModifier F)

-- `SetTarget`
unfoldable pub set_target : {F : Type 0} → Vector3 F → Quaternion F → F → F → ℕ → Actor F → Actor F
set_target p rot axis_h axis_v seq a = record a {
  server_pos = p;
  position = p;
  rotation = rot;
  target_pos = p;
  target_rot = rot;
  axis_x = axis_h;
  axis_y = axis_v;
  last_input_seq = seq;
  is_moving = true;
}

-- `SetInput`
unfoldable pub set_input : {F : Type 0} → Vector3 F → Quaternion F → ℕ → Actor F → Actor F
set_input p rot seq a = record a { target_pos = p; target_rot = rot; last_input_seq = seq }

-- `SetPosition`
unfoldable pub set_position : {F : Type 0} → Vector3 F → Actor F → Actor F
set_position p a = record a { server_pos = p; position = p }

-- `SetRotation`
unfoldable pub set_rotation : {F : Type 0} → Quaternion F → Actor F → Actor F
set_rotation q a = record a { rotation = q }

-- `SetDirty`
unfoldable pub set_dirty : {F : Type 0} → Bool → Actor F → Actor F
set_dirty dirty a = record a { is_dirty = dirty }

-- `AddSpeedModifier`
unfoldable pub add_speed_modifier : {F : Type 0} → ModifierType → F → F → Actor F → Actor F
add_speed_modifier type value duration a = record a {
  speed_modifiers =
      a.speed_modifiers ++ record { type = type; value = value; duration = duration } ∷ [];
}

module _ {F : Type 0} (fl : GimmickFloats F) where
  abbrev pub zero_f : F
  zero_f = fl.ratio 0 1

  abbrev pub one_f : F
  one_f = fl.ratio 1 1

  -- the position that `Init` gives
  abbrev pub start_pos : Vector3 F
  start_pos = record { x = zero_f; y = fl.sub zero_f one_f; z = zero_f }

  abbrev zero_vector : Vector3 F
  zero_vector = record { x = zero_f; y = zero_f; z = zero_f }

  abbrev unit_rotation : Quaternion F
  unit_rotation = record { x = zero_f; y = zero_f; z = zero_f; w = one_f }

  -- `Init`; what it leaves as it is keeps its value
  unfoldable pub init : ℤ → Actor F → Actor F
  init index a = record a {
    index = index;
    position = start_pos;
    server_pos = start_pos;
    rotation = unit_rotation;
    target_pos = start_pos;
    input_x = zero_f;
    input_z = zero_f;
    is_moving = false;
    speed_modifiers = [];
  }

  -- `new Npc()`: members without an initializer are zeros
  unfoldable pub new_npc : Actor F
  new_npc = record {
    index = minus_one;
    is_moving = false;
    server_pos = zero_vector;
    target_pos = zero_vector;
    axis_x = zero_f;
    axis_y = zero_f;
    target_rot = record unit_rotation { w = zero_f };
    input_x = zero_f;
    input_z = zero_f;
    last_input_seq = 0;
    position = zero_vector;
    rotation = record unit_rotation { w = zero_f };
    last_sent_pos = zero_vector;
    last_sent_rot = unit_rotation;
    is_dirty = true;
    speed_modifiers = [];
  }

  -- `CreateNpc` and `EnterNpc` of Server/GameServer/Room.h, for `mNpcList`; the name and the room of the
  -- character, which nothing reads, are left out
  unfoldable pub enter_npc : List (Actor F) → List (Actor F)
  enter_npc npcs = npcs ++ init (pos (10000 + length npcs)) new_npc ∷ []
