-- ===== src/Actors/Physics.antt =====
-- Actor.h: `UpdateServerPhysics` and `UpdateMovement`, to which no code that is compiled has a call.
use project_run_server.Base.{Bool, true, false, ◌&&◌, ◌||◌, not, if◌then◌else◌}
use project_run_server.Gimmicks.{Vector3}
use project_run_server.Actors.{MotionFloats, Quaternion, Actor, zero_f, one_f}
use project_run_server.Actors.Vectors.{
  quaternion_multiply, vector3_right, vector3_forward, vector3_multiply, vector3_addition,
}
use project_run_server.Actors.Speed.{get_current_speed, age_modifiers}

module _ {F : Type 0} (fl : MotionFloats F) where
  -- `sqrt(x * x + z * z)`
  abbrev length2d : F → F → F
  length2d x z = fl.calc.sqrt (fl.calc.add (fl.calc.mul x x) (fl.calc.mul z z))

  -- a step of so much time along the direction `x`, `z`, which has length `len`
  abbrev pub step : F → F → F → F → F → Vector3 F → Vector3 F
  step speed dt x z len p = record p {
    x = fl.calc.add p.x (fl.calc.mul (fl.calc.mul (fl.calc.div x len) speed) dt);
    z = fl.calc.add p.z (fl.calc.mul (fl.calc.mul (fl.calc.div z len) speed) dt);
  }

  -- the move that the mouse asks for: towards the target, unless it is nearer than 0.1
  unfoldable pub mouse_move : F → Actor F → Vector3 F × Bool
  mouse_move dt a =
      let x = fl.calc.sub a.target_pos.x a.server_pos.x in
      let z = fl.calc.sub a.target_pos.z a.server_pos.z in
      let dist = length2d x z in
      if fl.calc.less (fl.calc.ratio 1 10) dist
      then (step (get_current_speed fl a) dt x z dist a.server_pos, true)
      else (a.server_pos, false)

  -- the move that the keys ask for
  unfoldable pub key_move : F → Actor F → Vector3 F × Bool
  key_move dt a =
      let mag = length2d a.input_x a.input_z in
      if (not (fl.is_zero a.input_x) || not (fl.is_zero a.input_z))
        && fl.calc.less (fl.calc.ratio 1 100) mag
      then (step (get_current_speed fl a) dt a.input_x a.input_z mag a.server_pos, true)
      else (a.server_pos, false)

  -- `UpdateServerPhysics`
  unfoldable pub update_server_physics : F → Bool → Actor F → Actor F
  update_server_physics dt is_move_mouse a =
      let a1 = record a { speed_modifiers = age_modifiers fl dt a.speed_modifiers } in
      let (next_pos, has_input_move) = if is_move_mouse then mouse_move dt a1 else key_move dt a1 in
      if has_input_move then (record a1 { server_pos = next_pos; is_dirty = true }) else a1

  -- `dx *= (dx <= 1.0f)`
  abbrev clipped : F → F
  clipped d =
      fl.calc.mul d (if fl.calc.at_most d (one_f fl.calc) then one_f fl.calc else zero_f fl.calc)

  -- what `UpdateMovement` adds to the position
  unfoldable pub motion : F → F → Quaternion F → Vector3 F
  motion dx dy rotation =
      let right = quaternion_multiply fl rotation (vector3_right fl) in
      let forward = quaternion_multiply fl rotation (vector3_forward fl) in
      vector3_multiply fl
        (vector3_addition fl (vector3_multiply fl right (clipped dx))
          (vector3_multiply fl forward (clipped dy)))
        (fl.calc.mul (fl.calc.ratio 2 100) (fl.calc.ratio 20 1))

  -- `UpdateMovement`
  unfoldable pub update_movement : F → F → Quaternion F → Actor F → Vector3 F × Actor F
  update_movement dx dy rotation a =
      let m = motion dx dy rotation in
      (m, record a { position = vector3_addition fl a.position m; rotation = rotation })
