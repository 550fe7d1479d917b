-- ===== src/Actors/Examples.antt =====
-- Whole numbers in place of floats, and an actor with two modifiers of its speed.
use project_run_server.Base.{true, [], ◌∷◌, ℤ, pos, negsuc, add_ℤ, eq_ℤ, ◌+◌, ◌/◌, ◌*◌, zero, suc}
use project_run_server.Gimmicks.{Vector3}
use project_run_server.GameRoom.Examples.{ticks}
use project_run_server.Actors.{MotionFloats, Quaternion, Actor, additive, multiplicative}

-- the product, as far as examples need it
abbrev times_ℤ : ℤ → ℤ → ℤ
times_ℤ (pos a) (pos b) = pos (a * b)
times_ℤ (negsuc a) (negsuc b) = pos (suc a * suc b)
times_ℤ (pos zero) b = pos 0
times_ℤ (pos (suc a)) (negsuc b) = negsuc (a + b + a * b)
times_ℤ (negsuc a) (pos zero) = pos 0
times_ℤ (negsuc a) (pos (suc b)) = negsuc (a + b + a * b)

abbrev pub whole_motion : MotionFloats ℤ
whole_motion = record {
  calc = record {
    add = add_ℤ;
    sub = ticks.sub;
    mul = times_ℤ;
    div = λ a b. a;
    sqrt = λ a. a;
    less = ticks.less;
    at_most = ticks.at_most;
    trunc = λ a. a;
    ratio = λ a b. pos (a / b);
  };
  is_zero = λ a. eq_ℤ a (pos 0);
}

abbrev pub at_home : Vector3 ℤ
at_home = record { x = pos 3; y = pos 0; z = pos 4 }

abbrev pub upright : Quaternion ℤ
upright = record { x = pos 0; y = pos 0; z = pos 0; w = pos 1 }

abbrev pub runner : Actor ℤ
runner = record {
  index = pos 4;
  is_moving = true;
  server_pos = at_home;
  target_pos = at_home;
  axis_x = pos 1;
  axis_y = pos 0;
  target_rot = upright;
  input_x = pos 1;
  input_z = pos 0;
  last_input_seq = 9;
  position = at_home;
  rotation = upright;
  last_sent_pos = record { x = pos 0; y = pos 0; z = pos 0 };
  last_sent_rot = upright;
  is_dirty = true;
  speed_modifiers =
      record { type = additive; value = pos 2; duration = pos 3 }
      ∷ record { type = multiplicative; value = pos 2; duration = pos 1 }
      ∷ [];
}
