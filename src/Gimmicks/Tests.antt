-- ===== src/Gimmicks/Tests.antt =====
-- A breakable wall with three hit points; floats are natural numbers of tenths.
use project_run_server.Base.{ℕ, ◌+◌, ◌-◌, ◌*◌, ◌/◌, refl, true, false, [], ◌∷◌, none, pos, ltb, leb}
use project_run_server.Gimmicks.{GimmickFloats, Vector3, Gimmick, GimmickRequest, breakable_wall}
use project_run_server.Gimmicks.Interact.{takes_part}
use project_run_server.Gimmicks.Windows.{
  IsTended, NoTwice, interacts, ticks, history, history-IsTended,
}

abbrev pub tenths : GimmickFloats ℕ
tenths = record {
  add = λ a b. a + b;
  sub = λ a b. a - b;
  mul = λ a b. a * b / 10;
  div = λ a b. a * 10 / b;
  sqrt = λ a. a;
  less = ltb;
  at_most = leb;
  trunc = λ a. pos (a / 10);
  ratio = λ a b. a * 10 / b;
}

abbrev origin : Vector3 ℕ
origin = record { x = 0; y = 0; z = 0 }

abbrev pub wall : Gimmick ℕ
wall = record {
  gimmick_id = pos 1;
  type = breakable_wall;
  position = origin;
  start_pos = origin;
  hp_property = none;
  current_state = 0;
  gimmick_recover_time = 0;
  hp = pos 3;
  weight = pos 1;
  is_bomb_only = false;
  activation_type = pos 0;
  wait_time = 0;
  is_returning = false;
  is_move_triggered = false;
  move_delay_timer = 0;
  is_interacting = false;
  interact_window_timer = 0;
  interactor_uuids = [];
  total_dir_x = 0;
  total_dir_z = 0;
  base_force = 0;
}

abbrev pushed : Gimmick ℕ
pushed = record wall {
  current_state = 5;
  is_interacting = true;
  interact_window_timer = 5;
  interactor_uuids = pos 4 ∷ pos 7 ∷ [];
  base_force = 20;
}

abbrev pub request : ℕ → ℕ → GimmickRequest ℕ
request u s = record {
  active_uuid = pos u;
  gimmick_id = pos 1;
  gimmick_key = breakable_wall;
  state = s;
  target_pos = origin;
  param = 20;
  timestamp = pos 0;
}

wall-IsTended : IsTended wall
unfolding NoTwice
wall-IsTended = record { shown = refl; once = tt }

pushed-IsTended : IsTended pushed
unfolding NoTwice takes_part
pushed-IsTended = record { shown = refl; once = (refl, (refl, tt)) }

history-IsTended_example :
    IsTended (
      history tenths
        (interacts (request 4 5) ∷ interacts (request 7 5) ∷ ticks (pos 0) 2 ∷ [])
        wall)
history-IsTended_example =
    history-IsTended tenths
      (interacts (request 4 5) ∷ interacts (request 7 5) ∷ ticks (pos 0) 2 ∷ []) wall wall-IsTended
