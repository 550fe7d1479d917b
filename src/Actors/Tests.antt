-- ===== src/Actors/Tests.antt =====
-- Tests of actors: modifiers of the speed, and the moves that keys and the mouse ask for.
use project_run_server.Base.{true, false, pos, ◌≡◌, refl}
use project_run_server.Actors.Vectors.{quaternion_multiply}
use project_run_server.Actors.Speed.{get_current_speed, sum_modifiers, age_modifiers}
use project_run_server.Actors.Physics.{update_server_physics, key_move, mouse_move}
use project_run_server.Actors.Examples.{whole_motion, runner, at_home, upright}

speed_now : get_current_speed whole_motion runner ≡ pos 14
unfolding get_current_speed sum_modifiers
speed_now = refl

-- one tick of the keys: only the first modifier is left, so the speed is 7
one_tick : (update_server_physics whole_motion (pos 1) false runner).server_pos.x ≡ pos 10
unfolding update_server_physics key_move get_current_speed sum_modifiers age_modifiers
one_tick = refl

-- the mouse stands still where it is
mouse_still : (update_server_physics whole_motion (pos 1) true runner).server_pos ≡ at_home
unfolding update_server_physics mouse_move get_current_speed sum_modifiers age_modifiers
mouse_still = refl

upright_turns_nothing : quaternion_multiply whole_motion upright at_home ≡ at_home
unfolding quaternion_multiply
upright_turns_nothing = refl
