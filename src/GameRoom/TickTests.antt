-- ===== src/GameRoom/TickTests.antt =====
-- Tests of `Update` of the game server's room: users 4 and 7, of whom one has moved, and a platform.
use project_run_server.Base.{
  zero, suc, ◌==◌, if◌then◌else◌, ◌≡◌, refl, true, false, [], ◌∷◌, none, some, ℕ, ℤ, pos, negsuc,
  get_elem?, arith,
}
use mathlib.Core.List.{Mem}
use project_run_server.Gimmicks.{Gimmick, falling_platform}
use project_run_server.Actors.{Actor}
use project_run_server.Actors.Examples.{whole_motion, runner, at_home, upright}
use project_run_server.GameRoom.Examples.{ticks, pair}
use project_run_server.GameRoom.Tick.{
  Scene, movement, update, sync_users, sync_packet, needs_sync, move_dist_sq, rot_diff_sq, settle,
}
use project_run_server.GameRoom.Members.{AllDifferent, member}
use project_run_server.GameRoom.Synced.{IsExact, after_datagram, update-tells_moved}
use project_run_server.GameRoom.Platforms.{run_updates, run_updates-double_time}

-- user 4 has moved, user 7 has not
abbrev actors : ℕ → Actor ℤ
actors zero = settle runner
actors (suc n) = if n == 3 then runner else settle (record runner { index = pos (suc n) })

abbrev pub platform : Gimmick ℤ
platform = record {
  gimmick_id = pos 1;
  type = falling_platform;
  position = at_home;
  start_pos = at_home;
  hp_property = none;
  current_state = 1;
  gimmick_recover_time = pos 350;
  hp = pos 100;
  weight = pos 1;
  is_bomb_only = false;
  activation_type = pos 0;
  wait_time = pos 350;
  is_returning = false;
  is_move_triggered = false;
  move_delay_timer = pos 0;
  is_interacting = false;
  interact_window_timer = pos 0;
  interactor_uuids = [];
  total_dir_x = pos 0;
  total_dir_z = pos 0;
  base_force = pos 0;
}

abbrev scene : Scene ℤ
scene = record { room = pair; gimmicks = platform ∷ []; actors = actors; npcs = [] }

pair-AllDifferent : AllDifferent pair.user_list
unfolding AllDifferent member
pair-AllDifferent = (refl, (refl, tt))

members : (member 4 pair.user_list ≡ true) × (member 7 pair.user_list ≡ true)
unfolding member
members = (refl, refl)

-- both users are told of user 4 alone
one_moved :
    (sync_users whole_motion pair.user_list pair.user_list actors).1
    ≡ (4, movement (sync_packet whole_motion none runner))
      ∷ (7, movement (sync_packet whole_motion none runner))
      ∷ []
unfolding sync_users needs_sync move_dist_sq rot_diff_sq settle
one_moved = refl

minus_self : (a : ℤ) → ticks.sub a a ≡ pos 0
minus_self (pos zero) = refl
minus_self (pos (suc n)) = ground arith
minus_self (negsuc n) = ground arith

whole_motion-IsExact : IsExact whole_motion
whole_motion-IsExact = record { self = minus_self; squared = refl; doubled = refl; small = refl }

-- users 4 and 7 are told that user 7 has gone home
update-tells_moved_example :
    let (s', sends) =
      update whole_motion ticks
        (pos 1)
        (pos 20)
        (pos 20)
        0
        (after_datagram whole_motion 7 at_home upright (pos 0) (pos 0) 12 scene) in
    Mem
      (
        4,
        movement (record {
          last_input_seq = none;
          user_uuid = pos 7;
          current_pos = at_home;
          current_rot = upright;
          current_speed = none;
          axis_h = pos 0;
          axis_v = pos 0;
          is_moving = false;
        }),
      )
      sends
    × ((s'.actors 7).is_dirty ≡ false)
    × ((s'.actors 7).last_sent_pos ≡ at_home)
unfolding settle
update-tells_moved_example =
    update-tells_moved whole_motion ticks (pos 1) (pos 20) (pos 20) 0 scene 7 4 at_home upright
      (pos 0) (pos 0) 12 pair-AllDifferent members.1 members.0

-- after three ticks of one fiftieth, the platform's seven seconds are six fiftieths shorter
run_updates-double_time_example :
    get_elem?
      (run_updates ticks whole_motion
        (pos 1)
        ((pos 20, pos 20, 0) ∷ (pos 40, pos 40, 0) ∷ (pos 60, pos 60, 0) ∷ [])
        scene).gimmicks
      0
    ≡ some (record platform { gimmick_recover_time = pos 344 })
run_updates-double_time_example =
    run_updates-double_time ticks whole_motion (pos 1)
      ((pos 20, pos 20, 0) ∷ (pos 40, pos 40, 0) ∷ (pos 60, pos 60, 0) ∷ []) scene 0 platform refl
      (record { platform = refl; fallen = refl; alone = refl })
      (refl, refl, (refl, refl, (refl, refl, (refl, refl, (refl, refl, (refl, refl, refl))))))
