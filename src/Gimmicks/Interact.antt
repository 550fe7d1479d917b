-- ===== src/Gimmicks/Interact.antt =====
-- `ProcessGimmickInteract` and `ResetGimmicks` of Server/GameServer/GimmickManager.cpp.
use project_run_server.Base.{
  ◌==◌, Bool, true, false, ◌&&◌, ◌||◌, not, List, [], ◌∷◌, ◌++◌, none, some, ℤ, pos, minus_one,
  eq_ℤ, if◌then◌else◌,
}
use project_run_server.Gimmicks.{
  GimmickFloats, Vector3, Gimmick, GimmickRequest, GimmickNtf, falling_platform, move_platform,
  checkpoint, sync, restore, gimmick_push, broken,
}

-- the packet that repeats a request, with a position
abbrev pub repeat : {F : Type 0} → GimmickRequest F → Vector3 F → GimmickNtf F
repeat q p = record {
  active_uuid = q.active_uuid;
  gimmick_id = q.gimmick_id;
  gimmick_key = q.gimmick_key;
  state = q.state;
  target_pos = p;
  param = some q.param;
  timestamp = some q.timestamp;
}

unfoldable pub takes_part : ℤ → List ℤ → Bool
takes_part u [] = false
takes_part u (v ∷ vs) = eq_ℤ v u || takes_part u vs

module _ {F : Type 0} (fl : GimmickFloats F) where
  abbrev pub zero_f : F
  zero_f = fl.ratio 0 1

  -- a platform that moves on contact starts
  abbrev pub trigger_move : GimmickRequest F → Gimmick F → Gimmick F
  trigger_move q g =
      if (g.type == move_platform)
        && eq_ℤ g.activation_type (pos 1)
        && (q.state == 1)
        && not g.is_move_triggered
        && not g.is_returning
      then (record g { is_move_triggered = true; move_delay_timer = zero_f })
      else g

  -- state 99 destroys; a falling platform starts to fall. The packet that the code fills in here is
  -- filled in again or not sent.
  abbrev pub destroy_or_fall : GimmickRequest F → Gimmick F → Gimmick F
  destroy_or_fall q g =
      if q.state == 99
      then (record g { hp = pos 0; current_state = 99 })
      else if g.type == falling_platform
      then (record g {
        gimmick_recover_time = if fl.less zero_f g.wait_time then g.wait_time else fl.ratio 7 1;
      })
      else g

  abbrev pub open_window : GimmickRequest F → Gimmick F → Gimmick F
  open_window q g = if g.is_interacting then g else (record g {
    is_interacting = true;
    interact_window_timer = fl.ratio 1 2;
    base_force = q.param;
  })

  -- the push of a user joins those of the same window, once for each user
  unfoldable pub push : GimmickRequest F → Gimmick F → Gimmick F
  push q g =
      if takes_part q.active_uuid g.interactor_uuids
      then g
      else (let g' = open_window q g in
          record g' {
            interactor_uuids = g'.interactor_uuids ++ q.active_uuid ∷ [];
            total_dir_x = fl.add g'.total_dir_x q.target_pos.x;
            total_dir_z = fl.add g'.total_dir_z q.target_pos.z;
          })

  -- what follows the two early returns
  unfoldable pub accept : GimmickRequest F → Gimmick F → Gimmick F × List (GimmickNtf F)
  accept q g =
      let g' = destroy_or_fall q (trigger_move q (record g { current_state = q.state })) in
      if q.gimmick_key == checkpoint
      then (g', repeat q q.target_pos ∷ [])
      else if q.state == gimmick_push
      then (push q g', [])
      else if q.state == sync
      then (record g' { position = q.target_pos }, repeat q q.target_pos ∷ [])
      else (g', repeat q g'.position ∷ [])

  -- `ProcessGimmickInteract` at the gimmick that is found
  unfoldable pub interact : GimmickRequest F → Gimmick F → Gimmick F × List (GimmickNtf F)
  interact q g =
      if broken g || ((g.type == falling_platform) && (g.current_state == 1) && (q.state == 1))
      then (g, [])
      else accept q g

  -- `ProcessGimmickInteract`: the gimmicks after it and what is broadcast
  unfoldable pub process_gimmick_interact :
      GimmickRequest F → List (Gimmick F) → List (Gimmick F) × List (GimmickNtf F)
  process_gimmick_interact q [] = ([], [])
  process_gimmick_interact q (g ∷ gs) =
      let (gs', sent) = process_gimmick_interact q gs in
      let (g', told) = interact q g in
      if eq_ℤ g.gimmick_id q.gimmick_id then (g' ∷ gs, told) else (g ∷ gs', sent)

  unfoldable pub reset : Gimmick F → Gimmick F
  reset g = record g {
    position = g.start_pos;
    current_state = 0;
    hp = elim g.hp_property [ none ↦ pos 1 | some f ↦ fl.trunc f ];
    is_interacting = false;
    interactor_uuids = [];
    total_dir_x = zero_f;
    total_dir_z = zero_f;
  }

  abbrev pub reset_ntf : ℤ → Gimmick F → GimmickNtf F
  reset_ntf now g = record {
    active_uuid = minus_one;
    gimmick_id = g.gimmick_id;
    gimmick_key = g.type;
    state = restore;
    target_pos = g.start_pos;
    param = some zero_f;
    timestamp = some now;
  }

  unfoldable pub reset_gimmick : ℤ → ℤ → List (Gimmick F) → List (Gimmick F) × List (GimmickNtf F)
  reset_gimmick now id [] = ([], [])
  reset_gimmick now id (g ∷ gs) =
      let (gs', sent) = reset_gimmick now id gs in
      if eq_ℤ g.gimmick_id id then (reset g ∷ gs, reset_ntf now g ∷ []) else (g ∷ gs', sent)

  -- `ResetGimmicks`
  unfoldable pub reset_gimmicks :
      ℤ → List ℤ → List (Gimmick F) → List (Gimmick F) × List (GimmickNtf F)
  reset_gimmicks now [] gs = (gs, [])
  reset_gimmicks now (id ∷ ids) gs =
      let (gs1, sent1) = reset_gimmick now id gs in
      let (gs2, sent2) = reset_gimmicks now ids gs1 in (gs2, sent1 ++ sent2)
