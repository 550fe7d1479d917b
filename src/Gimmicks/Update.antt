-- ===== src/Gimmicks/Update.antt =====
-- `UpdateGimmicks` of Server/GameServer/GimmickManager.cpp, as far as it is not commented out.
use project_run_server.Base.{
  suc, ◌==◌, Bool, false, ◌&&◌, ◌||◌, not, List, [], ◌∷◌, ◌++◌, none, some, ℤ, pos, negsuc,
  minus_one, eq_ℤ, add_ℤ, sub_ℕ, length, ltb, leb, if◌then◌else◌,
}
use project_run_server.Gimmicks.{
  GimmickFloats, Vector3, Gimmick, GimmickNtf, falling_platform, breakable_wall, breakable_obj,
  bomb, restore, gimmick_push, broken,
}
use project_run_server.Gimmicks.Interact.{zero_f}

abbrev pub negate : ℤ → ℤ
negate (pos n) = sub_ℕ 0 n
negate (negsuc n) = pos (suc n)

abbrev pub last_or : List ℤ → ℤ → ℤ
last_or [] d = d
last_or (u ∷ us) d = last_or us u

module _ {F : Type 0} (fl : GimmickFloats F) where
  abbrev pub is_falling : Gimmick F → Bool
  is_falling g =
      (g.type == falling_platform)
      && (g.current_state == 1)
      && fl.less (zero_f fl) g.gimmick_recover_time

  -- a falling platform comes back when its time is up
  unfoldable pub recover : F → Gimmick F → Gimmick F × List (GimmickNtf F)
  recover dt g =
      let left = fl.sub g.gimmick_recover_time dt in
      if not (is_falling g)
      then (g, [])
      else if fl.at_most left (zero_f fl)
      then (
        record g { current_state = 0; gimmick_recover_time = zero_f fl },
        record {
          active_uuid = minus_one;
          gimmick_id = g.gimmick_id;
          gimmick_key = g.type;
          state = restore;
          target_pos = g.position;
          param = some (zero_f fl);
          timestamp = none;
        }
            ∷ [],
      )
      else (record g { gimmick_recover_time = left }, [])

  abbrev pub final_force : Gimmick F → F
  final_force g =
      let count = length g.interactor_uuids in
      if eq_ℤ g.weight (pos 2) && ltb count 2
      then zero_f fl
      else if leb 2 count
      then fl.mul g.base_force (fl.ratio 3 2)
      else g.base_force

  abbrev pub is_breakable : Gimmick F → Bool
  is_breakable g = (g.type == breakable_wall) || (g.type == breakable_obj) || (g.type == bomb)

  abbrev pub is_explosion : Gimmick F → Bool
  is_explosion g = fl.at_most (fl.ratio 10 1) (final_force g)

  -- the hit points after the pushes of the window
  unfoldable pub damaged : Gimmick F → ℤ
  damaged g =
      if is_breakable g && (not g.is_bomb_only || is_explosion g)
      then add_ℤ g.hp (negate (if is_explosion g then fl.trunc (final_force g) else pos 1))
      else g.hp

  abbrev pub total_mag : Gimmick F → F
  total_mag g =
      fl.sqrt (fl.add (fl.mul g.total_dir_x g.total_dir_x) (fl.mul g.total_dir_z g.total_dir_z))

  -- where the pushes of the window move the gimmick
  unfoldable pub pushed_to : Gimmick F → Vector3 F
  pushed_to g =
      let mag = total_mag g in
      let dist = fl.mul (fl.div mag g.base_force) (fl.ratio 3 1) in
      if fl.less mag (fl.ratio 1 100) || fl.at_most (final_force g) (zero_f fl)
      then g.position
      else (record {
        x = fl.add g.position.x (fl.mul (fl.div g.total_dir_x mag) dist);
        y = g.position.y;
        z = fl.add g.position.z (fl.mul (fl.div g.total_dir_z mag) dist);
      })

  -- what the window of pushes does; the last user to push is named
  unfoldable pub resolve : ℤ → Gimmick F → Gimmick F × GimmickNtf F
  resolve now g =
      let g1 = record g { hp = damaged g } in
      let ntf : GimmickNtf F = record {
        active_uuid = last_or g.interactor_uuids (pos 0);
        gimmick_id = g.gimmick_id;
        gimmick_key = g.type;
        state = gimmick_push;
        target_pos = pushed_to g;
        param = none;
        timestamp = some now;
      } in
      if broken g1
      then (
        record g1 { current_state = 99 },
        record ntf {
          state = 99;
          param = some (zero_f fl);
          target_pos = record { x = zero_f fl; y = zero_f fl; z = zero_f fl };
        },
      )
      else (record g1 { position = pushed_to g }, ntf)

  abbrev pub close_window : Gimmick F → Gimmick F
  close_window g = record g {
    is_interacting = false;
    interactor_uuids = [];
    total_dir_x = zero_f fl;
    total_dir_z = zero_f fl;
  }

  unfoldable pub tick_window : ℤ → F → Gimmick F → Gimmick F × List (GimmickNtf F)
  tick_window now dt g =
      let left = fl.sub g.interact_window_timer dt in
      let g1 = record g { interact_window_timer = left } in
      let (g2, ntf) = resolve now g1 in
      if not g.is_interacting
      then (g, [])
      else if fl.at_most left (zero_f fl)
      then (close_window g2, ntf ∷ [])
      else (g1, [])

  -- `UpdateGimmicks` for one gimmick
  unfoldable pub update_gimmick : ℤ → F → Gimmick F → Gimmick F × List (GimmickNtf F)
  update_gimmick now dt g =
      let (g1, restored) = recover dt g in
      let (g2, pushed) = tick_window now dt g1 in (g2, restored ++ pushed)

  -- `UpdateGimmicks`
  unfoldable pub update_gimmicks : ℤ → F → List (Gimmick F) → List (Gimmick F) × List (GimmickNtf F)
  update_gimmicks now dt [] = ([], [])
  update_gimmicks now dt (g ∷ gs) =
      let (g', told) = update_gimmick now dt g in
      let (gs', sent) = update_gimmicks now dt gs in (g' ∷ gs', told ++ sent)
