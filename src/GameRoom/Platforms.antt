-- ===== src/GameRoom/Platforms.antt =====
-- How fast time passes for the gimmicks of a room that `Update` is called for.
use project_run_server.Base.{
  ℕ, zero, suc, ◌==◌, ◌≡◌, ap, ◌∙◌, true, false, List, [], ◌∷◌, none, some, ℤ, get_elem?, arith,
}
use project_run_server.Gimmicks.{GimmickFloats, Gimmick, falling_platform}
use project_run_server.Gimmicks.Interact.{zero_f}
use project_run_server.Gimmicks.Update.{recover, tick_window, update_gimmick, update_gimmicks}
use project_run_server.Actors.{MotionFloats}
use project_run_server.GameRoom.{FloatOps}
use project_run_server.GameRoom.Tick.{Scene, update}

module _ {F : Type 0} (gl : GimmickFloats F) where
  -- A platform that has fallen and that nobody pushes.
  pub record IsFallen (g : Gimmick F) : Type 0 where
    pub platform : (g.type == falling_platform) ≡ true
    pub fallen : (g.current_state == 1) ≡ true
    pub alone : g.is_interacting ≡ false

  -- `n` steps of time
  abbrev pub elapse : ℕ → F → F → F
  elapse zero dt t = t
  elapse (suc n) dt t = elapse n dt (gl.sub t dt)

  -- Some time is left before each of the `n` steps and after it.
  abbrev pub IsLeft : ℕ → F → F → Type 0
  IsLeft zero dt t = gl.less (zero_f gl) t ≡ true
  IsLeft (suc n) dt t =
      (gl.less (zero_f gl) t ≡ true)
      × (gl.at_most (gl.sub t dt) (zero_f gl) ≡ false)
      × IsLeft n dt (gl.sub t dt)

  update_gimmick-falling :
      (now : ℤ) (dt : F) (g : Gimmick F)
      → IsFallen g
      → gl.less (zero_f gl) g.gimmick_recover_time ≡ true
      → gl.at_most (gl.sub g.gimmick_recover_time dt) (zero_f gl) ≡ false
      → (update_gimmick gl now dt g).0
        ≡ record g { gimmick_recover_time = gl.sub g.gimmick_recover_time dt }
  unfolding update_gimmick recover tick_window
  update_gimmick-falling now dt g f before after =
      ground (arith, f.platform, f.fallen, f.alone, before, after)

  update_gimmicks-get_elem :
      (now : ℤ) (dt : F) (gs : List (Gimmick F)) (i : ℕ) (g : Gimmick F)
      → get_elem? gs i ≡ some g
      → get_elem? (update_gimmicks gl now dt gs).0 i ≡ some (update_gimmick gl now dt g).0
  unfolding update_gimmicks
  update_gimmicks-get_elem now dt [] i g e = absurd (ground (arith, e))
  update_gimmicks-get_elem now dt (h ∷ gs) zero g e =
      ap (λ o. elim o [ none ↦ none | some x ↦ some (update_gimmick gl now dt x).0 ]) e
  update_gimmicks-get_elem now dt (h ∷ gs) (suc i) g e = update_gimmicks-get_elem now dt gs i g e

  update_gimmicks-falling :
      (now : ℤ) (dt : F) (gs : List (Gimmick F)) (i : ℕ) (g : Gimmick F)
      → IsFallen g
      → gl.less (zero_f gl) g.gimmick_recover_time ≡ true
      → gl.at_most (gl.sub g.gimmick_recover_time dt) (zero_f gl) ≡ false
      → get_elem? gs i ≡ some g
      → get_elem? (update_gimmicks gl now dt gs).0 i
        ≡ some (record g { gimmick_recover_time = gl.sub g.gimmick_recover_time dt })
  update_gimmicks-falling now dt gs i g f before after e =
      update_gimmicks-get_elem now dt gs i g e
      ∙ ap some (update_gimmick-falling now dt g f before after)

module _ {F : Type 0} (fl : FloatOps F) (ml : MotionFloats F) where
  -- a tick for each entry, with the times that it reads off the clock
  abbrev pub run_updates : F → List (ℤ × ℤ × ℕ) → Scene F → Scene F
  run_updates dt [] s = s
  run_updates dt ((t1, t2, now) ∷ ts) s = run_updates dt ts (update ml fl dt t1 t2 now s).0

  -- two steps for each tick
  abbrev pub twice_each : {A : Type 0} → List A → ℕ
  twice_each [] = 0
  twice_each (x ∷ xs) = suc (suc (twice_each xs))

  -- In a room that `Update` is called for, time passes twice as fast for a platform that has fallen
  -- and that nobody pushes: after any number of calls with time `dt`, its time to come back is less
  -- by `dt` taken off twice for each call, as long as some time is left throughout.
  pub run_updates-double_time :
      (dt : F) (ts : List (ℤ × ℤ × ℕ)) (s : Scene F) (i : ℕ) (g : Gimmick F)
      → get_elem? s.gimmicks i ≡ some g
      → IsFallen ml.calc g
      → IsLeft ml.calc (twice_each ts) dt g.gimmick_recover_time
      → get_elem? (run_updates dt ts s).gimmicks i
        ≡ some (record g {
          gimmick_recover_time = elapse ml.calc (twice_each ts) dt g.gimmick_recover_time;
        })
  unfolding update
  run_updates-double_time dt [] s i g e f h = e
  run_updates-double_time dt ((t1, t2, now) ∷ ts) s i g e f (b1, a1, (b2, a2, h)) =
      let gl = ml.calc in
      let g1 : Gimmick F = record g { gimmick_recover_time = gl.sub g.gimmick_recover_time dt } in
      let gs1 = (update_gimmicks gl t1 dt s.gimmicks).0 in
      let e1 = update_gimmicks-falling gl t1 dt s.gimmicks i g f b1 a1 e in
      let f1 : IsFallen gl g1 = record {
        platform = f.platform;
        fallen = f.fallen;
        alone = f.alone;
      } in
      let e2 = update_gimmicks-falling gl t2 dt gs1 i g1 f1 b2 a2 e1 in
      run_updates-double_time dt ts (update ml fl dt t1 t2 now s).0 i
        (record g1 { gimmick_recover_time = gl.sub g1.gimmick_recover_time dt }) e2
        (record { platform = f.platform; fallen = f.fallen; alone = f.alone }) h
