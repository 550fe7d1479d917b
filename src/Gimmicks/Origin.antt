-- ===== src/Gimmicks/Origin.antt =====
-- What the resets of a gimmick bring back: what the file of the map said of it.
use project_run_server.Base.{
  ◌==◌, ◌≡◌, refl, ap, ◌∙◌, inl, inr, ◌&&◌, ◌||◌, List, [], ◌∷◌, Option, none, some, ℤ, pos,
  Bool-cases, arith,
}
use project_run_server.Gimmicks.{
  GimmickFloats, Gimmick, GimmickRequest, broken, falling_platform, checkpoint, sync, gimmick_push,
}
use project_run_server.Gimmicks.Interact.{
  trigger_move, destroy_or_fall, interact, accept, push, reset,
}
use project_run_server.Gimmicks.Update.{recover, resolve, tick_window, update_gimmick}
use project_run_server.Gimmicks.Windows.{Event, interacts, resets, ticks, history, happen}
use project_run_server.Gimmicks.MapNames.{hp_name}
use project_run_server.Gimmicks.Loading.{Json, find_property, properties_of, or_else, load_gimmick}

module _ {F : Type 0} (fl : GimmickFloats F) where
  -- what files fix about a gimmick
  abbrev pub SameOrigin : Gimmick F → Gimmick F → Type 0
  SameOrigin g h = (h.start_pos ≡ g.start_pos) × (h.hp_property ≡ g.hp_property)

  SameOrigin-trans : (g h k : Gimmick F) → SameOrigin g h → SameOrigin h k → SameOrigin g k
  SameOrigin-trans g h k a b = (b.0 ∙ a.0, b.1 ∙ a.1)

  trigger_move-SameOrigin :
      (q : GimmickRequest F) (g : Gimmick F) → SameOrigin g (trigger_move fl q g)
  trigger_move-SameOrigin q g = ground arith

  destroy_or_fall-SameOrigin :
      (q : GimmickRequest F) (g : Gimmick F) → SameOrigin g (destroy_or_fall fl q g)
  destroy_or_fall-SameOrigin q g = ground arith

  push-SameOrigin : (q : GimmickRequest F) (g : Gimmick F) → SameOrigin g (push fl q g)
  unfolding push
  push-SameOrigin q g = ground arith

  accept-SameOrigin : (q : GimmickRequest F) (g : Gimmick F) → SameOrigin g (accept fl q g).0
  unfolding accept
  accept-SameOrigin q g =
      let g0 = record g { current_state = q.state } in
      let g1 = trigger_move fl q g0 in
      let g2 = destroy_or_fall fl q g1 in
      let begun : SameOrigin g g2 =
        SameOrigin-trans g0 g1 g2 (trigger_move-SameOrigin q g0)
          (destroy_or_fall-SameOrigin q g1) in
      let pushed = SameOrigin-trans g g2 (push fl q g2) begun (push-SameOrigin q g2) in
      elim (Bool-cases (q.gimmick_key == checkpoint)) [
        | inl e ↦ rw (accept, e) begun
        | inr e ↦ elim (Bool-cases (q.state == gimmick_push)) [
          | inl p ↦ rw (accept, e, p) pushed
          | inr p ↦ elim (Bool-cases (q.state == sync)) [
            | inl y ↦ rw (accept, e, p, y) begun
            | inr y ↦ rw (accept, e, p, y) begun
          ]
        ]
      ]

  interact-SameOrigin : (q : GimmickRequest F) (g : Gimmick F) → SameOrigin g (interact fl q g).0
  unfolding interact
  interact-SameOrigin q g =
      let taken = accept-SameOrigin q g in
      elim (Bool-cases
        (broken g || ((g.type == falling_platform) && (g.current_state == 1) && (q.state == 1)))) [
          | inl e ↦ rw (interact, e) (refl, refl)
          | inr e ↦ rw (interact, e) taken
        ]

  recover-SameOrigin : (dt : F) (g : Gimmick F) → SameOrigin g (recover fl dt g).0
  unfolding recover
  recover-SameOrigin dt g = ground arith

  resolve-SameOrigin : (now : ℤ) (g : Gimmick F) → SameOrigin g (resolve fl now g).0
  unfolding resolve
  resolve-SameOrigin now g = ground arith

  tick_window-SameOrigin :
      (now : ℤ) (dt : F) (g : Gimmick F) → SameOrigin g (tick_window fl now dt g).0
  unfolding tick_window
  tick_window-SameOrigin now dt g =
      let g1 = record g { interact_window_timer = fl.sub g.interact_window_timer dt } in
      ground (arith, resolve-SameOrigin now g1)

  happen-SameOrigin : (e : Event F) (g : Gimmick F) → SameOrigin g (happen fl e g)
  unfolding happen reset update_gimmick
  happen-SameOrigin (interacts q) g = interact-SameOrigin q g
  happen-SameOrigin resets g = (refl, refl)
  happen-SameOrigin (ticks now dt) g =
      SameOrigin-trans g (recover fl dt g).0 (tick_window fl now dt (recover fl dt g).0).0
        (recover-SameOrigin dt g) (tick_window-SameOrigin now dt (recover fl dt g).0)

module _ {J F : Type 0} (fl : GimmickFloats F) (json : Json J F) where
  history-SameOrigin : (es : List (Event F)) (g : Gimmick F) → SameOrigin fl g (history fl es g)
  unfolding history
  history-SameOrigin [] g = (refl, refl)
  history-SameOrigin (e ∷ es) g =
      let first = happen-SameOrigin fl e g in
      let rest = history-SameOrigin es (happen fl e g) in (rest.0 ∙ first.0, rest.1 ∙ first.1)

  hp_of-property :
      (o : Option F)
      → (elim o [ none ↦ pos 1 | some v ↦ fl.trunc v ])
        ≡ or_else (elim o [ none ↦ none | some v ↦ some (fl.trunc v) ]) (pos 1)
  hp_of-property none = refl
  hp_of-property (some v) = refl

  -- Whatever has happened to a gimmick since it was loaded from an element of the map file
  -- (requests of users, resets, updates in any order), a reset gives it back the hit points and the
  -- state that it was loaded with, puts it at the start position of the file, and counts no user as
  -- pushing.
  pub reset-load_gimmick :
      (unset : Gimmick F) (j : J) (es : List (Event F))
      → let g = load_gimmick fl json unset j in
        let g' = reset fl (history fl es g) in
        (g'.hp ≡ g.hp)
        × (g'.current_state ≡ g.current_state)
        × (g'.position ≡ g.start_pos)
        × (g'.interactor_uuids ≡ g.interactor_uuids)
  unfolding reset load_gimmick
  reset-load_gimmick unset j es =
      let same = history-SameOrigin es (load_gimmick fl json unset j) in
      let ps = properties_of fl json j in
      (
        ap (λ p. elim p [ none ↦ pos 1 | some v ↦ fl.trunc v ]) same.1
            ∙ hp_of-property (find_property hp_name ps),
        refl,
        same.0,
        refl,
      )
