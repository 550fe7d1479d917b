-- ===== src/Actors/Lasting.antt =====
-- How long a modifier of an actor's speed lasts, and what the ones that last do to the speed.
use project_run_server.Base.{
  Bool, true, false, List, [], ◌∷◌, Option, none, some, ◌≡◌, refl, ap, ◌∙◌, ◌⊎◌, inl, inr,
  Bool-cases, if◌then◌else◌, arith,
}
use project_run_server.Actors.{
  MotionFloats, Actor, SpeedModifier, ModifierType, additive, multiplicative, flat, zero_f, one_f,
}
use project_run_server.Actors.Speed.{sum_modifiers, get_current_speed, age_modifiers}
use project_run_server.Actors.Physics.{update_server_physics}

abbrev pub is_additive : ModifierType → Bool
is_additive additive = true
is_additive _ = false

abbrev pub is_multiplicative : ModifierType → Bool
is_multiplicative multiplicative = true
is_multiplicative _ = false

-- the values of the modifiers of a type, in order
abbrev pub values_of : {F : Type 0} → (ModifierType → Bool) → List (SpeedModifier F) → List F
values_of is_type [] = []
values_of is_type (m ∷ ms) =
    let rest = values_of is_type ms in if is_type m.type then m.value ∷ rest else rest

abbrev pub fold : {F : Type 0} → (F → F → F) → F → List F → F
fold op a [] = a
fold op a (x ∷ xs) = fold op (op a x) xs

type-cases : (t : ModifierType) → (t ≡ additive) ⊎ ((t ≡ multiplicative) ⊎ (t ≡ flat))
type-cases additive = inl refl
type-cases multiplicative = inr (inl refl)
type-cases flat = inr (inr refl)

module _ {F : Type 0} (fl : MotionFloats F) where
  sum_modifiers-by_type :
      (ms : List (SpeedModifier F)) (a b : F)
      → sum_modifiers fl ms a b ≡ (
        fold fl.calc.add a (values_of is_additive ms),
        fold fl.calc.mul b (values_of is_multiplicative ms),
      )
  unfolding sum_modifiers
  sum_modifiers-by_type [] a b = refl
  sum_modifiers-by_type (m ∷ ms) a b = elim (type-cases m.type) [
    | inl e ↦ (let ih = sum_modifiers-by_type ms (fl.calc.add a m.value) b in rw (e) ih)
    | inr (inl e) ↦ (let ih = sum_modifiers-by_type ms a (fl.calc.mul b m.value) in rw (e) ih)
    | inr (inr e) ↦ (let ih = sum_modifiers-by_type ms a b in rw (e) ih)
  ]

  -- what is left of a duration after the ticks, if it does not end before
  abbrev pub left_after : List F → F → Option F
  left_after [] d = some d
  left_after (dt ∷ dts) d =
      let left = fl.calc.sub d dt in
      let rest = left_after dts left in if fl.calc.at_most left (zero_f fl.calc) then none else rest

  abbrev pub keep : SpeedModifier F → Option F → List (SpeedModifier F) → List (SpeedModifier F)
  keep m none rest = rest
  keep m (some d) rest = record m { duration = d } ∷ rest

  -- each modifier by itself, for as long as it lasts
  abbrev pub lasting : List F → List (SpeedModifier F) → List (SpeedModifier F)
  lasting dts [] = []
  lasting dts (m ∷ ms) = keep m (left_after dts m.duration) (lasting dts ms)

  -- ticks of the physics, in order, each with the keys or the mouse
  abbrev pub run_physics : List (F × Bool) → Actor F → Actor F
  run_physics [] a = a
  run_physics ((dt, mouse) ∷ ts) a = run_physics ts (update_server_physics fl dt mouse a)

  abbrev pub times : List (F × Bool) → List F
  times [] = []
  times ((dt, mouse) ∷ ts) = dt ∷ times ts

  update_server_physics-modifiers :
      (dt : F) (mouse : Bool) (a : Actor F)
      → (update_server_physics fl dt mouse a).speed_modifiers
        ≡ age_modifiers fl dt a.speed_modifiers
  unfolding update_server_physics
  update_server_physics-modifiers dt mouse a = ground arith

  lasting-nil : (ms : List (SpeedModifier F)) → lasting [] ms ≡ ms
  lasting-nil [] = refl
  lasting-nil (m ∷ ms) = ap (λ r. m ∷ r) (lasting-nil ms)

  lasting-cons :
      (dt : F) (dts : List F) (ms : List (SpeedModifier F))
      → lasting dts (age_modifiers fl dt ms) ≡ lasting (dt ∷ dts) ms
  unfolding age_modifiers
  lasting-cons dt dts [] = refl
  lasting-cons dt dts (m ∷ ms) =
      let ih = lasting-cons dt dts ms in
      elim (Bool-cases (fl.calc.at_most (fl.calc.sub m.duration dt) (zero_f fl.calc))) [
        | inl over ↦ rw (over) ih
        | inr not_over ↦
            let kept = ap (keep m (left_after dts (fl.calc.sub m.duration dt))) ih in
            rw (not_over) kept
      ]

  -- x
  run_physics-lasting :
      (ts : List (F × Bool)) (a : Actor F)
      → (run_physics ts a).speed_modifiers ≡ lasting (times ts) a.speed_modifiers
  run_physics-lasting [] a = cc (lasting-nil a.speed_modifiers)
  run_physics-lasting ((dt, mouse) ∷ ts) a =
      run_physics-lasting ts (update_server_physics fl dt mouse a)
      ∙ (ap (lasting (times ts)) (update_server_physics-modifiers dt mouse a)
          ∙ lasting-cons dt (times ts) a.speed_modifiers)

  -- After any ticks of `UpdateServerPhysics`, with the mouse or the keys, the speed of an actor is
  -- the base speed with the values of the additive modifiers added, times those of the
  -- multiplicative ones, each in order and each only if its own duration has not run out, whatever
  -- modifiers stand between them; flat ones have no effect.
  pub run_physics-speed :
      (ts : List (F × Bool)) (a : Actor F)
      → let left = lasting (times ts) a.speed_modifiers in
        get_current_speed fl (run_physics ts a)
        ≡ fl.calc.mul
            (fl.calc.add
              (fl.calc.ratio 5 1)
              (fold fl.calc.add (zero_f fl.calc) (values_of is_additive left)))
            (fold fl.calc.mul (one_f fl.calc) (values_of is_multiplicative left))
  unfolding get_current_speed
  run_physics-speed ts a =
      rw (get_current_speed, run_physics-lasting ts a, sum_modifiers-by_type) refl
