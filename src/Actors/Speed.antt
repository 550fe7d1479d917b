-- ===== src/Actors/Speed.antt =====
-- Actor.h: the modifiers of an actor's speed, `GetCurrentSpeed` and the loop that ends them.
use project_run_server.Base.{List, [], ◌∷◌, if◌then◌else◌}
use project_run_server.Actors.{
  MotionFloats, Actor, SpeedModifier, additive, multiplicative, flat, zero_f, one_f,
}

module _ {F : Type 0} (fl : MotionFloats F) where
  -- the loop of `GetCurrentSpeed`, from the sum and the product so far
  unfoldable pub sum_modifiers : List (SpeedModifier F) → F → F → F × F
  sum_modifiers [] add_value multiplier = (add_value, multiplier)
  sum_modifiers (m ∷ ms) add_value multiplier = elim m.type [
    | additive ↦ sum_modifiers ms (fl.calc.add add_value m.value) multiplier
    | multiplicative ↦ sum_modifiers ms add_value (fl.calc.mul multiplier m.value)
    | flat ↦ sum_modifiers ms add_value multiplier
  ]

  abbrev pub base_speed : F
  base_speed = fl.calc.ratio 5 1

  -- `GetCurrentSpeed`
  unfoldable pub get_current_speed : Actor F → F
  get_current_speed a =
      let (add_value, multiplier) =
        sum_modifiers a.speed_modifiers (zero_f fl.calc) (one_f fl.calc) in
      fl.calc.mul (fl.calc.add base_speed add_value) multiplier

  -- the first loop of `UpdateServerPhysics`: time passes, and what is over is erased
  unfoldable pub age_modifiers : F → List (SpeedModifier F) → List (SpeedModifier F)
  age_modifiers dt [] = []
  age_modifiers dt (m ∷ ms) =
      let rest = age_modifiers dt ms in
      let left = fl.calc.sub m.duration dt in
      if fl.calc.at_most left (zero_f fl.calc) then rest else record m { duration = left } ∷ rest
