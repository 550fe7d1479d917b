-- ===== src/Gimmicks/LoadTests.antt =====
-- A map file with two gimmicks of the same id, as nodes with numbers: a bomb with 30 hit points, and a
-- falling platform.
use project_run_server.Base.{
  ℕ, ◌==◌, ◌≡◌, refl, ◌||◌, List, [], ◌∷◌, map, Option, none, some, pos, if◌then◌else◌,
}
use project_run_server.Users.{eq_id}
use project_run_server.Gimmicks.Tests.{tenths, wall, request}
use project_run_server.Gimmicks.Interact.{reset}
use project_run_server.Gimmicks.Windows.{interacts, ticks, history}
use project_run_server.Gimmicks.MapNames.{
  Text, gimmicks_name, gimmick_id_name, type_name, properties_name, hp_name,
  convert_gimmick_type_to_enum,
}
use project_run_server.Gimmicks.Loading.{
  Json, load_gimmick, load_gimmicks, load_map_data, put_gimmick, properties_of, load_properties,
  put_property, find_property,
}
use project_run_server.Gimmicks.Origin.{reset-load_gimmick}

-- "Bomb"
abbrev bomb_text : Text
bomb_text = 66 ∷ 111 ∷ 109 ∷ 98 ∷ []

-- the members of a node
abbrev members_of : ℕ → List (Text × ℕ)
members_of n =
    if n == 0
    then (gimmicks_name, 1) ∷ []
    else if n == 2
    then (gimmick_id_name, 10) ∷ (type_name, 11) ∷ (properties_name, 12) ∷ []
    else if n == 3
    then (gimmick_id_name, 10) ∷ []
    else if n == 12
    then (hp_name, 13) ∷ []
    else []

abbrev member_in : Text → List (Text × ℕ) → Option ℕ
member_in name [] = none
member_in name ((n, j) ∷ ms) = let rest = member_in name ms in if eq_id name n then some j else rest

abbrev nodes : Json ℕ ℕ
nodes = record {
  member = λ j name. member_in name (members_of j);
  is_object = λ j. (j == 0) || ((j == 2) || ((j == 3) || (j == 12)));
  members = members_of;
  elements = λ j. if j == 1 then some (2 ∷ 3 ∷ []) else none;
  int_of = λ j. if j == 10 then some (pos 7) else none;
  string_of = λ j. if j == 11 then some bomb_text else none;
  number_of = λ j. if j == 13 then some 300 else none;
  get_float = λ j. 0;
}

bomb_loaded :
    ((load_gimmick tenths nodes wall 2).type ≡ 13)
    × ((load_gimmick tenths nodes wall 2).hp ≡ pos 30)
unfolding load_gimmick properties_of load_properties put_property find_property eq_id
    convert_gimmick_type_to_enum
bomb_loaded = (refl, refl)

-- the second of the two takes the place of the first
second_stays : map (λ g. g.gimmick_id) (load_map_data tenths nodes wall (some 0) []) ≡ pos 7 ∷ []
unfolding load_map_data load_gimmicks load_gimmick put_gimmick eq_id
second_stays = refl

reset-load_gimmick_example :
    let g = load_gimmick tenths nodes wall 2 in
    let g' = reset tenths (history tenths (interacts (request 4 99) ∷ ticks (pos 0) 2 ∷ []) g) in
    (g'.hp ≡ g.hp)
    × (g'.current_state ≡ g.current_state)
    × (g'.position ≡ g.start_pos)
    × (g'.interactor_uuids ≡ g.interactor_uuids)
reset-load_gimmick_example =
    reset-load_gimmick tenths nodes wall 2 (interacts (request 4 99) ∷ ticks (pos 0) 2 ∷ [])
