-- ===== src/Gimmicks/Loading.antt =====
-- `LoadMapData` of Server/GameServer/GimmickManager.cpp. The JSON parser is a library: a value of its
-- documents is of a type `J`, with the operations that the code calls. What `ServerGimmickData` leaves
-- without a value stands in an argument.
use project_run_server.Base.{
  Bool, false, List, [], ◌∷◌, Option, none, some, ℤ, pos, eq_ℤ, if◌then◌else◌,
}
use project_run_server.Users.{eq_id}
use project_run_server.Gimmicks.{GimmickFloats, Vector3, Gimmick}
use project_run_server.Gimmicks.Interact.{zero_f}
use project_run_server.Gimmicks.MapNames.{
  Text, gimmicks_name, gimmick_id_name, type_name, position_name, x_name, y_name, z_name,
  start_pos_name, end_pos_name, properties_name, hp_name, weight_name, bomb_only_name,
  move_speed_name, activation_type_name, wait_time_name, spawn_gimmick_key_name, monster_type_name,
  assign_monster_id_name, damage_name, convert_gimmick_type_to_enum,
}

-- a value of a document: a member by its name, all members, the elements if it is an array, and its
-- value as a type, which is `none` where the test of the type fails; `get_float` does not test
pub record Json (J F : Type 0) : Type 0 where
  pub member : J → Text → Option J
  pub is_object : J → Bool
  pub members : J → List (Text × J)
  pub elements : J → Option (List J)
  pub int_of : J → Option ℤ
  pub string_of : J → Option Text
  pub number_of : J → Option F
  pub get_float : J → F

-- the fields of `ServerGimmickData` that only `LoadMapData` uses
pub record MapOnly (F : Type 0) : Type 0 where
  pub end_pos : Vector3 F
  pub damage : F
  pub move_speed : F
  pub spawn_gimmick_key : ℤ

-- `properties`
abbrev pub Properties : Type 0 → Type 0
Properties F = List (Text × F)

-- `properties[name] = value`
unfoldable pub put_property : {F : Type 0} → Text → F → Properties F → Properties F
put_property name v [] = (name, v) ∷ []
put_property name v ((n, w) ∷ ps) =
    let rest = put_property name v ps in if eq_id name n then (name, v) ∷ ps else (n, w) ∷ rest

-- `properties.find(name)`
unfoldable pub find_property : {F : Type 0} → Text → Properties F → Option F
find_property name [] = none
find_property name ((n, w) ∷ ps) =
    let rest = find_property name ps in if eq_id name n then some w else rest

-- `mGimmicks[id] = data`
unfoldable pub put_gimmick : {F : Type 0} → Gimmick F → List (Gimmick F) → List (Gimmick F)
put_gimmick g [] = g ∷ []
put_gimmick g (h ∷ gs) =
    let rest = put_gimmick g gs in if eq_ℤ h.gimmick_id g.gimmick_id then g ∷ gs else h ∷ rest

-- `mGimmicks.find(id)`
unfoldable pub find_gimmick : {F : Type 0} → ℤ → List (Gimmick F) → Option (Gimmick F)
find_gimmick id [] = none
find_gimmick id (h ∷ gs) =
    let rest = find_gimmick id gs in if eq_ℤ h.gimmick_id id then some h else rest

abbrev pub or_else : {A : Type 0} → Option A → A → A
or_else none d = d
or_else (some a) d = a

module _ {F J : Type 0} (fl : GimmickFloats F) (json : Json J F) where
  -- `pos.HasMember("x") ? pos["x"].GetFloat() : 0.0f`
  abbrev pub coordinate : J → Text → F
  coordinate j name = elim (json.member j name) [ none ↦ zero_f fl | some v ↦ json.get_float v ]

  -- a vector, if the member is there and is an object
  unfoldable pub vector_at : J → Text → Option (Vector3 F)
  vector_at j name = elim (json.member j name) [
    | none ↦ none
    | some v ↦
        if json.is_object v
        then some
            (record { x = coordinate v x_name; y = coordinate v y_name; z = coordinate v z_name })
        else none
  ]

  -- the loop over the members of the properties: the numbers among them are kept
  unfoldable pub load_properties : List (Text × J) → Properties F → Properties F
  load_properties [] ps = ps
  load_properties ((name, j) ∷ ms) ps = elim (json.number_of j) [
    | none ↦ load_properties ms ps
    | some v ↦ load_properties ms (put_property name v ps)
  ]

  unfoldable pub properties_of : J → Properties F
  properties_of j = elim (json.member j properties_name) [
    | none ↦ []
    | some p ↦ if json.is_object p then load_properties (json.members p) [] else []
  ]

  abbrev pub int_property : Text → Properties F → Option ℤ
  int_property name ps = elim (find_property name ps) [ none ↦ none | some v ↦ some (fl.trunc v) ]

  abbrev is_positive : Option F → Bool
  is_positive none = false
  is_positive (some v) = fl.less (zero_f fl) v

  -- the gimmick of an element, where `unset` has the fields that nothing sets
  unfoldable pub load_gimmick : Gimmick F → J → Gimmick F
  load_gimmick unset j =
      let ps = properties_of j in
      let position = or_else (vector_at j position_name) unset.position in
      record {
        gimmick_id = elim (json.member j gimmick_id_name) [
          | none ↦ unset.gimmick_id
          | some v ↦ or_else (json.int_of v) unset.gimmick_id
        ];
        type = elim (json.member j type_name) [
          | none ↦ unset.type
          | some v ↦ elim (json.string_of v) [
            | none ↦ unset.type
            | some s ↦ convert_gimmick_type_to_enum s
          ]
        ];
        position = position;
        start_pos = or_else (vector_at j start_pos_name) position;
        hp_property = find_property hp_name ps;
        current_state = 0;
        gimmick_recover_time = unset.gimmick_recover_time;
        hp = or_else (int_property hp_name ps) (pos 1);
        weight = or_else (int_property weight_name ps) (pos 1);
        is_bomb_only = is_positive (find_property bomb_only_name ps);
        activation_type =
            or_else (int_property assign_monster_id_name ps)
              (or_else (int_property activation_type_name ps) (pos 0));
        wait_time = or_else (find_property wait_time_name ps) (zero_f fl);
        is_returning = false;
        is_move_triggered = false;
        move_delay_timer = zero_f fl;
        is_interacting = false;
        interact_window_timer = zero_f fl;
        interactor_uuids = [];
        total_dir_x = zero_f fl;
        total_dir_z = zero_f fl;
        base_force = zero_f fl;
      }

  -- the rest of the element's data
  unfoldable pub load_map_only : J → MapOnly F
  load_map_only j =
      let ps = properties_of j in
      record {
        end_pos =
            or_else (vector_at j end_pos_name)
              (record { x = zero_f fl; y = zero_f fl; z = zero_f fl });
        damage = or_else (find_property damage_name ps) (zero_f fl);
        move_speed =
            if is_positive (find_property move_speed_name ps) then fl.ratio 1 1 else zero_f fl;
        spawn_gimmick_key =
            or_else (int_property monster_type_name ps)
              (or_else (int_property spawn_gimmick_key_name ps) (pos 0));
      }

  -- the loop over the array
  unfoldable pub load_gimmicks : Gimmick F → List J → List (Gimmick F) → List (Gimmick F)
  load_gimmicks unset [] gs = gs
  load_gimmicks unset (j ∷ js) gs = load_gimmicks unset js (put_gimmick (load_gimmick unset j) gs)

  -- `LoadMapData` for what the parser makes of the file, which is `none` if there is no file or it does
  -- not parse
  unfoldable pub load_map_data : Gimmick F → Option J → List (Gimmick F) → List (Gimmick F)
  load_map_data unset none gs = gs
  load_map_data unset (some doc) gs = elim (json.member doc gimmicks_name) [
    | none ↦ gs
    | some a ↦ elim (json.elements a) [
      | none ↦ gs
      | some js ↦ if json.is_object doc then load_gimmicks unset js gs else gs
    ]
  ]
