-- ===== src/Gimmicks/MapNames.antt =====
-- The names in a map file, as bytes, and `ConvertGimmickTypeToEnum` of Server/GameServer/GimmickData.h.
use project_run_server.Base.{ℕ, List, [], ◌∷◌, if◌then◌else◌}
use project_run_server.Users.{eq_id}

abbrev pub Text : Type 0
Text = List ℕ

-- "gimmicks"
abbrev pub gimmicks_name : Text
gimmicks_name = 103 ∷ 105 ∷ 109 ∷ 109 ∷ 105 ∷ 99 ∷ 107 ∷ 115 ∷ []

-- "gimmick_id"
abbrev pub gimmick_id_name : Text
gimmick_id_name = 103 ∷ 105 ∷ 109 ∷ 109 ∷ 105 ∷ 99 ∷ 107 ∷ 95 ∷ 105 ∷ 100 ∷ []

-- "type"
abbrev pub type_name : Text
type_name = 116 ∷ 121 ∷ 112 ∷ 101 ∷ []

-- "position"
abbrev pub position_name : Text
position_name = 112 ∷ 111 ∷ 115 ∷ 105 ∷ 116 ∷ 105 ∷ 111 ∷ 110 ∷ []

-- "x"
abbrev pub x_name : Text
x_name = 120 ∷ []

-- "y"
abbrev pub y_name : Text
y_name = 121 ∷ []

-- "z"
abbrev pub z_name : Text
z_name = 122 ∷ []

-- "start_pos"
abbrev pub start_pos_name : Text
start_pos_name = 115 ∷ 116 ∷ 97 ∷ 114 ∷ 116 ∷ 95 ∷ 112 ∷ 111 ∷ 115 ∷ []

-- "end_pos"
abbrev pub end_pos_name : Text
end_pos_name = 101 ∷ 110 ∷ 100 ∷ 95 ∷ 112 ∷ 111 ∷ 115 ∷ []

-- "properties"
abbrev pub properties_name : Text
properties_name = 112 ∷ 114 ∷ 111 ∷ 112 ∷ 101 ∷ 114 ∷ 116 ∷ 105 ∷ 101 ∷ 115 ∷ []

-- "HP"
abbrev pub hp_name : Text
hp_name = 72 ∷ 80 ∷ []

-- "Weight"
abbrev pub weight_name : Text
weight_name = 87 ∷ 101 ∷ 105 ∷ 103 ∷ 104 ∷ 116 ∷ []

-- "IsBombOnly"
abbrev pub bomb_only_name : Text
bomb_only_name = 73 ∷ 115 ∷ 66 ∷ 111 ∷ 109 ∷ 98 ∷ 79 ∷ 110 ∷ 108 ∷ 121 ∷ []

-- "MoveSpeed"
abbrev pub move_speed_name : Text
move_speed_name = 77 ∷ 111 ∷ 118 ∷ 101 ∷ 83 ∷ 112 ∷ 101 ∷ 101 ∷ 100 ∷ []

-- "ActivationType"
abbrev pub activation_type_name : Text
activation_type_name =
    65 ∷ 99 ∷ 116 ∷ 105 ∷ 118 ∷ 97 ∷ 116 ∷ 105 ∷ 111 ∷ 110 ∷ 84 ∷ 121 ∷ 112 ∷ 101 ∷ []

-- "WaitTime"
abbrev pub wait_time_name : Text
wait_time_name = 87 ∷ 97 ∷ 105 ∷ 116 ∷ 84 ∷ 105 ∷ 109 ∷ 101 ∷ []

-- "SpawnGimmickKey"
abbrev pub spawn_gimmick_key_name : Text
spawn_gimmick_key_name =
    83 ∷ 112 ∷ 97 ∷ 119 ∷ 110 ∷ 71 ∷ 105 ∷ 109 ∷ 109 ∷ 105 ∷ 99 ∷ 107 ∷ 75 ∷ 101 ∷ 121 ∷ []

-- "MonsterType"
abbrev pub monster_type_name : Text
monster_type_name = 77 ∷ 111 ∷ 110 ∷ 115 ∷ 116 ∷ 101 ∷ 114 ∷ 84 ∷ 121 ∷ 112 ∷ 101 ∷ []

-- "AssignMonsterID"
abbrev pub assign_monster_id_name : Text
assign_monster_id_name =
    65 ∷ 115 ∷ 115 ∷ 105 ∷ 103 ∷ 110 ∷ 77 ∷ 111 ∷ 110 ∷ 115 ∷ 116 ∷ 101 ∷ 114 ∷ 73 ∷ 68 ∷ []

-- "Damage"
abbrev pub damage_name : Text
damage_name = 68 ∷ 97 ∷ 109 ∷ 97 ∷ 103 ∷ 101 ∷ []

-- the names of the types, with the numbers of `eGimmickKey`
abbrev pub gimmick_types : List (Text × ℕ)
gimmick_types =
    -- "BreakableWall"
    (66 ∷ 114 ∷ 101 ∷ 97 ∷ 107 ∷ 97 ∷ 98 ∷ 108 ∷ 101 ∷ 87 ∷ 97 ∷ 108 ∷ 108 ∷ [], 1)
    ∷
        -- "Button"
        (66 ∷ 117 ∷ 116 ∷ 116 ∷ 111 ∷ 110 ∷ [], 2)
    ∷
        -- "MovableObject"
        (77 ∷ 111 ∷ 118 ∷ 97 ∷ 98 ∷ 108 ∷ 101 ∷ 79 ∷ 98 ∷ 106 ∷ 101 ∷ 99 ∷ 116 ∷ [], 3)
    ∷
        -- "Bridge"
        (66 ∷ 114 ∷ 105 ∷ 100 ∷ 103 ∷ 101 ∷ [], 4)
    ∷
        -- "SeeSaw"
        (83 ∷ 101 ∷ 101 ∷ 83 ∷ 97 ∷ 119 ∷ [], 5)
    ∷
        -- "FallingPlatform"
        (
          70 ∷ 97 ∷ 108 ∷ 108 ∷ 105 ∷ 110 ∷ 103 ∷ 80 ∷ 108 ∷ 97 ∷ 116 ∷ 102 ∷ 111 ∷ 114 ∷ 109 ∷ [],
          7,
        )
    ∷
        -- "MovePlatform"
        (77 ∷ 111 ∷ 118 ∷ 101 ∷ 80 ∷ 108 ∷ 97 ∷ 116 ∷ 102 ∷ 111 ∷ 114 ∷ 109 ∷ [], 8)
    ∷
        -- "Wind"
        (87 ∷ 105 ∷ 110 ∷ 100 ∷ [], 9)
    ∷
        -- "NextZone"
        (78 ∷ 101 ∷ 120 ∷ 116 ∷ 90 ∷ 111 ∷ 110 ∷ 101 ∷ [], 10)
    ∷
        -- "Checkpoint"
        (67 ∷ 104 ∷ 101 ∷ 99 ∷ 107 ∷ 112 ∷ 111 ∷ 105 ∷ 110 ∷ 116 ∷ [], 11)
    ∷
        -- "BreakableObj"
        (66 ∷ 114 ∷ 101 ∷ 97 ∷ 107 ∷ 97 ∷ 98 ∷ 108 ∷ 101 ∷ 79 ∷ 98 ∷ 106 ∷ [], 12)
    ∷
        -- "Bomb"
        (66 ∷ 111 ∷ 109 ∷ 98 ∷ [], 13)
    ∷
        -- "MonsterSpawnArea"
        (
          77 ∷ 111 ∷ 110 ∷ 115 ∷ 116 ∷ 101 ∷ 114 ∷ 83 ∷ 112 ∷ 97 ∷ 119 ∷ 110 ∷ 65 ∷ 114 ∷ 101 ∷ 97
              ∷ [],
          14,
        )
    ∷ []

abbrev pub type_in : List (Text × ℕ) → Text → ℕ
type_in [] s = 0
type_in ((name, key) ∷ types) s = let rest = type_in types s in if eq_id name s then key else rest

-- `ConvertGimmickTypeToEnum`
unfoldable pub convert_gimmick_type_to_enum : Text → ℕ
convert_gimmick_type_to_enum s = type_in gimmick_types s
