-- ===== src/GameServer/Loop.antt =====
-- `ProcessPacket` of Game_PacketManager.cpp: one round of the packet thread over its three sources, the
-- packets of clients, those of the system and of UDP, and the answers of Redis.
use project_run_server.Base.{
  ℕ, zero, suc, ◌-◌, ◌^◌, ◌==◌, Bool, List, [], ◌∷◌, ◌++◌, map, Option, none, some, ℤ, pos, leb,
  length, replicate, if◌then◌else◌,
}
use project_run_server.Packets.Layout.{
  FieldType, Value, number, text, int8, int16, int32, int64, chars, repeated, unsigned, int32_value,
  encode_fields, total_width,
}
use project_run_server.PacketBuffer.{Packet}
use project_run_server.PacketQueue.{deque_packet_data_once}
use project_run_server.Users.{Users}
use project_run_server.GameRoom.{FloatOps}
use project_run_server.Gimmicks.{GimmickFloats}
use project_run_server.Redis.{
  RedisResponse, response_login, response_verify_token, response_load_inventory,
  response_shop_update, response_shop_buy, response_notice,
}
use project_run_server.GameServer.Relays.{World, WorldEffect}
use project_run_server.GameServer.Dispatch.{Clock, process_recv_packet}

abbrev pub bool_value : Bool → Value
bool_value b = number (if b then 1 else 0)

-- a char array with a text in it, filled up with zeros
abbrev pub padded : ℕ → List ℕ → Value
padded n s = text (s ++ replicate (n - length s) 0)

-- the task id and the bytes of an answer
abbrev answer : ℕ → List FieldType → List Value → Packet
answer id ts vs = record {
  packet_id = id;
  data_size = total_width ts;
  payload = encode_fields ts vs;
}

-- `PushTypedResponse`: the user and the bytes of the struct, with the padding that its alignment asks for
unfoldable pub response_packet : RedisResponse → ℤ × Packet
response_packet (response_login u result id) =
    (u, answer 1011 (int16 ∷ chars 33 ∷ int8 ∷ []) (number result ∷ padded 33 id ∷ number 0 ∷ []))
response_packet (response_verify_token u ru is_valid) = (
  u,
  answer 1014 (int32 ∷ int8 ∷ chars 3 ∷ [])
      (int32_value ru ∷ bool_value is_valid ∷ padded 3 [] ∷ []),
)
response_packet (response_load_inventory u ru slots) =
    (u, answer 1092 (int32 ∷ repeated 5 (int32 ∷ [])) (map int32_value (ru ∷ slots)))
response_packet (response_shop_update item next) = (
  pos 0,
  answer 1101 (int32 ∷ int32 ∷ int64 ∷ []) (int32_value item ∷ number 0 ∷ number next ∷ []),
)
response_packet (response_shop_buy u success) =
    (u, answer 1103 (int8 ∷ []) (bool_value success ∷ []))
response_packet (response_notice id message) =
    (pos 0, answer 1002 (chars 33 ∷ chars 256 ∷ []) (padded 33 id ∷ padded 256 message ∷ []))

-- the packet thread's view of the server
pub record Server (F : Type 0) : Type 0 where
  pub world : World F
  pub in_coming_packet_user_index : List ℕ
  pub system_packet_queue : List (ℕ × Packet)
  pub response_task : List RedisResponse

-- a loop that came to its end, one that an exception broke off, or one whose fuel ran out
pub data Round (F : Type 0) : Type 0 where
  done : Server F → List (WorldEffect F) → Round F
  thrown : Round F
  out_of_fuel : Round F

module _ {F : Type 0} (fl : FloatOps F) (gl : GimmickFloats F) (bits : F → ℕ) (of_bits : ℕ → F)
    (stoi : List ℕ → Option ℤ) where
  abbrev pub users_of : Server F → Users
  users_of s = s.world.game.users.user_obj_pool

  abbrev pub set_users : Users → World F → World F
  set_users us w = record w {
    game = record w.game { users = record w.game.users { user_obj_pool = us } };
  }

  -- what follows a packet that was handled
  abbrev pub after : List (WorldEffect F) → Round F → Round F
  after es (done s more) = done s (es ++ more)
  after es thrown = thrown
  after es out_of_fuel = out_of_fuel

  -- the loop over the packets of clients
  unfoldable pub client_loop : ℕ → Clock → Server F → Round F
  client_loop zero c s = out_of_fuel
  client_loop (suc fuel) c s =
      let (taken, inc) = deque_packet_data_once (users_of s) s.in_coming_packet_user_index in
      let w = set_users inc.users s.world in
      let s1 = record s { world = w; in_coming_packet_user_index = inc.queue } in
      elim taken [
        | none ↦ done s1 []
        | some (u, p) ↦
            if leb p.packet_id 30
            then done s1 []
            else elim (process_recv_packet fl gl bits of_bits stoi c w u p) [
              | none ↦ thrown
              | some (w2, es) ↦ after es (client_loop fuel c (record s1 { world = w2 }))
            ]
      ]

  -- the loop over the packets of the system and of UDP
  unfoldable pub system_loop : ℕ → Clock → Server F → Round F
  system_loop zero c s = out_of_fuel
  system_loop (suc fuel) c s = elim s.system_packet_queue [
    | [] ↦ done s []
    | (u, p) ∷ q ↦
        if p.packet_id == 0
        then done (record s { system_packet_queue = q }) []
        else elim (process_recv_packet fl gl bits of_bits stoi c s.world u p) [
          | none ↦ thrown
          | some (w, es) ↦
              after es (system_loop fuel c (record s { world = w; system_packet_queue = q }))
        ]
  ]

  -- the loop over the answers of Redis
  unfoldable pub redis_loop : ℕ → Clock → Server F → Round F
  redis_loop zero c s = out_of_fuel
  redis_loop (suc fuel) c s = elim s.response_task [
    | [] ↦ done s []
    | r ∷ rs ↦
        let (u, p) = response_packet r in
        elim (process_recv_packet fl gl bits of_bits stoi c s.world (unsigned (2 ^ 32) u) p) [
          | none ↦ thrown
          | some (w, es) ↦ after es (redis_loop fuel c (record s { world = w; response_task = rs }))
        ]
  ]

  abbrev pub and_then : Round F → (Server F → Round F) → Round F
  and_then (done s es) f = after es (f s)
  and_then thrown f = thrown
  and_then out_of_fuel f = out_of_fuel

  -- one round of `ProcessPacket`
  unfoldable pub process_packet : ℕ → Clock → Server F → Round F
  process_packet fuel c s =
      and_then (client_loop fuel c s)
        (λ s1. and_then (system_loop fuel c s1) (λ s2. redis_loop fuel c s2))
