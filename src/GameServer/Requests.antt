-- ===== src/GameServer/Requests.antt =====
-- The fields that the handlers read are those of the packet structs.
use project_run_server.Base.{
  ℕ, ap, ◌∙◌, zero, suc, ◌&&◌, length, Option, some, ◌≡◌, ◌^◌, Bool, true, List, [], ◌∷◌, arith, ℤ,
  pos, negsuc, map, refl,
}
use project_run_server.Packets.Reading.{signed, in_int32, signed-unsigned}
use project_run_server.Packets.Layout.{
  int32_value, FieldType, int32, text, Value, number, all_fit, encode,
}
use project_run_server.Packets.GameStructs.{
  player_gimmick_interact_request_packet, dungeon_escape_req_packet, game_auth_request_packet,
}
use project_run_server.Packets.Wire.{decode_at, decode_at-encode}
use project_run_server.GameRoom.{FloatOps, Totals, listed}
use project_run_server.Gimmicks.{GimmickFloats}
use project_run_server.GameServer.Relays.{World, effects}
use project_run_server.GameServer.Access.{process_game_server_auth}
use project_run_server.Packets.Ids
use project_run_server.GameServer.Dispatch.{
  Clock, handle, find_handler, process_recv_packet, process_client_packet, gimmick_request,
  totals_at,
}

abbrev pub all_int32 : List ℤ → Bool
all_int32 [] = true
all_int32 (x ∷ xs) = in_int32 x && all_int32 xs

abbrev int32s : ℕ → List FieldType
int32s zero = []
int32s (suc n) = int32 ∷ int32s n

int32s_fit :
    (xs : List ℤ) → all_int32 xs ≡ true → all_fit (int32s (length xs)) (map int32_value xs) ≡ true
unfolding all_fit
int32s_fit [] h = refl
int32s_fit (pos n ∷ xs) h = ground (arith, h, int32s_fit xs)
int32s_fit (negsuc n ∷ xs) h = ground (arith, h, int32s_fit xs)

abbrev value_int32 : Value → ℤ
value_int32 (number n) = signed (2 ^ 32) n
value_int32 (text s) = pos 0

map-value_int32 : (xs : List ℤ) → all_int32 xs ≡ true → map value_int32 (map int32_value xs) ≡ xs
map-value_int32 [] h = refl
map-value_int32 (x ∷ xs) h =
    let first = signed-unsigned x (ground (arith, h)) in
    rw (first, map-value_int32 xs (ground (arith, h))) refl

-- The gimmick request that the game server reads from the bytes of a
-- PLAYER_GIMMICK_INTERACT_REQUEST_PACKET has the values that were written, each in its field, where
-- signed fields wrap as two's complement does.
pub gimmick_request-encode :
    {F : Type 0} (of_bits : ℕ → F) (a i k s x y z p t : ℕ)
    → let vs = map number (a ∷ i ∷ k ∷ s ∷ x ∷ y ∷ z ∷ p ∷ t ∷ []) in
      all_fit player_gimmick_interact_request_packet.fields vs ≡ true
      → gimmick_request of_bits (encode player_gimmick_interact_request_packet vs) ≡ record {
        active_uuid = signed (2 ^ 64) a;
        gimmick_id = signed (2 ^ 32) i;
        gimmick_key = k;
        state = s;
        target_pos = record { x = of_bits x; y = of_bits y; z = of_bits z };
        param = of_bits p;
        timestamp = signed (2 ^ 64) t;
      }
unfolding gimmick_request
gimmick_request-encode of_bits a i k s x y z p t fit =
    let e =
      decode_at-encode player_gimmick_interact_request_packet
        (map number (a ∷ i ∷ k ∷ s ∷ x ∷ y ∷ z ∷ p ∷ t ∷ [])) fit in
    cc

read_totals :
    (b : List ℕ) (t : Totals)
    → map value_int32 (decode_at 5 (int32s 10) b) ≡ listed t
    → totals_at 5 b ≡ t
unfolding totals_at
read_totals b t e = cc

-- The totals that the game server reads from the bytes of a DUNGEON_ESCAPE_REQ_PACKET are those
-- that were written, negative ones too, if each is in the range of INT32.
pub totals_at-encode :
    (t : Totals)
    → all_int32 (listed t) ≡ true
    → totals_at 5 (encode dungeon_escape_req_packet (map int32_value (listed t))) ≡ t
totals_at-encode t h =
    let vs = map int32_value (listed t) in
    let e = decode_at-encode dungeon_escape_req_packet vs (int32s_fit (listed t) h) in
    read_totals (encode dungeon_escape_req_packet vs) t
      (ap (map value_int32) e ∙ map-value_int32 (listed t) h)

-- A GAME_AUTH_REQUEST_PACKET of a client makes the game server check exactly the token, the name
-- and the character that the client wrote into it.
pub process_client_packet-auth :
    {F : Type 0} (fl : FloatOps F) (gl : GimmickFloats F) (bits : F → ℕ) (of_bits : ℕ → F)
    (stoi : List ℕ → Option ℤ) (c : Clock) (w : World F) (u size : ℕ) (auth_token name : List ℕ)
    (char : ℕ)
    → let vs = text auth_token ∷ text name ∷ number char ∷ [] in
      all_fit game_auth_request_packet.fields vs ≡ true
      → let (g, es) = process_game_server_auth fl w.game u auth_token name (signed (2 ^ 32) char) in
        process_client_packet fl gl bits of_bits stoi c w u (record {
          packet_id = Ids.packet_number Ids.game_auth_request;
          data_size = size;
          payload = encode game_auth_request_packet vs;
        })
        ≡ some (record w { game = g }, effects fl gl bits es)
unfolding process_client_packet process_recv_packet handle find_handler
process_client_packet-auth fl gl bits of_bits stoi c w u size auth_token name char fit =
    let vs = text auth_token ∷ text name ∷ number char ∷ [] in
    let e = decode_at-encode game_auth_request_packet vs fit in cc
