-- ===== src/Lobby/Decoding.antt =====
-- A client's request arrives at its handler as it was sent.
use project_run_server.Base.{
  ℕ, zero, suc, ◌^◌, take, drop, arith, ap₂, subst, ◌≡◌, ◌∙◌, refl, ap, not, true, false, List, [],
  ◌∷◌, Option, none, some, ℤ, ◌==◌,
}
use project_run_server.Packets.{c_string}
use project_run_server.Lobby.Session.{process_login}
use project_run_server.Packets.Layout.{
  Layout, Value, number, text, all_fit, encode, unsigned, int32_value,
}
use project_run_server.Packets.LobbyStructs.{
  login_request_packet, room_char_select_req_packet, room_enter_request_packet,
  room_chat_request_packet,
}
use project_run_server.Packets.GameStructs.{player_ready_request_packet}
use project_run_server.Packets.Reading.{in_int32, field, uint_at, int32_at, signed, signed-unsigned}
use project_run_server.Packets.Wire.{decode_at-encode}
use project_run_server.Lobby.{Lobby}
use project_run_server.Lobby.Dispatch.{
  Request, login_request, room_enter_request, room_leave_request, room_chat_request,
  room_char_select_req, game_start_request, player_ready_request, process_recv_packet,
}
use project_run_server.Lobby.Wire.{
  process_packet, request_of, client_form, is_plain, has_zero, packet_with,
}

-- an INT32 field that was written is read
int32_read :
    (b : List ℕ) (i : ℕ) (x : ℤ)
    → number (uint_at i 4 b) ≡ int32_value x
    → in_int32 x ≡ true
    → int32_at i b ≡ x
int32_read b i x e h =
    let same : uint_at i 4 b ≡ unsigned (2 ^ 32) x = cc in
    ap (signed (2 ^ 32)) same ∙ signed-unsigned x h

c_string-c_string : (s : List ℕ) → c_string (c_string s) ≡ c_string s
unfolding c_string
c_string-c_string [] = refl
c_string-c_string (zero ∷ s) = refl
c_string-c_string (suc c ∷ s) = ap (◌∷◌ (suc c)) (c_string-c_string s)

-- A string that ends within `n` bytes.
c_string-take : (n : ℕ) (s : List ℕ) → has_zero (take n s) ≡ true → c_string s ≡ c_string (take n s)
unfolding c_string
c_string-take zero s h = absurd (cc)
c_string-take (suc n) [] h = absurd (cc)
c_string-take (suc n) (zero ∷ s) h = refl
c_string-take (suc n) (suc c ∷ s) h = ap (◌∷◌ (suc c)) (c_string-take n s (ground (arith, h)))

-- a request as it is read: a name without what stands behind it
abbrev as_read : Request → Request
as_read (login_request id) = login_request (c_string id)
as_read q = q

as_read_lem :
    (to_string : ℕ → List ℕ) (draw : ℕ → ℕ) (u : ℕ) (q : Request) (s : Lobby)
    → process_recv_packet to_string draw u (as_read q) s ≡ process_recv_packet to_string draw u q s
unfolding process_recv_packet process_login
as_read_lem to_string draw u (login_request id) s = rw (c_string-c_string id) refl
as_read_lem to_string draw u q s = refl

-- The packet of a form, if there is one, is read as the request.
abbrev Reads : ℤ → Request → Option (Layout × List Value) → Type 0
Reads now q none = Unit
Reads now q (some (l, vs)) =
    all_fit l.fields vs ≡ true → request_of now (packet_with l vs) ≡ as_read q

client_form-Reads :
    (now : ℤ) (pw : List ℕ) (q : Request) → is_plain q ≡ true → Reads now q (client_form pw q)
unfolding client_form request_of
client_form-Reads now pw (login_request id) h = λ fit.
    let b = encode login_request_packet (text id ∷ text pw ∷ []) in
    let e = decode_at-encode login_request_packet (text id ∷ text pw ∷ []) fit in
    let name : take 33 (drop 5 b) ≡ id = cc in
    let ends : has_zero (take 33 (drop 5 b)) ≡ true = ap has_zero name ∙ h in
    ap login_request (c_string-take 33 (drop 5 b) ends ∙ ap c_string name)
client_form-Reads now pw (room_enter_request n title) h = λ fit.
    let b = encode room_enter_request_packet (int32_value n ∷ text title ∷ []) in
    let e = decode_at-encode room_enter_request_packet (int32_value n ∷ text title ∷ []) fit in
    let room = int32_read b 5 n (cc) h in
    let name : field 9 32 b ≡ title = cc in ap₂ room_enter_request room name
client_form-Reads now pw room_leave_request h = λ fit. refl
client_form-Reads now pw (room_chat_request msg) h =
    λ fit. let e = decode_at-encode room_chat_request_packet (text msg ∷ []) fit in cc
client_form-Reads now pw (room_char_select_req c) h = λ fit.
    let e = decode_at-encode room_char_select_req_packet (int32_value c ∷ []) fit in
    ap room_char_select_req
      (int32_read (encode room_char_select_req_packet (int32_value c ∷ [])) 5 c (cc) h)
client_form-Reads now pw game_start_request h = λ fit. refl
client_form-Reads now pw (player_ready_request true) h = λ fit.
    let e = decode_at-encode player_ready_request_packet (number 1 ∷ []) fit in
    let one : uint_at 5 1 (encode player_ready_request_packet (number 1 ∷ [])) ≡ 1 = cc in
    ap (λ k. player_ready_request (not (k == 0))) one
client_form-Reads now pw (player_ready_request false) h = λ fit.
    let e = decode_at-encode player_ready_request_packet (number 0 ∷ []) fit in
    let none_set : uint_at 5 1 (encode player_ready_request_packet (number 0 ∷ [])) ≡ 0 = cc in
    ap (λ k. player_ready_request (not (k == 0))) none_set
client_form-Reads now pw _ h = tt

request_of-encode :
    (now : ℤ) (pw : List ℕ) (q : Request) (l : Layout) (vs : List Value)
    → client_form pw q ≡ some (l, vs)
    → all_fit l.fields vs ≡ true
    → is_plain q ≡ true
    → request_of now (packet_with l vs) ≡ as_read q
request_of-encode now pw q l vs e fit h = subst (Reads now q) e (client_form-Reads now pw q h) fit

-- What a client's request does in the lobby when its packet comes off the buffer is what the
-- request means: a login, entering or leaving a room, a chat message, a character, a ready mark or
-- a game start that was laid out by its struct, with values that the fields can hold, numbers in
-- the range of INT32 and a login name that ends with a zero byte within its field, is handled with
-- exactly these values.
pub process_packet-encode :
    (to_string : ℕ → List ℕ) (draw : ℕ → ℕ) (now : ℤ) (u : ℕ) (pw : List ℕ) (q : Request)
    (l : Layout) (vs : List Value) (s : Lobby)
    → client_form pw q ≡ some (l, vs)
    → all_fit l.fields vs ≡ true
    → is_plain q ≡ true
    → process_packet to_string draw now u (packet_with l vs) s
      ≡ process_recv_packet to_string draw u q s
unfolding process_packet
process_packet-encode to_string draw now u pw q l vs s e fit h =
    ap (λ k. process_recv_packet to_string draw u k s) (request_of-encode now pw q l vs e fit h)
    ∙ as_read_lem to_string draw u q s
