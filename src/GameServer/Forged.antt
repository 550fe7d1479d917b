-- ===== src/GameServer/Forged.antt =====
-- What a client's packet can do through the table that clients and Redis share, and how a client's
-- packet can end the server.
use project_run_server.Base.{
  ℕ, ◌≡◌, ◌==◌, ◌&&◌, ◌||◌, refl, Bool, true, false, List, [], ◌∷◌, Option, none, some, ℤ, ltb,
  length, drop, if◌then◌else◌,
}
use project_run_server.Packets.{c_string}
use project_run_server.PacketBuffer.{Packet}
use project_run_server.Users.{is_room}
use project_run_server.GameRoom.{FloatOps, GameRoom}
use project_run_server.Gimmicks.{GimmickFloats}
use project_run_server.Redis.Tasks.{starts_with}
use project_run_server.GameServer.{user_of}
use project_run_server.GameServer.Access.{process_auth_db_result}
use project_run_server.GameServer.Play.{room_of}
use project_run_server.GameServer.Relays.{World, effects}
use project_run_server.GameServer.Chat.{time_command}
use project_run_server.GameServer.Dispatch.{
  Handler, room_chat_message, find_handler, Clock, handle, process_recv_packet,
  process_client_packet,
}
use project_run_server.Packets.Reading.{field, uint_at}
use project_run_server.GameServer.Joining.{admitted}

-- the text of a chat request
abbrev pub chat_text : Packet → List ℕ
chat_text p = c_string (field 5 257 p.payload)

-- only `id` is registered for the chat handler
abbrev is_chat : Handler → Bool
is_chat room_chat_message = true
is_chat _ = false

abbrev chats_at : ℕ → List (ℕ × Handler) → Bool
chats_at id [] = true
chats_at id ((k, h) ∷ table) = (if is_chat h then k == id else true) && chats_at id table

module _ {F : Type 0} (fl : FloatOps F) (gl : GimmickFloats F) (bits : F → ℕ) (of_bits : ℕ → F)
    (stoi : List ℕ → Option ℤ) where
  -- A packet of a client with the id of the answer that a token is valid, and with a type byte of
  -- 1, is taken for that answer: what it does is what a valid token does, and the user is in the
  -- room state then.
  pub process_client_packet-forged :
      (c : Clock) (w : World F) (u : ℕ) (p : Packet)
      → p.packet_id ≡ 1014
      → uint_at 4 1 p.payload ≡ 1
      → let (g, es) = process_auth_db_result fl w.game u true in
        (process_client_packet fl gl bits of_bits stoi c w u p
          ≡ some (record w { game = g }, effects fl gl bits es))
        × (is_room (user_of g u).domain_state ≡ true)
  unfolding process_client_packet process_recv_packet handle find_handler
  process_client_packet-forged c w u p id type =
      (rw (id, process_client_packet, process_recv_packet, type, handle) refl, admitted fl w.game u)

  -- a text of less than seven bytes, or one that `std::stoi` refuses from the eighth on
  abbrev pub bad_time : List ℕ → Bool
  bad_time cmd = ltb (length cmd) 7 || (elim (stoi (drop 7 cmd)) [ none ↦ true | some t ↦ false ])

  -- a user in a room sends "/t add" with such a text
  abbrev pub is_fatal : World F → ℕ → Packet → Bool
  is_fatal w u p =
      (p.packet_id == 231)
      && (elim (room_of fl w.game u) [ none ↦ false | some (k, r) ↦ true ])
      && starts_with time_command (chat_text p)
      && bad_time (chat_text p)
