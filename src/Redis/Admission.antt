-- ===== src/Redis/Admission.antt =====
-- The servers together: the token that the lobby hands out at a game start, from the game server's
-- check of it; and the message that tells the lobby of an empty room.
use project_run_server.Base.{
  ℕ, zero, suc, ◌+◌, ◌<◌, ◌≡◌, refl, ap, ap₂, ◌∙◌, true, false, List, [], ◌∷◌, ◌++◌, some, ℤ, pos,
  arith, get_elem?, take,
}
use project_run_server.Packets.{c_string}
use project_run_server.Lobby.{Lobby, Effect, send, launch_game_server, set_auth_token}
use project_run_server.Users.{at_conn_idx, set_domain_state, game}
use project_run_server.Lobby.Match.{token, hand_over}
use project_run_server.GameRoom.{FloatOps}
use project_run_server.GameServer.{Game, verify_token as check_token}
use project_run_server.GameServer.Access.{process_game_server_auth}
use project_run_server.Redis.{
  Text, RedisConn, IsRedis, RedisTask, request_set_auth_token, request_verify_token,
  request_room_delete, response_verify_token, RedisManager, Chance, push_response,
}
use project_run_server.Redis.Tasks.{
  token_key, del_room, starts_with, on_message, verify_token, process_task,
}
use project_run_server.Redis.Tokens.{sets, verifies, eq_id_self}
use project_run_server.Redis.Handover.{All, process_tasks, stays, set_again}

-- No byte is 0.
abbrev pub NoZero : List ℕ → Type 0
NoZero = All (λ x. 0 < x)

NoZero-append : (xs ys : List ℕ) → NoZero xs → NoZero ys → NoZero (xs ++ ys)
NoZero-append [] ys a b = b
NoZero-append (x ∷ xs) ys (h, a) b = (h, NoZero-append xs ys a b)

c_string-take : (n : ℕ) (xs : List ℕ) → NoZero xs → c_string (take n xs) ≡ take n xs
unfolding c_string
c_string-take zero xs h = refl
c_string-take (suc n) [] h = refl
c_string-take (suc n) (zero ∷ xs) (h, a) = absurd (omega arith)
c_string-take (suc n) (suc x ∷ xs) (h, a) = ap (◌∷◌ (suc x)) (c_string-take n xs a)

take_twice : (n : ℕ) (xs : List ℕ) → take n (take n xs) ≡ take n xs
take_twice zero xs = refl
take_twice (suc n) [] = refl
take_twice (suc n) (x ∷ xs) = ap (◌∷◌ x) (take_twice n xs)

-- the tasks that the lobby pushes for its effects
unfoldable pub tasks_of : Chance → List Effect → List (Chance × RedisTask)
tasks_of ch [] = []
tasks_of ch (set_auth_token u t ∷ es) =
    (ch, request_set_auth_token (pos u) (pos u) t) ∷ tasks_of ch es
tasks_of ch (send u p ∷ es) = tasks_of ch es
tasks_of ch (launch_game_server port n ∷ es) = tasks_of ch es

verifies-tasks_of :
    (t : Text) (ch : Chance) (es : List Effect) → All (λ p. verifies t p.1 ≡ false) (tasks_of ch es)
unfolding tasks_of
verifies-tasks_of t ch [] = tt
verifies-tasks_of t ch (set_auth_token u s ∷ es) = (refl, verifies-tasks_of t ch es)
verifies-tasks_of t ch (send u p ∷ es) = verifies-tasks_of t ch es
verifies-tasks_of t ch (launch_game_server port n ∷ es) = verifies-tasks_of t ch es

module _ (to_string : ℕ → List ℕ) (draw : ℕ → ℕ) (digits : (n : ℕ) → NoZero (to_string n)) where
  -- a token arrives as it was handed out
  token_kept : (u d : ℕ) → take 63 (c_string (token to_string draw u d)) ≡ token to_string draw u d
  unfolding token
  token_kept u d =
      let rest =
        NoZero-append (to_string u) (95 ∷ to_string (draw d)) (digits u)
          (omega arith, digits (draw d)) in
      let whole : List ℕ = 84 ∷ 79 ∷ 75 ∷ 69 ∷ 78 ∷ 95 ∷ to_string u ++ 95 ∷ to_string (draw d) in
      let clean : NoZero whole = (
        omega arith,
        (omega arith, (omega arith, (omega arith, (omega arith, (omega arith, rest))))),
      ) in
      ap (take 63) (c_string-take 63 whole clean) ∙ take_twice 63 whole

  module _ {D : Type 0} (c : RedisConn D) (laws : IsRedis c) where
    -- the token of the `j`-th user is there after the tasks of the game start
    handed :
        (ch : Chance) (port d : ℕ) (us : List ℕ) (l : Lobby) (j u : ℕ) (r : RedisManager D)
        → get_elem? us j ≡ some u
        → (v : Text) × (c.get
              (token_key (token to_string draw u (d + j)))
              (process_tasks c (tasks_of ch (hand_over to_string draw port d us l).1) r).database
            ≡ some v)
    unfolding hand_over tasks_of process_tasks
    handed ch port d [] l j u r e = absurd (cc)
    handed ch port d (w ∷ us) l zero u r e =
        let t = token to_string draw u (d + 0) in
        let same : token to_string draw w d ≡ t =
          ap₂ (token to_string draw) (ground (arith, e)) (omega arith) in
        let task = request_set_auth_token (pos w) (pos w) (token to_string draw w d) in
        let mine : sets t task ≡ true = rw same (eq_id_self t) in
        let (v, there) = set_again c laws t ch task r mine in
        let l' = record l { users = at_conn_idx w (set_domain_state game) l.users } in
        let later = tasks_of ch (hand_over to_string draw port (d + 1) us l').1 in
        stays c laws t later (process_task c ch task r) v
          (verifies-tasks_of t ch (hand_over to_string draw port (d + 1) us l').1) there
    handed ch port d (w ∷ us) l (suc j) u r e =
        let l' = record l { users = at_conn_idx w (set_domain_state game) l.users } in
        let task = request_set_auth_token (pos w) (pos w) (token to_string draw w d) in
        let next : d + suc j ≡ (d + 1) + j = omega arith in
        rw next (handed ch port (d + 1) us l' j u (process_task c ch task r) e)

    -- Every token that `GenerateGameSession` hands out is good: a user of the game who sends it
    -- makes the game server ask for that very token, and once Redis has done the lobby's tasks,
    -- before any other and before it expires, the answer to the question is yes. This holds if the
    -- texts of numbers hold no zero byte and Redis obeys its laws.
    pub hand_over-admits :
        {F : Type 0} (fl : FloatOps F) (ch later : Chance) (port d : ℕ) (us : List ℕ) (l : Lobby)
        (j u : ℕ) (r : RedisManager D) (g : Game F) (v : ℕ) (name : List ℕ) (char : ℤ)
        → get_elem? us j ≡ some u
        → let t = token to_string draw u (d + j) in
          let r' = process_tasks c (tasks_of ch (hand_over to_string draw port d us l).1) r in
          ((process_game_server_auth fl g v t name char).1 ≡ check_token v t ∷ [])
          × ((process_task c later (request_verify_token (pos v) (pos v) t) r').response_task
              ≡ r'.response_task ++ response_verify_token (pos v) (pos v) true ∷ [])
    unfolding process_game_server_auth process_task verify_token push_response
    hand_over-admits fl ch later port d us l j u r g v name char e =
        let t = token to_string draw u (d + j) in
        let (w, there) = handed ch port d us l j u r e in
        (ap (λ s. check_token v s ∷ []) (token_kept u (d + j)), rw (there, verify_token) refl)

module _ {D : Type 0} (c : RedisConn D) (laws : IsRedis c) where
  -- The message that the game server publishes for a room deletion is read by the lobby as the
  -- deletion of that very room, whatever its number, and changes nothing else.
  pub on_message-room_delete :
      (ch : Chance) (u n : ℤ) (r s : RedisManager D)
      → (m : Text) × ((process_task c ch (request_room_delete u n) r).published
          ≡ r.published ++ m ∷ [])
        × (on_message c m s ≡ (some n, s))
  unfolding process_task on_message starts_with
  on_message-room_delete ch u n r s =
      (del_room ++ c.to_string n, refl, ap (λ k. (some k, s)) (laws.stoi-to_string n))
