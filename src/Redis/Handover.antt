-- ===== src/Redis/Handover.antt =====
-- Tokens over a history of tasks: one is valid at most once, and from when it is set.
use project_run_server.Base.{
  ◌≡◌, refl, ap, ◌∙◌, inl, inr, true, false, List, [], ◌∷◌, none, some, ℤ, Bool-cases, Option-cases,
}
use project_run_server.Redis.{
  Text, RedisConn, IsRedis, RedisTask, request_login, request_set_auth_token, request_verify_token,
  request_room_delete, request_notice, request_load_inventory, request_shop_update,
  request_shop_buy, other_task, response_verify_token, RedisManager, Chance, push_response,
}
use project_run_server.Redis.Tasks.{token_key, verify_token, process_task}
use project_run_server.Redis.Tokens.{sets, verifies, eq_id-eq, get-process_task}

abbrev pub All {ℓ κ} : {A : Type ℓ} → (A → Type κ) → List A → Type κ
All P [] = Unit
All P (x ∷ xs) = P x × All P xs

module _ {D : Type 0} (c : RedisConn D) where
  -- tasks taken one after the other, each with its chance
  unfoldable pub process_tasks : List (Chance × RedisTask) → RedisManager D → RedisManager D
  process_tasks [] r = r
  process_tasks ((ch, t) ∷ ts) r = process_tasks ts (process_task c ch t r)

module _ {D : Type 0} (c : RedisConn D) (laws : IsRedis c) where
  verify_gone :
      (t : Text) (ch : Chance) (task : RedisTask) (r : RedisManager D)
      → verifies t task ≡ true
      → c.get (token_key t) r.database ≡ none
      → c.get (token_key t) (process_task c ch task r).database ≡ none
  unfolding process_task verify_token push_response
  verify_gone t ch (request_login u id pw) r v e = absurd (cc)
  verify_gone t ch (request_set_auth_token u ru w) r v e = absurd (cc)
  verify_gone t ch (request_verify_token u ru w) r v e =
      let same : token_key t ≡ token_key w = ap token_key (eq_id-eq t w v) in
      let gone = rw same at e in rw (gone, verify_token) e
  verify_gone t ch (request_room_delete u n) r v e = absurd (cc)
  verify_gone t ch (request_notice u m) r v e = absurd (cc)
  verify_gone t ch (request_load_inventory u ru id) r v e = absurd (cc)
  verify_gone t ch (request_shop_update u command) r v e = absurd (cc)
  verify_gone t ch (request_shop_buy u id item) r v e = absurd (cc)
  verify_gone t ch (other_task n) r v e = absurd (cc)

  stays_gone :
      (t : Text) (ts : List (Chance × RedisTask)) (r : RedisManager D)
      → All (λ p. sets t p.1 ≡ false) ts
      → c.get (token_key t) r.database ≡ none
      → c.get (token_key t) (process_tasks c ts r).database ≡ none
  unfolding process_tasks
  stays_gone t [] r a e = e
  stays_gone t ((ch, task) ∷ ts) r (s, a) e = elim (Bool-cases (verifies t task)) [
    | inl v ↦ stays_gone t ts (process_task c ch task r) a (verify_gone t ch task r v e)
    | inr v ↦
        stays_gone t ts (process_task c ch task r) a (get-process_task c laws t ch task r s v ∙ e)
  ]

  after_verify :
      (t : Text) (u ru : ℤ) (ch : Chance) (r : RedisManager D)
      → c.get (token_key t) (process_task c ch (request_verify_token u ru t) r).database ≡ none
  unfolding process_task verify_token push_response
  after_verify t u ru ch r = elim (Option-cases (c.get (token_key t) r.database)) [
    | inl e ↦ rw (e, verify_token) e
    | inr (value, e) ↦ rw (e, verify_token) (laws.get-del_self (token_key t) r.database)
  ]

  -- A token is good once: after one request that verifies it, whatever the answer, and any further
  -- tasks of which none sets that token, a second request for it is answered with no.
  pub verify_token-once :
      (t : Text) (u ru w rw : ℤ) (ch later : Chance) (ts : List (Chance × RedisTask))
      (r : RedisManager D)
      → All (λ p. sets t p.1 ≡ false) ts
      → let r' = process_tasks c ((ch, request_verify_token u ru t) ∷ ts) r in
        process_task c later (request_verify_token w rw t) r'
        ≡ push_response (response_verify_token rw rw false) r'
  unfolding process_tasks process_task verify_token
  verify_token-once t u ru w rw' ch later ts r a =
      let gone =
        stays_gone t ts (process_task c ch (request_verify_token u ru t) r) a
          (after_verify t u ru ch r) in
      rw (gone, verify_token) refl

  pub set_again :
      (t : Text) (ch : Chance) (task : RedisTask) (r : RedisManager D)
      → sets t task ≡ true
      → (w : Text) × (c.get (token_key t) (process_task c ch task r).database ≡ some w)
  unfolding process_task
  set_again t ch (request_set_auth_token u ru s) r e =
      let same : token_key t ≡ token_key s = ap token_key (eq_id-eq t s e) in
      (c.to_string ru, rw same (laws.get-set_self (token_key s) (c.to_string ru) r.database))
  set_again t ch (request_login u id pw) r e = absurd (cc)
  set_again t ch (request_verify_token u ru w) r e = absurd (cc)
  set_again t ch (request_room_delete u n) r e = absurd (cc)
  set_again t ch (request_notice u m) r e = absurd (cc)
  set_again t ch (request_load_inventory u ru id) r e = absurd (cc)
  set_again t ch (request_shop_update u command) r e = absurd (cc)
  set_again t ch (request_shop_buy u id item) r e = absurd (cc)
  set_again t ch (other_task n) r e = absurd (cc)

  -- a token that is there stays until it is verified
  pub stays :
      (t : Text) (ts : List (Chance × RedisTask)) (r : RedisManager D) (v : Text)
      → All (λ p. verifies t p.1 ≡ false) ts
      → c.get (token_key t) r.database ≡ some v
      → (w : Text) × (c.get (token_key t) (process_tasks c ts r).database ≡ some w)
  unfolding process_tasks
  stays t [] r v a e = (v, e)
  stays t ((ch, task) ∷ ts) r v (f, a) e = elim (Bool-cases (sets t task)) [
    | inl s ↦ let (w, e') = set_again t ch task r s in stays t ts (process_task c ch task r) w a e'
    | inr s ↦
        stays t ts (process_task c ch task r) v a (get-process_task c laws t ch task r s f ∙ e)
  ]
