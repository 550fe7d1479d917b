-- ===== src/Redis/Tokens.antt =====
-- The life of a token: which tasks make one valid, and that one is valid once.
use project_run_server.Base.{
  ℕ, zero, suc, ◌+◌, ◌≡◌, ◌≢◌, refl, ◌∙◌, inl, inr, Bool, true, false, List, [], ◌∷◌, Option, none,
  some, ℤ, arith, Bool-cases, Option-cases,
}
use project_run_server.Users.{eq_id}
use project_run_server.Redis.{
  Text, RedisConn, IsRedis, RedisTask, request_login, request_set_auth_token, request_verify_token,
  request_room_delete, request_notice, request_load_inventory, request_shop_update,
  request_shop_buy, other_task, RedisManager, Chance, push_response, push_task,
}
use project_run_server.Redis.Shop.{
  load_inventory, process_shop_update, process_shop_buy, assign_new_user_items, write_zeros,
  write_shop, finish_update, buy_at, is_empty, inven_key, inventory_size, shop_state,
}
use project_run_server.Redis.Tasks.{token_key, login, verify_token, process_task}

pub eq_id-eq : (s t : List ℕ) → eq_id s t ≡ true → s ≡ t
unfolding eq_id
eq_id-eq [] [] h = refl
eq_id-eq [] (y ∷ t) h = absurd (cc)
eq_id-eq (x ∷ s) [] h = absurd (cc)
eq_id-eq (x ∷ s) (y ∷ t) h = ground (arith, h, eq_id-eq s t)

pub eq_id_self : (s : List ℕ) → eq_id s s ≡ true
unfolding eq_id
eq_id_self [] = refl
eq_id_self (x ∷ s) = ground (arith, eq_id_self s)

eq_id_ne : (s t : List ℕ) → eq_id s t ≡ false → s ≢ t
eq_id_ne s t h e = let same : eq_id s t ≡ true = rw e (eq_id_self t) in cc

token_key_ne : (s t : Text) → eq_id s t ≡ false → token_key s ≢ token_key t
token_key_ne s t h e = eq_id_ne s t h (cc)

-- whether a task sets or verifies a token
abbrev pub sets : Text → RedisTask → Bool
sets t (request_set_auth_token u ru s) = eq_id t s
sets t _ = false

abbrev pub verifies : Text → RedisTask → Bool
verifies t (request_verify_token u ru s) = eq_id t s
verifies t _ = false

module _ {D : Type 0} (c : RedisConn D) (laws : IsRedis c) where
  get-write_zeros : (k key : Text) (i n : ℕ) (d : D) → c.get k (write_zeros c key i n d) ≡ c.get k d
  unfolding write_zeros
  get-write_zeros k key i zero d = refl
  get-write_zeros k key i (suc n) d = get-write_zeros k key (i + 1) n _ ∙ laws.get-hset k key _ _ d

  get-assign_new_user_items :
      (k key : Text) (ch : Chance) (d : D) → c.get k (assign_new_user_items c key ch d) ≡ c.get k d
  unfolding assign_new_user_items
  get-assign_new_user_items k key ch d =
      laws.get-hset k key _ _ _
      ∙ laws.get-hset k key _ _ _
      ∙ get-write_zeros k key 0 inventory_size d

  get-load_inventory :
      (k : Text) (ch : Chance) (u ru : ℤ) (id : Text) (r : RedisManager D)
      → c.get k (load_inventory c ch u ru id r).database ≡ c.get k r.database
  unfolding load_inventory push_response
  get-load_inventory k ch u ru id r =
      elim (Bool-cases (is_empty (c.hgetall (inven_key id) r.database))) [
        | inl fresh ↦
            rw (fresh, load_inventory) (get-assign_new_user_items k (inven_key id) ch r.database)
        | inr known ↦ rw (known, load_inventory) refl
      ]

  get-finish_update :
      (k : Text) (value : ℤ) (item next : ℕ) (need buying : Bool) (r : RedisManager D)
      → c.get k (finish_update c value (item, next, need, buying) r).database ≡ c.get k r.database
  unfolding finish_update push_response write_shop
  get-finish_update k value item next true buying r =
      laws.get-hset k shop_state _ _ _ ∙ laws.get-hset k shop_state _ _ r.database
  get-finish_update k value item next false buying r = ground arith

  get-buy_at :
      (k : Text) (u : ℤ) (id : Text) (item : ℤ) (at : Option ℕ) (r : RedisManager D)
      → c.get k (buy_at c u id item at r).database ≡ c.get k r.database
  unfolding buy_at push_response push_task
  get-buy_at k u id item none r = refl
  get-buy_at k u id item (some i) r =
      laws.get-hset k shop_state _ _ _ ∙ laws.get-hset k (inven_key id) _ _ r.database

  -- Tasks that neither set nor verify leave every text as it was.
  pub get-process_task :
      (t : Text) (ch : Chance) (task : RedisTask) (r : RedisManager D)
      → sets t task ≡ false
      → verifies t task ≡ false
      → c.get (token_key t) (process_task c ch task r).database ≡ c.get (token_key t) r.database
  unfolding process_task login verify_token push_response process_shop_update process_shop_buy
  get-process_task t ch (request_login u id pw) r s v = elim (Option-cases (c.get id r.database)) [
    | inl e ↦ rw (e, login) refl
    | inr (value, e) ↦ rw (e, login) (ground arith)
  ]
  get-process_task t ch (request_set_auth_token u ru w) r s v =
      laws.get-set_ne (token_key t) (token_key w) (c.to_string ru) r.database (token_key_ne t w s)
  get-process_task t ch (request_verify_token u ru w) r s v =
      elim (Option-cases (c.get (token_key w) r.database)) [
        | inl e ↦ rw (e, verify_token) refl
        | inr (value, e) ↦
            rw (e, verify_token)
              (laws.get-del_ne (token_key t) (token_key w) r.database (token_key_ne t w v))
      ]
  get-process_task t ch (request_room_delete u n) r s v = refl
  get-process_task t ch (request_notice u m) r s v = refl
  get-process_task t ch (request_load_inventory u ru id) r s v =
      get-load_inventory (token_key t) ch u ru id r
  get-process_task t ch (request_shop_update u command) r s v =
      get-finish_update (token_key t) _ _ _ _ _ r
  get-process_task t ch (request_shop_buy u id item) r s v = get-buy_at (token_key t) u id item _ r
  get-process_task t ch (other_task n) r s v = refl
