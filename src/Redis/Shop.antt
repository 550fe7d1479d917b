-- ===== src/Redis/Shop.antt =====
-- The inventory and the shop: `AssignNewUserItems`, REQUEST_LOAD_INVENTORY, `ProcessShopUpdate` and
-- `ProcessShopBuy` of RedisManager.h.
use project_run_server.Base.{
  ℕ, zero, suc, ◌+◌, ◌-◌, ◌*◌, ◌%◌, ◌==◌, Bool, true, false, ◌||◌, not, List, [], ◌∷◌, ◌++◌, Option,
  none, some, ℤ, pos, negsuc, minus_one, eq_ℤ, ltb, leb, get_or, set, replicate, if◌then◌else◌,
}
use project_run_server.Packets.{copy_user_id}
use project_run_server.Redis.{
  Text, RedisConn, request_load_inventory, response_load_inventory, response_shop_update,
  response_shop_buy, RedisManager, Chance, push_task, push_response, set_database,
}

abbrev pub inventory_size : ℕ
inventory_size = 5

-- "u:" + userID + ":inven"
unfoldable pub inven_key : Text → Text
inven_key id = 117 ∷ 58 ∷ id ++ 58 ∷ 105 ∷ 110 ∷ 118 ∷ 101 ∷ 110 ∷ []

-- "game:shop_state"
abbrev pub shop_state : Text
shop_state =
    103 ∷ 97 ∷ 109 ∷ 101 ∷ 58 ∷ 115 ∷ 104 ∷ 111 ∷ 112 ∷ 95 ∷ 115 ∷ 116 ∷ 97 ∷ 116 ∷ 101 ∷ []

-- "current_item"
abbrev pub current_item : Text
current_item = 99 ∷ 117 ∷ 114 ∷ 114 ∷ 101 ∷ 110 ∷ 116 ∷ 95 ∷ 105 ∷ 116 ∷ 101 ∷ 109 ∷ []

-- "next_update_ts"
abbrev pub next_update_ts : Text
next_update_ts = 110 ∷ 101 ∷ 120 ∷ 116 ∷ 95 ∷ 117 ∷ 112 ∷ 100 ∷ 97 ∷ 116 ∷ 101 ∷ 95 ∷ 116 ∷ 115 ∷ []

-- an item from 101 to 105
abbrev pub random_item : ℕ → ℕ
random_item n = 101 + n % 5

-- `nums` after the swap
unfoldable pub swapped : ℕ → List ℕ
swapped i1 = set (set (0 ∷ 1 ∷ 2 ∷ 3 ∷ 4 ∷ []) i1 4) 4 i1

abbrev pub slot1 : Chance → ℕ
slot1 ch = get_or (swapped ch.dis1) ch.dis1 0

abbrev pub slot2 : Chance → ℕ
slot2 ch = get_or (swapped ch.dis1) ch.dis2 0

-- the `ItemSlots` that `AssignNewUserItems` answers
unfoldable pub new_user_items : Chance → List ℤ
new_user_items ch =
    set (set (replicate inventory_size (pos 0)) (slot1 ch) (pos (random_item ch.gen1))) (slot2 ch)
      (pos (random_item ch.gen2))

abbrev pub is_empty : List (Text × Text) → Bool
is_empty [] = true
is_empty (f ∷ fs) = false

-- the first slot from `i` on that holds EMPTYITEM
unfoldable pub empty_slot : ℕ → List ℤ → Option ℕ
empty_slot i [] = none
empty_slot i (x ∷ xs) = let rest = empty_slot (i + 1) xs in if eq_ℤ x (pos 0) then some i else rest

-- The item, the time of the next update, whether they are written, and the flag.
unfoldable pub shop_step : Chance → ℤ → ℕ → ℕ → Bool → ℕ × ℕ × Bool × Bool
shop_step ch (pos zero) item next buying = (random_item ch.gen1, ch.next_midnight, true, buying)
shop_step ch (pos (suc m)) item next buying =
    let reduce = suc m * 60 in
    (item, if leb next (ch.now + reduce) then ch.now - 1 else next - reduce, true, buying)
shop_step ch (negsuc zero) item next buying =
    if (next == 0) || leb next ch.now
    then (random_item ch.gen1, ch.next_midnight, true, false)
    else (item, next, buying, false)
shop_step ch (negsuc (suc zero)) item next buying = (item, next, true, buying)
shop_step ch (negsuc (suc (suc m))) item next buying = (item, next, false, buying)

module _ {D : Type 0} (c : RedisConn D) where
  abbrev pub number : ℕ → Text
  number n = c.to_string (pos n)

  -- the loop that writes "0" into the slots from `i` on, `n` of them
  unfoldable pub write_zeros : Text → ℕ → ℕ → D → D
  write_zeros key i zero d = d
  write_zeros key i (suc n) d = write_zeros key (i + 1) n (c.hset key (number i) (number 0) d)

  -- what `AssignNewUserItems` writes
  unfoldable pub assign_new_user_items : Text → Chance → D → D
  assign_new_user_items key ch d = c.hset key (number (slot2 ch)) (number (random_item ch.gen2)) (
      c.hset key (number (slot1 ch)) (number (random_item ch.gen1))
        (write_zeros key 0 inventory_size d))

  -- a slot's field, if it is one
  abbrev put_item : Text × Text → List ℤ → List ℤ
  put_item (k, v) slots = elim (c.stoi k) [
    | pos i ↦ if ltb i inventory_size then set slots i (c.stoi v) else slots
    | negsuc i ↦ slots
  ]

  -- The loop over the fields of an inventory.
  unfoldable pub read_slots : List (Text × Text) → List ℤ → List ℤ
  read_slots [] slots = slots
  read_slots (f ∷ fs) slots = read_slots fs (put_item f slots)

  unfoldable pub load_inventory : Chance → ℤ → ℤ → Text → RedisManager D → RedisManager D
  load_inventory ch u ru id r =
      let key = inven_key id in
      let inven = c.hgetall key r.database in
      if is_empty inven
      then push_response (response_load_inventory u ru (new_user_items ch))
          (set_database (assign_new_user_items key ch r.database) r)
      else push_response
          (response_load_inventory u ru (read_slots inven (replicate inventory_size (pos 0)))) r

  -- a number of the shop's state, which only ever holds natural ones, or `n` if there is none
  abbrev stored : Text → ℕ → D → ℕ
  stored f n d = elim (c.hget shop_state f d) [
    | none ↦ n
    | some [] ↦ n
    | some (x ∷ xs) ↦ elim (c.stoi (x ∷ xs)) [ pos m ↦ m | negsuc m ↦ n ]
  ]

  unfoldable pub write_shop : ℕ → ℕ → D → D
  write_shop item next d =
      c.hset shop_state next_update_ts (number next)
        (c.hset shop_state current_item (number item) d)

  -- what `ProcessShopUpdate` does with the outcome of the command
  unfoldable pub finish_update : ℤ → ℕ × ℕ × Bool × Bool → RedisManager D → RedisManager D
  finish_update value (item, next, need_update, buying) r =
      let d = if need_update then write_shop item next r.database else r.database in
      let r1 = record r { database = d; is_buying = buying } in
      if need_update || not (eq_ℤ value minus_one)
      then push_response (response_shop_update (pos item) next) r1
      else r1

  -- `ProcessShopUpdate`; a request without a number counts as 0
  unfoldable pub process_shop_update : Chance → Option ℤ → RedisManager D → RedisManager D
  process_shop_update ch command r =
      let value : ℤ = elim command [ none ↦ pos 0 | some v ↦ v ] in
      let step =
        shop_step ch value (stored current_item 101 r.database) (stored next_update_ts 0 r.database)
          r.is_buying in
      finish_update value step r

  -- a purchase into a slot, or none
  unfoldable pub buy_at : ℤ → Text → ℤ → Option ℕ → RedisManager D → RedisManager D
  buy_at u id item none r = push_response (response_shop_buy u false) r
  buy_at u id item (some i) r =
      let d =
        c.hset shop_state current_item (number 0)
          (c.hset (inven_key id) (number i) (c.to_string item) r.database) in
      push_response (response_shop_buy u true) (
        push_task (request_load_inventory u u (copy_user_id id))
          (record r { database = d; is_buying = true }))

  -- `tempInven`
  abbrev pub temp_inven : Text → D → List ℤ
  temp_inven id d = read_slots (c.hgetall (inven_key id) d) (replicate inventory_size (pos 0))

  -- `ProcessShopBuy`
  unfoldable pub process_shop_buy : ℤ → Text → ℤ → RedisManager D → RedisManager D
  process_shop_buy u id item r = buy_at u id item (empty_slot 0 (temp_inven id r.database)) r
