-- ===== src/Redis/Items.antt =====
-- What a new user's inventory holds.
use project_run_server.Base.{
  ℕ, zero, suc, ◌<◌, ◌≡◌, refl, List, ◌==◌, ℤ, pos, get_or, set, replicate, if◌then◌else◌, arith,
}
use project_run_server.Redis.{Chance}
use project_run_server.Redis.Shop.{inventory_size, random_item, swapped, new_user_items}

-- the first slot is the last one, whatever was drawn
slot1_lem : (i1 i2 : ℕ) → i1 < 5 → get_or (swapped i1) i1 0 ≡ 4
unfolding swapped
slot1_lem zero i2 h = refl
slot1_lem (suc zero) i2 h = refl
slot1_lem (suc (suc zero)) i2 h = refl
slot1_lem (suc (suc (suc zero))) i2 h = refl
slot1_lem (suc (suc (suc (suc zero)))) i2 h = refl
slot1_lem (suc (suc (suc (suc (suc i))))) i2 h = absurd (omega arith)

slot2_lem : (i1 i2 : ℕ) → i1 < 5 → i2 < 4 → get_or (swapped i1) i2 0 ≡ (if i1 == i2 then 4 else i2)
unfolding swapped
slot2_lem i1 zero h k = ground arith
slot2_lem i1 (suc zero) h k = ground arith
slot2_lem i1 (suc (suc zero)) h k = ground arith
slot2_lem i1 (suc (suc (suc zero))) h k = ground arith
slot2_lem i1 (suc (suc (suc (suc i2)))) h k = absurd (omega arith)

abbrev empty_slots : List ℤ
empty_slots = replicate inventory_size (pos 0)

-- A new user's first item always lies in slot 4 and the second in the drawn one, and if the two
-- draws for the slots are equal the second item replaces the first.
pub new_user_items_lem :
    (ch : Chance)
    → ch.dis1 < 5
    → ch.dis2 < 4
    → let first = pos (random_item ch.gen1) in
      let second = pos (random_item ch.gen2) in
      new_user_items ch ≡ (
        if ch.dis1 == ch.dis2
        then set empty_slots 4 second
        else set (set empty_slots 4 first) ch.dis2 second)
unfolding new_user_items
new_user_items_lem ch h k =
    let one = slot1_lem ch.dis1 ch.dis2 h in
    let two = slot2_lem ch.dis1 ch.dis2 h k in ground (arith, one, two)
