-- ===== src/Slots.antt =====
-- The seats of a room, `mSlots` of both servers' Room.h: a vector of user pointers, null where a
-- seat is free. The search loops of the rooms' methods are the functions below.
pub mod Laws
pub mod Marks
use project_run_server.Base.{
  ℕ, zero, suc, ◌≡◌, Bool, true, false, ◌||◌, ◌==◌, List, [], ◌∷◌, Option, none, some, ℤ, pos,
  minus_one, if◌then◌else◌,
}

abbrev pub Slots : Type 0
Slots = List (Option ℕ)

-- `for (i = 0; …) if (mSlots[i] == nullptr) …; break`
unfoldable pub find_free : Slots → Option ℕ
find_free [] = none
find_free (none ∷ s) = some 0
find_free (some v ∷ s) = elim (find_free s) [ none ↦ none | some i ↦ some (suc i) ]

-- `for (i = 0; …) if (mSlots[i] == user) …; break`
unfoldable pub find_slot : ℕ → Slots → Option ℕ
find_slot u [] = none
find_slot u (none ∷ s) = elim (find_slot u s) [ none ↦ none | some i ↦ some (suc i) ]
find_slot u (some v ∷ s) =
    let rest = find_slot u s in
    if v == u then some 0 else elim rest [ none ↦ none | some i ↦ some (suc i) ]

-- the users in their seats' order
unfoldable pub users : Slots → List ℕ
users [] = []
users (none ∷ s) = users s
users (some v ∷ s) = v ∷ users s

-- the connection index in the first seat that is taken, -1 if none is
pub first_user : Slots → ℤ
first_user [] = minus_one
first_user (none ∷ s) = first_user s
first_user (some v ∷ s) = pos v

unfoldable pub occupied : Slots → ℕ
occupied [] = 0
occupied (none ∷ s) = occupied s
occupied (some v ∷ s) = suc (occupied s)

unfoldable pub contains : ℕ → Slots → Bool
contains u [] = false
contains u (none ∷ s) = contains u s
contains u (some v ∷ s) = (v == u) || contains u s

-- Nobody has two seats.
abbrev pub Distinct : Slots → Type 0
Distinct [] = Unit
Distinct (none ∷ s) = Distinct s
Distinct (some v ∷ s) = (contains v s ≡ false) × Distinct s

-- Only a taken seat is marked ready.
abbrev pub ReadyOnlyTaken : Slots → List Bool → Type 0
ReadyOnlyTaken [] rs = Unit
ReadyOnlyTaken (x ∷ s) [] = Unit
ReadyOnlyTaken (none ∷ s) (r ∷ rs) = (r ≡ false) × ReadyOnlyTaken s rs
ReadyOnlyTaken (some v ∷ s) (r ∷ rs) = ReadyOnlyTaken s rs
