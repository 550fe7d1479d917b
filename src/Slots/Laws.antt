-- ===== src/Slots/Laws.antt =====
-- What taking and freeing a seat does to the seats.
use project_run_server.Base.{
  ℕ, zero, suc, ◌≤◌, ◌<◌, ◌≡◌, refl, ap, ◌≢◌, ◌↔◌, true, false, ◌||◌, ◌==◌, [], ◌∷◌, none, some,
  pos, minus_one, arith, set, length, get_elem?, replicate,
}
use project_run_server.Slots.{Slots, find_free, find_slot, first_user, occupied, contains, Distinct}

pub occupied-le-length : (s : Slots) → occupied s ≤ length s
unfolding occupied
occupied-le-length [] = omega arith
occupied-le-length (none ∷ s) = omega (arith, occupied-le-length s)
occupied-le-length (some v ∷ s) = omega (arith, occupied-le-length s)

-- A free seat is found exactly if not all are taken.
pub find_free-none : (s : Slots) → (find_free s ≡ none) ↔ (occupied s ≡ length s)
unfolding find_free occupied
find_free-none [] = (λ e. refl, λ e. refl)
find_free-none (none ∷ s) = ground (arith, occupied-le-length s)
find_free-none (some v ∷ s) = ground (arith, find_free-none s)

pub find_free-some :
    (s : Slots) (i : ℕ) → find_free s ≡ some i → (i < length s) × (get_elem? s i ≡ some none)
unfolding find_free
find_free-some [] i e = absurd (cc)
find_free-some (none ∷ s) i e = ground arith
find_free-some (some v ∷ s) zero e = ground arith
find_free-some (some v ∷ s) (suc i) e = ground (arith, find_free-some s i)

pub occupied-set-some :
    (s : Slots) (i u : ℕ)
    → get_elem? s i ≡ some none
    → occupied (set s i (some u)) ≡ suc (occupied s)
unfolding occupied
occupied-set-some [] i u e = absurd (cc)
occupied-set-some (none ∷ s) zero u e = refl
occupied-set-some (some v ∷ s) zero u e = absurd (cc)
occupied-set-some (none ∷ s) (suc i) u e = occupied-set-some s i u e
occupied-set-some (some v ∷ s) (suc i) u e = ap suc (occupied-set-some s i u e)

pub occupied-set-none :
    (s : Slots) (i u : ℕ)
    → get_elem? s i ≡ some (some u)
    → suc (occupied (set s i none)) ≡ occupied s
unfolding occupied
occupied-set-none [] i u e = absurd (cc)
occupied-set-none (none ∷ s) zero u e = absurd (cc)
occupied-set-none (some v ∷ s) zero u e = refl
occupied-set-none (none ∷ s) (suc i) u e = occupied-set-none s i u e
occupied-set-none (some v ∷ s) (suc i) u e = ap suc (occupied-set-none s i u e)

pub contains-set-some :
    (s : Slots) (i u w : ℕ)
    → get_elem? s i ≡ some none
    → contains w (set s i (some u)) ≡ ((u == w) || contains w s)
unfolding contains
contains-set-some [] i u w e = absurd (cc)
contains-set-some (none ∷ s) zero u w e = refl
contains-set-some (some v ∷ s) zero u w e = absurd (cc)
contains-set-some (none ∷ s) (suc i) u w e = contains-set-some s i u w e
contains-set-some (some v ∷ s) (suc i) u w e = ground (arith, contains-set-some s i u w e)

pub find_slot-some :
    (u : ℕ) (s : Slots) (i : ℕ) → find_slot u s ≡ some i → get_elem? s i ≡ some (some u)
unfolding find_slot
find_slot-some u [] i e = absurd (cc)
find_slot-some u (none ∷ s) zero e = ground arith
find_slot-some u (none ∷ s) (suc i) e = ground (arith, find_slot-some u s i)
find_slot-some u (some v ∷ s) zero e = ground arith
find_slot-some u (some v ∷ s) (suc i) e = ground (arith, find_slot-some u s i)

pub find_slot-none : (u : ℕ) (s : Slots) → (find_slot u s ≡ none) ↔ (contains u s ≡ false)
unfolding find_slot contains
find_slot-none u [] = (λ e. refl, λ e. refl)
find_slot-none u (none ∷ s) = ground (arith, find_slot-none u s)
find_slot-none u (some v ∷ s) = ground (arith, find_slot-none u s)

-- Freeing the seat of somebody who has one only takes that user out, and nobody else.
pub contains-set-none :
    (s : Slots) (i u w : ℕ)
    → get_elem? s i ≡ some (some u)
    → w ≢ u
    → contains w (set s i none) ≡ contains w s
unfolding contains
contains-set-none [] i u w e n = absurd (cc)
contains-set-none (none ∷ s) zero u w e n = absurd (cc)
contains-set-none (some v ∷ s) zero u w e n = ground arith
contains-set-none (none ∷ s) (suc i) u w e n = contains-set-none s i u w e n
contains-set-none (some v ∷ s) (suc i) u w e n = ground (arith, contains-set-none s i u w e n)

pub first_user-contains : (s : Slots) (v : ℕ) → first_user s ≡ pos v → contains v s ≡ true
unfolding first_user contains
first_user-contains [] v e = cc
first_user-contains (none ∷ s) v e = first_user-contains s v e
first_user-contains (some w ∷ s) v e = ground arith

pub first_user-none : (s : Slots) → (first_user s ≡ minus_one) ↔ (occupied s ≡ 0)
unfolding first_user occupied
first_user-none [] = (λ e. refl, λ e. refl)
first_user-none (none ∷ s) = first_user-none s
first_user-none (some w ∷ s) = ground arith

pub occupied-replicate : (n : ℕ) → occupied (replicate n none) ≡ 0
unfolding occupied
occupied-replicate zero = refl
occupied-replicate (suc n) = occupied-replicate n

pub first_user-pos :
    (s : Slots) → occupied s ≢ 0 → (v : ℕ) × (first_user s ≡ pos v) × (contains v s ≡ true)
unfolding first_user occupied contains
first_user-pos [] n = absurd (n refl)
first_user-pos (none ∷ s) n = first_user-pos s n
first_user-pos (some v ∷ s) n = (v, refl, ground arith)

pub find_slot-set-some :
    (u : ℕ) (s : Slots) (i : ℕ)
    → get_elem? s i ≡ some none
    → contains u s ≡ false
    → find_slot u (set s i (some u)) ≡ some i
unfolding find_slot contains
find_slot-set-some u [] i e n = absurd (cc)
find_slot-set-some u (none ∷ s) zero e n = ground arith
find_slot-set-some u (some v ∷ s) zero e n = absurd (cc)
find_slot-set-some u (none ∷ s) (suc i) e n = ground (arith, find_slot-set-some u s i)
find_slot-set-some u (some v ∷ s) (suc i) e n = ground (arith, find_slot-set-some u s i)

pub Distinct-set-some :
    (s : Slots) (i u : ℕ)
    → get_elem? s i ≡ some none
    → contains u s ≡ false
    → Distinct s
    → Distinct (set s i (some u))
unfolding contains
Distinct-set-some [] i u e n d = d
Distinct-set-some (none ∷ s) zero u e n d = (n, d)
Distinct-set-some (some v ∷ s) zero u e n d = absurd (cc)
Distinct-set-some (none ∷ s) (suc i) u e n d = Distinct-set-some s i u e n d
Distinct-set-some (some v ∷ s) (suc i) u e n d =
    ground (arith, contains-set-some s i u v e, Distinct-set-some s i u e)

contains-set-none_le :
    (s : Slots) (i w : ℕ) → contains w s ≡ false → contains w (set s i none) ≡ false
unfolding contains
contains-set-none_le [] i w h = refl
contains-set-none_le (none ∷ s) zero w h = h
contains-set-none_le (some v ∷ s) zero w h = ground arith
contains-set-none_le (none ∷ s) (suc i) w h = contains-set-none_le s i w h
contains-set-none_le (some v ∷ s) (suc i) w h = ground (arith, contains-set-none_le s i w)

pub Distinct-set-none : (s : Slots) (i : ℕ) → Distinct s → Distinct (set s i none)
Distinct-set-none [] i d = d
Distinct-set-none (none ∷ s) zero d = d
Distinct-set-none (some v ∷ s) zero d = d.1
Distinct-set-none (none ∷ s) (suc i) d = Distinct-set-none s i d
Distinct-set-none (some v ∷ s) (suc i) d =
    (contains-set-none_le s i v d.0, Distinct-set-none s i d.1)

pub get_elem?-contains : (s : Slots) (i u : ℕ) → get_elem? s i ≡ some (some u) → contains u s ≡ true
unfolding contains
get_elem?-contains [] i u e = absurd (cc)
get_elem?-contains (none ∷ s) zero u e = absurd (cc)
get_elem?-contains (some v ∷ s) zero u e = ground arith
get_elem?-contains (none ∷ s) (suc i) u e = get_elem?-contains s i u e
get_elem?-contains (some v ∷ s) (suc i) u e = ground (arith, get_elem?-contains s i u e)

-- In distinct seats the one who leaves is gone.
pub contains-set-none_self :
    (s : Slots) (i u : ℕ)
    → get_elem? s i ≡ some (some u)
    → Distinct s
    → contains u (set s i none) ≡ false
unfolding contains
contains-set-none_self [] i u e d = refl
contains-set-none_self (none ∷ s) zero u e d = absurd (cc)
contains-set-none_self (some v ∷ s) zero u e d = ground arith
contains-set-none_self (none ∷ s) (suc i) u e d = contains-set-none_self s i u e d
contains-set-none_self (some v ∷ s) (suc i) u e d =
    ground (arith, contains-set-none_self s i u e, get_elem?-contains s i u e)
