-- ===== src/Slots/Marks.antt =====
-- The ready marks beside the seats.
use project_run_server.Base.{
  ℕ, zero, suc, ◌≡◌, refl, sym, ap, Bool, false, List, [], ◌∷◌, none, some, set, replicate,
  get_elem?,
}
use project_run_server.Slots.{Slots, ReadyOnlyTaken}

pub replicate-ReadyOnlyTaken : (n : ℕ) → ReadyOnlyTaken (replicate n none) (replicate n false)
replicate-ReadyOnlyTaken zero = tt
replicate-ReadyOnlyTaken (suc n) = (refl, replicate-ReadyOnlyTaken n)

pub ReadyOnlyTaken-set-some :
    (s : Slots) (rs : List Bool) (i u : ℕ)
    → ReadyOnlyTaken s rs
    → ReadyOnlyTaken (set s i (some u)) rs
ReadyOnlyTaken-set-some [] rs i u h = h
ReadyOnlyTaken-set-some (x ∷ s) [] zero u h = tt
ReadyOnlyTaken-set-some (x ∷ s) [] (suc i) u h = tt
ReadyOnlyTaken-set-some (none ∷ s) (r ∷ rs) zero u h = h.1
ReadyOnlyTaken-set-some (some v ∷ s) (r ∷ rs) zero u h = h
ReadyOnlyTaken-set-some (none ∷ s) (r ∷ rs) (suc i) u h =
    (h.0, ReadyOnlyTaken-set-some s rs i u h.1)
ReadyOnlyTaken-set-some (some v ∷ s) (r ∷ rs) (suc i) u h = ReadyOnlyTaken-set-some s rs i u h

pub ReadyOnlyTaken-set-none :
    (s : Slots) (rs : List Bool) (i : ℕ)
    → ReadyOnlyTaken s rs
    → ReadyOnlyTaken (set s i none) (set rs i false)
ReadyOnlyTaken-set-none [] rs i h = h
ReadyOnlyTaken-set-none (x ∷ s) [] zero h = tt
ReadyOnlyTaken-set-none (x ∷ s) [] (suc i) h = tt
ReadyOnlyTaken-set-none (none ∷ s) (r ∷ rs) zero h = (refl, h.1)
ReadyOnlyTaken-set-none (some v ∷ s) (r ∷ rs) zero h = (refl, h)
ReadyOnlyTaken-set-none (none ∷ s) (r ∷ rs) (suc i) h = (h.0, ReadyOnlyTaken-set-none s rs i h.1)
ReadyOnlyTaken-set-none (some v ∷ s) (r ∷ rs) (suc i) h = ReadyOnlyTaken-set-none s rs i h

pub ReadyOnlyTaken-set :
    (s : Slots) (rs : List Bool) (i u : ℕ) (b : Bool)
    → get_elem? s i ≡ some (some u)
    → ReadyOnlyTaken s rs
    → ReadyOnlyTaken s (set rs i b)
ReadyOnlyTaken-set [] rs i u b e h = tt
ReadyOnlyTaken-set (x ∷ s) [] zero u b e h = tt
ReadyOnlyTaken-set (x ∷ s) [] (suc i) u b e h = tt
ReadyOnlyTaken-set (none ∷ s) (r ∷ rs) zero u b e h = absurd (cc)
ReadyOnlyTaken-set (some v ∷ s) (r ∷ rs) zero u b e h = h
ReadyOnlyTaken-set (none ∷ s) (r ∷ rs) (suc i) u b e h = (h.0, ReadyOnlyTaken-set s rs i u b e h.1)
ReadyOnlyTaken-set (some v ∷ s) (r ∷ rs) (suc i) u b e h = ReadyOnlyTaken-set s rs i u b e h

-- A free seat's mark is false already.
pub free_unready :
    (s : Slots) (rs : List Bool) (i : ℕ)
    → get_elem? s i ≡ some none
    → ReadyOnlyTaken s rs
    → set rs i false ≡ rs
free_unready [] rs i e h = absurd (cc)
free_unready (x ∷ s) [] i e h = refl
free_unready (none ∷ s) (r ∷ rs) zero e h = ap (λ x. x ∷ rs) (sym h.0)
free_unready (some v ∷ s) (r ∷ rs) zero e h = absurd (cc)
free_unready (none ∷ s) (r ∷ rs) (suc i) e h = ap (◌∷◌ r) (free_unready s rs i e h.1)
free_unready (some v ∷ s) (r ∷ rs) (suc i) e h = ap (◌∷◌ r) (free_unready s rs i e h)
