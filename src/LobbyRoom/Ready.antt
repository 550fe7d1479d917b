-- ===== src/LobbyRoom/Ready.antt =====
-- When a lobby room may start its game.
use project_run_server.Base.{
  ℕ, zero, suc, ◌≤◌, ◌≡◌, refl, ◌≢◌, ◌↔◌, Bool, true, List, [], ◌∷◌, none, some, ℤ, pos, eq_ℤ_iff,
  arith, length, get_elem?,
}
use project_run_server.Slots.{Slots, occupied}
use project_run_server.Slots.Laws.{occupied-le-length}
use project_run_server.LobbyRoom.{Room, is_all_ready, guests_ready}
use project_run_server.LobbyRoom.Invariant.{IsValid}

-- Everybody who has a seat, but the host, is marked ready.
abbrev pub GuestsReady : ℤ → Slots → List Bool → Type 0
GuestsReady host s rs =
    (i u : ℕ) → get_elem? s i ≡ some (some u) → host ≢ pos u → get_elem? rs i ≡ some true

guests_ready_sound :
    (host : ℤ) (s : Slots) (rs : List Bool)
    → length s ≤ length rs
    → guests_ready host s rs ≡ true
    → GuestsReady host s rs
unfolding guests_ready
guests_ready_sound host [] rs l h i u e n = absurd (cc)
guests_ready_sound host (x ∷ s) [] l h i u e n = absurd (omega arith)
guests_ready_sound host (none ∷ s) (r ∷ rs) l h zero u e n = absurd (cc)
guests_ready_sound host (none ∷ s) (r ∷ rs) l h (suc i) u e n =
    guests_ready_sound host s rs (omega arith) h i u e n
guests_ready_sound host (some v ∷ s) (r ∷ rs) l h zero u e n = ground (arith, eq_ℤ_iff (pos v) host)
guests_ready_sound host (some v ∷ s) (r ∷ rs) l h (suc i) u e n =
    guests_ready_sound host s rs (omega arith) (ground arith) i u e n

guests_ready_complete :
    (host : ℤ) (s : Slots) (rs : List Bool) → GuestsReady host s rs → guests_ready host s rs ≡ true
unfolding guests_ready
guests_ready_complete host [] rs h = refl
guests_ready_complete host (x ∷ s) [] h = refl
guests_ready_complete host (none ∷ s) (r ∷ rs) h = guests_ready_complete host s rs (λ i. h (suc i))
guests_ready_complete host (some v ∷ s) (r ∷ rs) h =
    ground
      (arith, guests_ready_complete host s rs (λ i. h (suc i)), h 0 v refl, eq_ℤ_iff (pos v) host)

-- `IsAllReady` of a valid room holds exactly if every seat is taken and every user but the host is
-- marked ready.
pub is_all_ready_iff :
    (r : Room)
    → IsValid r
    → (is_all_ready r ≡ true)
      ↔ ((occupied r.slots ≡ r.max_user_count) × GuestsReady r.host_uuid r.slots r.is_ready)
unfolding is_all_ready
is_all_ready_iff r v = (
  λ e. (
    ground (arith, all_taken e),
    guests_ready_sound r.host_uuid r.slots r.is_ready (omega (arith, v.seats, v.marks)) (loop e),
  ),
  λ h. full h.0 (guests_ready_complete r.host_uuid r.slots r.is_ready h.1),
)
  where
    all_taken : is_all_ready r ≡ true → occupied r.slots ≡ r.max_user_count
    all_taken e = ground (arith, v.counted, v.seats, occupied-le-length r.slots)

    loop : is_all_ready r ≡ true → guests_ready r.host_uuid r.slots r.is_ready ≡ true
    loop e = ground arith

    full :
        occupied r.slots ≡ r.max_user_count
        → guests_ready r.host_uuid r.slots r.is_ready ≡ true
        → is_all_ready r ≡ true
    full e g = ground (arith, v.counted)
