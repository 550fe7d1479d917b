-- ===== src/GameRoom/Countdown.antt =====
-- When the countdown of a game server's room runs.
use project_run_server.Base.{
  ℕ, zero, suc, ◌<◌, ◌≡◌, ◌↔◌, refl, sym, subst, ◌∙◌, List, [], ◌∷◌, none, some, length, get_elem?,
  inl, inr, Bool, true, false, not, arith, set, Option-cases,
}
use project_run_server.Slots.{Slots, find_slot, occupied, contains}
use project_run_server.Slots.Laws.{find_slot-none, occupied-le-length}
use project_run_server.GameRoom.{FloatOps, GameRoom, all_slots_ready}
use project_run_server.GameRoom.Ready.{check_all_ready, set_countdown, process_player_ready}
use project_run_server.GameRoom.Seats.{IsSeated}

-- 0 lies between -1 and 5.
pub record IsOrdered {F : Type 0} (fl : FloatOps F) : Type 0 where
  pub below : fl.less fl.minus_one_f fl.zero_f ≡ true
  pub not_below : fl.less fl.zero_f fl.minus_one_f ≡ false
  pub above : fl.less fl.zero_f fl.five ≡ true
  pub not_above : fl.less fl.five fl.zero_f ≡ false

-- Every slot is marked ready.
abbrev pub AllMarked : ℕ → List Bool → Type 0
AllMarked n rs = (i : ℕ) → i < n → get_elem? rs i ≡ some true

all_slots_ready_marked :
    (s : Slots) (rs : List Bool) → all_slots_ready s rs ≡ true → AllMarked (length s) rs
unfolding all_slots_ready
all_slots_ready_marked [] rs e i h = absurd (omega (arith, h))
all_slots_ready_marked (none ∷ s) rs e i h = absurd (cc)
all_slots_ready_marked (some w ∷ s) [] e i h = absurd (cc)
all_slots_ready_marked (some w ∷ s) (b ∷ rs) e zero h = ground (arith, e)
all_slots_ready_marked (some w ∷ s) (b ∷ rs) e (suc i) h =
    all_slots_ready_marked s rs (ground (arith, e)) i (omega (arith, h))

marked-all_slots_ready :
    (s : Slots) (rs : List Bool)
    → occupied s ≡ length s
    → AllMarked (length s) rs
    → all_slots_ready s rs ≡ true
unfolding all_slots_ready occupied
marked-all_slots_ready [] rs full h = refl
marked-all_slots_ready (none ∷ s) rs full h = absurd (omega (arith, full, occupied-le-length s))
marked-all_slots_ready (some w ∷ s) [] full h = absurd (let e = h 0 (omega arith) in cc)
marked-all_slots_ready (some w ∷ s) (b ∷ rs) full h =
    let first : b ≡ true = ground (arith, h 0 (omega arith)) in
    let rest =
      marked-all_slots_ready s rs (omega (arith, full)) (λ i k. h (suc i) (omega (arith, k))) in
    ground (arith, first, rest)

module _ {F : Type 0} (fl : FloatOps F) where
  abbrev pub is_counting : GameRoom F → Bool
  is_counting r = fl.less fl.zero_f r.countdown_timer

  -- The timer is above or below 0.
  abbrev pub IsSettled : GameRoom F → Type 0
  IsSettled r = fl.less r.countdown_timer fl.zero_f ≡ not (is_counting r)

  set_countdown_lem :
      (b : Bool) (r : GameRoom F)
      → IsOrdered fl
      → IsSettled r
      → (is_counting (set_countdown fl b r).0 ≡ b) × IsSettled (set_countdown fl b r).0
  unfolding set_countdown
  set_countdown_lem b r o s = ground (arith, o.below, o.not_below, o.above, o.not_above, s)

  set_countdown-keeps :
      (b : Bool) (r : GameRoom F)
      → ((set_countdown fl b r).0.slots ≡ r.slots)
        × ((set_countdown fl b r).0.is_ready ≡ r.is_ready)
  unfolding set_countdown
  set_countdown-keeps b r = ground arith

  check_all_ready-full :
      (r : GameRoom F)
      → 0 < r.max_user_count
      → r.current_user_count ≡ r.max_user_count
      → check_all_ready fl r ≡ set_countdown fl (all_slots_ready r.slots r.is_ready) r
  unfolding check_all_ready
  check_all_ready-full r h e = ground arith

  -- In a room of the game server with all slots taken, after a user with a slot has changed the
  -- ready mark, the countdown runs exactly if every slot is marked ready, if the timer was above or
  -- below 0 before, and it is so again.
  pub process_player_ready-counting :
      (r : GameRoom F) (u : ℕ) (ready : Bool)
      → IsOrdered fl
      → IsSeated r
      → IsSettled r
      → 0 < r.max_user_count
      → occupied r.slots ≡ r.max_user_count
      → contains u r.slots ≡ true
      → let r' = (process_player_ready fl r u ready).0 in
        ((is_counting r' ≡ true) ↔ AllMarked r.max_user_count r'.is_ready) × IsSettled r'
  unfolding process_player_ready
  process_player_ready-counting r u ready o v s h full there =
      elim (Option-cases (find_slot u r.slots)) [
        | inl e ↦ absurd (cc ((find_slot-none u r.slots).0 e))
        | inr (i, e) ↦
            let r1 = record r { is_ready = set r.is_ready i ready } in
            let b = all_slots_ready r1.slots r1.is_ready in
            let counted : r1.current_user_count ≡ r1.max_user_count =
              omega (arith, v.counted, full) in
            let (runs, settled) = set_countdown_lem b r1 o s in
            let (slots, marks) = set_countdown-keeps b r1 in
            let whole : occupied r.slots ≡ length r.slots = omega (arith, full, v.seats) in
            let all : (is_counting (set_countdown fl b r1).0 ≡ true)
                ↔ AllMarked (length r.slots) r1.is_ready =
              (
                λ c. all_slots_ready_marked r.slots r1.is_ready (sym runs ∙ c),
                λ m. runs ∙ marked-all_slots_ready r.slots r1.is_ready whole m,
              ) in
            rw (e, process_player_ready, check_all_ready-full r1 h counted)
              (
                subst
                    (λ rs.
                      (is_counting (set_countdown fl b r1).0 ≡ true)
                      ↔ AllMarked r.max_user_count rs)
                    (sym marks)
                    (subst
                      (λ n.
                        (is_counting (set_countdown fl b r1).0 ≡ true) ↔ AllMarked n r1.is_ready)
                      v.seats all),
                settled,
              )
      ]
