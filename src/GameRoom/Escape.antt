-- ===== src/GameRoom/Escape.antt =====
-- The end of a dungeon run: when it comes, and what is counted.
use project_run_server.Base.{
  ℕ, zero, suc, ◌<◌, ◌≡◌, ◌≢◌, refl, sym, ap, ◌∙◌, Bool, true, false, List, [], ◌∷◌, ◌++◌, map,
  none, some, ℤ, add_ℤ, arith, length, set, replicate, get_elem?, get_elem?-set_ne,
  get_elem?-set_self, get_elem?-lt, ℕ_discrete,
}
use project_run_server.Packets.Reading.{in_int32, signed-low}
use project_run_server.Slots.{Slots, find_slot}
use project_run_server.Slots.Laws.{find_slot-some, occupied-set-none}
use project_run_server.GameRoom.{
  FloatOps, GameRoom, Totals, no_totals, add_totals, listed, all_users_escaped, escape_status_ntf,
  clear_ntf,
}
use project_run_server.GameRoom.Finish.{clear_run, process_escape_request, seconds_between}
use project_run_server.GameRoom.Seats.{IsSeated}

-- Every user with a slot is marked as escaped.
abbrev pub Escaped : Slots → List Bool → Type 0
Escaped s es = (i w : ℕ) → get_elem? s i ≡ some (some w) → get_elem? es i ≡ some true

all_users_escaped_complete :
    (s : Slots) (es : List Bool) → Escaped s es → all_users_escaped s es ≡ true
unfolding all_users_escaped
all_users_escaped_complete [] es h = refl
all_users_escaped_complete (x ∷ s) [] h = refl
all_users_escaped_complete (none ∷ s) (e ∷ es) h = all_users_escaped_complete s es (λ i. h (suc i))
all_users_escaped_complete (some w ∷ s) (e ∷ es) h =
    ground (arith, h 0 w refl, all_users_escaped_complete s es (λ i. h (suc i)))

all_users_escaped_waits :
    (s : Slots) (es : List Bool) (i w : ℕ)
    → get_elem? s i ≡ some (some w)
    → get_elem? es i ≡ some false
    → all_users_escaped s es ≡ false
unfolding all_users_escaped
all_users_escaped_waits [] es i w e f = absurd (cc)
all_users_escaped_waits (x ∷ s) [] i w e f = absurd (cc)
all_users_escaped_waits (none ∷ s) (b ∷ es) zero w e f = absurd (cc)
all_users_escaped_waits (none ∷ s) (b ∷ es) (suc i) w e f = all_users_escaped_waits s es i w e f
all_users_escaped_waits (some v ∷ s) (b ∷ es) zero w e f = ground (arith, f)
all_users_escaped_waits (some v ∷ s) (b ∷ es) (suc i) w e f =
    ground (arith, all_users_escaped_waits s es i w e f)

-- the sums of two lists, number by number
abbrev pub sums : List ℤ → List ℤ → List ℤ
sums (a ∷ xs) (b ∷ ys) = add_ℤ a b ∷ sums xs ys
sums _ _ = []

-- Every number is in the range of INT32.
unfoldable pub AllInt32 : List ℤ → Type 0
AllInt32 [] = Unit
AllInt32 (x ∷ xs) = (in_int32 x ≡ true) × AllInt32 xs

add_totals-sums :
    (a b : Totals)
    → AllInt32 (sums (listed a) (listed b))
    → listed (add_totals a b) ≡ sums (listed a) (listed b)
unfolding add_totals AllInt32
add_totals-sums a b (h1, (h2, (h3, (h4, (h5, (h6, (h7, (h8, (h9, (h10, _)))))))))) =
    let e1 = signed-low (add_ℤ a.p1_push b.p1_push) h1 in
    let e2 = signed-low (add_ℤ a.p1_pull b.p1_pull) h2 in
    let e3 = signed-low (add_ℤ a.p1_fall b.p1_fall) h3 in
    let e4 = signed-low (add_ℤ a.p1_destroy b.p1_destroy) h4 in
    let e5 = signed-low (add_ℤ a.p1_fall_kill b.p1_fall_kill) h5 in
    let e6 = signed-low (add_ℤ a.p2_push b.p2_push) h6 in
    let e7 = signed-low (add_ℤ a.p2_pull b.p2_pull) h7 in
    let e8 = signed-low (add_ℤ a.p2_fall b.p2_fall) h8 in
    let e9 = signed-low (add_ℤ a.p2_destroy b.p2_destroy) h9 in
    let e10 = signed-low (add_ℤ a.p2_fall_kill b.p2_fall_kill) h10 in
    rw (e1, e2, e3, e4, e5, e6, e7, e8, e9, e10) refl

module _ {F : Type 0} (fl : FloatOps F) (r : GameRoom F) (v : IsSeated r) (u i : ℕ)
    (at : find_slot u r.slots ≡ some i) (req : Totals) (now : ℕ) where
  -- While another user with a slot has not escaped, an escape request of the user with slot `i`
  -- marks that slot, adds to the totals and tells the users of the escape, and changes and sends
  -- nothing else.
  pub process_escape_request-waits :
      (j w : ℕ)
      → get_elem? r.slots j ≡ some (some w)
      → j ≢ i
      → get_elem? r.is_escaped j ≡ some false
      → process_escape_request fl r u req now ≡ (
        record r { is_escaped = set r.is_escaped i true; totals = add_totals r.totals req },
        map (λ t. (t, escape_status_ntf u)) r.user_list,
      )
  unfolding process_escape_request
  process_escape_request-waits j w seat other waiting =
      let waits =
        all_users_escaped_waits r.slots (set r.is_escaped i true) j w seat
          (get_elem?-set_ne r.is_escaped i j true (λ e. other (sym e)) ∙ waiting) in
      ground (arith, at, waits)

  -- When all other users with slots have escaped, an escape request of the user with slot `i` ends
  -- the run: everybody on the user list gets the time since the start and ten totals, each the sum
  -- of the room's and the request's, if the sums are in the range of INT32; all marks are cleared,
  -- the countdown is off and the room's totals are 0.
  pub process_escape_request-clears :
      ((j w : ℕ)
        → get_elem? r.slots j ≡ some (some w)
        → j ≢ i
        → get_elem? r.is_escaped j ≡ some true)
      → AllInt32 (sums (listed r.totals) (listed req))
      → let (r', sends) = process_escape_request fl r u req now in
        ((t : Totals) × (listed t ≡ sums (listed r.totals) (listed req))
          × (sends
              ≡ map (λ x. (x, escape_status_ntf u)) r.user_list
                ++ map (λ x. (x, clear_ntf (seconds_between fl r.start_time now) t)) r.user_list))
        × (r'.is_ready ≡ replicate (length r.is_ready) false)
        × (r'.is_escaped ≡ replicate (length (set r.is_escaped i true)) false)
        × (r'.countdown_timer ≡ fl.minus_one_f)
        × (r'.totals ≡ no_totals)
  unfolding process_escape_request clear_run
  process_escape_request-clears others range =
      let seat = find_slot-some u r.slots i at in
      let done = all_users_escaped_complete r.slots (set r.is_escaped i true) escaped in
      let some_user : 0 < r.current_user_count =
        omega (arith, v.counted, occupied-set-none r.slots i u seat) in
      let added = add_totals-sums r.totals req range in
      let (sent, ready, marks, timer, zeros) = ended done some_user in
      ((add_totals r.totals req, added, sent), ready, marks, timer, zeros)
    where
      ended :
          all_users_escaped r.slots (set r.is_escaped i true) ≡ true
          → 0 < r.current_user_count
          → let (r', sends) = process_escape_request fl r u req now in
            (sends
              ≡ map (λ x. (x, escape_status_ntf u)) r.user_list
                ++ map
                    (λ x. (
                      x,
                      clear_ntf (seconds_between fl r.start_time now) (add_totals r.totals req),
                    ))
                    r.user_list)
            × (r'.is_ready ≡ replicate (length r.is_ready) false)
            × (r'.is_escaped ≡ replicate (length (set r.is_escaped i true)) false)
            × (r'.countdown_timer ≡ fl.minus_one_f)
            × (r'.totals ≡ no_totals)
      ended done some_user = ground (arith, at, done, some_user)

      inside : (j w : ℕ) → get_elem? r.slots j ≡ some (some w) → j ≡ i → i < length r.is_escaped
      inside j w e q = omega (arith, v.escapes, v.seats, q, get_elem?-lt r.slots j (some w) e)

      escaped : Escaped r.slots (set r.is_escaped i true)
      escaped j w e = elim (ℕ_discrete j i) [
        | yes same ↦
            ap (get_elem? (set r.is_escaped i true)) same
            ∙ get_elem?-set_self r.is_escaped i true (inside j w e same)
        | no other ↦
            get_elem?-set_ne r.is_escaped i j true (λ q. other (sym q)) ∙ others j w e other
      ]
