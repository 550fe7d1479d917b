-- ===== src/GameRoom/Tests.antt =====
-- What the theorems on the game server's room say of the rooms of GameRoom/Examples.
use project_run_server.Base.{
  ℕ, zero, suc, ◌≡◌, ◌≢◌, ◌↔◌, refl, true, false, [], ◌∷◌, ◌++◌, map, some, pos, negsuc, arith,
  get_elem?,
}
use project_run_server.Packets.{enter_room_full_user}
use project_run_server.Slots.{occupied, contains, find_slot}
use project_run_server.GameRoom.{Totals, no_totals, listed, escape_status_ntf, clear_ntf}
use project_run_server.GameRoom.Doors.{init, enter_user, leave_user}
use project_run_server.GameRoom.Ready.{process_player_ready}
use project_run_server.GameRoom.Finish.{process_escape_request, seconds_between}
use project_run_server.GameRoom.Seats.{
  IsSeated, leave_user-ready_kept, leave_user-wraps, init-IsSeated,
}
use project_run_server.GameRoom.Countdown.{
  IsOrdered, is_counting, IsSettled, AllMarked, process_player_ready-counting,
}
use project_run_server.GameRoom.Escape.{sums, AllInt32, process_escape_request-clears}
use project_run_server.GameRoom.Examples.{ticks, pair, players}

abbrev counts : Totals
counts = record no_totals { p1_push = pos 3; p2_fall = pos 2 }

pair-IsSeated : IsSeated pair
unfolding occupied
pair-IsSeated = record {
  small = omega arith;
  seats = refl;
  marks = refl;
  escapes = refl;
  counted = refl;
}

sit : (contains 4 pair.slots ≡ true) × (contains 7 pair.slots ≡ true) × (occupied pair.slots ≡ 2)
unfolding contains occupied
sit = (refl, refl, refl)

seats_of : (find_slot 4 pair.slots ≡ some 0) × (find_slot 7 pair.slots ≡ some 1)
unfolding find_slot
seats_of = (refl, refl)

no_slots_taken : (occupied (init ticks 3 2).slots ≡ 0) × (contains 4 (init ticks 3 2).slots ≡ false)
unfolding occupied contains init
no_slots_taken = (refl, refl)

ticks-IsOrdered : IsOrdered ticks
ticks-IsOrdered = record { below = refl; not_below = refl; above = refl; not_above = refl }

leave_user-ready_kept_example : (leave_user ticks pair players 4).0.is_ready ≡ true ∷ false ∷ []
unfolding contains
leave_user-ready_kept_example = leave_user-ready_kept ticks pair players 4 (refl, (refl, tt))

leave_user-wraps_example :
    let r' = (leave_user ticks (init ticks 3 2) players 4).0 in
    (r'.current_user_count ≡ 65535) × ((enter_user ticks r' players 9).0 ≡ enter_room_full_user)
leave_user-wraps_example =
    leave_user-wraps ticks (init ticks 3 2) players players 4 9
      (init-IsSeated ticks 3 2 (omega arith)) no_slots_taken.0 no_slots_taken.1

process_player_ready-counting_example :
    let r' = (process_player_ready ticks pair 7 true).0 in
    ((is_counting ticks r' ≡ true) ↔ AllMarked 2 r'.is_ready) × IsSettled ticks r'
process_player_ready-counting_example =
    process_player_ready-counting ticks pair 7 true ticks-IsOrdered pair-IsSeated refl (omega arith)
      sit.2 sit.1

counts_range : AllInt32 (sums (listed no_totals) (listed counts))
unfolding AllInt32
counts_range = (refl, (refl, (refl, (refl, (refl, (refl, (refl, (refl, (refl, (refl, tt))))))))))

other_escaped :
    (j w : ℕ)
    → get_elem? pair.slots j ≡ some (some w)
    → j ≢ 1
    → get_elem? pair.is_escaped j ≡ some true
other_escaped zero w e n = refl
other_escaped (suc zero) w e n = absurd (n refl)
other_escaped (suc (suc j)) w e n = absurd (cc)

process_escape_request-clears_example :
    let (r', sends) = process_escape_request ticks pair 7 counts 70000000 in
    ((t : Totals) × (listed t ≡ sums (listed no_totals) (listed counts))
      × (sends
          ≡ map (λ x. (x, escape_status_ntf 7)) pair.user_list
            ++ map (λ x. (x, clear_ntf (seconds_between ticks 0 70000000) t)) pair.user_list))
    × (r'.is_ready ≡ false ∷ false ∷ [])
    × (r'.is_escaped ≡ false ∷ false ∷ [])
    × (r'.countdown_timer ≡ negsuc 49)
    × (r'.totals ≡ no_totals)
process_escape_request-clears_example =
    process_escape_request-clears ticks pair pair-IsSeated 7 1 seats_of.1 counts 70000000
      other_escaped counts_range
