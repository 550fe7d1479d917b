-- ===== src/GameRoom/VisitTests.antt =====
-- Tests of visits to a room of two slots, by users of different names and by two of the same name.
use project_run_server.Base.{◌≡◌, refl, true, false, List, [], ◌∷◌, arith}
use project_run_server.Users.{Users, clear, eq_id}
use project_run_server.Slots.{contains, find_free}
use project_run_server.GameRoom.Doors.{init, enter_user, take_slot, leave_user}
use project_run_server.GameRoom.Examples.{ticks, pair, players}
use project_run_server.GameRoom.Members.{member, AllDifferent}
use project_run_server.GameRoom.Listed.{IsListed}
use project_run_server.GameRoom.Visits.{
  Visit, enters, leaves, logs_in, cleared, AllAllowed, run, run-IsListed, leave_user-namesake,
}

empty-IsListed : IsListed (init ticks 3 2)
unfolding init AllDifferent member contains
empty-IsListed = record { seated_once = tt; listed_once = tt; same = λ w. refl }

pair-IsListed : IsListed pair
unfolding AllDifferent member contains
pair-IsListed = record {
  seated_once = (refl, (refl, tt));
  listed_once = (refl, (refl, tt));
  same = λ w. refl;
}

-- Everybody is idle and without a name at first, as at the start of the server.
abbrev idle : Users
idle u = clear (players u)

abbrev visits : List Visit
visits = logs_in 4 (65 ∷ []) ∷ enters 4 ∷ logs_in 7 (66 ∷ []) ∷ enters 7 ∷ leaves 4 ∷ cleared 4 ∷ []

visits-AllAllowed : AllAllowed ticks visits (init ticks 3 2) idle
unfolding init contains enter_user take_slot find_free eq_id member
visits-AllAllowed = (tt, (refl, (tt, (refl, (λ w m same. ground (arith, m, same), (tt, tt))))))

run-IsListed_example : IsListed (run ticks visits (init ticks 3 2) idle).0
run-IsListed_example =
    run-IsListed ticks visits (init ticks 3 2) idle visits-AllAllowed empty-IsListed

-- everybody has the same name
abbrev namesakes : Users
namesakes u = record (players u) { user_id = 65 ∷ [] }

same_name : eq_id (65 ∷ []) (65 ∷ []) ≡ true
unfolding eq_id
same_name = refl

seven_sits : contains 7 pair.slots ≡ true
unfolding contains
seven_sits = refl

leave_user-namesake_example :
    (contains 7 (leave_user ticks pair namesakes 4).0.slots ≡ true)
    × (member 7 (leave_user ticks pair namesakes 4).0.user_list ≡ false)
leave_user-namesake_example =
    leave_user-namesake ticks pair namesakes 4 7 pair-IsListed seven_sits
      (λ e. absurd (omega (arith, e))) same_name
