-- ===== src/GameRoom/Visits.antt =====
-- Histories of users who enter a game server's room and leave it, and users of the same name.
use project_run_server.Base.{ℕ, ◌≡◌, ◌≢◌, sym, ap, ap₂, ◌∙◌, true, false, List, [], ◌∷◌, arith}
use project_run_server.Users.{Users, at_user, set_domain_state, set_login, clear, login, eq_id}
use project_run_server.Slots.{contains}
use project_run_server.GameRoom.{FloatOps, GameRoom}
use project_run_server.GameRoom.Doors.{enter_user, leave_user}
use project_run_server.GameRoom.Members.{member, member-remove_named}
use project_run_server.GameRoom.Listed.{
  IsListed, OnlyName, enter_user-IsListed, leave_user-IsListed, leave_user-lists, contains-freed,
}

-- a call of `RoomManager::EnterUser` or `RoomManager::LeaveUser` that finds the room, or a user who logs in
-- under a name or is cleared for the next connection
pub data Visit : Type 0 where
  enters leaves : ℕ → Visit
  logs_in : ℕ → List ℕ → Visit
  cleared : ℕ → Visit

module _ {F : Type 0} (fl : FloatOps F) where
  abbrev pub visit : Visit → GameRoom F → Users → GameRoom F × Users
  visit (enters u) r us = let (code, r', us', sends) = enter_user fl r us u in (r', us')
  visit (leaves u) r us =
      let us' = at_user u (set_domain_state login) us in ((leave_user fl r us' u).0, us')
  visit (logs_in u name) r us = (r, at_user u (set_login name) us)
  visit (cleared u) r us = (r, at_user u clear us)

  abbrev pub run : List Visit → GameRoom F → Users → GameRoom F × Users
  run [] r us = (r, us)
  run (e ∷ es) r us = let (r', us') = visit e r us in run es r' us'

  -- Whoever enters has no slot, and nobody else on the list has the name of a user who leaves.
  abbrev pub IsAllowed : Visit → GameRoom F → Users → Type 0
  IsAllowed (enters u) r us = contains u r.slots ≡ false
  IsAllowed (leaves u) r us = OnlyName us u r.user_list
  IsAllowed _ r us = Unit

  abbrev pub AllAllowed : List Visit → GameRoom F → Users → Type 0
  AllAllowed [] r us = Unit
  AllAllowed (e ∷ es) r us = let (r', us') = visit e r us in IsAllowed e r us × AllAllowed es r' us'

  login-names :
      (us : Users) (u v : ℕ) → (at_user u (set_domain_state login) us v).user_id ≡ (us v).user_id
  login-names us u v = ground arith

  login-OnlyName :
      (us : Users) (u : ℕ) (list : List ℕ)
      → OnlyName us u list
      → OnlyName (at_user u (set_domain_state login) us) u list
  login-OnlyName us u list only w m same =
      only w m (ap₂ eq_id (sym (login-names us u u)) (sym (login-names us u w)) ∙ same)

  visit-IsListed :
      (e : Visit) (r : GameRoom F) (us : Users)
      → IsAllowed e r us
      → IsListed r
      → IsListed (visit e r us).0
  visit-IsListed (enters u) r us new v = enter_user-IsListed fl r us u new v
  visit-IsListed (leaves u) r us only v =
      leave_user-IsListed fl r (visit (leaves u) r us).1 u (login-OnlyName us u r.user_list only) v
  visit-IsListed (logs_in u name) r us a v = v
  visit-IsListed (cleared u) r us a v = v

  -- Whoever enters and leaves a room of the game server, and whoever logs in or is cleared in
  -- between, in whatever order, the list of users that the room's packets go to names exactly the
  -- users with slots, and nobody twice on the list or in the slots, if it was so at first, only
  -- users without a slot enter, and each time a user leaves nobody else on the list has that user's
  -- name.
  pub run-IsListed :
      (es : List Visit) (r : GameRoom F) (us : Users)
      → AllAllowed es r us
      → IsListed r
      → IsListed (run es r us).0
  run-IsListed [] r us a v = v
  run-IsListed (e ∷ es) r us (allowed, a) v =
      let next = visit e r us in run-IsListed es next.0 next.1 a (visit-IsListed e r us allowed v)

  -- When a user leaves a room of the game server in which another user of the same name has a slot,
  -- the other keeps the slot and is on the list of users that packets go to no more, if the list
  -- named the users with slots before.
  pub leave_user-namesake :
      (r : GameRoom F) (us : Users) (u v : ℕ)
      → IsListed r
      → contains v r.slots ≡ true
      → v ≢ u
      → eq_id (us u).user_id (us v).user_id ≡ true
      → let r' = (leave_user fl r us u).0 in
        (contains v r'.slots ≡ true) × (member v r'.user_list ≡ false)
  leave_user-namesake r us u v l there other same =
      let (seats, list) = leave_user-lists fl r us u in
      let left = contains-freed fl u v r.slots l.seated_once in
      let removed = member-remove_named us (us u).user_id r.user_list v in
      (
        ap (contains v) seats ∙ (left ∙ ground (arith, there, other)),
        ap (member v) list ∙ (removed ∙ ground (arith, same)),
      )
