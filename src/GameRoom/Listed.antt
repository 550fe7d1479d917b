-- ===== src/GameRoom/Listed.antt =====
-- The user list of a game server's room, which packets are sent to, and its slots, through any history
-- of users who enter and leave.
use project_run_server.Base.{
  ℕ, ◌==◌, ◌≡◌, ◌≢◌, sym, ap, ◌∙◌, subst, inl, inr, true, false, ◌&&◌, not, List, none, some, set,
  leb, ◌+◌, ◌-◌, ◌%◌, Bool-cases, Option-cases, ℕ_discrete, arith,
}
use project_run_server.Users.{Users, eq_id}
use project_run_server.Redis.Tokens.{eq_id_self}
use project_run_server.Slots.{Slots, find_free, find_slot, contains, Distinct}
use project_run_server.Slots.Laws.{
  find_free-some, find_slot-some, find_slot-none, contains-set-some, contains-set-none,
  contains-set-none_self, Distinct-set-some, Distinct-set-none,
}
use project_run_server.GameRoom.{FloatOps, GameRoom, remove_named, u16}
use project_run_server.GameRoom.Doors.{
  enter_user, take_slot, leave_user, vacate_slot, hand_host, clear_slot, clear_ready,
}
use project_run_server.GameRoom.Ready.{check_all_ready, set_countdown}
use project_run_server.GameRoom.Members.{
  member, AllDifferent, member-append, AllDifferent-append, member-remove_named,
  AllDifferent-remove_named,
}

-- The list names exactly the users with slots, and nobody is twice on the list or in the slots.
pub record IsListed {F : Type 0} (r : GameRoom F) : Type 0 where
  pub seated_once : Distinct r.slots
  pub listed_once : AllDifferent r.user_list
  pub same : (w : ℕ) → member w r.user_list ≡ contains w r.slots

-- Nobody on a list has the name of `u`, but for `u`.
abbrev pub OnlyName : Users → ℕ → List ℕ → Type 0
OnlyName us u list =
    (w : ℕ) → member w list ≡ true → eq_id (us u).user_id (us w).user_id ≡ true → u ≡ w

module _ {F : Type 0} (fl : FloatOps F) where
  take_slot-IsListed :
      (r : GameRoom F) (us : Users) (u i : ℕ)
      → find_free r.slots ≡ some i
      → contains u r.slots ≡ false
      → IsListed r
      → IsListed (take_slot fl r us u i).0
  unfolding take_slot
  take_slot-IsListed r us u i e new v =
      let free = (find_free-some r.slots i e).1 in
      record {
        seated_once = Distinct-set-some r.slots i u free new v.seated_once;
        listed_once = AllDifferent-append r.user_list u v.listed_once (v.same u ∙ new);
        same = λ w.
            let seats = contains-set-some r.slots i u w free in
            let list = member-append r.user_list u w in ground (arith, seats, list, v.same w);
      }

  -- So it does after a user without a slot has entered.
  pub enter_user-IsListed :
      (r : GameRoom F) (us : Users) (u : ℕ)
      → contains u r.slots ≡ false
      → IsListed r
      → IsListed (enter_user fl r us u).1
  unfolding enter_user
  enter_user-IsListed r us u new v = elim (Bool-cases (leb r.max_user_count r.current_user_count)) [
    | inl full ↦ rw (enter_user, full) v
    | inr room ↦ elim (Option-cases (find_free r.slots)) [
      | inl e ↦ rw (enter_user, room, e) v
      | inr (i, e) ↦
          (let taken = take_slot-IsListed r us u i e new v in rw (enter_user, room, e) taken)
    ]
  ]

  -- the slots after somebody has left
  abbrev pub freed : ℕ → Slots → Slots
  freed u s = elim (find_slot u s) [ none ↦ s | some i ↦ set s i none ]

  freed-none : (u : ℕ) (s : Slots) → find_slot u s ≡ none → freed u s ≡ s
  freed-none u s e = ap (λ o. elim o [ none ↦ s | some i ↦ set s i none ]) e

  freed-some : (u : ℕ) (s : Slots) (i : ℕ) → find_slot u s ≡ some i → freed u s ≡ set s i none
  freed-some u s i e = ap (λ o. elim o [ none ↦ s | some j ↦ set s j none ]) e

  clear_slot-freed :
      (r : GameRoom F) (u : ℕ)
      → ((clear_slot fl u r).slots ≡ freed u r.slots)
        × ((clear_slot fl u r).user_list ≡ r.user_list)
  clear_slot-freed r u = elim (Option-cases (find_slot u r.slots)) [
    | inl e ↦ ground (arith, e)
    | inr (i, e) ↦ ground (arith, e)
  ]

  clear_ready-list :
      (r : GameRoom F) (u : ℕ)
      → ((clear_ready fl u r).slots ≡ r.slots) × ((clear_ready fl u r).user_list ≡ r.user_list)
  clear_ready-list r u = elim (Option-cases (find_slot u r.slots)) [
    | inl e ↦ ground (arith, e)
    | inr (i, e) ↦ ground (arith, e)
  ]

  vacate_slot-freed :
      (r : GameRoom F) (us : Users) (u : ℕ)
      → ((vacate_slot fl r us u).slots ≡ freed u r.slots)
        × ((vacate_slot fl r us u).user_list ≡ remove_named us (us u).user_id r.user_list)
  unfolding vacate_slot
  vacate_slot-freed r us u =
      let r1 = record r { user_list = remove_named us (us u).user_id r.user_list } in
      let r2 = clear_slot fl u r1 in
      let r3 = record r2 { current_user_count = (r2.current_user_count + u16 - 1) % u16 } in
      let cleared = clear_slot-freed r1 u in
      let kept = clear_ready-list r3 u in (kept.0 ∙ cleared.0, kept.1 ∙ cleared.1)

  Distinct-freed : (u : ℕ) (s : Slots) → Distinct s → Distinct (freed u s)
  Distinct-freed u s d = elim (Option-cases (find_slot u s)) [
    | inl e ↦ subst Distinct (sym (freed-none u s e)) d
    | inr (i, e) ↦ subst Distinct (sym (freed-some u s i e)) (Distinct-set-none s i d)
  ]

  pub contains-freed :
      (u w : ℕ) (s : Slots) → Distinct s → contains w (freed u s) ≡ (contains w s && not (u == w))
  contains-freed u w s d = elim (Option-cases (find_slot u s)) [
    | inl e ↦
        let gone = (find_slot-none u s).0 e in
        elim (Bool-cases (u == w)) [
          | inl here ↦
              let same : u ≡ w = ground (arith, here) in
              let missing = ap (λ x. contains x s) (sym same) ∙ gone in
              ap (contains w) (freed-none u s e) ∙ ground (arith, here, missing)
          | inr other ↦ ap (contains w) (freed-none u s e) ∙ ground (arith, other)
        ]
    | inr (i, e) ↦
        let seat = find_slot-some u s i e in
        elim (ℕ_discrete w u) [
          | yes same ↦
              let missing =
                ap (λ x. contains x (set s i none)) same ∙ contains-set-none_self s i u seat d in
              ap (contains w) (freed-some u s i e) ∙ ground (arith, same, missing)
          | no other ↦
              let kept = contains-set-none s i u w seat other in
              ap (contains w) (freed-some u s i e) ∙ ground (arith, other, kept)
        ]
  ]

  member-left :
      (us : Users) (u w : ℕ) (list : List ℕ)
      → OnlyName us u list
      → member w (remove_named us (us u).user_id list) ≡ (member w list && not (u == w))
  member-left us u w list names =
      let removed = member-remove_named us (us u).user_id list w in
      elim (Bool-cases (eq_id (us u).user_id (us w).user_id)) [
        | inl e ↦ elim (Bool-cases (member w list)) [
          | inl m ↦ (let same = names w m e in ground (arith, removed, e, m, same))
          | inr m ↦ ground (arith, removed, e, m)
        ]
        | inr e ↦
            let other : u ≢ w = λ same.
              (let self = eq_id_self (us u).user_id in
                let there = ap (λ x. eq_id (us u).user_id (us x).user_id) same in cc) in
            ground (arith, removed, e, other)
      ]

  hand_host-list :
      (r : GameRoom F) (u : ℕ)
      → ((hand_host fl r u).0.slots ≡ r.slots) × ((hand_host fl r u).0.user_list ≡ r.user_list)
  unfolding hand_host
  hand_host-list r u = ground arith

  check_all_ready-list :
      (r : GameRoom F)
      → ((check_all_ready fl r).0.slots ≡ r.slots)
        × ((check_all_ready fl r).0.user_list ≡ r.user_list)
  unfolding check_all_ready set_countdown
  check_all_ready-list r = ground arith

  pub leave_user-lists :
      (r : GameRoom F) (us : Users) (u : ℕ)
      → ((leave_user fl r us u).0.slots ≡ freed u r.slots)
        × ((leave_user fl r us u).0.user_list ≡ remove_named us (us u).user_id r.user_list)
  unfolding leave_user
  leave_user-lists r us u =
      let r0 = vacate_slot fl r us u in
      let r1 = (check_all_ready fl r0).0 in
      let checked = check_all_ready-list r0 in
      let handed = hand_host-list r1 u in
      let vacated = vacate_slot-freed r us u in
      (handed.0 ∙ (checked.0 ∙ vacated.0), handed.1 ∙ (checked.1 ∙ vacated.1))

  -- In a room whose list names the users with slots, once each, it does so after a user has left, if
  -- nobody else on it has the same name.
  pub leave_user-IsListed :
      (r : GameRoom F) (us : Users) (u : ℕ)
      → OnlyName us u r.user_list
      → IsListed r
      → IsListed (leave_user fl r us u).0
  leave_user-IsListed r us u names v =
      let (seats, list) = leave_user-lists r us u in
      record {
        seated_once = subst Distinct (sym seats) (Distinct-freed u r.slots v.seated_once);
        listed_once =
            subst AllDifferent (sym list)
              (AllDifferent-remove_named us (us u).user_id r.user_list v.listed_once);
        same = λ w.
            ap (member w) list
            ∙ (member-left us u w r.user_list names
                ∙ (ap (λ b. b && not (u == w)) (v.same w)
                    ∙ (sym (contains-freed u w r.slots v.seated_once)
                        ∙ sym (ap (contains w) seats))));
      }
