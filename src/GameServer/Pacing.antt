-- ===== src/GameServer/Pacing.antt =====
-- How often the logic thread updates the rooms, and what of a room a round changes.
use project_run_server.Base.{
  ℕ, zero, suc, ◌+◌, ◌*◌, ◌≤◌, ◌<◌, ◌≡◌, ◌≢◌, refl, sym, ap, ◌∙◌, inl, inr, ltb, List, [], ◌∷◌,
  Option, none, some, pos, length, get_elem?, get_elem?-set_self, get_elem?-set_ne, get_elem?-lt,
  length-set, ℕ_discrete, subst, Bool-cases, Option-cases, arith, if◌then◌else◌,
}
use project_run_server.Gimmicks.{Gimmick}
use project_run_server.Gimmicks.Update.{update_gimmicks}
use project_run_server.Actors.{MotionFloats}
use project_run_server.GameRoom.{FloatOps, GameRoom}
use project_run_server.GameRoom.Ready.{update_countdown}
use project_run_server.GameRoom.Tick.{update}
use project_run_server.GameServer.{GameRooms, find_room}
use project_run_server.GameServer.Logic.{
  Stage, RoomClock, Pace, tick_interval, end_round, scene_of, update_room, update_rooms,
  fixed_delta_time,
}

-- a round: when it begins, and what the clock reads after the rooms' updates
pub record Round : Type 0 where
  pub begin : ℕ
  pub now : ℕ

abbrev pub sleep_time : Option ℕ → ℕ
sleep_time none = 0
sleep_time (some d) = d

abbrev pub slept : Round → Pace → ℕ
slept r p = r.now + sleep_time (end_round r.now p).1

-- The rounds follow each other on a clock that does not go back, and a sleep lasts at least as long as
-- was asked for, from the time `t` on.
abbrev pub IsTimed : ℕ → Pace → List Round → Type 0
IsTimed t p [] = Unit
IsTimed t p (r ∷ rs) =
    (t ≤ r.begin) × (r.begin ≤ r.now) × IsTimed (slept r p) (end_round r.now p).0 rs

-- when the last round is over
abbrev pub end_of : ℕ → Pace → List Round → ℕ
end_of t p [] = t
end_of t p (r ∷ rs) = end_of (slept r p) (end_round r.now p).0 rs

end_round-next :
    (now : ℕ) (p : Pace)
    → ((end_round now p).0.next_tick ≤ now + sleep_time (end_round now p).1)
      × (p.next_tick + tick_interval ≤ (end_round now p).0.next_tick)
unfolding end_round
end_round-next now p = ground arith

-- After `n` rounds of the logic thread at least `n` times 20 milliseconds have passed since the
-- time for which the first of them was due, however long the rounds take and the sleeps last, if
-- the first does not begin before that time, the clock does not go back and no sleep is shorter
-- than was asked for.
pub end_of-paced :
    (t : ℕ) (p : Pace) (rs : List Round)
    → p.next_tick ≤ t
    → IsTimed t p rs
    → p.next_tick + tick_interval * length rs ≤ end_of t p rs
end_of-paced t p [] h w = omega arith
end_of-paced t p (r ∷ rs) h (a, b, w) =
    let next = end_round-next r.now p in
    let ih = end_of-paced (slept r p) (end_round r.now p).0 rs next.0 w in omega (arith, ih, next.1)

module _ {F : Type 0} (fl : FloatOps F) (ml : MotionFloats F) where
  -- a room after a round, with the clock that its update reads
  abbrev pub room_after : RoomClock → GameRoom F → GameRoom F
  room_after c r =
      if ltb 0 r.current_user_count
      then (update_countdown fl (fixed_delta_time fl ml) c.now r).0
      else r

  -- the gimmicks of a room after a round
  abbrev pub gimmicks_after : RoomClock → GameRoom F → List (Gimmick F) → List (Gimmick F)
  gimmicks_after c r gs =
      if ltb 0 r.current_user_count
      then (update_gimmicks ml.calc c.second_ms (fixed_delta_time fl ml)
          (update_gimmicks ml.calc c.first_ms (fixed_delta_time fl ml) gs).0).0
      else gs

  -- The rooms have the numbers from 0 on.
  abbrev pub IsNumbered : GameRooms F → Type 0
  IsNumbered m = (m.begin_room_number ≡ 0) × (m.end_room_number ≡ length m.room_list)

  find_room-here :
      (m : GameRooms F) (k : ℕ) (r : GameRoom F)
      → IsNumbered m
      → get_elem? m.room_list k ≡ some r
      → find_room m (pos k) ≡ some (k, r)
  unfolding find_room
  find_room-here m k r (b, l) e =
      let small = get_elem?-lt m.room_list k r e in ground (arith, b, l, e, small)

  find_room-number :
      (m : GameRooms F) (i k : ℕ) (r : GameRoom F)
      → IsNumbered m
      → find_room m (pos i) ≡ some (k, r)
      → k ≡ i
  unfolding find_room
  find_room-number m i k r (b, l) e = elim (Option-cases (get_elem? m.room_list i)) [
    | inl n ↦ absurd (ground (arith, b, e, n))
    | inr (x, n) ↦ ground (arith, b, e, n)
  ]

  update_room_self :
      (clock : ℕ → RoomClock) (k : ℕ) (s : Stage F) (r : GameRoom F)
      → IsNumbered s.world.game.rooms
      → get_elem? s.world.game.rooms.room_list k ≡ some r
      → let s' = (update_room fl ml clock k s).0 in
        (get_elem? s'.world.game.rooms.room_list k ≡ some (room_after (clock k) r))
        × (s'.world.gimmicks k ≡ gimmicks_after (clock k) r (s.world.gimmicks k))
  unfolding update_room update
  update_room_self clock k s r v e =
      let found = find_room-here s.world.game.rooms k r v e in
      let c = clock k in
      let scene =
        (update ml fl (fixed_delta_time fl ml) c.first_ms c.second_ms c.now (scene_of k r s)).0 in
      let there =
        get_elem?-set_self s.world.game.rooms.room_list k scene.room
          (get_elem?-lt s.world.game.rooms.room_list k r e) in
      elim (Bool-cases (ltb 0 r.current_user_count)) [
        | inl busy ↦ rw (update_room, found, busy) (there, ground arith)
        | inr idle ↦ rw (update_room, found, idle) (e, refl)
      ]

  update_room-other :
      (clock : ℕ → RoomClock) (i k : ℕ) (s : Stage F)
      → IsNumbered s.world.game.rooms
      → i ≢ k
      → let s' = (update_room fl ml clock i s).0 in
        (get_elem? s'.world.game.rooms.room_list k ≡ get_elem? s.world.game.rooms.room_list k)
        × (s'.world.gimmicks k ≡ s.world.gimmicks k)
  unfolding update_room update
  update_room-other clock i k s v ne = elim (Option-cases (find_room s.world.game.rooms (pos i))) [
    | inl e ↦ rw (update_room, e) (refl, refl)
    | inr ((j, r), e) ↦
        let c = clock i in
        let scene =
          (update ml fl (fixed_delta_time fl ml) c.first_ms c.second_ms c.now (scene_of j r s)).0 in
        let j_ne : j ≢ k =
          λ same. ne (sym (find_room-number s.world.game.rooms i j r v e) ∙ same) in
        let there = get_elem?-set_ne s.world.game.rooms.room_list j k scene.room j_ne in
        elim (Bool-cases (ltb 0 r.current_user_count)) [
          | inl busy ↦ rw (update_room, e, busy) (there, ground (arith, j_ne))
          | inr idle ↦ rw (update_room, e, idle) (refl, refl)
        ]
  ]

  update_room-IsNumbered :
      (clock : ℕ → RoomClock) (i : ℕ) (s : Stage F)
      → IsNumbered s.world.game.rooms
      → IsNumbered (update_room fl ml clock i s).0.world.game.rooms
  unfolding update_room
  update_room-IsNumbered clock i s v = elim (Option-cases (find_room s.world.game.rooms (pos i))) [
    | inl e ↦ rw (update_room, e) v
    | inr ((j, r), e) ↦
        let c = clock i in
        let scene =
          (update ml fl (fixed_delta_time fl ml) c.first_ms c.second_ms c.now (scene_of j r s)).0 in
        elim (Bool-cases (ltb 0 r.current_user_count)) [
          | inl busy ↦
              rw (update_room, e, busy)
                (v.0, v.1 ∙ sym (length-set s.world.game.rooms.room_list j scene.room))
          | inr idle ↦ rw (update_room, e, idle) v
        ]
  ]

  update_rooms-outside :
      (clock : ℕ → RoomClock) (n i k : ℕ) (s : Stage F)
      → IsNumbered s.world.game.rooms
      → k < i
      → let s' = (update_rooms fl ml clock n i s).0 in
        (get_elem? s'.world.game.rooms.room_list k ≡ get_elem? s.world.game.rooms.room_list k)
        × (s'.world.gimmicks k ≡ s.world.gimmicks k)
  unfolding update_rooms
  update_rooms-outside clock zero i k s v h = (refl, refl)
  update_rooms-outside clock (suc n) i k s v h =
      let s1 = (update_room fl ml clock i s).0 in
      let step = update_room-other clock i k s v (omega (arith, h)) in
      let rest =
        update_rooms-outside clock n (suc i) k s1 (update_room-IsNumbered clock i s v)
          (omega arith) in
      (rest.0 ∙ step.0, rest.1 ∙ step.1)

  -- A round of the logic thread over the rooms from number `i` on, in a manager that numbers its
  -- rooms from 0, does to each of these rooms and its gimmicks, once, what the countdown and two
  -- updates of the gimmicks by 0.02 seconds do, if the room counts users, and nothing otherwise.
  pub update_rooms-each :
      (clock : ℕ → RoomClock) (n i k : ℕ) (s : Stage F) (r : GameRoom F)
      → IsNumbered s.world.game.rooms
      → i ≤ k
      → k < i + n
      → get_elem? s.world.game.rooms.room_list k ≡ some r
      → let s' = (update_rooms fl ml clock n i s).0 in
        (get_elem? s'.world.game.rooms.room_list k ≡ some (room_after (clock k) r))
        × (s'.world.gimmicks k ≡ gimmicks_after (clock k) r (s.world.gimmicks k))
  unfolding update_rooms
  update_rooms-each clock zero i k s r v low high e = absurd (omega (arith, low, high))
  update_rooms-each clock (suc n) i k s r v low high e =
      let s1 = (update_room fl ml clock i s).0 in
      let v1 = update_room-IsNumbered clock i s v in
      elim (ℕ_discrete i k) [
        | yes same ↦
            let here =
              update_room_self clock i s r v
                (ap (get_elem? s.world.game.rooms.room_list) same ∙ e) in
            let rest = update_rooms-outside clock n (suc i) i s1 v1 (omega arith) in
            subst
              (λ j.
                (get_elem? (update_rooms fl ml clock (suc n) i s).0.world.game.rooms.room_list j
                  ≡ some (room_after (clock j) r))
                × ((update_rooms fl ml clock (suc n) i s).0.world.gimmicks j
                    ≡ gimmicks_after (clock j) r (s.world.gimmicks j)))
              same (rest.0 ∙ here.0, rest.1 ∙ here.1)
        | no other ↦
            let step = update_room-other clock i k s v other in
            let rest =
              update_rooms-each clock n (suc i) k s1 r v1 (omega (arith, low, other))
                (omega (arith, high)) (step.0 ∙ e) in
            (rest.0, rest.1 ∙ ap (gimmicks_after (clock k) r) step.1)
      ]
