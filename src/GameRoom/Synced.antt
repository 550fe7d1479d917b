-- ===== src/GameRoom/Synced.antt =====
-- What the room tells its users about who has moved.
use project_run_server.Base.{
  ℕ, ◌==◌, ◌≡◌, refl, sym, ap, ap₂, ◌∙◌, subst, fun_ext, inl, inr, true, false, ◌&&◌, ◌||◌, not,
  List, [], none, ◌∷◌, ◌++◌, ℤ, Bool-cases, if◌then◌else◌, arith,
}
use mathlib.Core.List.{Mem, mem-cons_self, mem-cons_of_mem, mem-append_left, mem-append_right}
use project_run_server.Gimmicks.{Vector3}
use project_run_server.Actors.{
  MotionFloats, Quaternion, Actor, zero_f, set_target, set_dirty, set_rotation, set_position,
}
use project_run_server.Gimmicks.Update.{update_gimmicks}
use project_run_server.GameRoom.{FloatOps}
use project_run_server.GameRoom.Members.{member, AllDifferent}
use project_run_server.GameRoom.Ready.{update_countdown}
use project_run_server.GameRoom.Tick.{
  sync_npcs, of_countdown, TickPacket, TickSend, tell_each, Scene, update, follow_datagram,
  movement, at_actor, tell, needs_sync, user_needs_sync, sync_packet, settle, sync_users,
  move_dist_sq, rot_diff_sq, gap_sq,
}

-- What holds of floats that are numbers, and not infinite.
pub record IsExact {F : Type 0} (ml : MotionFloats F) : Type 0 where
  pub self : (a : F) → ml.calc.sub a a ≡ zero_f ml.calc
  pub squared : ml.calc.mul (zero_f ml.calc) (zero_f ml.calc) ≡ zero_f ml.calc
  pub doubled : ml.calc.add (zero_f ml.calc) (zero_f ml.calc) ≡ zero_f ml.calc
  pub small : ml.calc.less (ml.calc.ratio 1 10000) (zero_f ml.calc) ≡ false

module _ {F : Type 0} (ml : MotionFloats F) where
  -- what the room has to say about a user, as the user is before `Update`
  abbrev pub news_of : List ℕ → Actor F → List (TickSend F)
  news_of told a = if user_needs_sync ml a then tell told (movement (sync_packet ml none a)) else []

  abbrev pub all_news : List ℕ → List ℕ → (ℕ → Actor F) → List (TickSend F)
  all_news told [] actors = []
  all_news told (u ∷ movers) actors = news_of told (actors u) ++ all_news told movers actors

  -- the actors afterwards
  abbrev pub all_settled : List ℕ → (ℕ → Actor F) → ℕ → Actor F
  all_settled movers actors v =
      if member v movers && user_needs_sync ml (actors v) then settle (actors v) else actors v

  abbrev step : ℕ → (ℕ → Actor F) → ℕ → Actor F
  step u actors = if user_needs_sync ml (actors u) then at_actor u settle actors else actors

  step-other : (u v : ℕ) (actors : ℕ → Actor F) → (v == u) ≡ false → step u actors v ≡ actors v
  step-other u v actors e = ground (arith, e)

  all_news-step :
      (told movers : List ℕ) (u : ℕ) (actors : ℕ → Actor F)
      → member u movers ≡ false
      → all_news told movers (step u actors) ≡ all_news told movers actors
  unfolding member
  all_news-step told [] u actors new = refl
  all_news-step told (v ∷ movers) u actors new =
      let other : (v == u) ≡ false = ground (arith, new) in
      ap₂ (λ a rest. news_of told a ++ rest) (step-other u v actors other)
        (all_news-step told movers u actors (ground (arith, new)))

  step_self :
      (movers : List ℕ) (u : ℕ) (actors : ℕ → Actor F)
      → member u movers ≡ false
      → all_settled movers (step u actors) u ≡ all_settled (u ∷ movers) actors u
  unfolding member
  step_self movers u actors new = elim (Bool-cases (user_needs_sync ml (actors u))) [
    | inl e ↦ ground (arith, e, new)
    | inr e ↦ ground (arith, e, new)
  ]

  all_settled-step :
      (movers : List ℕ) (u v : ℕ) (actors : ℕ → Actor F)
      → member u movers ≡ false
      → all_settled movers (step u actors) v ≡ all_settled (u ∷ movers) actors v
  unfolding member
  all_settled-step movers u v actors new = elim (Bool-cases (v == u)) [
    | inl e ↦
        let same : u ≡ v = ground (arith, e) in
        subst (λ w. all_settled movers (step u actors) w ≡ all_settled (u ∷ movers) actors w) same
          (step_self movers u actors new)
    | inr e ↦ ground (arith, e)
  ]

  -- The loop of `Update` over the users of a room, which changes each user as it goes, sends
  -- exactly what can be read off the users as they were before, one after the other, and notes as
  -- sent the positions of exactly those that it told of, if no user is on the list twice.
  pub sync_users-all_news :
      (told movers : List ℕ) (actors : ℕ → Actor F)
      → AllDifferent movers
      → ((sync_users ml told movers actors).1 ≡ all_news told movers actors)
        × ((sync_users ml told movers actors).0 ≡ all_settled movers actors)
  unfolding sync_users AllDifferent member
  sync_users-all_news told [] actors d = (refl, refl)
  sync_users-all_news told (u ∷ movers) actors (new, d) =
      let (sends, after) = sync_users-all_news told movers (step u actors) d in
      (
        ap (λ rest. news_of told (actors u) ++ rest)
            (sends ∙ all_news-step told movers u actors new),
        after ∙ fun_ext (λ v. all_settled-step movers u v actors new),
      )

  gap_sq_self : IsExact ml → (a : F) → gap_sq ml a a ≡ zero_f ml.calc
  gap_sq_self x a = ap₂ ml.calc.mul (x.self a) (x.self a) ∙ x.squared

  -- A sum of two zeros.
  add-zeros :
      IsExact ml
      → {a b : F} → a ≡ zero_f ml.calc
      → b ≡ zero_f ml.calc
      → ml.calc.add a b ≡ zero_f ml.calc
  add-zeros x p q = ap₂ ml.calc.add p q ∙ x.doubled

  move_dist_sq_self : IsExact ml → (p : Vector3 F) → move_dist_sq ml p p ≡ zero_f ml.calc
  unfolding move_dist_sq
  move_dist_sq_self x p = let z = gap_sq_self x in add-zeros x (add-zeros x (z p.x) (z p.y)) (z p.z)

  rot_diff_sq_self : IsExact ml → (q : Quaternion F) → rot_diff_sq ml q q ≡ zero_f ml.calc
  unfolding rot_diff_sq
  rot_diff_sq_self x q =
      let z = gap_sq_self x in
      add-zeros x (add-zeros x (add-zeros x (z q.x) (z q.y)) (z q.z)) (z q.w)

  settle-quiet : IsExact ml → (a : Actor F) → user_needs_sync ml (settle a) ≡ false
  unfolding settle needs_sync
  settle-quiet x a =
      rw
        (
          settle,
          needs_sync,
          move_dist_sq_self x a.server_pos,
          rot_diff_sq_self x a.rotation,
          x.small,
        )
        refl

  quiet-all_news :
      (told movers : List ℕ) (actors : ℕ → Actor F)
      → ((u : ℕ) → member u movers ≡ true → user_needs_sync ml (actors u) ≡ false)
      → all_news told movers actors ≡ []
  unfolding member
  quiet-all_news told [] actors quiet = refl
  quiet-all_news told (u ∷ movers) actors quiet =
      let rest = quiet-all_news told movers actors (λ v m. quiet v (ground (arith, m))) in
      rw (quiet u (ground arith)) rest

  sync_users-quiet :
      (told movers : List ℕ) (actors : ℕ → Actor F)
      → AllDifferent movers
      → ((u : ℕ) → member u movers ≡ true → user_needs_sync ml (actors u) ≡ false)
      → let still = sync_users ml told movers actors in (still.1 ≡ []) × (still.0 ≡ actors)
  sync_users-quiet told movers actors d quiet =
      let (sends, after) = sync_users-all_news told movers actors d in
      (
        sends ∙ quiet-all_news told movers actors quiet,
        after
            ∙ fun_ext (λ v. elim (Bool-cases (member v movers)) [
              | inl m ↦ (let q = quiet v m in rw (m, q) refl)
              | inr e ↦ rw (e) refl
            ]),
      )

  all_settled-quiet :
      IsExact ml
      → (movers : List ℕ) (actors : ℕ → Actor F) (u : ℕ) → member u movers ≡ true
      → user_needs_sync ml (all_settled movers actors u) ≡ false
  all_settled-quiet x movers actors u m = elim (Bool-cases (user_needs_sync ml (actors u))) [
    | inl e ↦ (let quiet = settle-quiet x (actors u) in rw (m, e) quiet)
    | inr e ↦ rw (m, e) e
  ]

  -- What the room has told of its users is not told again: the same loop once more, with nobody
  -- moved in between, sends nothing and changes nothing, if no user is on the list twice and the
  -- floats are numbers, not infinite.
  pub sync_users-once :
      (told movers : List ℕ) (actors : ℕ → Actor F)
      → IsExact ml
      → AllDifferent movers
      → let again = sync_users ml told movers (sync_users ml told movers actors).0 in
        (again.1 ≡ []) × (again.0 ≡ (sync_users ml told movers actors).0)
  sync_users-once told movers actors x d =
      let after = (sync_users-all_news told movers actors d).1 in
      sync_users-quiet told movers (sync_users ml told movers actors).0 d (λ u m.
        ap (λ acts. user_needs_sync ml (acts u)) after ∙ all_settled-quiet x movers actors u m)

  pub Mem-tell :
      (told : List ℕ) (v : ℕ) (p : TickPacket F) → member v told ≡ true → Mem (v, p) (tell told p)
  unfolding member
  Mem-tell [] v p m = absurd (ground (arith, m))
  Mem-tell (w ∷ told) v p m = elim (Bool-cases (w == v)) [
    | inl e ↦
        let same : v ≡ w = ground (arith, e) in
        subst (λ x. Mem (v, p) ((x, p) ∷ tell told p)) same mem-cons_self
    | inr e ↦ mem-cons_of_mem (w, p) (Mem-tell told v p (ground (arith, e, m)))
  ]

  Mem-all_news :
      (told movers : List ℕ) (actors : ℕ → Actor F) (u : ℕ) (send : TickSend F)
      → member u movers ≡ true
      → Mem send (news_of told (actors u))
      → Mem send (all_news told movers actors)
  unfolding member
  Mem-all_news told [] actors u send m h = absurd (ground (arith, m))
  Mem-all_news told (w ∷ movers) actors u send m h = elim (Bool-cases (w == u)) [
    | inl e ↦
        let same : u ≡ w = ground (arith, e) in
        mem-append_left (all_news told movers actors)
          (subst (λ x. Mem send (news_of told (actors x))) same h)
    | inr e ↦
        mem-append_right (news_of told (actors w))
          (Mem-all_news told movers actors u send (ground (arith, e, m)) h)
  ]

  follow_datagram-needs_sync :
      (p : Vector3 F) (rot : Quaternion F) (axis_h axis_v : F) (seq : ℕ) (a : Actor F)
      → user_needs_sync ml (follow_datagram p rot axis_h axis_v seq a) ≡ true
  unfolding follow_datagram needs_sync set_target set_dirty set_rotation set_position
  follow_datagram-needs_sync p rot axis_h axis_v seq a = ground arith

  Mem-news_of :
      (told : List ℕ) (v : ℕ) (a : Actor F)
      → member v told ≡ true
      → user_needs_sync ml a ≡ true
      → Mem (v, movement (sync_packet ml none a)) (news_of told a)
  Mem-news_of told v a m needs =
      let sent = Mem-tell told v (movement (sync_packet ml none a)) m in rw (needs) sent

  all_settled-needs :
      (movers : List ℕ) (actors : ℕ → Actor F) (u : ℕ) (a : Actor F)
      → member u movers ≡ true
      → actors u ≡ a
      → user_needs_sync ml a ≡ true
      → all_settled movers actors u ≡ settle a
  all_settled-needs movers actors u a m e needs = ground (arith, e, m, needs)

  abbrev pub after_datagram : ℕ → Vector3 F → Quaternion F → F → F → ℕ → Scene F → Scene F
  after_datagram u p rot axis_h axis_v seq s = record s {
    actors = at_actor u (follow_datagram p rot axis_h axis_v seq) s.actors;
  }

  -- When a movement datagram has named a user of a game server's room, the next `Update` of the
  -- room sends to each user `v` on the room's list a packet with the position, the rotation and the
  -- axes of that datagram, and afterwards the user is not marked as changed and the position counts
  -- as sent, if nobody is on the room's list twice.
  pub update-tells_moved :
      (fl : FloatOps F) (dt : F) (t1 t2 : ℤ) (now : ℕ) (s : Scene F) (u v : ℕ) (p : Vector3 F)
      (rot : Quaternion F) (axis_h axis_v : F) (seq : ℕ)
      → AllDifferent s.room.user_list
      → member u s.room.user_list ≡ true
      → member v s.room.user_list ≡ true
      → let (s', sends) = update ml fl dt t1 t2 now (after_datagram u p rot axis_h axis_v seq s) in
        Mem
          (
            v,
            movement (record {
              last_input_seq = none;
              user_uuid = (s.actors u).index;
              current_pos = p;
              current_rot = rot;
              current_speed = none;
              axis_h = axis_h;
              axis_v = axis_v;
              is_moving = not (ml.is_zero axis_h) || not (ml.is_zero axis_v);
            }),
          )
          sends
        × ((s'.actors u).is_dirty ≡ false)
        × ((s'.actors u).last_sent_pos ≡ p)
  unfolding update follow_datagram set_target set_dirty set_rotation set_position sync_packet settle
  update-tells_moved fl dt t1 t2 now s u v p rot axis_h axis_v seq d mu mv =
      let list = s.room.user_list in
      let acts = (after_datagram u p rot axis_h axis_v seq s).actors in
      let moved = follow_datagram p rot axis_h axis_v seq (s.actors u) in
      let here : acts u ≡ moved = ground arith in
      let needs = follow_datagram-needs_sync p rot axis_h axis_v seq (s.actors u) in
      let (sends, after) = sync_users-all_news list list acts d in
      let send : TickSend F = (v, movement (sync_packet ml none moved)) in
      let there : Mem send (all_news list list acts) =
        Mem-all_news list list acts u send mu
          (subst (λ b. Mem send (news_of list b)) (sym here) (Mem-news_of list v moved mv needs)) in
      let settled : (sync_users ml list list acts).0 u ≡ settle moved =
        ap (λ f. f u) after ∙ all_settled-needs list acts u moved mu here needs in
      let gs1 = (update_gimmicks ml.calc t1 dt s.gimmicks).0 in
      let first = tell_each list (update_gimmicks ml.calc t1 dt s.gimmicks).1 in
      let later = tell_each list (update_gimmicks ml.calc t2 dt gs1).1 in
      let counted = of_countdown (update_countdown fl dt now s.room).1 in
      (
        mem-append_left counted (
            mem-append_left later (
              mem-append_left (sync_npcs ml list s.npcs).1
                (mem-append_right first (subst (Mem send) (sym sends) there)))),
        ap (λ b. b.is_dirty) settled,
        ap (λ b. b.last_sent_pos) settled,
      )
