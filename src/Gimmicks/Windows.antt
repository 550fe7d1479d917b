-- ===== src/Gimmicks/Windows.antt =====
-- The window in which the pushes of a gimmick are collected, and gimmicks that are destroyed.
use project_run_server.Base.{
  ◌==◌, ◌≡◌, refl, sym, ap, ◌∙◌, subst, inl, inr, Bool, true, false, ◌&&◌, ◌||◌, not, List, [], ◌∷◌,
  ◌++◌, ℤ, pos, negsuc, eq_ℤ, if◌then◌else◌, arith, Bool-cases,
}
use project_run_server.Gimmicks.{
  GimmickFloats, Gimmick, GimmickRequest, GimmickNtf, broken, checkpoint, falling_platform,
  gimmick_push,
}
use project_run_server.Gimmicks.Interact.{
  takes_part, open_window, push, accept, interact, reset, zero_f, trigger_move, destroy_or_fall,
}
use project_run_server.Gimmicks.Update.{
  recover, resolve, tick_window, update_gimmick, last_or, close_window,
}

abbrev has_any : List ℤ → Bool
has_any [] = false
has_any (u ∷ us) = true

-- No user is on the list twice.
unfoldable pub NoTwice : List ℤ → Type 0
NoTwice [] = Unit
NoTwice (u ∷ us) = (takes_part u us ≡ false) × NoTwice us

-- A window is open exactly if somebody has pushed, and counts nobody twice.
pub record IsTended {F : Type 0} (g : Gimmick F) : Type 0 where
  pub shown : g.is_interacting ≡ has_any g.interactor_uuids
  pub once : NoTwice g.interactor_uuids

pub eq_ℤ_comm : (a b : ℤ) → eq_ℤ a b ≡ eq_ℤ b a
eq_ℤ_comm (pos a) (pos b) = ground arith
eq_ℤ_comm (pos a) (negsuc b) = refl
eq_ℤ_comm (negsuc a) (pos b) = refl
eq_ℤ_comm (negsuc a) (negsuc b) = ground arith

takes_part-append :
    (w u : ℤ) (us : List ℤ)
    → takes_part w us ≡ false
    → eq_ℤ u w ≡ false
    → takes_part w (us ++ u ∷ []) ≡ false
unfolding takes_part
takes_part-append w u [] a b = ground (arith, b)
takes_part-append w u (v ∷ us) a b = elim (Bool-cases (eq_ℤ v w)) [
  | inl e ↦ absurd (ground (arith, a, e))
  | inr e ↦ ground (arith, a, b, e, takes_part-append w u us (ground (arith, a, e)) b)
]

NoTwice-append :
    (u : ℤ) (us : List ℤ) → NoTwice us → takes_part u us ≡ false → NoTwice (us ++ u ∷ [])
unfolding NoTwice takes_part
NoTwice-append u [] n h = (refl, tt)
NoTwice-append u (v ∷ us) (a, n) h = elim (Bool-cases (eq_ℤ v u)) [
  | inl e ↦ absurd (ground (arith, h, e))
  | inr e ↦
      (takes_part-append v u us a (eq_ℤ_comm u v ∙ e), NoTwice-append u us n (ground (arith, h, e)))
]

has_any-append : (u : ℤ) (us : List ℤ) → has_any (us ++ u ∷ []) ≡ true
has_any-append u [] = refl
has_any-append u (v ∷ us) = refl

-- what happens to a gimmick
pub data Event (F : Type 0) : Type 0 where
  interacts : GimmickRequest F → Event F
  resets : Event F
  ticks : ℤ → F → Event F

module _ {F : Type 0} (fl : GimmickFloats F) where
  -- an operation that does not touch the window
  untouched :
      (g h : Gimmick F)
      → h.is_interacting ≡ g.is_interacting
      → h.interactor_uuids ≡ g.interactor_uuids
      → IsTended g
      → IsTended h
  untouched g h a b v = record { shown = a ∙ v.shown ∙ ap has_any (sym b); once = rw b v.once }

  open_window-uuids :
      (q : GimmickRequest F) (g : Gimmick F)
      → ((open_window fl q g).interactor_uuids ≡ g.interactor_uuids)
        × ((open_window fl q g).is_interacting ≡ true)
  open_window-uuids q g = elim (Bool-cases g.is_interacting) [
    | inl e ↦ rw e (refl, refl)
    | inr e ↦ rw e (refl, refl)
  ]

  push-IsTended : (q : GimmickRequest F) (g : Gimmick F) → IsTended g → IsTended (push fl q g)
  unfolding push
  push-IsTended q g v = elim (Bool-cases (takes_part q.active_uuid g.interactor_uuids)) [
    | inl e ↦ rw (e, push) v
    | inr e ↦
        let (same, on) = open_window-uuids q g in
        let joined = NoTwice-append q.active_uuid g.interactor_uuids v.once e in
        rw (e, push)
          (record {
            shown = on ∙ sym (has_any-append q.active_uuid (open_window fl q g).interactor_uuids);
            once = rw same joined;
          })
  ]

  step_uuids :
      (q : GimmickRequest F) (g : Gimmick F)
      → let h = destroy_or_fall fl q (trigger_move fl q (record g { current_state = q.state })) in
        (h.is_interacting ≡ g.is_interacting) × (h.interactor_uuids ≡ g.interactor_uuids)
  step_uuids q g = (ground arith, ground arith)

  accept-IsTended : (q : GimmickRequest F) (g : Gimmick F) → IsTended g → IsTended (accept fl q g).0
  unfolding accept
  accept-IsTended q g v =
      let h = destroy_or_fall fl q (trigger_move fl q (record g { current_state = q.state })) in
      let (a, b) = step_uuids q g in
      let w : IsTended h = untouched g h a b v in
      elim (Bool-cases ((q.state == gimmick_push) && not (q.gimmick_key == checkpoint))) [
        | inl e ↦ subst IsTended (ground (arith, e)) (push-IsTended q h w)
        | inr e ↦ untouched h (accept fl q g).0 (ground (arith, e)) (ground (arith, e)) w
      ]

  -- the two early returns of `ProcessGimmickInteract`
  abbrev refuses : GimmickRequest F → Gimmick F → Bool
  refuses q g =
      broken g || ((g.type == falling_platform) && (g.current_state == 1) && (q.state == 1))

  interact-IsTended :
      (q : GimmickRequest F) (g : Gimmick F) → IsTended g → IsTended (interact fl q g).0
  unfolding interact
  interact-IsTended q g v = elim (Bool-cases (refuses q g)) [
    | inl e ↦ subst IsTended (ground (arith, e)) v
    | inr e ↦ subst IsTended (ground (arith, e)) (accept-IsTended q g v)
  ]

  recover-IsTended : (dt : F) (g : Gimmick F) → IsTended g → IsTended (recover fl dt g).0
  unfolding recover
  recover-IsTended dt g v = untouched g (recover fl dt g).0 (ground arith) (ground arith) v

  none_pushed : (g : Gimmick F) → g.is_interacting ≡ false → g.interactor_uuids ≡ [] → IsTended g
  unfolding NoTwice
  none_pushed g a b = record { shown = a ∙ ap has_any (sym b); once = rw b tt }

  tick_window-IsTended :
      (now : ℤ) (dt : F) (g : Gimmick F) → IsTended g → IsTended (tick_window fl now dt g).0
  unfolding tick_window
  tick_window-IsTended now dt g v =
      let left = fl.sub g.interact_window_timer dt in
      elim (Bool-cases (g.is_interacting && fl.at_most left (zero_f fl))) [
        | inl e ↦ none_pushed (tick_window fl now dt g).0 (ground (arith, e)) (ground (arith, e))
        | inr e ↦ untouched g (tick_window fl now dt g).0 (ground (arith, e)) (ground (arith, e)) v
      ]

  reset-IsTended : (g : Gimmick F) → IsTended (reset fl g)
  unfolding reset
  reset-IsTended g = none_pushed (reset fl g) refl refl

  unfoldable pub happen : Event F → Gimmick F → Gimmick F
  happen (interacts q) g = (interact fl q g).0
  happen resets g = reset fl g
  happen (ticks now dt) g = (update_gimmick fl now dt g).0

  unfoldable pub history : List (Event F) → Gimmick F → Gimmick F
  history [] g = g
  history (e ∷ es) g = history es (happen e g)

  happen-IsTended : (e : Event F) (g : Gimmick F) → IsTended g → IsTended (happen e g)
  unfolding happen update_gimmick
  happen-IsTended (interacts q) g v = interact-IsTended q g v
  happen-IsTended resets g v = reset-IsTended g
  happen-IsTended (ticks now dt) g v =
      tick_window-IsTended now dt (recover fl dt g).0 (recover-IsTended dt g v)

  -- Whatever happens to a gimmick (requests of users, resets, updates in any order), its window of
  -- pushes is open exactly if somebody has pushed in it, and no user is counted twice, if that was
  -- so at first.
  pub history-IsTended :
      (es : List (Event F)) (g : Gimmick F) → IsTended g → IsTended (history es g)
  unfolding history
  history-IsTended [] g v = v
  history-IsTended (e ∷ es) g v = history-IsTended es (happen e g) (happen-IsTended e g v)

  interact-broken :
      (p : GimmickRequest F) (g : Gimmick F) → broken g ≡ true → interact fl p g ≡ (g, [])
  unfolding interact
  interact-broken p g e = rw (e, interact) refl

  -- After a request with state 99 the gimmick has no hit points, and any further request for it
  -- changes and sends nothing.
  pub interact-destroys :
      (q p : GimmickRequest F) (g : Gimmick F)
      → q.state ≡ 99
      → let g' = (interact fl q g).0 in (broken g' ≡ true) × (interact fl p g' ≡ (g', []))
  unfolding interact accept
  interact-destroys q p g e =
      let gone : broken (interact fl q g).0 ≡ true = ground (arith, e) in
      (gone, interact-broken p (interact fl q g).0 gone)

  last_or-append : (us : List ℤ) (u d : ℤ) → last_or (us ++ u ∷ []) d ≡ u
  last_or-append [] u d = refl
  last_or-append (v ∷ us) u d = last_or-append us u v

  resolve_lem :
      (now : ℤ) (g : Gimmick F)
      → let (g', n) = resolve fl now g in
        (n.active_uuid ≡ last_or g.interactor_uuids (pos 0))
        × (n.gimmick_id ≡ g.gimmick_id)
        × (n.state ≡ (if broken g' then 99 else gimmick_push))
  unfolding resolve
  resolve_lem now g = (ground arith, ground arith, ground arith)

  -- When the time of a gimmick's window of pushes is up, where `u` was the last to push, exactly
  -- one packet is sent: it names `u` and the gimmick and tells of a push, or of the break if no hit
  -- points are left, and the window is empty and closed.
  pub tick_window-closes :
      (now : ℤ) (dt : F) (g : Gimmick F) (u : ℤ) (us : List ℤ)
      → IsTended g
      → g.interactor_uuids ≡ us ++ u ∷ []
      → fl.at_most (fl.sub g.interact_window_timer dt) (zero_f fl) ≡ true
      → let (g', told) = tick_window fl now dt g in
        (n : GimmickNtf F) × (told ≡ n ∷ [])
        × (n.active_uuid ≡ u)
        × (n.gimmick_id ≡ g.gimmick_id)
        × (n.state ≡ (if broken g' then 99 else gimmick_push))
        × IsTended g'
        × (g'.interactor_uuids ≡ [])
  unfolding tick_window
  tick_window-closes now dt g u us v e over =
      let on : g.is_interacting ≡ true = v.shown ∙ ap has_any e ∙ has_any-append u us in
      let g1 = record g { interact_window_timer = fl.sub g.interact_window_timer dt } in
      let (who, which, how) = resolve_lem now g1 in
      let kept = tick_window-IsTended now dt g v in
      let closed : tick_window fl now dt g
          ≡ (close_window fl (resolve fl now g1).0, (resolve fl now g1).1 ∷ []) =
        rw (tick_window, on, over) refl in
      (
        (resolve fl now g1).1,
        rw (tick_window, on, over) refl,
        who ∙ ap (λ l. last_or l (pos 0)) e ∙ last_or-append us u (pos 0),
        which,
        how ∙ ap (λ t. if broken t.0 then 99 else gimmick_push) (sym closed),
        kept,
        rw (tick_window, on, over) refl,
      )
