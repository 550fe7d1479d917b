-- ===== src/GameRoom/Ready.antt =====
-- Ready marks and the countdown of a room of the game server, in Server/GameServer/Room.h:
-- `CheckAllReady`, `ProcessPlayerReady` and the countdown in `Update`.
use project_run_server.Base.{
  ℕ, Bool, ◌&&◌, ◌||◌, not, ltb, ◌==◌, List, [], ◌++◌, none, some, pos, ltb_ℤ, set, if◌then◌else◌,
}
use project_run_server.Slots.{find_slot}
use project_run_server.GameRoom.{
  FloatOps, ready_status_ntf, countdown_ntf, start_ntf, ready_cancel_ntf, GameSend, GameRoom,
  all_slots_ready, broadcast,
}

module _ {F : Type 0} (fl : FloatOps F) where
  -- the last part of `CheckAllReady`
  unfoldable pub set_countdown : Bool → GameRoom F → GameRoom F × List GameSend
  set_countdown all_ready r =
      if all_ready && fl.less r.countdown_timer fl.zero_f
      then (record r { countdown_timer = fl.five; last_announced_second = pos 6 }, [])
      else if not all_ready && fl.less fl.zero_f r.countdown_timer
      then (record r { countdown_timer = fl.minus_one_f }, broadcast r ready_cancel_ntf)
      else (r, [])

  unfoldable pub check_all_ready : GameRoom F → GameRoom F × List GameSend
  check_all_ready r =
      if (r.current_user_count == 0) || ltb r.current_user_count r.max_user_count
      then (r, [])
      else set_countdown (all_slots_ready r.slots r.is_ready) r

  -- `ProcessPlayerReady`
  unfoldable pub process_player_ready : GameRoom F → ℕ → Bool → GameRoom F × List GameSend
  process_player_ready r u ready = elim (find_slot u r.slots) [
    | none ↦ (r, [])
    | some i ↦
        let r1 = record r { is_ready = set r.is_ready i ready } in
        let (r2, sends) = check_all_ready r1 in
        (r2, broadcast r1 (ready_status_ntf u ready) ++ sends)
  ]

  -- The part of `Update` for the countdown, `dt` later, at the time `now`.
  unfoldable pub update_countdown : F → ℕ → GameRoom F → GameRoom F × List GameSend
  update_countdown dt now r =
      if fl.less fl.zero_f r.countdown_timer
      then (let timer = fl.sub r.countdown_timer dt in
          let sec = fl.ceil timer in
          let told = ltb_ℤ sec r.last_announced_second in
          let over = fl.at_most timer fl.zero_f in
          (
            record r {
              countdown_timer = if over then fl.minus_one_f else timer;
              last_announced_second = if told then sec else r.last_announced_second;
              start_time = if over then now else r.start_time;
            },
            (if told then broadcast r (countdown_ntf sec) else [])
                ++ (if over then broadcast r (start_ntf 1) else []),
          ))
      else (r, [])
