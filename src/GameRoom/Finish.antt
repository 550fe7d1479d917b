-- ===== src/GameRoom/Finish.antt =====
-- The end of a dungeon run in Server/GameServer/Room.h: `ProcessEscapeRequest` and
-- `HandleDungeonReturnVillageReq`.
use project_run_server.Base.{
  ℕ, ◌-◌, ◌/◌, true, false, ◌&&◌, ltb, List, [], ◌++◌, none, some, ℤ, pos, add_ℤ, sub_ℕ, set,
  replicate, length, if◌then◌else◌,
}
use project_run_server.Slots.{find_slot}
use project_run_server.GameRoom.{
  FloatOps, Totals, no_totals, add_totals, escape_status_ntf, clear_ntf, return_village_ntf,
  GameSend, GameRoom, all_users_escaped, broadcast,
}

module _ {F : Type 0} (fl : FloatOps F) where
  -- a time in the clock's ticks of 100 nanoseconds, cut to seconds
  abbrev pub seconds_between : ℕ → ℕ → ℤ
  seconds_between start end =
      if ltb end start
      then add_ℤ (pos 0) (sub_ℕ 0 ((start - end) / 10000000))
      else pos ((end - start) / 10000000)

  -- the end of a dungeon run in `ProcessEscapeRequest`
  unfoldable pub clear_run : GameRoom F → GameRoom F
  clear_run r = record r {
    is_ready = replicate (length r.is_ready) false;
    is_escaped = replicate (length r.is_escaped) false;
    countdown_timer = fl.minus_one_f;
    totals = no_totals;
  }

  -- `ProcessEscapeRequest` at the time `now`
  unfoldable pub process_escape_request : GameRoom F → ℕ → Totals → ℕ → GameRoom F × List GameSend
  process_escape_request r u req now = elim (find_slot u r.slots) [
    | none ↦ (r, [])
    | some i ↦
        let r1 = record r {
          is_escaped = set r.is_escaped i true;
          totals = add_totals r.totals req;
        } in
        let told = broadcast r1 (escape_status_ntf u) in
        if all_users_escaped r1.slots r1.is_escaped && ltb 0 r1.current_user_count
        then (
          clear_run r1,
          told ++ broadcast r1 (clear_ntf (seconds_between r1.start_time now) r1.totals),
        )
        else (r1, told)
  ]

  -- `HandleDungeonReturnVillageReq`
  unfoldable pub handle_dungeon_return_village_req : GameRoom F → List GameSend
  handle_dungeon_return_village_req r = broadcast r return_village_ntf
