-- ===== src/GameServer/Examples.antt =====
-- Parameters for examples: whole numbers in place of floats, and no text that is a number.
use project_run_server.Base.{ℕ, List, Option, none, ℤ, pos, add_ℤ}
use project_run_server.Gimmicks.{GimmickFloats}
use project_run_server.GameRoom.Examples.{ticks}
use project_run_server.GameServer.Dispatch.{Clock}

abbrev pub wholes : GimmickFloats ℤ
wholes = record {
  add = add_ℤ;
  sub = ticks.sub;
  mul = add_ℤ;
  div = add_ℤ;
  sqrt = λ a. a;
  less = ticks.less;
  at_most = ticks.at_most;
  trunc = λ a. a;
  ratio = λ a b. pos 0;
}

abbrev pub no_bits : ℤ → ℕ
no_bits x = 0

abbrev pub no_number : List ℕ → Option ℤ
no_number s = none

abbrev pub noon : Clock
noon = record { now_ms = pos 43200000; now = 43200 }
