-- ===== src/GameRoom/Examples.antt =====
-- Game rooms of two slots with users 4 and 7, or user 4 alone. Time is counted in fiftieths of a second.
use project_run_server.Base.{
  zero, suc, ◌+◌, ◌/◌, refl, true, false, not, [], ◌∷◌, none, some, ℤ, pos, negsuc, add_ℤ, ltb_ℤ,
  arith,
}
use project_run_server.PacketBuffer
use project_run_server.Users.{Users, room}
use project_run_server.Slots.{occupied}
use project_run_server.GameRoom.{FloatOps, GameRoom, no_totals}
use project_run_server.GameRoom.Seats.{IsSeated}

abbrev negate : ℤ → ℤ
negate (pos zero) = pos 0
negate (pos (suc n)) = negsuc n
negate (negsuc n) = pos (suc n)

abbrev seconds_up : ℤ → ℤ
seconds_up (pos n) = pos ((n + 49) / 50)
seconds_up (negsuc n) = negate (pos ((n + 1) / 50))

abbrev pub ticks : FloatOps ℤ
ticks = record {
  sub = λ a b. add_ℤ a (negate b);
  less = ltb_ℤ;
  at_most = λ a b. not (ltb_ℤ b a);
  ceil = seconds_up;
  zero_f = pos 0;
  five = pos 250;
  minus_one_f = negsuc 49;
}

abbrev pub pair : GameRoom ℤ
pair = record {
  room_num = 3;
  max_user_count = 2;
  slots = some 4 ∷ some 7 ∷ [];
  is_ready = true ∷ false ∷ [];
  is_escaped = true ∷ false ∷ [];
  user_list = 4 ∷ 7 ∷ [];
  current_user_count = 2;
  host_uuid = pos 4;
  countdown_timer = negsuc 49;
  last_announced_second = pos 0;
  start_time = 0;
  totals = no_totals;
}

abbrev pub single : GameRoom ℤ
single = record pair { slots = some 4 ∷ none ∷ []; user_list = 4 ∷ []; current_user_count = 1 }

abbrev pub players : Users
players i = record {
  domain_state = room;
  room_index = pos 3;
  user_id = 65 ∷ i ∷ [];
  ping = pos 0;
  character_id = pos 0;
  inventory = [];
  pose = [];
  buffer = PacketBuffer.empty (λ j. 0);
}

pub single-IsSeated : IsSeated single
unfolding occupied
single-IsSeated = record {
  small = omega arith;
  seats = refl;
  marks = refl;
  escapes = refl;
  counted = refl;
}
