-- ===== src/LobbyRoom/Invariant.antt =====
-- What every method of a lobby room keeps true, whoever calls it and in whatever order.
use project_run_server.Base.{
  ℕ, suc, ◌<◌, ◌≡◌, refl, sym, ap, ◌∙◌, ◌⊎◌, inl, inr, ◌≢◌, Bool, true, false, List, none, some, ℤ,
  pos, eq_ℤ, arith, set, length, length-set, length-replicate, replicate, Option-cases, Bool-cases,
  ℕ_discrete, if◌then◌else◌, leb, ◌==◌, get_elem?,
}
use project_run_server.Users.{Users}
use project_run_server.Slots.{Slots, find_free, find_slot, occupied, contains, ReadyOnlyTaken}
use project_run_server.Slots.Marks.{
  replicate-ReadyOnlyTaken, ReadyOnlyTaken-set-some, ReadyOnlyTaken-set-none, ReadyOnlyTaken-set,
}
use project_run_server.Slots.Laws.{
  occupied-le-length, find_free-some, occupied-set-some, occupied-set-none, contains-set-some,
  find_slot-some, contains-set-none, first_user-pos, occupied-replicate,
}
use project_run_server.LobbyRoom.{
  Room, u16_mod, init, enter_user, take_seat, leave_user, vacate, free_seat, reset_empty, pass_host,
  process_player_ready, set_user_char_id, set_title, set_is_playing,
}

-- Somebody is host: a user with a seat, unless the room is empty.
abbrev pub HostSits : ℤ → Slots → Type 0
HostSits h s = (occupied s ≡ 0) ⊎ ((u : ℕ) × (h ≡ pos u) × (contains u s ≡ true))

pub record IsSeated (r : Room) : Type 0 where
  pub small : r.max_user_count < u16_mod
  pub seats : length r.slots ≡ r.max_user_count
  pub marks : length r.is_ready ≡ r.max_user_count
  pub chars : length r.char_ids ≡ r.max_user_count
  pub counted : r.current_user_count ≡ occupied r.slots
  pub ready : ReadyOnlyTaken r.slots r.is_ready

pub record IsValid (r : Room) : Type 0 where
  pub seated : IsSeated r
  pub open seated use *
  pub host : HostSits r.host_uuid r.slots

-- A fresh room is valid.
pub init-IsValid : (num max : ℕ) → max < u16_mod → IsValid (init num max)
unfolding init
init-IsValid num max h = record {
  seated = record {
    small = h;
    seats = length-replicate max none;
    marks = length-replicate max false;
    chars =
        ground (arith, length-replicate max (pos 0), length-set (replicate max (pos 0)) 1 (pos 1));
    counted = sym (occupied-replicate max);
    ready = replicate-ReadyOnlyTaken max;
  };
  host = inl (occupied-replicate max);
}

HostSits-set-some :
    (h : ℤ) (s : Slots) (i u n : ℕ)
    → get_elem? s i ≡ some none
    → n ≡ suc (occupied s)
    → HostSits h s
    → HostSits (if n == 1 then pos u else h) (set s i (some u))
HostSits-set-some h s i u n free e sits = elim (ℕ_discrete n 1) [
  | yes one ↦ inr (u, ground arith, ground (arith, contains-set-some s i u u free))
  | no more ↦ elim sits [
    | inl empty ↦ absurd (omega arith)
    | inr (w, host, there) ↦ inr (w, ground arith, ground (arith, contains-set-some s i u w free))
  ]
]

take_seat-IsValid :
    (r : Room) (us : Users) (u i : ℕ)
    → IsValid r
    → r.current_user_count < r.max_user_count
    → find_free r.slots ≡ some i
    → IsValid (take_seat r us u i).0
unfolding take_seat
take_seat-IsValid r us u i v room e =
    let free = (find_free-some r.slots i e).1 in
    record {
      seated = record {
        small = v.small;
        seats = length-set r.slots i (some u) ∙ v.seats;
        marks = v.marks;
        chars = v.chars;
        counted = omega (arith, occupied-set-some r.slots i u free, v.counted, v.small);
        ready = ReadyOnlyTaken-set-some r.slots r.is_ready i u v.ready;
      };
      host =
          HostSits-set-some r.host_uuid r.slots i u _ free (omega (arith, v.counted, v.small))
            v.host;
    }

-- `EnterUser` keeps a valid room valid, whoever enters.
pub enter_user-IsValid : (r : Room) (us : Users) (u : ℕ) → IsValid r → IsValid (enter_user r us u).1
unfolding enter_user
enter_user-IsValid r us u v = elim (Option-cases (find_free r.slots)) [
  | inl e ↦ ground (arith, e)
  | inr (i, e) ↦ ground (arith, e, take_seat-IsValid r us u i v)
]

-- The host after the user in seat `i` has left a room that is not empty now.
HostSits-pass_host :
    (r : Room) (s : Slots) (i u : ℕ)
    → get_elem? s i ≡ some (some u)
    → r.slots ≡ set s i none
    → occupied r.slots ≢ 0
    → HostSits r.host_uuid s
    → HostSits (pass_host r u).0.host_uuid (pass_host r u).0.slots
unfolding pass_host
HostSits-pass_host r s i u at e some_left sits =
    let left = first_user-pos r.slots some_left in
    elim (Bool-cases (eq_ℤ (pos u) r.host_uuid)) [
      | inl host ↦ rw (host, pass_host) (inr left)
      | inr other ↦
          rw (other, pass_host)
            (elim sits [
              | inl empty ↦ absurd (omega (arith, occupied-set-none s i u at))
              | inr (w, is, sat) ↦
                  inr (w, is, ap (contains w) e ∙ contains-set-none s i u w at (ground arith) ∙ sat)
            ])
    ]

vacate-IsSeated :
    (r : Room) (i u : ℕ) → IsValid r → get_elem? r.slots i ≡ some (some u) → IsSeated (vacate r i)
unfolding vacate
vacate-IsSeated r i u v at = record {
  small = v.small;
  seats = length-set r.slots i none ∙ v.seats;
  marks = length-set r.is_ready i false ∙ v.marks;
  chars = v.chars;
  counted = omega (arith, occupied-set-none r.slots i u at, occupied-le-length r.slots);
  ready = ReadyOnlyTaken-set-none r.slots r.is_ready i v.ready;
}

pass_host-IsSeated : (r : Room) (u : ℕ) → IsSeated r → IsSeated (pass_host r u).0
unfolding pass_host
pass_host-IsSeated r u v = ground arith

reset_empty-IsValid : (r : Room) → IsSeated r → r.current_user_count ≡ 0 → IsValid (reset_empty r)
unfolding reset_empty
reset_empty-IsValid r v e = ground arith

free_seat-IsValid :
    (r : Room) (us : Users) (u i : ℕ)
    → IsValid r
    → find_slot u r.slots ≡ some i
    → IsValid (free_seat r us u i).0
unfolding free_seat
free_seat-IsValid r us u i v e =
    let at = find_slot-some u r.slots i e in
    let w = vacate-IsSeated r i u v at in
    elim (Bool-cases (leb (vacate r i).current_user_count 0)) [
      | inl gone ↦ rw (gone, free_seat) (reset_empty-IsValid (vacate r i) w (ground arith))
      | inr stay ↦
          rw (stay, free_seat)
            (record {
              seated = pass_host-IsSeated (vacate r i) u w;
              host =
                  HostSits-pass_host (vacate r i) r.slots i u at (unfold vacate in refl)
                    (ground (arith, w.counted)) (unfold vacate in v.host);
            })
    ]

-- `LeaveUser` keeps a valid room valid, whoever leaves.
pub leave_user-IsValid : (r : Room) (us : Users) (u : ℕ) → IsValid r → IsValid (leave_user r us u).0
unfolding leave_user
leave_user-IsValid r us u v = elim (Option-cases (find_slot u r.slots)) [
  | inl e ↦ rw (e, leave_user) v
  | inr (i, e) ↦ rw (e, leave_user) (free_seat-IsValid r us u i v e)
]

-- `ProcessPlayerReady` keeps a valid room valid, for any user and any mark.
pub process_player_ready-IsValid :
    (r : Room) (u : ℕ) (b : Bool) → IsValid r → IsValid (process_player_ready r u b).0
unfolding process_player_ready
process_player_ready-IsValid r u b v = elim (Option-cases (find_slot u r.slots)) [
  | inl e ↦ rw (e, process_player_ready) v
  | inr (i, e) ↦ ground (
    arith,
    e,
    length-set r.is_ready i b,
    ReadyOnlyTaken-set r.slots r.is_ready i u b (find_slot-some u r.slots i e),
  )
]

pub set_user_char_id-IsValid :
    (u : ℕ) (c : ℤ) (r : Room) → IsValid r → IsValid (set_user_char_id u c r)
unfolding set_user_char_id
set_user_char_id-IsValid u c r v = elim (Option-cases (find_slot u r.slots)) [
  | inl e ↦ rw (e, set_user_char_id) v
  | inr (i, e) ↦ ground (arith, e, length-set r.char_ids i c)
]

pub set_title-IsValid : (t : List ℕ) (r : Room) → IsValid r → IsValid (set_title t r)
unfolding set_title
set_title-IsValid t r v = ground arith

pub set_is_playing-IsValid : (b : Bool) (r : Room) → IsValid r → IsValid (set_is_playing b r)
unfolding set_is_playing
set_is_playing-IsValid b r v = ground arith
