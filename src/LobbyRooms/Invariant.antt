-- ===== src/LobbyRooms/Invariant.antt =====
-- The room manager keeps every room valid and under its own number.
use project_run_server.Base.{
  ℕ, zero, suc, ◌+◌, ◌<◌, ◌≡◌, refl, ap, subst, ◌∙◌, inl, inr, List, [], ◌∷◌, some, ℤ, pos, negsuc,
  arith, length, length-set, get_elem?, set, Option-cases,
}
use project_run_server.Users.{Users, at_user, set_domain_state, login}
use project_run_server.LobbyRoom.{Room, u16_mod}
use project_run_server.LobbyRoom
use project_run_server.LobbyRoom.Invariant.{
  IsValid as IsValidRoom, init-IsValid as init-room-IsValid,
  enter_user-IsValid as enter_room-IsValid, leave_user-IsValid as leave_room-IsValid,
}
use project_run_server.LobbyRoom.Kept.{
  SameRoom, init_fields, enter_user-SameRoom as enter_room-SameRoom,
  leave_user-SameRoom as leave_room-SameRoom,
}
use project_run_server.LobbyRooms.{
  RoomManager, make_rooms, init, find_room, put_room, clear_room, find_empty_room, pick_room,
  enter_user, leave_user,
}

-- The rooms of a list, numbered from `n` on, are valid, have their numbers and seat `max` users.
abbrev pub Numbered : ℕ → ℕ → List Room → Type 0
Numbered max n [] = Unit
Numbered max n (r ∷ rs) =
    (IsValidRoom r × (r.room_num ≡ n) × (r.max_user_count ≡ max)) × Numbered max (suc n) rs

pub record IsValid (max : ℕ) (m : RoomManager) : Type 0 where
  pub rooms : Numbered max m.begin_room_number m.room_list
  pub counted : length m.room_list ≡ m.max_room_count
  pub last : m.end_room_number ≡ m.begin_room_number + m.max_room_count
  pub small : max < u16_mod

abbrev pub RoomFacts : ℕ → ℕ → Room → Type 0
RoomFacts max n r = IsValidRoom r × (r.room_num ≡ n) × (r.max_user_count ≡ max)

pub Numbered-get :
    (max n : ℕ) (rs : List Room) (k : ℕ) (r : Room)
    → Numbered max n rs
    → get_elem? rs k ≡ some r
    → RoomFacts max (n + k) r
Numbered-get max n [] k r h e = absurd (cc)
Numbered-get max n (x ∷ rs) zero r h e =
    let q : x ≡ r = cc in
    let at : n ≡ n + 0 = omega arith in
    subst (RoomFacts max (n + 0)) q (subst (λ k. RoomFacts max k x) at h.0)
Numbered-get max n (x ∷ rs) (suc k) r h e =
    let at : suc n + k ≡ n + suc k = omega arith in
    subst (λ j. RoomFacts max j r) at (Numbered-get max (suc n) rs k r h.1 e)

pub Numbered-set :
    (max n : ℕ) (rs : List Room) (k : ℕ) (r : Room)
    → Numbered max n rs
    → RoomFacts max (n + k) r
    → Numbered max n (set rs k r)
Numbered-set max n [] k r h f = tt
Numbered-set max n (x ∷ rs) zero r h f =
    let at : n + 0 ≡ n = omega arith in (subst (λ k. RoomFacts max k r) at f, h.1)
Numbered-set max n (x ∷ rs) (suc k) r h f =
    let at : n + suc k ≡ suc n + k = omega arith in
    (h.0, Numbered-set max (suc n) rs k r h.1 (subst (λ j. RoomFacts max j r) at f))

fresh_facts : (n max : ℕ) → max < u16_mod → RoomFacts max n (LobbyRoom.init n max)
fresh_facts n max h = (init-room-IsValid n max h, (init_fields n max).0, (init_fields n max).1)

make_rooms-Numbered :
    (max n i first : ℕ) → max < u16_mod → Numbered max (i + first) (make_rooms n i first max)
make_rooms-Numbered max zero i first h = tt
make_rooms-Numbered max (suc n) i first h =
    let at : i + 1 + first ≡ suc (i + first) = omega arith in
    (
      fresh_facts (i + first) max h,
      subst (λ k. Numbered max k (make_rooms n (i + 1) first max)) at
          (make_rooms-Numbered max n (i + 1) first h),
    )

length-make_rooms : (n i first max : ℕ) → length (make_rooms n i first max) ≡ n
length-make_rooms zero i first max = refl
length-make_rooms (suc n) i first max = ap suc (length-make_rooms n (i + 1) first max)

-- `Init` makes rooms that are valid and numbered in a row.
pub init-IsValid : (first n max : ℕ) → max < u16_mod → IsValid max (init first n max)
unfolding init
init-IsValid first n max h = record {
  rooms =
      let at : 0 + first ≡ first = omega arith in
      subst (λ k. Numbered max k (make_rooms n 0 first max)) at
        (make_rooms-Numbered max n 0 first h);
  counted = length-make_rooms n 0 first max;
  last = refl;
  small = h;
}

-- A room that is found is in the list, and its number is the one asked for.
pub find_room_lem :
    (m : RoomManager) (n : ℤ) (k : ℕ) (r : Room)
    → find_room m n ≡ some (k, r)
    → (get_elem? m.room_list k ≡ some r) × (n ≡ pos (m.begin_room_number + k))
unfolding find_room
find_room_lem m (negsuc n) k r e = absurd (cc)
find_room_lem m (pos n) k r e = ground arith

find_empty_room_lem :
    (j i : ℕ) (m : RoomManager) (k : ℕ) (r : Room)
    → find_empty_room j i m ≡ some (k, r)
    → (get_elem? m.room_list k ≡ some r) × (r.current_user_count ≡ 0)
unfolding find_empty_room
find_empty_room_lem zero i m k r e = absurd (cc)
find_empty_room_lem (suc j) i m k r e = elim (Option-cases (find_room m (pos i))) [
  | inl none_there ↦ ground (arith, none_there, find_empty_room_lem j (i + 1) m k r)
  | inr ((k', r'), there) ↦
      ground
        (arith, there, find_room_lem m (pos i) k' r' there, find_empty_room_lem j (i + 1) m k r)
]

pub pick_room_lem :
    (n : ℤ) (m : RoomManager) (k : ℕ) (r : Room)
    → pick_room n m ≡ some (k, r)
    → get_elem? m.room_list k ≡ some r
unfolding pick_room
pick_room_lem n m k r e =
    ground (arith, find_empty_room_lem m.max_room_count 0 m k r, find_room_lem m n k r)

pub put_room-IsValid :
    (max : ℕ) (m : RoomManager) (k : ℕ) (r : Room)
    → IsValid max m
    → RoomFacts max (m.begin_room_number + k) r
    → IsValid max (put_room k r m)
unfolding put_room
put_room-IsValid max m k r v f = record {
  rooms = Numbered-set max m.begin_room_number m.room_list k r v.rooms f;
  counted = length-set m.room_list k r ∙ v.counted;
  last = v.last;
  small = v.small;
}

-- The facts of a room in the list, and of what a method has made of it.
kept_facts :
    (max : ℕ) (m : RoomManager) (k : ℕ) (r r' : Room)
    → IsValid max m
    → get_elem? m.room_list k ≡ some r
    → (IsValidRoom r → IsValidRoom r')
    → SameRoom r r'
    → RoomFacts max (m.begin_room_number + k) r'
kept_facts max m k r r' v e keep same =
    let f = Numbered-get max m.begin_room_number m.room_list k r v.rooms e in
    (keep f.0, same.0 ∙ f.1, same.1 ∙ f.2)

-- A method that keeps rooms valid, run on a room of the list, keeps the manager valid.
pub update-IsValid :
    (max : ℕ) (m : RoomManager) (k : ℕ) (r r' : Room)
    → IsValid max m
    → get_elem? m.room_list k ≡ some r
    → (IsValidRoom r → IsValidRoom r')
    → SameRoom r r'
    → IsValid max (put_room k r' m)
update-IsValid max m k r r' v e keep same =
    put_room-IsValid max m k r' v (kept_facts max m k r r' v e keep same)

pub clear_room-IsValid :
    (max : ℕ) (n : ℤ) (m : RoomManager) → IsValid max m → IsValid max (clear_room n m)
unfolding clear_room
clear_room-IsValid max (negsuc n) m v = v
clear_room-IsValid max (pos n) m v = elim (Option-cases (find_room m (pos n))) [
  | inl e ↦ rw (e, clear_room) v
  | inr ((k, r), e) ↦
      let at = find_room_lem m (pos n) k r e in
      let f = Numbered-get max m.begin_room_number m.room_list k r v.rooms at.0 in
      rw (e, clear_room)
        (put_room-IsValid max m k (LobbyRoom.init n r.max_user_count) v (
          subst (λ j. RoomFacts max j (LobbyRoom.init n r.max_user_count)) (ground arith)
            (subst (λ j. RoomFacts j n (LobbyRoom.init n r.max_user_count)) f.2
              (fresh_facts n r.max_user_count (omega (arith, v.small, f.2))))))
]

pub enter_user-IsValid :
    (max : ℕ) (m : RoomManager) (us : Users) (n : ℤ) (u : ℕ)
    → IsValid max m
    → IsValid max (enter_user m us n u).1
unfolding enter_user
enter_user-IsValid max m us n u v = elim (Option-cases (pick_room n m)) [
  | inl e ↦ rw (e, enter_user) v
  | inr ((k, r), e) ↦
      rw (e, enter_user)
        (update-IsValid max m k r (LobbyRoom.enter_user r us u).1 v (pick_room_lem n m k r e)
          (enter_room-IsValid r us u) (enter_room-SameRoom r us u))
]

pub leave_user-IsValid :
    (max : ℕ) (m : RoomManager) (us : Users) (n : ℤ) (u : ℕ)
    → IsValid max m
    → IsValid max (leave_user m us n u).1
unfolding leave_user
leave_user-IsValid max m us n u v = elim (Option-cases (find_room m n)) [
  | inl e ↦ rw (e, leave_user) v
  | inr ((k, r), e) ↦
      let us' = at_user u (set_domain_state login) us in
      let r' = (LobbyRoom.leave_user r us' u).0 in
      let w =
        update-IsValid max m k r r' v (find_room_lem m n k r e).0 (leave_room-IsValid r us' u)
          (leave_room-SameRoom r us' u) in
      rw (e, leave_user) (ground (arith, w, clear_room-IsValid max n (put_room k r' m) w))
]
