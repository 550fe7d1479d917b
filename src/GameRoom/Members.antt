-- ===== src/GameRoom/Members.antt =====
-- Who is on the user list of a game server's room, `mUserList`.
use project_run_server.Base.{
  ℕ, ◌==◌, ◌≡◌, refl, ap, inl, inr, Bool, false, ◌&&◌, ◌||◌, not, List, [], ◌∷◌, ◌++◌, Bool-cases,
  arith,
}
use project_run_server.Users.{Users, eq_id}
use project_run_server.GameRoom.{remove_named}

unfoldable pub member : ℕ → List ℕ → Bool
member u [] = false
member u (v ∷ list) = (v == u) || member u list

-- Nobody is on the list twice.
unfoldable pub AllDifferent : List ℕ → Type 0
AllDifferent [] = Unit
AllDifferent (u ∷ list) = (member u list ≡ false) × AllDifferent list

pub member-append :
    (list : List ℕ) (u w : ℕ) → member w (list ++ u ∷ []) ≡ (member w list || (u == w))
unfolding member
member-append [] u w = ground arith
member-append (v ∷ list) u w = ground (arith, member-append list u w)

pub AllDifferent-append :
    (list : List ℕ) (u : ℕ)
    → AllDifferent list
    → member u list ≡ false
    → AllDifferent (list ++ u ∷ [])
unfolding AllDifferent member
AllDifferent-append [] u d new = (refl, tt)
AllDifferent-append (v ∷ list) u (n, d) new = (
  ground (arith, n, new, member-append list u v),
  AllDifferent-append list u d (ground (arith, new)),
)

-- Those of another name stay.
pub member-remove_named :
    (us : Users) (id : List ℕ) (list : List ℕ) (w : ℕ)
    → member w (remove_named us id list) ≡ (member w list && not (eq_id id (us w).user_id))
unfolding member
member-remove_named us id [] w = refl
member-remove_named us id (v ∷ list) w =
    let rest = member-remove_named us id list w in
    elim (Bool-cases (v == w)) [
      | inl e ↦
          let here : v ≡ w = ground (arith, e) in
          let name = ap (λ x. eq_id id (us x).user_id) here in ground (arith, e, rest, name)
      | inr e ↦ ground (arith, e, rest)
    ]

pub AllDifferent-remove_named :
    (us : Users) (id : List ℕ) (list : List ℕ)
    → AllDifferent list
    → AllDifferent (remove_named us id list)
unfolding AllDifferent
AllDifferent-remove_named us id [] d = d
AllDifferent-remove_named us id (v ∷ list) (n, d) =
    let rest = AllDifferent-remove_named us id list d in
    elim (Bool-cases (eq_id id (us v).user_id)) [
      | inl e ↦ rw (e) rest
      | inr e ↦ rw (e) (ground (arith, n, member-remove_named us id list v), rest)
    ]
