-- ===== src/Users/Buffers.antt =====
-- What the handlers of packets do to the receive buffers: nothing, or they are cleared.
use project_run_server.Base.{ℕ, ◌≤◌, ◌==◌, ◌≡◌, refl, ap, arith, subst, inl, inr, Bool-cases}
use project_run_server.PacketBuffer.{remain}
use project_run_server.PacketBuffer.Invariant.{IsValid, clear-IsValid, remain-clear}
use project_run_server.Users.{User, Users, at_user, clear}

-- The buffer of `y` is valid if that of `x` is, and has no more unread bytes.
pub record IsMilder (x y : User) : Type 0 where
  pub valid : IsValid x.buffer → IsValid y.buffer
  pub no_more : remain y.buffer ≤ remain x.buffer

pub IsMilder-refl : (x y : User) → y.buffer ≡ x.buffer → IsMilder x y
IsMilder-refl x y e = record { valid = λ v. rw e v; no_more = omega (arith, ap remain e) }

pub IsMilder-clear : (x : User) → IsMilder x (clear x)
IsMilder-clear x = record {
  valid = λ v. clear-IsValid x.buffer;
  no_more = omega (arith, remain-clear x.buffer);
}

pub IsMilder-trans : (x y z : User) → IsMilder x y → IsMilder y z → IsMilder x z
IsMilder-trans x y z h k = record {
  valid = λ v. k.valid (h.valid v);
  no_more = omega (arith, h.no_more, k.no_more);
}

abbrev pub AllMilder : Users → Users → Type 0
AllMilder us vs = (w : ℕ) → IsMilder (us w) (vs w)

pub AllMilder-same : (us : Users) → AllMilder us us
AllMilder-same us w = IsMilder-refl (us w) (us w) refl

pub AllMilder-trans : (us vs ws : Users) → AllMilder us vs → AllMilder vs ws → AllMilder us ws
AllMilder-trans us vs ws h k w = IsMilder-trans (us w) (vs w) (ws w) (h w) (k w)

pub AllMilder-at_user :
    (i : ℕ) (f : User → User) (us : Users)
    → IsMilder (us i) (f (us i))
    → AllMilder us (at_user i f us)
AllMilder-at_user i f us h w = elim (Bool-cases (w == i)) [
  | inl e ↦
      let same : i ≡ w = ground (arith, e) in rw e (subst (λ k. IsMilder (us k) (f (us k))) same h)
  | inr e ↦ rw e (IsMilder-refl (us w) (us w) refl)
]
