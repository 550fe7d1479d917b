-- ===== src/PacketBuffer/Bytes.antt =====
-- Slices of the buffer's memory, and what the two copies do to them.
use project_run_server.Base.{
  ℕ, zero, suc, ◌+◌, ◌-◌, ◌≤◌, ◌<◌, ◌≡◌, refl, ap, ap₂, ◌∙◌, List, [], ◌∷◌, ◌++◌, arith, length,
  get_or, take, drop,
}
use project_run_server.PacketBuffer.{Memory, slice, move_front, copy_in}

module _ (m : Memory) where
  pub length-slice : (i n : ℕ) → length (slice m i n) ≡ n
  length-slice i zero = refl
  length-slice i (suc n) = ap suc (length-slice (i + 1) n)

  pub get_or-slice : (i n k : ℕ) → k < n → get_or (slice m i n) k 0 ≡ m (i + k)
  get_or-slice i zero k h = absurd (omega arith)
  get_or-slice i (suc n) zero h = ap m (omega arith)
  get_or-slice i (suc n) (suc k) h =
      rw (get_or-slice (i + 1) n k (omega arith)) (ap m (omega arith))

  pub take-slice : (i n k : ℕ) → k ≤ n → take k (slice m i n) ≡ slice m i k
  take-slice i n zero h = refl
  take-slice i zero (suc k) h = absurd (omega arith)
  take-slice i (suc n) (suc k) h = ap (◌∷◌ (m i)) (take-slice (i + 1) n k (omega arith))

  pub drop-slice : (i n k : ℕ) → k ≤ n → drop k (slice m i n) ≡ slice m (i + k) (n - k)
  drop-slice i n zero h = ap₂ (slice m) (omega arith) (omega arith)
  drop-slice i zero (suc k) h = absurd (omega arith)
  drop-slice i (suc n) (suc k) h =
      rw (drop-slice (i + 1) n k (omega arith)) (ap₂ (slice m) (omega arith) (omega arith))

  pub slice-append : (i n k : ℕ) → slice m i (n + k) ≡ slice m i n ++ slice m (i + n) k
  slice-append i zero k = ap₂ (slice m) (omega arith) (omega arith)
  slice-append i (suc n) k =
      let front : suc n + k ≡ suc (n + k) = omega arith in
      let back : i + 1 + n ≡ i + suc n = omega arith in
      ap (slice m i) front
      ∙ ap (◌∷◌ (m i)) (slice-append (i + 1) n k ∙ ap (λ j. slice m (i + 1) n ++ slice m j k) back)

  -- A slice holds the list that it agrees with byte by byte.
  pub slice-eq :
      (i : ℕ) (d : List ℕ)
      → ((j : ℕ) → j < length d → m (i + j) ≡ get_or d j 0)
      → slice m i (length d) ≡ d
  slice-eq i [] h = refl
  slice-eq i (x ∷ d) h =
      ap₂ ◌∷◌ (ap m (omega arith) ∙ h 0 (omega arith))
        (slice-eq (i + 1) d (λ j l. ap m (omega arith) ∙ h (suc j) (omega arith)))

pub slice_ext :
    (m m' : Memory) (i i' n : ℕ)
    → ((j : ℕ) → j < n → m (i + j) ≡ m' (i' + j))
    → slice m i n ≡ slice m' i' n
slice_ext m m' i i' zero h = refl
slice_ext m m' i i' (suc n) h =
    ap₂ ◌∷◌ (ap m (omega arith) ∙ h 0 (omega arith) ∙ ap m' (omega arith)) (
      slice_ext m m' (i + 1) (i' + 1) n
        (λ j l. ap m (omega arith) ∙ h (suc j) (omega arith) ∙ ap m' (omega arith)))

-- memmove to the front keeps the bytes that it moves.
pub slice-move_front : (m : Memory) (src n : ℕ) → slice (move_front m src n) 0 n ≡ slice m src n
unfolding move_front
slice-move_front m src n = slice_ext (move_front m src n) m 0 src n (λ j l. ground arith)

module _ (m : Memory) (dst : ℕ) (d : List ℕ) where
  -- CopyMemory leaves what lies before its destination,
  pub slice-copy_in_before : (i n : ℕ) → i + n ≤ dst → slice (copy_in m dst d) i n ≡ slice m i n
  unfolding copy_in
  slice-copy_in_before i n h = slice_ext (copy_in m dst d) m i i n (λ j l. ground arith)

  -- and puts its data there.
  pub slice-copy_in_self : slice (copy_in m dst d) dst (length d) ≡ d
  unfolding copy_in
  slice-copy_in_self =
      slice-eq (copy_in m dst d) dst d
        (λ j l. let e : dst + j - dst ≡ j = omega arith in ground (arith, ap (λ k. get_or d k 0) e))
