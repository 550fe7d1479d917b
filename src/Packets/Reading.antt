-- ===== src/Packets/Reading.antt =====
-- How handlers read the bytes of a packet through a cast to its struct: numbers with the low byte first,
-- at the offsets of the struct. A field behind the end of the bytes reads as 0.
use project_run_server.Base.{
  ℕ, zero, suc, ◌+◌, ◌-◌, ◌*◌, ◌%◌, ◌^◌, ◌==◌, ◌≡◌, Bool, true, not, List, [], ◌∷◌, ℤ, pos, negsuc,
  ltb, take, drop, add_ℤ, arith, if◌then◌else◌,
}
use project_run_server.Packets.Layout.{little_endian, unsigned}

-- `n` bytes from offset `i` on, and the little-endian number in them
abbrev pub field : ℕ → ℕ → List ℕ → List ℕ
field i n bytes = take n (drop i bytes)

abbrev pub uint_at : ℕ → ℕ → List ℕ → ℕ
uint_at i n bytes = little_endian (field i n bytes)

-- a signed number of `w` values
abbrev pub signed : ℕ → ℕ → ℤ
signed w x = if ltb (2 * x) w then pos x else negsuc (w - x - 1)

abbrev pub int32_at : ℕ → List ℕ → ℤ
int32_at i bytes = signed (2 ^ 32) (uint_at i 4 bytes)

abbrev pub int64_at : ℕ → List ℕ → ℤ
int64_at i bytes = signed (2 ^ 64) (uint_at i 8 bytes)

-- `n` INT32 from offset `i` on
abbrev pub int32s_at : ℕ → ℕ → List ℕ → List ℤ
int32s_at i zero bytes = []
int32s_at i (suc n) bytes = int32_at i bytes ∷ int32s_at (i + 4) n bytes

-- the bits of `n` floats from offset `i` on
abbrev pub floats_at : ℕ → ℕ → List ℕ → List ℕ
floats_at i zero bytes = []
floats_at i (suc n) bytes = uint_at i 4 bytes ∷ floats_at (i + 4) n bytes

-- a byte read as a bool
abbrev pub bool_at : ℕ → List ℕ → Bool
bool_at i bytes = not (uint_at i 1 bytes == 0)

-- a byte compared with `true`, as the code does with a bool whose byte it has not written itself: only 1
-- is taken as true. What the compiler makes of the other bytes is undefined.
abbrev pub is_true_at : ℕ → List ℕ → Bool
is_true_at i bytes = uint_at i 1 bytes == 1

-- in the range of INT32
abbrev pub in_int32 : ℤ → Bool
in_int32 (pos n) = ltb n (2 ^ 31)
in_int32 (negsuc n) = ltb n (2 ^ 31)

-- a sum of INT32, which wraps around as the machine's addition does
abbrev pub add_int32 : ℤ → ℤ → ℤ
add_int32 a b = signed (2 ^ 32) (unsigned (2 ^ 32) (add_ℤ a b) % 2 ^ 32)

-- A number in the range of INT32 is read from its low 32 bits.
pub signed-low : (x : ℤ) → in_int32 x ≡ true → signed (2 ^ 32) (unsigned (2 ^ 32) x % 2 ^ 32) ≡ x
signed-low (pos n) h = ground (arith, h)
signed-low (negsuc n) h = ground (arith, h)

-- Two's complement is read back.
pub signed-unsigned : (x : ℤ) → in_int32 x ≡ true → signed (2 ^ 32) (unsigned (2 ^ 32) x) ≡ x
signed-unsigned (pos n) h = ground (arith, h)
signed-unsigned (negsuc n) h = ground (arith, h)
