-- ===== src/Packets/Layout.antt =====
-- The bytes of a packet struct of Server/Common/Packet/Packet.h, under #pragma pack(1) on a machine that
-- puts the low byte first: the header, then the fields one after the other.
use project_run_server.Base.{
  ℕ, ℤ, pos, negsuc, ◌-◌, zero, suc, ◌+◌, ◌*◌, ◌/◌, ◌%◌, ◌^◌, ◌==◌, ◌&&◌, Bool, true, false, ltb,
  List, [], ◌∷◌, ◌++◌, length, take, drop,
}
use project_run_server.Packets.Ids.{PacketId, packet_number}

-- a number of some bytes, signed or not, or the pattern of a float; or a char array
pub data FieldType : Type 0 where
  number_of : ℕ → FieldType
  chars : ℕ → FieldType

abbrev pub int8 : FieldType
int8 = number_of 1

abbrev pub int16 : FieldType
int16 = number_of 2

abbrev pub int32 : FieldType
int32 = number_of 4

abbrev pub int64 : FieldType
int64 = number_of 8

abbrev pub float32 : FieldType
float32 = number_of 4

-- `Vector3` and `Quaternion`
abbrev pub vector3 : List FieldType
vector3 = float32 ∷ float32 ∷ float32 ∷ []

abbrev pub quaternion : List FieldType
quaternion = float32 ∷ float32 ∷ float32 ∷ float32 ∷ []

-- an array
abbrev pub repeated : ℕ → List FieldType → List FieldType
repeated zero ts = []
repeated (suc n) ts = ts ++ repeated n ts

-- `RoomInfo`
abbrev pub room_info : List FieldType
room_info = int32 ∷ int32 ∷ int32 ∷ int8 ∷ chars 32 ∷ int32 ∷ int8 ∷ int32 ∷ int32 ∷ []

-- the id that a struct's constructor gives, and the types of its fields
pub record Layout : Type 0 where
  pub id : PacketId
  pub fields : List FieldType

abbrev pub width : FieldType → ℕ
width (number_of n) = n
width (chars n) = n

unfoldable pub total_width : List FieldType → ℕ
total_width [] = 0
total_width (t ∷ ts) = width t + total_width ts

-- sizeof
abbrev pub sizeof : Layout → ℕ
sizeof l = 5 + total_width l.fields

pub data Value : Type 0 where
  number : ℕ → Value
  text : List ℕ → Value

-- the `n` bytes of a number, and the number in some bytes
unfoldable pub bytes_of : ℕ → ℕ → List ℕ
bytes_of zero x = []
bytes_of (suc n) x = x % 256 ∷ bytes_of n (x / 256)

unfoldable pub little_endian : List ℕ → ℕ
little_endian [] = 0
little_endian (b ∷ bs) = b + 256 * little_endian bs

-- a number as it stands in a field of `w` values, in two's complement
abbrev pub unsigned : ℕ → ℤ → ℕ
unsigned w (pos n) = n
unsigned w (negsuc n) = w - 1 - n

abbrev pub int32_value : ℤ → Value
int32_value x = number (unsigned (2 ^ 32) x)

-- a value that a field can hold
abbrev pub fits : FieldType → Value → Bool
fits (number_of n) (number x) = ltb x (256 ^ n)
fits (chars n) (text s) = length s == n
fits (number_of n) (text s) = false
fits (chars n) (number x) = false

unfoldable pub all_fit : List FieldType → List Value → Bool
all_fit [] [] = true
all_fit [] (v ∷ vs) = false
all_fit (t ∷ ts) [] = false
all_fit (t ∷ ts) (v ∷ vs) = fits t v && all_fit ts vs

abbrev pub encode_value : FieldType → Value → List ℕ
encode_value t (number x) = bytes_of (width t) x
encode_value t (text s) = s

unfoldable pub encode_fields : List FieldType → List Value → List ℕ
encode_fields [] vs = []
encode_fields (t ∷ ts) [] = []
encode_fields (t ∷ ts) (v ∷ vs) = encode_value t v ++ encode_fields ts vs

-- a packet with its header, of type 0
unfoldable pub encode : Layout → List Value → List ℕ
encode l vs =
    bytes_of 2 (sizeof l) ++ bytes_of 2 (packet_number l.id) ++ 0 ∷ encode_fields l.fields vs

abbrev pub decode_value : FieldType → List ℕ → Value
decode_value (number_of n) b = number (little_endian (take n b))
decode_value (chars n) b = text (take n b)

unfoldable pub decode_fields : List FieldType → List ℕ → List Value
decode_fields [] b = []
decode_fields (t ∷ ts) b = decode_value t b ∷ decode_fields ts (drop (width t) b)

-- the fields of a packet as a cast to its struct reads them
abbrev pub decode : Layout → List ℕ → List Value
decode l b = decode_fields l.fields (drop 5 b)
