-- ===== src/Packets/Wire.antt =====
-- Packets on the wire: what is written by the layout of a struct is cut off whole by `GetPacket` and read
-- back by the same layout.
use project_run_server.Base.{
  ℕ, zero, suc, ◌+◌, ◌/◌, ◌^◌, ◌<◌, ◌≤◌, ◌≡◌, ◌∙◌, ap, sym, refl, ◌&&◌, Bool, true, leb, List, [],
  ◌∷◌, ◌++◌, length, take, drop, arith, some, get_elem?, length-append, take-append, drop-append,
  append_assoc, append-nil,
}
use project_run_server.Packets.Ids.{PacketId, packet_number, sys_user_connect}
use project_run_server.Packets.LobbyStructs.{lobby_packets}
use project_run_server.Packets.GameStructs.{game_packets}
use project_run_server.Packets.TradeStructs.{trade_packets}
use project_run_server.PacketBuffer.{PacketBuffer, max_packet_length, get_packet}
use project_run_server.PacketBuffer.Invariant.{IsValid}
use project_run_server.PacketBuffer.Refine.{contents, get_packet_refines}
use project_run_server.PacketBuffer.Spec.{next, u16_of}
use project_run_server.PacketBuffer.Framing.{IsWellFormed, next_first}
use project_run_server.Packets.Layout.{
  FieldType, number_of, chars, width, total_width, sizeof, Layout, Value, number, text, bytes_of,
  little_endian, fits, all_fit, encode_value, encode_fields, encode, decode_value, decode_fields,
  decode,
}

length-bytes_of : (n x : ℕ) → length (bytes_of n x) ≡ n
unfolding bytes_of
length-bytes_of zero x = refl
length-bytes_of (suc n) x = omega (arith, length-bytes_of n (x / 256))

little_endian-bytes_of : (n x : ℕ) → x < 256 ^ n → little_endian (bytes_of n x) ≡ x
unfolding bytes_of little_endian
little_endian-bytes_of zero x h = omega (arith, h)
little_endian-bytes_of (suc n) x h =
    let rest = little_endian-bytes_of n (x / 256) (omega (arith, h)) in omega (arith, rest)

length-encode_value :
    (t : FieldType) (v : Value) → fits t v ≡ true → length (encode_value t v) ≡ width t
length-encode_value (number_of n) (number x) h = length-bytes_of n x
length-encode_value (chars n) (text s) h = ground (arith, h)
length-encode_value (number_of n) (text s) h = absurd (cc)
length-encode_value (chars n) (number x) h = absurd (cc)

take_first : (n : ℕ) (xs ys : List ℕ) → length xs ≡ n → take n (xs ++ ys) ≡ xs
take_first n xs ys e = rw (← e) (take-append xs ys)

drop_first : (n : ℕ) (xs ys : List ℕ) → length xs ≡ n → drop n (xs ++ ys) ≡ ys
drop_first n xs ys e = rw (← e) (drop-append xs ys)

decode_value-encode_value :
    (t : FieldType) (v : Value) (rest : List ℕ)
    → fits t v ≡ true
    → decode_value t (encode_value t v ++ rest) ≡ v
decode_value-encode_value (number_of n) (number x) rest h =
    let whole = take_first n (bytes_of n x) rest (length-bytes_of n x) in
    ap number (ap little_endian whole ∙ little_endian-bytes_of n x (ground (arith, h)))
decode_value-encode_value (chars n) (text s) rest h =
    ap text (take_first n s rest (ground (arith, h)))
decode_value-encode_value (number_of n) (text s) rest h = absurd (cc)
decode_value-encode_value (chars n) (number x) rest h = absurd (cc)

-- Fields are read back, whatever stands behind them.
decode_fields-encode_fields :
    (ts : List FieldType) (vs : List Value) (tail : List ℕ)
    → all_fit ts vs ≡ true
    → decode_fields ts (encode_fields ts vs ++ tail) ≡ vs
unfolding decode_fields encode_fields all_fit
decode_fields-encode_fields [] [] tail h = refl
decode_fields-encode_fields [] (v ∷ vs) tail h = absurd (cc)
decode_fields-encode_fields (t ∷ ts) [] tail h = absurd (cc)
decode_fields-encode_fields (t ∷ ts) (v ∷ vs) tail h =
    let one : fits t v ≡ true = ground (arith, h) in
    let rest : all_fit ts vs ≡ true = ground (arith, h) in
    let later = encode_fields ts vs ++ tail in
    let first = decode_value-encode_value t v later one in
    let gone = drop_first (width t) (encode_value t v) later (length-encode_value t v one) in
    rw
      (
        append_assoc (encode_value t v) (encode_fields ts vs) tail,
        first,
        gone,
        decode_fields-encode_fields ts vs tail rest,
      )
      refl

length-encode_fields :
    (ts : List FieldType) (vs : List Value)
    → all_fit ts vs ≡ true
    → length (encode_fields ts vs) ≡ total_width ts
unfolding total_width encode_fields all_fit
length-encode_fields [] [] h = refl
length-encode_fields [] (v ∷ vs) h = absurd (cc)
length-encode_fields (t ∷ ts) [] h = absurd (cc)
length-encode_fields (t ∷ ts) (v ∷ vs) h =
    let one = length-encode_value t v (ground (arith, h)) in
    let rest = length-encode_fields ts vs (ground (arith, h)) in
    omega (arith, length-append (encode_value t v) (encode_fields ts vs), one, rest)

packet_number_small : (i : PacketId) → packet_number i < 2 ^ 16
packet_number_small sys_user_connect = omega arith
packet_number_small i = omega arith

-- every packet struct
abbrev pub all_packets : List Layout
all_packets = lobby_packets ++ game_packets ++ trade_packets

abbrev all_short : List Layout → Bool
all_short [] = true
all_short (l ∷ ls) = leb (sizeof l) max_packet_length && all_short ls

all_short-at :
    (ls : List Layout) (i : ℕ) (l : Layout)
    → all_short ls ≡ true
    → get_elem? ls i ≡ some l
    → sizeof l ≤ max_packet_length
all_short-at [] i l h e = absurd (cc)
all_short-at (k ∷ ls) zero l h e = ground (arith, h, e)
all_short-at (k ∷ ls) (suc i) l h e = all_short-at ls i l (ground (arith, h)) e

sizes : all_short all_packets ≡ true
unfolding total_width
sizes = refl

decode-encode :
    (l : Layout) (vs : List Value) → all_fit l.fields vs ≡ true → decode l (encode l vs) ≡ vs
unfolding encode bytes_of
decode-encode l vs fit =
    ap (decode_fields l.fields) (sym (append-nil (encode_fields l.fields vs)))
    ∙ decode_fields-encode_fields l.fields vs [] fit

module _ (l : Layout) (vs : List Value) (fit : all_fit l.fields vs ≡ true)
    (short : sizeof l ≤ max_packet_length) where
  length-encode : length (encode l vs) ≡ sizeof l
  unfolding encode bytes_of
  length-encode = omega (arith, length-encode_fields l.fields vs fit)

  u16_of-encode :
      (u16_of (encode l vs) 0 ≡ sizeof l) × (u16_of (encode l vs) 2 ≡ packet_number l.id)
  unfolding encode bytes_of
  u16_of-encode = (omega (arith, short), omega (arith, packet_number_small l.id))

  encode-IsWellFormed : IsWellFormed (encode l vs)
  encode-IsWellFormed = record {
    long = omega (arith, length-encode);
    short = omega (arith, length-encode, short);
    says = omega (arith, length-encode, u16_of-encode.0);
  }

next-encode :
    (i : ℕ) (l : Layout) (vs : List Value) (rest : List ℕ)
    → get_elem? all_packets i ≡ some l
    → all_fit l.fields vs ≡ true
    → next (encode l vs ++ rest) ≡ (
      some (record { packet_id = packet_number l.id; data_size = sizeof l; payload = encode l vs }),
      rest,
    )
next-encode i l vs rest e fit =
    let short = all_short-at all_packets i l sizes e in
    let cut = next_first (encode l vs) rest (encode-IsWellFormed l vs fit short) in
    rw (← (u16_of-encode l vs fit short).1, ← length-encode l vs fit short) cut

drop_nil : (n : ℕ) → drop {A = ℕ} n [] ≡ []
drop_nil zero = refl
drop_nil (suc n) = refl

drop-drop : (m n : ℕ) (b : List ℕ) → drop m (drop n b) ≡ drop (n + m) b
drop-drop m zero b = ap (λ k. drop k b) (omega arith)
drop-drop m (suc n) [] = drop_nil m ∙ sym (drop_nil (suc n + m))
drop-drop m (suc n) (x ∷ b) =
    let sums : suc (n + m) ≡ suc n + m = omega arith in
    drop-drop m n b ∙ ap (λ k. drop k (x ∷ b)) sums

-- the fields from offset `n` on
abbrev pub decode_at : ℕ → List FieldType → List ℕ → List Value
decode_at n [] b = []
decode_at n (t ∷ ts) b = decode_value t (drop n b) ∷ decode_at (n + width t) ts b

decode_fields-drop :
    (n : ℕ) (ts : List FieldType) (b : List ℕ) → decode_fields ts (drop n b) ≡ decode_at n ts b
unfolding decode_fields
decode_fields-drop n [] b = refl
decode_fields-drop n (t ∷ ts) b =
    ap (◌∷◌ (decode_value t (drop n b)))
      (ap (decode_fields ts) (drop-drop (width t) n b) ∙ decode_fields-drop (n + width t) ts b)

-- Each field of an encoded packet stands at its offset.
pub decode_at-encode :
    (l : Layout) (vs : List Value)
    → all_fit l.fields vs ≡ true
    → decode_at 5 l.fields (encode l vs) ≡ vs
decode_at-encode l vs fit =
    sym (decode_fields-drop 5 l.fields (encode l vs)) ∙ decode-encode l vs fit

-- So it does in a buffer with other bytes behind the packet.
pub decode_at-encode_tail :
    (l : Layout) (vs : List Value) (tail : List ℕ)
    → all_fit l.fields vs ≡ true
    → decode_at 5 l.fields (encode l vs ++ tail) ≡ vs
unfolding encode bytes_of
decode_at-encode_tail l vs tail fit =
    sym (decode_fields-drop 5 l.fields (encode l vs ++ tail))
    ∙ decode_fields-encode_fields l.fields vs tail fit

-- Every packet struct is carried whole: when the unread bytes of a valid buffer start with a packet
-- that was laid out by any struct of Packet.h, with values that its fields can hold, `GetPacket`
-- returns exactly that packet, with the struct's id and size, leaves the bytes behind it, and the
-- fields read by the same struct are the values.
pub get_packet-encode :
    {b : PacketBuffer} (i : ℕ) (l : Layout) (vs : List Value) (rest : List ℕ)
    → IsValid b
    → contents b ≡ encode l vs ++ rest
    → get_elem? all_packets i ≡ some l
    → all_fit l.fields vs ≡ true
    → let (p, b') = get_packet b in
      (p
        ≡ some (record {
          packet_id = packet_number l.id;
          data_size = sizeof l;
          payload = encode l vs;
        }))
      × (contents b' ≡ rest)
      × (decode l (encode l vs) ≡ vs)
get_packet-encode {b} i l vs rest v unread e fit =
    let short = all_short-at all_packets i l sizes e in
    let whole = get_packet_refines v ∙ ap next unread ∙ next-encode i l vs rest e fit in
    (ap (λ r. r.0) whole, ap (λ r. r.1) whole, decode-encode l vs fit)
