-- ===== src/PacketBuffer/Framing.antt =====
-- Packets survive the stream: whatever the receives cut the bytes into, and whenever `GetPacket` is
-- called in between, the packets come out whole and in order.
use project_run_server.Base.{
  ℕ, ◌+◌, ◌≤◌, ◌<◌, ◌≡◌, refl, sym, ap, subst, ◌∙◌, ◌⊎◌, inl, inr, List, [], ◌∷◌, ◌++◌, map, Option,
  none, some, arith, length, get_or, take, drop, dec_lt, get_or-append, take-append, drop-append,
  take-append_le, drop-append_le, length-append, concat, All, append_assoc, append-nil,
}
use project_run_server.PacketBuffer.{
  PacketBuffer, Packet, packet_data_buffer_size, packet_header_length, max_packet_length,
  set_packet_data, get_packet,
}
use project_run_server.PacketBuffer.Spec.{Queue, put, next, u16_of}
use project_run_server.PacketBuffer.Invariant.{IsValid, set_packet_data-IsValid, get_packet-IsValid}
use project_run_server.PacketBuffer.Refine.{contents, set_packet_data_refines, get_packet_refines}

-- The bytes of a packet that a client sends: its header's length is its length, and in range.
pub record IsWellFormed (p : List ℕ) : Type 0 where
  pub long : packet_header_length ≤ length p
  pub short : length p ≤ max_packet_length
  pub says : u16_of p 0 ≡ length p

abbrev pub packet_of : List ℕ → Packet
packet_of p = record { packet_id = u16_of p 2; data_size = length p; payload = p }

pub data Event : Type 0 where
  recv : List ℕ → Event
  get : Event

abbrev pub cons_packet : Option Packet → List Packet → List Packet
cons_packet none ps = ps
cons_packet (some p) ps = p ∷ ps

-- What a user's buffer returns over a history of receives and calls of `GetPacket`.
unfoldable pub run : List Event → PacketBuffer → List Packet × PacketBuffer
run [] b = ([], b)
run (recv d ∷ es) b = run es (set_packet_data d b)
run (get ∷ es) b =
    let (p, b') = get_packet b in let (ps, last) = run es b' in (cons_packet p ps, last)

abbrev pub received : List Event → List ℕ
received [] = []
received (recv d ∷ es) = d ++ received es
received (get ∷ es) = received es

-- Every receive of the history finds room.
abbrev pub NoDrop : List Event → Queue → Type 0
NoDrop [] q = Unit
NoDrop (recv d ∷ es) q = (length q + length d ≤ packet_data_buffer_size) × NoDrop es (q ++ d)
NoDrop (get ∷ es) q = NoDrop es (next q).1

module _ (q later p rest : List ℕ) (w : IsWellFormed p) (e : q ++ later ≡ p ++ rest) where
  same_byte : (k : ℕ) → k < length q → k < length p → get_or q k 0 ≡ get_or p k 0
  same_byte k hq hp =
      sym (get_or-append q later k 0 hq) ∙ ap (λ l. get_or l k 0) e ∙ get_or-append p rest k 0 hp

  next_incomplete : length q < length p → next q ≡ (none, q)
  unfolding next
  next_incomplete h = ground (arith, same_byte 0, same_byte 1)

  split_at : length p ≤ length q → (take (length p) q ≡ p) × (drop (length p) q ++ later ≡ rest)
  split_at h = (
    sym (take-append_le (length p) q later h) ∙ ap (take (length p)) e ∙ take-append p rest,
    sym (drop-append_le (length p) q later h) ∙ ap (drop (length p)) e ∙ drop-append p rest,
  )

  next_complete : length p ≤ length q → next q ≡ (some (packet_of p), drop (length p) q)
  unfolding next
  next_complete h = ground (arith, same_byte 0, same_byte 1, same_byte 2, same_byte 3, split_at h)

-- The packets taken so far and those still to come.
abbrev pub Split : List (List ℕ) → List Packet → List ℕ → Type 0
Split ps taken left =
    (done : List (List ℕ)) × (rest : List (List ℕ)) × (ps ≡ done ++ rest)
    × (taken ≡ map packet_of done)
    × (left ≡ concat rest)

-- `next` waits for the first packet's bytes, or cuts that packet off.
abbrev Cut : List (List ℕ) → Queue → List ℕ → Type 0
Cut ps q later =
    (next q ≡ (none, q))
    ⊎ ((p : List ℕ) × (rest : List (List ℕ)) × (q' : Queue) × (ps ≡ p ∷ rest)
        × (next q ≡ (some (packet_of p), q'))
        × (q' ++ later ≡ concat rest))

pub next_nil : next [] ≡ (none, [])
unfolding next
next_nil = refl

-- A first packet that is there in full is cut off.
pub next_first : (p rest : List ℕ) → IsWellFormed p → next (p ++ rest) ≡ (some (packet_of p), rest)
next_first p rest w =
    let whole : length p ≤ length (p ++ rest) = omega (arith, length-append p rest) in
    next_complete (p ++ rest) [] p rest w (append-nil (p ++ rest)) whole
    ∙ ap (λ q. (some (packet_of p), q)) (drop-append p rest)

next-Cut :
    (ps : List (List ℕ)) (q later : List ℕ)
    → All IsWellFormed ps
    → q ++ later ≡ concat ps
    → Cut ps q later
next-Cut [] [] later w e = inl next_nil
next-Cut [] (x ∷ q) later w e = absurd (cc)
next-Cut (p ∷ ps) q later w e = elim (dec_lt (length q) (length p)) [
  | yes h ↦ inl (next_incomplete q later p (concat ps) w.0 e h)
  | no h ↦
      let whole : length p ≤ length q = omega arith in
      inr (
        p,
        ps,
        drop (length p) q,
        refl,
        next_complete q later p (concat ps) w.0 e whole,
        (split_at q later p (concat ps) w.0 e whole).1,
      )
]

put_fits : (d q : List ℕ) → length q + length d ≤ packet_data_buffer_size → put d q ≡ q ++ d
unfolding put
put_fits d q h = ground arith

pub contents-recv :
    {b : PacketBuffer} (d : List ℕ)
    → IsValid b
    → length (contents b) + length d ≤ packet_data_buffer_size
    → contents (set_packet_data d b) ≡ contents b ++ d
contents-recv {b} d v h = set_packet_data_refines d (omega arith) v ∙ put_fits d (contents b) h

pub NoDrop-get :
    (es : List Event) {b : PacketBuffer}
    → IsValid b
    → NoDrop (get ∷ es) (contents b)
    → NoDrop es (contents (get_packet b).1)
NoDrop-get es v n = subst (NoDrop es) (sym (ap (λ r. r.1) (get_packet_refines v))) n

-- At any time the packets that came out of a valid buffer are the first ones sent, complete and in
-- order, and the unread bytes with those still to be received are exactly the packets that follow,
-- if the unread and the received bytes begin a sequence of well-formed packets and every receive
-- found room.
pub run_delivers :
    (es : List Event) (b : PacketBuffer) (ps : List (List ℕ)) (later : List ℕ)
    → IsValid b
    → All IsWellFormed ps
    → NoDrop es (contents b)
    → contents b ++ (received es ++ later) ≡ concat ps
    → Split ps (run es b).0 (contents (run es b).1 ++ later)
unfolding run
run_delivers [] b ps later v w n e = ([], ps, refl, refl, e)
run_delivers (recv d ∷ es) b ps later v w n e =
    let stored = contents-recv d v n.0 in
    run_delivers es (set_packet_data d b) ps later (set_packet_data-IsValid d (omega arith) v) w
      (subst (NoDrop es) (sym stored) n.1)
      (ap (λ q. q ++ (received es ++ later)) stored
        ∙ append_assoc (contents b) d (received es ++ later)
        ∙ ap (◌++◌ (contents b)) (sym (append_assoc d (received es) later))
        ∙ e)
run_delivers (get ∷ es) b ps later v w n e =
    elim (next-Cut ps (contents b) (received es ++ later) w e) [
      | inl c ↦
          let out = ap (λ r. r.0) (cut ∙ c) in
          let left = ap (λ r. r.1) (cut ∙ c) in
          let ih =
            run_delivers es b' ps later v' w kept
              (ap (λ q. q ++ (received es ++ later)) left ∙ e) in
          (ih.0, ih.1, ih.2, ap (λ o. cons_packet o (run es b').0) out ∙ ih.3, ih.4)
      | inr (p, rest, q', split, c, e') ↦
          let out = ap (λ r. r.0) (cut ∙ c) in
          let left = ap (λ r. r.1) (cut ∙ c) in
          let w' = subst (All IsWellFormed) split w in
          let ih =
            run_delivers es b' rest later v' w'.1 kept
              (ap (λ q. q ++ (received es ++ later)) left ∙ e') in
          (
            p ∷ ih.0,
            ih.1,
            split ∙ ap (◌∷◌ p) ih.2,
            ap (λ o. cons_packet o (run es b').0) out ∙ ap (◌∷◌ (packet_of p)) ih.3,
            ih.4,
          )
    ]
  where
    b' : PacketBuffer
    b' = (get_packet b).1

    v' : IsValid b'
    v' = get_packet-IsValid v

    cut : ((get_packet b).0, contents b') ≡ next (contents b)
    cut = get_packet_refines v

    kept : NoDrop es (contents b')
    kept = NoDrop-get es v n
