-- ===== src/PacketBuffer/Delivery.antt =====
-- Nothing is lost: once all bytes have come in, `GetPacket` returns every packet that was sent.
use project_run_server.Base.{
  ℕ, zero, suc, ◌≤◌, ◌≡◌, refl, sym, ap, ap₂, ◌∙◌, List, [], ◌∷◌, ◌++◌, map, map-append, subst,
  Option, All-append_right, none, some, arith, length, concat, All, append-nil, replicate,
  length-append,
}
use project_run_server.PacketBuffer.{
  PacketBuffer, Packet, get_packet, set_packet_data, Memory, empty,
}
use project_run_server.PacketBuffer.Spec.{next}
use project_run_server.PacketBuffer.Invariant.{
  IsValid, set_packet_data-IsValid, get_packet-IsValid, empty-IsValid,
}
use project_run_server.PacketBuffer.Refine.{contents, get_packet_refines}
use project_run_server.PacketBuffer.Framing.{
  IsWellFormed, packet_of, Event, recv, get, run, received, NoDrop, cons_packet, next_nil,
  next_first, run_delivers, contents-recv, NoDrop-get,
}

cons_packet-append :
    (p : Option Packet) (xs ys zs : List Packet)
    → ys ≡ xs ++ zs
    → cons_packet p ys ≡ cons_packet p xs ++ zs
cons_packet-append none xs ys zs e = e
cons_packet-append (some p) xs ys zs e = ap (◌∷◌ p) e

run-append :
    (es fs : List Event) (b : PacketBuffer)
    → (run (es ++ fs) b).0 ≡ (run es b).0 ++ (run fs (run es b).1).0
unfolding run
run-append [] fs b = refl
run-append (recv d ∷ es) fs b = run-append es fs _
run-append (get ∷ es) fs b =
    cons_packet-append (get_packet b).0 (run es (get_packet b).1).0 _ _
      (run-append es fs (get_packet b).1)

drain :
    (n : ℕ) (ps : List (List ℕ)) (b : PacketBuffer)
    → length ps ≤ n
    → IsValid b
    → All IsWellFormed ps
    → contents b ≡ concat ps
    → (run (replicate n get) b).0 ≡ map packet_of ps
unfolding run
drain zero [] b h v w e = refl
drain zero (p ∷ ps) b h v w e = absurd (omega arith)
drain (suc n) [] b h v w e =
    let r = get_packet_refines v ∙ ap next e ∙ next_nil in
    ap₂ cons_packet (ap (λ x. x.0) r)
      (drain n [] (get_packet b).1 (omega arith) (get_packet-IsValid v) tt (ap (λ x. x.1) r))
drain (suc n) (p ∷ ps) b h v w e =
    let r = get_packet_refines v ∙ ap next e ∙ next_first p (concat ps) w.0 in
    ap₂ cons_packet (ap (λ x. x.0) r)
      (drain n ps (get_packet b).1 (omega arith) (get_packet-IsValid v) w.1 (ap (λ x. x.1) r))

run-IsValid :
    (es : List Event) (b : PacketBuffer) → IsValid b → NoDrop es (contents b) → IsValid (run es b).1
unfolding run
run-IsValid [] b v n = v
run-IsValid (recv d ∷ es) b v n =
    run-IsValid es (set_packet_data d b) (set_packet_data-IsValid d (omega arith) v)
      (subst (NoDrop es) (sym (contents-recv d v n.0)) n.1)
run-IsValid (get ∷ es) b v n =
    run-IsValid es (get_packet b).1 (get_packet-IsValid v) (NoDrop-get es v n)

contents-empty : (m : Memory) → contents (empty m) ≡ []
unfolding empty
contents-empty m = refl

-- Well-formed packets that arrive at an empty buffer cut up in any way, with calls of `GetPacket`
-- in between at any time, are all returned, whole and in the order sent, if every receive found
-- room and there follow as many calls as there are packets.
pub delivered :
    (es : List Event) (ps : List (List ℕ)) (m : Memory)
    → All IsWellFormed ps
    → NoDrop es []
    → received es ≡ concat ps
    → (run (es ++ replicate (length ps) get) (empty m)).0 ≡ map packet_of ps
delivered es ps m w n e =
    run-append es (replicate (length ps) get) (empty m)
    ∙ ap₂ ◌++◌ taken (
        drain (length ps) rest (run es (empty m)).1 fewer (run-IsValid es (empty m) v n')
          (All-append_right IsWellFormed done rest (subst (All IsWellFormed) parts w))
          (sym (append-nil _) ∙ left))
    ∙ sym (map-append packet_of done rest)
    ∙ ap (map packet_of) (sym parts)
  where
    v : IsValid (empty m)
    v = empty-IsValid m

    n' : NoDrop es (contents (empty m))
    n' = subst (NoDrop es) (sym (contents-empty m)) n

    open run_delivers es
        (empty m)
        ps
        []
        v
        w
        n'
        (ap (λ q. q ++ (received es ++ [])) (contents-empty m) ∙ append-nil (received es) ∙ e) use {
          0 as done, 1 as rest, 2 as parts, 3 as taken, 4 as left,
        }

    fewer : length rest ≤ length ps
    fewer = omega (arith, ap length parts, length-append done rest)
