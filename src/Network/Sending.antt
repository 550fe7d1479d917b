-- ===== src/Network/Sending.antt =====
-- The send queue of a client: order on the wire, and what a closed connection leaves behind.
use project_run_server.Base.{
  ℕ, ◌&&◌, ◌+◌, ◌≡◌, refl, sym, ap, ◌∙◌, Bool, true, false, List, [], ◌∷◌, ◌++◌, Option, none, some,
  map, append_assoc, append-nil, drop, get_elem?, get_elem?-set_self, get_elem?-lt,
}
use project_run_server.Network.{
  ClientInfo, Message, Answers, bind_io_completion_port, set_socket_option, bind_recv, send_io,
  send_msg, send_completed, on_connect, close,
}
use project_run_server.Network.Server.{
  IocpServer, Completion, NetEvent, send, accept, work, work_on, complete, send_to, close_socket,
  closed, connected, put_client,
}

-- What happens to a client's queue: a message to send, or `none` for a completed send.
unfoldable pub run_sends : Bool → List (Option Message) → List Message → List Message × List Message
run_sends ok [] q = (q, [])
run_sends ok (some m ∷ es) q =
    let (q1, sent) = send_msg ok m q in let (q2, more) = run_sends ok es q1 in (q2, sent ++ more)
run_sends ok (none ∷ es) q =
    let (q1, sent) = send_completed ok q in
    let (q2, more) = run_sends ok es q1 in (q2, sent ++ more)

abbrev pub messages : List (Option Message) → List Message
messages [] = []
messages (some m ∷ es) = m ∷ messages es
messages (none ∷ es) = messages es

-- While sending succeeds, messages leave in the order in which `SendMsg` was called, whatever
-- completions come in between: those handed to `WSASend`, followed by those that wait behind the
-- one in flight, are those that waited at first and then the new ones.
pub run_sends-order :
    (es : List (Option Message)) (q : List Message)
    → let (q', sent) = run_sends true es q in sent ++ drop 1 q' ≡ drop 1 q ++ messages es
unfolding run_sends send_msg send_completed send_io
run_sends-order [] q = sym (append-nil (drop 1 q))
run_sends-order (some m ∷ es) [] = ap (◌∷◌ m) (run_sends-order es (m ∷ []))
run_sends-order (some m ∷ es) (n ∷ q) =
    run_sends-order es (n ∷ q ++ m ∷ []) ∙ append_assoc q (m ∷ []) (messages es)
run_sends-order (none ∷ es) [] = run_sends-order es []
run_sends-order (none ∷ es) (n ∷ []) = run_sends-order es []
run_sends-order (none ∷ es) (n ∷ m ∷ q) = ap (◌∷◌ m) (run_sends-order es (m ∷ q))

-- with a message queued already, those that follow wait
run_sends-wait :
    (ok : Bool) (ms : List Message) (n : Message) (q : List Message)
    → (run_sends ok (map some ms) (n ∷ q)).1 ≡ []
unfolding run_sends send_msg
run_sends-wait ok [] n q = refl
run_sends-wait ok (m ∷ ms) n q = run_sends-wait ok ms n (q ++ m ∷ [])

-- The messages given to `SendMsg` of the server for one client, one after the other.
unfoldable pub send_all :
    ℕ → List Message → Answers → IocpServer → Option (IocpServer × List NetEvent)
send_all i [] a s = some (s, [])
send_all i (m ∷ ms) a s = elim (send_to i m a s) [
  | none ↦ none
  | some (s1, events) ↦ elim (send_all i ms a s1) [
    | none ↦ none
    | some (s2, more) ↦ some (s2, events ++ more)
  ]
]

-- what `WokerThread` gets when the connection of `i` breaks, and when `i` is accepted again
abbrev pub broken : ℕ → Completion
broken i = record { success = false; io_size = 0; key = some i; overlapped = some (send, 0) }

abbrev pub accepted : ℕ → Completion
accepted i = record { success = true; io_size = 0; key = none; overlapped = some (accept, i) }

send_to-queued :
    (i : ℕ) (m n : Message) (q : List Message) (a : Answers) (s : IocpServer) (c : ClientInfo)
    → get_elem? s.client_infos i ≡ some c
    → c.send_dataqueue ≡ n ∷ q
    → send_to i m a s ≡ some (put_client i (record c { send_dataqueue = n ∷ q ++ m ∷ [] }) s, [])
unfolding send_to send_msg
send_to-queued i m n q a s c e h = rw (e, send_to, h) refl

send_all-queued :
    (i : ℕ) (ms : List Message) (n : Message) (q : List Message) (a : Answers) (s : IocpServer)
    (c : ClientInfo)
    → get_elem? s.client_infos i ≡ some c
    → c.send_dataqueue ≡ n ∷ q
    → (s' : IocpServer) × (send_all i ms a s ≡ some (s', []))
      × ((c' : ClientInfo) × (get_elem? s'.client_infos i ≡ some c')
          × (c'.send_dataqueue ≡ n ∷ q ++ ms))
unfolding send_all
send_all-queued i [] n q a s c e h = (s, refl, (c, e, h ∙ ap (◌∷◌ n) (sym (append-nil q))))
send_all-queued i (m ∷ ms) n q a s c e h =
    let c1 = record c { send_dataqueue = n ∷ q ++ m ∷ [] } in
    let s1 = put_client i c1 s in
    let at = get_elem?-set_self s.client_infos i c1 (get_elem?-lt s.client_infos i c e) in
    let (s2, rest, (c2, there, all)) = send_all-queued i ms n (q ++ m ∷ []) a s1 c1 at refl in
    (
      s2,
      rw (send_to-queued i m n q a s c e h, send_all, rest) refl,
      (c2, there, all ∙ ap (◌∷◌ n) (append_assoc q (m ∷ []) ms)),
    )

-- When a client with a message in flight is cut off and its slot is taken by a new connection, for
-- which the three calls of `OnConnect` succeed, every message sent to the new client stays queued
-- and none is posted, since the queue of the old one is still there, with the new messages behind
-- it in order.
pub send_all-after_close :
    (s : IocpServer) (i : ℕ) (c : ClientInfo) (n : Message) (q : List Message) (a b : Answers)
    (now later : ℕ)
    → get_elem? s.client_infos i ≡ some c
    → c.is_connect ≡ true
    → c.send_dataqueue ≡ n ∷ q
    → (bind_io_completion_port b.port && set_socket_option b && bind_recv b) ≡ true
    → (s1 : IocpServer) × (work (broken i) now a s ≡ some (s1, closed i ∷ []))
      × ((s2 : IocpServer) × (work (accepted i) later b s1 ≡ some (s2, connected i ∷ []))
          × ((ms : List Message)
              → (s3 : IocpServer) × (send_all i ms b s2 ≡ some (s3, []))
                × ((c3 : ClientInfo) × (get_elem? s3.client_infos i ≡ some c3)
                    × (c3.send_dataqueue ≡ n ∷ q ++ ms))))
unfolding work work_on close_socket complete close on_connect
send_all-after_close s i c n q a b now later e on h ok =
    let lt = get_elem?-lt s.client_infos i c e in
    let c1 = close now c in
    let s1 = record (put_client i c1 s) { empty_client_stack = i ∷ s.empty_client_stack } in
    let at = get_elem?-set_self s.client_infos i c1 lt in
    let c2 = record c1 { is_connect = true } in
    let s2 = record (put_client i c2 s1) { client_cnt = s1.client_cnt + 1 } in
    let at2 = get_elem?-set_self s1.client_infos i c2 (get_elem?-lt s1.client_infos i c1 at) in
    (
      s1,
      rw (e, work, on) refl,
      (s2, rw (at, work, ok) refl, λ ms. send_all-queued i ms n q b s2 c2 at2 h),
    )
