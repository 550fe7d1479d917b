-- ===== src/Network/Server.antt =====
-- `IOCPServer`: what one completion does, in `WokerThread` and `CloseSocket`.
use project_run_server.Base.{
  ℕ, zero, suc, ◌+◌, ◌==◌, Bool, true, false, ◌&&◌, ◌||◌, not, List, [], ◌∷◌, map, Option, none,
  some, get_elem?, set, replicate, if◌then◌else◌,
}
use project_run_server.Network.{
  ClientInfo, Message, Answers, is_under_way, init, send_msg, send_completed, on_connect, close,
}

pub data IoOperation : Type 0 where
  accept recv send : IoOperation

-- what the server calls and posts: `OnConnect`, `OnClose`, `OnReceive` with a size, `WSASend`
pub data NetEvent : Type 0 where
  connected : ℕ → NetEvent
  closed : ℕ → NetEvent
  received : ℕ → ℕ → NetEvent
  posted : ℕ → Message → NetEvent

pub record IocpServer : Type 0 where
  pub client_infos : List ClientInfo
  pub empty_client_stack : List ℕ
  pub client_cnt : ℕ
  pub is_worker_run : Bool

-- What `GetQueuedCompletionStatus` gives: the client of the completion key, `none` for a null
-- pointer, as with the listening socket, and the operation with its `SessionIndex`.
pub record Completion : Type 0 where
  pub success : Bool
  pub io_size : ℕ
  pub key : Option ℕ
  pub overlapped : Option (IoOperation × ℕ)

-- `none` is a fault: a call through a null pointer, or an index outside the clients
abbrev pub Result : Type 0
Result = Option (IocpServer × List NetEvent)

-- the indices pushed by `CreateClient`, the top first
abbrev pub down_from : ℕ → List ℕ
down_from zero = []
down_from (suc n) = n ∷ down_from n

-- a server after `CreateClient`
unfoldable pub create_client : ℕ → IocpServer
create_client n = record {
  client_infos = replicate n init;
  empty_client_stack = down_from n;
  client_cnt = 0;
  is_worker_run = true;
}

-- `GetEmptyClientInfo`, which nothing calls
unfoldable pub get_empty_client_info : IocpServer → Option ℕ × IocpServer
get_empty_client_info s = elim s.empty_client_stack [
  | [] ↦ (none, s)
  | i ∷ is ↦ (some i, record s { empty_client_stack = is })
]

abbrev pub put_client : ℕ → ClientInfo → IocpServer → IocpServer
put_client i c s = record s { client_infos = set s.client_infos i c }

abbrev pub with_client : Option ClientInfo → (ClientInfo → Result) → Result
with_client none f = none
with_client (some c) f = f c

-- the client of an index or a key
abbrev pub at_client : Option ℕ → IocpServer → (ℕ → ClientInfo → Result) → Result
at_client none s f = none
at_client (some i) s f = with_client (get_elem? s.client_infos i) (f i)

-- `CloseSocket`
unfoldable pub close_socket : ℕ → ℕ → ClientInfo → IocpServer → IocpServer × List NetEvent
close_socket now i c s = if not c.is_connect then (s, []) else (
  record (put_client i (close now c) s) { empty_client_stack = i ∷ s.empty_client_stack },
  closed i ∷ [],
)

abbrev posts : ℕ → List Message → List NetEvent
posts i ms = map (posted i) ms

-- a completion that succeeded, for the client `i`
unfoldable pub complete :
    IoOperation → ℕ → ℕ → Answers → ℕ → ClientInfo → IocpServer → IocpServer × List NetEvent
complete accept size now a i c s =
    let (ok, c') = on_connect a c in
    if ok
    then (record (put_client i c' s) { client_cnt = s.client_cnt + 1 }, connected i ∷ [])
    else close_socket now i c' (put_client i c' s)
complete recv size now a i c s = (s, received i size ∷ [])
complete send size now a i c s =
    let (q, ms) = send_completed (is_under_way a.send) c.send_dataqueue in
    (put_client i (record c { send_dataqueue = q }) s, posts i ms)

abbrev is_accept : IoOperation → Bool
is_accept accept = true
is_accept _ = false

-- the client that a successful completion is for
abbrev target : Completion → IoOperation → ℕ → Option ℕ
target p accept session = some session
target p op session = p.key

-- A completion of an operation, in `WokerThread`.
unfoldable pub work_on : Completion → IoOperation → ℕ → ℕ → Answers → IocpServer → Result
work_on p op session now a s =
    if not p.success || ((p.io_size == 0) && not (is_accept op))
    then at_client p.key s (λ i c. some (close_socket now i c s))
    else at_client (target p op session) s (λ i c. some (complete op p.io_size now a i c s))

-- one round of `WokerThread`
unfoldable pub work : Completion → ℕ → Answers → IocpServer → Result
work p now a s = elim p.overlapped [
  | none ↦
      some (if p.success && (p.io_size == 0) then record s { is_worker_run = false } else s, [])
  | some (op, session) ↦ work_on p op session now a s
]

-- `SendMsg` of the server
unfoldable pub send_to : ℕ → Message → Answers → IocpServer → Result
send_to i m a s = at_client (some i) s (λ i c.
    let (q, ms) = send_msg (is_under_way a.send) m c.send_dataqueue in
    some (put_client i (record c { send_dataqueue = q }) s, posts i ms))
