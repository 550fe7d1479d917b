-- ===== src/Network.antt =====
-- Server/Common/NetworkFramework: the clients of ClientInfo.h and what the threads of IOCPServer.h do
-- with them. Sockets, the completion port and the clock are the operating system's: what a call of
-- theirs answers is an argument. Each lock covers one operation, so operations run one after the other.
pub mod Server
pub mod Sending
pub mod Reuse
mod Tests
use project_run_server.Base.{
  ℕ, ◌+◌, ◌-◌, Bool, true, false, ◌&&◌, ◌||◌, not, List, [], ◌∷◌, ◌++◌, Option, none, some, ltb,
  leb, if◌then◌else◌,
}

abbrev pub uint32_max : ℕ
uint32_max = 4294967295

abbrev pub re_use_session_wait_timesec : ℕ
re_use_session_wait_timesec = 3

abbrev pub Message : Type 0
Message = List ℕ

-- `stClientInfo`: the slot of a client. The sockets and buffers it names are the system's.
pub record ClientInfo : Type 0 where
  pub is_connect : Bool
  pub latest_closed_time_sec : ℕ
  pub send_dataqueue : List Message

unfoldable pub init : ClientInfo
init = record { is_connect = false; latest_closed_time_sec = 0; send_dataqueue = [] }

-- what `CreateIoCompletionPort` returns: it fails with a null handle
pub data Handle : Type 0 where
  null_handle invalid_handle_value : Handle
  opened : ℕ → Handle

-- what `WSARecv` and `WSASend` return: 0, or `SOCKET_ERROR`, for an operation that is pending or not
pub data Overlapped : Type 0 where
  completed pending failed : Overlapped

-- What the system answers during one operation: to `CreateIoCompletionPort`, to the three calls of
-- `setsockopt`, to `WSARecv` and to `WSASend`.
pub record Answers : Type 0 where
  pub port : Handle
  pub sets_no_delay : Bool
  pub sets_send_buffer : Bool
  pub sets_keep_alive : Bool
  pub receive : Overlapped
  pub send : Overlapped

-- the test of a result that `BindRecv` and `SendIO` make
abbrev pub is_under_way : Overlapped → Bool
is_under_way completed = true
is_under_way pending = true
is_under_way failed = false

-- `BindIOCompletionPort`, which looks for another value than the null handle
abbrev pub bind_io_completion_port : Handle → Bool
bind_io_completion_port invalid_handle_value = false
bind_io_completion_port _ = true

-- `SetSocketOption`, which looks at the first answer alone
abbrev pub set_socket_option : Answers → Bool
set_socket_option a = a.sets_no_delay

-- `BindRecv`
abbrev pub bind_recv : Answers → Bool
bind_recv a = is_under_way a.receive

-- `SendIO`: the messages that stay queued, and those handed to `WSASend`, of which there is one at
-- most. It is called with a queue that is not empty.
unfoldable pub send_io : Bool → List Message → List Message × List Message
send_io ok [] = ([], [])
send_io ok (m ∷ q) = if ok then (m ∷ q, m ∷ []) else ([], [])

-- `SendMsg`
unfoldable pub send_msg : Bool → Message → List Message → List Message × List Message
send_msg ok m [] = send_io ok (m ∷ [])
send_msg ok m (n ∷ q) = (n ∷ q ++ m ∷ [], [])

-- `SendCompleted`. It follows a send, so the queue is not empty.
unfoldable pub send_completed : Bool → List Message → List Message × List Message
send_completed ok [] = ([], [])
send_completed ok (m ∷ q) = send_io ok q

-- `OnConnect`; `Clear`, which it calls, has an empty body
unfoldable pub on_connect : Answers → ClientInfo → Bool × ClientInfo
on_connect a c = (
  bind_io_completion_port a.port && set_socket_option a && bind_recv a,
  record c { is_connect = true },
)

-- `Close` at a time
unfoldable pub close : ℕ → ClientInfo → ClientInfo
close now c = record c { is_connect = false; latest_closed_time_sec = now }

-- `PostAccept`, where the socket is made or not and `AcceptEx` succeeds or not
unfoldable pub post_accept : Bool → Bool → ClientInfo → Bool × ClientInfo
post_accept made accepts c = (made && accepts, record c { latest_closed_time_sec = uint32_max })

-- the three tests of `AccepterThread`
unfoldable pub is_free : ℕ → ClientInfo → Bool
is_free now c =
    not c.is_connect
    && leb c.latest_closed_time_sec now
    && ltb re_use_session_wait_timesec (now - c.latest_closed_time_sec)

-- One round of `AccepterThread` over the clients from index `i` on: the indices that `PostAccept` is
-- called for.
unfoldable pub accepter_round :
    ℕ → (ℕ → Bool × Bool) → ℕ → List ClientInfo → List ℕ × List ClientInfo
accepter_round now answers i [] = ([], [])
accepter_round now answers i (c ∷ cs) =
    let (made, accepts) = answers i in
    let (posted, cs') = accepter_round now answers (i + 1) cs in
    if is_free now c then (i ∷ posted, (post_accept made accepts c).1 ∷ cs') else (posted, c ∷ cs')
