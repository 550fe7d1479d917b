-- ===== src/Network/Tests.antt =====
-- A server with one client, who is connected and has one message on its way.
use project_run_server.Base.{
  ◌≡◌, refl, true, false, List, [], ◌∷◌, ◌++◌, none, some, drop, get_elem?, arith,
}
use project_run_server.Network.{
  ClientInfo, Message, Answers, null_handle, opened, pending, init, on_connect, is_free,
}
use project_run_server.Network.Server.{
  IocpServer, Completion, connected, closed, work, work_on, accept,
}
use project_run_server.Network.Sending.{
  run_sends, run_sends-order, send_all, broken, accepted, send_all-after_close,
}
use project_run_server.Network.Reuse.{count, rounds, rounds-once}

abbrev all_well : Answers
all_well = record {
  port = opened 7;
  sets_no_delay = true;
  sets_send_buffer = true;
  sets_keep_alive = true;
  receive = pending;
  send = pending;
}

-- A client whose socket could not be bound to the port counts as connected.
unbound_connects : (on_connect (record all_well { port = null_handle }) init).0 ≡ true
unfolding on_connect
unbound_connects = refl

abbrev busy : ClientInfo
busy = record { is_connect = true; latest_closed_time_sec = 0; send_dataqueue = (1 ∷ 2 ∷ []) ∷ [] }

abbrev server : IocpServer
server = record {
  client_infos = busy ∷ [];
  empty_client_stack = 0 ∷ [];
  client_cnt = 1;
  is_worker_run = true;
}

-- The listening socket has no client: a failed accept is a call through a null pointer.
accept_failed : Completion
accept_failed = record { success = false; io_size = 0; key = none; overlapped = some (accept, 0) }

accept_failed_faults : work accept_failed 9 all_well server ≡ none
unfolding work work_on accept_failed
accept_failed_faults = refl

run_sends-order_example :
    let (q', sent) =
      run_sends true (some (3 ∷ []) ∷ none ∷ some (4 ∷ []) ∷ []) (busy.send_dataqueue) in
    sent ++ drop 1 q' ≡ (3 ∷ []) ∷ (4 ∷ []) ∷ []
run_sends-order_example =
    run_sends-order (some (3 ∷ []) ∷ none ∷ some (4 ∷ []) ∷ []) busy.send_dataqueue

send_all-after_close_example :
    (s1 : IocpServer) × (work (broken 0) 50 all_well server ≡ some (s1, closed 0 ∷ []))
    × ((s2 : IocpServer) × (work (accepted 0) 60 all_well s1 ≡ some (s2, connected 0 ∷ []))
        × ((ms : List Message)
            → (s3 : IocpServer) × (send_all 0 ms all_well s2 ≡ some (s3, []))
              × ((c3 : ClientInfo) × (get_elem? s3.client_infos 0 ≡ some c3)
                  × (c3.send_dataqueue ≡ (1 ∷ 2 ∷ []) ∷ ms))))
send_all-after_close_example =
    send_all-after_close server 0 busy (1 ∷ 2 ∷ []) [] all_well all_well 50 60 refl refl refl refl

first_free : is_free 4 init ≡ true
unfolding is_free init
first_free = refl

rounds-once_example :
    count 0 (rounds ((4, λ i. (true, false)) ∷ (5, λ i. (true, true)) ∷ []) (init ∷ [])) ≡ 1
rounds-once_example =
    rounds-once 4 (λ i. (true, false)) ((5, λ i. (true, true)) ∷ []) (init ∷ []) 0 init
      (omega arith, tt) refl first_free
