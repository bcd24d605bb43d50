-- ===== src/Rdma/Session/Examples.antt =====
-- mm/nmsg_rdma_client.c: a client whose connection is refused, one that is connected and closed, and
-- the message "hi".
use rshm_hmm.Base.{ℕ, ◌≡◌, refl, false, List, [], ◌∷◌, ltb, if◌then◌else◌, arith}
use rshm_hmm.Rdma.{connected, CmEvent, Event, cm, cq}
use rshm_hmm.Rdma.Server.{goto, run_server}
use rshm_hmm.Rdma.Server.Run.{posted, arrival, read_end}
use rshm_hmm.Rdma.Client.{Verbs, run_client}
use rshm_hmm.Rdma.Client.Resources.{Holds}
use rshm_hmm.Rdma.Fixtures.{client, server, answers, events}
use rshm_hmm.Rdma.Session.{
  Session, copy_string, fits, fill_sockaddr, init_client, destroy_client, send_message,
}
use rshm_hmm.Rdma.Session.Opened.{Open, Ran, init_client-Open, init_client-destroy_client}
use rshm_hmm.Rdma.Session.Message.{string_byte, run_server-send_message}

abbrev fresh : Session
fresh = record {
  client = client;
  addr_type = 0;
  addr = 0;
  port = 0;
  handlers = 0;
  handlers_freed = 0;
  ids = 0;
  ids_destroyed = 0;
  strings = [];
}

-- "1.2", and "hi"
abbrev address : List ℕ
address = 49 ∷ 46 ∷ 50 ∷ []

abbrev hi : List ℕ
hi = 104 ∷ 105 ∷ []

abbrev accepted : Verbs
accepted = record answers { connect = 0 }

abbrev established : List Event
established =
    cm CmEvent.addr_resolved 0 0 ∷ cm CmEvent.route_resolved 0 0 ∷ cm CmEvent.established 0 0 ∷ []

init_client-Open_example :
    let (s', es', ret) = init_client address 11111 258 0 answers events fresh in
    (s'.strings ≡ copy_string address ∷ [])
    × (fits (copy_string address) ≡ false)
    × (fill_sockaddr s' ≡ record { family = 2; addr = 258; port = 26411 })
    × (Open fresh s' 1 × Ran client s'.client ret)
init_client-Open_example = init_client-Open address 11111 258 0 answers events fresh refl

-- The server's error 111 comes back.
refused : (init_client address 11111 258 0 answers events fresh).2 ≡ 111
unfolding init_client run_client
refused = refl

connects : (init_client address 11111 258 0 accepted established fresh).2 ≡ 0
unfolding init_client run_client
connects = refl

init_client-destroy_client_example :
    let closed = destroy_client (init_client address 11111 258 0 accepted established fresh).0 in
    Open fresh closed 0
    × Holds client closed.client 0 0 0
    × (closed.strings ≡ copy_string address ∷ [])
init_client-destroy_client_example =
    init_client-destroy_client address 11111 258 0 accepted established fresh refl connects

abbrev beyond : ℕ → ℕ
beyond i = 170

run_server-send_message_example :
    let (s', sent) = send_message hi beyond 77 0 0 fresh in
    let info = s'.client.send_buf in
    let (v, es', ret) =
      run_server
        (posted 0)
        (cq (arrival info ∷ []) 0 ∷ cq (read_end info s'.client.start_buf ∷ []) 0 ∷ [])
        (goto connected server) in
    (sent ≡ 0)
    × (ret ≡ 0)
    × (es' ≡ [])
    × (v.state ≡ connected)
    × (v.remote_addr ≡ s'.client.start_dma_addr)
    × (v.remote_rkey ≡ 77)
    × (v.remote_len ≡ fresh.client.message_size)
    × (v.recv_msgs ≡ 1)
    × ((i : ℕ)
        → v.rdma_buf i ≡ (if ltb i fresh.client.message_size then string_byte hi beyond i else 0))
run_server-send_message_example =
    run_server-send_message hi beyond 77 fresh 0
      (send_message hi beyond 77 0 0 fresh).0.client.start_buf [] server (omega arith) (omega arith)
      (omega arith) λ i lt. refl
