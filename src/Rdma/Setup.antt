-- ===== src/Rdma/Setup.antt =====
-- mm/nmsg_rdma_server.c: how the server takes and gives back what it needs of the kernel, from
-- nmsg_start_server to nmsg_stop_server. What is taken and what is given back is counted apart, since the
-- code can give back what it does not have. `none` is a server that goes on.
pub mod Balance
use rshm_hmm.Base.{
  ℕ, ◌+◌, ◌-◌, ◌/◌, Bool, true, false, not, Option, none, some, List, ◌==◌, if◌then◌else◌,
}
use rshm_hmm.Kernel.{einval, enomem, page_size}
use rshm_hmm.Rdma.{NmsgState, idle, connected, error, sizeof_nmsg_data, Event}
use rshm_hmm.Rdma.Server.{Server, Posts, wait, serve, is_error}

-- A pointer that a test for NULL and a test for an error tell apart.
pub data Pointer : Type 0 where
  null invalid valid : Pointer

abbrev pub is_null : Pointer → Bool
is_null null = true
is_null _ = false

abbrev pub is_valid : Pointer → Bool
is_valid valid = true
is_valid _ = false

-- How often each thing was taken, or given back.
pub record Counts : Type 0 where
  pub pds : ℕ
  pub cqs : ℕ
  pub qps : ℕ
  pub mrs : ℕ
  pub maps : ℕ
  pub buffers : ℕ
  pub children : ℕ
  pub listeners : ℕ
  pub handlers : ℕ

-- A server with what it took and gave back; `reg_mr` is not initialised by kmalloc.
pub record Node : Type 0 where
  pub server : Server
  pub reg_mr : Pointer
  pub message_size : ℕ
  pub page_list_len : ℕ
  pub taken : Counts
  pub given : Counts
  pub recv_posts : ℕ
  pub thread : Bool

-- The kernel's answers: an error, or 0.
pub record ServerVerbs : Type 0 where
  pub create_id : ℕ
  pub bind_addr : ℕ
  pub listen : ℕ
  pub kthread : ℕ
  pub supported : Bool
  pub alloc_pd : ℕ
  pub create_cq : ℕ
  pub notify : ℕ
  pub create_qp : ℕ
  pub rdma_alloc : Bool
  pub alloc_mr : ℕ
  pub post_recv : ℕ
  pub accept : ℕ

-- ib_destroy_cq and ib_dealloc_pd
abbrev pub destroy_cq : Node → Node
destroy_cq n = record n { given = record n.given { cqs = n.given.cqs + 1 } }

abbrev pub dealloc_pd : Node → Node
dealloc_pd n = record n { given = record n.given { pds = n.given.pds + 1 } }

abbrev pub destroy_child : Node → Node
destroy_child n = record n { given = record n.given { children = n.given.children + 1 } }

-- `nmsg_create_qp` is its last answer.
pub setup_qp : ServerVerbs → Node → Node × ℕ
setup_qp k n =
    let with_pd = record n { taken = record n.taken { pds = n.taken.pds + 1 } } in
    let with_cq = record with_pd { taken = record with_pd.taken { cqs = n.taken.cqs + 1 } } in
    if not (k.alloc_pd == 0)
    then (n, k.alloc_pd)
    else if not (k.create_cq == 0)
    then (dealloc_pd with_pd, k.create_cq)
    else if not (k.notify == 0)
    then (dealloc_pd (destroy_cq with_cq), k.notify)
    else if not (k.create_qp == 0)
    then (dealloc_pd (destroy_cq with_cq), k.create_qp)
    else (record with_cq { taken = record with_cq.taken { qps = n.taken.qps + 1 } }, 0)

-- ib_dereg_mr, and dma_free_coherent
abbrev pub dereg_mr : Node → Node
dereg_mr n = record n { given = record n.given { mrs = n.given.mrs + 1 } }

abbrev pub free_rdma_buf : Node → Node
free_rdma_buf n = record n { given = record n.given { buffers = n.given.buffers + 1 } }

-- The label bail is here the two branches that fail; rdma_buf is NULL in the first one.
pub setup_buffers : ServerVerbs → Node → Node × ℕ
setup_buffers k n =
    let mapped_bufs = record n { taken = record n.taken { maps = n.taken.maps + 2 } } in
    let with_buf = record mapped_bufs {
      taken = record mapped_bufs.taken { buffers = n.taken.buffers + 1 };
      page_list_len = (n.message_size - 1) / page_size + 1;
    } in
    if not k.rdma_alloc
    then ((if is_valid n.reg_mr then dereg_mr mapped_bufs else mapped_bufs), enomem)
    else if not (k.alloc_mr == 0)
    then (free_rdma_buf (record with_buf { reg_mr = invalid }), k.alloc_mr)
    else (
      record with_buf {
        reg_mr = valid;
        taken = record with_buf.taken { mrs = n.taken.mrs + 1 };
        server = record n.server { send_length = sizeof_nmsg_data };
      },
      0,
    )

pub free_buffers : Node → Node
free_buffers n =
    let unregistered = if is_null n.reg_mr then n else dereg_mr n in
    free_rdma_buf
      (record unregistered { given = record unregistered.given { maps = n.given.maps + 2 } })

pub free_qp : Node → Node
free_qp n = record n {
  given = record n.given { qps = n.given.qps + 1; cqs = n.given.cqs + 1; pds = n.given.pds + 1 };
}

pub bind_server : ServerVerbs → ℕ
bind_server k = if not (k.bind_addr == 0) then k.bind_addr else k.listen

abbrev pub is_connect_request : NmsgState → Bool
is_connect_request NmsgState.connect_request = true
is_connect_request _ = false

-- A result -1 is written 1. The event takes the identifier of the connection with it.
pub connect_client : ServerVerbs → List Event → Server → Server × List Event × ℕ
connect_client k es s =
    let (s', es') = wait NmsgState.connect_request es s in
    if not (is_connect_request s'.state)
    then (s', es', 1)
    else (s', es', if k.supported then 0 else einval)

abbrev pub with_server : Node → Server → Node
with_server n s = record n { server = s }

-- A request brings the identifier of its connection.
abbrev pub arrive : Node → Server → Node
arrive n s =
    let children = if is_connect_request s.state then n.taken.children + 1 else n.taken.children in
    record n { server = s; taken = record n.taken { children = children } }

-- The part of nmsg_server_setup behind nmsg_connect_client.
pub connected_setup : ServerVerbs → Node → Node × ℕ
unfolding setup_qp setup_buffers free_buffers free_qp
connected_setup k n =
    let (with_qp, no_qp) = setup_qp k n in
    let (ready, no_buffers) = setup_buffers k with_qp in
    if not (no_qp == 0)
    then (destroy_child with_qp, no_qp)
    else if not (no_buffers == 0)
    then (destroy_child (free_qp ready), no_buffers)
    else if not (k.post_recv == 0)
    then (destroy_child (free_qp (free_buffers ready)), k.post_recv)
    else (record ready { recv_posts = n.recv_posts + 1 }, 0)

-- A client that cannot connect is no error.
pub server_setup : ServerVerbs → List Event → Node → Node × List Event × ℕ
unfolding connect_client connected_setup
server_setup k es n =
    let (s, es', failed) = connect_client k es n.server in
    let (n', ret) = connected_setup k (arrive n s) in
    if not (failed == 0) then (arrive n s, es', 0) else (n', es', ret)

pub accept : ServerVerbs → List Event → Server → Server × List Event × ℕ
accept k es s =
    let (s', es') = wait connected es s in
    if not (k.accept == 0) then (s, es, k.accept) else (s', es', if is_error s'.state then 1 else 0)

-- The label err of nmsg_start.
abbrev pub free_connection : Node → Node
free_connection n = destroy_child (free_qp (free_buffers n))

-- nmsg_start in the server's thread, with the answers of the verbs in its rounds.
pub start : ServerVerbs → List Posts → List Event → Node → Option (Node × ℕ)
unfolding server_setup accept
start k ps es n =
    let (ready, es1, not_set_up) = server_setup k es n in
    let (s, es2, refused) = accept k es1 ready.server in
    let (s', _, ended) = serve ps es2 s in
    if not (not_set_up == 0)
    then some (ready, not_set_up)
    else if not (refused == 0)
    then some (free_connection (with_server ready s), refused)
    else if ended == 0
    then none
    else some (free_connection (with_server ready s'), ended)

-- nmsg_pre_setup: `fresh` is what kmalloc gives.
abbrev pub pre_setup : Node → Node
pre_setup fresh = record fresh {
  server = record fresh.server { state = idle };
  message_size = 1024;
  taken = record fresh.taken { handlers = fresh.taken.handlers + 1 };
}

pub pre_start : ServerVerbs → Node → Node × ℕ
unfolding bind_server
pre_start k fresh =
    let n = pre_setup fresh in
    let listening = record n { taken = record n.taken { listeners = n.taken.listeners + 1 } } in
    if not (k.create_id == 0) then (n, k.create_id) else (listening, bind_server k)

pub start_server : ServerVerbs → Node → Node × ℕ
unfolding pre_start
start_server k fresh =
    let (n, ret) = pre_start k fresh in
    if not (ret == 0)
    then (n, ret)
    else if not (k.kthread == 0)
    then (n, k.kthread)
    else (record n { thread = true }, 0)

-- nmsg_free
pub free_server : Node → Node
unfolding free_buffers free_qp
free_server n =
    let freed = free_qp (free_buffers n) in
    record freed {
      given = record freed.given {
        listeners = n.given.listeners + 1;
        handlers = n.given.handlers + 1;
      };
    }

-- nmsg_stop_server; the signal to the thread has no effect on what is held.
pub stop_server : Node → Node
unfolding free_server
stop_server n = free_server n
