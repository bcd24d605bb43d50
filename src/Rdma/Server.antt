-- ===== src/Rdma/Server.antt =====
-- mm/nmsg_rdma_server.c: struct nmsg_server_handler, the handlers of connection events and of
-- completions, and nmsg_run_server. A wait takes the events that come while it lasts.
pub mod Events
pub mod Run
use rshm_hmm.Base.{
  ℕ, ◌+◌, Bool, true, false, not, ◌||◌, List, [], ◌∷◌, leb, ltb, ◌==◌, if◌then◌else◌,
}
use rshm_hmm.Rdma.{
  NmsgState, connected, rdma_read_adv, rdma_read_complete, rdma_write_adv, rdma_write_complete,
  error, value, NmsgData, sizeof_nmsg_data, CmEvent, Opcode, Status, Completion, swap32, swap64,
  Event, cm, cq, wait_event,
}

-- rdma_buf is by its bytes. `wakes` counts the calls of wake_up_interruptible, and `recv_posts` those of ib_post_recv that
-- succeed in the handler of completions.
pub record Server : Type 0 where
  pub state : NmsgState
  pub send_bytes : ℕ
  pub send_msgs : ℕ
  pub recv_bytes : ℕ
  pub recv_msgs : ℕ
  pub wakes : ℕ
  pub recv_posts : ℕ
  pub recv_buf : NmsgData
  pub send_length : ℕ
  pub remote_rkey : ℕ
  pub remote_addr : ℕ
  pub remote_len : ℕ
  pub child_cm_id : ℕ
  pub rdma_buf : ℕ → ℕ

abbrev pub goto : NmsgState → Server → Server
goto st s = record s { state = st }

abbrev pub wake : Server → Server
wake s = record s { wakes = s.wakes + 1 }

abbrev pub is_error : NmsgState → Bool
is_error error = true
is_error _ = false

-- `route` is what rdma_resolve_route answers.
pub cma_event_handler : CmEvent → ℕ → ℕ → Server → Server
cma_event_handler CmEvent.addr_resolved cma_id route s =
    let s' = goto NmsgState.addr_resolved s in if route == 0 then s' else wake s'
cma_event_handler CmEvent.route_resolved cma_id route s = wake (goto NmsgState.route_resolved s)
cma_event_handler CmEvent.connect_request cma_id route s =
    wake (record (goto NmsgState.connect_request s) { child_cm_id = cma_id })
cma_event_handler CmEvent.established cma_id route s = wake s
cma_event_handler CmEvent.addr_error cma_id route s = wake (goto error s)
cma_event_handler CmEvent.route_error cma_id route s = wake (goto error s)
cma_event_handler CmEvent.connect_error cma_id route s = wake (goto error s)
cma_event_handler CmEvent.unreachable cma_id route s = wake (goto error s)
cma_event_handler CmEvent.rejected cma_id route s = wake (goto error s)
cma_event_handler CmEvent.disconnected cma_id route s = wake (goto error s)
cma_event_handler CmEvent.device_removal cma_id route s = wake (goto error s)
cma_event_handler CmEvent.other cma_id route s = wake s

abbrev pub is_write_complete : NmsgState → Bool
is_write_complete rdma_write_complete = true
is_write_complete _ = false

-- The state behind a message.
abbrev pub advanced : NmsgState → NmsgState
advanced st =
    if leb (value st) (value connected) || is_write_complete st
    then rdma_read_adv
    else rdma_write_adv

-- server_recv on a message of the right size.
pub server_recv : Server → Server
server_recv s = record s {
  remote_rkey = swap32 s.recv_buf.rkey;
  remote_addr = swap64 s.recv_buf.buf;
  remote_len = swap32 s.recv_buf.size;
  state = advanced s.state;
}

abbrev pub fail : Server → Server
fail s = wake (goto error s)

-- A completion, and whether the loop goes on. At the end of a read the bytes of the client stand in
-- rdma_buf, as many as sg_list->length says, which is remote_len.
pub complete : Opcode → Completion → Server → Server × Bool
unfolding server_recv
complete Opcode.send wc s =
    (record s { send_bytes = s.send_bytes + s.send_length; send_msgs = s.send_msgs + 1 }, true)
complete Opcode.rdma_read wc s = (
  wake (record s {
    recv_bytes = s.recv_bytes + sizeof_nmsg_data;
    recv_msgs = s.recv_msgs + 1;
    state = rdma_read_complete;
    rdma_buf = λ i. if ltb i s.remote_len then wc.read i else s.rdma_buf i;
  }),
  true,
)
complete Opcode.recv wc s =
    let arrived = record s { recv_buf = wc.received } in
    if not (wc.byte_len == sizeof_nmsg_data)
    then (fail arrived, false)
    else (let taken = server_recv arrived in
        if wc.post_recv == 0
        then (wake (record taken { recv_posts = taken.recv_posts + 1 }), true)
        else (fail taken, false))
complete Opcode.unexpected wc s = (fail s, false)

-- The completions that ib_poll_cq gives, and its last answer.
pub cq_loop : List Completion → ℕ → Server → Server
unfolding complete
cq_loop [] last s = if last == 0 then s else fail s
cq_loop (wc ∷ rest) last s =
    let (s', on) = complete wc.opcode wc s in
    elim wc.status [
      | Status.flush_err ↦ cq_loop rest last s
      | Status.failure ↦ fail s
      | Status.success ↦ elim on [ true ↦ cq_loop rest last s' | false ↦ s' ]
    ]

pub cq_event_handler : List Completion → ℕ → Server → Server
unfolding cq_loop
cq_event_handler wcs last s = if is_error s.state then s else cq_loop wcs last s

pub handle : Event → Server → Server
unfolding cma_event_handler cq_event_handler
handle (cm e cma_id route) s = cma_event_handler e cma_id route s
handle (cq wcs last) s = cq_event_handler wcs last s

-- A wait of the server for a state.
abbrev pub wait : NmsgState → List Event → Server → Server × List Event
wait st es s = wait_event (λ (k : Server). k.state) handle st es s

-- What the verbs answer in one nmsg_run_server: the post of the memory registration, of the read and
-- of the go-ahead.
pub record Posts : Type 0 where
  pub register : ℕ
  pub read : ℕ
  pub go_ahead : ℕ

abbrev pub is_read_adv : NmsgState → Bool
is_read_adv rdma_read_adv = true
is_read_adv _ = false

abbrev pub is_read_complete : NmsgState → Bool
is_read_complete rdma_read_complete = true
is_read_complete _ = false

-- nmsg_rdma_rkey: a post that fails sets the state, and the caller goes on.
pub rdma_rkey : ℕ → Server → Server
rdma_rkey register s = if register == 0 then s else goto error s

-- The part of nmsg_run_server behind the post of the read; a result -1 is written 1.
pub await_read : Posts → Server × List Event → Server × List Event × ℕ
await_read k (s, es) =
    if not (is_read_complete s.state) then (s, es, 0) else (goto connected s, es, k.go_ahead)

pub run_server : Posts → List Event → Server → Server × List Event × ℕ
unfolding wait_event handle rdma_rkey await_read
run_server k es s =
    let (s', es') = wait rdma_read_adv es s in
    let registered = rdma_rkey k.register s' in
    if not (is_read_adv s'.state)
    then (s', es', 1)
    else if not (k.read == 0)
    then (registered, es', k.read)
    else await_read k (wait rdma_read_complete es' registered)

-- The loop of nmsg_start, a round for each answer of the verbs; where these end, it is still going.
pub serve : List Posts → List Event → Server → Server × List Event × ℕ
unfolding run_server
serve [] es s = (s, es, 0)
serve (k ∷ ks) es s =
    let (s', es', ret) = run_server k es s in
    elim (ret == 0) [ true ↦ serve ks es' s' | false ↦ (s', es', ret) ]
