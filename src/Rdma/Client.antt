-- ===== src/Rdma/Client.antt =====
-- mm/nmsg_rdma_client.c: struct nmsg_client_handler, its handlers of connection events and of
-- completions, make_message, nmsg_start_client, and the set-up of a connection in nmsg_run_client
-- with what it takes and gives back of the kernel's resources.
pub mod Resources
use rshm_hmm.Base.{
  ℕ, ◌+◌, ◌-◌, ◌*◌, ◌/◌, Bool, true, false, not, List, [], ◌∷◌, leb, ltb, ◌==◌, if◌then◌else◌,
}
use rshm_hmm.Kernel.{einval, enomem, page_size}
use rshm_hmm.Rdma.{
  NmsgState, connected, rdma_read_adv, rdma_write_adv, rdma_write_complete, error, value, NmsgData,
  sizeof_nmsg_data, CmEvent, Opcode, Status, Completion, swap32, swap64, Event, cm, cq, wait_event,
}

abbrev pub eintr : ℕ
eintr = 4

-- `wakes` counts the calls of wake_up_interruptible. `buffer` says that start_buf is not NULL. The
-- fields from `pds` on count what is held of the kernel, and the coherent buffers that were
-- allocated and freed.
pub record Client : Type 0 where
  pub state : NmsgState
  pub send_bytes : ℕ
  pub send_msgs : ℕ
  pub wakes : ℕ
  pub recv_posts : ℕ
  pub send_buf : NmsgData
  pub send_length : ℕ
  pub message : ℕ → ℕ
  pub message_size : ℕ
  pub start_buf : ℕ → ℕ
  pub start_dma_addr : ℕ
  pub page_list_len : ℕ
  pub buffer : Bool
  pub pds : ℕ
  pub cqs : ℕ
  pub qps : ℕ
  pub mrs : ℕ
  pub maps : ℕ
  pub allocs : ℕ
  pub frees : ℕ

abbrev pub goto : NmsgState → Client → Client
goto st s = record s { state = st }

abbrev pub wake : Client → Client
wake s = record s { wakes = s.wakes + 1 }

abbrev pub is_error : NmsgState → Bool
is_error error = true
is_error _ = false

-- `route` is what rdma_resolve_route answers.
pub cma_event_handler : CmEvent → ℕ → Client → Client
cma_event_handler CmEvent.addr_resolved route s =
    let s' = goto NmsgState.addr_resolved s in if route == 0 then s' else wake s'
cma_event_handler CmEvent.route_resolved route s = wake (goto NmsgState.route_resolved s)
cma_event_handler CmEvent.connect_request route s = wake (goto NmsgState.connect_request s)
cma_event_handler CmEvent.established route s = wake (goto connected s)
cma_event_handler CmEvent.addr_error route s = wake (goto error s)
cma_event_handler CmEvent.route_error route s = wake (goto error s)
cma_event_handler CmEvent.connect_error route s = wake (goto error s)
cma_event_handler CmEvent.unreachable route s = wake (goto error s)
cma_event_handler CmEvent.rejected route s = wake (goto error s)
cma_event_handler CmEvent.disconnected route s = wake (goto error s)
cma_event_handler CmEvent.device_removal route s = wake (goto error s)
cma_event_handler CmEvent.other route s = wake s

-- The state behind a message from the server.
abbrev pub answered : NmsgState → NmsgState
answered rdma_read_adv = rdma_write_adv
answered _ = rdma_write_complete

-- client_recv on a message of the right size.
pub client_recv : Client → Client
client_recv s = goto (answered s.state) s

abbrev pub fail : Client → Client
fail s = wake (goto error s)

-- A completion, and whether the loop goes on.
pub complete : Opcode → Completion → Client → Client × Bool
unfolding client_recv
complete Opcode.send wc s =
    (record s { send_bytes = s.send_bytes + s.send_length; send_msgs = s.send_msgs + 1 }, true)
complete Opcode.recv wc s =
    if not (wc.byte_len == sizeof_nmsg_data)
    then (fail s, false)
    else (let taken = client_recv s in
        if wc.post_recv == 0
        then (wake (record taken { recv_posts = taken.recv_posts + 1 }), true)
        else (fail taken, false))
complete Opcode.rdma_read wc s = (fail s, false)
complete Opcode.unexpected wc s = (fail s, false)

-- The completions that ib_poll_cq gives, and its last answer.
pub cq_loop : List Completion → ℕ → Client → Client
unfolding complete
cq_loop [] last s = if last == 0 then s else fail s
cq_loop (wc ∷ rest) last s =
    let (s', on) = complete wc.opcode wc s in
    elim wc.status [
      | Status.flush_err ↦ cq_loop rest last s
      | Status.failure ↦ fail s
      | Status.success ↦ elim on [ true ↦ cq_loop rest last s' | false ↦ s' ]
    ]

pub cq_event_handler : List Completion → ℕ → Client → Client
unfolding cq_loop
cq_event_handler wcs last s = if is_error s.state then s else cq_loop wcs last s

pub handle : Event → Client → Client
unfolding cma_event_handler cq_event_handler
handle (cm e cma_id route) s = cma_event_handler e route s
handle (cq wcs last) s = cq_event_handler wcs last s

-- make_message, with the key that the memory region has after ib_update_fast_reg_key and what the
-- post of the registration answers.
unfoldable pub make_message : ℕ → ℕ → ℕ → Client → Client
make_message rkey register buf s =
    let registered = if register == 0 then s else goto error s in
    record registered {
      send_buf = record { buf = swap64 buf; rkey = swap32 rkey; size = swap32 s.message_size };
    }

-- `post` is what the post of the message answers; a result -1 is written 1.
unfoldable pub start_client : ℕ → ℕ → ℕ → Client → Client × ℕ
unfolding make_message
start_client rkey register post s =
    let copied = record (goto rdma_read_adv s) {
      start_buf = λ i. if ltb i s.message_size then s.message i else s.start_buf i;
    } in
    let made = make_message rkey register s.start_dma_addr copied in
    if is_error made.state then (made, 1) else (made, post)

-- What the kernel answers while a connection is set up: an error number, or 0 for success.
pub record Verbs : Type 0 where
  pub resolve : ℕ
  pub supported : Bool
  pub alloc_pd : ℕ
  pub create_cq : ℕ
  pub notify : ℕ
  pub create_qp : ℕ
  pub alloc_mr : ℕ
  pub dma_alloc : Bool
  pub post_recv : ℕ
  pub connect : ℕ

abbrev pub wait : NmsgState → List Event → Client → Client × List Event
wait st es s = wait_event (λ (k : Client). k.state) handle st es s

abbrev pub is_route_resolved : NmsgState → Bool
is_route_resolved NmsgState.route_resolved = true
is_route_resolved _ = false

pub bind_client : Verbs → List Event → Client → Client × List Event × ℕ
unfolding wait_event handle
bind_client k es s =
    let (s', es') = wait NmsgState.route_resolved es s in
    if not (k.resolve == 0)
    then (s, es, k.resolve)
    else if not (is_route_resolved s'.state)
    then (s', es', eintr)
    else (s', es', if k.supported then 0 else einval)

pub connect_client : Verbs → List Event → Client → Client × List Event × ℕ
unfolding wait_event handle
connect_client k es s =
    let (s', es') = wait connected es s in
    if not (k.connect == 0)
    then (s, es, k.connect)
    else (s', es', if is_error s'.state then 1 else 0)

abbrev pub destroy_cq : Client → Client
destroy_cq s = record s { cqs = s.cqs - 1 }

abbrev pub dealloc_pd : Client → Client
dealloc_pd s = record s { pds = s.pds - 1 }

pub setup_qp : Verbs → Client → Client × ℕ
setup_qp k s =
    let with_pd = record s { pds = s.pds + 1 } in
    let with_cq = record with_pd { cqs = s.cqs + 1 } in
    if not (k.alloc_pd == 0)
    then (s, k.alloc_pd)
    else if not (k.create_cq == 0)
    then (dealloc_pd with_pd, k.create_cq)
    else if not (k.notify == 0)
    then (dealloc_pd (destroy_cq with_cq), k.notify)
    else if not (k.create_qp == 0)
    then (dealloc_pd (destroy_cq with_cq), k.create_qp)
    else (record with_cq { qps = s.qps + 1 }, 0)

-- The coherent buffer is given back where the pointer to it is not NULL.
abbrev pub free_start : Client → Client
free_start s = if s.buffer then record s { frees = s.frees + 1 } else s

-- The label bail of nmsg_setup_buffers is here the two branches that fail.
pub setup_buffers : Verbs → Client → Client × ℕ
setup_buffers k s =
    let mapped_bufs = record s {
      maps = s.maps + 2;
      page_list_len = (s.message_size - 1) / page_size + 1;
    } in
    let with_mr = record mapped_bufs { mrs = s.mrs + 1 } in
    if not (k.alloc_mr == 0)
    then (free_start mapped_bufs, k.alloc_mr)
    else if not k.dma_alloc
    then (record with_mr { buffer = false; mrs = with_mr.mrs - 1 }, enomem)
    else (
      record with_mr { buffer = true; allocs = s.allocs + 1; send_length = sizeof_nmsg_data },
      0,
    )

pub free_buffers : Client → Client
free_buffers s = free_start (record s { mrs = s.mrs - 1; maps = s.maps - 2 })

pub free_qp : Client → Client
free_qp s = record s { qps = s.qps - 1; cqs = s.cqs - 1; pds = s.pds - 1 }

-- The part of nmsg_run_client behind nmsg_setup_buffers.
pub finish_client : Verbs → List Event → Client → Client × List Event × ℕ
unfolding connect_client free_buffers free_qp
finish_client k es s =
    let (s', es', ret) = connect_client k es (record s { recv_posts = s.recv_posts + 1 }) in
    if not (k.post_recv == 0)
    then (free_qp (free_buffers s), es, k.post_recv)
    else if ret == 0
    then (s', es', 0)
    else (free_qp (free_buffers s'), es', ret)

unfoldable pub run_client : Verbs → List Event → Client → Client × List Event × ℕ
unfolding bind_client setup_qp setup_buffers finish_client
run_client k es s =
    let (bound, es', unbound) = bind_client k es s in
    let (with_qp, no_qp) = setup_qp k bound in
    let (ready, no_buffers) = setup_buffers k with_qp in
    if not (unbound == 0)
    then (bound, es', unbound)
    else if not (no_qp == 0)
    then (with_qp, es', no_qp)
    else if not (no_buffers == 0)
    then (free_qp ready, es', no_buffers)
    else finish_client k es' ready
