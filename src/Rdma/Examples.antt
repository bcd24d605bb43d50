-- ===== src/Rdma/Examples.antt =====
-- The handlers of mm/nmsg_rdma_server.c and mm/nmsg_rdma_client.c on concrete events.
use rshm_hmm.Base.{◌≡◌, refl, List, [], ◌∷◌, true, false, not, ◌&&◌, ◌==◌}
use rshm_hmm.Rdma.{idle, Completion, Opcode, Status, CmEvent, Event, cm, swap32}
use rshm_hmm.Rdma.Server.{goto, cq_event_handler, is_error}
use rshm_hmm.Rdma.Server.Events.{clean, cq_event_handler-clean}
use rshm_hmm.Rdma.Server.Run.{arrival, read_end}
use rshm_hmm.Rdma.Fixtures.{blank, server}
use rshm_hmm.Rdma.Setup.{null, Counts, Node, ServerVerbs}

abbrev sent : Completion
sent = record {
  status = Status.success;
  opcode = Opcode.send;
  byte_len = 0;
  received = blank;
  read = λ i. 0;
  post_recv = 0;
}

abbrev completions : List Completion
completions = arrival blank ∷ read_end blank (λ i. 0) ∷ sent ∷ []

-- The bytes of 0x12345678 in the other order.
swapped : swap32 305419896 ≡ 2018915346
unfolding swap32
swapped = refl

cq_event_handler-clean_example :
    is_error (cq_event_handler completions 5 server).state ≡ not (clean completions && 5 == 0)
cq_event_handler-clean_example = cq_event_handler-clean completions 5 server

abbrev none_taken : Counts
none_taken = record {
  pds = 0;
  cqs = 0;
  qps = 0;
  mrs = 0;
  maps = 0;
  buffers = 0;
  children = 0;
  listeners = 0;
  handlers = 0;
}

abbrev node : Node
node = record {
  server = goto idle server;
  reg_mr = null;
  message_size = 1024;
  page_list_len = 0;
  taken = none_taken;
  given = none_taken;
  recv_posts = 0;
  thread = true;
}

-- No buffer for the server.
abbrev server_answers : ServerVerbs
server_answers = record {
  create_id = 0;
  bind_addr = 0;
  listen = 0;
  kthread = 0;
  supported = true;
  alloc_pd = 0;
  create_cq = 0;
  notify = 0;
  create_qp = 0;
  rdma_alloc = false;
  alloc_mr = 0;
  post_recv = 0;
  accept = 0;
}

abbrev request : List Event
request = cm CmEvent.connect_request 3 0 ∷ []
