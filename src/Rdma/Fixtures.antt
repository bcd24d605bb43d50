-- ===== src/Rdma/Fixtures.antt =====
-- A client and a server of mm/nmsg_rdma_client.c and mm/nmsg_rdma_server.c, and what the kernel answers
-- them: data of the examples.
use rshm_hmm.Base.{List, [], ◌∷◌, true, false}
use rshm_hmm.Rdma.{connected, idle, NmsgData, CmEvent, Event, cm}
use rshm_hmm.Rdma.Server.{Server}
use rshm_hmm.Rdma.Client.{Client, Verbs}

abbrev pub blank : NmsgData
blank = record { buf = 0; rkey = 0; size = 0 }

abbrev pub server : Server
server = record {
  state = connected;
  send_bytes = 0;
  send_msgs = 0;
  recv_bytes = 0;
  recv_msgs = 0;
  wakes = 0;
  recv_posts = 1;
  recv_buf = blank;
  send_length = 56;
  remote_rkey = 0;
  remote_addr = 0;
  remote_len = 0;
  rdma_buf = λ i. 0;
  child_cm_id = 0;
}

abbrev pub client : Client
client = record {
  state = idle;
  send_bytes = 0;
  send_msgs = 0;
  wakes = 0;
  recv_posts = 0;
  send_buf = blank;
  send_length = 56;
  message = λ i. i;
  message_size = 1024;
  start_buf = λ i. 0;
  start_dma_addr = 4886718345;
  page_list_len = 0;
  buffer = false;
  pds = 0;
  cqs = 0;
  qps = 0;
  mrs = 0;
  maps = 0;
  allocs = 0;
  frees = 0;
}

-- Everything succeeds but the connection.
abbrev pub answers : Verbs
answers = record {
  resolve = 0;
  supported = true;
  alloc_pd = 0;
  create_cq = 0;
  notify = 0;
  create_qp = 0;
  alloc_mr = 0;
  dma_alloc = true;
  post_recv = 0;
  connect = 111;
}

abbrev pub events : List Event
events = cm CmEvent.addr_resolved 0 0 ∷ cm CmEvent.route_resolved 0 0 ∷ []
