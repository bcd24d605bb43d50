-- ===== src/Rdma/Session.antt =====
-- mm/nmsg_rdma_client.c: the client from nmsg_init_client over nmsg_send_message to
-- nmsg_destroy_client, with the strings that it copies and what it takes and gives back besides the
-- resources of a connection.
pub mod Opened
pub mod Message
mod Examples
use rshm_hmm.Base.{
  ℕ, ◌+◌, ◌*◌, ◌/◌, ◌%◌, Bool, not, List, [], ◌∷◌, ◌++◌, ◌==◌, leb, ltb, length, get_or,
  if◌then◌else◌,
}
use rshm_hmm.Rdma.{NmsgState, idle, Event}
use rshm_hmm.Rdma.Client.{Client, Verbs, goto, run_client, free_buffers, free_qp, start_client}

-- What kmalloc was asked for, and the bytes that strcpy wrote from the start of it on.
pub record Block : Type 0 where
  pub size : ℕ
  pub bytes : List ℕ

-- kmalloc of strlen(text) bytes, and strcpy with its terminating 0.
abbrev pub copy_string : List ℕ → Block
copy_string text = record { size = length text; bytes = text ++ 0 ∷ [] }

-- The bytes written lie in the block.
abbrev pub fits : Block → Bool
fits b = leb (length b.bytes) b.size

-- struct sockaddr_in
pub record SockAddr : Type 0 where
  pub family : ℕ
  pub addr : ℕ
  pub port : ℕ

abbrev pub af_inet : ℕ
af_inet = 2

-- htons
abbrev pub swap16 : ℕ → ℕ
swap16 x = x % 256 * 256 + x / 256 % 256

-- `cb` with its address, and how often its structure and a cm_id were taken and given back. The
-- strings are those that kmalloc gave.
pub record Session : Type 0 where
  pub client : Client
  pub addr_type : ℕ
  pub addr : ℕ
  pub port : ℕ
  pub handlers : ℕ
  pub handlers_freed : ℕ
  pub ids : ℕ
  pub ids_destroyed : ℕ
  pub strings : List Block

pub fill_sockaddr : Session → SockAddr
fill_sockaddr s = record { family = s.addr_type; addr = s.addr; port = s.port }

abbrev pub message_size : ℕ
message_size = 1024

-- nmsg_pre_start up to rdma_create_id: `addr` is what in4_pton makes of the text.
abbrev pub prepare : ℕ → List ℕ → ℕ → Session → Session
prepare port text addr fresh = record fresh {
  client = record (goto idle fresh.client) { message_size = message_size };
  addr_type = af_inet;
  addr = addr;
  port = swap16 port;
  handlers = fresh.handlers + 1;
  strings = copy_string text ∷ fresh.strings;
}

-- nmsg_pre_start, with what rdma_create_id answers.
pub pre_start : ℕ → List ℕ → ℕ → ℕ → Verbs → List Event → Session → Session × List Event × ℕ
pre_start port text addr create_id k es fresh =
    let s = prepare port text addr fresh in
    let (c, es', ret) = run_client k es s.client in
    if not (create_id == 0)
    then (record s { handlers_freed = s.handlers_freed + 1 }, es, create_id)
    else (record s { ids = s.ids + 1; client = c }, es', ret)

pub init_client : List ℕ → ℕ → ℕ → ℕ → Verbs → List Event → Session → Session × List Event × ℕ
unfolding pre_start
init_client text port addr create_id k es fresh = pre_start port text addr create_id k es fresh

-- nmsg_free
pub free : Session → Session
free s = record s {
  client = free_qp (free_buffers s.client);
  ids_destroyed = s.ids_destroyed + 1;
  handlers_freed = s.handlers_freed + 1;
}

pub destroy_client : Session → Session
unfolding free
destroy_client s = free s

-- nmsg_start: `behind` is what stands in memory behind the string.
pub start : List ℕ → (ℕ → ℕ) → ℕ → ℕ → ℕ → Session → Session × ℕ
start command behind rkey register post s =
    let block = copy_string command in
    let with_message = record s.client { message = λ i. get_or block.bytes i (behind i) } in
    let (c, ret) = start_client rkey register post with_message in
    (record s { client = c; strings = block ∷ s.strings }, ret)

pub send_message : List ℕ → (ℕ → ℕ) → ℕ → ℕ → ℕ → Session → Session × ℕ
unfolding start
send_message message behind rkey register post s = start message behind rkey register post s
