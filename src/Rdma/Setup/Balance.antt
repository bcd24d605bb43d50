-- ===== src/Rdma/Setup/Balance.antt =====
-- What the server of mm/nmsg_rdma_server.c holds of the kernel behind nmsg_server_setup and nmsg_start.
use rshm_hmm.Base.{
  ℕ, ◌+◌, ◌≡◌, ◌≢◌, ◌⊎◌, false, not, ◌&&◌, Option, none, some, List, ◌==◌, if◌then◌else◌,
}
use rshm_hmm.Rdma.{Event}
use rshm_hmm.Rdma.Server.{Server, Posts, serve}
use rshm_hmm.Rdma.Setup.{valid, Node, ServerVerbs, accept, with_server, free_connection}

-- Between two nodes so much more was taken than was given back: queues (a domain, a completion queue
-- and a queue pair each), memory regions, mappings, buffers and identifiers of connections.
abbrev pub Holds : Node → Node → ℕ → ℕ → ℕ → ℕ → ℕ → Type 0
Holds n n' queues regions maps buffers children =
    (n'.taken.pds + n.given.pds ≡ n.taken.pds + n'.given.pds + queues)
    × (n'.taken.cqs + n.given.cqs ≡ n.taken.cqs + n'.given.cqs + queues)
    × (n'.taken.qps + n.given.qps ≡ n.taken.qps + n'.given.qps + queues)
    × (n'.taken.mrs + n.given.mrs ≡ n.taken.mrs + n'.given.mrs + regions)
    × (n'.taken.maps + n.given.maps ≡ n.taken.maps + n'.given.maps + maps)
    × (n'.taken.buffers + n.given.buffers ≡ n.taken.buffers + n'.given.buffers + buffers)
    × (n'.taken.children + n.given.children ≡ n.taken.children + n'.given.children + children)

-- One identifier of a connection is given back.
abbrev pub with_child : Node → Node
with_child n = record n { given = record n.given { children = n.given.children + 1 } }

-- How the set-up behind a connection ends: with everything; with the connection given back and nothing
-- more held; or, where the buffer or the region was refused, with the two mappings left.
pub data SetUp (k : ServerVerbs) (n n' : Node) (ret : ℕ) : Type 0 where
  ready : ret ≡ 0 → n'.reg_mr ≡ valid → Holds n n' 1 1 2 1 0 → SetUp k n n' ret
  undone : ret ≢ 0 → Holds (with_child n) n' 0 0 0 0 0 → SetUp k n n' ret
  mappings_left :
      ret ≢ 0
      → (k.rdma_alloc && k.alloc_mr == 0) ≡ false
      → Holds (with_child n) n' 0 0 2 0 0
      → SetUp k n n' ret

-- How the thread of the server ends, from the node with the request of the client on. Where it could
-- not connect, it gives back what it never took.
pub data Ended (k : ServerVerbs) (n : Node) (failed : ℕ) (n' : Node) (ret : ℕ) : Type 0 where
  balanced : failed ≡ 0 → ret ≢ 0 → Holds (with_child n) n' 0 0 0 0 0 → Ended k n failed n' ret
  leaves_mappings :
      failed ≡ 0
      → ret ≢ 0
      → (k.rdma_alloc && k.alloc_mr == 0) ≡ false
      → Holds (with_child n) n' 0 0 2 0 0
      → Ended k n failed n' ret
  gives_too_much :
      failed ≢ 0
      → ret ≢ 0
      → n'.taken ≡ n.taken
      → n'.given.pds ≡ n.given.pds + 1
      → n'.given.cqs ≡ n.given.cqs + 1
      → n'.given.qps ≡ n.given.qps + 1
      → n'.given.maps ≡ n.given.maps + 2
      → n'.given.buffers ≡ n.given.buffers + 1
      → n'.given.children ≡ n.given.children + 1
      → Ended k n failed n' ret

-- What is behind nmsg_server_setup: the acceptance, the rounds, and the label err.
abbrev finish : ServerVerbs → List Posts → List Event → Node → Option (Node × ℕ)
finish k ps es n =
    let (s, es', refused) = accept k es n.server in
    let (s', _, ended) = serve ps es' s in
    if not (refused == 0)
    then some (free_connection (with_server n s), refused)
    else if ended == 0
    then none
    else some (free_connection (with_server n s'), ended)

-- It goes on, or it ends with an error and the connection freed.
Finishes : ServerVerbs → List Posts → List Event → Node → Type 0
Finishes k ps es n =
    (finish k ps es n ≡ none)
    ⊎ ((s : Server) × (ret : ℕ) × (finish k ps es n ≡ some (free_connection (with_server n s), ret))
        × (ret ≢ 0))
