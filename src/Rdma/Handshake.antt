-- ===== src/Rdma/Handshake.antt =====
-- The message of mm/nmsg_rdma_client.c as mm/nmsg_rdma_server.c takes it.
use rshm_hmm.Base.{ℕ, ◌+◌, ◌^◌, ◌<◌, ◌≡◌, refl, ap, ltb, if◌then◌else◌, ◌∙◌, List, [], ◌∷◌}
use rshm_hmm.Rdma.{connected, NmsgData, swap32, swap64, Event, cq}
use rshm_hmm.Rdma.ByteOrder.{swap32-swap32, swap64-swap64}
use rshm_hmm.Rdma.Server.{Server, goto, run_server}
use rshm_hmm.Rdma.Server.Run.{posted, arrival, read_end, run_server_served}
use rshm_hmm.Rdma.Client.{Client, start_client, make_message}

-- A client that starts to send, where its posts succeed, and a server that is CONNECTED: with the
-- arrival of the client's message and the end of the read the round of the server returns what the
-- post of its go-ahead answers, and the server, CONNECTED again with one message more, has the
-- address, the key and the size of the client's buffer as the client's host has them, and the bytes
-- that the read brought in its own, as many as that size.
pub run_server-start_client :
    (g rkey : ℕ) (bytes : ℕ → ℕ) (es : List Event) (c : Client) (s : Server)
    → c.start_dma_addr < 2 ^ 64
    → rkey < 2 ^ 32
    → c.message_size < 2 ^ 32
    → let (c', sent) = start_client rkey 0 0 c in
      let (s', es', ret) =
        run_server
          (posted g)
          (cq (arrival c'.send_buf ∷ []) 0 ∷ cq (read_end c'.send_buf bytes ∷ []) 0 ∷ es)
          (goto connected s) in
      (sent ≡ 0)
      × (ret ≡ g)
      × (es' ≡ es)
      × (s'.state ≡ connected)
      × (s'.remote_addr ≡ c.start_dma_addr)
      × (s'.remote_rkey ≡ rkey)
      × (s'.remote_len ≡ c.message_size)
      × (s'.recv_msgs ≡ s.recv_msgs + 1)
      × (s'.rdma_buf ≡ (λ i. if ltb i c.message_size then bytes i else s.rdma_buf i))
unfolding start_client make_message
run_server-start_client g rkey bytes es c s addr key size =
    let message : NmsgData = record {
      buf = swap64 c.start_dma_addr;
      rkey = swap32 rkey;
      size = swap32 c.message_size;
    } in
    let r = run_server_served g message bytes es s in
    (
      refl,
      r.0,
      r.1,
      r.2,
      r.3 ∙ swap64-swap64 c.start_dma_addr addr,
      r.4 ∙ swap32-swap32 rkey key,
      r.5 ∙ swap32-swap32 c.message_size size,
      r.6,
      r.7
          ∙ ap (λ n. λ i. if ltb i n then bytes i else s.rdma_buf i)
              (swap32-swap32 c.message_size size),
    )
