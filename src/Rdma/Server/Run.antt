-- ===== src/Rdma/Server/Run.antt =====
-- nmsg_run_server and the loop of nmsg_start in mm/nmsg_rdma_server.c: what a round takes from the
-- events, and what becomes of a failure in it.
use rshm_hmm.Base.{
  ltb, if◌then◌else◌, ℕ, ◌+◌, ◌≡◌, refl, inl, inr, List, [], ◌∷◌, ◌==◌, Bool-cases, ◌≢◌, arith,
}
use rshm_hmm.Rdma.{
  connected, rdma_read_adv, rdma_read_complete, CmEvent, Event, cm, cq, wait_event, NmsgData,
  Completion, Opcode, Status, sizeof_nmsg_data, swap32, swap64,
}
use rshm_hmm.Rdma.Server.{
  Server, Posts, goto, fail, wait, handle, cma_event_handler, rdma_rkey, await_read, run_server,
  serve, is_read_adv, is_read_complete, cq_event_handler, cq_loop, complete, server_recv,
}

-- Every post succeeds, but for the answer of the last one.
abbrev pub posted : ℕ → Posts
posted go_ahead = record { register = 0; read = 0; go_ahead = go_ahead }

-- How a round ends.
pub data Round (k : Posts) (s : Server) (ret : ℕ) : Type 0 where
  refused : s.state ≢ rdma_read_adv → ret ≡ 1 → Round k s ret
  unposted : ret ≢ 0 → ret ≡ k.read → Round k s ret
  unread : s.state ≢ rdma_read_complete → ret ≡ 0 → Round k s ret
  served : s.state ≡ connected → ret ≡ k.go_ahead → Round k s ret

await_read-Round :
    (k : Posts) (s : Server) (es : List Event)
    → let (s', es', ret) = await_read k (s, es) in Round k s' ret
unfolding await_read
await_read-Round k s es = elim (Bool-cases (is_read_complete s.state)) [
  | inl done ↦ rw done (served refl refl)
  | inr missing ↦ rw missing (unread (λ e. cc (rw e at missing)) refl)
]

-- A round of the server ends in one of four ways: it returns -1 and no read of the client was
-- advertised; it returns the error of the post of the read; it returns 0 and the read is not
-- complete; or the server is CONNECTED again and it returns what the post of the go-ahead answers.
pub run_server-Round :
    (k : Posts) (es : List Event) (s : Server)
    → let (s', es', ret) = run_server k es s in Round k s' ret
unfolding run_server
run_server-Round k es s =
    let (s', es') = wait rdma_read_adv es s in
    elim (Bool-cases (is_read_adv s'.state)) [
      | inr other ↦ rw other (refused (λ e. cc (rw e at other)) refl)
      | inl advertised ↦ rw advertised (elim (Bool-cases (k.read == 0)) [
        | inr failed ↦ rw failed (unposted (ground arith) refl)
        | inl sent ↦ rw sent (
            await_read-Round k (wait rdma_read_complete es' (rdma_rkey k.register s')).0
              (wait rdma_read_complete es' (rdma_rkey k.register s')).1)
      ])
    ]

-- A client that goes away while the server waits for the read: the round returns 0, as if it had
-- been served, with the state ERROR, and only the next round returns -1.
pub run_server_hides :
    (g : ℕ) (k : Posts) (ks : List Posts) (cma_id route : ℕ) (es : List Event) (s : Server)
    → let away = cm CmEvent.disconnected cma_id route ∷ es in
      (run_server (posted g) away (goto rdma_read_adv s) ≡ (fail s, es, 0))
      × (serve (posted g ∷ k ∷ ks) away (goto rdma_read_adv s) ≡ (fail s, es, 1))
unfolding run_server serve rdma_rkey await_read wait_event handle cma_event_handler
run_server_hides g k ks cma_id route [] s = (refl, refl)
run_server_hides g k ks cma_id route (e ∷ es) s = (refl, refl)

-- What a message arrives in, and the end of the read.
abbrev pub arrival : NmsgData → Completion
arrival message = record {
  status = Status.success;
  opcode = Opcode.recv;
  byte_len = sizeof_nmsg_data;
  received = message;
  read = λ i. 0;
  post_recv = 0;
}

abbrev pub read_end : NmsgData → (ℕ → ℕ) → Completion
read_end message bytes = record {
  status = Status.success;
  opcode = Opcode.rdma_read;
  byte_len = 0;
  received = message;
  read = bytes;
  post_recv = 0;
}

-- A message and the end of the read take a connected server through a round, with the bytes in its
-- buffer.
pub run_server_served :
    (g : ℕ) (message : NmsgData) (bytes : ℕ → ℕ) (es : List Event) (s : Server)
    → let (s', es', ret) =
        run_server
          (posted g)
          (cq (arrival message ∷ []) 0 ∷ cq (read_end message bytes ∷ []) 0 ∷ es)
          (goto connected s) in
      (ret ≡ g)
      × (es' ≡ es)
      × (s'.state ≡ connected)
      × (s'.remote_addr ≡ swap64 message.buf)
      × (s'.remote_rkey ≡ swap32 message.rkey)
      × (s'.remote_len ≡ swap32 message.size)
      × (s'.recv_msgs ≡ s.recv_msgs + 1)
      × (s'.rdma_buf ≡ (λ i. if ltb i (swap32 message.size) then bytes i else s.rdma_buf i))
unfolding run_server rdma_rkey await_read wait_event handle cq_event_handler cq_loop complete
    server_recv
run_server_served g message bytes [] s = (refl, refl, refl, refl, refl, refl, refl, refl)
run_server_served g message bytes (e ∷ es) s = (refl, refl, refl, refl, refl, refl, refl, refl)
