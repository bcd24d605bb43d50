-- ===== src/Rdma/Session/Message.antt =====
-- mm/nmsg_rdma_client.c: what nmsg_send_message puts before the server, on every branch, and what
-- the server of mm/nmsg_rdma_server.c finds there.
use rshm_hmm.Base.{
  ℕ, zero, suc, ◌+◌, ◌^◌, ◌<◌, ◌≡◌, refl, inl, inr, List, [], ◌∷◌, ◌++◌, Bool-cases, ltb, ◌==◌,
  length, get_or, if◌then◌else◌, arith, ap, ◌∙◌, ltb→lt,
}
use rshm_hmm.Rdma.{connected, rdma_read_adv, error, swap32, swap64, Event, cq}
use rshm_hmm.Rdma.Server.{Server, goto, run_server}
use rshm_hmm.Rdma.Server.Run.{posted, arrival, read_end}
use rshm_hmm.Rdma.Client.{Client, start_client, make_message}
use rshm_hmm.Rdma.Session.{Session, copy_string, start, send_message}
use rshm_hmm.Rdma.Handshake.{run_server-start_client}

-- Byte i of what stands at a copy of the text: the text, its 0, and what was behind it.
abbrev pub string_byte : List ℕ → (ℕ → ℕ) → ℕ → ℕ
string_byte text behind i =
    if ltb i (length text) then get_or text i 0 else if i == length text then 0 else behind i

get_or-copy : (text : List ℕ) (i d : ℕ) → get_or (text ++ 0 ∷ []) i d ≡ string_byte text (λ _. d) i
get_or-copy [] zero d = refl
get_or-copy [] (suc i) d = ground arith
get_or-copy (x ∷ text) zero d = ground arith
get_or-copy (x ∷ text) (suc i) d = ground (arith, get_or-copy text i d)

module _ (message : List ℕ) (behind : ℕ → ℕ) (rkey : ℕ) (s : Session) where
  -- nmsg_send_message: the buffer begins with the text and its 0, and goes on up to message_size with
  -- whatever stands behind the copy; the rest of it stays. The message for the server has the address,
  -- the key and the size in network order. Where the registration is posted the result is that of the
  -- post of the message, in state RDMA_READ_ADV; else it is -1, in state ERROR. The copy is not freed.
  pub send_message-Sent :
      (register post : ℕ)
      → let (s', ret) = send_message message behind rkey register post s in
        (s'.strings ≡ copy_string message ∷ s.strings)
        × ((i : ℕ)
            → s'.client.start_buf i ≡ (
                if ltb i s.client.message_size
                then string_byte message behind i
                else s.client.start_buf i))
        × (s'.client.send_buf ≡ record {
          buf = swap64 s.client.start_dma_addr;
          rkey = swap32 rkey;
          size = swap32 s.client.message_size;
        })
        × (if register == 0
            then (ret ≡ post) × (s'.client.state ≡ rdma_read_adv)
            else (ret ≡ 1) × (s'.client.state ≡ error))
  unfolding send_message start start_client make_message
  send_message-Sent register post = elim (Bool-cases (register == 0)) [
    | inl fine ↦ rw fine (refl, copied, refl, (refl, refl))
    | inr failed ↦ rw failed (refl, copied, refl, (refl, refl))
  ]
    where
      copied :
          (i : ℕ)
          → (if ltb i s.client.message_size
              then get_or (message ++ 0 ∷ []) i (behind i)
              else s.client.start_buf i)
            ≡ (if ltb i s.client.message_size
                then string_byte message behind i
                else s.client.start_buf i)
      copied i = rw (get_or-copy message i (behind i))

  -- The text comes to the server. Where the address, the key and the size of the client's buffer are below
  -- 2^64, 2^32 and 2^32, the posts succeed, and the read brings the bytes of the client's buffer, a
  -- CONNECTED server, behind the arrival of the client's message and the end of its read,
  -- returns what the post of its go-ahead answers. It then has the address, the key and the size of the
  -- client's buffer, and in its own, up to that size, the text with its 0, and what stood behind the
  -- client's copy of it; the rest of its buffer is as it was.
  pub run_server-send_message :
      (g : ℕ) (bytes : ℕ → ℕ) (es : List Event) (server : Server)
      → s.client.start_dma_addr < 2 ^ 64
      → rkey < 2 ^ 32
      → s.client.message_size < 2 ^ 32
      → let (s', sent) = send_message message behind rkey 0 0 s in
        ((i : ℕ) → i < s.client.message_size → bytes i ≡ s'.client.start_buf i)
        → let info = s'.client.send_buf in
          let (v, es', ret) =
            run_server
              (posted g)
              (cq (arrival info ∷ []) 0 ∷ cq (read_end info bytes ∷ []) 0 ∷ es)
              (goto connected server) in
          (sent ≡ 0)
          × (ret ≡ g)
          × (es' ≡ es)
          × (v.state ≡ connected)
          × (v.remote_addr ≡ s'.client.start_dma_addr)
          × (v.remote_rkey ≡ rkey)
          × (v.remote_len ≡ s.client.message_size)
          × (v.recv_msgs ≡ server.recv_msgs + 1)
          × ((i : ℕ)
              → v.rdma_buf i ≡ (
                  if ltb i s.client.message_size
                  then string_byte message behind i
                  else server.rdma_buf i))
  unfolding send_message start start_client make_message
  run_server-send_message g bytes es server addr key size brings =
      let c : Client = record s.client { message = λ i. get_or (message ++ 0 ∷ []) i (behind i) } in
      let r = run_server-start_client g rkey bytes es c server addr key size in
      (
        r.0,
        r.1,
        r.2,
        r.3,
        r.4,
        r.5,
        r.6,
        r.7,
        λ i. ap (λ (f : ℕ → ℕ). f i) r.8 ∙ elim (Bool-cases (ltb i s.client.message_size)) [
          | inl inside ↦ rw inside (
              brings i (ltb→lt i s.client.message_size inside)
              ∙ (send_message-Sent 0 0).1 i
              ∙ rw inside refl)
          | inr outside ↦ rw outside refl
        ],
      )
