-- ===== src/Rdma/Server/Events.antt =====
-- The completion handler of mm/nmsg_rdma_server.c: when it shuts the connection down, and what it
-- counts.
use rshm_hmm.Base.{
  ℕ, ◌+◌, ◌≡◌, refl, ◌∙◌, ◌*◌, inl, inr, Bool, true, false, not, ◌&&◌, List, [], ◌∷◌, arith, ◌==◌,
  Bool-cases, if◌then◌else◌,
}
use rshm_hmm.Rdma.{Completion, Opcode, Status, NmsgState, sizeof_nmsg_data, Status-cases}
use rshm_hmm.Rdma.Server.{Server, complete, cq_loop, cq_event_handler, is_error, advanced}

-- A successful completion that the handler has a use for.
unfoldable pub acceptable : Opcode → Completion → Bool
acceptable Opcode.send wc = true
acceptable Opcode.rdma_read wc = true
acceptable Opcode.recv wc = wc.byte_len == sizeof_nmsg_data && wc.post_recv == 0
acceptable Opcode.unexpected wc = false

unfoldable pub clean : List Completion → Bool
clean [] = true
clean (wc ∷ rest) = elim wc.status [
  | Status.flush_err ↦ clean rest
  | Status.failure ↦ false
  | Status.success ↦ acceptable wc.opcode wc && clean rest
]

is_error-advanced : (st : NmsgState) → is_error (advanced st) ≡ false
is_error-advanced st = ground arith

-- Going on is being acceptable, and no step that goes on is an error.
complete-acceptable :
    (op : Opcode) (wc : Completion) (s : Server)
    → is_error s.state ≡ false
    → ((complete op wc s).1 ≡ acceptable op wc)
      × (is_error (complete op wc s).0.state ≡ not (acceptable op wc))
unfolding complete acceptable
complete-acceptable Opcode.send wc s h = (refl, h)
complete-acceptable Opcode.rdma_read wc s h = (refl, refl)
complete-acceptable Opcode.recv wc s h = elim (Bool-cases (wc.byte_len == sizeof_nmsg_data)) [
  | inr bogus ↦ rw bogus (refl, refl)
  | inl fits ↦ rw fits (elim (Bool-cases (wc.post_recv == 0)) [
    | inl posted ↦ rw posted (refl, is_error-advanced s.state)
    | inr failed ↦ rw failed (refl, refl)
  ])
]
complete-acceptable Opcode.unexpected wc s h = (refl, refl)

cq_loop-clean :
    (wcs : List Completion) (last : ℕ) (s : Server)
    → is_error s.state ≡ false
    → is_error (cq_loop wcs last s).state ≡ not (clean wcs && last == 0)
unfolding cq_loop clean
cq_loop-clean [] last s h = ground arith
cq_loop-clean (wc ∷ rest) last s h = elim (Status-cases wc.status) [
  | inr (inl flushed) ↦ simp flushed (cq_loop-clean rest last s h)
  | inr (inr failed) ↦ simp failed refl
  | inl fine ↦ simp fine (elim (Bool-cases (acceptable wc.opcode wc)) [
    | inl good ↦
        let (on, ok) = complete-acceptable wc.opcode wc s h in
        rw (on, good) (cq_loop-clean rest last (complete wc.opcode wc s).0 (rw good at ok))
    | inr bad ↦ let (on, ok) = complete-acceptable wc.opcode wc s h in rw (on, bad) (rw bad at ok)
  ])
]

-- The completion handler of the server, from a state other than ERROR, leaves the state ERROR
-- exactly if a completion is not a flushed one and failed, or succeeded with a code that it does not
-- know, a message of the wrong size or a receive that could not be posted again, or if the queue
-- could not be polled. In the state ERROR it changes nothing.
pub cq_event_handler-clean :
    (wcs : List Completion) (last : ℕ) (s : Server)
    → if is_error s.state
      then (cq_event_handler wcs last s ≡ s)
      else (is_error (cq_event_handler wcs last s).state ≡ not (clean wcs && last == 0))
unfolding cq_event_handler
cq_event_handler-clean wcs last s = elim (Bool-cases (is_error s.state)) [
  | inl down ↦ rw down refl
  | inr up ↦ rw up (cq_loop-clean wcs last s up)
]

-- How many completions of a kind the list has.
pub is_send : Opcode → ℕ
is_send Opcode.send = 1
is_send _ = 0

pub is_read : Opcode → ℕ
is_read Opcode.rdma_read = 1
is_read _ = 0

pub count_done : (Opcode → ℕ) → List Completion → ℕ
count_done kind [] = 0
count_done kind (wc ∷ rest) = elim wc.status [
  | Status.success ↦ kind wc.opcode + count_done kind rest
  | _ ↦ count_done kind rest
]

complete_counts :
    (op : Opcode) (wc : Completion) (s : Server)
    → let s' = (complete op wc s).0 in
      (s'.send_msgs ≡ s.send_msgs + is_send op)
      × (s'.recv_msgs ≡ s.recv_msgs + is_read op)
      × (s'.recv_bytes ≡ s.recv_bytes + sizeof_nmsg_data * is_read op)
      × (s'.send_length ≡ s.send_length)
      × (s'.send_bytes ≡ s.send_bytes + s.send_length * is_send op)
unfolding complete is_send is_read
complete_counts Opcode.send wc s = omega arith
complete_counts Opcode.rdma_read wc s = omega arith
complete_counts Opcode.recv wc s = ground arith
complete_counts Opcode.unexpected wc s = omega arith

-- Where all completions are as they should be, each successful one of a kind is counted: a send with
-- the length of the send buffer, and an RDMA read as one message of the size of struct nmsg_data,
-- which is not the number of bytes that it read.
pub cq_loop-counts :
    (wcs : List Completion) (last : ℕ) (s : Server)
    → is_error s.state ≡ false
    → clean wcs ≡ true
    → let s' = cq_loop wcs last s in
      (s'.send_msgs ≡ s.send_msgs + count_done is_send wcs)
      × (s'.recv_msgs ≡ s.recv_msgs + count_done is_read wcs)
      × (s'.recv_bytes ≡ s.recv_bytes + sizeof_nmsg_data * count_done is_read wcs)
      × (s'.send_length ≡ s.send_length)
      × (s'.send_bytes ≡ s.send_bytes + s.send_length * count_done is_send wcs)
unfolding cq_loop clean count_done
cq_loop-counts [] last s up c = elim (Bool-cases (last == 0)) [
  | inl z ↦ rw z (omega arith)
  | inr nz ↦ rw nz (omega arith)
]
cq_loop-counts (wc ∷ rest) last s up c = elim (Status-cases wc.status) [
  | inr (inl flushed) ↦ simp flushed (cq_loop-counts rest last s up (simp flushed at c))
  | inr (inr failed) ↦ cc (simp failed at c)
  | inl fine ↦
      let c' : (acceptable wc.opcode wc && clean rest) ≡ true = simp fine at c in
      let good : acceptable wc.opcode wc ≡ true = ground (arith, c') in
      let (on, ok) = complete-acceptable wc.opcode wc s up in
      let one = complete_counts wc.opcode wc s in
      let more =
        cq_loop-counts rest last (complete wc.opcode wc s).0 (rw good at ok) (ground (arith, c')) in
      simp (fine, on, good)
        (
          omega (arith, one, more),
          omega (arith, one, more),
          omega (arith, one, more),
          more.3 ∙ one.3,
          more.4 ∙ grind (arith, one),
        )
]
