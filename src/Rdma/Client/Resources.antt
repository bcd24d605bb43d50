-- ===== src/Rdma/Client/Resources.antt =====
-- nmsg_run_client of mm/nmsg_rdma_client.c: what it holds of the kernel when it ends.
use rshm_hmm.Base.{
  ℕ, ◌+◌, ◌≡◌, refl, ◌∙◌, ap, ◌⊎◌, inl, inr, Bool, true, false, ◌&&◌, List, [], ◌∷◌, arith, leb,
  ◌==◌, Bool-cases, if◌then◌else◌,
}
use rshm_hmm.Rdma.{
  NmsgState, connected, value, CmEvent, Opcode, Completion, Event, cm, cq, wait_event, Status-cases,
}
use rshm_hmm.Rdma.Client.{
  Client, Verbs, cma_event_handler, complete, client_recv, cq_loop, cq_event_handler, handle,
  bind_client, connect_client, setup_qp, setup_buffers, free_buffers, free_qp, finish_client,
  run_client, is_error, wait, is_route_resolved,
}

-- What a client holds of the kernel, with the pointer to the coherent buffer.
pub record Holdings : Type 0 where
  pub pds : ℕ
  pub cqs : ℕ
  pub qps : ℕ
  pub mrs : ℕ
  pub maps : ℕ
  pub allocs : ℕ
  pub frees : ℕ
  pub buffer : Bool

abbrev pub holdings : Client → Holdings
holdings s = record {
  pds = s.pds;
  cqs = s.cqs;
  qps = s.qps;
  mrs = s.mrs;
  maps = s.maps;
  allocs = s.allocs;
  frees = s.frees;
  buffer = s.buffer;
}

cma_event_handler_keeps :
    (e : CmEvent) (route : ℕ) (s : Client) → holdings (cma_event_handler e route s) ≡ holdings s
unfolding cma_event_handler
cma_event_handler_keeps CmEvent.addr_resolved route s = elim (Bool-cases (route == 0)) [
  | inl z ↦ rw z refl
  | inr nz ↦ rw nz refl
]
cma_event_handler_keeps CmEvent.route_resolved route s = refl
cma_event_handler_keeps CmEvent.connect_request route s = refl
cma_event_handler_keeps CmEvent.established route s = refl
cma_event_handler_keeps CmEvent.addr_error route s = refl
cma_event_handler_keeps CmEvent.route_error route s = refl
cma_event_handler_keeps CmEvent.connect_error route s = refl
cma_event_handler_keeps CmEvent.unreachable route s = refl
cma_event_handler_keeps CmEvent.rejected route s = refl
cma_event_handler_keeps CmEvent.disconnected route s = refl
cma_event_handler_keeps CmEvent.device_removal route s = refl
cma_event_handler_keeps CmEvent.other route s = refl

complete_keeps :
    (op : Opcode) (wc : Completion) (s : Client) → holdings (complete op wc s).0 ≡ holdings s
unfolding complete client_recv
complete_keeps Opcode.send wc s = refl
complete_keeps Opcode.rdma_read wc s = refl
complete_keeps Opcode.recv wc s = elim (Bool-cases (wc.byte_len == 56)) [
  | inr bogus ↦ rw bogus refl
  | inl fits ↦ rw fits (elim (Bool-cases (wc.post_recv == 0)) [
    | inl posted ↦ rw posted refl
    | inr failed ↦ rw failed refl
  ])
]
complete_keeps Opcode.unexpected wc s = refl

cq_loop_keeps :
    (wcs : List Completion) (last : ℕ) (s : Client) → holdings (cq_loop wcs last s) ≡ holdings s
unfolding cq_loop
cq_loop_keeps [] last s = elim (Bool-cases (last == 0)) [ inl z ↦ rw z refl | inr nz ↦ rw nz refl ]
cq_loop_keeps (wc ∷ rest) last s = elim (Status-cases wc.status) [
  | inr (inl flushed) ↦ simp flushed (cq_loop_keeps rest last s)
  | inr (inr failed) ↦ simp failed refl
  | inl fine ↦ simp fine (elim (Bool-cases (complete wc.opcode wc s).1) [
    | inl on ↦
        rw on (cq_loop_keeps rest last (complete wc.opcode wc s).0 ∙ complete_keeps wc.opcode wc s)
    | inr off ↦ rw off (complete_keeps wc.opcode wc s)
  ])
]

handle_keeps : (e : Event) (s : Client) → holdings (handle e s) ≡ holdings s
unfolding handle cq_event_handler
handle_keeps (cm e cma_id route) s = cma_event_handler_keeps e route s
handle_keeps (cq wcs last) s = elim (Bool-cases (is_error s.state)) [
  | inl down ↦ rw down refl
  | inr up ↦ rw up (cq_loop_keeps wcs last s)
]

wait_keeps :
    (st : NmsgState) (es : List Event) (s : Client) → holdings (wait st es s).0 ≡ holdings s
unfolding wait_event
wait_keeps st [] s = refl
wait_keeps st (e ∷ es) s = elim (Bool-cases (leb (value st) (value s.state))) [
  | inl reached ↦ rw reached refl
  | inr not_yet ↦ rw not_yet (wait_keeps st es (handle e s) ∙ handle_keeps e s)
]

bind_client_keeps :
    (k : Verbs) (es : List Event) (s : Client) → holdings (bind_client k es s).0 ≡ holdings s
unfolding bind_client
bind_client_keeps k es s = elim (Bool-cases (k.resolve == 0)) [
  | inr failed ↦ rw failed refl
  | inl asked ↦
      rw asked (elim (Bool-cases (is_route_resolved (wait NmsgState.route_resolved es s).0.state)) [
        | inl found ↦ rw found (wait_keeps NmsgState.route_resolved es s)
        | inr lost ↦ rw lost (wait_keeps NmsgState.route_resolved es s)
      ])
]

connect_client_keeps :
    (k : Verbs) (es : List Event) (s : Client) → holdings (connect_client k es s).0 ≡ holdings s
unfolding connect_client
connect_client_keeps k es s = elim (Bool-cases (k.connect == 0)) [
  | inr failed ↦ rw failed refl
  | inl asked ↦ rw asked (wait_keeps connected es s)
]

-- A client holds so many connections' queues, sets of buffers and pairs of mappings more.
abbrev pub Holds : Client → Client → ℕ → ℕ → ℕ → Type 0
Holds s s' queues buffers mappings =
    (s'.pds ≡ s.pds + queues)
    × (s'.cqs ≡ s.cqs + queues)
    × (s'.qps ≡ s.qps + queues)
    × (s'.mrs ≡ s.mrs + buffers)
    × (s'.maps ≡ s.maps + mappings)
    × (s'.allocs + s.frees ≡ s.allocs + s'.frees + buffers)

setup_qp-Holds :
    (k : Verbs) (s : Client)
    → let (s', ret) = setup_qp k s in
      (s'.buffer ≡ s.buffer) × (if ret == 0 then Holds s s' 1 0 0 else Holds s s' 0 0 0)
unfolding setup_qp
setup_qp-Holds k s = ground arith

setup_buffers-Holds :
    (k : Verbs) (s : Client)
    → s.buffer ≡ false
    → let (s', ret) = setup_buffers k s in
      if ret == 0
      then (s'.buffer ≡ true) × Holds s s' 0 1 2
      else (s'.buffer ≡ false) × Holds s s' 0 0 2
unfolding setup_buffers
setup_buffers-Holds k s null = ground arith

Holds-projections :
    (s t : Client) → holdings t ≡ holdings s → (t.buffer ≡ s.buffer) × Holds s t 0 0 0
Holds-projections s t e = (
  ap (λ (h : Holdings). h.buffer) e,
  (
    omega (arith, ap (λ (h : Holdings). h.pds) e),
    omega (arith, ap (λ (h : Holdings). h.cqs) e),
    omega (arith, ap (λ (h : Holdings). h.qps) e),
    omega (arith, ap (λ (h : Holdings). h.mrs) e),
    omega (arith, ap (λ (h : Holdings). h.maps) e),
    omega (arith, ap (λ (h : Holdings). h.allocs) e, ap (λ (h : Holdings). h.frees) e),
  ),
)

finish_client-Holds :
    (k : Verbs) (es : List Event) (s t : Client)
    → t.buffer ≡ true
    → Holds s t 1 1 2
    → let (s', es', ret) = finish_client k es t in
      if ret == 0 then Holds s s' 1 1 2 else Holds s s' 0 0 0
unfolding finish_client free_buffers free_qp
finish_client-Holds k es s t held own =
    let posted : Client = record t { recv_posts = t.recv_posts + 1 } in
    let (same_buffer, kept) =
      Holds-projections posted (connect_client k es posted).0 (connect_client_keeps k es posted) in
    ground (arith, same_buffer, kept, own, held)

Holds-add :
    (s t u : Client) (q b m q' b' m' : ℕ)
    → Holds s t q b m
    → Holds t u q' b' m'
    → Holds s u (q + q') (b + b') (m + m')
Holds-add s t u q b m q' b' m' x y = (
  omega (arith, x, y),
  omega (arith, x, y),
  omega (arith, x, y),
  omega (arith, x, y),
  omega (arith, x, y),
  omega (arith, x, y),
)

free_qp-Holds : (s u : Client) (m : ℕ) → Holds s u 1 0 m → Holds s (free_qp u) 0 0 m
unfolding free_qp
free_qp-Holds s u m x = (
  omega (arith, x),
  omega (arith, x),
  omega (arith, x),
  omega (arith, x),
  omega (arith, x),
  omega (arith, x),
)

setup_buffers_fails :
    (k : Verbs) (s : Client)
    → ((setup_buffers k s).1 == 0) ≡ false
    → (k.alloc_mr == 0 && k.dma_alloc) ≡ false
unfolding setup_buffers
setup_buffers_fails k s e = ground (arith, e)

either : (A B : Type 0) (x : Bool) → A → if x then A else A ⊎ B
either A B true a = a
either A B false a = inl a

-- nmsg_run_client of a client whose start_buf is NULL: where it returns 0 the client holds a
-- protection domain, a completion queue, a queue pair, a memory region, a coherent buffer and two
-- mappings more. Where it fails it holds none of these more, but if the memory region or the coherent
-- buffer was refused the two mappings may be left.
pub run_client-Holds :
    (k : Verbs) (es : List Event) (s : Client)
    → s.buffer ≡ false
    → let (s', es', ret) = run_client k es s in
      if ret == 0
      then Holds s s' 1 1 2
      else if k.alloc_mr == 0 && k.dma_alloc
      then Holds s s' 0 0 0
      else Holds s s' 0 0 0
      ⊎ Holds s s' 0 0 2
unfolding run_client
run_client-Holds k es s null =
    let b : Client = (bind_client k es s).0 in
    let t : Client = (setup_qp k b).0 in
    let u : Client = (setup_buffers k t).0 in
    let (same_buffer, kept) = Holds-projections s b (bind_client_keeps k es s) in
    let (t_buffer, queues) = setup_qp-Holds k b in
    let buffers = setup_buffers-Holds k t (t_buffer ∙ same_buffer ∙ null) in
    elim (Bool-cases ((bind_client k es s).2 == 0)) [
      | inr unbound ↦ rw (unbound, unbound) (either _ _ (k.alloc_mr == 0 && k.dma_alloc) kept)
      | inl bound ↦ rw bound (elim (Bool-cases ((setup_qp k b).1 == 0)) [
        | inr no_qp ↦
            rw (no_qp, no_qp)
              (either _ _ (k.alloc_mr == 0 && k.dma_alloc)
                (Holds-add s b t 0 0 0 0 0 0 kept (rw no_qp at queues)))
        | inl has_qp ↦ rw has_qp (elim (Bool-cases ((setup_buffers k t).1 == 0)) [
          | inr no_buffers ↦
              rw (no_buffers, no_buffers, setup_buffers_fails k t no_buffers)
                (inr (
                  free_qp-Holds s u 2 (
                    Holds-add s t u 1 0 0 0 0 2
                      (Holds-add s b t 0 0 0 1 0 0 kept (rw has_qp at queues))
                      (rw no_buffers at buffers).1)))
          | inl ready ↦ rw ready (
              last t u (Holds-add s b t 0 0 0 1 0 0 kept (rw has_qp at queues))
                (rw ready at buffers))
        ])
      ])
    ]
  where
    last :
        (t u : Client)
        → Holds s t 1 0 0
        → (u.buffer ≡ true) × Holds t u 0 1 2
        → let (s', es', ret) = finish_client k (bind_client k es s).1 u in
          if ret == 0
          then Holds s s' 1 1 2
          else if k.alloc_mr == 0 && k.dma_alloc
          then Holds s s' 0 0 0
          else Holds s s' 0 0 0
          ⊎ Holds s s' 0 0 2
    last t u first (held, own) =
        let ended =
          finish_client-Holds k (bind_client k es s).1 s u held
            (Holds-add s t u 1 0 0 0 1 2 first own) in
        elim (Bool-cases ((finish_client k (bind_client k es s).1 u).2 == 0)) [
          | inl done ↦ rw done (rw done at ended)
          | inr failed ↦
              rw failed (either _ _ (k.alloc_mr == 0 && k.dma_alloc) (rw failed at ended))
        ]

finish_client_buffer :
    (k : Verbs) (es : List Event) (t : Client)
    → t.buffer ≡ true
    → ((finish_client k es t).2 == 0) ≡ true
    → (finish_client k es t).0.buffer ≡ true
unfolding finish_client
finish_client_buffer k es t held done =
    let posted : Client = record t { recv_posts = t.recv_posts + 1 } in
    let (same_buffer, kept) =
      Holds-projections posted (connect_client k es posted).0 (connect_client_keeps k es posted) in
    ground (arith, same_buffer, held, done)

setup_buffers_buffer :
    (k : Verbs) (s : Client)
    → ((setup_buffers k s).1 == 0) ≡ true
    → (setup_buffers k s).0.buffer ≡ true
unfolding setup_buffers
setup_buffers_buffer k s done = ground (arith, done)

-- A client that is connected has a coherent buffer.
pub run_client_buffer :
    (k : Verbs) (es : List Event) (s : Client)
    → ((run_client k es s).2 == 0) ≡ true
    → (run_client k es s).0.buffer ≡ true
unfolding run_client
run_client_buffer k es s done =
    let b : Client = (bind_client k es s).0 in
    let t : Client = (setup_qp k b).0 in
    let u : Client = (setup_buffers k t).0 in
    elim (Bool-cases ((bind_client k es s).2 == 0)) [
      | inr unbound ↦ cc (done, unbound)
      | inl bound ↦ elim (Bool-cases ((setup_qp k b).1 == 0)) [
        | inr no_qp ↦ cc (bound, done, no_qp)
        | inl has_qp ↦ elim (Bool-cases ((setup_buffers k t).1 == 0)) [
          | inr no_buffers ↦ cc (rw (bound, has_qp, no_buffers) at done, no_buffers)
          | inl ready ↦
              rw (bound, has_qp, ready)
                (finish_client_buffer k (bind_client k es s).1 u (setup_buffers_buffer k t ready)
                  (rw (bound, has_qp, ready) at done))
        ]
      ]
    ]

-- What a connected client holds is given back.
pub free_qp-free_buffers-Holds :
    (s t : Client) → Holds s t 1 1 2 → t.buffer ≡ true → Holds s (free_qp (free_buffers t)) 0 0 0
unfolding free_qp free_buffers
free_qp-free_buffers-Holds s t own held = ground (arith, own, held)
