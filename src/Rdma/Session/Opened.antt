-- ===== src/Rdma/Session/Opened.antt =====
-- mm/nmsg_rdma_client.c: what a client has taken behind nmsg_init_client, and that
-- nmsg_destroy_client gives it back.
use rshm_hmm.Base.{
  ℕ, ◌+◌, ◌≡◌, refl, ◌⊎◌, inl, inr, Bool, true, false, ◌&&◌, List, ◌∷◌, ◌==◌, Bool-cases,
  if◌then◌else◌, arith, [], length-append,
}
use rshm_hmm.Rdma.{Event}
use rshm_hmm.Rdma.Client.{Client, Verbs, run_client}
use rshm_hmm.Rdma.Client.Resources.{
  Holds, run_client-Holds, run_client_buffer, free_qp-free_buffers-Holds,
}
use rshm_hmm.Rdma.Session.{
  Session, copy_string, fits, fill_sockaddr, af_inet, swap16, prepare, pre_start, init_client, free,
  destroy_client,
}

-- So many structures and identifiers were taken and not given back.
abbrev pub Open : Session → Session → ℕ → Type 0
Open s s' n =
    (s'.handlers + s.handlers_freed ≡ s.handlers + s'.handlers_freed + n)
    × (s'.ids + s.ids_destroyed ≡ s.ids + s'.ids_destroyed + n)

-- What a client holds behind nmsg_run_client.
abbrev pub Ran : Client → Client → ℕ → Type 0
Ran c c' ret =
    if ret == 0 then Holds c c' 1 1 2 × (c'.buffer ≡ true) else Holds c c' 0 0 0 ⊎ Holds c c' 0 0 2

widen : (b : Bool) (A B : Type 0) → if b then A else A ⊎ B → A ⊎ B
widen true A B a = inl a
widen false A B a = a

run_client-Ran :
    (k : Verbs) (es : List Event) (c : Client)
    → c.buffer ≡ false
    → let (c', es', ret) = run_client k es c in Ran c c' ret
run_client-Ran k es c null = elim (Bool-cases ((run_client k es c).2 == 0)) [
  | inl z ↦ rw z (rw z at (run_client-Holds k es c null), run_client_buffer k es c z)
  | inr nz ↦
      rw nz (widen (k.alloc_mr == 0 && k.dma_alloc) _ _ (rw nz at (run_client-Holds k es c null)))
]

module _ (text : List ℕ) (port addr create_id : ℕ) (k : Verbs) (es : List Event)
    (fresh : Session) where
  -- nmsg_init_client of a handler whose start_buf is NULL copies the address, with its 0, to a block of
  -- one byte less, and nothing gives that block back; the address for rdma_resolve_addr is the one given,
  -- with the port in network order. Where rdma_create_id fails it returns the error
  -- and has given all else back. Otherwise it has taken a structure and an identifier, and keeps them
  -- on errors too; where it returns 0 it holds the queues, buffers and mappings of one connection, and
  -- else none of these but perhaps two mappings.
  pub init_client-Open :
      fresh.client.buffer ≡ false
      → let (s', es', ret) = init_client text port addr create_id k es fresh in
        (s'.strings ≡ copy_string text ∷ fresh.strings)
        × (fits (copy_string text) ≡ false)
        × (fill_sockaddr s' ≡ record { family = af_inet; addr = addr; port = swap16 port })
        × (if create_id == 0
            then Open fresh s' 1 × Ran fresh.client s'.client ret
            else Open fresh s' 0 × Holds fresh.client s'.client 0 0 0 × (ret ≡ create_id))
  unfolding init_client pre_start fill_sockaddr
  init_client-Open null =
      let c = (prepare port text addr fresh).client in
      let too_long : fits (copy_string text) ≡ false =
        ground (arith, length-append text (0 ∷ [])) in
      elim (Bool-cases (create_id == 0)) [
        | inl has_id ↦
            rw has_id
              (refl, too_long, refl, ((omega arith, omega arith), run_client-Ran k es c null))
        | inr no_id ↦
            rw no_id (refl, too_long, refl, ((omega arith, omega arith), omega arith, refl))
      ]

  -- A client that nmsg_init_client opened with 0 and nmsg_destroy_client closes holds what it held
  -- before, but the copy of the address.
  pub init_client-destroy_client :
      fresh.client.buffer ≡ false
      → (init_client text port addr create_id k es fresh).2 ≡ 0
      → let closed = destroy_client (init_client text port addr create_id k es fresh).0 in
        Open fresh closed 0
        × Holds fresh.client closed.client 0 0 0
        × (closed.strings ≡ copy_string text ∷ fresh.strings)
  unfolding destroy_client free
  init_client-destroy_client null done =
      let opened = init_client-Open null in
      elim (Bool-cases (create_id == 0)) [
        | inl has_id ↦
            let (strings, too_long, target, (counts, ran)) = rw has_id at opened in
            let (held, buffer) = rw done at ran in
            (
              (omega (arith, counts), omega (arith, counts)),
              free_qp-free_buffers-Holds fresh.client _ held buffer,
              strings,
            )
        | inr no_id ↦
            let (strings, too_long, target, (counts, held, same)) = rw no_id at opened in
            absurd (ground (arith, done, same, no_id))
      ]
