-- ===== src/Sockets/Client/Page.antt =====
-- retrieve_page of mm/migrate_device.c: it gives its socket back and never returns a page.
use rshm_hmm.Base.{
  ℕ, ◌+◌, ◌≤◌, ◌<◌, ◌≡◌, refl, ◌⊎◌, inl, inr, Option, Bool, true, false, ◌&&◌, some, ◌∷◌, ◌==◌,
  Bool-cases, length, if◌then◌else◌, arith,
}
use rshm_hmm.Kernel.{Memory}
use rshm_hmm.Sockets.{request, Pages, retrieve_pages}
use rshm_hmm.Sockets.Retrieve.{AreDistinct, Synced, retrieve_pages-Synced}
use rshm_hmm.Sockets.Client.{
  Client, Answers, send_message, retrieve, destroy_client, init_client, fetch, retrieve_page,
}

-- The sockets that were made and not given back are as many as before.
abbrev pub Closed : Client → Client → Type 0
Closed c c' = c'.socks + c.socks_given ≡ c.socks + c'.socks_given

-- How a call ends that leaves sockets as they were given, where `good` is that both requests go out.
abbrev pub Fetched :
    Answers
    → ℕ
    → Client
    → Client
    → Bool
    → Pages
    → Memory
    → Option (Client × Pages × Memory × ℕ)
    → Type 0
Fetched k page_number c base good m mem o =
    (c' : Client) × (m' : Pages) × (mem' : Memory) × (o ≡ some (c', m', mem', 1))
    × Closed c c'
    × (if good
        then (c'.sent ≡ request ∷ request ∷ base.sent)
          × ((r : ℕ) × Synced k.deliveries page_number 0 m mem m' mem' r)
        else (m' ≡ m) × (mem' ≡ mem))

module _ (k : Answers) (page_number : ℕ) (c : Client) (m : Pages) (mem : Memory) where
  retrieve_lem :
      (taken : Bool) (ret : ℕ) (m' : Pages) (mem' : Memory)
      → retrieve_pages taken k.deliveries page_number m mem ≡ some (m', mem', ret)
      → retrieve taken k.deliveries page_number c m mem
        ≡ some ((send_message taken request c).0, m', mem', ret)
  unfolding retrieve
  retrieve_lem taken ret m' mem' e = rw (e, retrieve)

  as_pointer :
      (ret : ℕ) (d : Client) (m' : Pages) (mem' : Memory)
      → (ret ≡ 0) ⊎ (ret ≡ 1)
      → if◌then◌else◌ {A = Option (Client × Pages × Memory × ℕ)}
          (ret == 0)
          (some (d, m', mem', 1))
          (some (d, m', mem', ret))
        ≡ some (d, m', mem', 1)
  as_pointer ret d m' mem' (inl z) = rw z
  as_pointer ret d m' mem' (inr o) = rw o

result :
    {n k ret : ℕ} {F : Type 0}
    → ((ret ≡ 0) × (k ≡ n)) ⊎ ((ret ≡ 1) × (k < n) × F)
    → (ret ≡ 0) ⊎ (ret ≡ 1)
result (inl h) = inl h.0
result (inr h) = inr h.0

module _ (k : Answers) (page_number : ℕ) (c : Client) (m : Pages) (mem : Memory)
    (distinct : AreDistinct k.deliveries) (room : page_number ≤ length m.pages) where
  fetch-Fetched :
      (fetched : Client)
      → (fetched.socks ≡ c.socks + 1) × (fetched.socks_given ≡ c.socks_given)
      → Fetched k page_number c fetched
          (k.first && k.second)
          m
          mem
          (fetch k page_number fetched m mem)
  unfolding fetch send_message destroy_client
  fetch-Fetched d made = elim (Bool-cases k.first) [
    | inr lost ↦ simp lost (destroy_client d, m, mem, refl, omega (arith, made), (refl, refl))
    | inl asked ↦ elim (Bool-cases k.second) [
      | inr lost ↦
          let e =
            rw lost at
              (retrieve_pages-Synced k.deliveries k.second page_number m mem distinct room) in
          let got =
            retrieve_lem k page_number (record d { sent = request ∷ d.sent }) m mem false 1 m mem
              e in
          simp (asked, lost, got)
            (
              destroy_client (record d { sent = request ∷ d.sent }),
              m,
              mem,
              refl,
              omega (arith, made),
              (refl, refl),
            )
      | inl again ↦
          let (m', mem', ret, e, synced) =
            rw again at
              (retrieve_pages-Synced k.deliveries k.second page_number m mem distinct room) in
          let first : Client = record d { sent = request ∷ d.sent } in
          let got = retrieve_lem k page_number first m mem true ret m' mem' e in
          let second : Client = record first { sent = request ∷ first.sent } in
          simp (asked, again, got)
            (
              destroy_client second,
              m',
              mem',
              as_pointer k page_number c m mem ret (destroy_client second) m' mem'
                  (result synced.end),
              omega (arith, made),
              (refl, (ret, synced)),
            )
    ]
  ]

  -- retrieve_page, for no more pages than the array has and different new pages, ends on every branch
  -- with -1, also where all pages were synced, since the 0 of nmsg_retrieve_pages is taken for NULL. The
  -- socket that it made it has given back. With a socket and both messages sent, which are the same
  -- request twice, the pages of the array are synced as nmsg_retrieve_pages says; else no page is.
  pub retrieve_page-Failed :
      Fetched k page_number c c
        (k.create == 0 && (k.first && k.second))
        m
        mem
        (retrieve_page k page_number c m mem)
  unfolding retrieve_page init_client
  retrieve_page-Failed = elim (Bool-cases (k.create == 0)) [
    | inr refused ↦ simp refused (c, m, mem, refl, omega arith, (refl, refl))
    | inl created ↦ simp created (fetch-Fetched _ (refl, refl))
  ]
