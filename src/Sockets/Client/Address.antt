-- ===== src/Sockets/Client/Address.antt =====
-- nmsg_start_server of mm/nmsg.c: the address that its thread will find.
use rshm_hmm.Base.{
  ℕ, ◌≤◌, ◌≡◌, ◌≢◌, refl, inl, inr, true, [], ◌∷◌, ◌++◌, ap, ◌==◌, ne→==, Bool-cases, length, drop,
  if◌then◌else◌, arith,
}
use rshm_hmm.Kernel.{Content}
use rshm_hmm.Sockets.Client.{ServerAddr, strncpy, c_string, start_server}

-- A text has no 0 in it.
abbrev pub IsText : Content → Type 0
IsText [] = Unit {0}
IsText (b ∷ bs) = (b ≢ 0) × IsText bs

c_string-strncpy :
    (dst src : Content)
    → IsText src
    → length src ≤ length dst
    → c_string (strncpy dst src) ≡ src ++ c_string (drop (length src) dst)
unfolding c_string strncpy
c_string-strncpy dst [] text room = refl
c_string-strncpy [] (b ∷ src) text room = elim room [ ]
c_string-strncpy (a ∷ dst) (b ∷ src) text room =
    rw (ne→== b 0 text.0)
      (ap (λ (t : Content). b ∷ t) (c_string-strncpy dst src text.1 (omega arith)))

-- nmsg_start_server with an address that fits: the thread finds the address with the rest of what
-- stood behind its length before, up to a 0, and the port; the error of kthread_create comes back.
pub start_server-Named :
    (ip : Content) (port kthread : ℕ) (s : ServerAddr)
    → IsText ip
    → length ip ≤ length s.ip_address
    → let (s', ret) = start_server ip port kthread s in
      (c_string s'.ip_address ≡ ip ++ c_string (drop (length ip) s.ip_address))
      × (s'.port_number ≡ port)
      × (ret ≡ kthread)
      × (s'.thread ≡ (if kthread == 0 then true else s.thread))
unfolding start_server
start_server-Named ip port kthread s text room =
    let e = c_string-strncpy s.ip_address ip text room in
    elim (Bool-cases (kthread == 0)) [
      | inl started ↦ simp started (e, refl, ground (arith, started), refl)
      | inr failed ↦ simp failed (e, refl, refl, refl)
    ]
