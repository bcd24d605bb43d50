-- ===== src/Bounce/RoundTrip.antt =====
-- dmirror_do_write and then dmirror_do_read of hmm.c over the same range: what was written is read.
use rshm_hmm.Base.{
  ℕ, [], ◌+◌, ◌-◌, ◌≤◌, ◌<◌, ◌≡◌, refl, ◌∙◌, ◌≢◌, inl, inr, true, arith, length, get_or,
}
use rshm_hmm.Kernel.{Memory, XArray, word, shr_page}
use rshm_hmm.Mirror.{Dmirror}
use rshm_hmm.Bounce.{Bounce, is_writable, do_read, do_write}
use rshm_hmm.Bounce.Read.{Copied, do_read-Copied}
use rshm_hmm.Bounce.Write.{Distinct, Written, do_write-Written}

module _ (xa : XArray) where
  open xa use {Xa, load}

  present_of_writable : (x : Xa) (p : ℕ) → is_writable xa x p ≡ true → (load x p).page ≢ 0
  present_of_writable x p h = ground arith

  -- The reader stops early only at a page frame that the writer could not have passed.
  read_all :
      (x : Xa) (mem mem' : Memory) (n pfn q : ℕ) (b c c' : Bounce) (r : Bounce × Memory × ℕ)
      (ret : ℕ)
      → (w : Written xa x n pfn q b mem r) → w.k ≡ n
      → (v : Copied xa x mem' n pfn q c c' ret) → (v.k ≡ n) × (ret ≡ 0)
  read_all x mem mem' n pfn q b c c' r ret w full v = elim v.stop [
    | inl done ↦ done
    | inr (lt, missing, e) ↦ absurd (
        present_of_writable x (pfn + v.k) (w.writable v.k (pfn + v.k) (omega arith) refl)
          (missing (pfn + v.k) refl))
  ]

  full_of_zero :
      (x : Xa) (mem : Memory) (n pfn q : ℕ) (b : Bounce) (r : Bounce × Memory × ℕ)
      → (w : Written xa x n pfn q b mem r) → r.2 ≡ 0
      → w.k ≡ n
  full_of_zero x mem n pfn q b r w z = elim w.stop [
    | inl (e, zero_ret) ↦ e
    | inr (lt, missing, e) ↦ absurd (omega arith)
  ]

  read_back :
      (x : Xa) (mem : Memory) (n pfn : ℕ) (b c c' : Bounce) (r : Bounce × Memory × ℕ) (ret : ℕ)
      → Written xa x n pfn 0 b mem r
      → r.2 ≡ 0
      → Copied xa x r.1 n pfn 0 c c' ret
      → n ≤ length c.ptr
      → (ret ≡ 0)
        × (c'.cpages ≡ c.cpages + n)
        × ((a : ℕ) → a < n → get_or c'.ptr a [] ≡ get_or b.ptr a [])
  read_back x mem n pfn b c c' r ret w z v room =
      let full = full_of_zero x mem n pfn 0 b r w z in
      let (all, zero_ret) = read_all x mem r.1 n pfn 0 b c c' r ret w full v in
      (
        zero_ret,
        omega (arith, v.count),
        λ a h.
            v.holds a (pfn + a) a (omega arith) refl (omega arith) (omega arith)
            ∙ w.holds a (pfn + a) a (omega arith) refl (omega arith),
      )

  -- Where no page stands behind two page frames of the range and a dmirror_do_write of the buffer
  -- `b` from its start returns 0, a dmirror_do_read of the same range into a buffer `c` of the same
  -- address that has room for it returns 0, and then `c` holds the pages that `b` holds.
  pub do_read-do_write :
      (d : Dmirror Xa) (end : ℕ) (b c : Bounce) (mem : Memory)
      → b.addr < word
      → c.addr ≡ b.addr
      → shr_page end - shr_page b.addr ≤ length c.ptr
      → Distinct xa d.pt (shr_page b.addr) (shr_page end - shr_page b.addr)
      → (do_write xa d b.addr end b mem).2 ≡ 0
      → let n = shr_page end - shr_page b.addr in
        let (c', ret) = do_read xa d (do_write xa d b.addr end b mem).1 b.addr end c in
        (ret ≡ 0)
        × (c'.cpages ≡ c.cpages + n)
        × ((a : ℕ) → a < n → get_or c'.ptr a [] ≡ get_or b.ptr a [])
  do_read-do_write d end b c mem lt same room distinct z =
      let w = do_write-Written xa d.pt d b.addr end 0 b mem refl lt (omega arith) distinct in
      let v =
        do_read-Copied xa d.pt (do_write xa d b.addr end b mem).1 d b.addr end 0 c refl lt
          (omega arith) in
      read_back d.pt mem (shr_page end - shr_page b.addr) (shr_page b.addr) b c _
        (do_write xa d b.addr end b mem) _ w z v room
