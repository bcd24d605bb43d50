-- ===== src/Bounce/Read.antt =====
-- dmirror_do_read of hmm.c: which pages it copies, and why it stops.
use rshm_hmm.Base.{
  ℕ, zero, suc, [], ◌+◌, ◌-◌, ◌*◌, ◌/◌, ◌≤◌, ◌<◌, ◌≡◌, refl, ◌∙◌, ◌≢◌, ◌⊎◌, inl, inr, false, arith,
  ◌==◌, ==→eq, Bool-cases, length, get_or, length-set, get_or-set_self, get_or-set_ne,
}
use rshm_hmm.Kernel.{Memory, XArray, word, page_size, shr_page, enoent}
use rshm_hmm.Mirror.{Dmirror}
use rshm_hmm.Bounce.{Bounce, fill, offset, do_read_loop, do_read}

module _ (xa : XArray) (x : xa.Xa) (mem : Memory) where
  open xa use {load}

  -- The first `k` of the `n` page frames from `pfn` on have a page, and their contents stand in the
  -- buffer from page `q` on. The rest of the buffer is as it was.
  pub record Copied (n pfn q : ℕ) (b b' : Bounce) (ret : ℕ) : Type 0 where
    pub k : ℕ
    pub k_le : k ≤ n
    pub count : b'.cpages ≡ b.cpages + k
    pub size : (length b'.ptr ≡ length b.ptr) × (b'.addr ≡ b.addr) × (b'.size ≡ b.size)
    pub holds :
        (j p a : ℕ)
        → j < k
        → p ≡ pfn + j
        → a ≡ q + j
        → a < length b.ptr
        → get_or b'.ptr a [] ≡ mem (load x p).page
    pub present : (j p : ℕ) → j < k → p ≡ pfn + j → (load x p).page ≢ 0
    pub frame : (a : ℕ) → (a < q) ⊎ (q + k ≤ a) → get_or b'.ptr a [] ≡ get_or b.ptr a []
    pub stop :
        ((k ≡ n) × (ret ≡ 0))
        ⊎ ((k < n) × ((p : ℕ) → p ≡ pfn + k → (load x p).page ≡ 0) × (ret ≡ enoent))

  Copied-suc :
      (n pfn q off : ℕ) (b b' : Bounce) (ret : ℕ)
      → ((load x pfn).page == 0) ≡ false
      → off ≡ q * page_size
      → Copied n (pfn + 1) (q + 1) (fill b off (mem (load x pfn).page)) b' ret
      → Copied (suc n) pfn q b b' ret
  Copied-suc n pfn q off b b' ret page at r = record {
    k = suc r.k;
    k_le = omega arith;
    count = omega arith;
    size = (r.size.0 ∙ length-set b.ptr (off / page_size) _, r.size.1, r.size.2);
    holds = holds;
    present = present;
    frame =
        λ a h. r.frame a (omega arith) ∙ get_or-set_ne b.ptr (off / page_size) a _ [] (omega arith);
    stop = elim r.stop [
      | inl (e, z) ↦ inl (omega arith, z)
      | inr (lt, missing, z) ↦ inr (omega arith, (λ p u. missing p (omega arith)), z)
    ];
  }
    where
      holds :
          (j p a : ℕ)
          → j < suc r.k
          → p ≡ pfn + j
          → a ≡ q + j
          → a < length b.ptr
          → get_or b'.ptr a [] ≡ mem (load x p).page
      holds zero p a h u v lt =
          let u' : p ≡ pfn = omega arith in
          let v' : off / page_size ≡ a = omega arith in
          rw u' (r.frame a (omega arith) ∙ rw v' (get_or-set_self b.ptr a _ [] lt))
      holds (suc j) p a h u v lt =
          r.holds j p a (omega arith) (omega arith) (omega arith)
            (omega (arith, length-set b.ptr (off / page_size) (mem (load x pfn).page)))

      present : (j p : ℕ) → j < suc r.k → p ≡ pfn + j → (load x p).page ≢ 0
      present zero p h u = let u' : p ≡ pfn = omega arith in rw u' (ground arith)
      present (suc j) p h u = r.present j p (omega arith) (omega arith)

  do_read_loop-Copied :
      (n pfn q off : ℕ) (b : Bounce)
      → off ≡ q * page_size
      → let (b', ret) = do_read_loop xa x mem n pfn off b in Copied n pfn q b b' ret
  unfolding do_read_loop
  do_read_loop-Copied zero pfn q off b at = record {
    k = 0;
    k_le = omega arith;
    count = omega arith;
    size = (refl, refl, refl);
    holds = λ j p a h. absurd (omega arith);
    present = λ j p h. absurd (omega arith);
    frame = λ a h. refl;
    stop = inl (refl, refl);
  }
  do_read_loop-Copied (suc n) pfn q off b at = elim (Bool-cases ((load x pfn).page == 0)) [
    | inl null ↦
        rw (null, do_read_loop)
          (record {
            k = 0;
            k_le = omega arith;
            count = omega arith;
            size = (refl, refl, refl);
            holds = λ j p a h. absurd (omega arith);
            present = λ j p h. absurd (omega arith);
            frame = λ a h. refl;
            stop = inr (
              omega arith,
              (λ p u. let u' : p ≡ pfn = omega arith in rw u' (==→eq _ 0 null)),
              refl,
            );
          })
    | inr page ↦
        rw (page, do_read_loop)
          (Copied-suc n pfn q off b _ _ page at (
            do_read_loop-Copied n (pfn + 1) (q + 1) (off + page_size)
              (fill b off (mem (load x pfn).page)) (omega arith)))
  ]

  -- dmirror_do_read from `q` pages behind the buffer's address, which is the page-aligned start of
  -- the command: it copies the pages of the page frames that are present, in order, to their places
  -- in the buffer, counts them in `cpages`, and leaves the rest of the buffer as it was. It returns
  -- 0 if that is the whole range, and -ENOENT at the first page frame that has no page.
  pub do_read-Copied :
      (d : Dmirror xa.Xa) (start end q : ℕ) (b : Bounce)
      → d.pt ≡ x
      → start < word
      → start ≡ b.addr + q * page_size
      → let (b', ret) = do_read xa d mem start end b in
        Copied (shr_page end - shr_page start) (shr_page start) q b b' ret
  unfolding do_read
  do_read-Copied d start end q b e lt at = rw e (
      do_read_loop-Copied (shr_page end - shr_page start) (shr_page start) q (offset start b.addr) b
        (omega arith))
