-- ===== src/Bounce/Write.antt =====
-- dmirror_do_write of hmm.c: which pages it writes, and why it stops.
use rshm_hmm.Base.{
  ℕ, zero, suc, [], ◌+◌, ◌-◌, ◌*◌, ◌/◌, ◌≤◌, ◌<◌, ◌≡◌, refl, sym, ◌∙◌, ◌≢◌, ◌⊎◌, inl, inr, true,
  false, arith, ==_refl, ne→==, Bool-cases, get_or,
}
use rshm_hmm.Kernel.{Memory, put, XArray, word, page_size, shr_page, enoent}
use rshm_hmm.Mirror.{Dmirror}
use rshm_hmm.Bounce.{Bounce, is_writable, offset, do_write_loop, do_write}

module _ (xa : XArray) (x : xa.Xa) where
  open xa use {load}

  -- No page stands behind two page frames among the `n` from `pfn` on.
  abbrev pub Distinct : ℕ → ℕ → Type 0
  Distinct pfn n =
      (p r : ℕ)
      → pfn ≤ p
      → p < pfn + n
      → pfn ≤ r
      → r < pfn + n
      → (load x p).page ≡ (load x r).page
      → p ≡ r

  -- The first `k` of the `n` page frames from `pfn` on are writable, and each of their pages holds
  -- the contents of its page of the buffer. Other pages are as they were.
  pub record Written (n pfn q : ℕ) (b : Bounce) (mem : Memory) (r : Bounce × Memory × ℕ)
      : Type 0 where
    pub k : ℕ
    pub k_le : k ≤ n
    pub buffer : r.0 ≡ record b { cpages = b.cpages + k }
    pub holds :
        (j p a : ℕ) → j < k → p ≡ pfn + j → a ≡ q + j → r.1 (load x p).page ≡ get_or b.ptr a []
    pub writable : (j p : ℕ) → j < k → p ≡ pfn + j → is_writable xa x p ≡ true
    pub frame :
        (page : ℕ)
        → ((j p : ℕ) → j < k → p ≡ pfn + j → page ≢ (load x p).page)
        → r.1 page ≡ mem page
    pub stop :
        ((k ≡ n) × (r.2 ≡ 0))
        ⊎ ((k < n) × ((p : ℕ) → p ≡ pfn + k → is_writable xa x p ≡ false) × (r.2 ≡ enoent))

  Written-suc :
      (n pfn q off : ℕ) (b : Bounce) (mem : Memory) (r : Bounce × Memory × ℕ)
      → is_writable xa x pfn ≡ true
      → Distinct pfn (suc n)
      → off ≡ q * page_size
      → Written n
          (pfn + 1)
          (q + 1)
          (record b { cpages = b.cpages + 1 })
          (put mem (load x pfn).page (get_or b.ptr (off / page_size) []))
          r
      → Written (suc n) pfn q b mem r
  Written-suc n pfn q off b mem r ok distinct at w = record {
    k = suc w.k;
    k_le = omega arith;
    buffer = w.buffer ∙ (let e : b.cpages + 1 + w.k ≡ b.cpages + suc w.k = omega arith in rw e);
    holds = holds;
    writable = writable;
    frame = λ page h.
        w.frame page (λ j p lt u. h (suc j) p (omega arith) (omega arith))
        ∙ rw (ne→== (load x pfn).page page (λ e. h 0 pfn (omega arith) (omega arith) (sym e)));
    stop = elim w.stop [
      | inl (e, z) ↦ inl (omega arith, z)
      | inr (lt, missing, z) ↦ inr (omega arith, (λ p u. missing p (omega arith)), z)
    ];
  }
    where
      holds :
          (j p a : ℕ)
          → j < suc w.k
          → p ≡ pfn + j
          → a ≡ q + j
          → r.1 (load x p).page ≡ get_or b.ptr a []
      holds zero p a h u v =
          let u' : p ≡ pfn = omega arith in
          let v' : off / page_size ≡ a = omega arith in
          rw (u', ← v')
            (w.frame (load x pfn).page (λ j p' lt e same. absurd (
                omega (
                  arith,
                  distinct pfn p' (omega arith) (omega arith) (omega (arith, w.k_le))
                      (omega (arith, w.k_le)) same,
                )))
              ∙ rw (==_refl (load x pfn).page))
      holds (suc j) p a h u v = w.holds j p a (omega arith) (omega arith) (omega arith)

      writable : (j p : ℕ) → j < suc w.k → p ≡ pfn + j → is_writable xa x p ≡ true
      writable zero p h u = let u' : p ≡ pfn = omega arith in rw u' ok
      writable (suc j) p h u = w.writable j p (omega arith) (omega arith)

  Written-stop :
      (n pfn q : ℕ) (b : Bounce) (mem : Memory) (ret : ℕ)
      → ((0 ≡ n) × (ret ≡ 0))
        ⊎ ((0 < n) × ((p : ℕ) → p ≡ pfn + 0 → is_writable xa x p ≡ false) × (ret ≡ enoent))
      → Written n pfn q b mem (b, mem, ret)
  Written-stop n pfn q b mem ret s = record {
    k = 0;
    k_le = omega arith;
    buffer = (let e : b.cpages + 0 ≡ b.cpages = omega arith in rw e);
    holds = λ j p a h. absurd (omega arith);
    writable = λ j p h. absurd (omega arith);
    frame = λ page h. refl;
    stop = s;
  }

  do_write_loop-Written :
      (n pfn q off : ℕ) (b : Bounce) (mem : Memory)
      → off ≡ q * page_size
      → Distinct pfn n
      → Written n pfn q b mem (do_write_loop xa x n pfn off b mem)
  unfolding do_write_loop
  do_write_loop-Written zero pfn q off b mem at distinct =
      Written-stop zero pfn q b mem 0 (inl (refl, refl))
  do_write_loop-Written (suc n) pfn q off b mem at distinct =
      elim (Bool-cases (is_writable xa x pfn)) [
        | inl ok ↦
            rw (ok, do_write_loop)
              (Written-suc n pfn q off b mem _ ok distinct at (
                do_write_loop-Written n (pfn + 1) (q + 1) (off + page_size)
                  (record b { cpages = b.cpages + 1 }) _ (omega arith)
                  (λ p r lo hi lo' hi' e.
                    distinct p r (omega arith) (omega arith) (omega arith) (omega arith) e)))
        | inr refused ↦
            rw (refused, do_write_loop)
              (Written-stop (suc n) pfn q b mem enoent
                (inr (omega arith, (λ p u. let u' : p ≡ pfn = omega arith in rw u' refused), refl)))
      ]

  -- dmirror_do_write from `q` pages behind the buffer's address, where no page stands behind two
  -- page frames of the range: it writes the buffer's pages, in order, to the pages of the page
  -- frames that are present with the write tag, counts them in `cpages`, and changes neither
  -- another page nor the buffer. It returns 0 if that is the whole range, and -ENOENT at the first
  -- page frame that has no page or lacks the write tag.
  pub do_write-Written :
      (d : Dmirror xa.Xa) (start end q : ℕ) (b : Bounce) (mem : Memory)
      → d.pt ≡ x
      → start < word
      → start ≡ b.addr + q * page_size
      → Distinct (shr_page start) (shr_page end - shr_page start)
      → Written
          (shr_page end - shr_page start)
          (shr_page start)
          q
          b
          mem
          (do_write xa d start end b mem)
  unfolding do_write
  do_write-Written d start end q b mem e lt at distinct = rw e (
      do_write_loop-Written (shr_page end - shr_page start) (shr_page start) q (offset start b.addr)
        b mem (omega arith) distinct)

-- What a dmirror_do_write counts, whatever pages there are.
pub record Counted (n : ℕ) (b : Bounce) (r : Bounce × Memory × ℕ) : Type 0 where
  pub addr : r.0.addr ≡ b.addr
  pub bound : r.0.cpages ≤ b.cpages + n
  pub all : r.2 ≡ 0 → r.0.cpages ≡ b.cpages + n

module _ (xa : XArray) where
  open xa use {Xa, load}

  do_write_loop-Counted :
      (x : Xa) (n pfn off : ℕ) (b : Bounce) (mem : Memory)
      → Counted n b (do_write_loop xa x n pfn off b mem)
  unfolding do_write_loop
  do_write_loop-Counted x zero pfn off b mem = record {
    addr = refl;
    bound = omega arith;
    all = λ z. omega arith;
  }
  do_write_loop-Counted x (suc n) pfn off b mem = elim (Bool-cases (is_writable xa x pfn)) [
    | inr stop ↦
        rw (stop, do_write_loop)
          (record { addr = refl; bound = omega arith; all = λ z. absurd (omega arith) })
    | inl on ↦
        let r =
          do_write_loop-Counted x n (pfn + 1) (off + page_size) (record b { cpages = b.cpages + 1 })
            (put mem (load x pfn).page (get_or b.ptr (off / page_size) [])) in
        rw (on, do_write_loop)
          (record {
            addr = r.addr;
            bound = omega (arith, r.bound);
            all = λ z. omega (arith, r.all z);
          })
  ]

  pub do_write-Counted :
      (d : Dmirror Xa) (start end : ℕ) (b : Bounce) (mem : Memory)
      → Counted (shr_page end - shr_page start) b (do_write xa d start end b mem)
  unfolding do_write
  do_write-Counted d start end b mem =
      do_write_loop-Counted d.pt (shr_page end - shr_page start) (shr_page start)
        (offset start b.addr) b mem
