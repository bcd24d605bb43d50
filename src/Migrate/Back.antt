-- ===== src/Migrate/Back.antt =====
-- A page on its way to the device and back: dmirror_migrate_alloc_and_copy and
-- dmirror_devmem_fault_alloc_and_copy of hmm.c one after the other.
use rshm_hmm.Base.{
  ℕ, ◌+◌, ◌<◌, ◌≡◌, ◌≢◌, refl, sym, subst, ap, ne→==, ◌∙◌, Bool, true, arith, ◌==◌, if◌then◌else◌,
}
use rshm_hmm.Kernel.{null_entry, Memory, XArray, shr_page, page_size}
use rshm_hmm.Mirror.{Dmirror}
use rshm_hmm.Snapshot.{PageKind, device_private}
use rshm_hmm.Migrate.{
  no_pfns, MigratePfn, Pfns, Alloc, World, blank, rounds, alloc_and_copy, source_page,
  devmem_fault_alloc_and_copy,
}
use rshm_hmm.Migrate.Loop.{UsesSources, AllLawful, alloc_and_copy-Looped}
use rshm_hmm.Migrate.Return.{
  source_page_private, AreNew, copies, devmem_fault_alloc_and_copy-Returned,
}
use rshm_hmm.Migrate.Round.{Good, Entered, left, entered}

device_copy :
    {vm_write : Bool} {src e : MigratePfn} {mem : Memory} {w : World} {held used : ℕ → Bool}
    → Entered vm_write src (no_pfns 0) mem w held used e
    → e.page ≢ 0
    → (w.memory (w.device.zdd e.page) ≡ (if src.page == 0 then blank else mem src.page))
      × (w.device.zdd e.page ≢ 0)
device_copy (left x) nz = absurd (nz (ap (λ (t : MigratePfn). t.page) x))
device_copy (entered _ _ _ content _ _ real) nz = (content, real)

module _ (xa : XArray) where
  open xa use {Xa, load}

  -- There and back: a page that dmirror_migrate_alloc_and_copy has entered in `dst` as a device page,
  -- and for which dmirror_devmem_fault_alloc_and_copy gets a new page next, has in the new page what the
  -- source page had at the start, or zeros; and the page table has no entry for it any more.
  pub there_and_back :
      (kind : ℕ → PageKind) (own : ℕ) (vm_write : Bool) (ks : ℕ → Alloc) (src : Pfns)
      (start end : ℕ) (w : World) (held used : ℕ → Bool) (i dev : ℕ) (kind' : ℕ → PageKind)
      (pages : ℕ → ℕ) (src' : Pfns) (addr : ℕ) (m : Dmirror Xa)
      → UsesSources src used
      → Good w.device held
      → AllLawful kind own vm_write ks src (rounds start end) 0 no_pfns w used
      → i < rounds start end
      → let (v, dst) = alloc_and_copy kind own vm_write ks src start end no_pfns w in
        (dst i).page ≢ 0
        → (src' 0).page ≡ (dst i).page
        → (src' 0).migrate ≡ true
        → kind' (dst i).page ≡ device_private dev
        → AreNew xa kind' v.device pages src'
        → pages 0 ≢ 0
        → let (m', mem, _) =
            devmem_fault_alloc_and_copy xa kind' v.device pages src' addr
              (addr + page_size)
              no_pfns
              m
              v.memory in
          (mem (pages 0) ≡ (if (src i).page == 0 then blank else w.memory (src i).page))
          × (load m'.pt (shr_page addr + 0) ≡ null_entry)
  there_and_back kind own vm_write ks src start end w held used i dev kind' pages src' addr m uses
        good laws lt some_page at moves private new real =
      let v = (alloc_and_copy kind own vm_write ks src start end no_pfns w).0 in
      let dst = (alloc_and_copy kind own vm_write ks src start end no_pfns w).1 in
      let looped =
        alloc_and_copy-Looped kind own vm_write ks src start end no_pfns w held used uses good
          laws in
      let (content, backed) =
        device_copy (looped.each i (omega arith) (omega (arith, lt))) some_page in
      let from : source_page kind' v.device (src' 0) ≡ v.device.zdd (dst i).page =
        source_page_private kind' v.device (src' 0) dev moves (λ z. some_page (sym at ∙ z))
          (subst (λ t. kind' t ≡ device_private dev) (sym at) private)
        ∙ rw at refl in
      let returned =
        devmem_fault_alloc_and_copy-Returned xa kind' v.device pages src' addr (addr + page_size)
          no_pfns m v.memory new in
      let goes : copies xa kind' v.device pages src' (0 + 0) ≡ true =
        rw (from, ne→== (v.device.zdd (dst i).page) 0 backed, ne→== (pages 0) 0 real) refl in
      let (a, _, c) = returned.copied 0 (omega arith) goes in (a ∙ ap v.memory from ∙ content, c)
