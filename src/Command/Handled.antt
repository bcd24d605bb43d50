-- ===== src/Command/Handled.antt =====
-- Commands of hmm.c from the system call to the handler's effect.
use rshm_hmm.Base.{
  ℕ, ◌+◌, ◌%◌, ◌^◌, ◌≤◌, ◌<◌, ◌≡◌, refl, ap, ◌⊎◌, inl, inr, Bool, Option, some, List, length, arith,
  if◌then◌else◌,
}
use rshm_hmm.Kernel.{Content, UserSpace, XArray, shr_page, shl_page, add64, efault, eperm}
use rshm_hmm.Mirror.Atomic.{Marked, check_atomic-cases}
use rshm_hmm.Bounce.{Cmd, ok}
use rshm_hmm.Devmem.Refines.{Sim}
use rshm_hmm.Driver.Release.{FreesOwn, Emptied, remove_chunks-Emptied}
use rshm_hmm.Command.{
  Environment, Machine, world_of, ioctl, handle, validate, release, check_exclusive,
}
use rshm_hmm.Command.Admitted.{Range}

module _ (xa : XArray) (us : UserSpace) (vmalloc : ℕ → Option (List Content)) where
  open xa use {Xa}
  open us use {User}

  -- HMM_DMIRROR_RELEASE of an admitted command on a well-formed device, with fuel for its free list
  -- and one more, where each eviction frees pages of its own chunk only, ends with an empty device,
  -- and returns 0, or -EFAULT if the structure cannot be copied back.
  pub ioctl_release :
      (to : User → Cmd → User × Bool) (e : Environment) (m : Machine Xa User) (cmd cmd' : Cmd)
      (held : ℕ → Bool) (ps : List ℕ)
      → validate (some cmd) ≡ ok cmd'
      → Sim (record { device = m.device; held = held }) ps
      → FreesOwn e.evictions 0 m.device.chunks
      → length ps < e.fuel
      → (m' : Machine Xa User) × (ioctl xa us vmalloc to e release (some m) (some cmd)
          ≡ some (some m', (if (to m.user cmd').1 then efault else 0)))
        × Emptied m'.device
        × (m'.mirror ≡ m.mirror)
  unfolding ioctl handle
  ioctl_release to e m cmd cmd' held ps admitted sim own lt =
      let (w, ends, empty) =
        remove_chunks-Emptied e.fuel e.evictions (world_of xa us vmalloc m) held ps sim own lt in
      rw (admitted, ends, ioctl)
        (
          record {
            mirror = m.mirror;
            device = w.device;
            memory = w.memory;
            user = (to m.user cmd').0;
          },
          refl,
          empty,
          refl,
        )

  -- HMM_DMIRROR_CHECK_EXCLUSIVE of an admitted command whose range is as Range says changes no mirror,
  -- device or memory. It returns -EPERM if one of the pages of the range is marked for exclusive access;
  -- otherwise none is, and it returns 0, or -EFAULT if the structure cannot be copied back.
  pub ioctl_check_exclusive :
      (to : User → Cmd → User × Bool) (e : Environment) (m : Machine Xa User) (cmd cmd' : Cmd)
      → validate (some cmd) ≡ ok cmd'
      → Range cmd'
      → ((ioctl xa us vmalloc to e check_exclusive (some m) (some cmd) ≡ some (some m, eperm))
          × ((p : ℕ) × (shr_page cmd'.addr ≤ p)
              × (p < shr_page cmd'.addr + cmd'.npages % 2 ^ 52)
              × Marked xa m.mirror.pt p))
        ⊎ ((ioctl xa us vmalloc to e check_exclusive (some m) (some cmd)
              ≡ some (
                some (record m { user = (to m.user cmd').0 }),
                (if (to m.user cmd').1 then efault else 0),
              ))
            × ((p : ℕ)
                → shr_page cmd'.addr ≤ p
                → p < shr_page cmd'.addr + cmd'.npages % 2 ^ 52
                → ¬ Marked xa m.mirror.pt p))
  unfolding ioctl handle
  ioctl_check_exclusive to e m cmd cmd' admitted range =
      let end : ℕ = add64 cmd'.addr (shl_page cmd'.npages) in
      let last : shr_page end ≡ shr_page cmd'.addr + cmd'.npages % 2 ^ 52 =
        omega (arith, range.pages, range.end, range.below) in
      elim (check_atomic-cases xa m.mirror cmd'.addr end) [
        | inl (e', (p, lo, hi, marked)) ↦ inl (
          rw (admitted, e', ioctl) (ap (λ (n : ℕ). some (some m, n)) e'),
          (p, lo, omega (arith, hi, last), marked),
        )
        | inr (e', clear) ↦
            inr (rw (admitted, e', ioctl) refl, λ p lo hi. clear p lo (omega (arith, hi, last)))
      ]
