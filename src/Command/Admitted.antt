-- ===== src/Command/Admitted.antt =====
-- The commands that dmirror_fops_unlocked_ioctl of hmm.c takes: what its checks give the handlers.
use rshm_hmm.Base.{
  ◌+◌, ◌-◌, ◌%◌, ◌^◌, ◌<◌, ◌≤◌, ◌≡◌, ◌⊎◌, inl, inr, some, arith, leb, ◌==◌, ==→eq, Bool-cases,
}
use rshm_hmm.Kernel.{word, page_size, add64, shl_page, shr_page, einval}
use rshm_hmm.Bounce.{Cmd, Result, ok, err}
use rshm_hmm.Command.{validate}

-- The range of a command is page-aligned, is not empty and does not wrap. It has as many pages as
-- the low 52 bits of npages say.
pub record Range (cmd : Cmd) : Type 0 where
  pub aligned : cmd.addr % page_size ≡ 0
  pub end : add64 cmd.addr (shl_page cmd.npages) ≡ cmd.addr + shl_page cmd.npages
  pub below : cmd.addr < cmd.addr + shl_page cmd.npages
  pub pages :
      shr_page (add64 cmd.addr (shl_page cmd.npages)) - shr_page cmd.addr ≡ cmd.npages % 2 ^ 52

-- An answer to the check of a command.
pub data Checked (cmd : Cmd) : Result Cmd → Type 0 where
  taken : Range cmd → Checked cmd (ok (record cmd { cpages = 0; faults = 0 }))
  unaligned : (cmd.addr % page_size ≡ 0 → ⊥) → Checked cmd (err einval)
  no_range :
      cmd.addr % page_size ≡ 0
      → (shl_page cmd.npages ≡ 0) ⊎ (word ≤ cmd.addr + shl_page cmd.npages)
      → Checked cmd (err einval)

-- A command with an address below 2^64 is either taken, with its counts set to 0, and then its range
-- is as Range says; or it is refused with -EINVAL, since its address is not page-aligned, or since
-- its size on 64 bits is 0 or its range reaches 2^64.
pub validate-Checked : (cmd : Cmd) → cmd.addr < word → Checked cmd (validate (some cmd))
unfolding validate
validate-Checked cmd lt = elim (Bool-cases (cmd.addr % page_size == 0)) [
  | inr off ↦ simp off (unaligned (ground arith))
  | inl on ↦ simp on (elim (Bool-cases (leb (add64 cmd.addr (shl_page cmd.npages)) cmd.addr)) [
    | inl bad ↦ simp bad (no_range (==→eq _ _ on) (ground arith))
    | inr fine ↦ simp fine (
        taken record {
          aligned = ==→eq _ _ on;
          end = ground arith;
          below = ground arith;
          pages = ground arith;
        })
  ])
]
