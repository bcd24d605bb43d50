-- ===== src/Rdma/ByteOrder.antt =====
-- The byte order of mm/nmsg_rdma_client.c and mm/nmsg_rdma_server.c: what one side converts, the
-- other converts back.
use rshm_hmm.Base.{ℕ, ◌/◌, ◌%◌, ◌<◌, ◌≡◌, ap, arith}
use rshm_hmm.Rdma.{swap32, swap64}

pub swap32-lt : (x : ℕ) → swap32 x < 4294967296
unfolding swap32
swap32-lt x = omega arith

pub swap32-swap32 : (x : ℕ) → x < 4294967296 → swap32 (swap32 x) ≡ x
unfolding swap32
swap32-swap32 x h = omega arith

pub swap64-swap64 : (x : ℕ) → x < 18446744073709551616 → swap64 (swap64 x) ≡ x
unfolding swap64
swap64-swap64 x h =
    let lo = swap32-lt (x % 4294967296) in
    let hi = swap32-lt (x / 4294967296) in
    let a : swap64 x % 4294967296 ≡ swap32 (x / 4294967296) = omega (arith, lo, hi) in
    let b : swap64 x / 4294967296 ≡ swap32 (x % 4294967296) = omega (arith, lo, hi) in
    omega (
      arith,
      ap swap32 a,
      ap swap32 b,
      swap32-swap32 (x % 4294967296),
      swap32-swap32 (x / 4294967296),
    )
