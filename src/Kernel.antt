-- ===== src/Kernel.antt =====
-- What hmm.c takes from the kernel's headers and from its containers: error numbers, page
-- arithmetic on 64-bit addresses, tagged pointers, the memory of pages, and the XArray.
pub mod Map
use rshm_hmm.Base.{
  ℕ, ◌+◌, ◌*◌, ◌/◌, ◌%◌, ◌^◌, ◌<◌, ◌≡◌, refl, ◌⊎◌, inl, inr, Bool, ◌&&◌, List, Option, ◌==◌,
  if◌then◌else◌,
}

-- A return value `-n` is the number `n`, and success is 0.
abbrev pub eperm : ℕ
eperm = 1

abbrev pub enoent : ℕ
enoent = 2

abbrev pub enomem : ℕ
enomem = 12

abbrev pub efault : ℕ
efault = 14

abbrev pub ebusy : ℕ
ebusy = 16

abbrev pub einval : ℕ
einval = 22

abbrev pub page_size : ℕ
page_size = 4096

abbrev pub word : ℕ
word = 2 ^ 64

-- a + b on unsigned long
abbrev pub add64 : ℕ → ℕ → ℕ
add64 a b = (a + b) % word

-- n << PAGE_SHIFT on unsigned long
abbrev pub shl_page : ℕ → ℕ
shl_page n = (n * page_size) % word

-- a >> PAGE_SHIFT
abbrev pub shr_page : ℕ → ℕ
shr_page a = a / page_size

-- A page is its number, with 0 for NULL, and its contents are the bytes that it holds.
abbrev pub Content : Type 0
Content = List ℕ

abbrev pub Memory : Type 0
Memory = ℕ → Content

abbrev pub put : Memory → ℕ → Content → Memory
put m p c q = if p == q then c else m q

-- What another thread does to the memory.
abbrev pub Mutation : Type 0
Mutation = Memory → Memory

-- A tagged pointer to a page.
pub record Entry : Type 0 where
  pub page : ℕ
  pub tag : ℕ

abbrev pub entry : ℕ → ℕ → Entry
entry p t = record { page = p; tag = t }

abbrev pub null_entry : Entry
null_entry = entry 0 0

abbrev pub is_null : Entry → Bool
is_null e = e.page == 0 && e.tag == 0

-- What `xa_store` returns: the array with the entry in it, or an error.
pub data Stored (Xa : Type 0) : Type 0 where
  stored : Xa → Stored Xa
  xa_err : ℕ → Stored Xa

pub Stored-cases :
    {Xa : Type 0} (s : Stored Xa) → ((x : Xa) × (s ≡ stored x)) ⊎ ((err : ℕ) × (s ≡ xa_err err))
Stored-cases (stored x) = inl (x, refl)
Stored-cases (xa_err err) = inr (err, refl)

-- The XArray of the kernel: a map from indices to pointers, where an index without one has NULL.
pub record XArray : Type 1 where
  pub Xa : Type 0
  pub empty : Xa
  pub load : Xa → ℕ → Entry
  pub store : Xa → ℕ → Entry → Stored Xa
  pub erase : Xa → ℕ → Xa
  pub load-empty : (i : ℕ) → load empty i ≡ null_entry
  pub load-store :
      (x y : Xa) (i j : ℕ) (e : Entry)
      → store x i e ≡ stored y
      → load y j ≡ (if i == j then e else load x j)
  pub store_err_pos : (x : Xa) (i n : ℕ) (e : Entry) → store x i e ≡ xa_err n → 0 < n
  pub load-erase :
      (x : Xa) (i j : ℕ) → load (erase x i) j ≡ (if i == j then null_entry else load x j)

-- The process's memory as the driver reaches it: copy_to_user of whole pages and of bytes, each
-- with the answer whether a part was not copied, and copy_from_user of so many bytes.
pub record UserSpace : Type 1 where
  pub User : Type 0
  pub copy_pages : User → ℕ → List Content → User × Bool
  pub copy_bytes : User → ℕ → List ℕ → User × Bool
  pub copy_in : User → ℕ → ℕ → Option (List Content)
