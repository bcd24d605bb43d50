-- ===== src/Sockets.antt =====
-- mm/mem.c and mm/nmsg.c: the array of shared pages, the client that fetches pages over a socket, and
-- the thread of the server. A result -1 is written 1. `none` is a write behind the end of the array, or a
-- server that goes on.
pub mod Client
pub mod Retrieve
pub mod Thread
mod Examples
use rshm_hmm.Base.{
  ℕ, zero, suc, ◌+◌, ◌-◌, ◌*◌, ◌/◌, Bool, true, false, not, Option, none, some, List, [], ◌∷◌, ◌++◌,
  ◌==◌, ltb, length, get_or, set, if◌then◌else◌,
}
use rshm_hmm.Kernel.{Content, Memory, put, page_size, shr_page}

pub data PageState : Type 0 where
  invalid shared modified exclusive : PageState

pub record Page : Type 0 where
  pub state : PageState
  pub page : ℕ

pub record Pages : Type 0 where
  pub pages : List Page
  pub size : ℕ

abbrev pub buf_len : ℕ
buf_len = 1024000

-- DIV_ROUND_UP(BUF_LEN, PAGE_SIZE)
abbrev pub pool_size : ℕ
pool_size = (buf_len + page_size - 1) / page_size

-- The rounds of memory_init that are left; `alloc` is what alloc_page gives, 0 where it fails.
pub init_loop : (ℕ → ℕ) → ℕ → ℕ → List Page
init_loop alloc zero i = []
init_loop alloc (suc n) i = record { state = invalid; page = alloc i } ∷ init_loop alloc n (i + 1)

pub memory_init : (ℕ → ℕ) → Pages
unfolding init_loop
memory_init alloc = record { pages = init_loop alloc pool_size 0; size = pool_size }

-- The pages that memory_destroy frees.
pub memory_destroy : Pages → List ℕ
memory_destroy m = freed m.size m.pages
  where
    freed : ℕ → List Page → List ℕ
    freed zero ps = []
    freed (suc n) [] = []
    freed (suc n) (p ∷ ps) = p.page ∷ freed n ps

-- So many bytes 0.
abbrev pub zeros : ℕ → Content
zeros zero = []
zeros (suc n) = 0 ∷ zeros n

-- "retrieve_pages"
abbrev pub request : Content
request = 114 ∷ 101 ∷ 116 ∷ 114 ∷ 105 ∷ 101 ∷ 118 ∷ 101 ∷ 95 ∷ 112 ∷ 97 ∷ 103 ∷ 101 ∷ 115 ∷ []

-- The array of 100 bytes that begins with it.
abbrev pub request_message : Content
request_message = request ++ zeros 86

-- One round of the client: whether kernel_recvmsg fails, the bytes that stand behind request_message on
-- the stack, and what alloc_page gives. The vector is still that of the request, and kernel_recvmsg, called
-- for 0 vectors, fills none.
pub record Delivery : Type 0 where
  pub failed : Bool
  pub behind : Content
  pub page : ℕ

-- memcpy of a page from the base of the vector
abbrev pub copied_bytes : Delivery → Content
copied_bytes d = request_message ++ d.behind

-- The rounds of nmsg_retrieve_pages that are left, from page `i` on.
pub retrieve_loop : (ℕ → Delivery) → ℕ → ℕ → Pages → Memory → Option (Pages × Memory × ℕ)
retrieve_loop ds zero i m mem = some (m, mem, 0)
retrieve_loop ds (suc n) i m mem =
    let d = ds i in
    let synced = record m { pages = set m.pages i (record { state = shared; page = d.page }) } in
    let rest = retrieve_loop ds n (i + 1) synced (put mem d.page (copied_bytes d)) in
    if d.failed
    then some (m, mem, 1)
    else if d.page == 0
    then some (m, mem, 1)
    else if ltb i (length m.pages)
    then rest
    else none

-- `sent` is whether kernel_sendmsg takes the request.
pub retrieve_pages : Bool → (ℕ → Delivery) → ℕ → Pages → Memory → Option (Pages × Memory × ℕ)
unfolding retrieve_loop
retrieve_pages sent ds num_pages m mem =
    if sent then retrieve_loop ds num_pages 0 m mem else some (m, mem, 1)

-- strcpy, in lists of bytes: up to the first 0, that one included.
pub strcpy : Content → Content → Content
strcpy dst [] = dst
strcpy [] (b ∷ src) = []
strcpy (a ∷ dst) (b ∷ src) = if b == 0 then 0 ∷ dst else b ∷ strcpy dst src

abbrev pub no_page : Page
no_page = record { state = invalid; page = 0 }

-- nmsg_process_message
pub process_message : Content → Pages → Memory → Pages × Memory
unfolding strcpy
process_message message m mem =
    let p = (get_or m.pages 0 no_page).page in
    (
      record m { pages = set m.pages 0 (record { state = shared; page = p }) },
      put mem p (strcpy (mem p) message),
    )

-- The server, with how often a socket and a buffer were made and given back.
pub record Listener : Type 0 where
  pub socks : ℕ
  pub socks_given : ℕ
  pub bufs : ℕ
  pub bufs_given : ℕ
  pub pages : Pages
  pub memory : Memory

-- One round of the server's loop: the two answers of kthread_should_stop, and the message, or nothing
-- where kernel_recvmsg fails.
pub record Arrival : Type 0 where
  pub stop_before : Bool
  pub message : Option Content
  pub stop_after : Bool

pub serve_loop : List Arrival → Listener → Option Listener
unfolding process_message
serve_loop [] l = none
serve_loop (a ∷ rest) l =
    if a.stop_before then some l else if a.stop_after then some l else elim a.message [
      | none ↦ some l
      | some message ↦
          let (m, mem) = process_message message l.pages l.memory in
          serve_loop rest (record l { pages = m; memory = mem })
    ]

-- sock_release and kfree of the server's socket and buffer
abbrev pub release_sock : Listener → Listener
release_sock l = record l { socks_given = l.socks_given + 1 }

abbrev pub free_buf : Listener → Listener
free_buf l = record l { bufs_given = l.bufs_given + 1 }

-- The thread of the server; `create` and `bind` are errors, 0 for none. Without a buffer it returns what
-- bind returned.
pub init_server : ℕ → ℕ → Bool → List Arrival → Listener → Option (Listener × ℕ)
unfolding serve_loop
init_server create bind kmalloc arrivals l =
    let with_sock = record l { socks = l.socks + 1 } in
    let with_buf = record with_sock { bufs = l.bufs + 1 } in
    if not (create == 0)
    then some (l, create)
    else if not (bind == 0)
    then some (release_sock with_sock, bind)
    else if not kmalloc
    then some (release_sock with_sock, 0)
    else elim (serve_loop arrivals with_buf) [
      | none ↦ none
      | some t ↦ some (release_sock (free_buf t), 0)
    ]

-- nmsg_stop_server; the signal to the thread has no effect on what is held.
pub stop_server : Listener → Listener
stop_server l = release_sock (free_buf l)
