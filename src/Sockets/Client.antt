-- ===== src/Sockets/Client.antt =====
-- mm/nmsg.c and mm/migrate_device.c: the client's socket from nmsg_init_client to
-- nmsg_destroy_client, nmsg_start_server, and retrieve_page, which uses the client for each page of a
-- migration. A result -1 is written 1, and a pointer is its number.
pub mod Page
pub mod Address
use rshm_hmm.Base.{
  ℕ, zero, suc, ◌+◌, ◌*◌, ◌/◌, ◌%◌, Bool, true, not, Option, none, some, List, [], ◌∷◌, ◌++◌, ◌==◌,
  length, if◌then◌else◌,
}
use rshm_hmm.Kernel.{Content, Memory}
use rshm_hmm.Sockets.{Pages, Delivery, request, retrieve_pages}

abbrev pub af_inet : ℕ
af_inet = 2

-- htons
abbrev pub swap16 : ℕ → ℕ
swap16 x = x % 256 * 256 + x / 256 % 256

-- struct sockaddr_in
pub record SockAddr : Type 0 where
  pub family : ℕ
  pub port : ℕ
  pub addr : ℕ

-- nmsg_client, with how often a socket was made and given back, and the messages given to it.
pub record Client : Type 0 where
  pub socks : ℕ
  pub socks_given : ℕ
  pub dest_addr : SockAddr
  pub sent : List Content

-- `create` is what sock_create answers, and `addr` what in_aton makes of the address.
pub init_client : ℕ → ℕ → ℕ → Client → Client × ℕ
init_client create addr port_number c = if not (create == 0) then (c, create) else (
  record c {
    socks = c.socks + 1;
    dest_addr = record { family = af_inet; port = swap16 port_number; addr = addr };
  },
  0,
)

-- `taken` is whether kernel_sendmsg takes the message.
pub send_message : Bool → Content → Client → Client × ℕ
send_message taken message c = if taken then (record c { sent = message ∷ c.sent }, 0) else (c, 1)

pub destroy_client : Client → Client
destroy_client c = record c { socks_given = c.socks_given + 1 }

-- nmsg_retrieve_pages, with the message that it sends first.
pub retrieve :
    Bool → (ℕ → Delivery) → ℕ → Client → Pages → Memory → Option (Client × Pages × Memory × ℕ)
unfolding send_message
retrieve taken ds n c m mem = elim (retrieve_pages taken ds n m mem) [
  | none ↦ none
  | some (m', mem', ret) ↦ some ((send_message taken request c).0, m', mem', ret)
]

-- What the kernel answers to retrieve_page: sock_create, the two messages, and the deliveries.
pub record Answers : Type 0 where
  pub create : ℕ
  pub addr : ℕ
  pub first : Bool
  pub second : Bool
  pub deliveries : ℕ → Delivery

-- The part of retrieve_page behind nmsg_init_client.
pub fetch : Answers → ℕ → Client → Pages → Memory → Option (Client × Pages × Memory × ℕ)
unfolding send_message retrieve destroy_client
fetch k page_number c m mem =
    let (asked, refused) = send_message k.first request c in
    if not (refused == 0)
    then some (destroy_client asked, m, mem, 1)
    else elim (retrieve k.second k.deliveries page_number asked m mem) [
      | none ↦ none
      | some (c', m', mem', page) ↦
          if page == 0
          then some (destroy_client c', m', mem', 1)
          else some (destroy_client c', m', mem', page)
    ]

-- retrieve_page of mm/migrate_device.c, whose pointer is the result of nmsg_retrieve_pages.
pub retrieve_page : Answers → ℕ → Client → Pages → Memory → Option (Client × Pages × Memory × ℕ)
unfolding init_client fetch
retrieve_page k page_number c m mem =
    let (c', failed) = init_client k.create k.addr 11111 c in
    if not (failed == 0) then some (c, m, mem, 1) else fetch k page_number c' m mem

-- strncpy(dst, src, strlen(src)), which writes no 0 behind the text; what it writes behind the end of
-- dst is left out.
pub strncpy : Content → Content → Content
strncpy dst [] = dst
strncpy [] (b ∷ src) = []
strncpy (a ∷ dst) (b ∷ src) = b ∷ strncpy dst src

-- nmsg_server as nmsg_start_server leaves it.
pub record ServerAddr : Type 0 where
  pub ip_address : Content
  pub port_number : ℕ
  pub thread : Bool

-- `kthread` is what kthread_create answers.
pub start_server : Content → ℕ → ℕ → ServerAddr → ServerAddr × ℕ
unfolding strncpy
start_server ip port kthread s =
    let named = record s { ip_address = strncpy s.ip_address ip; port_number = port } in
    if not (kthread == 0) then (named, kthread) else (record named { thread = true }, 0)

-- The text that a buffer holds: up to its first 0.
unfoldable pub c_string : Content → Content
c_string [] = []
c_string (b ∷ bs) = if b == 0 then [] else b ∷ c_string bs
