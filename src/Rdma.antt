-- ===== src/Rdma.antt =====
-- mm/nmsg_rdma.h: the states of a connection and the message, and what both sides share: the events
-- of the connection manager, the completions of the queue, and the network byte order of a
-- little-endian host.
pub mod ByteOrder
pub mod Server
pub mod Setup
pub mod Client
pub mod Session
pub mod Handshake
pub mod Fixtures
mod Examples
use rshm_hmm.Base.{
  ℕ, ◌+◌, ◌*◌, ◌/◌, ◌%◌, leb, Bool, ◌≡◌, refl, ◌⊎◌, inl, inr, List, [], ◌∷◌, if◌then◌else◌,
}

pub data NmsgState : Type 0 where
  idle connect_request addr_resolved route_resolved connected : NmsgState
  rdma_read_adv rdma_read_complete rdma_write_adv rdma_write_complete error : NmsgState

-- The number of an enumerator.
abbrev pub value : NmsgState → ℕ
value idle = 1
value connect_request = 2
value addr_resolved = 3
value route_resolved = 4
value connected = 5
value rdma_read_adv = 6
value rdma_read_complete = 7
value rdma_write_adv = 8
value rdma_write_complete = 9
value error = 10

-- The fields of struct nmsg_data that the code reads and writes.
pub record NmsgData : Type 0 where
  pub buf : ℕ
  pub rkey : ℕ
  pub size : ℕ

-- sizeof(struct nmsg_data): five 64-bit and three 32-bit fields, padded to a multiple of 8.
abbrev pub sizeof_nmsg_data : ℕ
sizeof_nmsg_data = 56

pub data CmEvent : Type 0 where
  addr_resolved route_resolved connect_request established : CmEvent
  addr_error route_error connect_error unreachable rejected : CmEvent
  disconnected device_removal other : CmEvent

pub data Opcode : Type 0 where
  send rdma_read recv unexpected : Opcode

pub data Status : Type 0 where
  success flush_err failure : Status

pub Status-cases :
    (st : Status) → (st ≡ Status.success) ⊎ (st ≡ Status.flush_err) ⊎ (st ≡ Status.failure)
Status-cases Status.success = inl refl
Status-cases Status.flush_err = inr (inl refl)
Status-cases Status.failure = inr (inr refl)

-- A work completion, with what a received message puts into recv_buf, the bytes that an RDMA read has
-- brought, and what ib_post_recv answers.
pub record Completion : Type 0 where
  pub status : Status
  pub opcode : Opcode
  pub byte_len : ℕ
  pub received : NmsgData
  pub read : ℕ → ℕ
  pub post_recv : ℕ

-- htonl and ntohl
unfoldable pub swap32 : ℕ → ℕ
swap32 x = x % 256 * 16777216 + x / 256 % 256 * 65536 + x / 65536 % 256 * 256 + x / 16777216 % 256

-- htonll and ntohll: the halves are swapped, and their bytes
unfoldable pub swap64 : ℕ → ℕ
swap64 x = swap32 (x % 4294967296) * 4294967296 + swap32 (x / 4294967296)

pub data Event : Type 0 where
  cm : CmEvent → ℕ → ℕ → Event
  cq : List Completion → ℕ → Event

-- wait_event_interruptible(cb->sem, cb->state >= st) of a side with this state and these handlers,
-- and the events that are left. Where the events end, a signal ends the wait.
unfoldable pub wait_event :
    {S : Type 0} → (S → NmsgState) → (Event → S → S) → NmsgState → List Event → S → S × List Event
wait_event state handle st [] s = (s, [])
wait_event state handle st (e ∷ es) s =
    let rest = wait_event state handle st es (handle e s) in
    if leb (value st) (value (state s)) then (s, e ∷ es) else rest
