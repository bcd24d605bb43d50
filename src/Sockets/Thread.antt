-- ===== src/Sockets/Thread.antt =====
-- The thread of the server of mm/nmsg.c: it ends when it is told to, with what it took given back,
-- and nmsg_stop_server gives it back again.
use rshm_hmm.Base.{ℕ, ◌+◌, ◌≡◌}
use rshm_hmm.Sockets.{Listener}

-- So many sockets and buffers were given back too often.
abbrev pub Over : Listener → Listener → ℕ → Type 0
Over l l' n =
    (l'.socks_given + l.socks ≡ l'.socks + l.socks_given + n)
    × (l'.bufs_given + l.bufs ≡ l'.bufs + l.bufs_given + n)

-- What the rounds of the server leave alone.
abbrev Kept : Listener → Listener → Type 0
Kept l l' =
    (l'.socks ≡ l.socks)
    × (l'.socks_given ≡ l.socks_given)
    × (l'.bufs ≡ l.bufs)
    × (l'.bufs_given ≡ l.bufs_given)
