-- ===== src/Cpp/Socket/Use.antt =====
-- The methods of an object of the class Socket, on a system that keeps a ledger: what they open and
-- close, and what they overwrite.
use fossil_network.Address.{Address, is_zero}
use fossil_network.Base.{
  ℕ, ◌+◌, ◌≡◌, ◌<◌, refl, arith, Bool, false, Option, none, some, ℤ, pos, negsuc, ◌==◌,
  if◌then◌else◌,
}
use fossil_network.Cpp.Socket.{
  socket_create, socket_close, socket_set_blocking, socket_set_reuseaddr, socket_get_local_address,
  socket_get_peer_address, socket_bind, socket_listen, socket_accept, socket_connect, socket_send,
  socket_receive,
}
use fossil_network.Cstr.{Bytes, c_string}
use fossil_network.Os.{Os, SockAddr, or_nonblock}
use fossil_network.Os.Ledger.{Ledger, recording, is_fd, count_fd}
use fossil_network.Socket.{
  Socket, create, keep_socket, keep_accepted, accept, new_socket, close, set_blocking,
  set_reuseaddr, get_peer_address, family_from_string, type_from_string,
}
use fossil_network.Socket.Untouched.{
  Untouched, bind-Untouched, listen-Untouched, connect-Untouched, send-Untouched, receive-Untouched,
  get_local_address-Untouched,
}

-- The methods but socket_accept, which takes a second object.
pub data Use : Type 0 where
  creates : Bytes → Bytes → Use
  closes : Use
  blocks : Bool → Use
  reuses : Bool → Use
  asks_local : Option Address → Use
  asks_peer : Option Address → Use
  binds : Option Address → Use
  listens : ℤ → Use
  connects : Option Address → Use
  sends : Option Bytes → ℕ → Option ℕ → Use
  receives : Option Bytes → ℕ → Option ℕ → Use

-- A further socket_create overwrites the descriptor that the object holds.
unfoldable pub lost : ℕ → Use → Socket → ℕ
lost fd (creates type family) sock = is_fd fd sock.handle
lost fd k sock = 0

module _ {W : Type 0} (os : Os W) where
  -- The object and the system behind a method.
  unfoldable pub use_socket : Use → Socket → W → Socket × W
  use_socket (creates type family) sock w =
      let ((_, sock'), w') = socket_create os type family sock w in (sock', w')
  use_socket closes sock w = let ((_, sock'), w') = socket_close os sock w in (sock', w')
  use_socket (blocks blocking) sock w =
      let ((_, sock'), w') = socket_set_blocking os blocking sock w in (sock', w')
  use_socket (reuses enabled) sock w = (sock, (socket_set_reuseaddr os enabled sock w).1)
  use_socket (asks_local addr) sock w = (sock, (socket_get_local_address os addr sock w).1)
  use_socket (asks_peer addr) sock w = (sock, (socket_get_peer_address os addr sock w).1)
  use_socket (binds addr) sock w = (sock, (socket_bind os addr sock w).1)
  use_socket (listens backlog) sock w = (sock, (socket_listen os backlog sock w).1)
  use_socket (connects addr) sock w = (sock, (socket_connect os addr sock w).1)
  use_socket (sends bytes size sent) sock w = (sock, (socket_send os bytes size sent sock w).1)
  use_socket (receives buffer size received) sock w =
      (sock, (socket_receive os buffer size received sock w).1)

module _ {W : Type 0} (os : Os W) (fd : ℕ) (h : 0 < fd) where
  -- What the object, others and closed calls had of a descriptor is what was opened and `m` more.
  abbrev pub Balanced : ℕ → ℕ → Socket × Ledger W → Type 0
  Balanced n m (sock, l) =
      n + is_fd fd sock.handle + count_fd fd l.closed
      ≡ count_fd fd l.opened + count_fd fd l.accepted + m

  untouched :
      (sock : Socket) (l l' : Ledger W) (n m : ℕ)
      → Untouched l l'
      → Balanced n m (sock, l)
      → Balanced (n + 0) m (sock, l')
  untouched sock l l' n m u b = rw (u.opened, u.closed, u.accepted) (omega (arith, b))

  created :
      (type family : Bytes) (sock : Socket) (l : Ledger W) (n m : ℕ)
      → Balanced n m (sock, l)
      → Balanced
          (n + is_fd fd sock.handle)
          m
          (use_socket (recording os) (creates type family) sock l)
  unfolding use_socket socket_create create keep_socket new_socket count_fd is_fd
  created type family sock l n m b =
      go
        (os.socket (family_from_string (c_string family)) (type_from_string (c_string type))
          l.inner)
        refl
    where
      go :
          (r : ℤ × W)
          → os.socket
              (family_from_string (c_string family))
              (type_from_string (c_string type))
              l.inner
            ≡ r
          → Balanced
              (n + is_fd fd sock.handle)
              m
              (use_socket (recording os) (creates type family) sock l)
      go (pos k, w') e = rw e (omega (arith, b))
      go (negsuc k, w') e = rw e (omega (arith, b))

  released :
      (sock : Socket) (l : Ledger W) (n m : ℕ)
      → Balanced n m (sock, l)
      → Balanced (n + 0) m (use_socket (recording os) closes sock l)
  unfolding use_socket socket_close close count_fd is_fd
  released sock l n m b =
      let other : (0 == fd) ≡ false = ground (arith, h) in rw other (omega (arith, b))

  pub use_socket-Balanced :
      (k : Use) (sock : Socket) (l : Ledger W) (n m : ℕ)
      → Balanced n m (sock, l)
      → Balanced (n + lost fd k sock) m (use_socket (recording os) k sock l)
  unfolding use_socket lost socket_set_blocking set_blocking socket_set_reuseaddr set_reuseaddr
      socket_get_local_address socket_get_peer_address get_peer_address socket_bind socket_listen
      socket_connect socket_send socket_receive
  use_socket-Balanced (creates type family) sock l n m b = created type family sock l n m b
  use_socket-Balanced closes sock l n m b = released sock l n m b
  use_socket-Balanced (blocks blocking) sock l n m b = omega (arith, b)
  use_socket-Balanced (reuses enabled) sock l n m b = omega (arith, b)
  use_socket-Balanced (asks_local addr) sock l n m b =
      untouched sock l _ n m (get_local_address-Untouched os (some sock) addr l) b
  use_socket-Balanced (asks_peer none) sock l n m b = omega (arith, b)
  use_socket-Balanced (asks_peer (some addr)) sock l n m b = omega (arith, b)
  use_socket-Balanced (binds addr) sock l n m b =
      untouched sock l _ n m (bind-Untouched os (some sock) addr l) b
  use_socket-Balanced (listens backlog) sock l n m b =
      untouched sock l _ n m (listen-Untouched os (some sock) backlog l) b
  use_socket-Balanced (connects addr) sock l n m b =
      untouched sock l _ n m (connect-Untouched os (some sock) addr l) b
  use_socket-Balanced (sends bytes size sent) sock l n m b =
      untouched sock l _ n m (send-Untouched os (some sock) bytes size sent l) b
  use_socket-Balanced (receives buffer size received) sock l n m b =
      untouched sock l _ n m (receive-Untouched os (some sock) buffer size received l) b

  -- An accept that succeeds overwrites the descriptor of the object that it fills.
  pub socket_accept-Balanced :
      (server client : Socket) (addr : Option Address) (l : Ledger W) (n m : ℕ)
      → Balanced n m (client, l)
      → let ((r, (client', addr')), l') = socket_accept (recording os) client addr server l in
        Balanced (n + (if is_zero r then is_fd fd client.handle else 0)) m (client', l')
  unfolding socket_accept accept keep_accepted count_fd is_fd
  socket_accept-Balanced server client addr l n m b =
      go
        (os.accept server.handle
          (os.set_flags server.handle (or_nonblock (os.get_flags server.handle l.inner)) l.inner))
        refl
    where
      go :
          (r : (ℤ × SockAddr) × W)
          → os.accept server.handle (
              os.set_flags server.handle (or_nonblock (os.get_flags server.handle l.inner)) l.inner)
            ≡ r
          → let ((r, (client', addr')), l') = socket_accept (recording os) client addr server l in
            Balanced (n + (if is_zero r then is_fd fd client.handle else 0)) m (client', l')
      go ((pos k, sa), w') e = rw e (omega (arith, b))
      go ((negsuc k, sa), w') e = rw e (omega (arith, b))
