-- ===== src/Cpp/Socket.antt =====
-- The class Socket of code/logic/fossil/network/socket.h: an object holds the C struct itself, and may
-- be copied. A method gives its result, what it wrote for its caller, and the object's new struct. A
-- std::string is the list of its bytes, and c_str() gives the string in it.
pub mod Static
pub mod Use
pub mod Program
use fossil_network.Address.{Address}
use fossil_network.Base.{ℕ, Bool, Option, none, some, ℤ, get_or}
use fossil_network.Cstr.{Bytes, c_string}
use fossil_network.Os.{Os}
use fossil_network.Socket.{
  Socket, zero_socket, init, shutdown, create, close, set_blocking, set_reuseaddr,
  get_local_address, get_peer_address, bind, listen, accept, connect, send, receive,
}

-- `memset(&sock_, 0, sizeof(sock_))`
abbrev pub constructed : Socket
constructed = zero_socket

unfoldable pub socket_init : ℤ
socket_init = init

unfoldable pub socket_shutdown : ℤ
socket_shutdown = shutdown

module _ {W : Type 0} (os : Os W) where
  unfoldable pub socket_close : Socket → W → (ℤ × Socket) × W
  socket_close sock w =
      let ((r, sock'), w') = close os (some sock) w in ((r, get_or sock' sock), w')

  -- The object is gone; the state of the system is all that is left.
  unfoldable pub destructed : Socket → W → W
  unfolding socket_close
  destructed sock w = (socket_close sock w).1

  unfoldable pub socket_create : Bytes → Bytes → Socket → W → (ℤ × Socket) × W
  socket_create type family sock w =
      let ((r, sock'), w') = create os (some sock) (c_string type) (c_string family) w in
      ((r, get_or sock' sock), w')

  unfoldable pub socket_set_blocking : Bool → Socket → W → (ℤ × Socket) × W
  socket_set_blocking blocking sock w =
      let ((r, sock'), w') = set_blocking os (some sock) blocking w in ((r, get_or sock' sock), w')

  unfoldable pub socket_set_reuseaddr : Bool → Socket → W → ℤ × W
  socket_set_reuseaddr enabled sock w = set_reuseaddr os (some sock) enabled w

  unfoldable pub socket_get_local_address : Option Address → Socket → W → (ℤ × Option Address) × W
  socket_get_local_address addr sock w = get_local_address os (some sock) addr w

  unfoldable pub socket_get_peer_address : Option Address → Socket → W → (ℤ × Option Address) × W
  socket_get_peer_address addr sock w = get_peer_address os (some sock) addr w

  unfoldable pub socket_bind : Option Address → Socket → W → ℤ × W
  socket_bind addr sock w = bind os (some sock) addr w

  unfoldable pub socket_listen : ℤ → Socket → W → ℤ × W
  socket_listen backlog sock w = listen os (some sock) backlog w

  -- `client` is another object.
  unfoldable pub socket_accept :
      Socket → Option Address → Socket → W → (ℤ × (Socket × Option Address)) × W
  socket_accept client addr sock w =
      let ((r, (client', addr')), w') = accept os (some sock) (some client) addr w in
      ((r, (get_or client' client, addr')), w')

  unfoldable pub socket_connect : Option Address → Socket → W → ℤ × W
  socket_connect addr sock w = connect os (some sock) addr w

  unfoldable pub socket_send : Option Bytes → ℕ → Option ℕ → Socket → W → (ℤ × Option ℕ) × W
  socket_send bytes size sent sock w = send os (some sock) bytes size sent w

  unfoldable pub socket_receive :
      Option Bytes → ℕ → Option ℕ → Socket → W → (ℤ × (Option Bytes × Option ℕ)) × W
  socket_receive buffer size received sock w = receive os (some sock) buffer size received w
