-- ===== src/Socket.antt =====
-- The sockets of code/logic/socket.c: fossil_net_socket_t and the calls that create, close, bind,
-- connect and use one, on POSIX. Every call of the system is one of `Os`, in the order of the code.
pub mod Create
pub mod Untouched
pub mod Accept
pub mod Connect
pub mod Resolve
pub mod Lookup
pub mod Hostname
mod Tests
use mathlib.Core.Option
use fossil_network.Address.{Address, zero_address, with_family, read_name, is_zero}
use fossil_network.Base.{
  ℕ, zero, suc, ◌+◌, ◌*◌, ◌%◌, ◌^◌, Bool, true, false, [], Option, none, some, if◌then◌else◌, ℤ,
  pos, negsuc, success, failure, length, take, set, ◌==◌, ◌-◌,
}
use fossil_network.Cstr.{Bytes, codes, c_string, str_eq, strncpy, strcpy, zeroed, memcpy}
use fossil_network.Os.{
  sockaddr, af_unspec, af_inet, af_inet6, sock_stream, sock_dgram, sock_raw, Os, SockAddr, htons,
  or_nonblock, and_blocking,
}

pub record Socket : Type 0 where
  pub handle : ℤ
  pub id : Bytes
  pub type : Bytes
  pub family : Bytes
  pub blocking : Bool

-- `memset(sock, 0, sizeof(*sock))`
abbrev pub zero_socket : Socket
zero_socket = record {
  handle = pos 0;
  id = zeroed 64;
  type = zeroed 32;
  family = zeroed 32;
  blocking = false;
}

unfoldable pub family_from_string : Bytes → ℕ
family_from_string family =
    if str_eq family (codes "ipv4")
    then af_inet
    else if str_eq family (codes "ipv6")
    then af_inet6
    else af_unspec

unfoldable pub type_from_string : Bytes → ℕ
type_from_string type =
    if str_eq type (codes "tcp")
    then sock_stream
    else if str_eq type (codes "udp")
    then sock_dgram
    else if str_eq type (codes "raw")
    then sock_raw
    else sock_stream

-- The socket that is created for a descriptor.
unfoldable pub new_socket : ℤ → Bytes → Bytes → Socket
new_socket fd type family = record zero_socket {
  handle = fd;
  type = strncpy (zeroed 32) type 31;
  family = strncpy (zeroed 32) family 31;
  blocking = true;
}

-- `s < 0 ? 0 : (uint32_t)s` and `s < 0 ? -1 : 0`
abbrev pub transferred : ℤ → ℕ
transferred (pos n) = n % 2 ^ 32
transferred (negsuc n) = 0

abbrev pub checked : ℤ → ℤ
checked (pos n) = success
checked (negsuc n) = failure

abbrev pub if_given : Option ℕ → ℕ → Option ℕ
if_given none n = none
if_given (some _) n = some n

unfoldable pub keep_socket : ℤ → Bytes → Bytes → ℤ × Socket
unfolding new_socket
keep_socket (pos fd) type family = (success, new_socket (pos fd) type family)
keep_socket (negsuc n) type family = (failure, record zero_socket { handle = negsuc n })

-- fossil_net_socket_init and fossil_net_socket_shutdown, which do nothing on POSIX.
unfoldable pub init : ℤ
init = success

unfoldable pub shutdown : ℤ
shutdown = success

-- `strerror` is the C library's.
unfoldable pub error_string : (ℤ → Bytes) → ℤ → Bytes
error_string strerror err = strerror err

module _ {W : Type 0} (os : Os W) where
  unfoldable pub create : Option Socket → Bytes → Bytes → W → (ℤ × Option Socket) × W
  unfolding keep_socket family_from_string type_from_string
  create none type family w = ((failure, none), w)
  create (some sock) type family w =
      let (fd, w') = os.socket (family_from_string family) (type_from_string type) w in
      let (code, sock') = keep_socket fd type family in ((code, some sock'), w')

  unfoldable pub close : Option Socket → W → (ℤ × Option Socket) × W
  close none w = ((failure, none), w)
  close (some sock) w = ((success, some (record sock { handle = pos 0 })), os.close sock.handle w)

  unfoldable pub set_blocking : Option Socket → Bool → W → (ℤ × Option Socket) × W
  set_blocking none blocking w = ((failure, none), w)
  set_blocking (some sock) blocking w =
      let flags = os.get_flags sock.handle w in
      let flags' = if blocking then and_blocking flags else or_nonblock flags in
      ((success, some (record sock { blocking = blocking })), os.set_flags sock.handle flags' w)

  -- `inet_pton` into memory that is zero: a text that is no address leaves it so.
  unfoldable pub pton_or_zero : ℕ → Bytes → ℕ → Bytes
  pton_or_zero af text size = elim (os.inet_pton af text) [
    | none ↦ zeroed size
    | some address ↦ address
  ]

  -- The address that bind and connect pass to the system; none for another family.
  unfoldable pub socket_address : Address → Option SockAddr
  unfolding pton_or_zero
  socket_address addr =
      if str_eq (c_string addr.family) (codes "ipv4")
      then some (sockaddr af_inet (htons addr.port) (pton_or_zero af_inet (c_string addr.ip) 4))
      else if str_eq (c_string addr.family) (codes "ipv6")
      then some (sockaddr af_inet6 (htons addr.port) (pton_or_zero af_inet6 (c_string addr.ip) 16))
      else none

  unfoldable pub bind_to : Socket → Option SockAddr → W → ℤ × W
  bind_to sock none w = (failure, w)
  bind_to sock (some sa) w = os.bind sock.handle sa w

  unfoldable pub bind : Option Socket → Option Address → W → ℤ × W
  unfolding bind_to
  bind (some sock) (some addr) w = bind_to sock (socket_address addr) w
  bind _ _ w = (failure, w)

  unfoldable pub listen : Option Socket → ℤ → W → ℤ × W
  listen none backlog w = (failure, w)
  listen (some sock) backlog w = os.listen sock.handle backlog w

  -- What accept writes to the caller's address.
  unfoldable pub accepted_address : SockAddr → Address
  accepted_address sa =
      let a = record zero_address {
        ip = strcpy (zeroed 64) (os.inet_ntop sa.family sa.address);
        port = htons sa.port;
      } in
      if sa.family == af_inet
      then with_family a (codes "ipv4")
      else if sa.family == af_inet6
      then with_family a (codes "ipv6")
      else zero_address

  -- The part behind the call of accept.
  unfoldable pub keep_accepted :
      ℤ × SockAddr → Socket → Option Address → ℤ × (Option Socket × Option Address)
  keep_accepted (negsuc n, sa) client addr = (failure, (some client, addr))
  keep_accepted (pos s, sa) client addr = (
    success,
    (some (record client { handle = pos s }), Option.map (λ _. accepted_address sa) addr),
  )

  -- The server's socket is only read.
  unfoldable pub accept :
      Option Socket
      → Option Socket
      → Option Address
      → W
      → (ℤ × (Option Socket × Option Address)) × W
  unfolding keep_accepted
  accept (some server) (some client) addr w =
      let flags = os.get_flags server.handle w in
      let w1 = os.set_flags server.handle (or_nonblock flags) w in
      let (s, w2) = os.accept server.handle w1 in
      (keep_accepted s client addr, os.set_flags server.handle flags w2)
  accept _ client addr w = ((failure, (client, addr)), w)

  unfoldable pub connect_to : Socket → Option SockAddr → W → ℤ × W
  connect_to sock none w = (failure, w)
  connect_to sock (some sa) w = os.connect sock.handle sa w

  unfoldable pub connect : Option Socket → Option Address → W → ℤ × W
  unfolding connect_to
  connect (some sock) (some addr) w = connect_to sock (socket_address addr) w
  connect _ _ w = (failure, w)

  unfoldable pub send : Option Socket → Option Bytes → ℕ → Option ℕ → W → (ℤ × Option ℕ) × W
  send (some sock) (some bytes) size sent w =
      let (s, w') = os.send sock.handle (take size bytes) w in
      ((checked s, if_given sent (transferred s)), w')
  send _ _ size sent w = ((failure, sent), w)

  -- The system writes no more than `size` bytes.
  unfoldable pub receive :
      Option Socket → Option Bytes → ℕ → Option ℕ → W → (ℤ × (Option Bytes × Option ℕ)) × W
  receive (some sock) (some buffer) size received w =
      let ((r, bytes), w') = os.recv sock.handle size w in
      let bytes' = take size bytes in
      (
        (
          checked r,
          (some (memcpy buffer bytes' (length bytes')), if_given received (transferred r)),
        ),
        w',
      )
  receive _ buffer size received w = ((failure, (buffer, received)), w)

  -- `setsockopt(...) != 0`
  unfoldable pub set_reuseaddr : Option Socket → Bool → W → ℤ × W
  set_reuseaddr none enabled w = (failure, w)
  set_reuseaddr (some sock) enabled w =
      let (r, w') = os.set_reuseaddr sock.handle (if enabled then 1 else 0) w in
      (if is_zero r then success else failure, w')

  unfoldable pub get_local_address : Option Socket → Option Address → W → (ℤ × Option Address) × W
  get_local_address (some sock) (some addr) w =
      let (name, w') = os.getsockname sock.handle w in (read_name os name addr, w')
  get_local_address _ addr w = ((failure, addr), w)

  unfoldable pub get_peer_address : Option Socket → Option Address → W → (ℤ × Option Address) × W
  get_peer_address (some sock) (some addr) w =
      let (name, w') = os.getpeername sock.handle w in (read_name os name addr, w')
  get_peer_address _ addr w = ((failure, addr), w)

  -- `sleep(ms*1000)` in 32 bits, a number of seconds
  unfoldable pub sleep : ℕ → W → ℤ × W
  sleep ms w = (success, os.sleep (ms * 1000 % 2 ^ 32) w)

  -- `none` where the size is 0 and gethostname accepts it: the index `size - 1` wraps around to
  -- 2 ^ 32 - 1, and the NUL is written outside the buffer.
  unfoldable pub hostname : Option Bytes → ℕ → W → Option ((ℤ × Option Bytes) × W)
  hostname none size w = some ((failure, none), w)
  hostname (some buffer) size w =
      let ((r, name), w') = os.gethostname size w in
      let name' = take size name in
      let buffer' = memcpy buffer name' (length name') in
      if is_zero r
      then if size == 0 then none else some ((success, some (set buffer' (size - 1) 0)), w')
      else some ((failure, some buffer'), w')

  unfoldable pub error_last : W → ℤ
  error_last w = os.errno w
