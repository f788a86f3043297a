-- ===== src/Client.antt =====
-- code/logic/client.c: a client owns a socket, the last error and the addresses of its connection. The
-- state of the system is passed through every call; `calloc` gives memory where `available` says so.
pub mod Life
pub mod Errors
pub mod Session
mod Tests
use fossil_network.Address.{Address, zero_address, is_zero}
use fossil_network.Base.{
  ℕ, Bool, true, false, not, ◌&&◌, ◌||◌, Option, none, some, if◌then◌else◌, ℤ, pos, success,
  failure, get_or,
}
use fossil_network.Cstr.{Bytes, codes, str_eq}
use fossil_network.Os.{Os}
use fossil_network.Socket.{
  Socket, zero_socket, if_given, create as socket_create, close as socket_close,
  connect as socket_connect, send as socket_send, receive as socket_receive,
  get_local_address as socket_get_local_address, set_blocking as socket_set_blocking,
  error_string as socket_error_string,
}

pub record Client : Type 0 where
  pub sock : Socket
  pub last_error : ℤ
  pub connected : Bool
  pub local_addr : Address
  pub remote_addr : Address

abbrev pub zero_client : Client
zero_client = record {
  sock = zero_socket;
  last_error = pos 0;
  connected = false;
  local_addr = zero_address;
  remote_addr = zero_address;
}

-- The guards that client_create and server_create share.
unfoldable pub known_family : Bytes → Bool
known_family family = str_eq family (codes "ipv4") || str_eq family (codes "ipv6")

unfoldable pub known_type : Bytes → Bool
known_type type =
    str_eq type (codes "tcp") || (str_eq type (codes "udp") || str_eq type (codes "raw"))

-- What is done with the result of the socket's creation.
unfoldable pub keep_client : ℤ × Option Socket → Option Client
keep_client (code, none) = none
keep_client (code, some sock) =
    if is_zero code
    then some (record zero_client { sock = sock; connected = false; last_error = pos 0 })
    else none

-- A socket of the struct that a call has changed.
abbrev pub set_sock : Client → Option Socket → Client
set_sock c sock = record c { sock = get_or sock c.sock }

module _ {W : Type 0} (os : Os W) where
  unfoldable pub create : Bool → Bytes → Bytes → W → Option Client × W
  unfolding keep_client
  create available type family w =
      let (r, w') = socket_create os (some zero_socket) type family w in
      if not available || (not (known_family family) || not (known_type type))
      then (none, w)
      else (keep_client r, w')

  -- The struct is freed; the state of the system is all that is left.
  unfoldable pub destroy : Option Client → W → W
  destroy none w = w
  destroy (some c) w = (socket_close os (some c.sock) w).1

  -- The part behind a successful call of the socket's connect.
  unfoldable pub connected_to : Client → Address → W → Client × W
  connected_to c addr w =
      let ((r, local), w') = socket_get_local_address os (some c.sock) (some c.local_addr) w in
      (
        record c {
          connected = true;
          remote_addr = addr;
          local_addr = get_or local c.local_addr;
          last_error = if is_zero r then c.last_error else os.errno w';
        },
        w',
      )

  -- `client->last_error = fossil_net_socket_error_last()`
  abbrev pub with_error : Client → W → Client
  with_error c w = record c { last_error = os.errno w }

  unfoldable pub connect : Option Client → Option Address → W → (ℤ × Option Client) × W
  unfolding connected_to
  connect (some c) (some addr) w =
      let (ret, w') = socket_connect os (some c.sock) (some addr) w in
      let (c', w'') = connected_to c addr w' in
      if is_zero ret then ((success, some c'), w'') else ((failure, some (with_error c w')), w')
  connect c _ w = ((failure, c), w)

  unfoldable pub disconnect : Option Client → W → (ℤ × Option Client) × W
  disconnect none w = ((failure, none), w)
  disconnect (some c) w =
      let ((ret, sock), w') = socket_close os (some c.sock) w in
      let c' = set_sock c sock in
      ((ret, some (if is_zero ret then record c' { connected = false } else c')), w')

  unfoldable pub send :
      Option Client → Option Bytes → ℕ → Option ℕ → W → ((ℤ × Option ℕ) × Option Client) × W
  send (some c) (some bytes) size sent w =
      let ((ret, sent'), w') = socket_send os (some c.sock) (some bytes) size sent w in
      if is_zero ret
      then (((success, sent'), some c), w')
      else (((failure, if_given sent' 0), some (with_error c w')), w')
  send c _ size sent w = (((failure, sent), c), w)

  unfoldable pub receive :
      Option Client
      → Option Bytes
      → ℕ
      → Option ℕ
      → W
      → ((ℤ × (Option Bytes × Option ℕ)) × Option Client) × W
  receive (some c) (some buffer) size received w =
      let ((ret, (buffer', received')), w') =
        socket_receive os (some c.sock) (some buffer) size received w in
      if is_zero ret
      then (((success, (buffer', received')), some c), w')
      else (((failure, (buffer', if_given received' 0)), some (with_error c w')), w')
  receive c buffer size received w = (((failure, (buffer, received)), c), w)

  unfoldable pub get_local_address : Option Client → Option Address → W → (ℤ × Option Address) × W
  get_local_address (some c) (some addr) w = socket_get_local_address os (some c.sock) (some addr) w
  get_local_address c addr w = ((failure, addr), w)

  unfoldable pub set_blocking : Option Client → Bool → W → (ℤ × Option Client) × W
  set_blocking none blocking w = ((failure, none), w)
  set_blocking (some c) blocking w =
      let ((ret, sock), w') = socket_set_blocking os (some c.sock) blocking w in
      let c' = set_sock c sock in
      if is_zero ret
      then ((success, some (record c' { sock = record c'.sock { blocking = blocking } })), w')
      else ((failure, some (with_error c' w')), w')

unfoldable pub error_last : Option Client → ℤ
error_last none = pos 0
error_last (some c) = c.last_error

unfoldable pub get_remote_address : Option Client → Option Address → ℤ × Option Address
get_remote_address (some c) (some addr) = (success, some c.remote_addr)
get_remote_address c addr = (failure, addr)

unfoldable pub error_string : (ℤ → Bytes) → ℤ → Bytes
error_string strerror err = socket_error_string strerror err
