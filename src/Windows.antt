-- ===== src/Windows.antt =====
-- What code/logic/socket.c does on Windows where it differs from POSIX: the branches behind _WIN32 of
-- the calls that start Winsock, create, close and accept, set the mode, sleep, and read the MAC address.
pub mod Mode
mod Tests
use mathlib.Core.Option
use fossil_network.Address.{Address, is_zero}
use fossil_network.Base.{
  ℕ, Bool, true, false, not, ◌||◌, Option, none, some, ℤ, pos, negsuc, success, failure,
  if◌then◌else◌,
}
use fossil_network.Cstr.{Bytes, memcpy, strcpy}
use fossil_network.Mac.{Mac, format_mac}
use fossil_network.Os.{Os, SockAddr}
use fossil_network.Socket.{
  Socket, zero_socket, new_socket, family_from_string, type_from_string, accepted_address,
}

-- Winsock's own calls, beside those that both systems have; INVALID_SOCKET is `none`. `ioctlsocket` is
-- called with FIONBIO alone, where 1 stands for a socket that does not block.
pub record Winsock (W : Type 0) : Type 0 where
  pub calls : Os W
  pub last_error : W → ℤ
  pub startup : W → ℤ × W
  pub cleanup : W → W
  pub socket : ℕ → ℕ → W → Option ℕ × W
  pub closesocket : ℤ → W → W
  pub ioctlsocket : ℤ → ℕ → W → W
  pub accept : ℤ → W → (Option ℕ × SockAddr) × W
  pub sleep_ms : ℕ → W → W

-- The handle that INVALID_SOCKET becomes.
abbrev pub invalid : ℤ
invalid = negsuc 0

-- `blocking ? 0 : 1`
abbrev pub mode_of : Bool → ℕ
mode_of blocking = if blocking then 0 else 1

unfoldable pub keep_socket : Option ℕ → Bytes → Bytes → ℤ × Socket
keep_socket none type family = (failure, record zero_socket { handle = invalid })
keep_socket (some fd) type family = (success, new_socket (pos fd) type family)

module _ {W : Type 0} (os : Winsock W) where
  unfoldable pub init : W → ℤ × W
  init w = let (r, w') = os.startup w in (if is_zero r then success else failure, w')

  unfoldable pub shutdown : W → ℤ × W
  shutdown w = (success, os.cleanup w)

  unfoldable pub error_last : W → ℤ
  error_last w = os.last_error w

  unfoldable pub create : Option Socket → Bytes → Bytes → W → (ℤ × Option Socket) × W
  unfolding keep_socket
  create none type family w = ((failure, none), w)
  create (some sock) type family w =
      let (fd, w') = os.socket (family_from_string family) (type_from_string type) w in
      let (code, sock') = keep_socket fd type family in ((code, some sock'), w')

  unfoldable pub close : Option Socket → W → (ℤ × Option Socket) × W
  close none w = ((failure, none), w)
  close (some sock) w =
      ((success, some (record sock { handle = pos 0 })), os.closesocket sock.handle w)

  unfoldable pub set_blocking : Option Socket → Bool → W → (ℤ × Option Socket) × W
  set_blocking none blocking w = ((failure, none), w)
  set_blocking (some sock) blocking w = (
    (success, some (record sock { blocking = blocking })),
    os.ioctlsocket sock.handle (mode_of blocking) w,
  )

  -- The part behind the call of accept.
  unfoldable pub keep_accepted :
      Option ℕ × SockAddr → Socket → Option Address → ℤ × (Option Socket × Option Address)
  keep_accepted (none, sa) client addr = (failure, (some client, addr))
  keep_accepted (some s, sa) client addr = (
    success,
    (some (record client { handle = pos s }), Option.map (λ _. accepted_address os.calls sa) addr),
  )

  unfoldable pub accept :
      Option Socket
      → Option Socket
      → Option Address
      → W
      → (ℤ × (Option Socket × Option Address)) × W
  unfolding keep_accepted
  accept (some server) (some client) addr w =
      let w1 = os.ioctlsocket server.handle 1 w in
      let (s, w2) = os.accept server.handle w1 in
      (keep_accepted s client addr, os.ioctlsocket server.handle (mode_of server.blocking) w2)
  accept _ client addr w = ((failure, (client, addr)), w)

  unfoldable pub sleep : ℕ → W → ℤ × W
  sleep ms w = (success, os.sleep_ms ms w)

-- The first argument is whether GetAdaptersAddresses asks for a buffer, the second the physical address
-- of the first adapter that it then puts there, `none` where it fails.
unfoldable pub mac_get : Bool → Option Bytes → Option Mac → ℤ × Option Mac
mac_get asks first none = (failure, none)
mac_get asks none (some mac) = (failure, some mac)
mac_get asks (some address) (some mac) =
    if not asks
    then (failure, some mac)
    else (let bytes = memcpy mac.bytes address 6 in
        (success, some (record { bytes = bytes; string = strcpy mac.string (format_mac bytes) })))
