-- ===== src/Os.antt =====
-- The calls of the operating system that code/logic/socket.c makes on POSIX, as a record over the
-- state of the system, and the constants and structs that it passes to them (Linux values).
pub mod Demo
pub mod Ledger
use fossil_network.Base.{
  ℕ, ◌+◌, ◌-◌, ◌*◌, ◌/◌, ◌%◌, Bool, Option, ◌==◌, if◌then◌else◌, ℤ, pos, negsuc,
}
use fossil_network.Cstr.{Bytes}

abbrev pub af_unspec : ℕ
af_unspec = 0

abbrev pub af_inet : ℕ
af_inet = 2

abbrev pub af_inet6 : ℕ
af_inet6 = 10

abbrev pub sock_stream : ℕ
sock_stream = 1

abbrev pub sock_dgram : ℕ
sock_dgram = 2

abbrev pub sock_raw : ℕ
sock_raw = 3

-- A `struct sockaddr_in` or `sockaddr_in6`: the family, the port in network byte order, the bytes of
-- the address, and the flow information and the scope of an IPv6 address, which are 0 for IPv4.
pub record SockAddr : Type 0 where
  pub family : ℕ
  pub port : ℕ
  pub address : Bytes
  pub flowinfo : ℕ
  pub scope_id : ℕ

-- An address whose other members are cleared.
abbrev pub sockaddr : ℕ → ℕ → Bytes → SockAddr
sockaddr family port address = record {
  family = family;
  port = port;
  address = address;
  flowinfo = 0;
  scope_id = 0;
}

-- `htons` and `ntohs` on a machine that stores the low byte first.
unfoldable pub htons : ℕ → ℕ
htons p = p % 256 * 256 + p / 256 % 256

-- The bit `O_NONBLOCK`, 2 ^ 11, in the bits of a number.
unfoldable pub has_nonblock : ℕ → Bool
has_nonblock n = n / 2048 % 2 == 1

unfoldable pub with_bit : ℕ → ℕ
unfolding has_nonblock
with_bit n = if has_nonblock n then n else n + 2048

unfoldable pub without_bit : ℕ → ℕ
unfolding has_nonblock
without_bit n = if has_nonblock n then n - 2048 else n

-- `flags | O_NONBLOCK` on an int in two's complement
unfoldable pub or_nonblock : ℤ → ℤ
unfolding with_bit without_bit
or_nonblock (pos n) = pos (with_bit n)
or_nonblock (negsuc n) = negsuc (without_bit n)

-- `flags & ~O_NONBLOCK`
unfoldable pub and_blocking : ℤ → ℤ
unfolding with_bit without_bit
and_blocking (pos n) = pos (without_bit n)
and_blocking (negsuc n) = negsuc (with_bit n)

-- The answer of `gethostbyname`: the family, the length of an address, and the first address of the
-- list, none where the list is empty.
pub record HostEnt : Type 0 where
  pub addrtype : ℕ
  pub length : ℕ
  pub first : Option Bytes

-- `W` is the state of the system. The calls take their descriptors as ints; `inet_pton` gives the
-- bytes of the address where it returns 1, and `inet_ntop` the text that it writes.
pub record Os (W : Type 0) : Type 0 where
  pub errno : W → ℤ
  pub socket : ℕ → ℕ → W → ℤ × W
  pub close : ℤ → W → W
  pub get_flags : ℤ → W → ℤ
  pub set_flags : ℤ → ℤ → W → W
  pub bind : ℤ → SockAddr → W → ℤ × W
  pub listen : ℤ → ℤ → W → ℤ × W
  pub accept : ℤ → W → (ℤ × SockAddr) × W
  pub connect : ℤ → SockAddr → W → ℤ × W
  pub send : ℤ → Bytes → W → ℤ × W
  pub recv : ℤ → ℕ → W → (ℤ × Bytes) × W
  pub set_reuseaddr : ℤ → ℕ → W → ℤ × W
  pub getsockname : ℤ → W → (ℤ × SockAddr) × W
  pub getpeername : ℤ → W → (ℤ × SockAddr) × W
  pub sleep : ℕ → W → W
  pub gethostname : ℕ → W → (ℤ × Bytes) × W
  pub gethostbyname : Bytes → W → Option HostEnt × W
  pub inet_pton : ℕ → Bytes → Option Bytes
  pub inet_ntop : ℕ → Bytes → Bytes
