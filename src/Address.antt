-- ===== src/Address.antt =====
-- The addresses of code/logic/socket.c: fossil_net_address_t, fossil_net_socket_address_parse,
-- _address_to_string, _get_local_address, _get_peer_address and _resolve. The calls of the system
-- are those of `Os`.
pub mod Text
mod Tests
use fossil_network.Base.{
  ℕ, suc, ◌+◌, Bool, true, false, [], ◌∷◌, ◌++◌, Option, none, some, ◌==◌, leb, if◌then◌else◌, ◌&&◌,
  length, set, ℤ, pos, success, failure,
}
use fossil_network.Cstr.{Bytes, codes, c_string, str_eq, strncpy, strcpy, snprintf_at, zeroed}
use fossil_network.Cstr.Decimal.{decimal}
use fossil_network.Os.{af_inet, af_inet6, Os, SockAddr, HostEnt, htons}

pub record Address : Type 0 where
  pub ip : Bytes
  pub port : ℕ
  pub addr : Bytes
  pub family : Bytes

-- `memset(addr, 0, sizeof(*addr))`
abbrev pub zero_address : Address
zero_address = record { ip = zeroed 64; port = 0; addr = zeroed 64; family = zeroed 32 }

abbrev pub is_some {ℓ} : {A : Type ℓ} → Option A → Bool
is_some none = false
is_some (some a) = true

-- The address between the two attempts of address_parse.
unfoldable pub address_start : Bytes → ℕ → Address
address_start ip port = record zero_address { ip = strncpy (zeroed 64) ip 63; port = port }

abbrev pub with_family : Address → Bytes → Address
with_family a family = record a { family = strncpy a.family family 31 }

-- `addr->addr` where it is not empty, else `addr->ip`.
unfoldable pub ip_text : Address → Bytes
ip_text a = if str_eq (c_string a.addr) [] then c_string a.ip else c_string a.addr

-- snprintf with its check.
unfoldable pub print_checked : Bytes → ℕ → Bytes → ℤ × Bytes
print_checked buffer size text =
    (if leb size (length text) then failure else success, snprintf_at buffer 0 size text)

unfoldable pub address_to_string : Option Address → Option Bytes → ℕ → ℤ × Option Bytes
unfolding print_checked
address_to_string (some a) (some buffer) (suc n) =
    if str_eq (c_string a.family) (codes "ipv4")
    then (let (code, buffer') = print_checked buffer (suc n) (ip_text a ++ b':' ∷ decimal a.port) in
        (code, some buffer'))
    else if str_eq (c_string a.family) (codes "ipv6")
    then (let (code, buffer') =
          print_checked buffer (suc n) (b'[' ∷ (ip_text a ++ (codes "]:" ++ decimal a.port))) in
        (code, some buffer'))
    else (failure, some buffer)
address_to_string _ buffer _ = (failure, buffer)

abbrev pub is_zero : ℤ → Bool
is_zero (pos n) = n == 0
is_zero _ = false

-- The address that resolve leaves for a text that is an address itself.
unfoldable pub literal_address : Bytes → Bytes → Address
literal_address hostname family =
    with_family
      (record zero_address {
        ip = strncpy (zeroed 64) hostname 63;
        addr = strncpy (zeroed 64) hostname 63;
      })
      family

module _ {W : Type 0} (os : Os W) where
  unfoldable pub address_parse : Option Address → Option Bytes → ℕ → ℤ × Option Address
  unfolding address_start
  address_parse (some addr) (some ip) port =
      let a = address_start ip port in
      if is_some (os.inet_pton af_inet ip)
      then (success, some (with_family a (codes "ipv4")))
      else if is_some (os.inet_pton af_inet6 ip)
      then (success, some (with_family a (codes "ipv6")))
      else (failure, some a)
  address_parse addr _ port = (failure, addr)

  -- What is read from the address that getsockname and getpeername give.
  unfoldable pub named_address : SockAddr → ℤ × Address
  named_address sa =
      let text = os.inet_ntop sa.family sa.address in
      let a = record zero_address {
        ip = strcpy (zeroed 64) text;
        addr = strcpy (zeroed 64) text;
        port = htons sa.port;
      } in
      if sa.family == af_inet
      then (success, with_family a (codes "ipv4"))
      else if sa.family == af_inet6
      then (success, with_family a (codes "ipv6"))
      else (failure, zero_address)

  -- The common part of both: an answer of the system, and the address that it is written to.
  unfoldable pub read_name : ℤ × SockAddr → Address → ℤ × Option Address
  unfolding named_address
  read_name (r, sa) addr =
      let (code, a) = named_address sa in if is_zero r then (code, some a) else (failure, some addr)

  -- The answer of gethostbyname.
  unfoldable pub found_host : Option HostEnt → ℤ × Address
  found_host none = (failure, zero_address)
  found_host (some he) = elim he.first [
    | none ↦ (failure, zero_address)
    | some address ↦
        let ip = strcpy (zeroed 64) (os.inet_ntop af_inet address) in
        if (he.addrtype == af_inet) && (he.length == 4)
        then (
          success,
          with_family
              (record zero_address {
                ip = ip;
                addr = set (strncpy (zeroed 64) (c_string ip) 63) 63 0;
              })
              (codes "ipv4"),
        )
        else (failure, zero_address)
  ]

  unfoldable pub resolve : Option Bytes → Option Address → W → (ℤ × Option Address) × W
  unfolding literal_address found_host
  resolve (some hostname) (some out) w =
      let (answer, w') = os.gethostbyname hostname w in
      let (code, a) = found_host answer in
      if is_some (os.inet_pton af_inet hostname)
      then ((success, some (literal_address hostname (codes "ipv4"))), w)
      else if is_some (os.inet_pton af_inet6 hostname)
      then ((success, some (literal_address hostname (codes "ipv6"))), w)
      else ((code, some a), w')
  resolve hostname out w = ((failure, out), w)
