-- ===== src/Server.antt =====
-- code/logic/server.c: a server owns a socket that is bound to its address.
pub mod Create
pub mod Meet
mod Tests
use fossil_network.Address.{Address, zero_address, is_zero, address_parse}
use fossil_network.Base.{
  ℕ, Bool, not, ◌||◌, Option, none, some, if◌then◌else◌, ℤ, success, failure, set, get_or,
}
use fossil_network.Client.{known_family, known_type}
use fossil_network.Cstr.{Bytes, codes, str_eq, strncpy, zeroed}
use fossil_network.Os.{Os}
use fossil_network.Socket.{
  Socket, zero_socket, create as socket_create, close as socket_close, bind as socket_bind,
  listen as socket_listen, accept as socket_accept, set_blocking as socket_set_blocking,
}

pub record Server : Type 0 where
  pub sock : Socket
  pub addr : Address

-- The address where the caller's is NULL.
unfoldable pub any_address : Bytes → ℕ → Address
any_address family port =
    let a = record zero_address { family = strncpy (zeroed 32) family 31; port = port } in
    if str_eq family (codes "ipv4")
    then record a { addr = strncpy (zeroed 64) (codes "0.0.0.0") 63 }
    else if str_eq family (codes "ipv6")
    then record a { addr = strncpy (zeroed 64) (codes "::") 63 }
    else record a { ip = set (zeroed 64) 0 0 }

-- What the result of the parse leaves to be done.
unfoldable pub keep_address : ℤ × Option Address → Option Address
keep_address (code, none) = none
keep_address (code, some a) = if is_zero code then some a else none

module _ {W : Type 0} (os : Os W) where
  -- none where the function returns NULL
  unfoldable pub server_address : Bytes → Option Bytes → ℕ → Option Address
  unfolding any_address keep_address
  server_address family none port = some (any_address family port)
  server_address family (some addr) port = keep_address (
      address_parse os (some (record zero_address { family = strncpy (zeroed 32) family 31 }))
        (some addr) port)

  unfoldable pub bind_server : Address → (ℤ × Option Socket) × W → Option Server × W
  bind_server addr ((code, none), w) = (none, w)
  bind_server addr ((code, some sock), w) =
      let (r, w') = socket_bind os (some sock) (some addr) w in
      let w'' = (socket_close os (some sock) w').1 in
      if is_zero code
      then if is_zero r then (some (record { sock = sock; addr = addr }), w') else (none, w'')
      else (none, w)

  unfoldable pub create_at : Option Address → Bytes → Bytes → W → Option Server × W
  unfolding bind_server
  create_at none type family w = (none, w)
  create_at (some addr) type family w =
      bind_server addr (socket_create os (some zero_socket) type family w)

  unfoldable pub create : Bool → Bytes → Bytes → Option Bytes → ℕ → W → Option Server × W
  unfolding server_address create_at
  create available type family addr port w =
      if not available || (not (known_family family) || not (known_type type))
      then (none, w)
      else create_at (server_address family addr port) type family w

  unfoldable pub destroy : Option Server → W → W
  destroy none w = w
  destroy (some s) w = (socket_close os (some s.sock) w).1

  unfoldable pub listen : Option Server → ℤ → W → ℤ × W
  listen none backlog w = (failure, w)
  listen (some s) backlog w = socket_listen os (some s.sock) backlog w

  unfoldable pub accept :
      Option Server
      → Option Socket
      → Option Address
      → W
      → (ℤ × (Option Socket × Option Address)) × W
  accept (some s) (some client_sock) client_addr w =
      socket_accept os (some s.sock) (some client_sock) client_addr w
  accept s client_sock client_addr w = ((failure, (client_sock, client_addr)), w)

  unfoldable pub set_blocking : Option Server → Bool → W → (ℤ × Option Server) × W
  set_blocking none blocking w = ((failure, none), w)
  set_blocking (some s) blocking w =
      let ((code, sock), w') = socket_set_blocking os (some s.sock) blocking w in
      ((code, some (record s { sock = get_or sock s.sock })), w')

unfoldable pub get_address : Option Server → Option Address → ℤ × Option Address
get_address (some s) (some addr) = (success, some s.addr)
get_address s addr = (failure, addr)
