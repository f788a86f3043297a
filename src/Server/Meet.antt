-- ===== src/Server/Meet.antt =====
-- A client that is given the address which a server reports.
use fossil_network.Address.{Address, is_zero}
use fossil_network.Base.{ℕ, ◌≡◌, true, some, ℤ, pos}
use fossil_network.Client.{Client, connect}
use fossil_network.Cstr.{Bytes}
use fossil_network.Os.{Os, SockAddr}
use fossil_network.Server.{Server, create}
use fossil_network.Socket.{
  family_from_string, type_from_string, socket_address, create as socket_create,
  close as socket_close, bind as socket_bind, connect as socket_connect,
}

-- A server that came out of fossil_net_server_create: the socket that it got, and the call of bind that
-- succeeded on it.
pub record Bound {W : Type 0} (os : Os W) (type family : Bytes) (w w' : W) (s : Server)
    : Type 0 where
  pub fd : ℕ
  pub code : ℤ
  pub sa : SockAddr
  pub opened_in : W
  pub opened : os.socket (family_from_string family) (type_from_string type) w ≡ (pos fd, opened_in)
  pub handle : s.sock.handle ≡ pos fd
  pub address : socket_address os s.addr ≡ some sa
  pub bound : os.bind (pos fd) sa opened_in ≡ (code, w')
  pub succeeded : is_zero code ≡ true
