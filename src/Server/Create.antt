-- ===== src/Server/Create.antt =====
-- fossil_net_server_create: the address that it binds, and what it leaves where a step fails.
use fossil_network.Address.{
  Address, zero_address, is_zero, address_parse, address_start, with_family,
}
use fossil_network.Base.{
  ℕ, ◌≡◌, ◌<◌, ◌⊎◌, refl, ap, ◌∙◌, arith, true, false, [], Option, none, some, inl, inr, length, ℤ,
  pos, success, if◌then◌else◌, ◌==◌, Bool-cases,
}
use fossil_network.Client.{known_family, known_type}
use fossil_network.Cstr.{Bytes, IsText, codes, c_string, str_eq, strncpy, zeroed}
use fossil_network.Cstr.Copy.{str_eq_iff}
use fossil_network.Os.{sockaddr, Os, SockAddr, htons}
use fossil_network.Server.{
  Server, any_address, keep_address, server_address, bind_server, create_at, create,
}
use fossil_network.Socket.{
  Socket, new_socket, keep_socket, family_from_string, type_from_string, socket_address,
  pton_or_zero, create as socket_create, close as socket_close, bind as socket_bind, bind_to,
}
use fossil_network.Socket.Connect.{
  Reads, IsFamily, family_name, address_parse-Reads, socket_address-Reads, name_ipv4, name_ipv6,
}

-- What is left of a server's creation behind the call of the system's bind, with its result.
pub data Left {W : Type 0} (os : Os W) (fd : ℤ) (addr : Address)
    : ℤ × W → Option Server × W → Type 0 where
  bound :
      (r : ℤ) (s : Server) (w : W)
      → is_zero r ≡ true
      → s.sock.handle ≡ fd
      → s.addr ≡ addr
      → Left os fd addr (r, w) (some s, w)
  closed : (r : ℤ) (w : W) → is_zero r ≡ false → Left os fd addr (r, w) (none, os.close fd w)

bound_or_closed :
    {W : Type 0} (os : Os W) (sock : Socket) (addr : Address) (r : ℤ) (w : W)
    → Left os sock.handle addr
        (r, w)
        (if is_zero r
          then (some (record { sock = sock; addr = addr }), w)
          else (none, os.close sock.handle w))
bound_or_closed os sock addr r w = elim (Bool-cases (is_zero r)) [
  | inl e ↦ rw e (bound r (record { sock = sock; addr = addr }) w e refl refl)
  | inr e ↦ rw e (closed r w e)
]

create_at-Left :
    {W : Type 0} (os : Os W) (addr : Address) (sa : SockAddr) (type family : Bytes) (w w1 : W)
    (fd : ℕ)
    → socket_address os addr ≡ some sa
    → os.socket (family_from_string family) (type_from_string type) w ≡ (pos fd, w1)
    → Left os (pos fd) addr (os.bind (pos fd) sa w1) (create_at os (some addr) type family w)
unfolding create_at bind_server socket_create keep_socket socket_bind bind_to socket_close
    new_socket
create_at-Left os addr sa type family w w1 fd e f =
    rw (f, e)
      (bound_or_closed os (new_socket (pos fd) type family) addr (os.bind (pos fd) sa w1).0
        (os.bind (pos fd) sa w1).1)

-- A server for a text of at most 63 bytes that inet_pton reads as an address, of a known type and
-- family, where memory and a descriptor are given: bind is called on the descriptor with exactly
-- this address and the port. Where bind gives 0 the server owns the descriptor and holds the
-- parsed address; where it does not, the descriptor is closed and the result is NULL.
pub create-Left :
    {W : Type 0} (os : Os W) (type family ip : Bytes) (port af : ℕ) (a : Bytes) (w w1 : W) (fd : ℕ)
    → known_type type ≡ true
    → known_family family ≡ true
    → IsText ip
    → length ip < 64
    → Reads os ip af a
    → os.socket (family_from_string family) (type_from_string type) w ≡ (pos fd, w1)
    → (addr : Address) × (address_parse os (some zero_address) (some ip) port
        ≡ (success, some addr))
      × Left os
          (pos fd)
          addr
          (os.bind (pos fd) (sockaddr af (htons port) a) w1)
          (create os true type family (some ip) port w)
unfolding create server_address keep_address
create-Left os type family ip port af a w w1 fd k l t h r f = (
  with_family (address_start ip port) (family_name af),
  address_parse-Reads os zero_address ip port af a r,
  rw
      (
        k,
        l,
        address_parse-Reads os (record zero_address { family = strncpy (zeroed 32) family 31 }) ip
            port af a r,
      )
      (create_at-Left os _ (sockaddr af (htons port) a) type family w w1 fd
        (socket_address-Reads os ip port af a t h r) f),
)

-- The number of bytes of an address of a family
abbrev pub address_size : ℕ → ℕ
address_size af = if af == 2 then 4 else 16

-- An address whose text inet_pton refuses is handed on as zeros.
socket_address_unread :
    {W : Type 0} (os : Os W) (addr : Address) (af : ℕ)
    → IsFamily af
    → c_string addr.family ≡ family_name af
    → c_string addr.ip ≡ []
    → ((k : ℕ) → os.inet_pton k [] ≡ none)
    → socket_address os addr ≡ some (sockaddr af (htons addr.port) (zeroed (address_size af)))
unfolding socket_address pton_or_zero
socket_address_unread os addr af (inl i) f t e =
    let f' : c_string addr.family ≡ codes "ipv4" = f ∙ ap family_name i in
    rw (i, f', t, e 2, pton_or_zero) (unfold str_eq in refl)
socket_address_unread os addr af (inr i) f t e =
    let f' : c_string addr.family ≡ codes "ipv6" = f ∙ ap family_name i in
    rw (i, f', t, e 10, pton_or_zero) (unfold str_eq in refl)

no_text : c_string (zeroed 64) ≡ []
unfolding c_string
no_text = refl

known_family_cases :
    (family : Bytes)
    → known_family family ≡ true
    → (family ≡ codes "ipv4") ⊎ (family ≡ codes "ipv6")
unfolding known_family
known_family_cases family h = elim (Bool-cases (str_eq family (codes "ipv4"))) [
  | inl e ↦ inl ((str_eq_iff _ _).0 e)
  | inr e ↦ inr ((str_eq_iff _ _).0 (ground (arith, h, e)))
]

any_address-socket_address :
    {W : Type 0} (os : Os W) (family : Bytes) (port : ℕ)
    → known_family family ≡ true
    → ((k : ℕ) → os.inet_pton k [] ≡ none)
    → socket_address os (any_address family port)
      ≡ some (
          sockaddr
            (family_from_string family)
            (htons port)
            (zeroed (address_size (family_from_string family))))
any_address-socket_address os family port l e = elim (known_family_cases family l) [
  | inl f ↦ rw f (
      unfold any_address in
      unfold family_from_string in
      unfold str_eq in socket_address_unread os _ 2 (inl refl) name_ipv4 no_text e)
  | inr f ↦ rw f (
      unfold any_address in
      unfold family_from_string in
      unfold str_eq in socket_address_unread os _ 10 (inr refl) name_ipv6 no_text e)
]

-- With NULL for the address, a known type and family, memory and a descriptor, and where inet_pton
-- refuses the empty text, bind gets the address of the server's family whose bytes are all 0; the
-- rest is as for an address.
pub create-any :
    {W : Type 0} (os : Os W) (type family : Bytes) (port : ℕ) (w w1 : W) (fd : ℕ)
    → known_type type ≡ true
    → known_family family ≡ true
    → ((af : ℕ) → os.inet_pton af [] ≡ none)
    → os.socket (family_from_string family) (type_from_string type) w ≡ (pos fd, w1)
    → Left os
        (pos fd)
        (any_address family port)
        (os.bind
          (pos fd)
          (sockaddr
            (family_from_string family)
            (htons port)
            (zeroed (address_size (family_from_string family))))
          w1)
        (create os true type family none port w)
unfolding create server_address
create-any os type family port w w1 fd k l none_read f =
    rw (k, l)
      (create_at-Left os (any_address family port) _ type family w w1 fd
        (any_address-socket_address os family port l none_read) f)
