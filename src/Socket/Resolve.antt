-- ===== src/Socket/Resolve.antt =====
-- What fossil_net_socket_resolve finds, and what connect hands to the system for it.
use fossil_network.Address.{
  Address, zero_address, with_family, resolve, literal_address, found_host,
}
use fossil_network.Base.{ℕ, ◌≡◌, ◌<◌, refl, ap, ◌∙◌, none, some, success, inl, inr, length, set}
use fossil_network.Cstr.{Bytes, codes, IsText, c_string, strncpy, strcpy, zeroed}
use fossil_network.Os.{sockaddr, Os, htons}
use fossil_network.Socket.{socket_address}
use fossil_network.Socket.Connect.{
  Reads, ipv4, ipv6, IsAddress, NtopLaws, socket_address_lem, name_ipv4, name_ipv6, parsed_ip,
  copied_text,
}

-- A name that is itself the text of an address is found without a query, and connect hands this
-- address with port 0 to the system.
pub resolve-literal :
    {W : Type 0} (os : Os W) (hostname : Bytes) (old : Address) (af : ℕ) (a : Bytes) (w : W)
    → IsText hostname
    → length hostname < 64
    → Reads os hostname af a
    → (addr : Address) × (resolve os (some hostname) (some old) w ≡ ((success, some addr), w))
      × (socket_address os addr ≡ some (sockaddr af (htons 0) a))
      × (c_string addr.addr ≡ hostname)
unfolding resolve literal_address
resolve-literal os hostname old _ _ w t h (ipv4 a e) = (
  literal_address hostname (codes "ipv4"),
  rw e refl,
  socket_address_lem os _ 2 a (inl refl) name_ipv4
      (ap (os.inet_pton 2) (parsed_ip hostname t h) ∙ e),
  parsed_ip hostname t h,
)
resolve-literal os hostname old _ _ w t h (ipv6 a e e') = (
  literal_address hostname (codes "ipv6"),
  rw (e, e') refl,
  socket_address_lem os _ 10 a (inr refl) name_ipv6
      (ap (os.inet_pton 10) (parsed_ip hostname t h) ∙ e'),
  parsed_ip hostname t h,
)

-- A name that inet_pton does not read is looked up. Under the laws of inet_ntop, the IPv4 address
-- that the answer holds first is what connect hands to the system, with port 0.
pub resolve-found :
    {W : Type 0} (os : Os W) (laws : NtopLaws os) (hostname : Bytes) (old : Address) (a : Bytes)
    (w w' : W)
    → os.inet_pton 2 hostname ≡ none
    → os.inet_pton 10 hostname ≡ none
    → os.gethostbyname hostname w ≡ (some (record { addrtype = 2; length = 4; first = some a }), w')
    → length a ≡ 4
    → (addr : Address) × (resolve os (some hostname) (some old) w ≡ ((success, some addr), w'))
      × (socket_address os addr ≡ some (sockaddr 2 (htons 0) a))
unfolding resolve found_host
resolve-found os laws hostname old a w w' e e' g l =
    let four : IsAddress 2 a = inl (refl, l) in
    let text = os.inet_ntop 2 a in
    (
      with_family
          (record zero_address {
            ip = strcpy (zeroed 64) text;
            addr = set (strncpy (zeroed 64) (c_string (strcpy (zeroed 64) text)) 63) 63 0;
          })
          (codes "ipv4"),
      rw (e, e', g) refl,
      socket_address_lem os _ 2 a (inl refl) name_ipv4
          (ap (os.inet_pton 2) (copied_text text (laws.text 2 a four)) ∙ laws.reads 2 a four),
    )
