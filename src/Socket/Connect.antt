-- ===== src/Socket/Connect.antt =====
-- The addresses that bind and connect hand to the system: those of the text that was parsed, and
-- those that the system itself gave.
use fossil_network.Address.{
  Address, address_parse, address_start, zero_address, with_family, named_address, read_name,
}
use fossil_network.Base.{
  ℕ, ◌≡◌, ◌<◌, ◌⊎◌, refl, ap, sym, ◌∙◌, [], none, some, arith, if◌then◌else◌, ◌==◌, pos, success,
  failure, inl, inr, length, take_of_length,
}
use fossil_network.Cstr.{Bytes, codes, IsText, c_string, str_eq, strncpy, strcpy, zeroed}
use fossil_network.Cstr.Copy.{c_string-strncpy, c_string-append}
use fossil_network.Os.{sockaddr, Os, SockAddr, htons}
use fossil_network.Socket.{Socket, bind, connect, bind_to, connect_to, socket_address, pton_or_zero}

-- The port of a 16-bit number is read back from its network order.
pub htons-htons : (p : ℕ) → p < 65536 → htons (htons p) ≡ p
unfolding htons
htons-htons p h = omega arith

-- How inet_pton reads a text: as IPv4 where it can, else as IPv6.
pub data Reads {W : Type 0} (os : Os W) (ip : Bytes) : ℕ → Bytes → Type 0 where
  ipv4 : (a : Bytes) → os.inet_pton 2 ip ≡ some a → Reads os ip 2 a
  ipv6 : (a : Bytes) → os.inet_pton 2 ip ≡ none → os.inet_pton 10 ip ≡ some a → Reads os ip 10 a

pub parsed_ip :
    (ip : Bytes) → IsText ip → length ip < 64 → c_string (strncpy (zeroed 64) ip 63) ≡ ip
parsed_ip ip t h = c_string-strncpy ip 63 t ∙ take_of_length 63 ip (omega arith)

pub name_ipv4 : c_string (strncpy (zeroed 32) (codes "ipv4") 31) ≡ codes "ipv4"
unfolding c_string strncpy
name_ipv4 = refl

pub name_ipv6 : c_string (strncpy (zeroed 32) (codes "ipv6") 31) ≡ codes "ipv6"
unfolding c_string strncpy
name_ipv6 = refl

abbrev pub family_name : ℕ → Bytes
family_name af = if af == 2 then codes "ipv4" else codes "ipv6"

pub address_parse-Reads :
    {W : Type 0} (os : Os W) (old : Address) (ip : Bytes) (port af : ℕ) (a : Bytes)
    → Reads os ip af a
    → address_parse os (some old) (some ip) port
      ≡ (success, some (with_family (address_start ip port) (family_name af)))
unfolding address_parse
address_parse-Reads os old ip port _ _ (ipv4 a e) = rw e refl
address_parse-Reads os old ip port _ _ (ipv6 a e e') = rw (e, e') refl

-- The two families
abbrev pub IsFamily : ℕ → Type 0
IsFamily af = (af ≡ 2) ⊎ (af ≡ 10)

-- What bind and connect hand to the system for an address of either family.
pub socket_address_lem :
    {W : Type 0} (os : Os W) (addr : Address) (af : ℕ) (a : Bytes)
    → IsFamily af
    → c_string addr.family ≡ family_name af
    → os.inet_pton af (c_string addr.ip) ≡ some a
    → socket_address os addr ≡ some (sockaddr af (htons addr.port) a)
unfolding socket_address pton_or_zero
socket_address_lem os addr af a (inl i) f e =
    let f' : c_string addr.family ≡ codes "ipv4" = f ∙ ap family_name i in
    let e' : os.inet_pton 2 (c_string addr.ip) ≡ some a =
      ap (λ k. os.inet_pton k (c_string addr.ip)) (sym i) ∙ e in
    rw (i, f', e', pton_or_zero) (unfold str_eq in refl)
socket_address_lem os addr af a (inr i) f e =
    let f' : c_string addr.family ≡ codes "ipv6" = f ∙ ap family_name i in
    let e' : os.inet_pton 10 (c_string addr.ip) ≡ some a =
      ap (λ k. os.inet_pton k (c_string addr.ip)) (sym i) ∙ e in
    rw (i, f', e', pton_or_zero) (unfold str_eq in refl)

-- The same for an address that was parsed from a text.
pub socket_address-Reads :
    {W : Type 0} (os : Os W) (ip : Bytes) (port af : ℕ) (a : Bytes)
    → IsText ip
    → length ip < 64
    → Reads os ip af a
    → socket_address os (with_family (address_start ip port) (family_name af))
      ≡ some (sockaddr af (htons port) a)
unfolding address_start
socket_address-Reads os ip port _ _ t h (ipv4 a e) =
    socket_address_lem os _ 2 a (inl refl) name_ipv4 (ap (os.inet_pton 2) (parsed_ip ip t h) ∙ e)
socket_address-Reads os ip port _ _ t h (ipv6 a _ e) =
    socket_address_lem os _ 10 a (inr refl) name_ipv6 (ap (os.inet_pton 10) (parsed_ip ip t h) ∙ e)

-- A text of at most 63 bytes that inet_pton reads as an address of either family is parsed, and
-- bind and connect hand exactly this address, its family and the port in network order to the
-- system.
pub address_parse-connect :
    {W : Type 0} (os : Os W) (old : Address) (ip : Bytes) (port af : ℕ) (a : Bytes)
    → IsText ip
    → length ip < 64
    → Reads os ip af a
    → (addr : Address) × (address_parse os (some old) (some ip) port ≡ (success, some addr))
      × ((sock : Socket) (w : W)
          → connect os (some sock) (some addr) w
            ≡ os.connect sock.handle (sockaddr af (htons port) a) w)
      × ((sock : Socket) (w : W)
          → bind os (some sock) (some addr) w ≡ os.bind sock.handle (sockaddr af (htons port) a) w)
unfolding connect connect_to bind bind_to
address_parse-connect os old ip port af a t h r = (
  with_family (address_start ip port) (family_name af),
  address_parse-Reads os old ip port af a r,
  λ sock w. rw (socket_address-Reads os ip port af a t h r) refl,
  λ sock w. rw (socket_address-Reads os ip port af a t h r) refl,
)

socket_address-none :
    {W : Type 0} (os : Os W) (addr : Address)
    → c_string addr.family ≡ []
    → socket_address os addr ≡ none
unfolding socket_address
socket_address-none os addr f = rw f (unfold str_eq in refl)

empty_family : c_string (zeroed 32) ≡ []
unfolding c_string
empty_family = refl

-- A text that is no address of either family is refused, and what is left in the struct is refused by
-- bind and connect without a call of the system.
pub address_parse-refused :
    {W : Type 0} (os : Os W) (old : Address) (ip : Bytes) (port : ℕ)
    → os.inet_pton 2 ip ≡ none
    → os.inet_pton 10 ip ≡ none
    → (addr : Address) × (address_parse os (some old) (some ip) port ≡ (failure, some addr))
      × ((sock : Socket) (w : W) → connect os (some sock) (some addr) w ≡ (failure, w))
      × ((sock : Socket) (w : W) → bind os (some sock) (some addr) w ≡ (failure, w))
unfolding connect connect_to bind bind_to address_parse
address_parse-refused os old ip port e e' = (
  address_start ip port,
  rw (e, e') refl,
  λ sock w.
      rw (socket_address-none os (address_start ip port) (unfold address_start in empty_family))
        refl,
  λ sock w.
      rw (socket_address-none os (address_start ip port) (unfold address_start in empty_family))
        refl,
)

-- The addresses of the two families
abbrev pub IsAddress : ℕ → Bytes → Type 0
IsAddress af a = ((af ≡ 2) × (length a ≡ 4)) ⊎ ((af ≡ 10) × (length a ≡ 16))

IsAddress-IsFamily : (af : ℕ) (a : Bytes) → IsAddress af a → IsFamily af
IsAddress-IsFamily af a (inl (f, _)) = inl f
IsAddress-IsFamily af a (inr (f, _)) = inr f

-- Documented behaviour of inet_ntop: for an address of either family it writes a text without NUL,
-- which inet_pton of that family reads back.
pub record NtopLaws {W : Type 0} (os : Os W) : Type 0 where
  pub reads : (af : ℕ) (a : Bytes) → IsAddress af a → os.inet_pton af (os.inet_ntop af a) ≡ some a
  pub text : (af : ℕ) (a : Bytes) → IsAddress af a → IsText (os.inet_ntop af a)

pub copied_text : (text : Bytes) → IsText text → c_string (strcpy (zeroed 64) text) ≡ text
unfolding strcpy
copied_text text t = c_string-append text _ t

-- What get_local_address and get_peer_address read from the answer of the system.
unfoldable pub answer : {W : Type 0} → Os W → SockAddr → Address
answer os sa =
    with_family
      (record zero_address {
        ip = strcpy (zeroed 64) (os.inet_ntop sa.family sa.address);
        addr = strcpy (zeroed 64) (os.inet_ntop sa.family sa.address);
        port = htons sa.port;
      })
      (family_name sa.family)

named_address-answer :
    {W : Type 0} (os : Os W) (sa : SockAddr)
    → IsFamily sa.family
    → named_address os sa ≡ (success, answer os sa)
unfolding named_address answer
named_address-answer os sa (inl f) = rw f refl
named_address-answer os sa (inr f) = rw f refl

answer-family :
    {W : Type 0} (os : Os W) (sa : SockAddr)
    → IsFamily sa.family
    → c_string (answer os sa).family ≡ family_name sa.family
unfolding answer
answer-family os sa (inl f) = rw f name_ipv4
answer-family os sa (inr f) = rw f name_ipv6

-- Under the laws of inet_ntop, the address of either family with a 16-bit port that the system
-- gives for a socket is read into a struct, and connect hands the same family, address and port
-- back to the system, but with the flow information and the scope set to 0.
pub get_address-connect :
    {W : Type 0} (os : Os W) (laws : NtopLaws os) (old : Address) (sa : SockAddr)
    → IsAddress sa.family sa.address
    → sa.port < 65536
    → (addr : Address) × (read_name os (pos 0, sa) old ≡ (success, some addr))
      × ((sock : Socket) (w : W)
          → connect os (some sock) (some addr) w
            ≡ os.connect sock.handle (record sa { flowinfo = 0; scope_id = 0 }) w)
unfolding connect connect_to read_name
get_address-connect os laws old sa j p =
    let i : IsFamily sa.family = IsAddress-IsFamily sa.family sa.address j in
    let text = os.inet_ntop sa.family sa.address in
    let read : os.inet_pton sa.family (c_string (answer os sa).ip) ≡ some sa.address =
      unfold answer in
      ap (os.inet_pton sa.family) (copied_text text (laws.text sa.family sa.address j))
      ∙ laws.reads sa.family sa.address j in
    let port : htons (answer os sa).port ≡ sa.port = unfold answer in htons-htons sa.port p in
    let same : socket_address os (answer os sa) ≡ some (record sa { flowinfo = 0; scope_id = 0 }) =
      socket_address_lem os (answer os sa) sa.family sa.address i (answer-family os sa i) read
      ∙ rw port refl in
    (answer os sa, rw (named_address-answer os sa i) refl, λ sock w. rw same refl)
