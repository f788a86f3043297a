-- ===== src/Socket/Lookup.antt =====
-- fossil_net_socket_resolve on every branch: what it leaves, and what connect hands to the system for it.
use fossil_network.Address.{Address, zero_address, resolve, found_host}
use fossil_network.Base.{
  ℕ, ◌≡◌, ◌<◌, refl, ap, sym, ◌∙◌, subst, arith, Bool-cases, Option-cases, inl, inr, Option, none,
  some, ℤ, success, failure, length, ◌==◌, ◌&&◌,
}
use fossil_network.Cstr.{Bytes, IsText}
use fossil_network.Os.{sockaddr, Os, HostEnt, htons}
use fossil_network.Socket.{socket_address}
use fossil_network.Socket.Connect.{Reads, ipv4, ipv6, NtopLaws}
use fossil_network.Socket.Resolve.{resolve-literal, resolve-found}

-- An answer of gethostbyname whose first address is the IPv4 address.
abbrev pub host : Bytes → HostEnt
host a = record { addrtype = 2; length = 4; first = some a }

-- Documented behaviour of gethostbyname: h_length is the length of the addresses.
pub record HostLaws {W : Type 0} (os : Os W) : Type 0 where
  pub lengths :
      (name : Bytes) (w w' : W) (he : HostEnt) (a : Bytes)
      → os.gethostbyname name w ≡ (some he, w')
      → he.first ≡ some a
      → length a ≡ he.length

-- What resolve leaves for a name, where connect then goes, and why.
pub data Resolved {W : Type 0} (os : Os W) (hostname : Bytes) (w : W)
    : (ℤ × Option Address) × W → Type 0 where
  literal :
      (af : ℕ) (a : Bytes) (addr : Address)
      → Reads os hostname af a
      → socket_address os addr ≡ some (sockaddr af (htons 0) a)
      → Resolved os hostname w ((success, some addr), w)
  found :
      (a : Bytes) (addr : Address) (w' : W)
      → os.inet_pton 2 hostname ≡ none
      → os.inet_pton 10 hostname ≡ none
      → os.gethostbyname hostname w ≡ (some (host a), w')
      → socket_address os addr ≡ some (sockaddr 2 (htons 0) a)
      → Resolved os hostname w ((success, some addr), w')
  unknown :
      (answer : Option HostEnt) (w' : W)
      → os.inet_pton 2 hostname ≡ none
      → os.inet_pton 10 hostname ≡ none
      → os.gethostbyname hostname w ≡ (answer, w')
      → ((a : Bytes) → ¬ (answer ≡ some (host a)))
      → Resolved os hostname w ((failure, some zero_address), w')

abbrev pub first_of : Option HostEnt → Option Bytes
first_of none = none
first_of (some he) = he.first

abbrev pub type_of : Option HostEnt → ℕ
type_of none = 0
type_of (some he) = he.addrtype

abbrev pub length_of : Option HostEnt → ℕ
length_of none = 0
length_of (some he) = he.length

module _ {W : Type 0} (os : Os W) (laws : NtopLaws os) (hosts : HostLaws os) (hostname : Bytes)
    (old : Address) (w : W) where
  as_literal :
      (af : ℕ) (a : Bytes)
      → IsText hostname
      → length hostname < 64
      → Reads os hostname af a
      → Resolved os hostname w (resolve os (some hostname) (some old) w)
  as_literal af a t h reads =
      let (addr, r, s, _) = resolve-literal os hostname old af a w t h reads in
      subst (Resolved os hostname w) (sym r) (literal af a addr reads s)

  refused :
      (answer : Option HostEnt) (w' : W)
      → os.inet_pton 2 hostname ≡ none
      → os.inet_pton 10 hostname ≡ none
      → os.gethostbyname hostname w ≡ (answer, w')
      → found_host os answer ≡ (failure, zero_address)
      → ((a : Bytes) → ¬ (answer ≡ some (host a)))
      → Resolved os hostname w (resolve os (some hostname) (some old) w)
  unfolding resolve
  refused answer w' e e' g f h = rw (e, e', g, f) (unknown answer w' e e' g h)

  looked_up :
      (answer : Option HostEnt) (w' : W)
      → os.inet_pton 2 hostname ≡ none
      → os.inet_pton 10 hostname ≡ none
      → os.gethostbyname hostname w ≡ (answer, w')
      → Resolved os hostname w (resolve os (some hostname) (some old) w)
  unfolding found_host
  looked_up none w' e e' g = refused none w' e e' g refl (λ a p. cc)
  looked_up (some he) w' e e' g = elim (Option-cases he.first) [
    | inl f ↦
        refused (some he) w' e e' g (rw f refl)
          (λ a p. let q : he.first ≡ some a = ap first_of p in cc)
    | inr (a, f) ↦ elim (Bool-cases ((he.addrtype == 2) && (he.length == 4))) [
      | inl k ↦
          let type : he.addrtype ≡ 2 = ground arith in
          let size : he.length ≡ 4 = ground arith in
          let same : he ≡ host a =
            λ i. record { addrtype = type i; length = size i; first = f i } in
          let g' : os.gethostbyname hostname w ≡ (some (host a), w') =
            g ∙ ap (λ x. (some x, w')) same in
          let (addr, r, s) =
            resolve-found os laws hostname old a w w' e e' g'
              (hosts.lengths hostname w w' he a g f ∙ size) in
          subst (Resolved os hostname w) (sym r) (found a addr w' e e' g' s)
      | inr k ↦
          refused (some he) w' e e' g (rw (f, k) refl)
            (λ b p. ground (arith, ap type_of p, ap length_of p))
    ]
  ]

  -- Resolving a name of less than 64 bytes, under the laws of inet_ntop and of h_length. A name
  -- that inet_pton reads as an address is found without a query, and is the address that connect
  -- then hands to the system, with port 0. Any other name is looked up: an answer of IPv4
  -- addresses whose first is there is found, and connect hands this address to the system; for
  -- every other answer the result is -1 and the address is all zeros.
  pub resolve_lem :
      IsText hostname
      → length hostname < 64
      → Resolved os hostname w (resolve os (some hostname) (some old) w)
  resolve_lem t h = elim (Option-cases (os.inet_pton 2 hostname)) [
    | inr (a, e) ↦ as_literal 2 a t h (ipv4 a e)
    | inl e ↦ elim (Option-cases (os.inet_pton 10 hostname)) [
      | inr (a, e') ↦ as_literal 10 a t h (ipv6 a e e')
      | inl e' ↦ looked_up (os.gethostbyname hostname w).0 (os.gethostbyname hostname w).1 e e' refl
    ]
  ]
