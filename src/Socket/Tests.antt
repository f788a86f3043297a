-- ===== src/Socket/Tests.antt =====
-- Sockets on the system of Os/Demo.
use fossil_network.Address.{Address, is_zero, zero_address, read_name, address_parse, resolve}
use fossil_network.Base.{
  ◌<◌, ◌⊎◌, false, none, failure, length-map, length, get_or, sym, ap, ◌∙◌, Option, ℕ, suc, ◌≡◌,
  refl, arith, [], ◌∷◌, ◌++◌, map, true, false, some, inl, inr, pos, success,
}
use fossil_network.Cstr.{Bytes, zeroed, codes}
use fossil_network.Os.{sockaddr, SockAddr, HostEnt, htons, has_nonblock}
use fossil_network.Os.Demo.{World, world, demo, peer, map-pred-suc, map-suc-IsText}
use fossil_network.Socket.{
  hostname, Socket, zero_socket, set_blocking, accept, keep_accepted, connect, bind,
}
use fossil_network.Socket.Accept.{FlagLaws, SameElsewhere, set_blocking_lem, accept_lem}
use fossil_network.Socket.Connect.{
  Reads, ipv4, NtopLaws, IsAddress, address_parse-connect, get_address-connect,
}
use fossil_network.Socket.Hostname.{Named, written, hostname_lem}
use fossil_network.Socket.Lookup.{HostLaws, Resolved, resolve_lem, length_of, first_of}

abbrev pub demo-FlagLaws : FlagLaws demo
demo-FlagLaws = record {
  set_bit = λ fd w n e. refl;
  clear_bit = λ fd w n e. refl;
  give_back = λ fd w n e. refl;
  accept_keeps = λ fd w. refl;
}

demo-reads :
    (af : ℕ) (a : Bytes) → IsAddress af a → demo.inet_pton af (demo.inet_ntop af a) ≡ some a
demo-reads af a (inl (f, l)) = rw (f, length-map suc a, l, map-pred-suc a) refl
demo-reads af a (inr (f, l)) = rw (f, length-map suc a, l, map-pred-suc a) refl

demo-NtopLaws : NtopLaws demo
demo-NtopLaws = record { reads = demo-reads; text = λ af a i. map-suc-IsText a }

abbrev sock : Socket
sock = record zero_socket { handle = pos 3 }

set_blocking_lem_example :
    (m : ℕ) × (w' : World) × (set_blocking demo (some sock) false world
      ≡ ((success, some (record sock { blocking = false })), w'))
    × (demo.get_flags (pos 3) w' ≡ pos m)
    × (has_nonblock m ≡ true)
    × SameElsewhere m 2
set_blocking_lem_example = set_blocking_lem demo demo-FlagLaws sock false world 2 refl

accept_lem_example :
    (m : ℕ) × (w1 w2 : World) × (accept demo
        (some sock)
        (some zero_socket)
        (some zero_address)
        world
      ≡ (keep_accepted demo (demo.accept (pos 3) w1).0 zero_socket (some zero_address), w2))
    × (demo.get_flags (pos 3) w1 ≡ pos m)
    × (has_nonblock m ≡ true)
    × (demo.get_flags (pos 3) w2 ≡ pos 2)
accept_lem_example = accept_lem demo demo-FlagLaws sock zero_socket (some zero_address) world 2 refl

abbrev home : Bytes
home = map suc (127 ∷ 0 ∷ 0 ∷ 1 ∷ [])

abbrev home-Reads : Reads demo home 2 (127 ∷ 0 ∷ 0 ∷ 1 ∷ [])
home-Reads = ipv4 (127 ∷ 0 ∷ 0 ∷ 1 ∷ []) refl

address_parse-connect_example :
    (addr : Address) × (address_parse demo (some zero_address) (some home) 8080
      ≡ (success, some addr))
    × ((s : Socket) (w : World)
        → connect demo (some s) (some addr) w
          ≡ demo.connect s.handle (sockaddr 2 (htons 8080) (127 ∷ 0 ∷ 0 ∷ 1 ∷ [])) w)
    × ((s : Socket) (w : World)
        → bind demo (some s) (some addr) w
          ≡ demo.bind s.handle (sockaddr 2 (htons 8080) (127 ∷ 0 ∷ 0 ∷ 1 ∷ [])) w)
address_parse-connect_example =
    address_parse-connect demo zero_address home 8080 2 (127 ∷ 0 ∷ 0 ∷ 1 ∷ [])
      (map-suc-IsText (127 ∷ 0 ∷ 0 ∷ 1 ∷ [])) (omega arith) home-Reads

-- A link-local address on the interface 2.
abbrev link_local : SockAddr
link_local = record (sockaddr 10 34835 (254 ∷ 128 ∷ (zeroed 13 ++ 1 ∷ []))) { scope_id = 2 }

get_address-connect_example :
    (addr : Address) × (read_name demo (pos 0, link_local) zero_address ≡ (success, some addr))
    × ((s : Socket) (w : World)
        → connect demo (some s) (some addr) w
          ≡ demo.connect s.handle (record link_local { flowinfo = 0; scope_id = 0 }) w)
get_address-connect_example =
    get_address-connect demo demo-NtopLaws zero_address link_local (inr (refl, refl)) (omega arith)

demo-HostLaws : HostLaws demo
demo-HostLaws = record {
  lengths = λ name w w' he a e f.
      let size : he.length ≡ 4 = sym (ap (λ (r : Option HostEnt × World). length_of r.0) e) in
      let first : he.first ≡ some peer.address =
        sym (ap (λ (r : Option HostEnt × World). first_of r.0) e) in
      ap (λ (x : Option Bytes). length (get_or x [])) (sym f ∙ first) ∙ sym size;
}

resolve_lem_example :
    Resolved demo
      (codes "localhost")
      world
      (resolve demo (some (codes "localhost")) (some zero_address) world)
resolve_lem_example =
    resolve_lem demo demo-NtopLaws demo-HostLaws (codes "localhost") zero_address world
      (omega arith) (omega arith)

abbrev eight : ℕ
eight = 8

hostname_lem_example :
    ((is_zero (pos 0) ≡ true)
      × (0 < eight)
      × ((out : Bytes) × (hostname demo (some (zeroed 64)) eight world
            ≡ some ((success, some out), world))
          × Named (zeroed 64) (codes "host") eight out))
    ⊎ (((is_zero (pos 0) ≡ true)
          × (eight ≡ 0)
          × (hostname demo (some (zeroed 64)) eight world ≡ none))
        ⊎ ((is_zero (pos 0) ≡ false)
            × (hostname demo (some (zeroed 64)) eight world
                ≡ some ((failure, some (written (zeroed 64) (codes "host") eight)), world))))
hostname_lem_example =
    hostname_lem demo (zeroed 64) eight world (pos 0) (codes "host") world refl (omega arith)
