-- ===== src/Server/Tests.antt =====
-- Servers on the system of Os/Demo.
use fossil_network.Address.{Address, zero_address, address_parse}
use fossil_network.Base.{suc, ◌≡◌, refl, arith, [], ◌∷◌, map, true, none, some, pos, success}
use fossil_network.Client.{Client, zero_client, known_family, known_type}
use fossil_network.Cstr.{Bytes, codes, str_eq}
use fossil_network.Os.{sockaddr, htons}
use fossil_network.Os.Demo.{World, world, demo, map-suc-IsText}
use fossil_network.Server.{Server, any_address, create}
use fossil_network.Server.Create.{Left, create-Left}
use fossil_network.Socket.{create as socket_create, bind as socket_bind, new_socket, zero_socket}
use fossil_network.Socket.Connect.{ipv4}

abbrev home : Bytes
home = map suc (127 ∷ 0 ∷ 0 ∷ 1 ∷ [])

type_known : known_type (codes "tcp") ≡ true
unfolding known_type str_eq
type_known = refl

family_known : known_family (codes "ipv4") ≡ true
unfolding known_family str_eq
family_known = refl

create-Left_example :
    (addr : Address) × (address_parse demo (some zero_address) (some home) 80
      ≡ (success, some addr))
    × Left demo
        (pos 3)
        addr
        (demo.bind (pos 3) (sockaddr 2 (htons 80) (127 ∷ 0 ∷ 0 ∷ 1 ∷ [])) world)
        (create demo true (codes "tcp") (codes "ipv4") (some home) 80 world)
create-Left_example =
    create-Left demo (codes "tcp") (codes "ipv4") home 80 2 (127 ∷ 0 ∷ 0 ∷ 1 ∷ []) world world 3
      type_known family_known (map-suc-IsText (127 ∷ 0 ∷ 0 ∷ 1 ∷ [])) (omega arith)
      (ipv4 (127 ∷ 0 ∷ 0 ∷ 1 ∷ []) refl) refl

-- A server for every address, and a client of it.
abbrev served : Server
served = record {
  sock = new_socket (pos 3) (codes "tcp") (codes "ipv4");
  addr = any_address (codes "ipv4") 80;
}

abbrev served_in : World
served_in = (create demo true (codes "tcp") (codes "ipv4") none 80 world).1

abbrev client : Client
client = record zero_client { sock = record zero_socket { handle = pos 5 } }
