-- ===== src/Cpp/Server.antt =====
-- The class Server of code/logic/fossil/network/server.h: what its constructor, its destructor and its
-- methods call in code/logic/server.c.
pub mod Accounts
use fossil_network.Address.{Address}
use fossil_network.Base.{ℕ, Bool, true, false, Option, none, some, ℤ, List, [], ◌∷◌}
use fossil_network.Cpp.Owner.{Class}
use fossil_network.Cstr.{Bytes, c_string}
use fossil_network.Os.{Os}
use fossil_network.Server.{Server, create, destroy, listen, accept, get_address, set_blocking}
use fossil_network.Socket.{Socket}

-- The constructor's arguments, std::strings but for the port; `available` says whether `calloc` gives
-- memory.
pub record Args : Type 0 where
  pub available : Bool
  pub type : Bytes
  pub family : Bytes
  pub addr : Bytes
  pub port : ℕ

pub data Method : Type 0 where
  listens : ℤ → Method
  accepts : Option Socket → Option Address → Method
  asks_address : Option Address → Method
  blocks : Bool → Method
  asks_valid : Method

-- The result of a method and what it wrote for its caller.
pub data Answer : Type 0 where
  returned : ℤ → Answer
  accepted : ℤ → Option Socket → Option Address → Answer
  named : ℤ → Option Address → Answer
  is : Bool → Answer

-- `addr.empty() ? nullptr : addr.c_str()`
unfoldable pub given_address : Bytes → Option Bytes
given_address [] = none
given_address (x ∷ addr) = some (c_string (x ∷ addr))

abbrev pub is_some {ℓ} : {A : Type ℓ} → Option A → Bool
is_some none = false
is_some (some a) = true

module _ {W : Type 0} (os : Os W) where
  unfoldable pub constructed : Args → W → Option Server × W
  unfolding given_address
  constructed a w =
      create os a.available (c_string a.type) (c_string a.family) (given_address a.addr) a.port w

  unfoldable pub method : Method → Option Server → W → (Answer × Option Server) × W
  method (listens backlog) s w = let (r, w') = listen os s backlog w in ((returned r, s), w')
  method (accepts client_sock client_addr) s w =
      let ((r, (client_sock', client_addr')), w') = accept os s client_sock client_addr w in
      ((accepted r client_sock' client_addr', s), w')
  method (asks_address addr) s w = let (r, addr') = get_address s addr in ((named r addr', s), w)
  method (blocks blocking) s w =
      let ((r, s'), w') = set_blocking os s blocking w in ((returned r, s'), w')
  method asks_valid s w = ((is (is_some s), s), w)

  abbrev pub server_class : Class Server W Args Method Answer
  server_class = record { create = constructed; destroy = destroy os; method = method }
