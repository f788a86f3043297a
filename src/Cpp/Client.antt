-- ===== src/Cpp/Client.antt =====
-- The class Client of code/logic/fossil/network/client.h: what its constructor, its destructor and its
-- methods call in code/logic/client.c.
pub mod Accounts
use fossil_network.Base.{ℕ, Bool, Option, none, some, ℤ, pos}
use fossil_network.Address.{Address}
use fossil_network.Client.{
  Client, create, destroy, connect, disconnect, send, receive, get_local_address,
  get_remote_address, set_blocking, error_last, error_string as string_of,
}
use fossil_network.Cpp.Owner.{Class}
use fossil_network.Cstr.{Bytes}
use fossil_network.Os.{Os}

-- The constructor's arguments; `available` says whether `calloc` gives memory.
pub record Args : Type 0 where
  pub available : Bool
  pub type : Bytes
  pub family : Bytes

pub data Method : Type 0 where
  connects : Option Address → Method
  disconnects : Method
  sends : Option Bytes → ℕ → Option ℕ → Method
  receives : Option Bytes → ℕ → Option ℕ → Method
  asks_local : Option Address → Method
  asks_remote : Option Address → Method
  blocks : Bool → Method
  asks_error : Method

-- The result of a method and what it wrote for its caller.
pub data Answer : Type 0 where
  returned : ℤ → Answer
  counted : ℤ → Option ℕ → Answer
  filled : ℤ → Option Bytes → Option ℕ → Answer
  named : ℤ → Option Address → Answer

-- The static function; `strerror` is the C library's.
unfoldable pub error_string : (ℤ → Bytes) → ℤ → Bytes
error_string strerror err = string_of strerror err

module _ {W : Type 0} (os : Os W) where
  unfoldable pub method : Method → Option Client → W → (Answer × Option Client) × W
  method (connects addr) c w = let ((r, c'), w') = connect os c addr w in ((returned r, c'), w')
  method disconnects c w = let ((r, c'), w') = disconnect os c w in ((returned r, c'), w')
  method (sends bytes size sent) c w =
      let (((r, sent'), c'), w') = send os c bytes size sent w in ((counted r sent', c'), w')
  method (receives buffer size received) c w =
      let (((r, (buffer', received')), c'), w') = receive os c buffer size received w in
      ((filled r buffer' received', c'), w')
  method (asks_local addr) c w =
      let ((r, addr'), w') = get_local_address os c addr w in ((named r addr', c), w')
  method (asks_remote addr) c w =
      let (r, addr') = get_remote_address c addr in ((named r addr', c), w)
  method (blocks blocking) c w =
      let ((r, c'), w') = set_blocking os c blocking w in ((returned r, c'), w')
  method asks_error c w = ((returned (error_last c), c), w)

  abbrev pub client_class : Class Client W Args Method Answer
  client_class = record {
    create = λ a. create os a.available a.type a.family;
    destroy = destroy os;
    method = method;
  }
