-- ===== src/Address/Text.antt =====
-- What fossil_net_socket_address_to_string writes.
use fossil_network.Address.{Address, ip_text, print_checked}
use fossil_network.Base.{ℕ, ◌≡◌, ◌∷◌, ◌++◌, Option, some, ℤ}
use fossil_network.Cstr.{Bytes, codes, c_string}
use fossil_network.Cstr.Decimal.{decimal}

-- The text of an address of each family.
pub data Printed (a : Address) : Bytes → Type 0 where
  ipv4 : c_string a.family ≡ codes "ipv4" → Printed a (ip_text a ++ b':' ∷ decimal a.port)
  ipv6 :
      c_string a.family ≡ codes "ipv6"
      → Printed a (b'[' ∷ (ip_text a ++ (codes "]:" ++ decimal a.port)))

-- What the check makes of a text, in either family.
abbrev outcome : Bytes → ℕ → Bytes → ℤ × Option Bytes
outcome buffer size text =
    ((print_checked buffer size text).0, some (print_checked buffer size text).1)
