-- ===== src/Address/Tests.antt =====
-- The print of an address.
use fossil_network.Address.{Address, zero_address, ip_text}
use fossil_network.Base.{◌≡◌, refl, [], ◌∷◌, ◌++◌}
use fossil_network.Cstr.{codes, c_string, str_eq}
use fossil_network.Cstr.Decimal.{decimal}

abbrev home : Address
home = record zero_address {
  ip = codes "127.0.0.1" ++ 0 ∷ [];
  family = codes "ipv4" ++ 0 ∷ [];
  port = 80;
}

home_text : ip_text home ++ b':' ∷ decimal 80 ≡ codes "127.0.0.1:80"
unfolding ip_text str_eq c_string decimal
home_text = refl
