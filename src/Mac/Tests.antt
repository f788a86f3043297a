-- ===== src/Mac/Tests.antt =====
-- MAC addresses on concrete values.
use fossil_network.Base.{
  ℕ, ◌≡◌, ◌⊎◌, refl, arith, List, [], ◌∷◌, ◌++◌, none, some, success, All, take,
}
use fossil_network.Cstr.{Bytes, codes, c_string, zeroed}
use fossil_network.Cstr.Decimal.{skip_spaces}
use fossil_network.Mac.{
  scan_hex2, hex_value, digit_field, scan_colon, Mac, Interface, mac_parse, mac_to_string, mac_get,
  format_mac, scan_fields,
}
use fossil_network.Mac.Hex.{IsByte}
use fossil_network.Mac.Parse.{IsValid, mac_parse-format}
use fossil_network.Mac.Print.{mac_parse-to_string, IsLink, First, LacksMac, mac_get_lem}

abbrev blank : Mac
blank = record { bytes = 0 ∷ 0 ∷ 0 ∷ 0 ∷ 0 ∷ 0 ∷ []; string = zeroed 18 }

abbrev bytes : List ℕ
bytes = 0 ∷ 26 ∷ 43 ∷ 60 ∷ 77 ∷ 255 ∷ []

abbrev each : All IsByte bytes
each = (omega arith, (omega arith, (omega arith, (omega arith, (omega arith, (omega arith, tt))))))

abbrev sample : Mac
sample = record { bytes = bytes; string = codes "00:1A:2B:3C:4D:FF" ++ 0 ∷ [] }

sample-IsValid : IsValid sample
unfolding c_string format_mac
sample-IsValid = record { six = refl; each = each; printed = refl; string_size = refl }

parse_tests :
    (scan_fields 6 (codes "00:1a:2B:3c:4D:ff") ≡ some bytes)
    × (scan_fields 6 (codes " 0:1a:2B:3c:4D:ff00") ≡ some bytes)
    × (scan_fields 6 (codes "0x:1a:2B:3c:4D:ff") ≡ none)
    × (scan_fields 6 (codes "00:1a:2B:3c:4D") ≡ none)
unfolding scan_fields scan_hex2 skip_spaces hex_value digit_field scan_colon
parse_tests = (refl, refl, refl, refl)

mac_parse-format_example :
    (string : Bytes) × (mac_parse (some blank) (some (codes "00:1A:2B:3C:4D:FF"))
      ≡ (success, some (record { bytes = bytes; string = string })))
    × IsValid (record { bytes = bytes; string = string })
unfolding format_mac
mac_parse-format_example = mac_parse-format blank bytes refl refl each

mac_parse-to_string_example :
    (out : Bytes) × (mac' : Mac) × (mac_to_string (some sample) (some (zeroed 20)) 20
      ≡ some (success, some out))
    × (mac_parse (some blank) (some (c_string out)) ≡ (success, some mac'))
    × (mac'.bytes ≡ bytes)
    × (c_string mac'.string ≡ c_string sample.string)
mac_parse-to_string_example =
    mac_parse-to_string sample blank (zeroed 20) 20 sample-IsValid refl (omega arith) (omega arith)

to_string_size_zero : mac_to_string (some sample) (some (zeroed 20)) 0 ≡ none
unfolding mac_to_string
to_string_size_zero = refl

abbrev loopback : Interface
loopback = record { family = some 17; sll_halen = 0; sll_addr = zeroed 8 }

abbrev ethernet : Interface
ethernet = record { family = some 17; sll_halen = 6; sll_addr = bytes ++ 0 ∷ 0 ∷ [] }

loopback-IsLink : IsLink loopback
loopback-IsLink = (omega arith, omega arith)

ethernet-IsLink : IsLink ethernet
ethernet-IsLink = (omega arith, omega arith)

abbrev interfaces : List Interface
interfaces = loopback ∷ ethernet ∷ loopback ∷ []

mac_get_lem_example :
    ((f : First interfaces) × (mac' : Mac) × (mac_get (some interfaces) (some blank)
        ≡ (success, some mac'))
      × (mac'.bytes ≡ take 6 f.found.sll_addr)
      × IsValid mac')
    ⊎ (All LacksMac interfaces × (mac_get (some interfaces) (some blank) ≡ (success, some blank)))
mac_get_lem_example =
    mac_get_lem interfaces blank (loopback-IsLink, (ethernet-IsLink, (loopback-IsLink, tt))) refl
      refl
