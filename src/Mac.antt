-- ===== src/Mac.antt =====
-- The MAC addresses of code/logic/socket.c: fossil_net_mac_t, fossil_net_socket_mac_get on Linux,
-- _mac_to_string, _mac_parse and _mac_equal, with the conversions `%2x` of sscanf and `%02X` of
-- printf. The interfaces that getifaddrs gives are an argument.
pub mod Hex
pub mod Parse
pub mod Print
mod Tests
use fossil_network.Base.{
  ◌>>=◌, ℕ, zero, suc, ◌+◌, ◌-◌, ◌*◌, ◌/◌, ◌%◌, ◌^◌, Bool, true, false, ◌&&◌, ◌||◌, List, [], ◌∷◌,
  ◌++◌, Option, none, some, ltb, leb, ◌==◌, if◌then◌else◌, take, drop, set, length, ℤ, success,
  failure,
}
use fossil_network.Cstr.{Bytes, c_string, str_eq, memcpy, snprintf_at, strcpy, strncpy}
use fossil_network.Cstr.Decimal.{is_digit, skip_spaces}

pub record Mac : Type 0 where
  pub bytes : List ℕ
  pub string : Bytes

-- The value of a hexadecimal digit.
unfoldable pub hex_value : ℕ → Option ℕ
unfolding is_digit
hex_value c =
    if is_digit c
    then some (c - b'0')
    else if leb b'a' c && leb c b'f'
    then some (c - b'a' + 10)
    else if leb b'A' c && leb c b'F'
    then some (c - b'A' + 10)
    else none

abbrev pub is_x : ℕ → Bool
is_x c = (c == b'x') || (c == b'X')

-- The second byte of a field that began with the digit `d`.
unfoldable pub second_digit : ℕ → Option ℕ → Bytes → ℕ → Bytes → Option (ℕ × Bytes)
second_digit d none s c r = some (d, s)
second_digit d (some e) s c r = some (d * 16 + e, r)

-- A field that began with a sign has room for one digit; the value is an `unsigned int`.
unfoldable pub signed_field : Bool → Bytes → Option (ℕ × Bytes)
signed_field minus [] = none
signed_field minus (c ∷ r) = do
  d ← hex_value c
  some ((if minus then (2 ^ 32 - d) % 2 ^ 32 else d), r)

-- A field that began with the digit `c0` of value `d`; "0x" takes both bytes and is no number.
unfoldable pub digit_field : ℕ → ℕ → Bytes → Option (ℕ × Bytes)
unfolding second_digit
digit_field c0 d [] = some (d, [])
digit_field c0 d (c ∷ r) =
    if (c0 == b'0') && is_x c then none else second_digit d (hex_value c) (c ∷ r) c r

unfoldable pub hex_field : Bytes → Option (ℕ × Bytes)
hex_field [] = none
hex_field (c ∷ r) =
    if c == b'-'
    then signed_field true r
    else if c == b'+'
    then signed_field false r
    else do d ← hex_value c; digit_field c d r

-- `%2x`: blanks, and a field of at most two bytes
unfoldable pub scan_hex2 : Bytes → Option (ℕ × Bytes)
unfolding hex_field
scan_hex2 s = hex_field (skip_spaces s)

unfoldable pub scan_colon : Bytes → Option Bytes
scan_colon [] = none
scan_colon (c ∷ r) = if c == b':' then some r else none

-- The fields of the format from one of them on; `none` is a result of sscanf below their number.
unfoldable pub scan_fields : ℕ → Bytes → Option (List ℕ)
scan_fields zero s = some []
scan_fields (suc zero) s = do (b, r) ← scan_hex2 s; some (b ∷ [])
scan_fields (suc (suc n)) s = do
  (b, r) ← scan_hex2 s
  r' ← scan_colon r
  bs ← scan_fields (suc n) r'
  some (b ∷ bs)

-- A digit of `%X`
unfoldable pub hex_digit : ℕ → ℕ
hex_digit d = if ltb d 10 then b'0' + d else b'A' + (d - 10)

-- `%02X` of a byte
unfoldable pub hex2 : ℕ → Bytes
unfolding hex_digit
hex2 b = hex_digit (b / 16) ∷ hex_digit (b % 16) ∷ []

-- "%02X:%02X:%02X:%02X:%02X:%02X" on the bytes of an address
unfoldable pub format_mac : List ℕ → Bytes
unfolding hex2
format_mac [] = []
format_mac (b ∷ []) = hex2 b
format_mac (b ∷ c ∷ bs) = hex2 b ++ b':' ∷ format_mac (c ∷ bs)

-- `(uint8_t)b[i]`
abbrev pub to_bytes : List ℕ → List ℕ
to_bytes [] = []
to_bytes (b ∷ bs) = b % 2 ^ 8 ∷ to_bytes bs

unfoldable pub parsed_mac : Mac → Option (List ℕ) → ℤ × Mac
parsed_mac mac none = (failure, mac)
parsed_mac mac (some b) =
    let bytes = to_bytes b in
    (success, record { bytes = bytes; string = snprintf_at mac.string 0 18 (format_mac bytes) })

unfoldable pub mac_parse : Option Mac → Option Bytes → ℤ × Option Mac
unfolding parsed_mac
mac_parse (some mac) (some string) =
    let (code, mac') = parsed_mac mac (scan_fields 6 string) in (code, some mac')
mac_parse mac _ = (failure, mac)

-- `none` where the size is 0: strncpy then writes 2 ^ 32 - 1 bytes.
unfoldable pub mac_to_string : Option Mac → Option Bytes → ℕ → Option (ℤ × Option Bytes)
mac_to_string (some mac) (some buffer) zero = none
mac_to_string (some mac) (some buffer) (suc n) =
    some (success, some (set (strncpy buffer (c_string mac.string) n) n 0))
mac_to_string _ buffer size = some (failure, buffer)

unfoldable pub mac_equal : Option Mac → Option Mac → Bool
mac_equal (some mac1) (some mac2) = str_eq (take 6 mac1.bytes) (take 6 mac2.bytes)
mac_equal _ _ = false

-- An interface: the family of its address, none where `ifa_addr` is NULL, and the length and the
-- bytes of its link-layer address.
pub record Interface : Type 0 where
  pub family : Option ℕ
  pub sll_halen : ℕ
  pub sll_addr : Bytes

-- `AF_PACKET`
abbrev pub af_packet : ℕ
af_packet = 17

abbrev pub is_packet : Option ℕ → Bool
is_packet none = false
is_packet (some family) = family == af_packet

unfoldable pub first_mac : List Interface → Mac → Mac
first_mac [] mac = mac
first_mac (i ∷ is) mac =
    let later = first_mac is mac in
    if is_packet i.family && (i.sll_halen == 6)
    then (let bytes = memcpy mac.bytes i.sll_addr 6 in
        record { bytes = bytes; string = strcpy mac.string (format_mac bytes) })
    else later

unfoldable pub mac_get : Option (List Interface) → Option Mac → ℤ × Option Mac
unfolding first_mac
mac_get interfaces none = (failure, none)
mac_get none (some mac) = (failure, some mac)
mac_get (some ifap) (some mac) = (success, some (first_mac ifap mac))
