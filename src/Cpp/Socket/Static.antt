-- ===== src/Cpp/Socket/Static.antt =====
-- The static functions of the class Socket.
use fossil_network.Address.{
  Address, address_parse as parse, address_to_string as to_string, resolve as resolve_name,
}
use fossil_network.Base.{ℕ, List, Bool, Option, some, ℤ}
use fossil_network.Cstr.{Bytes, c_string}
use fossil_network.Mac.{
  Mac, Interface, mac_get as get_mac, mac_to_string as print_mac, mac_parse as parse_mac,
  mac_equal as equal_macs,
}
use fossil_network.Os.{Os}
use fossil_network.Poll.{
  poll as poll_sockets, poll_add as add, poll_remove as remove, poll_clear as clear,
}
use fossil_network.Socket.{
  hostname as get_hostname, sleep as sleep_for, error_last as last_error, error_string as string_of,
}

unfoldable pub address_to_string : Option Address → Option Bytes → ℕ → ℤ × Option Bytes
address_to_string addr buffer size = to_string addr buffer size

-- The interfaces are what getifaddrs gives.
unfoldable pub mac_get : Option (List Interface) → Option Mac → ℤ × Option Mac
mac_get interfaces mac = get_mac interfaces mac

unfoldable pub mac_to_string : Option Mac → Option Bytes → ℕ → Option (ℤ × Option Bytes)
mac_to_string mac buffer size = print_mac mac buffer size

unfoldable pub mac_parse : Option Mac → Bytes → ℤ × Option Mac
mac_parse mac string = parse_mac mac (some (c_string string))

unfoldable pub mac_equal : Option Mac → Option Mac → Bool
mac_equal mac1 mac2 = equal_macs mac1 mac2

unfoldable pub poll : (ℕ → List ℕ → ℕ × ℕ → ℤ) → Option (List ℤ) → ℕ → ℕ → Option ℤ
poll select handles count timeout_ms = poll_sockets select handles count timeout_ms

unfoldable pub poll_add :
    Option (List ℕ) → Option ℕ → ℕ → Option ℕ → ℤ × (Option (List ℕ) × Option ℕ)
poll_add poll_set count max sock = add poll_set count max sock

unfoldable pub poll_remove :
    Option (List ℕ) → Option ℕ → Option ℕ → ℤ × (Option (List ℕ) × Option ℕ)
poll_remove poll_set count sock = remove poll_set count sock

unfoldable pub poll_clear : Option (List ℕ) → Option ℕ → ℤ × (Option (List ℕ) × Option ℕ)
poll_clear poll_set count = clear poll_set count

unfoldable pub error_string : (ℤ → Bytes) → ℤ → Bytes
error_string strerror err = string_of strerror err

module _ {W : Type 0} (os : Os W) where
  unfoldable pub address_parse : Option Address → Bytes → ℕ → ℤ × Option Address
  address_parse addr ip port = parse os addr (some (c_string ip)) port

  unfoldable pub resolve : Bytes → Option Address → W → (ℤ × Option Address) × W
  resolve hostname out_addr w = resolve_name os (some (c_string hostname)) out_addr w

  unfoldable pub hostname : Option Bytes → ℕ → W → Option ((ℤ × Option Bytes) × W)
  hostname buffer size w = get_hostname os buffer size w

  unfoldable pub error_last : W → ℤ
  error_last w = last_error os w

  unfoldable pub sleep : ℕ → W → ℤ × W
  sleep ms w = sleep_for os ms w
