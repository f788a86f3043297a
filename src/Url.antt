-- ===== src/Url.antt =====
-- fossil__url_parse of code/logic/request.c, on arrays and offsets. `temp` is a local array, so its
-- bytes before the first copy are an argument. A NUL that is written through a pointer is `set`.
pub mod Spec
pub mod Refine
pub mod RoundTrip
mod Tests
use fossil_network.Base.{
  ℕ, zero, suc, ◌+◌, List, [], ◌∷◌, Option, none, some, if◌then◌else◌, drop, set, ℤ, pos, success,
  failure, to_unsigned,
}
use fossil_network.Cstr.{Bytes, codes, c_string, str_eq, strcpy, zeroed, copy_string}
use fossil_network.Cstr.Decimal.{atoi}
use fossil_network.Cstr.Search.{strchr, strstr}

pub record Url : Type 0 where
  pub scheme : Bytes
  pub host : Bytes
  pub port : ℕ
  pub path : Bytes

abbrev pub zero_url : Url
zero_url = record { scheme = zeroed 16; host = zeroed 256; port = 0; path = zeroed 1024 }

-- `parsed->port = atoi(p)`
unfoldable pub port_of : Bytes → ℕ
unfolding atoi to_unsigned
port_of m = to_unsigned 16 (atoi (c_string m))

-- `if (path_start) { copy; *path_start = '\0' } else strcpy(path, "/")` for an offset into `m`
unfoldable pub take_path : Option ℕ → Bytes → Bytes → Bytes × Bytes
take_path (some p) m path = (copy_string path (c_string (drop p m)) 1024, set m p 0)
take_path none m path = (strcpy path (codes "/"), m)

-- `if (port_start) { *port_start = '\0'; port = atoi(port_start + 1) } else port = other`
unfoldable pub take_port : Option ℕ → Bytes → ℕ → ℕ × Bytes
unfolding port_of
take_port (some q) m other = let m' = set m q 0 in (port_of (drop (suc q) m'), m')
take_port none m other = (other, m)

-- The branch without "://", which cuts the host's own array.
unfoldable pub parse_plain : Bytes → Url → Url
unfolding take_path take_port
parse_plain temp u =
    let host = copy_string u.host (c_string temp) 256 in
    let (path, host1) = take_path (strchr (c_string host) b'/') host u.path in
    let (port, host2) = take_port (strchr (c_string host1) b':') host1 80 in
    record { scheme = strcpy u.scheme (codes "http"); host = host2; port = port; path = path }

-- The branch with "://" at offset `e`; `rest` is the array from `host_start` on.
unfoldable pub parse_full : Bytes → ℕ → Url → Url
unfolding take_path take_port
parse_full temp e u =
    let temp1 = set temp e 0 in
    let scheme = copy_string u.scheme (c_string temp1) 16 in
    let rest = drop (e + 3) temp1 in
    let (path, rest1) = take_path (strchr (c_string rest) b'/') rest u.path in
    let (port, rest2) =
      take_port (strchr (c_string rest1) b':') rest1
        (if str_eq (c_string scheme) (codes "https") then 443 else 80) in
    let host = copy_string u.host (c_string rest2) 256 in
    record { scheme = scheme; host = host; port = port; path = path }

unfoldable pub parse_at : Option ℕ → Bytes → Url → Url
unfolding parse_plain parse_full
parse_at none temp u = parse_plain temp u
parse_at (some e) temp u = parse_full temp e u

unfoldable pub parse_into : Bytes → Bytes → Url → Url
unfolding parse_at
parse_into stack url u =
    let temp = copy_string stack url 2048 in parse_at (strstr (c_string temp) (codes "://")) temp u

unfoldable pub url_parse : Bytes → Option Bytes → Option Url → ℤ × Option Url
url_parse stack (some url) (some u) = (success, some (parse_into stack url u))
url_parse stack _ u = (failure, u)
