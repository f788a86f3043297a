-- ===== src/Url/Spec.antt =====
-- What a URL's text stands for, stated on strings with no arrays or offsets.
use fossil_network.Base.{
  ℕ, ◌+◌, [], ◌∷◌, Option, none, some, if◌then◌else◌, take, drop, to_unsigned,
}
use fossil_network.Cstr.{Bytes, codes, c_string, str_eq}
use fossil_network.Cstr.Cut.{before, from}
use fossil_network.Cstr.Decimal.{atoi}
use fossil_network.Cstr.Search.{strstr}
use fossil_network.Url.{Url}

pub record Parts : Type 0 where
  pub scheme : Bytes
  pub host : Bytes
  pub port : ℕ
  pub path : Bytes

-- The strings of a parsed URL.
abbrev pub view : Url → Parts
view u = record {
  scheme = c_string u.scheme;
  host = c_string u.host;
  port = u.port;
  path = c_string u.path;
}

-- A missing path is "/"; a path is cut to 1023 bytes.
abbrev pub path_or_root : Bytes → Bytes
path_or_root [] = codes "/"
path_or_root (c ∷ s) = take 1023 (c ∷ s)

-- The number behind the colon, in 16 bits.
abbrev pub port_or : Bytes → ℕ → ℕ
port_or [] other = other
port_or (c ∷ s) other = to_unsigned 16 (atoi s)

abbrev pub default_port : Bytes → ℕ
default_port scheme = if str_eq scheme (codes "https") then 443 else 80

-- Without "://" the whole text, cut to 255 bytes, is host, port and path.
abbrev pub plain_parts : Bytes → Parts
plain_parts text =
    let cut = take 255 text in
    let authority = before b'/' cut in
    record {
      scheme = codes "http";
      host = before b':' authority;
      port = port_or (from b':' authority) 80;
      path = path_or_root (from b'/' cut);
    }

abbrev pub full_parts : Bytes → Bytes → Parts
full_parts scheme text =
    let authority = before b'/' text in
    record {
      scheme = scheme;
      host = take 255 (before b':' authority);
      port = port_or (from b':' authority) (default_port scheme);
      path = path_or_root (from b'/' text);
    }

abbrev pub parts_at : Option ℕ → Bytes → Parts
parts_at none text = plain_parts text
parts_at (some e) text = full_parts (take 15 (take e text)) (drop (e + 3) text)

unfoldable pub url_parts : Bytes → Parts
url_parts text = parts_at (strstr text (codes "://")) text
