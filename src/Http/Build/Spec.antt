-- ===== src/Http/Build/Spec.antt =====
-- The text of a request, stated on its fields: a request line, Host and Connection unless the user
-- set them, the user's fields in order, the type and length of a body, an empty line, the body.
use fossil_network.Base.{
  ℕ, zero, suc, ◌==◌, Bool, true, false, not, [], ◌∷◌, ◌++◌, Option, none, some, if◌then◌else◌,
  take,
}
use fossil_network.Cstr.{Bytes, codes, crlf, c_string, str_eq}
use fossil_network.Cstr.Decimal.{decimal}
use fossil_network.Request.{Request}
use fossil_network.Request.Fields.{Fields, lookup}
use fossil_network.Request.Table.{request_fields}
use fossil_network.Url.Spec.{Parts, url_parts}

abbrev pub is_set : Option Bytes → Bool
is_set none = false
is_set (some v) = true

abbrev pub default_line : Bytes → Bytes → Fields → Bytes
default_line name line fs = if not (is_set (lookup name fs)) then line else []

unfoldable pub field_lines : Fields → Bytes
field_lines [] = []
field_lines ((k, v) ∷ fs) = (k ++ (codes ": " ++ (v ++ crlf))) ++ field_lines fs

abbrev pub body_line : Bool → Bytes → Bytes → Bytes
body_line b name value = if b then name ++ (value ++ crlf) else []

-- The port that a Host header leaves out: 80 and 443 for http and https, and any but 0 for another
-- scheme.
abbrev pub port_is_usual : Bytes → ℕ → Bool
port_is_usual scheme port =
    if str_eq scheme (codes "http")
    then port == 80
    else if str_eq scheme (codes "https")
    then port == 443
    else not (port == 0)

abbrev pub authority : Parts → Bytes
authority p =
    if port_is_usual p.scheme p.port then p.host else p.host ++ (codes ":" ++ decimal p.port)

-- A URL without a host is asked for at localhost.
abbrev pub host_or_local : Bytes → Parts → Bytes
host_or_local [] p = codes "localhost"
host_or_local (c ∷ host) p = authority p

abbrev pub host_value : Bytes → Parts → Bytes
host_value [] p = codes "localhost"
host_value (c ∷ url) p = host_or_local p.host p

-- The path of the URL, or the URL itself where it has no host.
abbrev pub path_or_url : Bytes → Bytes → Bytes → Bytes
path_or_url [] path url = url
path_or_url (c ∷ host) path url = path

abbrev pub requested_path : Bytes → Parts → Bytes
requested_path [] p = codes "/"
requested_path (c ∷ url) p = path_or_url p.host p.path (c ∷ url)

-- A body that is there and has at least one byte
abbrev pub carries_body : Option Bytes → ℕ → Bool
carries_body none n = false
carries_body (some body) zero = false
carries_body (some body) (suc n) = true

-- Everything up to the empty line, it included. Of the URL, 2047 bytes are parsed.
unfoldable pub request_head : Request → Bytes
request_head req =
    let url = c_string req.url in
    let parts = url_parts (take 2047 url) in
    let fs = request_fields req in
    let body = carries_body req.body req.body_size in
    ((((((c_string req.method
                ++ (codes " " ++ (requested_path url parts ++ (codes " HTTP/1.1" ++ crlf))))
              ++ default_line (codes "Host") (codes "Host: " ++ (host_value url parts ++ crlf)) fs)
            ++ default_line (codes "Connection") (codes "Connection: close" ++ crlf) fs)
          ++ field_lines fs)
        ++ body_line body (codes "Content-Type: ") (c_string req.content_type))
      ++ body_line body (codes "Content-Length: ") (decimal req.body_size))
    ++ crlf

abbrev pub payload : Option Bytes → ℕ → Bytes
payload none n = []
payload (some body) n = take n body

abbrev pub request_body : Request → Bytes
request_body req = payload req.body req.body_size
