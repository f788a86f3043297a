-- ===== src/Http/Build.antt =====
-- fossil__http_build_request of code/logic/request.c. The output buffer and the offset into it are
-- the state; each `snprintf(buffer + offset, size - offset, ...)` with its check is `emit`. A copy
-- outside the buffer is the result `fault`.
pub mod Spec
pub mod FromUrl
pub mod Refine
pub mod Message
use fossil_network.Base.{
  ℕ, zero, suc, ◌+◌, ◌-◌, ◌%◌, ◌^◌, Bool, true, false, not, ◌&&◌, ◌||◌, List, [], ◌∷◌, ◌++◌, Option,
  none, some, ltb, leb, ◌==◌, if◌then◌else◌, length, take, drop,
}
use fossil_network.Cstr.{Bytes, codes, c_string, crlf, str_eq, memcpy_at, snprintf_at}
use fossil_network.Cstr.Decimal.{decimal}
use fossil_network.Request.{Header, Request}
use fossil_network.Url.{Url, zero_url, parse_into}

-- `failed` is the result -1, with the buffer as it is then; `fault` is a write outside the buffer.
pub data Result {ℓ} (A : Type ℓ) : Type ℓ where
  ok : A → Result A
  failed : Bytes → Result A
  fault : Result A

infixl 5 ◌>>=◌
abbrev pub ◌>>=◌ {ℓ κ} : {A : Type ℓ} {B : Type κ} → Result A → (A → Result B) → Result B
ok a >>= f = f a
failed b >>= f = failed b
fault >>= f = fault

pub record Out : Type 0 where
  pub buffer : Bytes
  pub offset : ℕ

-- One print with its check: `if ((uint32_t)n >= size - offset) return -1; offset += n`.
unfoldable pub emit : ℕ → Bytes → Out → Result Out
unfolding snprintf_at
emit size text o =
    let buffer = snprintf_at o.buffer o.offset (size - o.offset) text in
    if leb (size - o.offset) (length text)
    then failed buffer
    else ok (record { buffer = buffer; offset = o.offset + length text })

-- The URL as far as the serializer needs it: the path to print, and the parsed URL where its host
-- is not empty.
pub record Target : Type 0 where
  pub path : Bytes
  pub parsed : Url
  pub parsed_host_available : Bool

abbrev pub is_empty : Bytes → Bool
is_empty [] = true
is_empty (c ∷ s) = false

unfoldable pub target_of : Bytes → Bytes → Target
target_of stack url =
    let parsed = parse_into stack url zero_url in
    if is_empty url
    then record { path = codes "/"; parsed = zero_url; parsed_host_available = false }
    else if not (is_empty (c_string parsed.host))
    then record {
      path = if not (is_empty (c_string parsed.path)) then c_string parsed.path else codes "/";
      parsed = parsed;
      parsed_host_available = true;
    }
    else record { path = url; parsed = parsed; parsed_host_available = false }

abbrev pub request_line : Bytes → Bytes → Bytes
request_line method path = method ++ (codes " " ++ (path ++ (codes " HTTP/1.1" ++ crlf)))

-- The loop that looks for a header of that name.
unfoldable pub has_header : Bytes → List Header → ℕ → Bool
has_header name hs zero = false
has_header name [] (suc n) = false
has_header name (h ∷ hs) (suc n) = str_eq (c_string h.key) name || has_header name hs n

-- Whether the port stands in the Host header.
unfoldable pub shows_port : Url → Bool
shows_port u =
    (str_eq (c_string u.scheme) (codes "http") && not (u.port == 80))
    || (str_eq (c_string u.scheme) (codes "https") && not (u.port == 443))
    || (u.port == 0)

unfoldable pub host_line : Target → Bytes
unfolding shows_port
host_line t =
    if t.parsed_host_available
    then if shows_port t.parsed
      then codes "Host: "
        ++ (c_string t.parsed.host ++ (codes ":" ++ (decimal t.parsed.port ++ crlf)))
      else codes "Host: " ++ (c_string t.parsed.host ++ crlf)
    else codes "Host: localhost" ++ crlf

abbrev pub connection_line : Bytes
connection_line = codes "Connection: close" ++ crlf

abbrev pub header_line : Header → Bytes
header_line h = c_string h.key ++ (codes ": " ++ (c_string h.value ++ crlf))

-- The loop over the user's headers.
unfoldable pub emit_headers : ℕ → List Header → ℕ → Out → Result Out
unfolding emit
emit_headers size hs zero o = ok o
emit_headers size [] (suc n) o = ok o
emit_headers size (h ∷ hs) (suc n) o = emit size (header_line h) o >>= emit_headers size hs n

-- `req->body && req->body_size > 0`
abbrev pub sends_body : Option Bytes → ℕ → Bool
sends_body none n = false
sends_body (some b) n = ltb 0 n

abbrev pub emit_if : Bool → ℕ → Bytes → Out → Result Out
emit_if b size text o = if b then emit size text o else ok o

-- `emit_body` copies the body: the check is made in 32 bits, and the body is not printed.
unfoldable pub emit_body : ℕ → Option Bytes → ℕ → Out → Result Out
emit_body size none n o = ok o
emit_body size (some body) n o =
    if ltb 0 n
    then if ltb size ((o.offset + n) % 2 ^ 32)
      then failed o.buffer
      else if leb (o.offset + n) size && leb n (length body)
      then ok
          (record { buffer = memcpy_at o.buffer o.offset body n; offset = (o.offset + n) % 2 ^ 32 })
      else fault
    else ok o

-- The whole function where no pointer is NULL and the size is not 0; the result holds the buffer
-- and `*out_size`.
unfoldable pub build_request : Bytes → Request → Bytes → ℕ → Result Out
unfolding target_of has_header host_line emit emit_headers emit_body
build_request stack req buffer size =
    let t = target_of stack (c_string req.url) in
    let has_host = has_header (codes "Host") req.headers req.header_count in
    let has_connection = has_header (codes "Connection") req.headers req.header_count in
    let body = sends_body req.body req.body_size in
    emit size (request_line (c_string req.method) t.path) (record { buffer = buffer; offset = 0 })
    >>= emit_if (not has_host) size (host_line t)
    >>= emit_if (not has_connection) size connection_line
    >>= emit_headers size req.headers req.header_count
    >>= emit_if body size (codes "Content-Type: " ++ (c_string req.content_type ++ crlf))
    >>= emit_if body size (codes "Content-Length: " ++ (decimal req.body_size ++ crlf))
    >>= emit size crlf
    >>= emit_body size req.body req.body_size

unfoldable pub http_build_request :
    Bytes → Option Request → Option Bytes → ℕ → Option ℕ → Result Out
http_build_request stack (some req) (some buffer) size (some out_size) =
    if size == 0 then failed buffer else build_request stack req buffer size
http_build_request stack _ (some buffer) size _ = failed buffer
http_build_request stack _ none size _ = failed []
