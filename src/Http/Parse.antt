-- ===== src/Http/Parse.antt =====
-- fossil__http_parse_response of code/logic/request.c. The memory from `buffer` on is a list of
-- bytes; a pointer into its string is the rest of the string from there. Reading a string that no
-- NUL ends, `strstr(NULL, ...)` and a copy from outside the memory are `fault`.
pub mod Total
pub mod Line
pub mod Status
pub mod RoundTrip
pub mod Body
pub mod Kept
pub mod Faults
use fossil_network.Base.{
  ℕ, zero, suc, ◌+◌, ◌-◌, ◌%◌, ◌^◌, Bool, true, false, not, ◌&&◌, ◌||◌, List, [], ◌∷◌, ◌++◌, Option,
  none, some, ltb, leb, ◌==◌, if◌then◌else◌, length, take, drop, ℤ, pos, success, failure,
}
use fossil_network.Cstr.{Bytes, codes, crlf, c_string}
use fossil_network.Cstr.Decimal.{skip_spaces}
use fossil_network.Cstr.Scan.{scan_literal, scan_word, scan_int, span}
use fossil_network.Cstr.Search.{starts_with, strstr}
use fossil_network.Request.{Response, zero_response, write_header}

unfoldable pub scan_behind_version : Option Bytes → Option ℤ
scan_behind_version none = none
scan_behind_version (some t) = scan_int t

unfoldable pub scan_behind_http : Option Bytes → Option ℤ
scan_behind_http none = none
scan_behind_http (some r) = scan_behind_version (scan_word r)

-- `sscanf(ptr, "HTTP/%*s %d", &res->status)`; the status stays as it is where the scan fails.
unfoldable pub scan_status : Bytes → Option ℤ
scan_status s = scan_behind_http (scan_literal (codes "HTTP/") s)

abbrev pub not_colon : ℕ → Bool
not_colon c = not (c == b':')

abbrev pub not_line_end : ℕ → Bool
not_line_end c = not (c == b'\r' || c == b'\n')

-- What follows the key: a colon, blanks and the value, which stays empty where the scan fails.
unfoldable pub scan_value : Bytes → Bytes
unfolding span skip_spaces
scan_value [] = []
scan_value (c ∷ r) = if c == b':' then (span 255 not_line_end (skip_spaces r)).0 else []

unfoldable pub scan_behind : Bytes → Bytes → Bytes × Bytes
scan_behind [] r = ([], [])
scan_behind (c ∷ k) r = (c ∷ k, scan_value r)

-- `sscanf(headers, "%63[^:]: %255[^\r\n]", key, value)` on two empty arrays
unfoldable pub scan_header : Bytes → Bytes × Bytes
unfolding scan_behind scan_value span
scan_header s = let (k, r) = span 63 not_colon s in scan_behind k r

-- The header is dropped where 32 are stored.
unfoldable pub add_header : Response → Bytes × Bytes → Response
add_header res (key, value) =
    if ltb res.header_count 32
    then record res {
      headers = write_header res.headers res.header_count key value;
      header_count = res.header_count + 1;
    }
    else res

-- The end of the header loop: at the end of the string or at an empty line.
unfoldable pub at_end : Bytes → Bool
unfolding starts_with
at_end [] = true
at_end (c ∷ s) = starts_with crlf (c ∷ s)

-- Where the loop stops: at a rest of the string, or with `headers == NULL` after a last line that
-- has no line end.
pub data Stop : Type 0 where
  out_of_fuel : Stop
  at_rest : Response → Bytes → Stop
  at_null : Response → Stop

unfoldable pub parse_headers : ℕ → Bytes → Response → Stop
unfolding at_end
parse_headers zero s res = out_of_fuel
parse_headers (suc fuel) s res =
    let res' = add_header res (scan_header s) in
    let after : Stop = elim (strstr s crlf) [
      | none ↦ at_null res'
      | some i ↦ parse_headers fuel (drop (i + 2) s) res'
    ] in
    if at_end s then at_rest res s else after

pub data Outcome : Type 0 where
  returns : ℤ → Option Response → Outcome
  fault : Outcome

-- `malloc` and `memcpy` of the body, which starts `off` bytes into the memory.
unfoldable pub copy_body : (ℕ → Bool) → Response → Bytes → ℕ → ℕ → Outcome
copy_body malloc res mem size off =
    let body_size = (size + 2 ^ 32 - off) % 2 ^ 32 in
    if malloc body_size
    then if leb (off + body_size) (length mem)
      then returns success
          (some (record res { body = some (take body_size (drop off mem)); body_size = body_size }))
      else fault
    else returns failure (some res)

-- The part behind the header loop; `text` is the whole string, and `rest` the part of it at which
-- the loop stopped.
unfoldable pub parse_body : (ℕ → Bool) → Response → Bytes → ℕ → Bytes → Bytes → Outcome
unfolding copy_body
parse_body malloc res mem size text rest = elim (strstr rest (crlf ++ crlf)) [
  | none ↦ returns success (some res)
  | some i ↦ copy_body malloc res mem size (length text - length (drop (i + 4) rest))
]

unfoldable pub finish : (ℕ → Bool) → Bytes → ℕ → Bytes → Stop → Outcome
unfolding parse_body
finish malloc mem size text out_of_fuel = fault
finish malloc mem size text (at_null res) = fault
finish malloc mem size text (at_rest res rest) = parse_body malloc res mem size text rest

unfoldable pub with_status : Response → Option ℤ → Response
with_status res none = res
with_status res (some n) = record res { status = n }

-- The function on a string; every round of the loop takes at least two bytes off it.
unfoldable pub parse_text : (ℕ → Bool) → Bytes → ℕ → Bytes → Outcome
parse_text malloc mem size text =
    let res = with_status zero_response (scan_status text) in
    elim (strstr text crlf) [
      | none ↦ returns failure (some res)
      | some i ↦
          finish malloc mem size text (parse_headers (suc (length text)) (drop (i + 2) text) res)
    ]

unfoldable pub http_parse_response : (ℕ → Bool) → Option Response → Option Bytes → ℕ → Outcome
http_parse_response malloc (some res) (some mem) size =
    if ltb (length (c_string mem)) (length mem)
    then parse_text malloc mem size (c_string mem)
    else fault
http_parse_response malloc res _ size = returns failure res
