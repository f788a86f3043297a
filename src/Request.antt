-- ===== src/Request.antt =====
-- code/logic/fossil/network/request.h and the parts of code/logic/request.c that build a request
-- and read a response: the structs, fossil__validate_method, fossil__validate_content_type,
-- fossil_net_request_init, _set_header, _set_body, _free and fossil_net_response_get_header, _free.
-- An argument that may be NULL is an option, and a function that writes through a pointer returns
-- the new value of what it points to. A char array is the list of all its bytes.
pub mod Valid
pub mod Fields
pub mod Table
pub mod Build
pub mod Headers
pub mod Body
pub mod Reach
mod Tests
use mathlib.Core.Option
use fossil_network.Base.{
  ℕ, zero, suc, ◌+◌, Bool, true, false, List, [], ◌∷◌, Option, none, some, leb, ltb, ◌==◌,
  if◌then◌else◌, length, set, take, replicate, ℤ, pos, negsuc, success, failure,
}
use fossil_network.Cstr.{Bytes, codes, c_string, str_eq, zeroed, copy_string, safe_copy}

pub record Header : Type 0 where
  pub key : Bytes
  pub value : Bytes

-- `body` is what the user's pointer shows, none for NULL.
pub record Request : Type 0 where
  pub method : Bytes
  pub url : Bytes
  pub content_type : Bytes
  pub body : Option Bytes
  pub body_size : ℕ
  pub headers : List Header
  pub header_count : ℕ

-- `body` is the block that malloc gave, none for NULL.
pub record Response : Type 0 where
  pub status : ℤ
  pub content_type : Bytes
  pub body : Option Bytes
  pub body_size : ℕ
  pub headers : List Header
  pub header_count : ℕ

abbrev pub zero_header : Header
zero_header = record { key = zeroed 64; value = zeroed 256 }

abbrev pub zero_request : Request
zero_request = record {
  method = zeroed 16;
  url = zeroed 512;
  content_type = zeroed 64;
  body = none;
  body_size = 0;
  headers = replicate 32 zero_header;
  header_count = 0;
}

abbrev pub zero_response : Response
zero_response = record {
  status = pos 0;
  content_type = zeroed 64;
  body = none;
  body_size = 0;
  headers = replicate 32 zero_header;
  header_count = 0;
}

-- fossil__str_eq
abbrev pub both_equal : Option Bytes → Option Bytes → Bool
both_equal (some a) (some b) = str_eq a b
both_equal _ _ = false

-- `code != 0`
abbrev pub is_nonzero : ℤ → Bool
is_nonzero (pos zero) = false
is_nonzero _ = true

abbrev pub valid_methods : List Bytes
valid_methods =
    codes "get" ∷ codes "post" ∷ codes "put" ∷ codes "delete" ∷ codes "patch" ∷ codes "head" ∷ []

abbrev pub valid_types : List Bytes
valid_types =
    codes "text/plain"
    ∷ codes "application/json"
    ∷ codes "application/xml"
    ∷ codes "application/octet-stream"
    ∷ []

-- The loop of both validations.
unfoldable pub validate_in : Bytes → List Bytes → ℤ
validate_in name [] = failure
validate_in name (v ∷ vs) = if both_equal (some name) (some v) then success else validate_in name vs

unfoldable pub validate_method : Option Bytes → ℤ
unfolding validate_in
validate_method none = failure
validate_method (some method) = validate_in method valid_methods

unfoldable pub validate_content_type : Option Bytes → ℤ
unfolding validate_in
validate_content_type none = failure
validate_content_type (some type) = validate_in type valid_types

-- The request that a successful initialisation leaves.
unfoldable pub initial_request : Bytes → Bytes → Request
initial_request method url = record zero_request {
  method = copy_string (zeroed 16) method 16;
  url = copy_string (zeroed 512) url 512;
  content_type = copy_string (zeroed 64) (codes "text/plain") 64;
  body = none;
  body_size = 0;
  header_count = 0;
}

unfoldable pub request_init : Option Request → Option Bytes → Option Bytes → ℤ × Option Request
unfolding initial_request
request_init (some req) (some method) (some url) =
    if is_nonzero (validate_method (some method))
    then (failure, some req)
    else (success, some (initial_request method url))
request_init req _ _ = (failure, req)

-- The search loop over the first `header_count` headers. The array is never shorter than that.
unfoldable pub find_header : List Header → ℕ → Bytes → Option ℕ
find_header hs zero key = none
find_header [] (suc n) key = none
find_header (h ∷ hs) (suc n) key =
    if both_equal (some (c_string h.key)) (some key)
    then some 0
    else Option.map suc (find_header hs n key)

-- `safe_copy(headers[i].value, value, 256)`
unfoldable pub write_value : List Header → ℕ → Bytes → List Header
write_value [] i value = []
write_value (h ∷ hs) zero value = record h { value = copy_string h.value value 256 } ∷ hs
write_value (h ∷ hs) (suc i) value = h ∷ write_value hs i value

-- Both copies of the part that adds a header.
unfoldable pub write_header : List Header → ℕ → Bytes → Bytes → List Header
write_header [] i key value = []
write_header (h ∷ hs) zero key value =
    record { key = copy_string h.key key 64; value = copy_string h.value value 256 } ∷ hs
write_header (h ∷ hs) (suc i) key value = h ∷ write_header hs i key value

unfoldable pub set_header_at : Option ℕ → Request → Bytes → Bytes → ℤ × Request
set_header_at (some i) req key value =
    (success, record req { headers = write_value req.headers i value })
set_header_at none req key value = if leb 32 req.header_count then (failure, req) else (
  success,
  record req {
    headers = write_header req.headers req.header_count key value;
    header_count = req.header_count + 1;
  },
)

-- fossil_net_request_set_header on pointers that are not NULL
unfoldable pub put_header : Request → Bytes → Bytes → ℤ × Request
unfolding set_header_at
put_header req key value =
    set_header_at (find_header req.headers req.header_count key) req key value

unfoldable pub request_set_header :
    Option Request → Option Bytes → Option Bytes → ℤ × Option Request
request_set_header (some req) (some key) (some value) =
    let (code, req') = put_header req key value in (code, some req')
request_set_header req _ _ = (failure, req)

unfoldable pub request_set_body :
    Option Request → Option Bytes → ℕ → Option Bytes → ℤ × Option Request
request_set_body none body size type = (failure, none)
request_set_body (some req) body size none =
    (success, some (record req { body = body; body_size = size }))
request_set_body (some req) body size (some type) =
    if is_nonzero (validate_content_type (some type)) then (failure, some req) else (
      success,
      some (record req {
        body = body;
        body_size = size;
        content_type = copy_string req.content_type type 64;
      }),
    )

unfoldable pub get_value : List Header → ℕ → Bytes
get_value [] i = []
get_value (h ∷ hs) zero = h.value
get_value (h ∷ hs) (suc i) = get_value hs i

-- What is done with the header that was found; the buffer is written in place.
unfoldable pub copy_found : Option ℕ → Response → Bytes → ℕ → ℤ × Option Bytes
unfolding get_value
copy_found none res buffer size = (failure, some buffer)
copy_found (some i) res buffer size =
    (success, safe_copy (some buffer) (some (c_string (get_value res.headers i))) size)

unfoldable pub response_get_header :
    Option Response → Option Bytes → Option Bytes → ℕ → ℤ × Option Bytes
unfolding copy_found
response_get_header (some res) (some key) (some buffer) size =
    copy_found (find_header res.headers res.header_count key) res buffer size
response_get_header _ _ buffer size = (failure, buffer)

unfoldable pub request_free : Option Request → Option Request
request_free none = none
request_free (some req) = some (record req { body = none; body_size = 0; header_count = 0 })

-- The second component is the block that is passed to free().
unfoldable pub response_free : Option Response → Option Response × Option Bytes
response_free none = (none, none)
response_free (some res) =
    (some (record res { body = none; body_size = 0; header_count = 0 }), res.body)
