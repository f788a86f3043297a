-- ===== src/Cpp/Request.antt =====
-- The class Request of code/logic/fossil/network/request.h: an object holds the C struct itself, which
-- its constructor fills. A std::string is the list of its bytes, and c_str() gives the string in it.
pub mod Made
use fossil_network.Base.{ℕ, Option, none, some, ℤ, get_or}
use fossil_network.Cstr.{Bytes, codes, c_string}
use fossil_network.Request.{
  Request, zero_request, request_init, request_set_header, request_set_body, request_free,
}

-- The constructor; it leaves the result of the call unread.
unfoldable pub constructed : Bytes → Bytes → Request
constructed method url =
    get_or (request_init (some zero_request) (some (c_string method)) (some (c_string url))).1
      zero_request

unfoldable pub destructed : Request → Request
destructed req = get_or (request_free (some req)) req

unfoldable pub set_header : Bytes → Bytes → Request → ℤ × Request
set_header key value req =
    let (code, req') =
      request_set_header (some req) (some (c_string key)) (some (c_string value)) in
    (code, get_or req' req)

unfoldable pub set_body : Option Bytes → ℕ → Bytes → Request → ℤ × Request
set_body body size content_type req =
    let (code, req') = request_set_body (some req) body size (some (c_string content_type)) in
    (code, get_or req' req)

unfoldable pub get : Bytes → Request
get url = constructed (codes "get") url

unfoldable pub post : Bytes → Request
post url = constructed (codes "post") url

unfoldable pub put : Bytes → Request
put url = constructed (codes "put") url

unfoldable pub del : Bytes → Request
del url = constructed (codes "delete") url

unfoldable pub patch : Bytes → Request
patch url = constructed (codes "patch") url

unfoldable pub head : Bytes → Request
head url = constructed (codes "head") url
