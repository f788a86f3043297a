-- ===== src/Request/Tests.antt =====
-- Runs of code/logic/request.c on small requests, and the theorems about requests at them.
use fossil_network.Base.{
  ◌≡◌, ◌⊎◌, refl, inl, arith, Option, none, some, [], ◌∷◌, ◌++◌, success, failure, length, take,
  drop, get_or, replicate, ◌<◌,
}
use fossil_network.Cstr.{Bytes, codes, c_string, str_eq, zeroed, copy_string, safe_copy}
use fossil_network.Cstr.Copy.{safe_copy_bounded}
use fossil_network.Request.{
  Request, Response, zero_request, zero_response, initial_request, request_init, put_header,
  request_set_header, find_header, write_header, validate_method, response_get_header,
}
use fossil_network.Request.Body.{get_header_lem}
use fossil_network.Request.Build.{initial_request-IsValid}
use fossil_network.Request.Fields.{lookup, put}
use fossil_network.Request.Reach.{Reaches, inits}
use fossil_network.Request.Table.{entries, request_fields, Follows, with_table, put_header_refines}
use fossil_network.Request.Valid.{RequestIsValid}

abbrev get_name : Bytes
get_name = codes "get"

abbrev example_url : Bytes
example_url = codes "http://example.com/x"

abbrev start : Request
start = initial_request get_name example_url

start-IsValid : RequestIsValid start
start-IsValid = initial_request-IsValid get_name example_url (inl refl) (omega arith) (omega arith)

abbrev accept : Bytes
accept = codes "Accept"

abbrev any_type : Bytes
any_type = codes "*/*"

initialised :
    request_init (some zero_request) (some get_name) (some example_url) ≡ (success, some start)
unfolding request_init validate_method str_eq
initialised = refl

stored_field : request_fields (put_header start accept any_type).1 ≡ (accept, any_type) ∷ []
unfolding put_header find_header write_header initial_request entries copy_string c_string
stored_field = refl

put_header_refines_example :
    Follows
      (put accept any_type (request_fields start))
      (request_fields start)
      (put_header start accept any_type).0
      (request_fields (put_header start accept any_type).1)
    × ((put_header start accept any_type).1 ≡ with_table start (put_header start accept any_type).1)
put_header_refines_example =
    put_header_refines start accept any_type start-IsValid (omega arith) (omega arith)

abbrev long_key : Bytes
long_key = replicate 70 b'k'

start_reached : Reaches start
start_reached = inits zero_request get_name example_url (omega arith) (omega arith) initialised

accept_set :
    request_set_header (some start) (some accept) (some any_type)
    ≡ ((put_header start accept any_type).0, some (put_header start accept any_type).1)
unfolding request_set_header
accept_set = refl

abbrev json : Option Bytes
json = some (codes "application/json")

abbrev answer : Response
answer = record zero_response {
  headers = record { key = accept ++ 0 ∷ []; value = any_type ++ 0 ∷ [] } ∷ [];
  header_count = 1;
}

abbrev reply_buffer : Bytes
reply_buffer = zeroed 8

get_header_lem_example :
    ((v out : Bytes) × (lookup accept (entries answer.headers answer.header_count) ≡ some v)
      × (response_get_header (some answer) (some accept) (some reply_buffer) 4
          ≡ (success, some out))
      × (c_string out ≡ take 3 v)
      × (length out ≡ length reply_buffer)
      × (drop 4 out ≡ drop 4 reply_buffer))
    ⊎ ((lookup accept (entries answer.headers answer.header_count) ≡ none)
        × (response_get_header (some answer) (some accept) (some reply_buffer) 4
            ≡ (failure, some reply_buffer)))
get_header_lem_example = get_header_lem answer accept reply_buffer 4 (omega arith) (omega arith)

safe_copy_bounded_example :
    (out : Bytes) × (safe_copy (some reply_buffer) (some example_url) 8 ≡ some out)
    × (length out ≡ length reply_buffer)
    × (drop 8 out ≡ drop 8 reply_buffer)
    × (0 < 8 → c_string out ≡ take 7 (get_or (some example_url) []))
safe_copy_bounded_example =
    safe_copy_bounded reply_buffer (some example_url) 8 (omega arith) ((omega arith), tt)
