-- ===== src/Http/Tests.antt =====
-- Runs of the serializer and of the parser, and the theorems about them at small messages.
use fossil_network.Base.{
  ℕ, ◌≡◌, ◌≤◌, ◌<◌, ◌⊎◌, refl, arith, none, some, [], ◌∷◌, ◌++◌, Bool, true, false, success,
  failure, length-replicate, if◌then◌else◌, length,
}
use fossil_network.Cstr.{Bytes, codes, crlf, zeroed}
use fossil_network.Cstr.Decimal.{decimal, is_space, is_digit}
use fossil_network.Cstr.Search.{starts_with, strstr}
use fossil_network.Http.Build.{build_request, failed}
use fossil_network.Http.Build.Message.{build_request_lem, Finishes}
use fossil_network.Http.Build.Spec.{request_head, request_body}
use fossil_network.Http.Parse.{returns, fault, http_parse_response}
use fossil_network.Http.Parse.Body.{PlainResponse, Reads, parse_response_drops_body}
use fossil_network.Http.Parse.Faults.{parse_response_broken_line}
use fossil_network.Http.Parse.Kept.{parse_response_keeps_body}
use fossil_network.Http.Parse.Line.{PlainKey, PlainValue, Blanks}
use fossil_network.Http.Parse.RoundTrip.{response_text, lines}
use fossil_network.Http.Parse.Status.{status_line}
use fossil_network.Http.Parse.Total.{ResponseIsValid, Leaves, parse_response-IsValid}
use fossil_network.Request.{Request, Response, zero_response, initial_request}
use fossil_network.Request.Fields.{Fields}

abbrev stack : Bytes
stack = zeroed 2048

abbrev post : Request
post = record (initial_request (codes "post") (codes "http://h/p")) {
  body = some (codes "a=1");
  body_size = 3;
}

abbrev buffer : Bytes
buffer = zeroed 200

build_request_lem_example :
    ((200 ≤ length (request_head post))
      × ((b : Bytes) × (build_request stack post buffer 200 ≡ failed b)))
    ⊎ ((length (request_head post) < 200)
        × Finishes 200
            (build_request stack post buffer 200)
            (request_head post)
            (request_body post))
build_request_lem_example =
    build_request_lem stack post buffer 200 (length-replicate {A = ℕ} 2048 0) (omega arith)
      (omega arith) (omega arith) (omega arith) ((omega arith), tt)

abbrev version : Bytes
version = codes "1.1"

abbrev reason : Bytes
reason = codes " OK"

abbrev fields : Fields
fields = (codes "Server", codes "x y") ∷ (codes "Content-Length", codes "5") ∷ []

server_key : PlainKey (codes "Server")
server_key = record {
  key_nonempty = omega arith;
  key_fits = omega arith;
  key_lacks_nul = omega arith;
  key_lacks_colon = omega arith;
  key_lacks_return = omega arith;
}

server_value : PlainValue (codes "x y")
unfolding is_space
server_value = record {
  value_starts = refl;
  value_fits = omega arith;
  value_lacks_nul = omega arith;
  value_lacks_return = omega arith;
  value_lacks_newline = omega arith;
}

plain : PlainResponse version 200 reason fields
unfolding is_space is_digit
plain = record {
  good_version = (omega arith, (refl, (refl, (refl, tt))), omega arith, omega arith);
  small_status = omega arith;
  good_reason = (refl, omega arith, omega arith);
  good_fields = (
    server_key,
    server_value,
    (
      record {
        key_nonempty = omega arith;
        key_fits = omega arith;
        key_lacks_nul = omega arith;
        key_lacks_colon = omega arith;
        key_lacks_return = omega arith;
      },
      record {
        value_starts = refl;
        value_fits = omega arith;
        value_lacks_nul = omega arith;
        value_lacks_return = omega arith;
        value_lacks_newline = omega arith;
      },
      tt,
    ),
  );
  room = omega arith;
}

abbrev always : ℕ → Bool
always n = true

abbrev hello : Bytes
hello = codes "hello"

hello-ordinary : (starts_with crlf hello ≡ false) × (strstr hello (crlf ++ crlf) ≡ none)
unfolding strstr starts_with
hello-ordinary = (refl, refl)

parse_response_drops_body_example :
    (res : Response) × (http_parse_response always
        (some zero_response)
        (some (response_text version 200 reason fields hello ++ 0 ∷ []))
        60
      ≡ returns success (some res))
    × Reads res 200 fields
    × (res.body ≡ none)
    × (res.body_size ≡ 0)
parse_response_drops_body_example =
    parse_response_drops_body version reason 200 fields plain always zero_response hello [] 60
      (omega arith) hello-ordinary.0 hello-ordinary.1

parse_response_keeps_body_example :
    (res : Response) × (http_parse_response always
        (some zero_response)
        (some (response_text version 200 reason fields (crlf ++ hello) ++ 0 ∷ []))
        (length (response_text version 200 reason fields (crlf ++ hello)))
      ≡ (if always (length hello)
          then returns success (some (record res { body = some hello; body_size = length hello }))
          else returns failure (some res)))
    × Reads res 200 fields
    × (res.body ≡ none)
parse_response_keeps_body_example =
    parse_response_keeps_body version reason 200 fields plain always zero_response hello []
      (omega arith) (unfold decimal in omega arith)

parse_response_broken_line_example :
    http_parse_response always
      (some zero_response)
      (some ((status_line version 200 reason ++ (crlf ++ lines fields (codes "Via: a"))) ++ 0 ∷ []))
      60
    ≡ fault
parse_response_broken_line_example =
    parse_response_broken_line version reason 200 fields (codes "Via: a") plain (omega arith)
      (omega arith) (omega arith) always zero_response [] 60

three-Blanks : Blanks (codes " \r\n")
unfolding is_space
three-Blanks = (refl, (refl, (refl, tt)))

parse_response-IsValid_example :
    Leaves ResponseIsValid
      (http_parse_response always (some zero_response) (some (hello ++ 0 ∷ [])) 5)
parse_response-IsValid_example = parse_response-IsValid always zero_response (hello ++ 0 ∷ []) 5
