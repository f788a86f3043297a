-- ===== src/Http/Send/Tests.antt =====
-- A request sent over the system of Os/Demo, and over one whose answer fills the buffer.
use fossil_network.Base.{
  ℕ, zero, suc, ◌%◌, ◌^◌, ◌≡◌, refl, arith, [], ◌++◌, true, some, length, replicate,
  length-replicate, to_unsigned, pos, negsuc, ◌⊎◌, failure,
}
use fossil_network.Cstr.{Bytes, IsText, codes, crlf, c_string, zeroed, memcpy, str_eq}
use fossil_network.Http.Build.Spec.{request_head, field_lines}
use fossil_network.Request.Fields.{lookup}
use fossil_network.Request.Table.{entries}
use fossil_network.Http.Parse.{fault, returns, http_parse_response}
use fossil_network.Http.Send.{Locals, request_send}
use fossil_network.Http.Send.Exchange.{Fits, message, request_send_lem, request_send-fault}
use fossil_network.Cstr.Decimal.{atoi, decimal}
use fossil_network.Cstr.Cut.{before, from}
use fossil_network.Cstr.Search.{starts_with, strstr}
use fossil_network.Url.Spec.{url_parts}
use fossil_network.Os.{Os}
use fossil_network.Os.Demo.{World, world, demo}
use fossil_network.Request.{Request, zero_request, zero_response}
use fossil_network.Socket.{Socket, zero_socket}

abbrev locals : Locals
locals = record { temp = zeroed 2048; buffer = zeroed 8192; recv_buf = zeroed 16384 }

abbrev request : Request
request = record zero_request { method = codes "get"; url = [] }

abbrev head : Bytes
head =
    codes "get / HTTP/1.1"
    ++ (crlf
        ++ (codes "Host: localhost" ++ (crlf ++ (codes "Connection: close" ++ (crlf ++ crlf)))))

head_text : request_head request ≡ head
unfolding request_head c_string entries lookup field_lines
head_text = refl

-- A port that is not the usual one of its scheme stands behind the host.
port_text :
    request_head (record zero_request { method = codes "get"; url = codes "https://h:80/x" })
    ≡ codes "get /x HTTP/1.1"
      ++ (crlf ++ (codes "Host: h:80" ++ (crlf ++ (codes "Connection: close" ++ (crlf ++ crlf)))))
unfolding request_head url_parts strstr starts_with c_string entries lookup field_lines decimal
    before from str_eq to_unsigned atoi
port_text = refl

fits : Fits locals request
fits = record {
  temp_size = length-replicate {A = ℕ} 2048 0;
  buffer_size = length-replicate {A = ℕ} 8192 0;
  body_small = omega arith;
  body_held = tt;
  head_fits = rw head_text (omega arith);
  message_fits = rw head_text (omega arith);
}

abbrev sock : Socket
sock = record zero_socket { handle = pos 3 }

abbrev flood : Os World
flood = record demo { recv = λ fd size w. ((pos 16384, replicate 16384 65), w) }

letters-IsText : (n : ℕ) → IsText (replicate n 65)
letters-IsText zero = tt
letters-IsText (suc n) = ((λ e. omega arith), letters-IsText n)

-- The peer resets the connection, and recv writes nothing.
abbrev silent : Os World
silent = record demo { recv = λ fd size w. ((negsuc 0, []), w) }

request_send_lem_example :
    ((n : ℕ) × (pos (length (message request)) ≡ negsuc n)
      × (request_send silent
            (λ n. true)
            locals
            (some sock)
            (some request)
            (some zero_response)
            world
          ≡ (returns failure (some zero_response), record world { sent = message request })))
    ⊎ ((n : ℕ) × (m : ℕ) × (pos (length (message request)) ≡ pos n)
        × (negsuc 0 ≡ negsuc m)
        × (request_send silent
              (λ n. true)
              locals
              (some sock)
              (some request)
              (some zero_response)
              world
            ≡ (returns failure (some zero_response), record world { sent = message request })))
    ⊎ ((n : ℕ) × (m : ℕ) × (pos (length (message request)) ≡ pos n)
        × (negsuc 0 ≡ pos m)
        × (request_send silent
              (λ n. true)
              locals
              (some sock)
              (some request)
              (some zero_response)
              world
            ≡ (
              http_parse_response
                  (λ n. true)
                  (some zero_response)
                  (some (memcpy (zeroed 16384) [] (length {A = ℕ} [])))
                  (m % 2 ^ 32),
              record world { sent = message request },
            )))
request_send_lem_example =
    request_send_lem silent (λ n. true) locals sock request zero_response world
      (record world { sent = message request }) (record world { sent = message request }) fits
      (pos (length (message request))) (negsuc 0) [] refl refl (omega arith)

request_send-fault_example :
    request_send flood (λ n. true) locals (some sock) (some request) (some zero_response) world
    ≡ (fault, record world { sent = message request })
request_send-fault_example =
    request_send-fault flood (λ n. true) locals sock request zero_response world
      (record world { sent = message request }) (record world { sent = message request }) fits
      (length (message request)) (replicate 16384 65) refl refl (length-replicate {A = ℕ} 16384 65)
      (length-replicate {A = ℕ} 16384 0) (letters-IsText 16384)
