-- ===== src/Http/Send.antt =====
-- fossil_net_request_send of code/logic/request.c: the request is serialised into a buffer of 8192
-- bytes, sent once, and what one receive gives is parsed. The bytes that the two local buffers hold
-- at first are arguments.
pub mod Exchange
mod Tests
use fossil_network.Address.{is_zero}
use fossil_network.Base.{ℕ, Bool, Option, none, some, if◌then◌else◌, ℤ, failure}
use fossil_network.Cstr.{Bytes}
use fossil_network.Http.Build.{Result, ok, failed, Out, http_build_request}
use fossil_network.Http.Build as Build
use fossil_network.Http.Parse.{Outcome, returns, fault, http_parse_response}
use fossil_network.Os.{Os}
use fossil_network.Request.{Request, Response}
use fossil_network.Socket.{Socket, send, receive}

-- The local arrays: `temp` of the URL parser, `buffer` and `recv_buf`.
pub record Locals : Type 0 where
  pub temp : Bytes
  pub buffer : Bytes
  pub recv_buf : Bytes

unfoldable pub after_receive :
    {W : Type 0} → (ℕ → Bool) → Response → (ℤ × (Option Bytes × Option ℕ)) × W → Outcome × W
after_receive malloc res ((ret, (some recv_buf, some received)), w) =
    if is_zero ret
    then (http_parse_response malloc (some res) (some recv_buf) received, w)
    else (returns failure (some res), w)
after_receive malloc res (_, w) = (returns failure (some res), w)

module _ {W : Type 0} (os : Os W) (malloc : ℕ → Bool) (locals : Locals) (sock : Socket)
    (res : Response) where
  unfoldable pub after_send : (ℤ × Option ℕ) × W → Outcome × W
  unfolding after_receive
  after_send ((ret, sent), w) =
      let rest =
        after_receive malloc res (receive os (some sock) (some locals.recv_buf) 16384 (some 0) w) in
      if is_zero ret then rest else (returns failure (some res), w)

  unfoldable pub after_build : Result Out → W → Outcome × W
  unfolding after_send
  after_build (ok o) w = after_send (send os (some sock) (some o.buffer) o.offset (some 0) w)
  after_build (failed b) w = (returns failure (some res), w)
  after_build Build.fault w = (fault, w)

unfoldable pub request_send :
    {W : Type 0}
    → Os W
    → (ℕ → Bool)
    → Locals
    → Option Socket
    → Option Request
    → Option Response
    → W
    → Outcome × W
unfolding after_build
request_send os malloc locals (some sock) (some req) (some res) w =
    after_build os malloc locals sock res
      (http_build_request locals.temp (some req) (some locals.buffer) 8192 (some 0)) w
request_send os malloc locals sock req res w = (returns failure res, w)
