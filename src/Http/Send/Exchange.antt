-- ===== src/Http/Send/Exchange.antt =====
-- What fossil_net_request_send puts on the wire, and what it makes of the answer.
use fossil_network.Base.{
  ℕ, ℤ, ◌⊎◌, ◌+◌, ◌%◌, ◌^◌, ◌≡◌, ◌≤◌, ◌<◌, refl, ap, ◌∙◌, arith, Bool, ◌++◌, some, inl, inr, length,
  take, take_of_length, drop_of_length, append-nil, ap₂, All, to_list, pos, negsuc, failure,
}
use fossil_network.Cstr.{Bytes, IsText, memcpy}
use fossil_network.Http.Build.{ok, Out, http_build_request}
use fossil_network.Http.Build.Message.{build_request_lem}
use fossil_network.Http.Build.Spec.{request_head, request_body}
use fossil_network.Http.Parse.{returns, fault, http_parse_response}
use fossil_network.Http.Parse.Faults.{parse_response_unterminated}
use fossil_network.Http.Send.{Locals, after_build, after_send, after_receive, request_send}
use fossil_network.Os.{Os}
use fossil_network.Request.{Request, Response}
use fossil_network.Socket.{Socket, send, receive}

-- A request whose message fits the buffer of 8192 bytes, and the local arrays of 2048 and 8192 bytes.
pub record Fits (locals : Locals) (req : Request) : Type 0 where
  pub temp_size : length locals.temp ≡ 2048
  pub buffer_size : length locals.buffer ≡ 8192
  pub body_small : req.body_size < 2 ^ 32
  pub body_held : All (λ b. req.body_size ≤ length b) (to_list req.body)
  pub head_fits : length (request_head req) < 8192
  pub message_fits : length (request_head req) + length (request_body req) ≤ 8192

abbrev pub message : Request → Bytes
message req = request_head req ++ request_body req

built :
    (locals : Locals) (req : Request)
    → Fits locals req
    → (o : Out) × (http_build_request locals.temp (some req) (some locals.buffer) 8192 (some 0)
        ≡ ok o)
      × (take o.offset o.buffer ≡ message req)
unfolding http_build_request
built locals req f =
    elim (build_request_lem locals.temp req locals.buffer 8192 f.temp_size (omega arith)
      (omega arith) f.buffer_size f.body_small f.body_held) [
        | inl (over, _) ↦ absurd (omega (arith, f.head_fits))
        | inr (_, inl (_, (o, e, c))) ↦ (o, e, c.text_is)
        | inr (_, inr (inl (over, _, _))) ↦ absurd (omega (arith, f.message_fits))
        | inr (_, inr (inr (over, _))) ↦ absurd (omega (arith, f.message_fits))
      ]

module _ {W : Type 0} (os : Os W) (malloc : ℕ → Bool) (locals : Locals) (sock : Socket)
    (req : Request) (res : Response) (w w1 w2 : W) (f : Fits locals req) where
  request_send-refused :
      (n : ℕ)
      → os.send sock.handle (message req) w ≡ (negsuc n, w1)
      → request_send os malloc locals (some sock) (some req) (some res) w
        ≡ (returns failure (some res), w1)
  unfolding request_send after_build after_send send
  request_send-refused n s = let (o, e, text) = built locals req f in rw (e, text, s) refl

  request_send-unanswered :
      (n m : ℕ) (bytes : Bytes)
      → os.send sock.handle (message req) w ≡ (pos n, w1)
      → os.recv sock.handle 16384 w1 ≡ ((negsuc m, bytes), w2)
      → request_send os malloc locals (some sock) (some req) (some res) w
        ≡ (returns failure (some res), w2)
  unfolding request_send after_build after_send after_receive send receive
  request_send-unanswered n m bytes s g =
      let (o, e, text) = built locals req f in rw (e, text, s, g) refl

  request_send-exchange :
      (n r : ℕ) (bytes : Bytes)
      → os.send sock.handle (message req) w ≡ (pos n, w1)
      → os.recv sock.handle 16384 w1 ≡ ((pos r, bytes), w2)
      → length bytes ≤ 16384
      → request_send os malloc locals (some sock) (some req) (some res) w ≡ (
        http_parse_response malloc
            (some res)
            (some (memcpy locals.recv_buf bytes (length bytes)))
            (r % 2 ^ 32),
        w2,
      )
  unfolding request_send after_build after_send after_receive send receive
  request_send-exchange n r bytes s g small =
      let (o, e, text) = built locals req f in
      let whole : take 16384 bytes ≡ bytes = take_of_length 16384 bytes small in
      rw (e, text, s, g, whole) refl

  -- For a request whose body has at least body_size bytes, a number of 32 bits, and whose message
  -- fits the buffer of 8192 bytes, with 2048 bytes for the copy of the URL: exactly the message is
  -- handed to send, in one call. Where send gives a negative number, the result is -1, the
  -- response is not touched and recv is not called. Otherwise recv is called once, for 16384
  -- bytes. Where it gives a negative number, the result is -1 and the response is not touched.
  -- Where it gives another number and at most 16384 bytes, these are parsed with that number, over
  -- the start of the local buffer and together with the bytes that the buffer held behind them.
  pub request_send_lem :
      (s r : ℤ) (bytes : Bytes)
      → os.send sock.handle (message req) w ≡ (s, w1)
      → os.recv sock.handle 16384 w1 ≡ ((r, bytes), w2)
      → length bytes ≤ 16384
      → ((n : ℕ) × (s ≡ negsuc n)
          × (request_send os malloc locals (some sock) (some req) (some res) w
              ≡ (returns failure (some res), w1)))
        ⊎ ((n : ℕ) × (m : ℕ) × (s ≡ pos n)
            × (r ≡ negsuc m)
            × (request_send os malloc locals (some sock) (some req) (some res) w
                ≡ (returns failure (some res), w2)))
        ⊎ ((n : ℕ) × (m : ℕ) × (s ≡ pos n)
            × (r ≡ pos m)
            × (request_send os malloc locals (some sock) (some req) (some res) w ≡ (
              http_parse_response malloc
                  (some res)
                  (some (memcpy locals.recv_buf bytes (length bytes)))
                  (m % 2 ^ 32),
              w2,
            )))
  request_send_lem (negsuc n) r bytes s g small = inl (n, refl, request_send-refused n s)
  request_send_lem (pos n) (negsuc m) bytes s g small =
      inr (inl (n, m, refl, refl, request_send-unanswered n m bytes s g))
  request_send_lem (pos n) (pos m) bytes s g small =
      inr (inr (n, m, refl, refl, request_send-exchange n m bytes s g small))

  -- For a request whose message fits the buffer of 8192 bytes and is sent, an answer that fills
  -- the local buffer of 16384 bytes and holds no NUL is read past the end of the buffer.
  pub request_send-fault :
      (n : ℕ) (bytes : Bytes)
      → os.send sock.handle (message req) w ≡ (pos n, w1)
      → os.recv sock.handle 16384 w1 ≡ ((pos 16384, bytes), w2)
      → length bytes ≡ 16384
      → length locals.recv_buf ≡ 16384
      → IsText bytes
      → request_send os malloc locals (some sock) (some req) (some res) w ≡ (fault, w2)
  request_send-fault n bytes s g full size t =
      let whole : memcpy locals.recv_buf bytes (length bytes) ≡ bytes =
        ap₂ ◌++◌ (take_of_length (length bytes) bytes (omega arith))
          (drop_of_length (length bytes) locals.recv_buf (omega (arith, full, size)))
        ∙ append-nil bytes in
      request_send-exchange n 16384 bytes s g (omega (arith, full))
      ∙ ap (λ o. (o, w2))
          (ap (λ m. http_parse_response malloc (some res) (some m) (16384 % 2 ^ 32)) whole
            ∙ parse_response_unterminated malloc res bytes (16384 % 2 ^ 32) t)
