-- ===== src/Http/Parse/Kept.antt =====
-- The only place where the parser finds a body: behind a second empty line.
use fossil_network.Base.{
  ℕ, ◌+◌, ◌-◌, ◌%◌, ◌^◌, ◌≡◌, ◌≤◌, ◌<◌, sym, ap, ◌∙◌, subst, Bool, [], ◌∷◌, ◌++◌, none, some, arith,
  if◌then◌else◌, length, length-append, append_assoc, take-append, le→leb, success, failure,
  drop-append,
}
use fossil_network.Cstr.{Bytes, crlf, IsText}
use fossil_network.Cstr.Search.{strstr-append}
use fossil_network.Http.Parse.{returns, parse_body, copy_body, http_parse_response}
use fossil_network.Http.Parse.Body.{
  PlainResponse, Reads, read, read-Reads, read-body, parse_response-text, lines-append,
}
use fossil_network.Http.Parse.RoundTrip.{lines, response_text}
use fossil_network.Http.Parse.Status.{status_line}
use fossil_network.Request.{Response}
use fossil_network.Request.Fields.{Fields}

-- The copy of a body that ends the received bytes.
copy_body-suffix :
    (malloc : ℕ → Bool) (res : Response) (front body junk : Bytes)
    → length (front ++ body) < 2 ^ 32
    → copy_body malloc res ((front ++ body) ++ 0 ∷ junk) (length (front ++ body)) (length front) ≡ (
        if malloc (length body)
        then returns success (some (record res { body = some body; body_size = length body }))
        else returns failure (some res))
unfolding copy_body
copy_body-suffix malloc res front body junk small =
    let total = length-append {0} front body in
    let n_is : (length (front ++ body) + 2 ^ 32 - length front) % 2 ^ 32 ≡ length body =
      omega arith in
    let inside : length front + length body ≤ length ((front ++ body) ++ 0 ∷ junk) =
      omega (arith, length-append {0} (front ++ body) (0 ∷ junk)) in
    rw (
      n_is,
      le→leb _ _ inside,
      append_assoc front body (0 ∷ junk),
      drop-append front (body ++ 0 ∷ junk),
      take-append body (0 ∷ junk),
    )

parse_body-kept :
    (malloc : ℕ → Bool) (res : Response) (front body junk : Bytes)
    → length (front ++ body) < 2 ^ 32
    → parse_body malloc res
        ((front ++ body) ++ 0 ∷ junk)
        (length (front ++ body))
        (front ++ body)
        (crlf ++ (crlf ++ body))
      ≡ (if malloc (length body)
          then returns success (some (record res { body = some body; body_size = length body }))
          else returns failure (some res))
unfolding parse_body
parse_body-kept malloc res front body junk small =
    let off : length (front ++ body) - length body ≡ length front =
      omega (arith, length-append {0} front body) in
    rw (strstr-append [] body b'\r' (b'\n' ∷ crlf) tt, parse_body, off)
      (copy_body-suffix malloc res front body junk small)

-- Everything in front of the body.
front_of : Bytes → ℕ → Bytes → Fields → Bytes
front_of version status reason fs =
    status_line version status reason ++ (crlf ++ lines fs (crlf ++ crlf))

front_of-body :
    (version : Bytes) (status : ℕ) (reason : Bytes) (fs : Fields) (body : Bytes)
    → response_text version status reason fs (crlf ++ body)
      ≡ front_of version status reason fs ++ body
unfolding front_of
front_of-body version status reason fs body =
    ap (λ t. status_line version status reason ++ (crlf ++ t)) (lines-append fs (crlf ++ crlf) body)
    ∙ sym (append_assoc (status_line version status reason) (crlf ++ lines fs (crlf ++ crlf)) body)

-- With a second empty line before it, the body of a plain response is stored whole if `malloc`
-- gives the block; if it does not, the result is -1 and the response has its headers and no body.
pub parse_response_keeps_body :
    (version reason : Bytes) (status : ℕ) (fs : Fields)
    → PlainResponse version status reason fs
    → (malloc : ℕ → Bool) (old : Response) (body junk : Bytes) → IsText body
    → length (response_text version status reason fs (crlf ++ body)) < 2 ^ 32
    → (res : Response) × (http_parse_response malloc
          (some old)
          (some (response_text version status reason fs (crlf ++ body) ++ 0 ∷ junk))
          (length (response_text version status reason fs (crlf ++ body)))
        ≡ (if malloc (length body)
            then returns success (some (record res { body = some body; body_size = length body }))
            else returns failure (some res)))
      × Reads res status fs
      × (res.body ≡ none)
parse_response_keeps_body version reason status fs plain malloc old body junk t small = (
  read version status reason fs plain,
  parse_response-text version status reason fs plain malloc old (crlf ++ body) junk _
        ((λ e. cc), ((λ e. cc), t))
      ∙ ap
          (λ text.
            parse_body malloc (read version status reason fs plain) (text ++ 0 ∷ junk) (length text)
              text (crlf ++ (crlf ++ body)))
          (front_of-body version status reason fs body)
      ∙ parse_body-kept malloc (read version status reason fs plain)
          (front_of version status reason fs) body junk
          (subst (λ (text : Bytes). length text < 2 ^ 32)
            (front_of-body version status reason fs body) small),
  read-Reads version status reason fs plain,
  (read-body version status reason fs plain).0,
)
