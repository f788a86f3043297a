-- ===== src/Http/Parse/Body.antt =====
-- What the parser does with what follows the headers.
use fossil_network.Base.{
  ℕ, ◌^◌, ◌≡◌, ◌≤◌, ◌<◌, refl, ap, ◌∙◌, Bool, false, [], ◌∷◌, ◌++◌, none, some, arith, length,
  length-append, All-append, append_assoc, lt→ltb, pos, success,
}
use fossil_network.Cstr.{Bytes, codes, crlf, IsText}
use fossil_network.Cstr.Copy.{c_string-append}
use fossil_network.Cstr.Decimal.{decimal-IsText}
use fossil_network.Cstr.Search.{starts_with, strstr}
use fossil_network.Http.Parse.{returns, parse_text, parse_body, http_parse_response}
use fossil_network.Http.Parse.RoundTrip.{
  PlainFields, PlainReason, lines, response_text, store_all, Stores, store_all-Stores,
  parse_text-lines,
}
use fossil_network.Http.Parse.Status.{PlainVersion, status_line}
use fossil_network.Http.Parse.Total.{zero_response-IsValid}
use fossil_network.Request.{Response, zero_response}
use fossil_network.Request.Fields.{Fields}
use fossil_network.Request.Table.{entries}

-- A response text that the parser reads with no loss but for its body.
pub record PlainResponse (version : Bytes) (status : ℕ) (reason : Bytes) (fs : Fields)
    : Type 0 where
  pub good_version : PlainVersion version
  pub small_status : status < 2 ^ 31
  pub good_reason : PlainReason reason
  pub good_fields : PlainFields fs
  pub room : length fs ≤ 32

pub lines-IsText :
    (fs : Fields) (rest : Bytes) → PlainFields fs → IsText rest → IsText (lines fs rest)
lines-IsText [] rest p t = t
lines-IsText ((k, v) ∷ fs) rest (pk, pv, p) t = All-append _ k _ pk.key_lacks_nul (
  (λ e. cc),
  (
    (λ e. cc),
    All-append _ v _ pv.value_lacks_nul ((λ e. cc), ((λ e. cc), lines-IsText fs rest p t)),
  ),
)

-- A response with a status, fields and no body.
pub record Reads (res : Response) (status : ℕ) (fs : Fields) : Type 0 where
  pub status_is : res.status ≡ pos status
  pub fields_are : entries res.headers res.header_count ≡ fs

pub http_parse-string :
    (malloc : ℕ → Bool) (old : Response) (s junk : Bytes) (size : ℕ)
    → IsText s
    → http_parse_response malloc (some old) (some (s ++ 0 ∷ junk)) size
      ≡ parse_text malloc (s ++ 0 ∷ junk) size s
unfolding http_parse_response
http_parse-string malloc old s junk size t = rw (
  c_string-append s junk t,
  lt→ltb (length s) (length (s ++ 0 ∷ junk)) (omega (arith, length-append {0} s (0 ∷ junk))),
)

pub lines-append : (fs : Fields) (a b : Bytes) → lines fs (a ++ b) ≡ lines fs a ++ b
lines-append [] a b = refl
lines-append ((k, v) ∷ fs) a b = rw (lines-append fs a b) (simp (append_assoc))

module _ (version : Bytes) (status : ℕ) (reason : Bytes) (fs : Fields)
    (plain : PlainResponse version status reason fs) where
  pub status_line-IsText : IsText (status_line version status reason)
  status_line-IsText = All-append _ (codes "HTTP/") _ (omega arith) (
      All-append _ version _ plain.good_version.3
        ((λ e. cc), All-append _ _ reason (decimal-IsText status) plain.good_reason.2))

  response_text-IsText :
      (rest : Bytes) → IsText rest → IsText (response_text version status reason fs rest)
  response_text-IsText rest t =
      All-append _ (status_line version status reason) _ status_line-IsText (
        (λ e. cc),
        ((λ e. cc), lines-IsText fs (crlf ++ rest) plain.good_fields ((λ e. cc), ((λ e. cc), t))),
      )

  pub read : Response
  read = store_all (record zero_response { status = pos status }) fs

  stored : Stores (record zero_response { status = pos status }) fs read
  unfolding read
  stored =
      store_all-Stores fs (record zero_response { status = pos status }) zero_response-IsValid
        plain.good_fields (omega (arith, plain.room))

  pub read-Reads : Reads read status fs
  read-Reads = record {
    status_is = ap (λ r. r.status) stored.1;
    fields_are = stored.0 ∙ unfold entries in refl;
  }

  pub read-body : (read.body ≡ none) × (read.body_size ≡ 0)
  read-body = (ap (λ r. r.body) stored.1, ap (λ r. r.body_size) stored.1)

  pub parse_response-text :
      (malloc : ℕ → Bool) (old : Response) (rest junk : Bytes) (size : ℕ)
      → IsText rest
      → http_parse_response malloc
          (some old)
          (some (response_text version status reason fs rest ++ 0 ∷ junk))
          size
        ≡ parse_body malloc read
            (response_text version status reason fs rest ++ 0 ∷ junk)
            size
            (response_text version status reason fs rest)
            (crlf ++ rest)
  unfolding read
  parse_response-text malloc old rest junk size t =
      let text : Bytes = response_text version status reason fs rest in
      http_parse-string malloc old text junk size (response_text-IsText rest t)
      ∙ parse_text-lines version status reason plain.good_version plain.small_status
          plain.good_reason malloc (text ++ 0 ∷ junk) size fs rest plain.good_fields

  -- The body is missed wherever it does not begin with a line end and holds no empty line.
  no_body_found :
      (malloc : ℕ → Bool) (mem text rest : Bytes) (size : ℕ)
      → starts_with crlf rest ≡ false
      → strstr rest (crlf ++ crlf) ≡ none
      → parse_body malloc read mem size text (crlf ++ rest) ≡ returns success (some read)
  unfolding parse_body strstr starts_with
  no_body_found malloc mem text rest size a b = rw (a, b)

-- A plain response, with an ordinary body behind the empty line: the status and all the headers are
-- read back, the result is 0, and the body is lost, whatever `malloc` would give. Ordinary is any
-- body that neither begins with a line end nor holds an empty line.
pub parse_response_drops_body :
    (version reason : Bytes) (status : ℕ) (fs : Fields)
    → PlainResponse version status reason fs
    → (malloc : ℕ → Bool) (old : Response) (body junk : Bytes) (size : ℕ) → IsText body
    → starts_with crlf body ≡ false
    → strstr body (crlf ++ crlf) ≡ none
    → (res : Response) × (http_parse_response malloc
          (some old)
          (some (response_text version status reason fs body ++ 0 ∷ junk))
          size
        ≡ returns success (some res))
      × Reads res status fs
      × (res.body ≡ none)
      × (res.body_size ≡ 0)
parse_response_drops_body version reason status fs plain malloc old body junk size t a b = (
  read version status reason fs plain,
  parse_response-text version status reason fs plain malloc old body junk size t
      ∙ no_body_found version status reason fs plain malloc _ _ body size a b,
  read-Reads version status reason fs plain,
  (read-body version status reason fs plain).0,
  (read-body version status reason fs plain).1,
)
