-- ===== src/Http/Parse/RoundTrip.antt =====
-- The status and the headers of a well-formed response are read back.
use native.Mathlib.Numerals.{add-one}
use fossil_network.Base.{
  ℕ, zero, suc, ◌+◌, ◌^◌, ◌≡◌, ◌≢◌, ◌≤◌, ◌<◌, refl, sym, ap, ap₂, ◌∙◌, subst, Bool, [], ◌∷◌, ◌++◌,
  some, arith, length, drop, length-append, All-append, All-map, append_assoc, append-nil,
  take_of_length, lt→ltb, pos,
}
use fossil_network.Cstr.{Bytes, codes, crlf, IsText}
use fossil_network.Cstr.Decimal.{decimal, EndsDigits, decimal-IsDigit, IsDigit}
use fossil_network.Cstr.Search.{strstr, Lacks}
use fossil_network.Http.Parse.{
  scan_status, add_header, at_rest, parse_headers, parse_text, parse_body, finish, with_status,
}
use fossil_network.Http.Parse.Line.{
  PlainKey, PlainValue, line, scan_header-line, at_end_key, next_line,
}
use fossil_network.Http.Parse.Total.{ResponseIsValid, add_header-IsValid}
use fossil_network.Request.{Response, zero_response, write_header}
use fossil_network.Request.Fields.{Fields}
use fossil_network.Request.Table.{entries, added-entries}
use fossil_network.Http.Parse.Status.{PlainVersion, status_line, scan_status_line}

abbrev pub PlainFields : Fields → Type 0
PlainFields [] = Unit
PlainFields ((k, v) ∷ fs) = PlainKey k × PlainValue v × PlainFields fs

-- The header lines in front of what follows.
abbrev pub lines : Fields → Bytes → Bytes
lines [] rest = rest
lines ((k, v) ∷ fs) rest = line k v (lines fs rest)

abbrev pub store_all : Response → Fields → Response
store_all res [] = res
store_all res (f ∷ fs) = store_all (add_header res f) fs

-- A line seen as what stands before its end, the end, and the rest.
line_split : (k v rest : Bytes) → line k v rest ≡ (k ++ (b':' ∷ b' ' ∷ v)) ++ (crlf ++ rest)
line_split k v rest = sym (append_assoc k (b':' ∷ b' ' ∷ v) (crlf ++ rest))

pub next_header :
    (k v rest : Bytes)
    → PlainKey k
    → PlainValue v
    → (strstr (line k v rest) crlf ≡ some (length (k ++ (b':' ∷ b' ' ∷ v))))
      × (drop (length (k ++ (b':' ∷ b' ' ∷ v)) + 2) (line k v rest) ≡ rest)
next_header k v rest p q =
    let before : Lacks b'\r' (k ++ (b':' ∷ b' ' ∷ v)) =
      All-append _ k _ p.key_lacks_return ((λ e. cc), ((λ e. cc), q.value_lacks_return)) in
    rw (line_split k v rest) (next_line _ rest before)

-- The loop stores the fields of plain lines in order and stops at the empty line behind them.
parse_headers-lines :
    (fuel : ℕ) (fs : Fields) (rest : Bytes) (res : Response)
    → length fs < fuel
    → PlainFields fs
    → parse_headers fuel (lines fs (crlf ++ rest)) res ≡ at_rest (store_all res fs) (crlf ++ rest)
unfolding parse_headers
parse_headers-lines zero fs rest res h p = absurd (omega arith)
parse_headers-lines (suc fuel) [] rest res h p = refl
parse_headers-lines (suc fuel) ((k, v) ∷ fs) rest res h (pk, pv, p) =
    let more : Bytes = lines fs (crlf ++ rest) in
    let (found, cut) = next_header k v more pk pv in
    rw
      (
        at_end_key k (b':' ∷ b' ' ∷ (v ++ (crlf ++ more))) pk.key_nonempty pk.key_lacks_return,
        found,
        cut,
        scan_header-line k v more pk pv,
      )
      (parse_headers-lines fuel fs rest (add_header res (k, v)) (omega arith) p)

abbrev stored : Response → Bytes → Bytes → Response
stored res k v = record res {
  headers = write_header res.headers res.header_count k v;
  header_count = res.header_count + 1;
}

add_header-room :
    (res : Response) (k v : Bytes) → res.header_count < 32 → add_header res (k, v) ≡ stored res k v
unfolding add_header
add_header-room res k v h = rw (lt→ltb res.header_count 32 h)

entries-stored :
    (res : Response) (k v : Bytes)
    → ResponseIsValid res
    → PlainKey k
    → PlainValue v
    → res.header_count < 32
    → entries (stored res k v).headers (stored res k v).header_count
      ≡ entries res.headers res.header_count ++ (k, v) ∷ []
entries-stored res k v valid pk pv room = rw (add-one res.header_count) (
    added-entries res.headers res.header_count k v pk.key_lacks_nul pv.value_lacks_nul
      valid.table_headers (omega (arith, valid.table_size))
    ∙ ap₂ (λ k' v'. entries res.headers res.header_count ++ (k', v') ∷ [])
        (take_of_length 63 k pk.key_fits) (take_of_length 255 v pv.value_fits))

-- The same response with other headers.
abbrev pub with_headers : Response → Response → Response
with_headers res new = record res { headers = new.headers; header_count = new.header_count }

-- `new` is `res` with these fields behind its own.
abbrev pub Stores : Response → Fields → Response → Type 0
Stores res fs new =
    (entries new.headers new.header_count ≡ entries res.headers res.header_count ++ fs)
    × (new ≡ with_headers res new)

-- Plain fields are stored with no loss while there is room; nothing else of the response changes.
pub store_all-Stores :
    (fs : Fields) (res : Response)
    → ResponseIsValid res
    → PlainFields fs
    → res.header_count + length fs ≤ 32
    → Stores res fs (store_all res fs)
store_all-Stores [] res v p room = (sym (append-nil _), refl)
store_all-Stores ((k, v) ∷ fs) res valid (pk, pv, p) room =
    let small : res.header_count < 32 = omega arith in
    let here : add_header res (k, v) ≡ stored res k v = add_header-room res k v small in
    let valid' : ResponseIsValid (stored res k v) =
      subst ResponseIsValid here
        (add_header-IsValid res k v valid pk.key_lacks_nul pv.value_lacks_nul) in
    let (listed, same) = store_all-Stores fs (stored res k v) valid' p (omega arith) in
    subst (λ r. Stores res ((k, v) ∷ fs) (store_all r fs)) (sym here)
      (
        listed
            ∙ ap (λ t. t ++ fs) (entries-stored res k v valid pk pv small)
            ∙ append_assoc (entries res.headers res.header_count) ((k, v) ∷ []) fs,
        same,
      )

-- A whole response: status line, header lines, empty line, and what follows it.
abbrev pub response_text : Bytes → ℕ → Bytes → Fields → Bytes → Bytes
response_text version status reason fs rest =
    status_line version status reason ++ (crlf ++ lines fs (crlf ++ rest))

abbrev pub PlainReason : Bytes → Type 0
PlainReason reason = EndsDigits (reason ++ crlf) × Lacks b'\r' reason × IsText reason

pub lines-longer : (fs : Fields) (rest : Bytes) → length fs + length rest ≤ length (lines fs rest)
lines-longer [] rest = omega arith
lines-longer ((k, v) ∷ fs) rest = omega (
  arith,
  lines-longer fs rest,
  length-append {0} k (b':' ∷ b' ' ∷ (v ++ (crlf ++ lines fs rest))),
  length-append {0} v (crlf ++ lines fs rest),
)

-- A text with a line end: the rest behind it goes to the header loop.
pub parse_text-found :
    (malloc : ℕ → Bool) (mem : Bytes) (size : ℕ) (text : Bytes) (i : ℕ)
    → strstr text crlf ≡ some i
    → parse_text malloc mem size text
      ≡ finish malloc mem size text (
          parse_headers
            (suc (length text))
            (drop (i + 2) text)
            (with_status zero_response (scan_status text)))
unfolding parse_text
parse_text-found malloc mem size text i e = rw (e, parse_text)

pub EndsDigits-append :
    (reason rest : Bytes) → EndsDigits (reason ++ crlf) → EndsDigits (reason ++ (crlf ++ rest))
EndsDigits-append [] rest h = h
EndsDigits-append (c ∷ reason) rest h = h

module _ (version : Bytes) (status : ℕ) (reason : Bytes) (good_version : PlainVersion version)
    (small : status < 2 ^ 31) (good_reason : PlainReason reason) where
  pub status_line-Lacks_return : Lacks b'\r' (status_line version status reason)
  status_line-Lacks_return =
      let digits =
        All-map IsDigit (λ c. c ≢ b'\r') (λ c d. omega arith) _ (decimal-IsDigit status) in
      All-append _ (codes "HTTP/") _ (omega arith) (
        All-append _ version _ good_version.2
          ((λ e. cc), All-append _ _ reason digits good_reason.1))

  pub status-of-text :
      (rest : Bytes)
      → scan_status (status_line version status reason ++ (crlf ++ rest)) ≡ some (pos status)
  status-of-text rest =
      rw
        (
          append_assoc version (b' ' ∷ (decimal status ++ reason)) (crlf ++ rest),
          append_assoc (decimal status) reason (crlf ++ rest),
        )
        (scan_status_line version reason (crlf ++ rest) status good_version small
          (EndsDigits-append reason rest good_reason.0))

  text-longer :
      (fs : Fields) (rest : Bytes)
      → length fs < suc (length (response_text version status reason fs rest))
  text-longer fs rest = omega (
    arith,
    length-append {0} (status_line version status reason) (crlf ++ lines fs (crlf ++ rest)),
    lines-longer fs (crlf ++ rest),
  )

  -- The parser's state when it comes to the empty line.
  pub parse_text-lines :
      (malloc : ℕ → Bool) (mem : Bytes) (size : ℕ) (fs : Fields) (rest : Bytes)
      → PlainFields fs
      → parse_text malloc mem size (response_text version status reason fs rest)
        ≡ parse_body malloc
            (store_all (record zero_response { status = pos status }) fs)
            mem
            size
            (response_text version status reason fs rest)
            (crlf ++ rest)
  unfolding finish with_status
  parse_text-lines malloc mem size fs rest p =
      let text : Bytes = response_text version status reason fs rest in
      let (found, cut) =
        next_line (status_line version status reason) (lines fs (crlf ++ rest))
          status_line-Lacks_return in
      let start : Response = record zero_response { status = pos status } in
      parse_text-found malloc mem size text _ found
      ∙ ap₂
          (λ s n.
            finish malloc mem size text
              (parse_headers (suc (length text)) s (with_status zero_response n)))
          cut (status-of-text (lines fs (crlf ++ rest)))
      ∙ ap (finish malloc mem size text)
          (parse_headers-lines (suc (length text)) fs rest start (text-longer fs rest) p)
