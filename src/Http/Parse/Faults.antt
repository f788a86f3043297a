-- ===== src/Http/Parse/Faults.antt =====
-- Inputs on which the parser reads through a NULL pointer or past the end of its buffer.
use fossil_network.Base.{
  ℕ, zero, suc, ◌≡◌, ◌<◌, ap, ◌∙◌, subst, Bool, false, [], ◌∷◌, ◌++◌, some, arith, All-append,
  length, length-append, append-nil, le→ltb-false,
}
use fossil_network.Cstr.{Bytes, crlf, IsText}
use fossil_network.Cstr.Copy.{c_string_of_text}
use fossil_network.Cstr.Search.{strstr-Lacks, Lacks}
use fossil_network.Http.Parse.{
  fault, at_null, scan_header, scan_status, add_header, parse_headers, http_parse_response, finish,
  with_status, at_end,
}
use fossil_network.Http.Parse.Body.{
  PlainResponse, status_line-IsText, http_parse-string, lines-IsText,
}
use fossil_network.Http.Parse.Line.{at_end_key, next_line, scan_header-line}
use fossil_network.Http.Parse.RoundTrip.{
  PlainFields, lines, store_all, parse_text-found, next_header, lines-longer,
  status_line-Lacks_return,
}
use fossil_network.Http.Parse.Status.{status_line}
use fossil_network.Request.{Response, zero_response}
use fossil_network.Request.Fields.{Fields}

parse_headers-null :
    (fuel : ℕ) (fs : Fields) (last : Bytes) (res : Response)
    → length fs < fuel
    → PlainFields fs
    → 0 < length last
    → Lacks b'\r' last
    → parse_headers fuel (lines fs last) res
      ≡ at_null (add_header (store_all res fs) (scan_header last))
unfolding parse_headers
parse_headers-null zero fs last res h p some_text l = absurd (omega arith)
parse_headers-null (suc fuel) [] last res h p some_text l =
    let open_line : at_end last ≡ false =
      subst (λ t. at_end t ≡ false) (append-nil last) (at_end_key last [] some_text l) in
    rw (open_line, strstr-Lacks last b'\r' (b'\n' ∷ []) l)
parse_headers-null (suc fuel) ((k, v) ∷ fs) last res h (pk, pv, p) some_text l =
    let more : Bytes = lines fs last in
    let (found, cut) = next_header k v more pk pv in
    rw
      (
        at_end_key k (b':' ∷ b' ' ∷ (v ++ (crlf ++ more))) pk.key_nonempty pk.key_lacks_return,
        found,
        cut,
        scan_header-line k v more pk pv,
      )
      (parse_headers-null fuel fs last (add_header res (k, v)) (omega arith) p some_text l)

-- A response that breaks off inside a header line: `strstr` finds no further line end, and the
-- search for the body starts at NULL.
pub parse_response_broken_line :
    (version reason : Bytes) (status : ℕ) (fs : Fields) (last : Bytes)
    → PlainResponse version status reason fs
    → IsText last
    → 0 < length last
    → Lacks b'\r' last
    → (malloc : ℕ → Bool) (old : Response) (junk : Bytes) (size : ℕ)
    → http_parse_response malloc
        (some old)
        (some ((status_line version status reason ++ (crlf ++ lines fs last)) ++ 0 ∷ junk))
        size
      ≡ fault
unfolding finish
parse_response_broken_line version reason status fs last plain t some_text l malloc old junk size =
    let text : Bytes = status_line version status reason ++ (crlf ++ lines fs last) in
    let (found, cut) = next_line (status_line version status reason) (lines fs last) (
      status_line-Lacks_return version status reason plain.good_version plain.small_status
        plain.good_reason) in
    let start : Response = with_status zero_response (scan_status text) in
    http_parse-string malloc old text junk size (
      All-append _ (status_line version status reason) _
        (status_line-IsText version status reason fs plain)
        ((λ e. cc), ((λ e. cc), lines-IsText fs last plain.good_fields t)))
    ∙ parse_text-found malloc (text ++ 0 ∷ junk) size text _ found
    ∙ ap
        (λ s.
          finish malloc (text ++ 0 ∷ junk) size text (parse_headers (suc (length text)) s start))
        cut
    ∙ ap (finish malloc (text ++ 0 ∷ junk) size text) (
        parse_headers-null (suc (length text)) fs last start
          (omega (
            arith,
            length-append {0} (status_line version status reason) (crlf ++ lines fs last),
            lines-longer fs last,
          ))
          plain.good_fields some_text l)

-- A buffer that is full of received bytes, with no NUL among them, is read past its end.
pub parse_response_unterminated :
    (malloc : ℕ → Bool) (old : Response) (mem : Bytes) (size : ℕ)
    → IsText mem
    → http_parse_response malloc (some old) (some mem) size ≡ fault
unfolding http_parse_response
parse_response_unterminated malloc old mem size t =
    rw (c_string_of_text mem t, le→ltb-false (length mem) (length mem) (omega arith))
