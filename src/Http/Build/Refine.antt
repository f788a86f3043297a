-- ===== src/Http/Build/Refine.antt =====
-- fossil__http_build_request prints the text of `Http.Build.Spec`, and where it does not.
use Prim.Native.Nat.add
use fossil_network.Base.{
  ℕ, zero, suc, ◌+◌, ◌-◌, ◌≡◌, ◌≤◌, ◌<◌, ◌⊎◌, refl, sym, ap, ◌∙◌, subst, inl, inr, Bool, true,
  false, not, List, [], ◌∷◌, ◌++◌, arith, leb, ◌==◌, if◌then◌else◌, Bool-cases, length, take, drop,
  length-append, length-take, length-drop, append_assoc, append-nil, take_of_length, take-append,
  leb→le,
}
use fossil_network.Cstr.{snprintf_at, Bytes, codes, crlf, c_string}
use fossil_network.Cstr.Decimal.{decimal}
use fossil_network.Http.Build.{
  Result, ok, failed, ◌>>=◌, Out, emit, emit_if, emit_headers, header_line, has_header, target_of,
  request_line, host_line, connection_line, sends_body,
}
use fossil_network.Cstr.Copy.{c_string-IsText}
use fossil_network.Http.Build.FromUrl.{target_of-path, host_line-value, sends_body-carries}
use fossil_network.Http.Build.Spec.{is_set, field_lines, request_head}
use fossil_network.Request.{Header, Request}
use fossil_network.Request.Fields.{lookup}
use fossil_network.Request.Table.{entries, request_fields}

-- The buffer holds `text` up to the offset, and there is room for a NUL behind it.
pub record Holds (size : ℕ) (o : Out) (text : Bytes) : Type 0 where
  pub offset_is : o.offset ≡ length text
  pub text_is : take o.offset o.buffer ≡ text
  pub buffer_size : length o.buffer ≡ size
  pub room : o.offset < size

-- A print went through exactly if its text fits with a NUL.
abbrev pub Prints : ℕ → Result Out → Bytes → Type 0
Prints size m text =
    ((length text < size) × ((o : Out) × (m ≡ ok o) × Holds size o text))
    ⊎ ((size ≤ length text) × ((b : Bytes) × (m ≡ failed b)))

pub take-take-append :
    (n : ℕ) (m s r : Bytes)
    → n ≤ length m
    → take (n + length s) (take n m ++ (s ++ r)) ≡ take n m ++ s
take-take-append zero m s r h = rw add.zero (take-append s r)
take-take-append (suc n) [] s r h = absurd (omega arith)
take-take-append (suc n) (x ∷ m) s r h =
    rw (add.suc n (length s)) (ap (◌∷◌ x) (take-take-append n m s r (omega arith)))

snprintf_layout :
    (buffer : Bytes) (off room : ℕ) (new : Bytes)
    → length new < room
    → snprintf_at buffer off room new
      ≡ take off buffer ++ (new ++ 0 ∷ (drop (off + (length new + 1)) buffer))
unfolding snprintf_at
snprintf_layout buffer off room new h =
    let positive : (room == 0) ≡ false = ground arith in
    rw (
      positive,
      take_of_length (room - 1) new (omega arith),
      take_of_length (length new + 1) (new ++ 0 ∷ [])
          (omega (arith, length-append {0} new (0 ∷ []))),
      append_assoc new (0 ∷ []) (drop (off + (length new + 1)) buffer),
    )

module _ (size : ℕ) (new : Bytes) (o : Out) (text : Bytes) (h : Holds size o text) where
  snprintf-Holds :
      length text + length new < size
      → Holds size
          (record {
            buffer = snprintf_at o.buffer o.offset (size - o.offset) new;
            offset = o.offset + length new;
          })
          (text ++ new)
  snprintf-Holds fits =
      let behind : Bytes = drop (o.offset + (length new + 1)) o.buffer in
      let layout =
        snprintf_layout o.buffer o.offset (size - o.offset) new (omega (arith, h.offset_is)) in
      record {
        offset_is = omega (arith, length-append {0} text new, h.offset_is);
        text_is = rw layout (
            take-take-append o.offset o.buffer new (0 ∷ behind)
              (omega (arith, h.buffer_size, h.room))
            ∙ ap (λ t. t ++ new) h.text_is);
        buffer_size = rw layout (
            omega (
              arith,
              h.buffer_size,
              h.room,
              h.offset_is,
              length-append {0} (take o.offset o.buffer) (new ++ 0 ∷ behind),
              length-take {0} o.offset o.buffer,
              length-append {0} new (0 ∷ behind),
              length-drop {0} (o.offset + (length new + 1)) o.buffer,
            ));
        room = omega (arith, h.offset_is);
      }

  emit-Prints : Prints size (emit size new o) (text ++ new)
  unfolding emit
  emit-Prints = elim (Bool-cases (leb (size - o.offset) (length new))) [
    | inl over ↦ inr (
      omega (arith, h.offset_is, leb→le _ _ over, length-append {0} text new),
      (snprintf_at o.buffer o.offset (size - o.offset) new, rw over),
    )
    | inr fits ↦
        let lt : length new < size - o.offset = ground arith in
        inl (
          omega (arith, h.offset_is, length-append {0} text new),
          (_, rw fits, snprintf-Holds (omega (arith, h.offset_is))),
        )
  ]

-- A further print behind a print.
>>=-Prints :
    (size : ℕ) (m : Result Out) (f : Out → Result Out) (text new : Bytes)
    → Prints size m text
    → ((o : Out) → Holds size o text → Prints size (f o) (text ++ new))
    → Prints size (m >>= f) (text ++ new)
>>=-Prints size m f text new (inl (fits, (o, e, h))) next = rw e (next o h)
>>=-Prints size m f text new (inr (over, (b, e))) next =
    inr (omega (arith, length-append {0} text new), (b, rw e))

ok-Prints : (size : ℕ) (o : Out) (text : Bytes) → Holds size o text → Prints size (ok o) text
ok-Prints size o text h = inl (omega (arith, h.offset_is, h.room), (o, refl, h))

ok-Prints-nil :
    (size : ℕ) (o : Out) (text : Bytes) → Holds size o text → Prints size (ok o) (text ++ [])
ok-Prints-nil size o text h = rw append-nil (ok-Prints size o text h)

emit_if-Prints :
    (size : ℕ) (b : Bool) (new : Bytes) (m : Result Out) (text : Bytes)
    → Prints size m text
    → Prints size (m >>= emit_if b size new) (text ++ (if b then new else []))
emit_if-Prints size true new m text p =
    >>=-Prints size m _ text new p (λ o h. emit-Prints size new o text h)
emit_if-Prints size false new m text p =
    >>=-Prints size m _ text [] p (λ o h. ok-Prints-nil size o text h)

emit_headers-Prints :
    (size : ℕ) (hs : List Header) (n : ℕ) (o : Out) (text : Bytes)
    → Holds size o text
    → Prints size (emit_headers size hs n o) (text ++ field_lines (entries hs n))
unfolding emit_headers field_lines entries
emit_headers-Prints size hs zero o text h = ok-Prints-nil size o text h
emit_headers-Prints size [] (suc n) o text h = ok-Prints-nil size o text h
emit_headers-Prints size (x ∷ hs) (suc n) o text h =
    subst (Prints size (emit size (header_line x) o >>= emit_headers size hs n))
      (append_assoc text (header_line x) (field_lines (entries hs n)))
      (>>=-Prints size (emit size (header_line x) o) (emit_headers size hs n)
        (text ++ header_line x) (field_lines (entries hs n))
        (emit-Prints size (header_line x) o text h)
        (λ o' h'. emit_headers-Prints size hs n o' (text ++ header_line x) h'))

has_header-lookup :
    (name : Bytes) (hs : List Header) (n : ℕ)
    → has_header name hs n ≡ is_set (lookup name (entries hs n))
unfolding has_header lookup entries
has_header-lookup name hs zero = refl
has_header-lookup name [] (suc n) = refl
has_header-lookup name (x ∷ hs) (suc n) = ground (arith, has_header-lookup name hs n)

-- The part of fossil__http_build_request before the body.
abbrev pub build_head : Bytes → Request → Bytes → ℕ → Result Out
build_head stack req buffer size =
    let t = target_of stack (c_string req.url) in
    let has_host = has_header (codes "Host") req.headers req.header_count in
    let has_connection = has_header (codes "Connection") req.headers req.header_count in
    let body = sends_body req.body req.body_size in
    emit size (request_line (c_string req.method) t.path) (record { buffer = buffer; offset = 0 })
    >>= emit_if (not has_host) size (host_line t)
    >>= emit_if (not has_connection) size connection_line
    >>= emit_headers size req.headers req.header_count
    >>= emit_if body size (codes "Content-Type: " ++ (c_string req.content_type ++ crlf))
    >>= emit_if body size (codes "Content-Length: " ++ (decimal req.body_size ++ crlf))
    >>= emit size crlf

pub build_head-Prints :
    (stack : Bytes) (req : Request) (buffer : Bytes) (size : ℕ)
    → length stack ≡ 2048
    → 0 < size
    → length buffer ≡ size
    → Prints size (build_head stack req buffer size) (request_head req)
unfolding request_head
build_head-Prints stack req buffer size temp p q =
    let url = c_string req.url in
    let t = target_of stack url in
    let fs = request_fields req in
    let start : Holds size (record { buffer = buffer; offset = 0 }) [] = record {
      offset_is = refl;
      text_is = refl;
      buffer_size = q;
      room = p;
    } in
    rw
      (
        has_header-lookup (codes "Host") req.headers req.header_count,
        has_header-lookup (codes "Connection") req.headers req.header_count,
        sym (target_of-path stack temp url (c_string-IsText req.url)),
        sym (host_line-value stack temp url (c_string-IsText req.url)),
        sym (sends_body-carries req.body req.body_size),
      )
      (>>=-Prints size _ (emit size crlf) _ crlf
        (emit_if-Prints size _ _ _ _ (
          emit_if-Prints size _ _ _ _ (
            >>=-Prints size _ (emit_headers size req.headers req.header_count) _ (field_lines fs)
              (emit_if-Prints size _ _ _ _ (
                emit_if-Prints size _ _ _ _
                  (emit-Prints size (request_line (c_string req.method) t.path) _ [] start)))
              (λ o h. emit_headers-Prints size req.headers req.header_count o _ h))))
        (λ o h. emit-Prints size crlf o _ h))
