-- ===== src/Http/Build/Message.antt =====
-- The whole result of fossil__http_build_request: the message, a refusal, or a copy that leaves the
-- buffer because the check of the body's length is made in 32 bits.
use native.Mathlib.Decide.{dec_le}
use fossil_network.Base.{
  ℕ, zero, suc, ◌+◌, ◌%◌, ◌^◌, ◌≡◌, ◌≤◌, ◌<◌, ◌⊎◌, refl, sym, ap, ◌∙◌, inl, inr, [], ◌++◌, Option,
  none, some, arith, length, take, drop, length-append, length-take, length-drop, append-nil,
  le→leb, lt→leb-false, le→ltb-false, lt→ltb, to_list, All,
}
use fossil_network.Cstr.{Bytes, memcpy_at}
use fossil_network.Http.Build.{Result, ok, failed, fault, Out, emit_body, build_request}
use fossil_network.Http.Build.Refine.{Holds, build_head-Prints, take-take-append}
use fossil_network.Http.Build.Spec.{request_head, request_body, payload}
use fossil_network.Request.{Request}

-- A finished message: the text up to the offset.
pub record Carries (size : ℕ) (o : Out) (text : Bytes) : Type 0 where
  pub offset_is : o.offset ≡ length text
  pub text_is : take o.offset o.buffer ≡ text
  pub buffer_size : length o.buffer ≡ size
  pub inside : o.offset ≤ size

-- What the last step does to a head that was printed, by the length of head and body.
abbrev pub Finishes : ℕ → Result Out → Bytes → Bytes → Type 0
Finishes size m head body =
    ((length head + length body ≤ size) × ((o : Out) × (m ≡ ok o) × Carries size o (head ++ body)))
    ⊎ ((size < length head + length body)
        × (length head + length body < 2 ^ 32)
        × ((b : Bytes) × (m ≡ failed b)))
    ⊎ ((2 ^ 32 ≤ length head + length body) × (m ≡ fault))

module _ (size : ℕ) (o : Out) (head : Bytes) (h : Holds size o head) where
  no_body : Finishes size (ok o) head []
  no_body = inl (
    omega (arith, h.offset_is, h.room),
    (
      o,
      refl,
      record {
        offset_is = rw append-nil h.offset_is;
        text_is = rw append-nil h.text_is;
        buffer_size = h.buffer_size;
        inside = omega (arith, h.room);
      },
    ),
  )

  copied_body :
      (body : Bytes) (n : ℕ)
      → n ≤ length body
      → o.offset + n ≤ size
      → Carries size
          (record { buffer = memcpy_at o.buffer o.offset body n; offset = o.offset + n })
          (head ++ take n body)
  copied_body body n p q =
      let cut : length (take n body) ≡ n = omega (arith, length-take {0} n body) in
      record {
        offset_is = omega (arith, h.offset_is, cut, length-append {0} head (take n body));
        text_is =
            ap (λ k. take (o.offset + k) (memcpy_at o.buffer o.offset body n)) (sym cut)
            ∙ take-take-append o.offset o.buffer (take n body) (drop (o.offset + n) o.buffer)
                (omega (arith, h.buffer_size, h.room))
            ∙ ap (λ t. t ++ take n body) h.text_is;
        buffer_size = omega (
          arith,
          h.buffer_size,
          h.room,
          cut,
          length-append {0} (take o.offset o.buffer) (take n body ++ drop (o.offset + n) o.buffer),
          length-append {0} (take n body) (drop (o.offset + n) o.buffer),
          length-take {0} o.offset o.buffer,
          length-drop {0} (o.offset + n) o.buffer,
        );
        inside = q;
      }

  emit_body-fits :
      (body : Bytes) (n : ℕ)
      → 0 < n
      → size < 2 ^ 32
      → n ≤ length body
      → o.offset + n ≤ size
      → emit_body size (some body) n o
        ≡ ok (record { buffer = memcpy_at o.buffer o.offset body n; offset = o.offset + n })
  unfolding emit_body
  emit_body-fits body n pos small p q =
      let same : (o.offset + n) % 2 ^ 32 ≡ o.offset + n = omega arith in
      rw (
        lt→ltb 0 n pos,
        same,
        le→ltb-false size (o.offset + n) q,
        le→leb (o.offset + n) size q,
        le→leb n (length body) p,
      )

  emit_body-refuses :
      (body : Bytes) (n : ℕ)
      → 0 < n
      → size < o.offset + n
      → o.offset + n < 2 ^ 32
      → emit_body size (some body) n o ≡ failed o.buffer
  unfolding emit_body
  emit_body-refuses body n pos p q =
      let same : (o.offset + n) % 2 ^ 32 ≡ o.offset + n = omega arith in
      rw (lt→ltb 0 n pos, same, lt→ltb size (o.offset + n) p)

  -- The sum of offset and length wraps around to less than the offset, so the check passes.
  emit_body-overflows :
      (body : Bytes) (n : ℕ)
      → 0 < n
      → n < 2 ^ 32
      → size < 2 ^ 32
      → 2 ^ 32 ≤ o.offset + n
      → emit_body size (some body) n o ≡ fault
  unfolding emit_body
  emit_body-overflows body n pos n_small small p =
      let wrapped : (o.offset + n) % 2 ^ 32 ≤ size = omega (arith, h.room) in
      rw (
        lt→ltb 0 n pos,
        le→ltb-false size _ wrapped,
        lt→leb-false (o.offset + n) size (omega arith),
      )

  emit_body-some :
      (body : Bytes) (n : ℕ)
      → 0 < n
      → n < 2 ^ 32
      → size < 2 ^ 32
      → n ≤ length body
      → Finishes size (emit_body size (some body) n o) head (take n body)
  emit_body-some body n pos n_small small p =
      let cut : length (take n body) ≡ n = omega (arith, length-take {0} n body) in
      elim (dec_le (o.offset + n) size) [
        | yes q ↦ inl (
          omega (arith, h.offset_is),
          (_, emit_body-fits body n pos small p q, copied_body body n p q),
        )
        | no q ↦ elim (dec_le (2 ^ 32) (o.offset + n)) [
          | yes r ↦
              inr (inr (omega (arith, h.offset_is), emit_body-overflows body n pos n_small small r))
          | no r ↦ inr (
              inl (
                omega (arith, h.offset_is),
                omega (arith, h.offset_is),
                (o.buffer, emit_body-refuses body n pos (omega arith) (omega arith)),
              ))
        ]
      ]

  emit_body-Finishes :
      (body : Option Bytes) (n : ℕ)
      → n < 2 ^ 32
      → size < 2 ^ 32
      → All (λ b. n ≤ length b) (to_list body)
      → Finishes size (emit_body size body n o) head (payload body n)
  emit_body-Finishes none n n_small small p = unfold emit_body in no_body
  emit_body-Finishes (some body) zero n_small small p = unfold emit_body in no_body
  emit_body-Finishes (some body) (suc n) n_small small p =
      emit_body-some body (suc n) (omega arith) n_small small p.0

-- A request whose body has at least body_size bytes, a number of 32 bits, is serialised into a
-- buffer of 1 to 2 ^ 32 - 1 bytes, with 2048 bytes for the copy of its URL. Where the head of the
-- message does not fit with a NUL behind it, the result is -1. Behind a head that fits, the result
-- is the whole message in the buffer if head and body have at most as many bytes as the buffer,
-- and -1 if they have more but fewer than 2 ^ 32. At 2 ^ 32 or more, the copy of the body leaves
-- the buffer.
pub build_request_lem :
    (stack : Bytes) (req : Request) (buffer : Bytes) (size : ℕ)
    → length stack ≡ 2048
    → 0 < size
    → size < 2 ^ 32
    → length buffer ≡ size
    → req.body_size < 2 ^ 32
    → All (λ b. req.body_size ≤ length b) (to_list req.body)
    → ((size ≤ length (request_head req))
        × ((b : Bytes) × (build_request stack req buffer size ≡ failed b)))
      ⊎ ((length (request_head req) < size)
          × Finishes size
              (build_request stack req buffer size)
              (request_head req)
              (request_body req))
build_request_lem stack req buffer size temp pos small len n_small held =
    elim (build_head-Prints stack req buffer size temp pos len) [
      | inl (fits, (o, e, h)) ↦ inr (
        fits,
        unfold build_request in
            rw e (
              emit_body-Finishes size o (request_head req) h req.body req.body_size n_small small
                held),
      )
      | inr (over, (b, e)) ↦ inl (over, (b, unfold build_request in rw e))
    ]
