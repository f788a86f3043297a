-- ===== src/Http/Parse/Total.antt =====
-- The header loop ends within its fuel, and keeps the response's table well formed.
use fossil_network.Base.{
  ℕ, zero, suc, ◌+◌, ◌-◌, ◌%◌, ◌^◌, ◌≡◌, ◌<◌, inl, inr, Bool, true, [], ◌∷◌, ◌++◌, Option, none,
  some, arith, ltb, leb, ◌==◌, Bool-cases, Option-cases, length, drop, length-drop,
  length-replicate, ℤ,
}
use fossil_network.Cstr.{Bytes, crlf, c_string, IsText}
use fossil_network.Cstr.Copy.{c_string-IsText}
use fossil_network.Cstr.Decimal.{skip_spaces, is_space}
use fossil_network.Cstr.Scan.{span}
use fossil_network.Cstr.Search.{strstr, strstr_fits}
use fossil_network.Http.Parse.{
  scan_header, scan_value, scan_behind, not_line_end, not_colon, parse_text, parse_body, copy_body,
  finish, Outcome, returns, fault, http_parse_response, with_status, scan_status, add_header,
  at_end, Stop, out_of_fuel, at_rest, at_null, parse_headers,
}
use fossil_network.Request.{Response, zero_response, zero_header}
use fossil_network.Request.Build.{zero_headers_valid}
use fossil_network.Request.Valid.{TableIsValid, write_header-IsValid, length-write_header}

-- What the loop establishes where it stops.
abbrev pub Stopped : (Response → Type 0) → (Bytes → Type 0) → Stop → Type 0
Stopped P Q out_of_fuel = ⊥
Stopped P Q (at_rest res s) = P res × Q s × (at_end s ≡ true)
Stopped P Q (at_null res) = P res

pub parse_headers-Stopped :
    (P : Response → Type 0) (Q : Bytes → Type 0)
    → ((res : Response) (s : Bytes) → P res → Q s → P (add_header res (scan_header s)))
    → ((n : ℕ) (s : Bytes) → Q s → Q (drop n s))
    → (fuel : ℕ) (s : Bytes) (res : Response) → length s < fuel
    → P res
    → Q s
    → Stopped P Q (parse_headers fuel s res)
unfolding parse_headers
parse_headers-Stopped P Q keep cut zero s res h p q = absurd (omega arith)
parse_headers-Stopped P Q keep cut (suc fuel) s res h p q = elim (Bool-cases (at_end s)) [
  | inl stop ↦ rw stop (p, q, stop)
  | inr more ↦ elim (Option-cases (strstr s crlf)) [
    | inl e ↦ rw (more, e) (keep res s p q)
    | inr (i, e) ↦
        rw (more, e)
          (parse_headers-Stopped P Q keep cut fuel (drop (i + 2) s) (add_header res (scan_header s))
            (omega (arith, length-drop {0} (i + 2) s, strstr_fits s crlf i e)) (keep res s p q)
            (cut (i + 2) s q))
  ]
]

span-IsText :
    (n : ℕ) (p : ℕ → Bool) (s : Bytes) → IsText s → IsText (span n p s).0 × IsText (span n p s).1
unfolding span
span-IsText zero p s t = (tt, t)
span-IsText (suc n) p [] t = (tt, tt)
span-IsText (suc n) p (c ∷ s) (tc, t) = elim (Bool-cases (p c)) [
  | inl e ↦ let (a, b) = span-IsText n p s t in rw e ((tc, a), b)
  | inr e ↦ rw e (tt, (tc, t))
]

skip_spaces-IsText : (s : Bytes) → IsText s → IsText (skip_spaces s)
unfolding skip_spaces
skip_spaces-IsText [] t = tt
skip_spaces-IsText (c ∷ s) (tc, t) = elim (Bool-cases (is_space c)) [
  | inl e ↦ rw e (skip_spaces-IsText s t)
  | inr e ↦ rw e (tc, t)
]

scan_value-IsText : (s : Bytes) → IsText s → IsText (scan_value s)
unfolding scan_value
scan_value-IsText [] t = tt
scan_value-IsText (c ∷ s) (tc, t) = elim (Bool-cases (c == b':')) [
  | inl e ↦ rw e (span-IsText 255 not_line_end (skip_spaces s) (skip_spaces-IsText s t)).0
  | inr e ↦ rw e tt
]

scan_behind-IsText :
    (k r : Bytes) → IsText k → IsText r → IsText (scan_behind k r).0 × IsText (scan_behind k r).1
unfolding scan_behind
scan_behind-IsText [] r s t = (tt, tt)
scan_behind-IsText (c ∷ k) r s t = (s, scan_value-IsText r t)

scan_header-IsText : (s : Bytes) → IsText s → IsText (scan_header s).0 × IsText (scan_header s).1
unfolding scan_header
scan_header-IsText s t = let (k, r) = span-IsText 63 not_colon s t in scan_behind-IsText _ _ k r

pub drop-IsText : (n : ℕ) (s : Bytes) → IsText s → IsText (drop n s)
drop-IsText zero s t = t
drop-IsText (suc n) [] t = tt
drop-IsText (suc n) (c ∷ s) (tc, t) = drop-IsText n s t

abbrev pub ResponseIsValid : Response → Type 0
ResponseIsValid res = TableIsValid res.headers res.header_count

-- Storing a header keeps the table well formed, also where it is full.
pub add_header-IsValid :
    (res : Response) (key value : Bytes)
    → ResponseIsValid res
    → IsText key
    → IsText value
    → ResponseIsValid (add_header res (key, value))
unfolding add_header
add_header-IsValid res key value v s t = elim (Bool-cases (ltb res.header_count 32)) [
  | inl room ↦ rw room (record {
    table_size =
        omega (arith, v.table_size, length-write_header res.headers res.header_count key value);
    table_count = ground arith;
    table_headers = write_header-IsValid res.headers res.header_count key value s t v.table_headers;
  })
  | inr full ↦ rw full v
]

pub zero_response-IsValid : ResponseIsValid zero_response
zero_response-IsValid = record {
  table_size = length-replicate 32 zero_header;
  table_count = omega arith;
  table_headers = zero_headers_valid 32;
}

-- What an outcome says of the response that it leaves.
abbrev pub Leaves : (Response → Type 0) → Outcome → Type 0
Leaves P (returns code none) = Unit
Leaves P (returns code (some res)) = P res
Leaves P fault = Unit

copy_body-IsValid :
    (malloc : ℕ → Bool) (res : Response) (mem : Bytes) (size off : ℕ)
    → ResponseIsValid res
    → Leaves ResponseIsValid (copy_body malloc res mem size off)
unfolding copy_body
copy_body-IsValid malloc res mem size off v =
    let n : ℕ = (size + 2 ^ 32 - off) % 2 ^ 32 in
    elim (Bool-cases (malloc n)) [
      | inl got ↦ elim (Bool-cases (leb (off + n) (length mem))) [
        | inl inside ↦ rw (got, inside) v
        | inr outside ↦ rw (got, outside) tt
      ]
      | inr full ↦ rw full v
    ]

finish-IsValid :
    (malloc : ℕ → Bool) (mem : Bytes) (size : ℕ) (text : Bytes) (stop : Stop)
    → Stopped ResponseIsValid IsText stop
    → Leaves ResponseIsValid (finish malloc mem size text stop)
unfolding finish
finish-IsValid malloc mem size text out_of_fuel h = absurd h
finish-IsValid malloc mem size text (at_null res) h = tt
finish-IsValid malloc mem size text (at_rest res rest) (v, t, e) =
    elim (Option-cases (strstr rest (crlf ++ crlf))) [
      | inl none_left ↦ rw (none_left, parse_body) v
      | inr (i, found) ↦ rw (found, parse_body) (copy_body-IsValid malloc res mem size _ v)
    ]

-- The loop on the rest of a text, from a well-formed response.
pub parse_headers-IsValid :
    (s : Bytes) (n : ℕ) (res : Response)
    → IsText s
    → ResponseIsValid res
    → Stopped ResponseIsValid IsText (parse_headers (suc (length s)) (drop n s) res)
parse_headers-IsValid s n res t v =
    parse_headers-Stopped ResponseIsValid IsText
      (λ r u v' t'.
        add_header-IsValid r _ _ v' (scan_header-IsText u t').0 (scan_header-IsText u t').1)
      drop-IsText (suc (length s)) (drop n s) res (omega (arith, length-drop {0} n s)) v
      (drop-IsText n s t)

with_status-IsValid : (status : Option ℤ) → ResponseIsValid (with_status zero_response status)
unfolding with_status
with_status-IsValid none = zero_response-IsValid
with_status-IsValid (some n) = zero_response-IsValid

parse_text-IsValid :
    (malloc : ℕ → Bool) (mem : Bytes) (size : ℕ) (text : Bytes)
    → IsText text
    → Leaves ResponseIsValid (parse_text malloc mem size text)
unfolding parse_text
parse_text-IsValid malloc mem size text t = elim (Option-cases (strstr text crlf)) [
  | inl e ↦ rw (e, parse_text) (with_status-IsValid (scan_status text))
  | inr (i, e) ↦
      rw (e, parse_text)
        (finish-IsValid malloc mem size text _
          (parse_headers-IsValid text (i + 2) _ t (with_status-IsValid (scan_status text))))
]

-- Whatever bytes a peer sends, a response that the parser leaves has at most 32 headers, and each
-- key and value is a string that ends inside its array.
pub parse_response-IsValid :
    (malloc : ℕ → Bool) (res : Response) (mem : Bytes) (size : ℕ)
    → Leaves ResponseIsValid (http_parse_response malloc (some res) (some mem) size)
unfolding http_parse_response
parse_response-IsValid malloc res mem size =
    elim (Bool-cases (ltb (length (c_string mem)) (length mem))) [
      | inl ends ↦ rw ends (parse_text-IsValid malloc mem size (c_string mem) (c_string-IsText mem))
      | inr open_end ↦ rw open_end tt
    ]
