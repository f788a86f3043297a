-- ===== src/Http/Parse/Status.antt =====
-- The status line of a well-formed response is read back.

use fossil_network.Base.{
  ℕ, ◌^◌, ◌≡◌, ◌<◌, refl, ap, true, false, [], ◌∷◌, ◌++◌, some, arith, length, All, drop-append,
  pos,
}
use fossil_network.Cstr.{Bytes, codes, IsText}
use fossil_network.Cstr.Decimal.{
  skip_spaces, is_space, decimal, atoi, atoi-decimal, EndsDigits, decimal_starts, IsDigit, is_digit,
}
use fossil_network.Cstr.Scan.{
  scan_word, scan_int, scan_literal, drop_word, skip_nonempty, starts_number,
}
use fossil_network.Cstr.Search.{starts_with-append, Lacks}
use fossil_network.Http.Parse.{scan_status, scan_behind_http, scan_behind_version}

-- What stands behind "HTTP/" up to the blank before the status.
abbrev pub PlainVersion : Bytes → Type 0
PlainVersion v = (0 < length v) × All (λ c. is_space c ≡ false) v × Lacks b'\r' v × IsText v

abbrev pub status_line : Bytes → ℕ → Bytes → Bytes
status_line version status reason =
    codes "HTTP/" ++ (version ++ (b' ' ∷ (decimal status ++ reason)))

drop_word_plain :
    (v r : Bytes) → All (λ c. is_space c ≡ false) v → drop_word (v ++ b' ' ∷ r) ≡ b' ' ∷ r
unfolding drop_word is_space
drop_word_plain [] r h = refl
drop_word_plain (c ∷ v) r (hc, h) = rw hc (drop_word_plain v r h)

scan_word_plain :
    (v r : Bytes)
    → 0 < length v
    → All (λ c. is_space c ≡ false) v
    → scan_word (v ++ b' ' ∷ r) ≡ some (b' ' ∷ r)
scan_word_plain [] r p h = absurd (omega arith)
scan_word_plain (c ∷ v) r p (hc, h) =
    unfold scan_word skip_spaces in
    rw (hc, skip_nonempty) (ap some (drop_word_plain (c ∷ v) r (hc, h)))

number_at_digit : (c : ℕ) (s : Bytes) → IsDigit c → starts_number (skip_spaces (c ∷ s)) ≡ true
unfolding starts_number skip_spaces is_digit is_space
number_at_digit c s d = ground arith

number_at_decimal :
    (n : ℕ) (r : Bytes) → starts_number (skip_spaces (b' ' ∷ (decimal n ++ r))) ≡ true
number_at_decimal n r =
    let (c, (t, e, d)) = decimal_starts n in
    unfold skip_spaces is_space in rw e (number_at_digit c (t ++ r) d)

scan_int-decimal :
    (n : ℕ) (r : Bytes)
    → n < 2 ^ 31
    → EndsDigits r
    → scan_int (b' ' ∷ (decimal n ++ r)) ≡ some (pos n)
unfolding scan_int
scan_int-decimal n r h e =
    rw (number_at_decimal n r) (ap some (unfold atoi skip_spaces is_space in atoi-decimal n r h e))

scan_literal-append : (pat s : Bytes) → scan_literal pat (pat ++ s) ≡ some s
unfolding scan_literal
scan_literal-append pat s = rw (starts_with-append pat s, drop-append pat s)

-- The status of a plain status line is read back.
pub scan_status_line :
    (version reason rest : Bytes) (status : ℕ)
    → PlainVersion version
    → status < 2 ^ 31
    → EndsDigits (reason ++ rest)
    → scan_status (codes "HTTP/" ++ (version ++ (b' ' ∷ (decimal status ++ (reason ++ rest)))))
      ≡ some (pos status)
unfolding scan_status scan_behind_http scan_behind_version
scan_status_line version reason rest status (p, v, l, t) h e =
    rw
      (
        scan_literal-append (codes "HTTP/")
            (version ++ (b' ' ∷ (decimal status ++ (reason ++ rest)))),
        scan_word_plain version (decimal status ++ (reason ++ rest)) p v,
      )
      (scan_int-decimal status (reason ++ rest) h e)
