-- ===== src/Mac/Hex.antt =====
-- `%2x` reads back what `%02X` prints.
use fossil_network.Base.{
  ℕ, ◌+◌, ◌-◌, ◌*◌, ◌/◌, ◌%◌, ◌≡◌, ◌≤◌, ◌<◌, refl, ap, ◌∙◌, arith, false, ◌&&◌, List, [], ◌∷◌, ◌++◌,
  some, ◌==◌, length, All, All-append, append-nil, sym,
}
use fossil_network.Cstr.{Bytes, IsText}
use fossil_network.Cstr.Decimal.{is_space, skip_spaces}
use fossil_network.Mac.{
  hex_value, hex_digit, hex2, hex_field, digit_field, second_digit, is_x, scan_hex2, scan_colon,
  scan_fields, format_mac,
}

hex_value-hex_digit : (d : ℕ) → d < 16 → hex_value (hex_digit d) ≡ some d
unfolding hex_value hex_digit
hex_value-hex_digit d h = ground arith

hex_digit_range : (d : ℕ) → d < 16 → (b'0' ≤ hex_digit d) × (hex_digit d ≤ b'F')
unfolding hex_digit
hex_digit_range d h = ground arith

hex_field-hex_digit :
    (d : ℕ) (r : Bytes) → d < 16 → hex_field (hex_digit d ∷ r) ≡ digit_field (hex_digit d) d r
unfolding hex_field
hex_field-hex_digit d r h =
    let (low, high) = hex_digit_range d h in
    let minus : (hex_digit d == b'-') ≡ false = ground arith in
    let plus : (hex_digit d == b'+') ≡ false = ground arith in
    rw (minus, plus, hex_value-hex_digit d h) refl

digit_field-hex_digit :
    (c d e : ℕ) (r : Bytes) → e < 16 → digit_field c d (hex_digit e ∷ r) ≡ some (d * 16 + e, r)
unfolding digit_field second_digit
digit_field-hex_digit c d e r h =
    let (low, high) = hex_digit_range e h in
    let no_x : ((c == b'0') && is_x (hex_digit e)) ≡ false = ground arith in
    rw (no_x, hex_value-hex_digit e h) refl

skip_spaces-hex_digit :
    (d : ℕ) (r : Bytes) → d < 16 → skip_spaces (hex_digit d ∷ r) ≡ hex_digit d ∷ r
unfolding skip_spaces is_space
skip_spaces-hex_digit d r h = let (low, high) = hex_digit_range d h in ground arith

pub scan_hex2-hex2 : (b : ℕ) (r : Bytes) → b < 256 → scan_hex2 (hex2 b ++ r) ≡ some (b, r)
unfolding scan_hex2 hex2
scan_hex2-hex2 b r h =
    let high : b / 16 < 16 = omega arith in
    let low : b % 16 < 16 = omega arith in
    let value : b / 16 * 16 + b % 16 ≡ b = omega arith in
    rw
      (
        skip_spaces-hex_digit (b / 16) (hex_digit (b % 16) ∷ r) high,
        hex_field-hex_digit (b / 16) (hex_digit (b % 16) ∷ r) high,
        digit_field-hex_digit (hex_digit (b / 16)) (b / 16) (b % 16) r low,
        value,
      )
      refl

scan_hex2_last : (b : ℕ) → b < 256 → scan_hex2 (hex2 b) ≡ some (b, [])
scan_hex2_last b h = ap scan_hex2 (sym (append-nil (hex2 b))) ∙ scan_hex2-hex2 b [] h

abbrev pub IsByte : ℕ → Type 0
IsByte b = b < 256

pub scan_fields-format :
    (bs : List ℕ) → All IsByte bs → scan_fields (length bs) (format_mac bs) ≡ some bs
unfolding scan_fields format_mac scan_colon
scan_fields-format [] h = refl
scan_fields-format (b ∷ []) (h, _) = rw (scan_hex2_last b h) refl
scan_fields-format (b ∷ c ∷ bs) (h, hs) =
    rw (scan_hex2-hex2 b (b':' ∷ format_mac (c ∷ bs)) h, scan_fields-format (c ∷ bs) hs) refl

hex2-IsText : (b : ℕ) → b < 256 → IsText (hex2 b)
unfolding hex2
hex2-IsText b h =
    let (high, _) = hex_digit_range (b / 16) (omega arith) in
    let (low, _) = hex_digit_range (b % 16) (omega arith) in
    (λ e. omega arith, (λ e. omega arith, tt))

pub format_mac-IsText : (bs : List ℕ) → All IsByte bs → IsText (format_mac bs)
unfolding format_mac
format_mac-IsText [] h = tt
format_mac-IsText (b ∷ []) (h, _) = hex2-IsText b h
format_mac-IsText (b ∷ c ∷ bs) (h, hs) =
    All-append _ (hex2 b) (b':' ∷ format_mac (c ∷ bs)) (hex2-IsText b h)
      (λ e. omega arith, format_mac-IsText (c ∷ bs) hs)

pub length-format_mac : (bs : List ℕ) → length (format_mac bs) ≡ 3 * length bs - 1
unfolding format_mac hex2
length-format_mac [] = refl
length-format_mac (b ∷ []) = refl
length-format_mac (b ∷ c ∷ bs) = omega (arith, length-format_mac (c ∷ bs))
