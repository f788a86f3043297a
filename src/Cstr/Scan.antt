-- ===== src/Cstr/Scan.antt =====
-- The conversions of `sscanf` that code/logic uses, on the string that is scanned: `%*s`, `%d`,
-- `%n[^...]`, a blank and literal text.
use fossil_network.Base.{
  ℕ, zero, suc, Bool, false, [], ◌∷◌, Option, none, some, ◌==◌, if◌then◌else◌, length, drop, ℤ,
}
use fossil_network.Cstr.{Bytes}
use fossil_network.Cstr.Decimal.{is_space, is_digit, skip_spaces, atoi}
use fossil_network.Cstr.Search.{starts_with}

-- Literal text without blanks
unfoldable pub scan_literal : Bytes → Bytes → Option Bytes
unfolding starts_with
scan_literal pat s = if starts_with pat s then some (drop (length pat) s) else none

-- At most `n` bytes that pass the test, and the rest.
unfoldable pub span : ℕ → (ℕ → Bool) → Bytes → Bytes × Bytes
span zero p s = ([], s)
span (suc n) p [] = ([], [])
span (suc n) p (c ∷ s) = let (t, r) = span n p s in if p c then (c ∷ t, r) else ([], c ∷ s)

unfoldable pub drop_word : Bytes → Bytes
drop_word [] = []
drop_word (c ∷ s) = if is_space c then c ∷ s else drop_word s

unfoldable pub skip_nonempty : Bytes → Option Bytes
skip_nonempty [] = none
skip_nonempty (c ∷ s) = some (drop_word (c ∷ s))

-- `%*s`: blanks, and at least one byte up to the next blank
unfoldable pub scan_word : Bytes → Option Bytes
unfolding skip_nonempty drop_word is_space skip_spaces
scan_word s = skip_nonempty (skip_spaces s)

unfoldable pub starts_digit : Bytes → Bool
starts_digit [] = false
starts_digit (c ∷ s) = is_digit c

unfoldable pub starts_number : Bytes → Bool
unfolding starts_digit is_digit
starts_number [] = false
starts_number (c ∷ s) =
    if c == b'-' then starts_digit s else if c == b'+' then starts_digit s else is_digit c

-- `%d`: the value that `strtol` gives, as an `int`
unfoldable pub scan_int : Bytes → Option ℤ
unfolding starts_number atoi skip_spaces
scan_int s = if starts_number (skip_spaces s) then some (atoi s) else none
