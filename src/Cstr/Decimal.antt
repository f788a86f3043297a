-- ===== src/Cstr/Decimal.antt =====
-- `%u` of printf, and `atoi` as the C library reads it: blanks, a sign, digits; the value is cut to
-- the range of `long` and then converted to `int`.
use mathlib.Core.List.{concat-ne-nil}
use native.Mathlib.Nat.{pow-suc}
use fossil_network.Base.{
  ℕ, zero, suc, ◌+◌, ◌-◌, ◌*◌, ◌/◌, ◌%◌, ◌^◌, ◌≡◌, ◌≢◌, ◌≤◌, ◌<◌, refl, inl, inr, Bool, false, [],
  ◌∷◌, ◌++◌, ◌&&◌, ◌||◌, arith, ltb, leb, ◌==◌, if◌then◌else◌, Bool-cases, append_assoc, ℤ, pos,
  negsuc, to_unsigned, length, All, All-append, All-map, min, length-append,
}
use fossil_network.Cstr.{Bytes, IsText, codes}

-- The digits of `n`, at most `fuel` of them from the right.
unfoldable pub digits : ℕ → ℕ → Bytes
digits zero n = []
digits (suc fuel) n =
    let front = digits fuel (n / 10) in
    if ltb n 10 then (b'0' + n) ∷ [] else front ++ (b'0' + n % 10) ∷ []

-- The print of an unsigned number; a number has no more digits than its value plus one.
unfoldable pub decimal : ℕ → Bytes
unfolding digits
decimal n = digits (suc n) n

unfoldable pub is_space : ℕ → Bool
is_space c = (c == b' ') || ((leb 9 c) && (leb c 13))

unfoldable pub is_digit : ℕ → Bool
is_digit c = leb b'0' c && leb c b'9'

unfoldable pub skip_spaces : Bytes → Bytes
unfolding is_space
skip_spaces [] = []
skip_spaces (c ∷ s) = if is_space c then skip_spaces s else c ∷ s

-- The value of the leading digits, behind the number read so far.
unfoldable pub read_digits : Bytes → ℕ → ℕ
unfolding is_digit
read_digits [] n = n
read_digits (c ∷ s) n =
    let rest = read_digits s (n * 10 + (c - b'0')) in if is_digit c then rest else n

negated : ℕ → ℤ
negated zero = pos 0
negated (suc n) = negsuc n

-- `strtol` in base 10, on a 64-bit `long`
unfoldable pub strtol : Bytes → ℤ
unfolding read_digits negated
strtol [] = pos 0
strtol (c ∷ s) =
    if c == b'-'
    then negated (min (read_digits s 0) (2 ^ 63))
    else if c == b'+'
    then pos (min (read_digits s 0) (2 ^ 63 - 1))
    else pos (min (read_digits (c ∷ s) 0) (2 ^ 63 - 1))

-- The conversion of a wider signed value to `int`
unfoldable pub to_int : ℤ → ℤ
unfolding to_unsigned
to_int z = let u = to_unsigned 32 z in if ltb u (2 ^ 31) then pos u else negsuc (2 ^ 32 - 1 - u)

unfoldable pub atoi : Bytes → ℤ
unfolding strtol skip_spaces to_int
atoi s = to_int (strtol (skip_spaces s))

atoi_tests :
    (atoi (codes " 80/x") ≡ pos 80)
    × (atoi (codes "-1") ≡ negsuc 0)
    × (atoi (codes "x") ≡ pos 0)
    × (atoi (codes "4294967297") ≡ pos 1)
    × (decimal 8080 ≡ codes "8080")
    × (decimal 0 ≡ codes "0")
unfolding atoi decimal
atoi_tests = (refl, refl, refl, refl, refl, refl)

abbrev pub IsDigit : ℕ → Type 0
IsDigit c = (b'0' ≤ c) × (c ≤ b'9')

-- A text at which a run of digits ends.
abbrev pub EndsDigits : Bytes → Type 0
EndsDigits [] = Unit
EndsDigits (c ∷ s) = is_digit c ≡ false

read_digits_end : (r : Bytes) (n : ℕ) → EndsDigits r → read_digits r n ≡ n
unfolding read_digits
read_digits_end [] n h = refl
read_digits_end (c ∷ r) n h = ground arith

read_digits-digits :
    (fuel n : ℕ) (r : Bytes) → n < fuel → read_digits (digits fuel n ++ r) 0 ≡ read_digits r n
unfolding digits read_digits
read_digits-digits zero n r h = absurd (omega arith)
read_digits-digits (suc fuel) n r h = ground (
  arith,
  append_assoc (digits fuel (n / 10)) ((b'0' + n % 10) ∷ []) r,
  read_digits-digits fuel (n / 10) ((b'0' + n % 10) ∷ r),
)

pub digits-IsDigit : (fuel n : ℕ) → All IsDigit (digits fuel n)
unfolding digits
digits-IsDigit zero n = tt
digits-IsDigit (suc fuel) n = elim (Bool-cases (ltb n 10)) [
  | inl small ↦ rw small (ground arith)
  | inr large ↦ rw large (All-append IsDigit _ _ (digits-IsDigit fuel (n / 10)) (omega arith))
]

digits-ne-nil : (fuel n : ℕ) → digits (suc fuel) n ≢ []
unfolding digits
digits-ne-nil fuel n = ground (arith, concat-ne-nil (b'0' + n % 10) (digits fuel (n / 10)))

atoi_of_digits :
    (s r : Bytes)
    → s ≢ []
    → All IsDigit s
    → atoi (s ++ r) ≡ to_int (pos (min (read_digits (s ++ r) 0) (2 ^ 63 - 1)))
unfolding atoi
atoi_of_digits [] r ne h = absurd (ne refl)
atoi_of_digits (c ∷ s) r ne h = ground arith

-- `atoi` reads back the print of every number that an `int` can hold.
pub atoi-decimal : (n : ℕ) (r : Bytes) → n < 2 ^ 31 → EndsDigits r → atoi (decimal n ++ r) ≡ pos n
unfolding decimal
atoi-decimal n r h e =
    rw
      (
        atoi_of_digits (digits (suc n) n) r (digits-ne-nil n n) (digits-IsDigit (suc n) n),
        read_digits-digits (suc n) n r (omega arith),
        read_digits_end r n e,
      )
      (unfold to_int in ground arith)

pub decimal-IsText : (n : ℕ) → IsText (decimal n)
unfolding decimal
decimal-IsText n =
    All-map IsDigit (λ c. c ≢ 0) (λ c d. omega arith) (digits (suc n) n) (digits-IsDigit (suc n) n)

pub decimal-IsDigit : (n : ℕ) → All IsDigit (decimal n)
unfolding decimal
decimal-IsDigit n = digits-IsDigit (suc n) n

digits-length : (fuel n k : ℕ) → n < 10 ^ suc k → length (digits fuel n) ≤ suc k
unfolding digits
digits-length zero n k h = omega arith
digits-length (suc fuel) n zero h = ground arith
digits-length (suc fuel) n (suc k) h =
    let below : n / 10 < 10 ^ suc k = omega (arith, pow-suc 10 (suc k)) in
    ground (
      arith,
      digits-length fuel (n / 10) k below,
      length-append (digits fuel (n / 10)) ((b'0' + n % 10) ∷ []),
    )

-- A number below 10 ^ (k + 1) prints in at most k + 1 digits.
pub decimal-length : (n k : ℕ) → n < 10 ^ suc k → length (decimal n) ≤ suc k
unfolding decimal
decimal-length n k h = digits-length (suc n) n k h

starts_with-IsDigit :
    (s : Bytes) → s ≢ [] → All IsDigit s → (c : ℕ) × ((t : Bytes) × (s ≡ c ∷ t) × IsDigit c)
starts_with-IsDigit [] ne h = absurd (ne refl)
starts_with-IsDigit (c ∷ s) ne (d, h) = (c, (s, refl, d))

-- A print begins with a digit.
pub decimal_starts : (n : ℕ) → (c : ℕ) × ((t : Bytes) × (decimal n ≡ c ∷ t) × IsDigit c)
unfolding decimal
decimal_starts n =
    starts_with-IsDigit (digits (suc n) n) (digits-ne-nil n n) (digits-IsDigit (suc n) n)
