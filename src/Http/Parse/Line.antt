-- ===== src/Http/Parse/Line.antt =====
-- One header line, as the parser reads it.
use fossil_network.Base.{
  ℕ, zero, suc, ◌+◌, ◌≡◌, ◌≢◌, ◌≤◌, ◌<◌, refl, Bool, true, false, [], ◌∷◌, ◌++◌, some, arith,
  length, drop, All, All-map,
}
use fossil_network.Cstr.{Bytes, crlf, IsText}
use fossil_network.Cstr.Copy.{drop_beyond}
use fossil_network.Cstr.Decimal.{skip_spaces, is_space}
use fossil_network.Cstr.Scan.{span}
use fossil_network.Cstr.Search.{starts_with, strstr, strstr-append, Lacks}
use fossil_network.Http.Parse.{
  scan_header, scan_value, scan_behind, not_line_end, not_colon, at_end,
}

-- A header name that a line carries with no loss.
pub record PlainKey (k : Bytes) : Type 0 where
  pub key_nonempty : 0 < length k
  pub key_fits : length k ≤ 63
  pub key_lacks_nul : IsText k
  pub key_lacks_colon : Lacks b':' k
  pub key_lacks_return : Lacks b'\r' k

abbrev pub StartsPlain : Bytes → Type 0
StartsPlain [] = ⊥
StartsPlain (c ∷ v) = is_space c ≡ false

-- A header value that a line carries with no loss: not empty, and with no blank in front.
pub record PlainValue (v : Bytes) : Type 0 where
  pub value_starts : StartsPlain v
  pub value_fits : length v ≤ 255
  pub value_lacks_nul : IsText v
  pub value_lacks_return : Lacks b'\r' v
  pub value_lacks_newline : Lacks b'\n' v

-- `key: value` with its line end, in front of what follows.
abbrev pub line : Bytes → Bytes → Bytes → Bytes
line k v rest = k ++ (b':' ∷ b' ' ∷ (v ++ (crlf ++ rest)))

pub span-append :
    (n : ℕ) (p : ℕ → Bool) (k : Bytes) (c : ℕ) (r : Bytes)
    → All (λ x. p x ≡ true) k
    → length k ≤ n
    → p c ≡ false
    → span n p (k ++ c ∷ r) ≡ (k, c ∷ r)
unfolding span
span-append zero p [] c r h fits stop = refl
span-append (suc n) p [] c r h fits stop = rw stop
span-append zero p (x ∷ k) c r h fits stop = absurd (omega arith)
span-append (suc n) p (x ∷ k) c r (hx, h) fits stop =
    rw (span-append n p k c r h (omega arith) stop, hx)

key_passes : (k : Bytes) → Lacks b':' k → All (λ x. not_colon x ≡ true) k
key_passes k h = All-map (λ x. x ≢ b':') (λ x. not_colon x ≡ true) (λ x ne. ground arith) k h

value_passes : (v : Bytes) → Lacks b'\r' v → Lacks b'\n' v → All (λ x. not_line_end x ≡ true) v
value_passes [] h g = tt
value_passes (x ∷ v) (hx, h) (gx, g) = (ground arith, value_passes v h g)

-- A blank in front of a value is skipped, and nothing of the value.
skip_spaces_plain : (v r : Bytes) → StartsPlain v → skip_spaces (b' ' ∷ (v ++ r)) ≡ v ++ r
unfolding skip_spaces is_space
skip_spaces_plain [] r h = absurd h
skip_spaces_plain (c ∷ v) r h = rw h

scan_behind_pos : (k r : Bytes) → 0 < length k → scan_behind k r ≡ (k, scan_value r)
unfolding scan_behind
scan_behind_pos [] r h = absurd (omega arith)
scan_behind_pos (c ∷ k) r h = refl

scan_value_plain :
    (v rest : Bytes) → PlainValue v → scan_value (b':' ∷ b' ' ∷ (v ++ (crlf ++ rest))) ≡ v
unfolding scan_value
scan_value_plain v rest p = rw (
  skip_spaces_plain v (crlf ++ rest) p.value_starts,
  span-append 255 not_line_end v b'\r' (b'\n' ∷ rest)
      (value_passes v p.value_lacks_return p.value_lacks_newline) p.value_fits refl,
)

-- The scan of a plain line gives its name and its value.
pub scan_header-line :
    (k v rest : Bytes) → PlainKey k → PlainValue v → scan_header (line k v rest) ≡ (k, v)
unfolding scan_header
scan_header-line k v rest p q = rw (
  span-append 63 not_colon k b':' (b' ' ∷ (v ++ (crlf ++ rest))) (key_passes k p.key_lacks_colon)
      p.key_fits refl,
  scan_behind_pos k (b':' ∷ b' ' ∷ (v ++ (crlf ++ rest))) p.key_nonempty,
  scan_value_plain v rest q,
)

-- A text that holds a key is no end of the headers.
pub at_end_key : (k r : Bytes) → 0 < length k → Lacks b'\r' k → at_end (k ++ r) ≡ false
unfolding at_end starts_with
at_end_key [] r h l = absurd (omega arith)
at_end_key (c ∷ k) r h (l, ls) = ground arith

-- The next line starts behind the first line end.
pub next_line :
    (p rest : Bytes)
    → Lacks b'\r' p
    → (strstr (p ++ (crlf ++ rest)) crlf ≡ some (length p))
      × (drop (length p + 2) (p ++ (crlf ++ rest)) ≡ rest)
next_line p rest h = (strstr-append p rest b'\r' (b'\n' ∷ []) h, drop_beyond 2 p (crlf ++ rest))

abbrev pub Blanks : Bytes → Type 0
Blanks = All (λ c. is_space c ≡ true)

skip_spaces-Blanks :
    (bs v r : Bytes) → Blanks bs → StartsPlain v → skip_spaces (bs ++ (v ++ r)) ≡ v ++ r
unfolding skip_spaces
skip_spaces-Blanks [] [] r b h = absurd h
skip_spaces-Blanks [] (c ∷ v) r b h = rw h
skip_spaces-Blanks (x ∷ bs) v r (bx, b) h = rw bx (skip_spaces-Blanks bs v r b h)

-- All blanks behind the colon are skipped, line ends included: after a header with an empty value
-- the whole next line is taken for the value.
pub scan_header-Blanks :
    (k bs v rest : Bytes)
    → PlainKey k
    → Blanks bs
    → PlainValue v
    → scan_header (k ++ (b':' ∷ (bs ++ (v ++ (crlf ++ rest))))) ≡ (k, v)
unfolding scan_header scan_value
scan_header-Blanks k bs v rest p b q = rw (
  span-append 63 not_colon k b':' (bs ++ (v ++ (crlf ++ rest))) (key_passes k p.key_lacks_colon)
      p.key_fits refl,
  scan_behind_pos k (b':' ∷ (bs ++ (v ++ (crlf ++ rest)))) p.key_nonempty,
  skip_spaces-Blanks bs v (crlf ++ rest) b q.value_starts,
  span-append 255 not_line_end v b'\r' (b'\n' ∷ rest)
      (value_passes v q.value_lacks_return q.value_lacks_newline) q.value_fits refl,
)
