-- ===== src/Cstr/Copy.antt =====
-- What the copying functions leave in an array: the string it holds, and that no byte beyond the
-- given size is written.
use Prim.Native.Nat.add
use fossil_network.Base.{
  ℕ, zero, suc, ◌+◌, ◌-◌, ◌≡◌, ◌≤◌, ◌<◌, ◌↔◌, refl, sym, ap, ◌∙◌, inl, inr, true, [], ◌∷◌, ◌++◌,
  Option, none, some, min, arith, ltb, leb, if◌then◌else◌, Bool-cases, leb→le, length, take, drop,
  set, All, to_list, get_or, All-take, length-append, length-take, length-drop, length-replicate,
  take_of_length, append_assoc, false, ◌==◌,
}
use fossil_network.Cstr.{
  Bytes, c_string, IsText, IsTerminated, str_eq, zeroed, memcpy, strncpy, copy_string, safe_copy,
  snprintf_at,
}

pub c_string-append : (s m : Bytes) → IsText s → c_string (s ++ 0 ∷ m) ≡ s
unfolding c_string
c_string-append [] m h = refl
c_string-append (zero ∷ s) m (h, _) = absurd (h refl)
c_string-append (suc c ∷ s) m (_, h) = ap (◌∷◌ (suc c)) (c_string-append s m h)

pub c_string-IsText : (m : Bytes) → IsText (c_string m)
unfolding c_string
c_string-IsText [] = tt
c_string-IsText (zero ∷ m) = tt
c_string-IsText (suc c ∷ m) = (λ e. absurd (omega arith), c_string-IsText m)

pub c_string_of_text : (s : Bytes) → IsText s → c_string s ≡ s
unfolding c_string
c_string_of_text [] h = refl
c_string_of_text (zero ∷ s) (h, _) = absurd (h refl)
c_string_of_text (suc c ∷ s) (_, h) = ap (◌∷◌ (suc c)) (c_string_of_text s h)

pub length-c_string-le : (m : Bytes) → length (c_string m) ≤ length m
unfolding c_string
length-c_string-le [] = omega arith
length-c_string-le (zero ∷ m) = omega arith
length-c_string-le (suc c ∷ m) = omega (arith, length-c_string-le m)

-- A terminated array splits at its NUL.
pub terminated_split :
    (m : Bytes) → IsTerminated m → m ≡ c_string m ++ 0 ∷ drop (suc (length (c_string m))) m
unfolding c_string
terminated_split [] h = absurd (omega arith)
terminated_split (zero ∷ m) h = refl
terminated_split (suc c ∷ m) h = ap (◌∷◌ (suc c)) (terminated_split m (omega arith))

pub str_eq_iff : (a b : Bytes) → (str_eq a b ≡ true) ↔ (a ≡ b)
unfolding str_eq
str_eq_iff (x ∷ a) (y ∷ b) = ground (arith, str_eq_iff a b)
str_eq_iff _ _ = ground arith

pub str_eq_refl : (a : Bytes) → str_eq a a ≡ true
str_eq_refl a = (str_eq_iff a a).1 refl

memcpy-nul :
    (n : ℕ) (dst src : Bytes)
    → n ≤ length src
    → n < length dst
    → set (memcpy dst src n) n 0 ≡ take n src ++ 0 ∷ drop (suc n) dst
memcpy-nul zero [] src p q = absurd (omega arith)
memcpy-nul zero (d ∷ dst) src p q = refl
memcpy-nul (suc n) [] src p q = absurd (omega arith)
memcpy-nul (suc n) (d ∷ dst) [] p q = absurd (omega arith)
memcpy-nul (suc n) (d ∷ dst) (c ∷ src) p q =
    ap (◌∷◌ c) (memcpy-nul n dst src (omega arith) (omega arith))

take-min : (n : ℕ) (s : Bytes) → take n s ≡ take (min n (length s)) s
take-min n s = elim (Bool-cases (leb n (length s))) [
  | inl le ↦ ap (λ k. take k s) (omega (arith, leb→le n (length s) le))
  | inr gt ↦
      let short : length s ≤ n = ground arith in
      take_of_length n s short ∙ sym (take_of_length _ s (omega arith))
]

memcpy-guard :
    (n : ℕ) (dst src : Bytes) → (if ltb 0 n then memcpy dst src n else dst) ≡ memcpy dst src n
memcpy-guard zero dst src = refl
memcpy-guard (suc n) dst src = ground arith

copy_len-min :
    (size len : ℕ) → 0 < size → (if leb size len then size - 1 else len) ≡ min (size - 1) len
copy_len-min size len h = ground arith

-- The layout of the destination after a copy: the source cut to `size - 1` bytes, a NUL, and the
-- old bytes behind it.
pub copy_string_layout :
    (dst src : Bytes) (size : ℕ)
    → 0 < size
    → size ≤ length dst
    → copy_string dst src size
      ≡ take (size - 1) src ++ 0 ∷ drop (suc (min (size - 1) (length src))) dst
unfolding copy_string
copy_string_layout dst src size p q = rw (copy_len-min size (length src) p) (
    rw (memcpy-guard (min (size - 1) (length src)) dst src, take-min (size - 1) src)
      (memcpy-nul (min (size - 1) (length src)) dst src (omega arith) (omega arith)))

-- The array holds the source cut to `size - 1` bytes.
pub c_string-copy_string :
    (dst src : Bytes) (size : ℕ)
    → 0 < size
    → size ≤ length dst
    → IsText src
    → c_string (copy_string dst src size) ≡ take (size - 1) src
c_string-copy_string dst src size p q t =
    rw (copy_string_layout dst src size p q) (c_string-append _ _ (All-take _ (size - 1) src t))

pub length-copy_string :
    (dst src : Bytes) (size : ℕ)
    → 0 < size
    → size ≤ length dst
    → length (copy_string dst src size) ≡ length dst
length-copy_string dst src size p q = rw (copy_string_layout dst src size p q) (
    omega (
      arith,
      length-append {0} (take (size - 1) src) (0 ∷ drop (suc (min (size - 1) (length src))) dst),
      length-take {0} (size - 1) src,
      length-drop {0} (suc (min (size - 1) (length src))) dst,
    ))

pub drop-drop : (m n : ℕ) (s : Bytes) → drop m (drop n s) ≡ drop (n + m) s
drop-drop m zero s = rw add.zero
drop-drop zero (suc n) [] = rw (add.suc n zero)
drop-drop (suc m) (suc n) [] = rw (add.suc n (suc m))
drop-drop m (suc n) (c ∷ s) = drop-drop m n s ∙ rw (add.suc n m)

pub drop_beyond : (n : ℕ) (s t : Bytes) → drop (length s + n) (s ++ t) ≡ drop n t
drop_beyond n [] t = rw add.zero
drop_beyond n (c ∷ s) t = rw (add.suc (length s) n) (drop_beyond n s t)

-- No byte at or behind `size` is written.
pub drop-copy_string :
    (dst src : Bytes) (size : ℕ)
    → 0 < size
    → size ≤ length dst
    → drop size (copy_string dst src size) ≡ drop size dst
drop-copy_string dst src size p q =
    let n : ℕ = min (size - 1) (length src) in
    let cut : length (take (size - 1) src) ≡ n = length-take (size - 1) src in
    let split : size ≡ length (take (size - 1) src) + suc (size - suc n) = omega arith in
    rw (copy_string_layout dst src size p q) (
      ap (λ k. drop k (take (size - 1) src ++ 0 ∷ drop (suc n) dst)) split
      ∙ drop_beyond (suc (size - suc n)) (take (size - 1) src) (0 ∷ drop (suc n) dst)
      ∙ drop-drop (size - suc n) (suc n) dst
      ∙ ap (λ k. drop k dst) (omega arith))

drop-zeroed : (n : ℕ) → drop n (zeroed (suc n)) ≡ 0 ∷ []
drop-zeroed zero = refl
drop-zeroed (suc n) = drop-zeroed n

replicate_last : (n : ℕ) → zeroed n ++ 0 ∷ [] ≡ zeroed (suc n)
replicate_last zero = refl
replicate_last (suc n) = ap (◌∷◌ 0) (replicate_last n)

strncpy_layout :
    (src : Bytes) (n : ℕ)
    → strncpy (zeroed (suc n)) src n ≡ take n src ++ 0 ∷ zeroed (n - length src)
unfolding strncpy
strncpy_layout src n =
    ap (λ t. take n src ++ (zeroed (n - length src) ++ t)) (drop-zeroed n)
    ∙ ap (λ t. take n src ++ t) (replicate_last (n - length src))

-- An array of `n + 1` zero bytes, filled by `strncpy` with one byte to spare, holds the source cut
-- to `n` bytes.
pub c_string-strncpy :
    (src : Bytes) (n : ℕ) → IsText src → c_string (strncpy (zeroed (suc n)) src n) ≡ take n src
c_string-strncpy src n t =
    rw (strncpy_layout src n) (c_string-append _ (zeroed (n - length src)) (All-take _ n src t))

pub length-strncpy : (src : Bytes) (n : ℕ) → length (strncpy (zeroed (suc n)) src n) ≡ suc n
length-strncpy src n = rw (strncpy_layout src n) (
    omega (
      arith,
      length-append {0} (take n src) (0 ∷ zeroed (n - length src)),
      length-take {0} n src,
      length-replicate {0} {A = ℕ} (n - length src) 0,
    ))

pub IsTerminated-copy_string :
    (dst src : Bytes) (size : ℕ)
    → 0 < size
    → size ≤ length dst
    → IsText src
    → IsTerminated (copy_string dst src size)
IsTerminated-copy_string dst src size p q t = omega (
  arith,
  ap length (c_string-copy_string dst src size p q t),
  length-copy_string dst src size p q,
  length-take {0} (size - 1) src,
)

-- fossil__safe_copy stays inside the destination and leaves it terminated, for every source, NULL
-- included. With size 0 or a NULL destination it does nothing.
pub safe_copy_bounded :
    (dst : Bytes) (src : Option Bytes) (size : ℕ)
    → size ≤ length dst
    → All IsText (to_list src)
    → (out : Bytes) × (safe_copy (some dst) src size ≡ some out)
      × (length out ≡ length dst)
      × (drop size out ≡ drop size dst)
      × (0 < size → c_string out ≡ take (size - 1) (get_or src []))
unfolding safe_copy
safe_copy_bounded dst none zero q t = (dst, refl, refl, refl, λ p. absurd (omega arith))
safe_copy_bounded dst (some src) zero q t = (dst, refl, refl, refl, λ p. absurd (omega arith))
safe_copy_bounded [] none (suc n) q t = absurd (omega arith)
safe_copy_bounded (c ∷ dst) none (suc n) q t = (
  0 ∷ dst,
  ground arith,
  refl,
  refl,
  λ p. unfold c_string in sym (take_of_length (suc n - 1) [] (omega arith)),
)
safe_copy_bounded dst (some src) (suc n) q (t, _) = (
  copy_string dst src (suc n),
  ground arith,
  length-copy_string dst src (suc n) (omega arith) q,
  drop-copy_string dst src (suc n) (omega arith) q,
  λ p. c_string-copy_string dst src (suc n) p q t,
)

-- snprintf into an array: the text cut to `size - 1` bytes, a NUL, and the old bytes behind it.
pub snprintf_cut :
    (m text : Bytes) (size : ℕ)
    → 0 < size
    → snprintf_at m 0 size text
      ≡ take (size - 1) text ++ 0 ∷ drop (suc (length (take (size - 1) text))) m
unfolding snprintf_at
snprintf_cut m text size h =
    let cut = take (size - 1) text in
    let room : (size == 0) ≡ false = ground arith in
    let whole : take (length cut + 1) (cut ++ 0 ∷ []) ≡ cut ++ 0 ∷ [] =
      take_of_length (length cut + 1) (cut ++ 0 ∷ [])
        (omega (arith, length-append {0} cut (0 ∷ []))) in
    let behind : 0 + (length cut + 1) ≡ suc (length cut) = omega arith in
    rw (room, whole, behind) (append_assoc cut (0 ∷ []) (drop (suc (length cut)) m))

pub c_string-snprintf :
    (m text : Bytes) (size : ℕ)
    → 0 < size
    → IsText text
    → c_string (snprintf_at m 0 size text) ≡ take (size - 1) text
c_string-snprintf m text size h t =
    rw (snprintf_cut m text size h) (c_string-append _ _ (All-take _ (size - 1) text t))
