-- ===== src/Cstr.antt =====
-- Char arrays, C strings and the functions of string.h that code/logic uses, together with
-- fossil__safe_copy of code/logic/request.c. An array is the list of all its bytes; the string that
-- it holds ends before the first NUL. A char pointer into an array is an offset.
pub mod Copy
pub mod Search
pub mod Cut
pub mod Decimal
pub mod Scan
use Prim.Native.Char.{code}
use Prim.Native.String.{String}
use fossil_network.Base.{
  ℕ, zero, suc, ◌+◌, ◌-◌, ◌≡◌, ◌≢◌, ◌<◌, Bool, true, false, ◌&&◌, List, [], ◌∷◌, ◌++◌, Option, none,
  some, ltb, leb, ◌==◌, if◌then◌else◌, length, take, drop, set, replicate, All,
}

abbrev pub Bytes : Type 0
Bytes = List ℕ

-- The bytes of a literal; every literal here is ASCII.
abbrev pub codes : String → Bytes
codes String.[] = []
codes (String.◌∷◌ c s) = code c ∷ codes s

abbrev pub crlf : Bytes
crlf = b'\r' ∷ b'\n' ∷ []

-- The string that an array holds.
unfoldable pub c_string : Bytes → Bytes
c_string [] = []
c_string (zero ∷ m) = []
c_string (suc c ∷ m) = suc c ∷ c_string m

-- A text that holds no NUL, as the strings behind `const char *` arguments are.
abbrev pub IsText : Bytes → Type 0
IsText = All (λ c. c ≢ 0)

-- An array in which a NUL ends the string.
abbrev pub IsTerminated : Bytes → Type 0
IsTerminated m = length (c_string m) < length m

abbrev pub strlen : Bytes → ℕ
strlen = length

-- `strcmp(a, b) == 0`
unfoldable pub str_eq : Bytes → Bytes → Bool
str_eq [] [] = true
str_eq (x ∷ a) (y ∷ b) = (x == y) && str_eq a b
str_eq _ _ = false

-- `memset(p, 0, n)` of a whole array
abbrev pub zeroed : ℕ → Bytes
zeroed n = replicate n 0

-- `memcpy(dst + off, src, n)`
abbrev pub memcpy_at : Bytes → ℕ → Bytes → ℕ → Bytes
memcpy_at dst off src n = take off dst ++ (take n src ++ drop (off + n) dst)

abbrev pub memcpy : Bytes → Bytes → ℕ → Bytes
memcpy dst src n = take n src ++ drop n dst

-- `snprintf(buffer + off, room, ...)` with the text that the format gives: at most `room - 1` bytes
-- of it and a NUL; nothing where there is no room.
unfoldable pub snprintf_at : Bytes → ℕ → ℕ → Bytes → Bytes
snprintf_at buffer off room text =
    if room == 0
    then buffer
    else let cut = take (room - 1) text in memcpy_at buffer off (cut ++ 0 ∷ []) (length cut + 1)

-- `strncpy(dst, src, n)`: the source, filled up with NULs to `n` bytes.
unfoldable pub strncpy : Bytes → Bytes → ℕ → Bytes
strncpy dst src n = take n src ++ (replicate (n - strlen src) 0 ++ drop n dst)

-- `strcpy(dst, src)`: the source with its NUL.
unfoldable pub strcpy : Bytes → Bytes → Bytes
strcpy dst src = src ++ 0 ∷ drop (suc (strlen src)) dst

-- fossil__safe_copy where `dst` and `src` are not NULL and `size` is not 0.
unfoldable pub copy_string : Bytes → Bytes → ℕ → Bytes
copy_string dst src size =
    let src_len = strlen src in
    let copy_len = if leb size src_len then size - 1 else src_len in
    set (if ltb 0 copy_len then memcpy dst src copy_len else dst) copy_len 0

-- fossil__safe_copy; `none` is NULL.
unfoldable pub safe_copy : Option Bytes → Option Bytes → ℕ → Option Bytes
unfolding copy_string
safe_copy none src size = none
safe_copy (some dst) none size = some (if size == 0 then dst else set dst 0 0)
safe_copy (some dst) (some src) size = some (if size == 0 then dst else copy_string dst src size)
