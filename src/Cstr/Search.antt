-- ===== src/Cstr/Search.antt =====
-- `strchr` and `strstr`, on the string that the searched array holds; a result is an offset.
use mathlib.Core.Option
use fossil_network.Base.{
  ℕ, zero, suc, ◌+◌, ◌≡◌, ◌≢◌, ◌≤◌, ◌<◌, refl, Bool, true, false, [], ◌∷◌, ◌++◌, ◌&&◌, Option, none,
  some, arith, ◌==◌, if◌then◌else◌, length, take, drop, All,
}
use fossil_network.Cstr.{Bytes}

unfoldable pub strchr : Bytes → ℕ → Option ℕ
strchr [] c = none
strchr (x ∷ s) c = if x == c then some 0 else Option.map suc (strchr s c)

unfoldable pub starts_with : Bytes → Bytes → Bool
starts_with [] s = true
starts_with (p ∷ pat) [] = false
starts_with (p ∷ pat) (x ∷ s) = (x == p) && starts_with pat s

unfoldable pub strstr : Bytes → Bytes → Option ℕ
unfolding starts_with
strstr [] pat = if starts_with pat [] then some 0 else none
strstr (x ∷ s) pat = if starts_with pat (x ∷ s) then some 0 else Option.map suc (strstr s pat)

abbrev pub Lacks : ℕ → Bytes → Type 0
Lacks c = All (λ x. x ≢ c)

pub strchr-append : (p r : Bytes) (c : ℕ) → Lacks c p → strchr (p ++ c ∷ r) c ≡ some (length p)
unfolding strchr
strchr-append [] r c h = ground arith
strchr-append (x ∷ p) r c (hx, h) = ground (arith, strchr-append p r c h)

pub strchr-Lacks : (s : Bytes) (c : ℕ) → Lacks c s → strchr s c ≡ none
unfolding strchr
strchr-Lacks [] c h = refl
strchr-Lacks (x ∷ s) c (hx, h) = ground (arith, strchr-Lacks s c h)

-- The first occurrence splits the string.
pub strchr_sound :
    (s : Bytes) (c i : ℕ)
    → strchr s c ≡ some i
    → (s ≡ take i s ++ c ∷ drop (suc i) s) × (i < length s) × Lacks c (take i s)
unfolding strchr
strchr_sound [] c i h = absurd (cc)
strchr_sound (x ∷ s) c zero h = ground arith
strchr_sound (x ∷ s) c (suc i) h = ground (arith, strchr_sound s c i)

pub strchr-none : (s : Bytes) (c : ℕ) → strchr s c ≡ none → Lacks c s
unfolding strchr
strchr-none [] c h = tt
strchr-none (x ∷ s) c h = ground (arith, strchr-none s c)

pub starts_with-append : (p s : Bytes) → starts_with p (p ++ s) ≡ true
unfolding starts_with
starts_with-append [] s = refl
starts_with-append (c ∷ p) s = ground (arith, starts_with-append p s)

pub starts_with_sound : (p s : Bytes) → starts_with p s ≡ true → s ≡ p ++ drop (length p) s
unfolding starts_with
starts_with_sound [] s h = refl
starts_with_sound (c ∷ p) [] h = absurd (cc)
starts_with_sound (c ∷ p) (x ∷ s) h = ground (arith, starts_with_sound p s)

-- The first place where the pattern can start is behind a part that lacks its first byte.
pub strstr-append :
    (p r : Bytes) (c : ℕ) (pat : Bytes)
    → Lacks c p
    → strstr (p ++ ((c ∷ pat) ++ r)) (c ∷ pat) ≡ some (length p)
unfolding strstr
strstr-append [] r c pat h = ground (arith, starts_with-append pat r)
strstr-append (x ∷ p) r c pat (hx, h) = ground (arith, strstr-append p r c pat h)

pub strstr-Lacks : (s : Bytes) (c : ℕ) (pat : Bytes) → Lacks c s → strstr s (c ∷ pat) ≡ none
unfolding strstr
strstr-Lacks [] c pat h = refl
strstr-Lacks (x ∷ s) c pat (hx, h) = ground (arith, strstr-Lacks s c pat h)

pub strstr_sound :
    (s pat : Bytes) (i : ℕ)
    → strstr s pat ≡ some i
    → (s ≡ take i s ++ (pat ++ drop (length pat) (drop i s))) × (i ≤ length s)
unfolding strstr
strstr_sound [] pat zero h = ground (arith, starts_with_sound pat [])
strstr_sound [] pat (suc i) h = ground arith
strstr_sound (x ∷ s) pat zero h = ground (arith, starts_with_sound pat (x ∷ s))
strstr_sound (x ∷ s) pat (suc i) h = ground (arith, strstr_sound s pat i)

starts_with_fits : (p s : Bytes) → starts_with p s ≡ true → length p ≤ length s
unfolding starts_with
starts_with_fits [] s h = omega arith
starts_with_fits (c ∷ p) [] h = absurd (cc)
starts_with_fits (c ∷ p) (x ∷ s) h = ground (arith, starts_with_fits p s)

-- An occurrence lies inside the string.
pub strstr_fits : (s pat : Bytes) (i : ℕ) → strstr s pat ≡ some i → i + length pat ≤ length s
unfolding strstr
strstr_fits [] pat zero h = ground (arith, starts_with_fits pat [])
strstr_fits [] pat (suc i) h = ground arith
strstr_fits (x ∷ s) pat zero h = ground (arith, starts_with_fits pat (x ∷ s))
strstr_fits (x ∷ s) pat (suc i) h = ground (arith, strstr_fits s pat i)
