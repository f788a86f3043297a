-- ===== src/Cstr/Cut.antt =====
-- Cutting a string at a byte: what is left of an array when NULs are written into it, and what the
-- offsets that `strchr` returns mean.
use Prim.Native.Nat.add
use fossil_network.Base.{
  ℕ, zero, suc, ◌+◌, ◌≡◌, ◌≤◌, ◌<◌, refl, ap, [], ◌∷◌, ◌++◌, none, some, arith, ◌==◌, if◌then◌else◌,
  length, take, drop, set,
}
use fossil_network.Cstr.{Bytes, c_string}
use fossil_network.Cstr.Search.{strchr, Lacks}

-- The part before the first `c`, all of it where there is none.
unfoldable pub before : ℕ → Bytes → Bytes
before c [] = []
before c (x ∷ s) = if x == c then [] else x ∷ before c s

-- The part from the first `c` on, empty where there is none.
unfoldable pub from : ℕ → Bytes → Bytes
from c [] = []
from c (x ∷ s) = if x == c then x ∷ s else from c s

pub strchr-some :
    (s : Bytes) (c i : ℕ)
    → strchr s c ≡ some i
    → (take i s ≡ before c s) × (drop i s ≡ from c s) × (i < length s)
unfolding strchr before from
strchr-some [] c i h = absurd (cc)
strchr-some (x ∷ s) c zero h = ground arith
strchr-some (x ∷ s) c (suc i) h = ground (arith, strchr-some s c i)

pub strchr_absent : (s : Bytes) (c : ℕ) → strchr s c ≡ none → (before c s ≡ s) × (from c s ≡ [])
unfolding strchr before from
strchr_absent [] c h = (refl, refl)
strchr_absent (x ∷ s) c h = ground (arith, strchr_absent s c)

pub before-append : (p r : Bytes) (c : ℕ) → Lacks c p → before c (p ++ c ∷ r) ≡ p
unfolding before
before-append [] r c h = ground arith
before-append (x ∷ p) r c (hx, h) = ground (arith, before-append p r c h)

pub from-append : (p r : Bytes) (c : ℕ) → Lacks c p → from c (p ++ c ∷ r) ≡ c ∷ r
unfolding from
from-append [] r c h = ground arith
from-append (x ∷ p) r c (hx, h) = ground (arith, from-append p r c h)

pub before-Lacks : (p : Bytes) (c : ℕ) → Lacks c p → before c p ≡ p
unfolding before
before-Lacks [] c h = refl
before-Lacks (x ∷ p) c (hx, h) = ground (arith, before-Lacks p c h)

pub from-Lacks : (p : Bytes) (c : ℕ) → Lacks c p → from c p ≡ []
unfolding from
from-Lacks [] c h = refl
from-Lacks (x ∷ p) c (hx, h) = ground (arith, from-Lacks p c h)

-- A NUL written inside the string ends it there.
pub c_string-set :
    (m : Bytes) (i : ℕ)
    → i ≤ length (c_string m)
    → i < length m
    → c_string (set m i 0) ≡ take i (c_string m)
unfolding c_string
c_string-set [] i p q = absurd (omega arith)
c_string-set (x ∷ m) zero p q = refl
c_string-set (zero ∷ m) (suc i) p q = absurd (omega arith)
c_string-set (suc x ∷ m) (suc i) p q =
    ap (◌∷◌ (suc x)) (c_string-set m i (omega arith) (omega arith))

pub c_string-drop :
    (m : Bytes) (i : ℕ) → i ≤ length (c_string m) → c_string (drop i m) ≡ drop i (c_string m)
unfolding c_string
c_string-drop m zero p = refl
c_string-drop [] (suc i) p = refl
c_string-drop (zero ∷ m) (suc i) p = absurd (omega arith)
c_string-drop (suc x ∷ m) (suc i) p = c_string-drop m i (omega arith)

-- A write at or behind the place where the rest starts, and one before it.
pub drop-set : (m : Bytes) (h i v : ℕ) → drop h (set m (h + i) v) ≡ set (drop h m) i v
drop-set m zero i v = ap (λ k. set m k v) (add.zero i)
drop-set [] (suc h) i v = refl
drop-set (x ∷ m) (suc h) i v = rw (add.suc h i) (drop-set m h i v)

pub drop-set_before : (m : Bytes) (h i v : ℕ) → i < h → drop h (set m i v) ≡ drop h m
drop-set_before m zero i v p = absurd (omega arith)
drop-set_before [] (suc h) i v p = refl
drop-set_before (x ∷ m) (suc h) zero v p = refl
drop-set_before (x ∷ m) (suc h) (suc i) v p = drop-set_before m h i v (omega arith)

pub strchr_from : (s : Bytes) (c i : ℕ) → strchr s c ≡ some i → from c s ≡ c ∷ drop (suc i) s
unfolding strchr from
strchr_from [] c i h = absurd (cc)
strchr_from (x ∷ s) c zero h = ground arith
strchr_from (x ∷ s) c (suc i) h = ground (arith, strchr_from s c i)
