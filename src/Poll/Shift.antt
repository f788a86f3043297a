-- ===== src/Poll/Shift.antt =====
-- The two loops of fossil_net_socket_poll_remove on lists: the inner one takes one element out.
use Prim.Native.Nat.add
use fossil_network.Base.{
  at_index, ℕ, zero, suc, ◌+◌, ◌≡◌, ◌≤◌, ◌<◌, refl, ap, ◌∙◌, Bool, length-set, List, [], ◌∷◌, ◌++◌,
  arith, ◌==◌, true, false, if◌then◌else◌, length, take, set,
}
use fossil_network.Poll.{shift}

-- A list without the first `x`.
unfoldable pub erase : ℕ → List ℕ → List ℕ
erase x [] = []
erase x (y ∷ ys) = if y == x then ys else y ∷ erase x ys

unfoldable pub member : ℕ → List ℕ → Bool
member x [] = false
member x (y ∷ ys) = if y == x then true else member x ys

pub at_index-append : (xs ys : List ℕ) (y : ℕ) → at_index (xs ++ y ∷ ys) (length xs) ≡ y
at_index-append [] ys y = refl
at_index-append (x ∷ xs) ys y = at_index-append xs ys y

pub shift-cons : (n j : ℕ) (y : ℕ) (m : List ℕ) → shift n (suc j) (y ∷ m) ≡ y ∷ shift n j m
unfolding shift
shift-cons zero j y m = refl
shift-cons (suc n) j y m = shift-cons n (suc j) y (set m j (at_index m (suc j)))

-- From the front, `n` rounds move `n` elements and leave the rest as it is.
pub take-shift : (n : ℕ) (y : ℕ) (m : List ℕ) → n ≤ length m → take n (shift n 0 (y ∷ m)) ≡ take n m
unfolding shift
take-shift zero y m h = refl
take-shift (suc n) y [] h = absurd (omega arith)
take-shift (suc n) y (z ∷ m) h =
    rw (shift-cons n 0 z (z ∷ m)) (ap (◌∷◌ z) (take-shift n z m (omega arith)))

pub length-shift : (n j : ℕ) (m : List ℕ) → length (shift n j m) ≡ length m
unfolding shift
length-shift zero j m = refl
length-shift (suc n) j m = length-shift n (suc j) (set m j (at_index m (suc j))) ∙ length-set m j _

-- Behind a prefix the rounds leave the prefix as it is.
pub shift-append : (n : ℕ) (xs m : List ℕ) → shift n (length xs) (xs ++ m) ≡ xs ++ shift n 0 m
shift-append n [] m = refl
shift-append n (x ∷ xs) m = shift-cons n (length xs) x (xs ++ m) ∙ ap (◌∷◌ x) (shift-append n xs m)

pub take-behind : (n : ℕ) (xs m : List ℕ) → take (length xs + n) (xs ++ m) ≡ xs ++ take n m
take-behind n [] m = rw add.zero
take-behind n (x ∷ xs) m = rw (add.suc (length xs) n) (ap (◌∷◌ x) (take-behind n xs m))

pub length-erase :
    (x : ℕ) (ys : List ℕ) → length (erase x ys) + (if member x ys then 1 else 0) ≡ length ys
unfolding erase member
length-erase x [] = refl
length-erase x (y ∷ ys) = ground (arith, length-erase x ys)

pub erase-append : (x : ℕ) (ys : List ℕ) → member x ys ≡ false → erase x (ys ++ x ∷ []) ≡ ys
unfolding erase member
erase-append x [] h = ground arith
erase-append x (y ∷ ys) h = ground (arith, erase-append x ys)

pub erase-none : (x : ℕ) (ys : List ℕ) → member x ys ≡ false → erase x ys ≡ ys
unfolding erase member
erase-none x [] h = refl
erase-none x (y ∷ ys) h = ground (arith, erase-none x ys)

pub member-append : (x : ℕ) (ys : List ℕ) → member x (ys ++ x ∷ []) ≡ true
unfolding member
member-append x [] = ground arith
member-append x (y ∷ ys) = ground (arith, member-append x ys)

pub take-set :
    (n : ℕ) (xs : List ℕ) (v : ℕ) → n < length xs → take (suc n) (set xs n v) ≡ take n xs ++ v ∷ []
take-set n [] v h = absurd (omega arith)
take-set zero (x ∷ xs) v h = refl
take-set (suc n) (x ∷ xs) v h = ap (◌∷◌ x) (take-set n xs v (omega arith))
