-- ===== src/Cpp/Owner/Count.antt =====
-- How often a pointer stands in a list of objects, and what the operations on the list do to that.
use fossil_network.Base.{
  ℕ, zero, suc, ◌+◌, ◌≡◌, ◌≢◌, ◌<◌, refl, ap, List, [], ◌∷◌, arith, ◌==◌, if◌then◌else◌, length,
  set, at_index, length-set,
}
use fossil_network.Cpp.Owner.{remove_at}

abbrev pub count : ℕ → List ℕ → ℕ
count q [] = 0
count q (x ∷ xs) = (if x == q then 1 else 0) + count q xs

pub count-set :
    (q : ℕ) (xs : List ℕ) (i v : ℕ)
    → i < length xs
    → count q (at_index xs i ∷ set xs i v) ≡ count q (v ∷ xs)
count-set q [] i v h = absurd (omega arith)
count-set q (x ∷ xs) zero v h = omega arith
count-set q (x ∷ xs) (suc i) v h = omega (arith, count-set q xs i v (omega arith))

pub count-remove_at :
    (q : ℕ) (xs : List ℕ) (i : ℕ)
    → i < length xs
    → count q (at_index xs i ∷ remove_at xs i) ≡ count q xs
count-remove_at q [] i h = absurd (omega arith)
count-remove_at q (x ∷ xs) zero h = refl
count-remove_at q (x ∷ xs) (suc i) h = omega (arith, count-remove_at q xs i (omega arith))

pub at_index-set : (xs : List ℕ) (i j v : ℕ) → i ≢ j → at_index (set xs i v) j ≡ at_index xs j
at_index-set [] i j v n = refl
at_index-set (x ∷ xs) zero zero v n = absurd (n refl)
at_index-set (x ∷ xs) zero (suc j) v n = refl
at_index-set (x ∷ xs) (suc i) zero v n = refl
at_index-set (x ∷ xs) (suc i) (suc j) v n = at_index-set xs i j v (λ e. n (ap suc e))

-- A pointer moved from `j` to `i` leaves the other objects as they were without that of `i`.
pub count-move :
    (q : ℕ) (xs : List ℕ) (i j : ℕ)
    → i ≢ j
    → i < length xs
    → j < length xs
    → count q (at_index xs i ∷ set (set xs i (at_index xs j)) j 0) ≡ count q (0 ∷ xs)
count-move q xs i j n hi hj =
    let one = count-set q xs i (at_index xs j) hi in
    let two =
      count-set q (set xs i (at_index xs j)) j 0
        (omega (arith, hj, length-set xs i (at_index xs j))) in
    let same = at_index-set xs i j (at_index xs j) n in omega (arith, one, rw same at two)
