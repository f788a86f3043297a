-- ===== src/Cpp/Owner/View.antt =====
-- What the pointers of a class's objects show: in each of them a C struct of its own, or nothing.
use fossil_network.Base.{
  ℕ, zero, suc, ◌≡◌, ◌<◌, refl, ap, ap₂, sym, List, [], ◌∷◌, arith, true, false, Option, none, some,
  ◌==◌, length, set, map, at_index, get_elem?, get_or,
}
use fossil_network.Cpp.Owner.{State, update, remove_at, allocate}
use fossil_network.Cpp.Owner.Count.{count, count-set}
use fossil_network.Cpp.Owner.Safe.{IsOwned}

-- What a pointer shows.
abbrev pub value : {C : Type 0} → (ℕ → Option C) → ℕ → Option C
value cell zero = none
value cell (suc n) = cell (suc n)

abbrev pub view : {C W : Type 0} → State C W → List (Option C) × W
view s = (map (value s.store.cell) s.objects, s.world)

abbrev pub value_at : {C : Type 0} → List (Option C) → ℕ → Option C
value_at vs i = get_or (get_elem? vs i) none

pub map-set :
    {A B : Type 0} (f : A → B) (xs : List A) (i : ℕ) (v : A)
    → map f (set xs i v) ≡ set (map f xs) i (f v)
map-set f [] i v = refl
map-set f (x ∷ xs) zero v = refl
map-set f (x ∷ xs) (suc i) v = ap (◌∷◌ (f x)) (map-set f xs i v)

pub map-remove_at :
    {A B : Type 0} (f : A → B) (xs : List A) (i : ℕ)
    → map f (remove_at xs i) ≡ remove_at (map f xs) i
map-remove_at f [] i = refl
map-remove_at f (x ∷ xs) zero = refl
map-remove_at f (x ∷ xs) (suc i) = ap (◌∷◌ (f x)) (map-remove_at f xs i)

pub value_at-map :
    {C : Type 0} (cell : ℕ → Option C) (xs : List ℕ) (i : ℕ)
    → value_at (map (value cell) xs) i ≡ value cell (at_index xs i)
value_at-map cell [] i = refl
value_at-map cell (x ∷ xs) zero = refl
value_at-map cell (x ∷ xs) (suc i) = value_at-map cell xs i

pub set-unchanged :
    {C : Type 0} (vs : List (Option C)) (i : ℕ) (v : Option C) → value_at vs i ≡ v → set vs i v ≡ vs
set-unchanged [] i v e = refl
set-unchanged (x ∷ xs) zero v e = ap (λ y. y ∷ xs) (sym e)
set-unchanged (x ∷ xs) (suc i) v e = ap (◌∷◌ x) (set-unchanged xs i v e)

pub value-update :
    {C : Type 0} (cell : ℕ → Option C) (p q : ℕ) (v : Option C)
    → (q == p) ≡ false
    → value (update cell p v) q ≡ value cell q
value-update cell p zero v e = refl
value-update cell p (suc q) v e = rw e refl

-- A block that no object holds may change unseen.
pub map-update_unheld :
    {C : Type 0} (cell : ℕ → Option C) (p : ℕ) (v : Option C) (xs : List ℕ)
    → count p xs ≡ 0
    → map (value (update cell p v)) xs ≡ map (value cell) xs
map-update_unheld cell p v [] h = refl
map-update_unheld cell p v (x ∷ xs) h =
    ap₂ ◌∷◌ (value-update cell p x v (ground arith)) (map-update_unheld cell p v xs (omega arith))

-- A block that one object holds changes for that object alone.
pub map-update_held :
    {C : Type 0} (cell : ℕ → Option C) (n : ℕ) (v : Option C) (xs : List ℕ) (i : ℕ)
    → i < length xs
    → count (suc n) xs ≡ 1
    → at_index xs i ≡ suc n
    → map (value (update cell (suc n) v)) xs ≡ set (map (value cell) xs) i v
map-update_held cell n v [] i l h e = absurd (omega arith)
map-update_held cell n v (x ∷ xs) zero l h e =
    let same : (suc n == suc n) ≡ true = ground arith in
    let rest : count (suc n) xs ≡ 0 = ground (arith, h, e) in
    ap₂ ◌∷◌ (rw (e, same) refl) (map-update_unheld cell (suc n) v xs rest)
map-update_held cell n v (x ∷ xs) (suc i) l h e =
    let l' : i < length xs = omega (arith, l) in
    let other : (x == suc n) ≡ false = ground (arith, h, e, count-set (suc n) xs i 0 l') in
    let rest : count (suc n) xs ≡ 1 = ground (arith, h, other) in
    ap₂ ◌∷◌ (value-update cell (suc n) x v other) (map-update_held cell n v xs i l' rest e)

pub value-updated :
    {C : Type 0} (cell : ℕ → Option C) (p : ℕ) (v : Option C)
    → 0 < p
    → value (update cell p v) p ≡ v
value-updated cell zero v h = absurd (omega arith)
value-updated cell (suc n) v h = let same : (suc n == suc n) ≡ true = ground arith in rw same refl

-- The block of a new object shows in that object alone.
pub allocate-view :
    {C W : Type 0} (c : Option C) (w : W) (s : State C W)
    → IsOwned s
    → view (allocate c w s) ≡ (c ∷ map (value s.store.cell) s.objects, w)
unfolding allocate
allocate-view none w s o = refl
allocate-view (some c) w s o =
    let next = s.store.next in
    let unheld : count next s.objects ≡ 0 = ground (arith, o.started, o.held next, o.spent next) in
    ap (λ vs. (vs, w))
      (ap₂ ◌∷◌ (value-updated s.store.cell next (some c) o.started)
        (map-update_unheld s.store.cell next (some c) s.objects unheld))
