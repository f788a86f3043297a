-- ===== src/Cpp/Owner.antt =====
-- What the classes Client and Server of code/logic/fossil/network/client.h and server.h share: an
-- object holds one pointer to a C struct, may be moved but not copied, and destroys the struct. The
-- structs lie in a store of blocks; a call through a pointer to no block, and a second free of one,
-- are `none`, and an address is never given out twice. The objects that are alive are the list of
-- their pointers, the latest first; 0 is NULL.
pub mod Count
pub mod Safe
pub mod Run
pub mod View
pub mod Values
pub mod Balance
pub mod Settled
use fossil_network.Base.{
  ℕ, zero, suc, ◌+◌, Bool, true, false, List, [], ◌∷◌, Option, none, some, ◌==◌, ltb, if◌then◌else◌,
  ◌>>=◌, at_index, set, get_or,
}

-- The C calls of a class: its constructor's, its destructor's, and those of its methods, with the
-- arguments `A`, the calls `K` and their results `R`. NULL is `none`.
pub record Class (C W A K R : Type 0) : Type 0 where
  pub create : A → W → Option C × W
  pub destroy : Option C → W → W
  pub method : K → Option C → W → (R × Option C) × W

-- `next` is the address that the next allocation gives; `freed` is every address handed to free().
pub record Store (C : Type 0) : Type 0 where
  pub next : ℕ
  pub cell : ℕ → Option C
  pub freed : List ℕ

pub record State (C W : Type 0) : Type 0 where
  pub store : Store C
  pub objects : List ℕ
  pub world : W

abbrev pub update {ℓ} : {A : Type ℓ} → (ℕ → A) → ℕ → A → ℕ → A
update f p v q = if q == p then v else f q

abbrev pub no_cell : {C : Type 0} → ℕ → Option C
no_cell p = none

abbrev pub start : {C W : Type 0} → W → State C W
start w = record {
  store = record { next = 1; cell = no_cell; freed = [] };
  objects = [];
  world = w;
}

abbrev pub remove_at : {A : Type 0} → List A → ℕ → List A
remove_at [] i = []
remove_at (x ∷ xs) zero = xs
remove_at (x ∷ xs) (suc i) = x ∷ remove_at xs i

abbrev pub is_none {ℓ} : {A : Type ℓ} → Option A → Bool
is_none none = true
is_none (some a) = false

unfoldable pub allocate : {C W : Type 0} → Option C → W → State C W → State C W
allocate none w s = record s { objects = 0 ∷ s.objects; world = w }
allocate (some c) w s = record s {
  store = record s.store {
    next = suc s.store.next;
    cell = update s.store.cell s.store.next (some c);
  };
  objects = s.store.next ∷ s.objects;
  world = w;
}

-- The move constructor: a new object takes the pointer of another, which is left with NULL.
unfoldable pub move_construct : {C W : Type 0} → ℕ → State C W → State C W
move_construct i s = record s { objects = at_index s.objects i ∷ set s.objects i 0 }

module _ {C W A K R : Type 0} (class : Class C W A K R) where
  unfoldable pub construct : A → State C W → State C W
  unfolding allocate
  construct a s = let (c, w) = class.create a s.world in allocate c w s

  unfoldable pub free_block : ℕ → Option C → State C W → Option (State C W)
  free_block p none s = none
  free_block p (some c) s = some (record s {
    store = record s.store { cell = update s.store.cell p none; freed = p ∷ s.store.freed };
    world = class.destroy (some c) s.world;
  })

  -- `if (handle_) destroy(handle_)`
  unfoldable pub release : ℕ → State C W → Option (State C W)
  unfolding free_block
  release p s = if p == 0 then some s else free_block p (s.store.cell p) s

  -- `*this = std::move(other)`, for the objects `i` and `j`
  unfoldable pub move_assign : ℕ → ℕ → State C W → Option (State C W)
  move_assign i j s = if i == j then some s else do
    s' ← release (at_index s.objects i) s
    some (record s' { objects = set (set s.objects i (at_index s.objects j)) j 0 })

  unfoldable pub destruct : ℕ → State C W → Option (State C W)
  destruct i s = do
    s' ← release (at_index s.objects i) s
    some (record s' { objects = remove_at s.objects i })

  -- What a method does through a pointer that is not NULL.
  unfoldable pub through : K → ℕ → Option C → State C W → Option (R × State C W)
  through k p none s = none
  through k p (some c) s =
      let ((r, c'), w) = class.method k (some c) s.world in
      some (
        r,
        record s {
          store = record s.store { cell = update s.store.cell p (some (get_or c' c)) };
          world = w;
        },
      )

  -- A method of the object `i`; with NULL the C call gets NULL.
  unfoldable pub call : K → ℕ → State C W → Option (R × State C W)
  unfolding through
  call k i s =
      let p = at_index s.objects i in
      let ((r, c), w) = class.method k none s.world in
      if p == 0 then some (r, record s { world = w }) else through k p (s.store.cell p) s

  -- The end of a scope destroys its objects, the latest first.
  unfoldable pub unwind : List ℕ → State C W → Option (State C W)
  unwind [] s = some (record s { objects = [] })
  unwind (p ∷ ps) s = do s' ← release p s; unwind ps s'

  unfoldable pub end_scope : State C W → Option (State C W)
  unfolding unwind
  end_scope s = unwind s.objects s
