-- ===== src/Cpp/Owner/Safe.antt =====
-- The blocks of a class's objects, and which object owns each: the operations of Cpp/Owner one by one.
use fossil_network.Base.{
  ℕ, zero, suc, ◌+◌, ◌≡◌, ◌≢◌, ◌<◌, ◌⊎◌, refl, ap, sym, ◌∙◌, List, ◌∷◌, arith, Bool-cases,
  Option-cases, inl, inr, Option, none, some, ◌==◌, ltb, if◌then◌else◌, length, set, at_index,
  get_or, nonzero, subst,
}
use fossil_network.Cpp.Owner.{
  Class, Store, State, start, update, remove_at, allocate, move_construct, release, free_block,
  move_assign, destruct, through, call,
}
use fossil_network.Cpp.Owner.Count.{count, count-set, count-remove_at, count-move}

abbrev pub present {ℓ} : {C : Type ℓ} → Option C → ℕ
present none = 0
present (some c) = 1

-- The pointers in the list are those of the blocks, each of them once, and every address that was given
-- out is that of a block or was freed once.
pub record Owned {C : Type 0} (objects : List ℕ) (store : Store C) : Type 0 where
  pub held : (p : ℕ) → 0 < p → count p objects ≡ present (store.cell p)
  pub spent :
      (p : ℕ)
      → 0 < p
      → present (store.cell p) + count p store.freed ≡ (if ltb p store.next then 1 else 0)
  pub started : 0 < store.next

abbrev pub IsOwned : {C W : Type 0} → State C W → Type 0
IsOwned s = Owned s.objects s.store

pub start-IsOwned : {C W : Type 0} (w : W) → IsOwned (start {C = C} {W = W} w)
start-IsOwned w = record { held = λ p h. refl; spent = λ p h. ground arith; started = omega arith }

-- Only how often each pointer stands in the list matters.
pub Owned-count :
    {C : Type 0} (xs ys : List ℕ) (store : Store C)
    → ((q : ℕ) → 0 < q → count q xs ≡ count q ys)
    → Owned xs store
    → Owned ys store
Owned-count xs ys store e o = record {
  held = λ q h. sym (e q h) ∙ o.held q h;
  spent = o.spent;
  started = o.started;
}

present-update :
    {C : Type 0} (f : ℕ → Option C) (p q : ℕ) (v : Option C)
    → present (update f p v q) ≡ (if q == p then present v else present (f q))
present-update f p q v = ground arith

pub allocate-IsOwned :
    {C W : Type 0} (c : Option C) (w : W) (s : State C W) → IsOwned s → IsOwned (allocate c w s)
unfolding allocate
allocate-IsOwned none w s o = Owned-count s.objects (0 ∷ s.objects) s.store (λ q h. ground arith) o
allocate-IsOwned (some c) w s o = record {
  held = λ q h.
      ground (arith, present-update s.store.cell s.store.next q (some c), o.held q h, o.spent q h);
  spent = λ q h.
      ground (arith, present-update s.store.cell s.store.next q (some c), o.held q h, o.spent q h);
  started = omega arith;
}

-- The state behind the free of a block.
abbrev pub freed_at : {C W A K R : Type 0} → Class C W A K R → ℕ → C → State C W → State C W
freed_at class p c s = record s {
  store = record s.store { cell = update s.store.cell p none; freed = p ∷ s.store.freed };
  world = class.destroy (some c) s.world;
}

-- The state behind a method call through a pointer.
abbrev pub called_at : {C W A K R : Type 0} → Class C W A K R → K → ℕ → C → State C W → State C W
called_at class k p c s = record s {
  store = record s.store {
    cell = update s.store.cell p (some (get_or (class.method k (some c) s.world).0.1 c));
  };
  world = (class.method k (some c) s.world).1;
}

module _ {C W A K R : Type 0} (class : Class C W A K R) where
  pub freed_at-Owned :
      (n : ℕ) (ps : List ℕ) (s : State C W) (c : C)
      → s.store.cell (suc n) ≡ some c
      → Owned (suc n ∷ ps) s.store
      → Owned ps (freed_at class (suc n) c s).store
  freed_at-Owned n ps s c e o = record {
    held = λ q h. ground (
      arith,
      present-update s.store.cell (suc n) q none,
      o.held q h,
      o.held (suc n) (omega arith),
      ap present e,
    );
    spent = λ q h.
        ground (
          arith,
          present-update s.store.cell (suc n) q none,
          o.held q h,
          o.spent q h,
          ap present e,
        );
    started = o.started;
  }

  -- The pointer at the head of the objects is NULL or that of a block, which is freed.
  pub release-Owned :
      (p : ℕ) (ps : List ℕ) (s : State C W)
      → Owned (p ∷ ps) s.store
      → ((p ≡ 0) × (release class p s ≡ some s))
        ⊎ ((n : ℕ) × (c : C) × (p ≡ suc n)
            × (s.store.cell (suc n) ≡ some c)
            × (release class p s ≡ some (freed_at class (suc n) c s)))
  unfolding release free_block
  release-Owned zero ps s o = inl (refl, refl)
  release-Owned (suc n) ps s o = elim (Option-cases (s.store.cell (suc n))) [
    | inl e ↦ absurd (ground (arith, o.held (suc n) (omega arith), ap present e))
    | inr (c, e) ↦ inr (n, c, refl, e, rw (nonzero n, e) refl)
  ]

  -- Releasing a pointer leaves its block to no object.
  pub release-left :
      (p : ℕ) (ps : List ℕ) (s : State C W)
      → Owned (p ∷ ps) s.store
      → (s' : State C W) × (release class p s ≡ some s') × Owned ps s'.store
  release-left p ps s o = elim (release-Owned p ps s o) [
    | inl (z, r) ↦ (s, r, Owned-count (p ∷ ps) ps s.store (λ q h. ground (arith, z)) o)
    | inr (n, c, z, e, r) ↦ (
      freed_at class (suc n) c s,
      r,
      freed_at-Owned n ps s c e (subst (λ k. Owned (k ∷ ps) s.store) z o),
    )
  ]

  pub move_assign-IsOwned :
      (i j : ℕ) (s : State C W)
      → i < length s.objects
      → j < length s.objects
      → IsOwned s
      → (t : State C W) × (move_assign class i j s ≡ some t) × IsOwned t
  unfolding move_assign
  move_assign-IsOwned i j s hi hj o = elim (Bool-cases (i == j)) [
    | inl e ↦ (s, rw e refl, o)
    | inr e ↦
        let n : i ≢ j = ground arith in
        let taken = set (set s.objects i (at_index s.objects j)) j 0 in
        let (s', r, o') = release-left (at_index s.objects i) taken s (
          Owned-count s.objects (at_index s.objects i ∷ taken) s.store
            (λ q h. ground (arith, count-move q s.objects i j n hi hj)) o) in
        (record s' { objects = taken }, rw (e, r) refl, o')
  ]

  pub destruct-IsOwned :
      (i : ℕ) (s : State C W)
      → i < length s.objects
      → IsOwned s
      → (t : State C W) × (destruct class i s ≡ some t) × IsOwned t
  unfolding destruct
  destruct-IsOwned i s h o =
      let (s', r, o') =
        release-left (at_index s.objects i) (remove_at s.objects i) s
          (Owned-count s.objects _ s.store (λ q _. sym (count-remove_at q s.objects i h)) o) in
      (record s' { objects = remove_at s.objects i }, rw r refl, o')

  pub move_construct-IsOwned :
      (i : ℕ) (s : State C W) → i < length s.objects → IsOwned s → IsOwned (move_construct i s)
  unfolding move_construct
  move_construct-IsOwned i s h o =
      Owned-count s.objects _ s.store (λ q p. ground (arith, count-set q s.objects i 0 h)) o

  -- A pointer that an object holds is that of a block.
  pub object-present :
      (i : ℕ) (s : State C W) (n : ℕ)
      → i < length s.objects
      → IsOwned s
      → at_index s.objects i ≡ suc n
      → (c : C) × (s.store.cell (suc n) ≡ some c)
  object-present i s n h o e = elim (Option-cases (s.store.cell (suc n))) [
    | inl none_there ↦ absurd (
        ground (
          arith,
          o.held (suc n) (omega arith),
          ap present none_there,
          count-set (suc n) s.objects i 0 h,
          e,
        ))
    | inr there ↦ there
  ]

  pub call-IsOwned :
      (k : K) (i : ℕ) (s : State C W)
      → i < length s.objects
      → IsOwned s
      → (r : R) × (t : State C W) × (call class k i s ≡ some (r, t)) × IsOwned t
  unfolding call through
  call-IsOwned k i s h o = go (at_index s.objects i) refl
    where
      go :
          (p : ℕ)
          → at_index s.objects i ≡ p
          → (r : R) × (t : State C W) × (call class k i s ≡ some (r, t)) × IsOwned t
      go zero e = (
        (class.method k none s.world).0.0,
        record s { world = (class.method k none s.world).1 },
        rw e refl,
        o,
      )
      go (suc n) e =
          let (c, there) = object-present i s n h o e in
          (
            (class.method k (some c) s.world).0.0,
            called_at class k (suc n) c s,
            rw (e, nonzero n, there) refl,
            record {
              held = λ q p. ground (
                arith,
                present-update s.store.cell (suc n) q
                    (some (get_or (class.method k (some c) s.world).0.1 c)),
                o.held q p,
                ap present there,
              );
              spent = λ q p. ground (
                arith,
                present-update s.store.cell (suc n) q
                    (some (get_or (class.method k (some c) s.world).0.1 c)),
                o.spent q p,
                ap present there,
              );
              started = o.started;
            },
          )
