-- ===== src/Cpp/Owner/Run.antt =====
-- Programs on the objects of a class, as steps between states; `none` is the use of a block that is not
-- there.
use fossil_network.Base.{
  ℕ, suc, ◌≡◌, ◌<◌, refl, ap, sym, List, [], ◌∷◌, arith, Option, none, some, Option-cases, inl, inr,
  length, get_or, subst,
}
use fossil_network.Cpp.Owner.{
  Class, State, start, allocate, construct, move_construct, move_assign, destruct, call, unwind,
  end_scope,
}
use fossil_network.Cpp.Owner.Count.{count}
use fossil_network.Cpp.Owner.Safe.{
  Owned, IsOwned, present, start-IsOwned, allocate-IsOwned, move_construct-IsOwned,
  move_assign-IsOwned, destruct-IsOwned, call-IsOwned, release-left,
}

no_block {ℓ} : {C : Type ℓ} (o : Option C) → 0 ≡ present o → o ≡ none
no_block none h = refl
no_block (some c) h = absurd (omega arith)

-- The state that a method call leaves.
abbrev pub behind {ℓ κ} : {A : Type ℓ} {B : Type κ} → Option (A × B) → Option B
behind none = none
behind (some (a, b)) = some b

module _ {C W A K R : Type 0} (class : Class C W A K R) where
  pub construct-alive :
      (a : A) (s : State C W) → length (construct class a s).objects ≡ suc (length s.objects)
  unfolding construct allocate
  construct-alive a s = elim (Option-cases (class.create a s.world).0) [
    | inl e ↦ rw e refl
    | inr (c, e) ↦ rw e refl
  ]

  -- One step of a program; it names only objects that are alive.
  pub data Step (s : State C W) : Option (State C W) → Type 0 where
    constructs : (a : A) → Step s (some (construct class a s))
    moves : (i : ℕ) → i < length s.objects → Step s (some (move_construct i s))
    assigns :
        (i j : ℕ) → i < length s.objects → j < length s.objects → Step s (move_assign class i j s)
    destructs : (i : ℕ) → i < length s.objects → Step s (destruct class i s)
    calls : (k : K) (i : ℕ) → i < length s.objects → Step s (behind (call class k i s))

  pub data Reaches (s : State C W) : Option (State C W) → Type 0 where
    here : Reaches s (some s)
    step : {t : State C W} {r : Option (State C W)} → Reaches s (some t) → Step t r → Reaches s r

  abbrev pub IsSafe : Option (State C W) → Type 0
  IsSafe r = (t : State C W) × (r ≡ some t) × IsOwned t

  pub Step-IsSafe : {s : State C W} {r : Option (State C W)} → Step s r → IsOwned s → IsSafe r
  unfolding construct
  Step-IsSafe {s} (constructs a) o = (construct class a s, refl, allocate-IsOwned _ _ s o)
  Step-IsSafe {s} (moves i h) o = (move_construct i s, refl, move_construct-IsOwned class i s h o)
  Step-IsSafe {s} (assigns i j h g) o = move_assign-IsOwned class i j s h g o
  Step-IsSafe {s} (destructs i h) o = destruct-IsOwned class i s h o
  Step-IsSafe {s} (calls k i h) o =
      let (r, t, e, o') = call-IsOwned class k i s h o in (t, ap behind e, o')

  pub IsOwned-state : {t : State C W} → IsSafe (some t) → IsOwned t
  IsOwned-state {t} (t', e, o) = subst IsOwned (sym (ap (λ r. get_or r t) e)) o

  -- Whatever a program does with objects of a class like Client and Server, from a state in which
  -- each block is owned by one object: constructing, moving, move-assigning (also to itself),
  -- destroying and calling methods, no step uses a block that is not there or frees one twice, and
  -- in every state that it reaches each block is owned by exactly one object.
  pub Reaches-IsSafe : {s : State C W} {r : Option (State C W)} → IsOwned s → Reaches s r → IsSafe r
  Reaches-IsSafe {s} o here = (s, refl, o)
  Reaches-IsSafe {s} o (step r st) = Step-IsSafe st (IsOwned-state (Reaches-IsSafe o r))

  -- What is left when every object is gone.
  pub record Empty (s : State C W) : Type 0 where
    pub objects : s.objects ≡ []
    pub cells : (p : ℕ) → 0 < p → s.store.cell p ≡ none
    pub once : (p : ℕ) → 0 < p → p < s.store.next → count p s.store.freed ≡ 1

  unwind-Empty :
      (ps : List ℕ) (s : State C W)
      → Owned ps s.store
      → (t : State C W) × (unwind class ps s ≡ some t) × Empty t
  unfolding unwind
  unwind-Empty [] s o = (
    record s { objects = [] },
    refl,
    record {
      objects = refl;
      cells = λ p h. no_block (s.store.cell p) (o.held p h);
      once = λ p h l. ground (arith, o.held p h, o.spent p h);
    },
  )
  unwind-Empty (p ∷ ps) s o =
      let (s', e, o') = release-left class p ps s o in
      let (t, u, empty) = unwind-Empty ps s' o' in (t, rw e u, empty)

  -- From every state that a program reaches from none of the objects, the end of the scope
  -- destroys them without a fault, and then no object and no block is left, and each address that
  -- was given out was freed exactly once.
  pub end_scope-Empty :
      {t : State C W} (w : W)
      → Reaches (start w) (some t)
      → (u : State C W) × (end_scope class t ≡ some u) × Empty u
  unfolding end_scope
  end_scope-Empty {t} w r =
      unwind-Empty t.objects t (IsOwned-state (Reaches-IsSafe (start-IsOwned w) r))
