-- ===== src/Cpp/Owner/Values.antt =====
-- Programs on the values that a class's objects show, against the programs on pointers and blocks.
use fossil_network.Base.{
  ℕ, zero, suc, ◌≡◌, ◌≢◌, ◌<◌, refl, ap, sym, ◌∙◌, subst, List, ◌∷◌, arith, Bool-cases, inl, inr,
  Option, none, some, ◌==◌, if◌then◌else◌, length, set, map, at_index, get_or, nonzero,
}
use fossil_network.Cpp.Owner.{
  Class, State, remove_at, allocate, construct, move_construct, release, move_assign, destruct,
  through, call,
}
use fossil_network.Cpp.Owner.Count.{count, count-remove_at, count-move}
use fossil_network.Cpp.Owner.Run.{
  Step, constructs, moves, assigns, destructs, calls, Reaches, here, step, behind, IsOwned-state,
  Reaches-IsSafe,
}
use fossil_network.Cpp.Owner.Safe.{
  Owned, IsOwned, present, Owned-count, object-present, freed_at, called_at, release-Owned,
  freed_at-Owned,
}
use fossil_network.Cpp.Owner.View.{
  value, view, value_at, map-set, map-remove_at, value_at-map, set-unchanged, map-update_unheld,
  map-update_held, allocate-view,
}

module _ {C W A K R : Type 0} (class : Class C W A K R) where
  -- Destroying a value
  abbrev pub dispose : Option C → W → W
  dispose none w = w
  dispose (some c) w = class.destroy (some c) w

  -- A method on a value; an object without one stays so.
  abbrev pub method_value : K → Option C → W → Option C × W
  method_value k none w = (none, (class.method k none w).1)
  method_value k (some c) w =
      let ((r, c'), w') = class.method k (some c) w in (some (get_or c' c), w')

  -- What a step does to the values.
  unfoldable pub step_values :
      {s : State C W} {r : Option (State C W)}
      → Step class s r
      → List (Option C) × W
      → List (Option C) × W
  step_values (constructs a) (vs, w) = let (c, w') = class.create a w in (c ∷ vs, w')
  step_values (moves i h) (vs, w) = (value_at vs i ∷ set vs i none, w)
  step_values (assigns i j h g) (vs, w) =
      if i == j then (vs, w) else (set (set vs i (value_at vs j)) j none, dispose (value_at vs i) w)
  step_values (destructs i h) (vs, w) = (remove_at vs i, dispose (value_at vs i) w)
  step_values (calls k i h) (vs, w) =
      let (c, w') = method_value k (value_at vs i) w in (set vs i c, w')

  unfoldable pub run_values :
      {s : State C W} {r : Option (State C W)}
      → Reaches class s r
      → List (Option C) × W
      → List (Option C) × W
  run_values here v = v
  run_values (step r st) v = step_values st (run_values r v)

  pub release-view :
      (p : ℕ) (ps : List ℕ) (s : State C W)
      → Owned (p ∷ ps) s.store
      → (s' : State C W) × (release class p s ≡ some s')
        × Owned ps s'.store
        × (map (value s'.store.cell) ps ≡ map (value s.store.cell) ps)
        × (s'.world ≡ dispose (value s.store.cell p) s.world)
  release-view p ps s o = elim (release-Owned class p ps s o) [
    | inl (z, r) ↦
        (s, r, Owned-count (p ∷ ps) ps s.store (λ q h. ground (arith, z)) o, refl, rw z refl)
    | inr (n, c, z, e, r) ↦
        let o' = subst (λ k. Owned (k ∷ ps) s.store) z o in
        let left = freed_at-Owned class n ps s c e o' in
        let unheld : count (suc n) ps ≡ 0 =
          ground (arith, o'.held (suc n) (omega arith), ap present e) in
        (
          freed_at class (suc n) c s,
          r,
          left,
          map-update_unheld s.store.cell (suc n) none ps unheld,
          rw (z, e) refl,
        )
  ]

  -- A step gives a state, and the values of its objects are those of the step on values.
  abbrev pub Shows : Option (State C W) → List (Option C) × W → Type 0
  Shows r v = (t : State C W) × (r ≡ some t) × (view t ≡ v)

  construct-Shows :
      (a : A) (s : State C W)
      → IsOwned s
      → Shows (some (construct class a s)) (step_values {s = s} (constructs a) (view s))
  unfolding construct step_values
  construct-Shows a s o =
      let (c, w) = class.create a s.world in (allocate c w s, refl, allocate-view c w s o)

  assign-Shows :
      (i j : ℕ) (s : State C W) (h : i < length s.objects) (g : j < length s.objects)
      → IsOwned s
      → Shows (move_assign class i j s) (step_values {s = s} (assigns i j h g) (view s))
  unfolding move_assign step_values
  assign-Shows i j s h g o = elim (Bool-cases (i == j)) [
    | inl e ↦ (s, rw e refl, rw e refl)
    | inr e ↦
        let n : i ≢ j = ground arith in
        let taken = set (set s.objects i (at_index s.objects j)) j 0 in
        let (s', r, o', kept, world) = release-view (at_index s.objects i) taken s (
          Owned-count s.objects (at_index s.objects i ∷ taken) s.store
            (λ q p. ground (arith, count-move q s.objects i j n h g)) o) in
        (
          record s' { objects = taken },
          rw (e, r) refl,
          rw
              (
                e,
                kept,
                world,
                map-set (value s.store.cell) (set s.objects i (at_index s.objects j)) j 0,
                map-set (value s.store.cell) s.objects i (at_index s.objects j),
                value_at-map s.store.cell s.objects i,
                value_at-map s.store.cell s.objects j,
              )
              refl,
        )
  ]

  destruct-Shows :
      (i : ℕ) (s : State C W) (h : i < length s.objects)
      → IsOwned s
      → Shows (destruct class i s) (step_values {s = s} (destructs i h) (view s))
  unfolding destruct step_values
  destruct-Shows i s h o =
      let (s', r, o', kept, world) =
        release-view (at_index s.objects i) (remove_at s.objects i) s
          (Owned-count s.objects _ s.store (λ q _. sym (count-remove_at q s.objects i h)) o) in
      (
        record s' { objects = remove_at s.objects i },
        rw r refl,
        rw
            (
              kept,
              world,
              map-remove_at (value s.store.cell) s.objects i,
              value_at-map s.store.cell s.objects i,
            )
            refl,
      )

  move-view :
      (i : ℕ) (s : State C W) (h : i < length s.objects)
      → view (move_construct i s) ≡ step_values {s = s} (moves i h) (view s)
  unfolding move_construct step_values
  move-view i s h =
      rw (map-set (value s.store.cell) s.objects i 0, value_at-map s.store.cell s.objects i) refl

  call-Shows :
      (k : K) (i : ℕ) (s : State C W) (h : i < length s.objects)
      → IsOwned s
      → Shows (behind (call class k i s)) (step_values {s = s} (calls k i h) (view s))
  unfolding call through step_values
  call-Shows k i s h o = go (at_index s.objects i) refl
    where
      go :
          (p : ℕ)
          → at_index s.objects i ≡ p
          → Shows (behind (call class k i s)) (step_values {s = s} (calls k i h) (view s))
      go zero e = (
        record s { world = (class.method k none s.world).1 },
        rw e refl,
        rw
            (
              value_at-map s.store.cell s.objects i,
              e,
              set-unchanged (map (value s.store.cell) s.objects) i none
                  (value_at-map s.store.cell s.objects i ∙ ap (value s.store.cell) e),
            )
            refl,
      )
      go (suc n) e =
          let (c, there) = object-present class i s n h o e in
          (
            called_at class k (suc n) c s,
            rw (e, nonzero n, there) refl,
            rw
                (
                  value_at-map s.store.cell s.objects i,
                  e,
                  there,
                  map-update_held s.store.cell n
                      (some (get_or (class.method k (some c) s.world).0.1 c)) s.objects i h
                      (ground (arith, o.held (suc n) (omega arith), ap present there)) e,
                )
                refl,
          )

  pub Step-Shows :
      {s : State C W} {r : Option (State C W)} (st : Step class s r)
      → IsOwned s
      → Shows r (step_values st (view s))
  Step-Shows {s} (constructs a) o = construct-Shows a s o
  Step-Shows {s} (moves i h) o = (move_construct i s, refl, move-view i s h)
  Step-Shows {s} (assigns i j h g) o = assign-Shows i j s h g o
  Step-Shows {s} (destructs i h) o = destruct-Shows i s h o
  Step-Shows {s} (calls k i h) o = call-Shows k i s h o

  pub shown : {t : State C W} {v : List (Option C) × W} → Shows (some t) v → view t ≡ v
  shown {t} (t', e, f) = ap (λ r. view (get_or r t)) e ∙ f

  -- A program on the objects of a class that starts with each block owned by one object, run on
  -- pointers and blocks, succeeds and shows in each object what the same program on values gives:
  -- there a move leaves nothing behind, a destructor destroys the value of its object alone, and a
  -- method changes no other object.
  pub Reaches-Shows :
      {s : State C W} {r : Option (State C W)}
      → IsOwned s
      → (run : Reaches class s r) → Shows r (run_values run (view s))
  unfolding run_values
  Reaches-Shows {s} o here = (s, refl, refl)
  Reaches-Shows {s} {r} o (step run st) =
      subst (λ v. Shows r (step_values st v)) (shown (Reaches-Shows o run))
        (Step-Shows st (IsOwned-state class (Reaches-IsSafe class o run)))
