-- ===== src/Cpp/Owner/Balance.antt =====
-- What the objects of a class hold, counted against what was opened and closed on their behalf: the
-- accounts that a class has to keep, and programs on its objects.
use fossil_network.Base.{
  ℕ, zero, suc, ◌+◌, ◌≡◌, ◌≢◌, ◌<◌, refl, ap, sym, ◌∙◌, subst, List, [], ◌∷◌, arith, Bool-cases,
  inl, inr, Option, none, some, ◌==◌, set, get_or, length, length-set, length-map,
}
use fossil_network.Cpp.Owner.{Class, State, remove_at}
use fossil_network.Cpp.Owner.Run.{
  Step, constructs, moves, assigns, destructs, calls, Reaches, here, step, Step-IsSafe,
}
use fossil_network.Cpp.Owner.Safe.{IsOwned}
use fossil_network.Cpp.Owner.Values.{dispose, method_value, step_values, Step-Shows}
use fossil_network.Cpp.Owner.View.{value, value_at, view}

abbrev pub total : {C : Type 0} → (C → ℕ) → List (Option C) → ℕ
total held [] = 0
total held (none ∷ vs) = total held vs
total held (some c ∷ vs) = held c + total held vs

abbrev pub held_by : {C : Type 0} → (C → ℕ) → Option C → ℕ
held_by held none = 0
held_by held (some c) = held c

-- What a struct holds, what was opened and what was closed, in agreement behind every call.
pub record Accounts {C W A K R : Type 0} (class : Class C W A K R) : Type 0 where
  pub held : C → ℕ
  pub opened : W → ℕ
  pub closed : W → ℕ
  pub created :
      (a : A) (w : W) (n : ℕ)
      → n + closed w ≡ opened w
      → held_by held (class.create a w).0 + n + closed (class.create a w).1
        ≡ opened (class.create a w).1
  pub destroyed :
      (c : C) (w : W) (n : ℕ)
      → held c + n + closed w ≡ opened w
      → n + closed (class.destroy (some c) w) ≡ opened (class.destroy (some c) w)
  pub called :
      (k : K) (c : C) (w : W) (n : ℕ)
      → held c + n + closed w ≡ opened w
      → held (get_or (class.method k (some c) w).0.1 c) + n + closed (class.method k (some c) w).1
        ≡ opened (class.method k (some c) w).1
  pub refused :
      (k : K) (w : W) (n : ℕ)
      → n + closed w ≡ opened w
      → n + closed (class.method k none w).1 ≡ opened (class.method k none w).1

pub total-cons :
    {C : Type 0} (held : C → ℕ) (v : Option C) (vs : List (Option C))
    → total held (v ∷ vs) ≡ held_by held v + total held vs
total-cons held none vs = omega arith
total-cons held (some c) vs = refl

-- Where an object is replaced, its share is exchanged.
total-set :
    {C : Type 0} (held : C → ℕ) (vs : List (Option C)) (i : ℕ) (v : Option C)
    → i < length vs
    → total held (set vs i v) + held_by held (value_at vs i) ≡ total held vs + held_by held v
total-set held [] i v h = absurd (omega arith)
total-set held (x ∷ vs) zero v h = omega (arith, total-cons held x vs, total-cons held v vs)
total-set held (x ∷ vs) (suc i) v h =
    let rest = total-set held vs i v (omega arith) in
    omega (arith, total-cons held x vs, total-cons held x (set vs i v), rest)

total-remove_at :
    {C : Type 0} (held : C → ℕ) (vs : List (Option C)) (i : ℕ)
    → total held (remove_at vs i) + held_by held (value_at vs i) ≡ total held vs
total-remove_at held [] i = refl
total-remove_at held (x ∷ vs) zero = omega (arith, total-cons held x vs)
total-remove_at held (x ∷ vs) (suc i) =
    omega
      (arith, total-cons held x vs, total-cons held x (remove_at vs i), total-remove_at held vs i)

value_at-set :
    {C : Type 0} (vs : List (Option C)) (i j : ℕ) (v : Option C)
    → i ≢ j
    → value_at (set vs i v) j ≡ value_at vs j
value_at-set [] i j v h = refl
value_at-set (x ∷ vs) zero zero v h = absurd (h refl)
value_at-set (x ∷ vs) zero (suc j) v h = refl
value_at-set (x ∷ vs) (suc i) zero v h = refl
value_at-set (x ∷ vs) (suc i) (suc j) v h = value_at-set vs i j v (λ e. h (ap suc e))

module _ {C W A K R : Type 0} (class : Class C W A K R) (accounts : Accounts class) where
  abbrev pub Balanced : List (Option C) × W → Type 0
  Balanced (vs, w) = total accounts.held vs + accounts.closed w ≡ accounts.opened w

  pub dispose-Balanced :
      (v : Option C) (n : ℕ) (w : W)
      → held_by accounts.held v + n + accounts.closed w ≡ accounts.opened w
      → n + accounts.closed (dispose class v w) ≡ accounts.opened (dispose class v w)
  dispose-Balanced none n w h = omega (arith, h)
  dispose-Balanced (some c) n w h = accounts.destroyed c w n h

  method-Balanced :
      (k : K) (v : Option C) (n : ℕ) (w : W)
      → held_by accounts.held v + n + accounts.closed w ≡ accounts.opened w
      → held_by accounts.held (method_value class k v w).0
          + n
          + accounts.closed (method_value class k v w).1
        ≡ accounts.opened (method_value class k v w).1
  method-Balanced k none n w h = omega (arith, accounts.refused k w n (omega (arith, h)))
  method-Balanced k (some c) n w h = accounts.called k c w n h

  Step-Balanced :
      {s : State C W} {r : Option (State C W)} (st : Step class s r) (vs : List (Option C)) (w : W)
      → length vs ≡ length s.objects
      → Balanced (vs, w)
      → Balanced (step_values class st (vs, w))
  unfolding step_values
  Step-Balanced (constructs a) vs w l b = omega (
    arith,
    accounts.created a w (total accounts.held vs) b,
    total-cons accounts.held (class.create a w).0 vs,
  )
  Step-Balanced (moves i h) vs w l b = omega (
    arith,
    total-cons accounts.held (value_at vs i) (set vs i none),
    total-set accounts.held vs i none (omega arith),
  )
  Step-Balanced (assigns i j h g) vs w l b = elim (Bool-cases (i == j)) [
    | inl e ↦ rw e b
    | inr e ↦
        let v = value_at vs j in
        let first = total-set accounts.held vs i v (omega arith) in
        let second =
          total-set accounts.held (set vs i v) j none (omega (arith, length-set vs i v)) in
        let same = value_at-set vs i j v (ground arith) in
        rw e (
          dispose-Balanced (value_at vs i) (total accounts.held (set (set vs i v) j none)) w
            (omega (arith, first, second, ap (held_by accounts.held) same)))
  ]
  Step-Balanced (destructs i h) vs w l b =
      dispose-Balanced (value_at vs i) (total accounts.held (remove_at vs i)) w
        (omega (arith, total-remove_at accounts.held vs i))
  Step-Balanced (calls k i h) vs w l b =
      let n = total accounts.held (remove_at vs i) in
      let (v', w') = method_value class k (value_at vs i) w in
      let parts = total-remove_at accounts.held vs i in
      omega (
        arith,
        method-Balanced k (value_at vs i) n w (omega (arith, parts)),
        total-set accounts.held vs i v' (omega (arith, l, h)),
        parts,
      )

  -- In every state that a program reaches, what its objects hold and what was closed is what was opened.
  pub Reaches-Balanced :
      {s : State C W} {r : Option (State C W)}
      → IsOwned s
      → Balanced (view s)
      → Reaches class s r
      → (t : State C W) × (r ≡ some t) × IsOwned t × Balanced (view t)
  Reaches-Balanced {s} o b here = (s, refl, o, b)
  Reaches-Balanced {s} {r} o b (step {t} run st) =
      let (t', e, o', b') = Reaches-Balanced o b run in
      let same : t' ≡ t = sym (ap (λ x. get_or x t) e) in
      let ot = subst IsOwned same o' in
      let bt = subst (λ x. Balanced (view x)) same b' in
      let (u, f, g) = Step-Shows class st ot in
      let (u', f', ou) = Step-IsSafe class st ot in
      (
        u,
        f,
        subst IsOwned (ap (λ x. get_or x u) (sym f' ∙ f)) ou,
        subst Balanced (sym g)
            (Step-Balanced st (view t).0 t.world (length-map (value t.store.cell) t.objects) bt),
      )
