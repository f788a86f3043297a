-- ===== src/Cpp/Owner/Settled.antt =====
-- The end of a scope, and the accounts of the objects that it destroys.
use fossil_network.Base.{
  ℕ, ◌≡◌, refl, ◌∙◌, ap, ap₂, sym, subst, List, [], ◌∷◌, arith, Option, some, map, get_or,
}
use fossil_network.Cpp.Owner.{Class, State, start, unwind, end_scope}
use fossil_network.Cpp.Owner.Balance.{
  Accounts, Balanced, Reaches-Balanced, dispose-Balanced, total, total-cons,
}
use fossil_network.Cpp.Owner.Run.{Reaches}
use fossil_network.Cpp.Owner.Safe.{Owned, start-IsOwned}
use fossil_network.Cpp.Owner.Values.{dispose, release-view}
use fossil_network.Cpp.Owner.View.{value, view}

module _ {C W A K R : Type 0} (class : Class C W A K R) where
  -- The end of a scope on values
  abbrev pub end_values : List (Option C) → W → W
  end_values [] w = w
  end_values (v ∷ vs) w = end_values vs (dispose class v w)

  pub unwind-Shows :
      (ps : List ℕ) (s : State C W)
      → Owned ps s.store
      → (t : State C W) × (unwind class ps s ≡ some t)
        × (t.world ≡ end_values (map (value s.store.cell) ps) s.world)
  unfolding unwind
  unwind-Shows [] s o = (record s { objects = [] }, refl, refl)
  unwind-Shows (p ∷ ps) s o =
      let (s', e, o', kept, world) = release-view class p ps s o in
      let (t, u, shown) = unwind-Shows ps s' o' in (t, rw e u, shown ∙ ap₂ end_values kept world)

  module _ (accounts : Accounts class) where
    end_values-Settled :
        (vs : List (Option C)) (w : W)
        → Balanced class accounts (vs, w)
        → accounts.closed (end_values vs w) ≡ accounts.opened (end_values vs w)
    end_values-Settled [] w b = omega (arith, b)
    end_values-Settled (v ∷ vs) w b = end_values-Settled vs (dispose class v w) (
        dispose-Balanced class accounts v (total accounts.held vs) w
          (omega (arith, b, total-cons accounts.held v vs)))

    -- A program that starts with the accounts at 0 ends its scope with everything closed.
    pub end_scope-Settled :
        {t : State C W} (w : W)
        → accounts.closed w ≡ accounts.opened w
        → Reaches class (start w) (some t)
        → (u : State C W) × (end_scope class t ≡ some u)
          × (accounts.closed u.world ≡ accounts.opened u.world)
    unfolding end_scope
    end_scope-Settled {t} w z run =
        let (t', e, o, b) =
          Reaches-Balanced class accounts (start-IsOwned w) (omega (arith, z)) run in
        let same : t' ≡ t = sym (ap (λ x. get_or x t) e) in
        let (u, ended, world) =
          unwind-Shows t.objects t (subst (λ x. Owned x.objects x.store) same o) in
        (
          u,
          ended,
          rw world (
              end_values-Settled (map (value t.store.cell) t.objects) t.world
                (subst (λ x. Balanced class accounts (view x)) same b)),
        )
