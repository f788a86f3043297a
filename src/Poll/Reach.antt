-- ===== src/Poll/Reach.antt =====
-- Sequences of calls on a poll set, against the same sequence on the list of its sockets.
use fossil_network.Base.{
  ℕ, ◌≡◌, refl, ap, ◌∙◌, List, [], ◌∷◌, ◌++◌, arith, inl, inr, if◌then◌else◌, length, ltb, lt→ltb,
  length-take, le→ltb-false, ℤ, true, false,
}
use fossil_network.Poll.{PollSet, add, remove, clear}
use fossil_network.Poll.Sets.{view, IsValid, add_refines, remove_refines}
use fossil_network.Poll.Shift.{erase, member, erase-append, erase-none}

pub data Call : Type 0 where
  adds : ℕ → Call
  removes : ℕ → Call
  clears : Call

unfoldable pub call : ℕ → Call → PollSet → PollSet
call max (adds sock) p = (add p max sock).1
call max (removes sock) p = (remove p sock).1
call max clears p = clear p

unfoldable pub run : ℕ → List Call → PollSet → PollSet
run max [] p = p
run max (c ∷ cs) p = run max cs (call max c p)

-- What a call is to do to the list of sockets.
unfoldable pub call_list : ℕ → Call → List ℕ → List ℕ
call_list max (adds sock) xs = if ltb (length xs) max then xs ++ sock ∷ [] else xs
call_list max (removes sock) xs = erase sock xs
call_list max clears xs = []

unfoldable pub run_list : ℕ → List Call → List ℕ → List ℕ
run_list max [] xs = xs
run_list max (c ∷ cs) xs = run_list max cs (call_list max c xs)

pub length-view : (max : ℕ) (p : PollSet) → IsValid max p → length (view p) ≡ p.count
length-view max p v = omega (arith, length-take {0} p.count p.sockets, v.bounded, v.allocated)

pub call_refines :
    (max : ℕ) (c : Call) (p : PollSet)
    → IsValid max p
    → IsValid max (call max c p) × (view (call max c p) ≡ call_list max c (view p))
unfolding call call_list clear
call_refines max (adds sock) p v = elim (add_refines max p sock v) [
  | inl (room, _, holds, valid) ↦
      let less : ltb (length (view p)) max ≡ true =
        lt→ltb _ _ (omega (arith, length-view max p v)) in
      (valid, rw less holds)
  | inr (full, same) ↦
      let less : ltb (length (view p)) max ≡ false =
        le→ltb-false _ _ (omega (arith, length-view max p v)) in
      (rw (same, call) v, rw (less, same, call) refl)
]
call_refines max (removes sock) p v =
    let (_, holds, valid) = remove_refines max p sock v in (valid, holds)
call_refines max clears p v =
    (record { bounded = omega arith; allocated = v.allocated; machine = v.machine }, refl)

-- A sequence of additions, removals and clears on a well-formed poll set does to the list of its
-- sockets what the same sequence does on lists, and the set stays well formed.
pub run_refines :
    (max : ℕ) (cs : List Call) (p : PollSet)
    → IsValid max p
    → IsValid max (run max cs p) × (view (run max cs p) ≡ run_list max cs (view p))
unfolding run run_list
run_refines max [] p v = (v, refl)
run_refines max (c ∷ cs) p v =
    let (valid, holds) = call_refines max c p v in
    let (valid', holds') = run_refines max cs (call max c p) valid in
    (valid', holds' ∙ ap (run_list max cs) holds)

-- Adding a socket that the set does not hold and removing it again leaves the sockets of the set as
-- they were.
pub add-remove :
    (max : ℕ) (p : PollSet) (sock : ℕ)
    → IsValid max p
    → member sock (view p) ≡ false
    → view (remove (add p max sock).1 sock).1 ≡ view p
add-remove max p sock v h = elim (add_refines max p sock v) [
  | inl (room, _, holds, valid) ↦
      (remove_refines max (add p max sock).1 sock valid).1
      ∙ ap (erase sock) holds
      ∙ erase-append sock (view p) h
  | inr (full, same) ↦
      ap (λ (r : ℤ × PollSet). view (remove r.1 sock).1) same
      ∙ (remove_refines max p sock v).1
      ∙ erase-none sock (view p) h
]
