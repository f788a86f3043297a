-- ===== src/Poll/Sets.antt =====
-- The calls on a poll set against lists: the sockets that the set holds are the first `count`
-- elements of the array.
use Prim.Native.Nat.add
use fossil_network.Base.{
  ℕ, zero, suc, ◌+◌, ◌-◌, ◌%◌, ◌^◌, ◌≡◌, ◌≤◌, ◌<◌, ◌⊎◌, refl, sym, ap, ◌∙◌, subst, Bool-cases, inl,
  inr, List, [], ◌∷◌, ◌++◌, arith, ◌==◌, true, false, if◌then◌else◌, length, take, length-append,
  length-set, length-take, leb, ℤ, success, failure, append_assoc,
}
use fossil_network.Poll.{PollSet, shift, add, remove, remove_from}
use fossil_network.Poll.Shift.{
  erase, member, at_index-append, take-shift, length-shift, shift-append, take-behind, take-set,
  length-erase,
}

abbrev pub view : PollSet → List ℕ
view p = take p.count p.sockets

-- The count is within the limit that the caller gives, and the array has that many elements.
pub record IsValid (max : ℕ) (p : PollSet) : Type 0 where
  pub bounded : p.count ≤ max
  pub allocated : max ≤ length p.sockets
  pub machine : max < 2 ^ 32

-- What a removal leaves in the array and the count, and its result, where the sockets in `front`
-- have been passed by and those in `rest` are to be looked at.
pub record Removed (sock : ℕ) (front rest : List ℕ) (size : ℕ) (r : ℤ × PollSet) : Type 0 where
  pub code : r.0 ≡ (if member sock rest then success else failure)
  pub sockets : view r.1 ≡ front ++ erase sock rest
  pub count : r.1.count ≡ length (front ++ erase sock rest)
  pub size_kept : length r.1.sockets ≡ size

member-head : (y sock : ℕ) (ys : List ℕ) → (y == sock) ≡ true → member sock (y ∷ ys) ≡ true
unfolding member
member-head y sock ys e = ground arith

erase-head : (y sock : ℕ) (ys : List ℕ) → (y == sock) ≡ true → erase sock (y ∷ ys) ≡ ys
unfolding erase
erase-head y sock ys e = rw e refl

member-tail :
    (y sock : ℕ) (ys : List ℕ) → (y == sock) ≡ false → member sock (y ∷ ys) ≡ member sock ys
unfolding member
member-tail y sock ys e = rw e refl

erase-tail :
    (y sock : ℕ) (ys : List ℕ) → (y == sock) ≡ false → erase sock (y ∷ ys) ≡ y ∷ erase sock ys
unfolding erase
erase-tail y sock ys e = rw e refl

found-Removed :
    (n : ℕ) (xs : List ℕ) (y : ℕ) (m : List ℕ) (sock : ℕ)
    → n ≤ length m
    → (y == sock) ≡ true
    → Removed sock xs
        (y ∷ take n m)
        (length (xs ++ y ∷ m))
        (success, record { sockets = shift n (length xs) (xs ++ y ∷ m); count = length xs + n })
found-Removed n xs y m sock h e = record {
  code = rw (member-head y sock (take n m) e) refl;
  sockets =
      rw
        (
          erase-head y sock (take n m) e,
          shift-append n xs (y ∷ m),
          take-behind n xs (shift n 0 (y ∷ m)),
          take-shift n y m h,
        )
        refl;
  count =
      rw (erase-head y sock (take n m) e)
        (omega (arith, length-append {0} xs (take n m), length-take {0} n m));
  size_kept = length-shift n (length xs) (xs ++ y ∷ m);
}

-- A socket that is not looked for is passed by.
passed-Removed :
    (xs : List ℕ) (y : ℕ) (ys : List ℕ) (sock size : ℕ) (r : ℤ × PollSet)
    → (y == sock) ≡ false
    → Removed sock (xs ++ y ∷ []) ys size r
    → Removed sock xs (y ∷ ys) size r
passed-Removed xs y ys sock size r e h = record {
  code = rw (member-tail y sock ys e) h.code;
  sockets = rw (erase-tail y sock ys e) (h.sockets ∙ append_assoc xs (y ∷ []) (erase sock ys));
  count =
      rw (erase-tail y sock ys e) (h.count ∙ ap length (append_assoc xs (y ∷ []) (erase sock ys)));
  size_kept = h.size_kept;
}

remove_from-Removed :
    (n : ℕ) (xs m : List ℕ) (sock : ℕ)
    → n ≤ length m
    → Removed sock xs
        (take n m)
        (length (xs ++ m))
        (remove_from n (length xs) (record { sockets = xs ++ m; count = length xs + n }) sock)
unfolding remove_from
remove_from-Removed zero xs m sock h = record {
  code = unfold member in refl;
  sockets = unfold erase in take-behind zero xs m;
  count = unfold erase in omega (arith, length-append {0} xs []);
  size_kept = refl;
}
remove_from-Removed (suc n) xs [] sock h = absurd (omega arith)
remove_from-Removed (suc n) xs (y ∷ m) sock h = elim (Bool-cases (y == sock)) [
  | inl e ↦
      let rounds : length xs + suc n - 1 - length xs ≡ n = omega arith in
      let left : length xs + suc n - 1 ≡ length xs + n = omega arith in
      rw (at_index-append xs m y, e, rounds, left) (found-Removed n xs y m sock (omega arith) e)
  | inr e ↦
      let whole : (xs ++ y ∷ []) ++ m ≡ xs ++ y ∷ m = append_assoc xs (y ∷ []) m in
      let place : length (xs ++ y ∷ []) ≡ suc (length xs) =
        omega (arith, length-append {0} xs (y ∷ [])) in
      let total : length (xs ++ y ∷ []) + n ≡ length xs + suc n = omega (arith, place) in
      rw (at_index-append xs m y, e)
        (passed-Removed xs y (take n m) sock _ _ e (
          rw (sym total, sym place, sym whole)
            (remove_from-Removed n (xs ++ y ∷ []) m sock (omega arith))))
]

-- Removal takes the first occurrence of the socket out of the list of those that the set holds,
-- gives 0 exactly where there is one, and keeps the set well formed.
pub remove_refines :
    (max : ℕ) (p : PollSet) (sock : ℕ)
    → IsValid max p
    → ((remove p sock).0 ≡ (if member sock (view p) then success else failure))
      × (view (remove p sock).1 ≡ erase sock (view p))
      × IsValid max (remove p sock).1
unfolding remove
remove_refines max p sock v =
    let r : Removed sock [] (view p) (length p.sockets) (remove_from p.count 0 p sock) =
      subst
        (λ k.
          Removed sock [] (view p) (length p.sockets)
            (remove_from p.count 0 (record { sockets = p.sockets; count = k }) sock))
        (add.zero p.count)
        (remove_from-Removed p.count [] p.sockets sock (omega (arith, v.bounded, v.allocated))) in
    let fewer : length (erase sock (view p)) ≤ p.count =
      omega (arith, length-erase sock (view p), length-take {0} p.count p.sockets) in
    (
      r.code,
      r.sockets,
      record {
        bounded = omega (arith, r.count, fewer, v.bounded);
        allocated = omega (arith, r.size_kept, v.allocated);
        machine = v.machine;
      },
    )

-- Adding puts the socket behind those that the set holds, as long as the limit is not reached, where
-- it gives -1 and changes nothing; the set stays well formed.
pub add_refines :
    (max : ℕ) (p : PollSet) (sock : ℕ)
    → IsValid max p
    → ((p.count < max)
        × ((add p max sock).0 ≡ success)
        × (view (add p max sock).1 ≡ view p ++ sock ∷ [])
        × IsValid max (add p max sock).1)
      ⊎ ((p.count ≡ max) × (add p max sock ≡ (failure, p)))
unfolding add
add_refines max p sock v = elim (Bool-cases (leb max p.count)) [
  | inl e ↦ inr (ground (arith, v.bounded), rw e refl)
  | inr e ↦
      let room : p.count < max = ground arith in
      let next : (p.count + 1) % 2 ^ 32 ≡ suc p.count = omega (arith, v.machine) in
      inl (
        room,
        rw e refl,
        rw (e, next) (take-set p.count p.sockets sock (omega (arith, room, v.allocated))),
        rw (e, next)
            (record {
              bounded = room;
              allocated = rw (length-set p.sockets p.count sock) v.allocated;
              machine = v.machine;
            }),
      )
]
