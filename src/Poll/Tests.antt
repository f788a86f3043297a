-- ===== src/Poll/Tests.antt =====
-- Poll sets and polls on concrete values.
use fossil_network.Base.{
  ℕ, All, ◌<◌, ◌*◌, ◌/◌, ◌+◌, ◌≡◌, refl, arith, List, [], ◌∷◌, none, some, ℤ, pos, negsuc, success,
  failure,
}
use fossil_network.Poll.{
  PollSet, add, remove, poll, poll_add, poll_remove, collect, timeval, call_select, remove_from,
  shift,
}
use fossil_network.Poll.Sets.{view, IsValid}
use fossil_network.Poll.Shift.{erase}
use fossil_network.Poll.Reach.{adds, removes, run, run_list, call_list, run_refines}
use fossil_network.Poll.Select.{has, poll_lem}

abbrev three : PollSet
three = record { sockets = 40 ∷ 50 ∷ 60 ∷ 0 ∷ []; count = 3 }

three-IsValid : IsValid 4 three
three-IsValid = record { bounded = omega arith; allocated = omega arith; machine = omega arith }

remove_first :
    poll_remove (some three.sockets) (some 3) (some 40)
    ≡ (success, (some (50 ∷ 60 ∷ 60 ∷ 0 ∷ []), some 2))
unfolding poll_remove remove remove_from shift
remove_first = refl

add_full :
    poll_add (some three.sockets) (some 3) 3 (some 70) ≡ (failure, (some three.sockets, some 3))
unfolding poll_add add
add_full = refl

run_refines_example :
    IsValid 4 (run 4 (removes 50 ∷ adds 70 ∷ adds 80 ∷ adds 90 ∷ []) three)
    × (view (run 4 (removes 50 ∷ adds 70 ∷ adds 80 ∷ adds 90 ∷ []) three) ≡ 40 ∷ 60 ∷ 70 ∷ 80 ∷ [])
unfolding run_list call_list erase
run_refines_example =
    run_refines 4 (removes 50 ∷ adds 70 ∷ adds 80 ∷ adds 90 ∷ []) three three-IsValid

abbrev largest : ℕ → List ℕ → ℕ × ℕ → ℤ
largest nfds readfds tv = pos nfds

-- The handle -1 sets the bit of descriptor 63.
abbrev first_fd : ℕ → List ℕ → ℕ × ℕ → ℤ
first_fd nfds [] tv = pos nfds
first_fd nfds (fd ∷ fds) tv = pos fd

poll_unopened : poll first_fd (some (pos 3 ∷ negsuc 0 ∷ [])) 2 1500 ≡ some (pos 63)
unfolding poll collect timeval call_select
poll_unopened = refl

poll_outside :
    (poll first_fd (some (negsuc 63 ∷ [])) 1 0 ≡ none)
    × (poll first_fd (some (pos 1024 ∷ [])) 1 0 ≡ none)
unfolding poll collect timeval call_select
poll_outside = (refl, refl)

poll_lem_example :
    (nfds : ℕ) × (readfds : List ℕ) × (tv : ℕ × ℕ) × (poll largest
        (some (pos 7 ∷ pos 3 ∷ []))
        2
        1500
      ≡ some (largest nfds readfds tv))
    × All (λ fd. fd < nfds) (7 ∷ 3 ∷ [])
    × ((fd : ℕ) → has fd readfds ≡ has fd (7 ∷ 3 ∷ []))
    × (1000 * tv.0 + tv.1 / 1000 ≡ 1500)
    × (tv.1 < 1000000)
poll_lem_example = poll_lem largest (7 ∷ 3 ∷ []) 1500 (omega arith) (omega arith, (omega arith, tt))
