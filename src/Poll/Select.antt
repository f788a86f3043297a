-- ===== src/Poll/Select.antt =====
-- What fossil_net_socket_poll hands to select.
use fossil_network.Base.{
  nonzero, ℕ, suc, ◌+◌, ◌*◌, ◌/◌, ◌%◌, ◌≡◌, ◌≤◌, ◌<◌, refl, ◌∙◌, List, [], ◌∷◌, map, arith, some,
  if◌then◌else◌, length, ltb, lt→leb-false, All, All-map, pos, Bool, false, ◌||◌, ◌==◌, ℤ,
}
use fossil_network.Poll.{collect, poll, timeval, call_select}

abbrev pub maximum : ℕ → List ℕ → ℕ
maximum m [] = m
maximum m (fd ∷ fds) = maximum (if ltb m fd then fd else m) fds

unfoldable pub reverse_onto : List ℕ → List ℕ → List ℕ
reverse_onto [] ys = ys
reverse_onto (x ∷ xs) ys = reverse_onto xs (x ∷ ys)

collect_lem :
    (fds readfds : List ℕ) (m : ℕ)
    → All (λ fd. fd < 1024) fds
    → collect (length fds) (map pos fds) readfds m ≡ some (reverse_onto fds readfds, maximum m fds)
unfolding collect reverse_onto
collect_lem [] readfds m h = refl
collect_lem (fd ∷ fds) readfds m (p, h) =
    rw (lt→leb-false _ _ p) (collect_lem fds (fd ∷ readfds) (if ltb m fd then fd else m) h)

maximum-least :
    (m : ℕ) (fds : List ℕ) → m ≤ maximum m fds × All (λ fd. fd < suc (maximum m fds)) fds
maximum-least m [] = (omega arith, tt)
maximum-least m (fd ∷ fds) =
    let (low, rest) = maximum-least (if ltb m fd then fd else m) fds in
    (ground (arith, low), (ground (arith, low), rest))

unfoldable pub has : ℕ → List ℕ → Bool
has fd [] = false
has fd (x ∷ xs) = (x == fd) || has fd xs

has-reverse : (fd : ℕ) (xs ys : List ℕ) → has fd (reverse_onto xs ys) ≡ (has fd xs || has fd ys)
unfolding has reverse_onto
has-reverse fd [] ys = refl
has-reverse fd (x ∷ xs) ys = ground (arith, has-reverse fd xs (x ∷ ys))

has_none : (b : Bool) → (b || false) ≡ b
has_none b = ground arith

-- Polling at least one socket, with all descriptors below 1024, returns what select returns on
-- exactly these descriptors, with a first argument above each of them, and with a time that is the
-- given number of milliseconds, of which the microseconds are fewer than a second.
pub poll_lem :
    (select : ℕ → List ℕ → ℕ × ℕ → ℤ) (fds : List ℕ) (timeout_ms : ℕ)
    → 0 < length fds
    → All (λ fd. fd < 1024) fds
    → (nfds : ℕ) × (readfds : List ℕ) × (tv : ℕ × ℕ) × (poll select
          (some (map pos fds))
          (length fds)
          timeout_ms
        ≡ some (select nfds readfds tv))
      × All (λ fd. fd < nfds) fds
      × ((fd : ℕ) → has fd readfds ≡ has fd fds)
      × (1000 * tv.0 + tv.1 / 1000 ≡ timeout_ms)
      × (tv.1 < 1000000)
unfolding poll timeval call_select has
poll_lem select [] timeout_ms p h = absurd (omega arith)
poll_lem select (fd ∷ fds) timeout_ms p h = (
  maximum 0 (fd ∷ fds) + 1,
  reverse_onto (fd ∷ fds) [],
  (timeout_ms / 1000, timeout_ms % 1000 * 1000),
  rw (nonzero (length fds), collect_lem (fd ∷ fds) [] 0 h) refl,
  All-map _ _ (λ x q. omega arith) (fd ∷ fds) (maximum-least 0 (fd ∷ fds)).1,
  λ x. has-reverse x (fd ∷ fds) [] ∙ has_none (has x (fd ∷ fds)),
  omega arith,
  omega arith,
)
