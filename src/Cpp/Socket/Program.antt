-- ===== src/Cpp/Socket/Program.antt =====
-- Programs on objects of the class Socket, copies included: what is opened, accepted and closed.
use fossil_network.Address.{Address, is_zero}
use fossil_network.Base.{
  ℕ, zero, suc, ◌+◌, ◌≡◌, ◌<◌, arith, List, [], ◌∷◌, Option, length, set, get_elem?, get_or,
  if◌then◌else◌, false, ◌==◌,
}
use fossil_network.Cpp.Owner.{remove_at}
use fossil_network.Cpp.Socket.{constructed, destructed, socket_close, socket_accept}
use fossil_network.Cpp.Socket.Use.{
  Use, use_socket, lost, Balanced, use_socket-Balanced, socket_accept-Balanced,
}
use fossil_network.Os.{Os}
use fossil_network.Os.Ledger.{Ledger, ledger, recording, is_fd, count_fd}
use fossil_network.Socket.{Socket, close}

abbrev pub object_at : List Socket → ℕ → Socket
object_at ss i = get_or (get_elem? ss i) constructed

-- How often the objects hold a descriptor.
unfoldable pub held : ℕ → List Socket → ℕ
held fd [] = 0
held fd (s ∷ ss) = is_fd fd s.handle + held fd ss

module _ {W : Type 0} (os : Os W) where
  -- One step of a program on the objects that are alive, the latest first; it names only those.
  pub data Step (ss : List Socket) (w : W) : List Socket → W → Type 0 where
    constructs : Step ss w (constructed ∷ ss) w
    copies : (i : ℕ) → i < length ss → Step ss w (object_at ss i ∷ ss) w
    assigns : (i j : ℕ) → i < length ss → j < length ss → Step ss w (set ss i (object_at ss j)) w
    destructs :
        (i : ℕ) → i < length ss → Step ss w (remove_at ss i) (destructed os (object_at ss i) w)
    uses :
        (k : Use) (i : ℕ)
        → i < length ss
        → Step ss w
            (set ss i (use_socket os k (object_at ss i) w).0)
            (use_socket os k (object_at ss i) w).1
    accepts :
        (i j : ℕ) (addr : Option Address)
        → i < length ss
        → j < length ss
        → Step ss w
            (set ss j (socket_accept os (object_at ss j) addr (object_at ss i) w).0.1.0)
            (socket_accept os (object_at ss j) addr (object_at ss i) w).1

  pub data Reaches (ss : List Socket) (w : W) : List Socket → W → Type 0 where
    here : Reaches ss w ss w
    step : {ts us : List Socket} {v x : W} → Reaches ss w ts v → Step ts v us x → Reaches ss w us x

  -- The end of a scope destroys its objects, the latest first.
  unfoldable pub end_scope : List Socket → W → W
  end_scope [] w = w
  end_scope (s ∷ ss) w = end_scope ss (destructed os s w)

  -- How often a step gives a descriptor to a further object, and how often it overwrites one.
  unfoldable pub copied_in :
      ℕ → {ss : List Socket} {w : W} {us : List Socket} {x : W} → Step ss w us x → ℕ
  copied_in fd {ss} constructs = 0
  copied_in fd {ss} (copies i h) = is_fd fd (object_at ss i).handle
  copied_in fd {ss} (assigns i j h g) = is_fd fd (object_at ss j).handle
  copied_in fd {ss} (destructs i h) = 0
  copied_in fd {ss} (uses k i h) = 0
  copied_in fd {ss} (accepts i j addr h g) = 0

  unfoldable pub lost_in :
      ℕ → {ss : List Socket} {w : W} {us : List Socket} {x : W} → Step ss w us x → ℕ
  unfolding lost
  lost_in fd {ss} constructs = 0
  lost_in fd {ss} (copies i h) = 0
  lost_in fd {ss} (assigns i j h g) = is_fd fd (object_at ss i).handle
  lost_in fd {ss} (destructs i h) = 0
  lost_in fd {ss} (uses k i h) = lost fd k (object_at ss i)
  lost_in fd {ss} {w} (accepts i j addr h g) =
      if is_zero (socket_accept os (object_at ss j) addr (object_at ss i) w).0.0
      then is_fd fd (object_at ss j).handle
      else 0

  unfoldable pub all_copied :
      ℕ → {ss : List Socket} {w : W} {us : List Socket} {x : W} → Reaches ss w us x → ℕ
  unfolding copied_in
  all_copied fd here = 0
  all_copied fd (step run st) = all_copied fd run + copied_in fd st

  unfoldable pub all_lost :
      ℕ → {ss : List Socket} {w : W} {us : List Socket} {x : W} → Reaches ss w us x → ℕ
  unfolding lost_in
  all_lost fd here = 0
  all_lost fd (step run st) = all_lost fd run + lost_in fd st

held-set :
    (fd : ℕ) (ss : List Socket) (i : ℕ) (s : Socket)
    → i < length ss
    → held fd (set ss i s) + is_fd fd (object_at ss i).handle ≡ held fd ss + is_fd fd s.handle
unfolding held
held-set fd [] i s h = absurd (omega arith)
held-set fd (x ∷ ss) zero s h = omega arith
held-set fd (x ∷ ss) (suc i) s h = omega (arith, held-set fd ss i s (omega arith))

held-remove_at :
    (fd : ℕ) (ss : List Socket) (i : ℕ)
    → i < length ss
    → held fd (remove_at ss i) + is_fd fd (object_at ss i).handle ≡ held fd ss
unfolding held
held-remove_at fd [] i h = absurd (omega arith)
held-remove_at fd (x ∷ ss) zero h = omega arith
held-remove_at fd (x ∷ ss) (suc i) h = omega (arith, held-remove_at fd ss i (omega arith))

module _ {W : Type 0} (os : Os W) (fd : ℕ) (h : 0 < fd) where
  abbrev Settles : ℕ → ℕ → List Socket → Ledger W → Type 0
  Settles n m ss l =
      n + held fd ss + count_fd fd l.closed ≡ count_fd fd l.opened + count_fd fd l.accepted + m

  destructed-Settles :
      (s : Socket) (n m : ℕ) (l : Ledger W)
      → Balanced os fd h n m (s, l)
      → Settles n m [] (destructed (recording os) s l)
  unfolding destructed socket_close close count_fd held
  destructed-Settles s n m l b = omega (arith, b)

  Step-Settles :
      {ss : List Socket} {l : Ledger W} {us : List Socket} {l' : Ledger W}
      (st : Step (recording os) ss l us l') (n m : ℕ)
      → Settles n m ss l
      → Settles (n + lost_in (recording os) fd st) (m + copied_in (recording os) fd st) us l'
  unfolding lost_in copied_in held is_fd
  Step-Settles {ss} constructs n m b =
      let other : (0 == fd) ≡ false = ground (arith, h) in rw other (omega (arith, b))
  Step-Settles {ss} (copies i g) n m b = omega (arith, b)
  Step-Settles {ss} (assigns i j g f) n m b = omega (arith, b, held-set fd ss i (object_at ss j) g)
  Step-Settles {ss} {l = l} (destructs i g) n m b =
      let rest = held-remove_at fd ss i g in
      omega (
        arith,
        destructed-Settles (object_at ss i) (n + held fd (remove_at ss i)) m l
            (omega (arith, b, rest)),
      )
  Step-Settles {ss} {l = l} (uses k i g) n m b =
      let rest = held-remove_at fd ss i g in
      let (s, l') = use_socket (recording os) k (object_at ss i) l in
      omega (
        arith,
        use_socket-Balanced os fd h k (object_at ss i) l (n + held fd (remove_at ss i)) m
            (omega (arith, b, rest)),
        held-set fd ss i s g,
        rest,
      )
  Step-Settles {ss} {l = l} (accepts i j addr g f) n m b =
      let rest = held-remove_at fd ss j f in
      let client = object_at ss j in
      let filled = (socket_accept (recording os) client addr (object_at ss i) l).0.1.0 in
      omega (
        arith,
        socket_accept-Balanced os fd h (object_at ss i) client addr l (n + held fd (remove_at ss j))
            m (omega (arith, b, rest)),
        held-set fd ss j filled f,
        rest,
      )

  Reaches-Settles :
      {ss : List Socket} {l : Ledger W} {us : List Socket} {l' : Ledger W}
      (run : Reaches (recording os) ss l us l')
      → Settles 0 0 ss l
      → Settles (all_lost (recording os) fd run) (all_copied (recording os) fd run) us l'
  unfolding all_lost all_copied
  Reaches-Settles here b = b
  Reaches-Settles (step run st) b =
      Step-Settles st (all_lost (recording os) fd run) (all_copied (recording os) fd run)
        (Reaches-Settles run b)

  end_scope-Settles :
      (ss : List Socket) (n m : ℕ) (l : Ledger W)
      → Settles n m ss l
      → Settles n m [] (end_scope (recording os) ss l)
  unfolding end_scope held
  end_scope-Settles [] n m l b = b
  end_scope-Settles (s ∷ ss) n m l b =
      end_scope-Settles ss n m (destructed (recording os) s l)
        (omega (arith, destructed-Settles s (n + held fd ss) m l (omega (arith, b))))

  -- Whatever a program does with objects of the class Socket, from none of them: constructing,
  -- copying, assigning, destroying, calling methods and accepting into one, and however the calls
  -- fail. Behind the end of the scope each descriptor but 0 was passed to close as often as the
  -- system's socket and accept gave it, plus the times that a copy or an assignment gave it to a
  -- further object, less the times that an object which held it was overwritten.
  pub end_scope_closes :
      (w : W) {ss : List Socket} {l : Ledger W} (run : Reaches (recording os) [] (ledger w) ss l)
      → count_fd fd (end_scope (recording os) ss l).closed + all_lost (recording os) fd run
        ≡ count_fd fd (end_scope (recording os) ss l).opened
          + count_fd fd (end_scope (recording os) ss l).accepted
          + all_copied (recording os) fd run
  unfolding held count_fd
  end_scope_closes w {ss} {l} run =
      omega (arith, end_scope-Settles ss _ _ l (Reaches-Settles run (omega arith)))
