-- ===== src/Socket/Accept.antt =====
-- What set_blocking and accept do to the status flags of a descriptor.
use fossil_network.Address.{Address}
use fossil_network.Base.{
  ℕ, ◌/◌, ◌%◌, ◌≡◌, refl, sym, ◌∙◌, Bool, true, false, not, Option, some, arith, ℤ, pos, success,
}
use fossil_network.Os.{Os, or_nonblock, and_blocking, has_nonblock, with_bit, without_bit}
use fossil_network.Socket.{Socket, set_blocking, accept, keep_accepted}

module _ {W : Type 0} (os : Os W) where
  -- Documented behaviour of fcntl on an open descriptor: O_NONBLOCK can be set, cleared and given back
  -- its old value with F_SETFL, and accept leaves the flags of the listening descriptor.
  pub record FlagLaws : Type 0 where
    pub set_bit :
        (fd : ℤ) (w : W) (n : ℕ)
        → os.get_flags fd w ≡ pos n
        → os.get_flags fd (os.set_flags fd (pos (with_bit n)) w) ≡ pos (with_bit n)
    pub clear_bit :
        (fd : ℤ) (w : W) (n : ℕ)
        → os.get_flags fd w ≡ pos n
        → os.get_flags fd (os.set_flags fd (pos (without_bit n)) w) ≡ pos (without_bit n)
    pub give_back :
        (fd : ℤ) (w : W) (n : ℕ)
        → os.get_flags fd w ≡ pos (with_bit n)
        → os.get_flags fd (os.set_flags fd (pos n) w) ≡ pos n
    pub accept_keeps : (fd : ℤ) (w : W) → os.get_flags fd (os.accept fd w).1 ≡ os.get_flags fd w

has_nonblock-with_bit : (n : ℕ) → has_nonblock (with_bit n) ≡ true
unfolding has_nonblock with_bit
has_nonblock-with_bit n = ground arith

has_nonblock-without_bit : (n : ℕ) → has_nonblock (without_bit n) ≡ false
unfolding has_nonblock without_bit
has_nonblock-without_bit n = ground arith

-- The bits below and above the eleventh stay.
abbrev pub SameElsewhere : ℕ → ℕ → Type 0
SameElsewhere m n = (m % 2048 ≡ n % 2048) × (m / 4096 ≡ n / 4096)

with_bit-SameElsewhere : (n : ℕ) → SameElsewhere (with_bit n) n
unfolding with_bit has_nonblock
with_bit-SameElsewhere n = (ground arith, ground arith)

without_bit-SameElsewhere : (n : ℕ) → SameElsewhere (without_bit n) n
unfolding without_bit has_nonblock
without_bit-SameElsewhere n = (ground arith, ground arith)

-- Under the laws of fcntl, setting the mode of an open socket gives 0, stores the mode in the
-- struct, and makes the descriptor's O_NONBLOCK its opposite; no other status flag changes.
pub set_blocking_lem :
    {W : Type 0} (os : Os W) (laws : FlagLaws os) (sock : Socket) (blocking : Bool) (w : W) (n : ℕ)
    → os.get_flags sock.handle w ≡ pos n
    → (m : ℕ) × (w' : W) × (set_blocking os (some sock) blocking w
        ≡ ((success, some (record sock { blocking = blocking })), w'))
      × (os.get_flags sock.handle w' ≡ pos m)
      × (has_nonblock m ≡ not blocking)
      × SameElsewhere m n
unfolding set_blocking
set_blocking_lem os laws sock true w n e = (
  without_bit n,
  os.set_flags sock.handle (pos (without_bit n)) w,
  rw e (unfold and_blocking in refl),
  laws.clear_bit sock.handle w n e,
  has_nonblock-without_bit n,
  without_bit-SameElsewhere n,
)
set_blocking_lem os laws sock false w n e = (
  with_bit n,
  os.set_flags sock.handle (pos (with_bit n)) w,
  rw e (unfold or_nonblock in refl),
  laws.set_bit sock.handle w n e,
  has_nonblock-with_bit n,
  with_bit-SameElsewhere n,
)

-- Under the laws of fcntl, accepting on an open server socket calls the system's accept while the
-- descriptor does not block, and leaves the descriptor with the flags that it had, on success and
-- on failure.
pub accept_lem :
    {W : Type 0} (os : Os W) (laws : FlagLaws os) (server client : Socket) (addr : Option Address)
    (w : W) (n : ℕ)
    → os.get_flags server.handle w ≡ pos n
    → (m : ℕ) × (w1 w2 : W) × (accept os (some server) (some client) addr w
        ≡ (keep_accepted os (os.accept server.handle w1).0 client addr, w2))
      × (os.get_flags server.handle w1 ≡ pos m)
      × (has_nonblock m ≡ true)
      × (os.get_flags server.handle w2 ≡ os.get_flags server.handle w)
unfolding accept
accept_lem os laws server client addr w n e =
    let w1 = os.set_flags server.handle (pos (with_bit n)) w in
    let set = laws.set_bit server.handle w n e in
    (
      with_bit n,
      w1,
      os.set_flags server.handle (pos n) (os.accept server.handle w1).1,
      rw e (unfold or_nonblock in refl),
      set,
      has_nonblock-with_bit n,
      laws.give_back server.handle _ n (laws.accept_keeps server.handle w1 ∙ set) ∙ sym e,
    )
