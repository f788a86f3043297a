-- ===== src/Windows/Mode.antt =====
-- The mode of a socket on Windows, which the code cannot ask the system for: it reads `blocking` of the
-- struct instead.
use fossil_network.Address.{Address}
use fossil_network.Base.{
  ℕ, ◌≡◌, refl, ap, sym, ◌∙◌, Bool, true, false, Option, none, some, get_or, ℤ, pos, success,
  failure, ◌≢◌,
}
use fossil_network.Cstr.{Bytes}
use fossil_network.Socket.{Socket, new_socket, zero_socket, family_from_string, type_from_string}
use fossil_network.Windows.{
  Winsock, mode_of, keep_socket, invalid, create, set_blocking, keep_accepted, accept,
}

-- What Winsock says of the mode: a new socket blocks, and FIONBIO sets the mode of the socket.
pub record ModeLaws {W : Type 0} (os : Winsock W) : Type 0 where
  pub blocks : ℤ → W → Bool
  pub socket_blocks :
      (af type : ℕ) (w w' : W) (fd : ℕ)
      → os.socket af type w ≡ (some fd, w')
      → blocks (pos fd) w' ≡ true
  pub ioctl_sets : (h : ℤ) (b : Bool) (w : W) → blocks h (os.ioctlsocket h (mode_of b) w) ≡ b

failure-success : failure ≢ success
failure-success e = cc

module _ {W : Type 0} (os : Winsock W) where
  -- A socket from fossil_net_socket_create, and any sequence of the calls that change modes.
  pub data Reaches : Socket → W → Type 0 where
    creates :
        {s : Socket} {w' : W} (old : Socket) (type family : Bytes) (w : W)
        → create os (some old) type family w ≡ ((success, some s), w')
        → Reaches s w'
    sets :
        {s : Socket} {w : W} (blocking : Bool)
        → Reaches s w
        → Reaches (record s { blocking = blocking }) (set_blocking os (some s) blocking w).1
    accepts :
        {s : Socket} {w : W} (client : Socket) (addr : Option Address)
        → Reaches s w
        → Reaches s (accept os (some s) (some client) addr w).1

  create-blocks :
      (laws : ModeLaws os) (old s : Socket) (type family : Bytes) (w w' : W)
      → create os (some old) type family w ≡ ((success, some s), w')
      → laws.blocks s.handle w' ≡ s.blocking
  unfolding create keep_socket new_socket
  create-blocks laws old s type family w w' e =
      go (os.socket (family_from_string family) (type_from_string type) w) refl
    where
      go :
          (r : Option ℕ × W)
          → os.socket (family_from_string family) (type_from_string type) w ≡ r
          → laws.blocks s.handle w' ≡ s.blocking
      go (none, v) f =
          let failed : create os (some old) type family w
              ≡ ((failure, some (record zero_socket { handle = invalid })), v) =
            rw f refl in
          absurd (failure-success (ap (λ r. r.0.0) (sym failed ∙ e)))
      go (some fd, v) f =
          let made : create os (some old) type family w
              ≡ ((success, some (new_socket (pos fd) type family)), v) =
            rw f refl in
          let same = sym made ∙ e in
          let there : s ≡ new_socket (pos fd) type family =
            sym (ap (λ (r : (ℤ × Option Socket) × W). get_or r.0.1 s) same) in
          rw (there, sym (ap (λ r. r.1) same))
            (laws.socket_blocks (family_from_string family) (type_from_string type) w v fd f)

  -- The struct tells the mode of the socket.
  Reaches-Matches :
      (laws : ModeLaws os) {s : Socket} {w : W} → Reaches s w → laws.blocks s.handle w ≡ s.blocking
  unfolding set_blocking accept
  Reaches-Matches laws (creates old type family w e) = create-blocks laws old _ type family w _ e
  Reaches-Matches laws (sets {s} {w} blocking before) = laws.ioctl_sets s.handle blocking w
  Reaches-Matches laws (accepts {s} client addr before) = laws.ioctl_sets s.handle s.blocking _

  -- On Windows, under the laws of Winsock on modes: after fossil_net_socket_create and any
  -- sequence of set_blocking and accept on a socket, an accept calls the system's accept while the
  -- socket does not block, and leaves the socket in the mode that it had, on success and on
  -- failure.
  pub accept-restores :
      (laws : ModeLaws os) {s : Socket} {w : W} (client : Socket) (addr : Option Address)
      → Reaches s w
      → (w1 w2 : W) × (accept os (some s) (some client) addr w
          ≡ (keep_accepted os (os.accept s.handle w1).0 client addr, w2))
        × (laws.blocks s.handle w1 ≡ false)
        × (laws.blocks s.handle w2 ≡ laws.blocks s.handle w)
  unfolding accept
  accept-restores laws {s} {w} client addr before =
      let w1 = os.ioctlsocket s.handle 1 w in
      (
        w1,
        os.ioctlsocket s.handle (mode_of s.blocking) (os.accept s.handle w1).1,
        refl,
        laws.ioctl_sets s.handle false w,
        laws.ioctl_sets s.handle s.blocking _ ∙ sym (Reaches-Matches laws before),
      )
