-- ===== src/Socket/Create.antt =====
-- What fossil_net_socket_create asks of the system and leaves in the struct.
use fossil_network.Base.{
  ℕ, ◌≡◌, ◌⊎◌, refl, true, some, take, inl, inr, ℤ, pos, negsuc, success, failure,
}
use fossil_network.Cstr.{Bytes, IsText, c_string}
use fossil_network.Cstr.Copy.{c_string-strncpy}
use fossil_network.Os.{Os}
use fossil_network.Socket.{
  Socket, create, keep_socket, new_socket, zero_socket, family_from_string, type_from_string,
}

-- A struct for an open descriptor with the two names, each cut to 31 bytes.
pub record Created (fd : ℕ) (t f : Bytes) (sock : Socket) : Type 0 where
  pub handle : sock.handle ≡ pos fd
  pub type : c_string sock.type ≡ take 31 t
  pub family : c_string sock.family ≡ take 31 f
  pub blocking : sock.blocking ≡ true

pub new_socket-Created :
    (fd : ℕ) (type family : Bytes)
    → IsText type
    → IsText family
    → Created fd type family (new_socket (pos fd) type family)
unfolding new_socket
new_socket-Created fd type family t f = record {
  handle = refl;
  type = c_string-strncpy type 31 t;
  family = c_string-strncpy family 31 f;
  blocking = refl;
}

-- The system is asked for a socket of the named family and type. Where it gives a descriptor, the
-- result is 0 and the struct is made for it; where it gives a negative number, the result is -1.
pub create_lem :
    {W : Type 0} (os : Os W) (old : Socket) (type family : Bytes) (w : W)
    → IsText type
    → IsText family
    → ((fd : ℕ) × (sock : Socket) × (w' : W) × (os.socket
            (family_from_string family)
            (type_from_string type)
            w
          ≡ (pos fd, w'))
        × (create os (some old) type family w ≡ ((success, some sock), w'))
        × Created fd type family sock)
      ⊎ ((n : ℕ) × (sock : Socket) × (w' : W) × (os.socket
              (family_from_string family)
              (type_from_string type)
              w
            ≡ (negsuc n, w'))
          × (create os (some old) type family w ≡ ((failure, some sock), w')))
unfolding create keep_socket
create_lem {W} os old type family w t f =
    split (os.socket (family_from_string family) (type_from_string type) w) refl
  where
    split :
        (r : ℤ × W)
        → os.socket (family_from_string family) (type_from_string type) w ≡ r
        → ((fd : ℕ) × (sock : Socket) × (w' : W) × (os.socket
                (family_from_string family)
                (type_from_string type)
                w
              ≡ (pos fd, w'))
            × (create os (some old) type family w ≡ ((success, some sock), w'))
            × Created fd type family sock)
          ⊎ ((n : ℕ) × (sock : Socket) × (w' : W) × (os.socket
                  (family_from_string family)
                  (type_from_string type)
                  w
                ≡ (negsuc n, w'))
              × (create os (some old) type family w ≡ ((failure, some sock), w')))
    split (pos fd, w') e = inl (
      fd,
      new_socket (pos fd) type family,
      w',
      e,
      rw e refl,
      new_socket-Created fd type family t f,
    )
    split (negsuc n, w') e = inr (n, record zero_socket { handle = negsuc n }, w', e, rw e refl)
