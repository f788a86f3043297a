-- ===== src/Cpp/Client/Accounts.antt =====
-- The descriptors that the objects of the class Client open, hold and close.
use fossil_network.Base.{
  ℕ, ◌+◌, ◌≡◌, ◌<◌, refl, arith, Bool, false, Bool-cases, inl, inr, Option, none, some, ◌==◌, ℤ,
  pos, negsuc, get_or, not, ◌||◌,
}
use fossil_network.Address.{Address, is_zero}
use fossil_network.Client.{
  Client, create, destroy, keep_client, known_family, known_type, connect, connected_to, disconnect,
  send, receive, set_blocking, get_local_address, get_remote_address,
}
use fossil_network.Cpp.Client.{
  Args, Method, client_class, method, connects, disconnects, sends, receives, asks_local,
  asks_remote, blocks, asks_error,
}
use fossil_network.Cpp.Owner.Balance.{Accounts, held_by}
use fossil_network.Cpp.Owner.{State, start, end_scope}
use fossil_network.Cpp.Owner.Run.{Reaches}
use fossil_network.Cpp.Owner.Settled.{end_scope-Settled}
use fossil_network.Cstr.{Bytes}
use fossil_network.Os.{Os}
use fossil_network.Os.Ledger.{Ledger, ledger, recording, count_fd, is_fd}
use fossil_network.Socket.{
  create as socket_create, close as socket_close, keep_socket, new_socket, zero_socket,
  family_from_string, type_from_string, connect as socket_connect, send as socket_send,
  receive as socket_receive, set_blocking as socket_set_blocking,
  get_local_address as socket_get_local_address,
}
use fossil_network.Socket.Untouched.{
  connect-Untouched, send-Untouched, receive-Untouched, get_local_address-Untouched,
}

module _ {W : Type 0} (os : Os W) (fd : ℕ) (h : 0 < fd) where
  abbrev holds : Client → ℕ
  holds c = is_fd fd c.sock.handle

  abbrev opened : Ledger W → ℕ
  opened l = count_fd fd l.opened

  abbrev closed : Ledger W → ℕ
  closed l = count_fd fd l.closed

  -- What a call leaves in the struct and in the ledger, beside what others hold.
  abbrev Settles : ℕ → Option Client × Ledger W → Type 0
  Settles n (c, l) = held_by holds c + n + closed l ≡ opened l

  created :
      (a : Args) (w : Ledger W) (n : ℕ)
      → n + closed w ≡ opened w
      → Settles n (create (recording os) a.available a.type a.family w)
  unfolding create socket_create keep_client keep_socket new_socket count_fd is_fd
  created a w n b =
      elim (Bool-cases
        (not a.available || (not (known_family a.family) || not (known_type a.type)))) [
          | inl e ↦ rw e (omega (arith, b))
          | inr e ↦
              rw e (
                go (os.socket (family_from_string a.family) (type_from_string a.type) w.inner) refl)
        ]
    where
      go :
          (r : ℤ × W)
          → os.socket (family_from_string a.family) (type_from_string a.type) w.inner ≡ r
          → Settles n (
              let (s, w') = socket_create (recording os) (some zero_socket) a.type a.family w in
              (keep_client s, w'))
      go (pos m, w') e = rw e (omega (arith, b))
      go (negsuc m, w') e = rw e (omega (arith, b))

  destroyed :
      (c : Client) (w : Ledger W) (n : ℕ)
      → holds c + n + closed w ≡ opened w
      → Settles n (none, destroy (recording os) (some c) w)
  unfolding destroy socket_close count_fd
  destroyed c w n b = omega (arith, b)

  connected :
      (c : Client) (addr : Option Address) (l : Ledger W) (n : ℕ)
      → Settles n (some c, l)
      → let ((r, c'), l') = connect (recording os) (some c) addr l in
        Settles n (some (get_or c' c), l')
  unfolding connect connected_to
  connected c none l n b = b
  connected c (some addr) l n b =
      let there = connect-Untouched os (some c.sock) (some addr) l in
      let l' = (socket_connect (recording os) (some c.sock) (some addr) l).1 in
      let name = get_local_address-Untouched os (some c.sock) (some c.local_addr) l' in
      elim (Bool-cases (is_zero (socket_connect (recording os) (some c.sock) (some addr) l).0)) [
        | inl e ↦ rw (e, name.opened, name.closed, there.opened, there.closed) b
        | inr e ↦ rw (e, there.opened, there.closed) b
      ]

  sent :
      (c : Client) (bytes : Option Bytes) (size : ℕ) (out : Option ℕ) (l : Ledger W) (n : ℕ)
      → Settles n (some c, l)
      → let ((r, c'), l') = send (recording os) (some c) bytes size out l in
        Settles n (some (get_or c' c), l')
  unfolding send
  sent c none size out l n b = b
  sent c (some bytes) size out l n b =
      let there = send-Untouched os (some c.sock) (some bytes) size out l in
      elim (Bool-cases
        (is_zero (socket_send (recording os) (some c.sock) (some bytes) size out l).0.0)) [
          | inl e ↦ rw (e, there.opened, there.closed) b
          | inr e ↦ rw (e, there.opened, there.closed) b
        ]

  received :
      (c : Client) (buffer : Option Bytes) (size : ℕ) (out : Option ℕ) (l : Ledger W) (n : ℕ)
      → Settles n (some c, l)
      → let ((r, c'), l') = receive (recording os) (some c) buffer size out l in
        Settles n (some (get_or c' c), l')
  unfolding receive
  received c none size out l n b = b
  received c (some buffer) size out l n b =
      let there = receive-Untouched os (some c.sock) (some buffer) size out l in
      elim (Bool-cases
        (is_zero (socket_receive (recording os) (some c.sock) (some buffer) size out l).0.0)) [
          | inl e ↦ rw (e, there.opened, there.closed) b
          | inr e ↦ rw (e, there.opened, there.closed) b
        ]

  disconnected :
      (c : Client) (l : Ledger W) (n : ℕ)
      → Settles n (some c, l)
      → let ((r, c'), l') = disconnect (recording os) (some c) l in
        Settles n (some (get_or c' c), l')
  unfolding disconnect socket_close count_fd is_fd
  disconnected c l n b =
      let other : (0 == fd) ≡ false = ground (arith, h) in rw other (omega (arith, b))

  named :
      (c : Client) (addr : Option Address) (l : Ledger W) (n : ℕ)
      → Settles n (some c, l)
      → Settles n (some c, (get_local_address (recording os) (some c) addr l).1)
  unfolding get_local_address socket_get_local_address
  named c none l n b = b
  named c (some addr) l n b = b

  blocked :
      (c : Client) (blocking : Bool) (l : Ledger W) (n : ℕ)
      → Settles n (some c, l)
      → let ((r, c'), l') = set_blocking (recording os) (some c) blocking l in
        Settles n (some (get_or c' c), l')
  unfolding set_blocking socket_set_blocking
  blocked c blocking l n b = b

  called :
      (k : Method) (c : Client) (w : Ledger W) (n : ℕ)
      → Settles n (some c, w)
      → let ((r, c'), w') = method (recording os) k (some c) w in Settles n (some (get_or c' c), w')
  unfolding method get_remote_address
  called (connects addr) c w n b = connected c addr w n b
  called disconnects c w n b = disconnected c w n b
  called (sends bytes size out) c w n b = sent c bytes size out w n b
  called (receives buffer size out) c w n b = received c buffer size out w n b
  called (asks_local addr) c w n b = named c addr w n b
  called (asks_remote none) c w n b = b
  called (asks_remote (some addr)) c w n b = b
  called (blocks blocking) c w n b = blocked c blocking w n b
  called asks_error c w n b = b

  -- A method of an object that holds nothing does nothing.
  refused :
      (k : Method) (w : Ledger W) (n : ℕ)
      → n + closed w ≡ opened w
      → n + closed (method (recording os) k none w).1 ≡ opened (method (recording os) k none w).1
  unfolding method connect disconnect send receive get_local_address get_remote_address set_blocking
  refused (connects addr) w n b = b
  refused disconnects w n b = b
  refused (sends bytes size out) w n b = b
  refused (receives buffer size out) w n b = b
  refused (asks_local addr) w n b = b
  refused (asks_remote addr) w n b = b
  refused (blocks blocking) w n b = b
  refused asks_error w n b = b

  unfoldable client_accounts : Accounts (client_class (recording os))
  client_accounts = record {
    held = holds;
    opened = opened;
    closed = closed;
    created = created;
    destroyed = λ c w n b. omega (arith, destroyed c w n b);
    called = called;
    refused = refused;
  }

-- A program on objects of the class Client that starts with none and reaches a state: behind the
-- end of the scope every descriptor but 0 that the system's socket gave was passed to close as
-- often as it was given.
pub client_scope_closes :
    {W : Type 0} (os : Os W) (w : W) (fd : ℕ) {t : State Client (Ledger W)}
    → 0 < fd
    → Reaches (client_class (recording os)) (start (ledger w)) (some t)
    → (u : State Client (Ledger W)) × (end_scope (client_class (recording os)) t ≡ some u)
      × (count_fd fd u.world.closed ≡ count_fd fd u.world.opened)
unfolding count_fd client_accounts
client_scope_closes os w fd h run =
    end_scope-Settled (client_class (recording os)) (client_accounts os fd h) (ledger w) refl run
