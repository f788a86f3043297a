-- ===== src/Cpp/Server/Accounts.antt =====
-- The descriptors that the objects of the class Server open, hold and close.
use fossil_network.Address.{Address, is_zero}
use fossil_network.Base.{
  ℕ, ◌+◌, ◌≡◌, ◌<◌, refl, arith, Bool-cases, inl, inr, Option, none, some, ◌∷◌, ℤ, pos, negsuc,
  get_or, not, ◌||◌,
}
use fossil_network.Client.{known_family, known_type}
use fossil_network.Cpp.Server.{
  Args, Method, server_class, constructed, given_address, method, listens, accepts, asks_address,
  blocks, asks_valid,
}
use fossil_network.Cpp.Owner.{State, start, end_scope}
use fossil_network.Cpp.Owner.Balance.{Accounts, held_by}
use fossil_network.Cpp.Owner.Run.{Reaches}
use fossil_network.Cpp.Owner.Settled.{end_scope-Settled}
use fossil_network.Cstr.{Bytes, c_string}
use fossil_network.Os.{Os}
use fossil_network.Os.Ledger.{Ledger, ledger, recording, count_fd, is_fd}
use fossil_network.Server.{
  Server, create, create_at, bind_server, server_address, destroy, listen, accept, get_address,
  set_blocking,
}
use fossil_network.Socket.{
  create as socket_create, close as socket_close, bind as socket_bind, keep_socket, new_socket,
  zero_socket, family_from_string, type_from_string, set_blocking as socket_set_blocking,
}
use fossil_network.Socket.Untouched.{bind-Untouched, listen-Untouched, accept-Accepting}

module _ {W : Type 0} (os : Os W) (fd : ℕ) (h : 0 < fd) where
  abbrev holds : Server → ℕ
  holds s = is_fd fd s.sock.handle

  abbrev opened : Ledger W → ℕ
  opened l = count_fd fd l.opened

  abbrev closed : Ledger W → ℕ
  closed l = count_fd fd l.closed

  -- What a call leaves in the struct and in the ledger, beside what others hold.
  abbrev Settles : ℕ → Option Server × Ledger W → Type 0
  Settles n (s, l) = held_by holds s + n + closed l ≡ opened l

  made :
      (addr : Option Address) (type family : Bytes) (l : Ledger W) (n : ℕ)
      → n + closed l ≡ opened l
      → Settles n (create_at (recording os) addr type family l)
  unfolding create_at bind_server socket_create keep_socket new_socket socket_close count_fd is_fd
  made none type family l n b = omega (arith, b)
  made (some addr) type family l n b =
      go (os.socket (family_from_string family) (type_from_string type) l.inner) refl
    where
      go :
          (r : ℤ × W)
          → os.socket (family_from_string family) (type_from_string type) l.inner ≡ r
          → Settles n (
              bind_server
                (recording os)
                addr
                (socket_create (recording os) (some zero_socket) type family l))
      go (pos m, w') e =
          let l' = record l { inner = w'; opened = pos m ∷ l.opened } in
          let sock = new_socket (pos m) type family in
          let there = bind-Untouched os (some sock) (some addr) l' in
          elim (Bool-cases (is_zero (socket_bind (recording os) (some sock) (some addr) l').0)) [
            | inl z ↦ rw (e, z, there.opened, there.closed) (omega (arith, b))
            | inr z ↦ rw (e, z, there.opened, there.closed) (omega (arith, b))
          ]
      go (negsuc m, w') e = rw e (omega (arith, b))

  created :
      (a : Args) (l : Ledger W) (n : ℕ)
      → n + closed l ≡ opened l
      → Settles n (constructed (recording os) a l)
  unfolding constructed create
  created a l n b =
      let family = c_string a.family in
      let type = c_string a.type in
      elim (Bool-cases (not a.available || (not (known_family family) || not (known_type type)))) [
        | inl e ↦ rw e (omega (arith, b))
        | inr e ↦ rw e (
            made (server_address (recording os) family (given_address a.addr) a.port) type family l
              n b)
      ]

  destroyed :
      (s : Server) (l : Ledger W) (n : ℕ)
      → holds s + n + closed l ≡ opened l
      → n + closed (destroy (recording os) (some s) l) ≡ opened (destroy (recording os) (some s) l)
  unfolding destroy socket_close count_fd
  destroyed s l n b = omega (arith, b)

  called :
      (k : Method) (s : Server) (l : Ledger W) (n : ℕ)
      → Settles n (some s, l)
      → let ((r, s'), l') = method (recording os) k (some s) l in Settles n (some (get_or s' s), l')
  unfolding method listen accept get_address set_blocking socket_set_blocking
  called (listens backlog) s l n b =
      let there = listen-Untouched os (some s.sock) backlog l in rw (there.opened, there.closed) b
  called (accepts none addr) s l n b = b
  called (accepts (some client_sock) addr) s l n b =
      let there = accept-Accepting os (some s.sock) (some client_sock) addr l in
      rw (there.opened, there.closed) b
  called (asks_address none) s l n b = b
  called (asks_address (some addr)) s l n b = b
  called (blocks blocking) s l n b = b
  called asks_valid s l n b = b

  -- A method of an object that holds nothing does nothing.
  refused :
      (k : Method) (l : Ledger W) (n : ℕ)
      → n + closed l ≡ opened l
      → n + closed (method (recording os) k none l).1 ≡ opened (method (recording os) k none l).1
  unfolding method listen accept get_address set_blocking
  refused (listens backlog) l n b = b
  refused (accepts client_sock addr) l n b = b
  refused (asks_address addr) l n b = b
  refused (blocks blocking) l n b = b
  refused asks_valid l n b = b

  unfoldable server_accounts : Accounts (server_class (recording os))
  server_accounts = record {
    held = holds;
    opened = opened;
    closed = closed;
    created = created;
    destroyed = destroyed;
    called = called;
    refused = refused;
  }

-- The same for programs on objects of the class Server: behind the end of the scope every
-- descriptor but 0 that the system's socket gave was passed to close as often as it was given,
-- where bind failed too.
pub server_scope_closes :
    {W : Type 0} (os : Os W) (w : W) (fd : ℕ) {t : State Server (Ledger W)}
    → 0 < fd
    → Reaches (server_class (recording os)) (start (ledger w)) (some t)
    → (u : State Server (Ledger W)) × (end_scope (server_class (recording os)) t ≡ some u)
      × (count_fd fd u.world.closed ≡ count_fd fd u.world.opened)
unfolding count_fd server_accounts
server_scope_closes os w fd h run =
    end_scope-Settled (server_class (recording os)) (server_accounts os fd h) (ledger w) refl run
