-- ===== src/Socket/Untouched.antt =====
-- The calls of code/logic/socket.c that neither open a descriptor nor close one, on a system that keeps
-- a ledger.
use fossil_network.Address.{Address}
use fossil_network.Base.{ℕ, ◌≡◌, refl, Bool, Option, none, some, Option-cases, inl, inr, ℤ}
use fossil_network.Cstr.{Bytes}
use fossil_network.Os.{Os}
use fossil_network.Os.Ledger.{Ledger, recording}
use fossil_network.Socket.{
  Socket, bind, bind_to, connect, connect_to, listen, accept, send, receive, set_blocking,
  get_local_address, socket_address,
}

pub record Untouched {W : Type 0} (l l' : Ledger W) : Type 0 where
  pub opened : l'.opened ≡ l.opened
  pub closed : l'.closed ≡ l.closed
  pub accepted : l'.accepted ≡ l.accepted

-- The same but for what accept gives.
pub record Accepting {W : Type 0} (l l' : Ledger W) : Type 0 where
  pub opened : l'.opened ≡ l.opened
  pub closed : l'.closed ≡ l.closed

module _ {W : Type 0} (os : Os W) where
  pub connect-Untouched :
      (sock : Option Socket) (addr : Option Address) (l : Ledger W)
      → Untouched l (connect (recording os) sock addr l).1
  unfolding connect connect_to
  connect-Untouched none addr l = record { opened = refl; closed = refl; accepted = refl }
  connect-Untouched (some sock) none l = record { opened = refl; closed = refl; accepted = refl }
  connect-Untouched (some sock) (some addr) l =
      elim (Option-cases (socket_address (recording os) addr)) [
        | inl e ↦ record { opened = rw e refl; closed = rw e refl; accepted = rw e refl }
        | inr (sa, e) ↦ record { opened = rw e refl; closed = rw e refl; accepted = rw e refl }
      ]

  pub bind-Untouched :
      (sock : Option Socket) (addr : Option Address) (l : Ledger W)
      → Untouched l (bind (recording os) sock addr l).1
  unfolding bind bind_to
  bind-Untouched none addr l = record { opened = refl; closed = refl; accepted = refl }
  bind-Untouched (some sock) none l = record { opened = refl; closed = refl; accepted = refl }
  bind-Untouched (some sock) (some addr) l =
      elim (Option-cases (socket_address (recording os) addr)) [
        | inl e ↦ record { opened = rw e refl; closed = rw e refl; accepted = rw e refl }
        | inr (sa, e) ↦ record { opened = rw e refl; closed = rw e refl; accepted = rw e refl }
      ]

  pub listen-Untouched :
      (sock : Option Socket) (backlog : ℤ) (l : Ledger W)
      → Untouched l (listen (recording os) sock backlog l).1
  unfolding listen
  listen-Untouched none backlog l = record { opened = refl; closed = refl; accepted = refl }
  listen-Untouched (some sock) backlog l = record { opened = refl; closed = refl; accepted = refl }

  pub accept-Accepting :
      (sock client : Option Socket) (addr : Option Address) (l : Ledger W)
      → Accepting l (accept (recording os) sock client addr l).1
  unfolding accept
  accept-Accepting none client addr l = record { opened = refl; closed = refl }
  accept-Accepting (some sock) none addr l = record { opened = refl; closed = refl }
  accept-Accepting (some sock) (some client) addr l = record { opened = refl; closed = refl }

  pub send-Untouched :
      (sock : Option Socket) (bytes : Option Bytes) (size : ℕ) (sent : Option ℕ) (l : Ledger W)
      → Untouched l (send (recording os) sock bytes size sent l).1
  unfolding send
  send-Untouched none bytes size sent l = record { opened = refl; closed = refl; accepted = refl }
  send-Untouched (some sock) none size sent l = record {
    opened = refl;
    closed = refl;
    accepted = refl;
  }
  send-Untouched (some sock) (some bytes) size sent l = record {
    opened = refl;
    closed = refl;
    accepted = refl;
  }

  pub receive-Untouched :
      (sock : Option Socket) (buffer : Option Bytes) (size : ℕ) (received : Option ℕ) (l : Ledger W)
      → Untouched l (receive (recording os) sock buffer size received l).1
  unfolding receive
  receive-Untouched none buffer size received l = record {
    opened = refl;
    closed = refl;
    accepted = refl;
  }
  receive-Untouched (some sock) none size received l = record {
    opened = refl;
    closed = refl;
    accepted = refl;
  }
  receive-Untouched (some sock) (some buffer) size received l = record {
    opened = refl;
    closed = refl;
    accepted = refl;
  }

  pub get_local_address-Untouched :
      (sock : Option Socket) (addr : Option Address) (l : Ledger W)
      → Untouched l (get_local_address (recording os) sock addr l).1
  unfolding get_local_address
  get_local_address-Untouched none addr l = record { opened = refl; closed = refl; accepted = refl }
  get_local_address-Untouched (some sock) none l = record {
    opened = refl;
    closed = refl;
    accepted = refl;
  }
  get_local_address-Untouched (some sock) (some addr) l = record {
    opened = refl;
    closed = refl;
    accepted = refl;
  }

  pub set_blocking-Untouched :
      (sock : Option Socket) (blocking : Bool) (l : Ledger W)
      → Untouched l (set_blocking (recording os) sock blocking l).1
  unfolding set_blocking
  set_blocking-Untouched none blocking l = record { opened = refl; closed = refl; accepted = refl }
  set_blocking-Untouched (some sock) blocking l = record {
    opened = refl;
    closed = refl;
    accepted = refl;
  }
