-- ===== src/Client/Session.antt =====
-- A client's calls against an abstract session: a handle, whether it is connected, the address that
-- it was last connected to, and the handles that were closed. The system keeps a ledger, of which
-- the session shows what close got.
use fossil_network.Address.{Address, is_zero}
use fossil_network.Base.{
  ◌≡◌, refl, ap, ◌∙◌, Bool, true, false, List, [], ◌∷◌, none, some, inl, inr, ℤ, pos, success,
  Bool-cases, if◌then◌else◌,
}
use fossil_network.Client.{
  Client, connect, disconnect, send, receive, set_blocking, connected_to, get_remote_address,
}
use fossil_network.Client.Errors.{code}
use fossil_network.Client.Life.{Call, connects, disconnects, sends, receives, blocks, call}
use fossil_network.Os.{Os}
use fossil_network.Os.Ledger.{Ledger, recording}
use fossil_network.Socket.{
  connect as socket_connect, close as socket_close, send as socket_send, receive as socket_receive,
  set_blocking as socket_set_blocking,
}
use fossil_network.Socket.Untouched.{
  connect-Untouched, send-Untouched, receive-Untouched, get_local_address-Untouched,
}

pub record Session : Type 0 where
  pub handle : ℤ
  pub connected : Bool
  pub remote : Address
  pub closed : List ℤ

-- What a call with this result does to a session: a connect that succeeds connects it, a disconnect
-- closes its handle and ends it, and nothing else changes it.
unfoldable pub after : Call → ℤ → Session → Session
after (connects addr) r s = if is_zero r then record s { connected = true; remote = addr } else s
after disconnects r s =
    if is_zero r
    then record s { handle = pos 0; connected = false; closed = s.handle ∷ s.closed }
    else s
after (sends bytes size) r s = s
after (receives buffer size) r s = s
after (blocks blocking) r s = s

unfoldable pub follow : List (Call × ℤ) → Session → Session
follow [] s = s
follow ((k, r) ∷ t) s = follow t (after k r s)

abbrev pub session_of : {W : Type 0} → Client × Ledger W → Session
session_of (c, l) = record {
  handle = c.sock.handle;
  connected = c.connected;
  remote = c.remote_addr;
  closed = l.closed;
}

module _ {W : Type 0} (os : Os W) where
  unfoldable pub run : List Call → Client × W → Client × W
  run [] s = s
  run (k ∷ ks) s = run ks (call os k s)

  -- The calls with their results.
  unfoldable pub trace : List Call → Client × W → List (Call × ℤ)
  trace [] s = []
  trace (k ∷ ks) s = (k, code os k s) ∷ trace ks (call os k s)

-- Two sessions that differ at most in what was closed.
same_closed : (s : Session) (fds : List ℤ) → fds ≡ s.closed → record s { closed = fds } ≡ s
same_closed s fds e = ap (λ z. record s { closed = z }) e

module _ {W : Type 0} (os : Os W) where
  call-after :
      (k : Call) (c : Client) (l : Ledger W)
      → session_of (call (recording os) k (c, l))
        ≡ after k (code (recording os) k (c, l)) (session_of (c, l))
  unfolding call code after connect connected_to disconnect send receive set_blocking
  call-after (connects addr) c l =
      let sock = some c.sock in
      let (r, l1) = socket_connect (recording os) sock (some addr) l in
      let p = connect-Untouched os sock (some addr) l in
      elim (Bool-cases (is_zero (socket_connect (recording os) sock (some addr) l).0)) [
        | inl e ↦
            rw (e, call, code)
              (same_closed
                (record {
                  handle = c.sock.handle;
                  connected = true;
                  remote = addr;
                  closed = l.closed;
                })
                _ ((get_local_address-Untouched os sock (some c.local_addr) l1).closed ∙ p.closed))
        | inr e ↦ rw (e, call, code) (same_closed (session_of (c, l)) _ p.closed)
      ]
  call-after disconnects c l = unfold socket_close in refl
  call-after (sends bytes size) c l =
      let p = send-Untouched os (some c.sock) (some bytes) size none l in
      elim (Bool-cases
        (is_zero (socket_send (recording os) (some c.sock) (some bytes) size none l).0.0)) [
          | inl e ↦ rw (e, call) (same_closed (session_of (c, l)) _ p.closed)
          | inr e ↦ rw (e, call) (same_closed (session_of (c, l)) _ p.closed)
        ]
  call-after (receives buffer size) c l =
      let p = receive-Untouched os (some c.sock) (some buffer) size none l in
      elim (Bool-cases
        (is_zero (socket_receive (recording os) (some c.sock) (some buffer) size none l).0.0)) [
          | inl e ↦ rw (e, call) (same_closed (session_of (c, l)) _ p.closed)
          | inr e ↦ rw (e, call) (same_closed (session_of (c, l)) _ p.closed)
        ]
  call-after (blocks blocking) c l = unfold socket_set_blocking in refl

  run-follow :
      (ks : List Call) (s : Client × Ledger W)
      → session_of (run (recording os) ks s) ≡ follow (trace (recording os) ks s) (session_of s)
  unfolding run trace follow
  run-follow [] s = refl
  run-follow (k ∷ ks) (c, l) =
      run-follow ks (call (recording os) k (c, l))
      ∙ ap (follow (trace (recording os) ks (call (recording os) k (c, l)))) (call-after k c l)

  -- On a system that keeps a ledger of what it does, every sequence of calls on a client, failing
  -- ones included, does to its handle, its connection, its remote address and the list of the
  -- handles that close got what the calls with their results do to an abstract session: a connect
  -- that gives 0 connects the session to the address, a disconnect closes its handle, which is 0
  -- from then on, and ends the connection, and nothing else changes it. get_remote_address then
  -- gives 0 and the address of the last connect that succeeded, also behind a disconnect, or what
  -- the struct held where there was none.
  pub run_refines_session :
      (ks : List Call) (c : Client) (a : Address) (l : Ledger W)
      → (session_of (run (recording os) ks (c, l))
          ≡ follow (trace (recording os) ks (c, l)) (session_of (c, l)))
        × (get_remote_address (some (run (recording os) ks (c, l)).0) (some a)
            ≡ (success, some (follow (trace (recording os) ks (c, l)) (session_of (c, l))).remote))
  unfolding get_remote_address
  run_refines_session ks c a l =
      let e = run-follow ks (c, l) in (e, ap (λ (s : Session). (success, some s.remote)) e)
