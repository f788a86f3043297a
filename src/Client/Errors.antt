-- ===== src/Client/Errors.antt =====
-- The results of a client's calls, and the error that a failing one records.
use fossil_network.Address.{Address, is_zero}
use fossil_network.Base.{
  ◌≡◌, ◌⊎◌, refl, true, false, none, some, inl, inr, ℤ, success, failure, Bool-cases,
}
use fossil_network.Client.{Client, connect, disconnect, send, receive, set_blocking, connected_to}
use fossil_network.Client.Life.{Call, connects, disconnects, sends, receives, blocks, call}
use fossil_network.Os.{Os}
use fossil_network.Socket.{
  connect as socket_connect, close as socket_close, send as socket_send, receive as socket_receive,
  set_blocking as socket_set_blocking,
}

-- The result that a call returns.
unfoldable pub code : {W : Type 0} → Os W → Call → Client × W → ℤ
code os (connects addr) (c, w) = (connect os (some c) (some addr) w).0.0
code os disconnects (c, w) = (disconnect os (some c) w).0.0
code os (sends bytes size) (c, w) = (send os (some c) (some bytes) size none w).0.0.0
code os (receives buffer size) (c, w) = (receive os (some c) (some buffer) size none w).0.0.0
code os (blocks blocking) (c, w) = (set_blocking os (some c) blocking w).0.0

-- A call of connect, disconnect, send, receive or set_blocking on a client, with an address or a
-- buffer that is not NULL and with NULL for the count, gives 0, or gives -1 and records the
-- system's error as it is after the call, and then the socket, the connection and the addresses
-- are what they were.
pub call-recorded :
    {W : Type 0} (os : Os W) (k : Call) (c : Client) (w : W)
    → (code os k (c, w) ≡ success)
      ⊎ ((code os k (c, w) ≡ failure)
          × ((call os k (c, w)).0 ≡ record c { last_error = os.errno (call os k (c, w)).1 }))
unfolding code call connect disconnect send receive set_blocking connected_to
call-recorded os (connects addr) c w =
    elim (Bool-cases (is_zero (socket_connect os (some c.sock) (some addr) w).0)) [
      | inl e ↦ inl (rw (e, code) refl)
      | inr e ↦ inr (rw (e, code) refl, rw (e, call) refl)
    ]
call-recorded os disconnects c w = unfold socket_close in inl refl
call-recorded os (sends bytes size) c w =
    elim (Bool-cases (is_zero (socket_send os (some c.sock) (some bytes) size none w).0.0)) [
      | inl e ↦ inl (rw (e, code) refl)
      | inr e ↦ inr (rw (e, code) refl, rw (e, call) refl)
    ]
call-recorded os (receives buffer size) c w =
    elim (Bool-cases (is_zero (socket_receive os (some c.sock) (some buffer) size none w).0.0)) [
      | inl e ↦ inl (rw (e, code) refl)
      | inr e ↦ inr (rw (e, code) refl, rw (e, call) refl)
    ]
call-recorded os (blocks blocking) c w = unfold socket_set_blocking in inl refl

-- A client's connect gives 0 exactly where the socket's does; the client is then connected and its
-- remote address is the one given. Else it is connected where it was before.
pub connect_lem :
    {W : Type 0} (os : Os W) (c : Client) (addr : Address) (w : W)
    → ((is_zero (socket_connect os (some c.sock) (some addr) w).0 ≡ true)
        × (code os (connects addr) (c, w) ≡ success)
        × ((call os (connects addr) (c, w)).0.connected ≡ true)
        × ((call os (connects addr) (c, w)).0.remote_addr ≡ addr))
      ⊎ ((is_zero (socket_connect os (some c.sock) (some addr) w).0 ≡ false)
          × (code os (connects addr) (c, w) ≡ failure)
          × ((call os (connects addr) (c, w)).0.connected ≡ c.connected)
          × ((call os (connects addr) (c, w)).1
              ≡ (socket_connect os (some c.sock) (some addr) w).1))
unfolding code call connect connected_to
connect_lem os c addr w =
    elim (Bool-cases (is_zero (socket_connect os (some c.sock) (some addr) w).0)) [
      | inl e ↦ inl (e, rw (e, code) refl, rw (e, call) refl, rw (e, call) refl)
      | inr e ↦ inr (e, rw (e, code) refl, rw (e, call) refl, rw (e, call) refl)
    ]
