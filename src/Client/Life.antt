-- ===== src/Client/Life.antt =====
-- What stays the same in a client over every sequence of calls, and what is closed at its end.
use fossil_network.Address.{Address, is_zero}
use fossil_network.Base.{
  ℕ, ◌≡◌, ◌⊎◌, refl, ap, ◌∙◌, Bool, false, none, some, inl, inr, pos, success, get_or, Bool-cases,
}
use fossil_network.Client.{
  Client, connect, disconnect, destroy, send, receive, set_blocking, connected_to,
}
use fossil_network.Cstr.{Bytes}
use fossil_network.Os.{Os}
use fossil_network.Socket.{
  Socket, connect as socket_connect, close as socket_close, send as socket_send,
  receive as socket_receive, set_blocking as socket_set_blocking,
}

pub data Call : Type 0 where
  connects : Address → Call
  disconnects : Call
  sends : Bytes → ℕ → Call
  receives : Bytes → ℕ → Call
  blocks : Bool → Call

module _ {W : Type 0} (os : Os W) where
  -- The client and the system behind a call.
  unfoldable pub call : Call → Client × W → Client × W
  call (connects addr) (c, w) =
      let ((_, c'), w') = connect os (some c) (some addr) w in (get_or c' c, w')
  call disconnects (c, w) = let ((_, c'), w') = disconnect os (some c) w in (get_or c' c, w')
  call (sends bytes size) (c, w) =
      let ((_, c'), w') = send os (some c) (some bytes) size none w in (get_or c' c, w')
  call (receives buffer size) (c, w) =
      let ((_, c'), w') = receive os (some c) (some buffer) size none w in (get_or c' c, w')
  call (blocks blocking) (c, w) =
      let ((_, c'), w') = set_blocking os (some c) blocking w in (get_or c' c, w')

  pub data Reaches : Client × W → Client × W → Type 0 where
    done : (s : Client × W) → Reaches s s
    next : (k : Call) (s t : Client × W) → Reaches (call k s) t → Reaches s t

-- The handle is the one that the client was created with or, once it has been disconnected, NULL; the
-- names of the type and of the family never change.
pub record SameSocket (c d : Client) : Type 0 where
  pub handle : (d.sock.handle ≡ c.sock.handle) ⊎ (d.sock.handle ≡ pos 0)
  pub type : d.sock.type ≡ c.sock.type
  pub family : d.sock.family ≡ c.sock.family
  pub id : d.sock.id ≡ c.sock.id

same_sock : (c d : Client) → d.sock ≡ c.sock → SameSocket c d
same_sock c d e = record {
  handle = inl (ap (λ (s : Socket). s.handle) e);
  type = ap (λ (s : Socket). s.type) e;
  family = ap (λ (s : Socket). s.family) e;
  id = ap (λ (s : Socket). s.id) e;
}

SameSocket-trans : (c d e : Client) → SameSocket c d → SameSocket d e → SameSocket c e
SameSocket-trans c d e p q = record {
  handle = elim q.handle [
    | inr z ↦ inr z
    | inl h ↦ elim p.handle [ inl g ↦ inl (h ∙ g) | inr z ↦ inr (h ∙ z) ]
  ];
  type = q.type ∙ p.type;
  family = q.family ∙ p.family;
  id = q.id ∙ p.id;
}

call-SameSocket :
    {W : Type 0} (os : Os W) (k : Call) (c : Client) (w : W) → SameSocket c (call os k (c, w)).0
unfolding call connect disconnect send receive set_blocking connected_to
call-SameSocket os (connects addr) c w =
    elim (Bool-cases (is_zero (socket_connect os (some c.sock) (some addr) w).0)) [
      | inl e ↦ same_sock c _ (rw e refl)
      | inr e ↦ same_sock c _ (rw e refl)
    ]
call-SameSocket os disconnects c w =
    unfold socket_close in record { handle = inr refl; type = refl; family = refl; id = refl }
call-SameSocket os (sends bytes size) c w =
    elim (Bool-cases (is_zero (socket_send os (some c.sock) (some bytes) size none w).0.0)) [
      | inl e ↦ same_sock c _ (rw e refl)
      | inr e ↦ same_sock c _ (rw e refl)
    ]
call-SameSocket os (receives buffer size) c w =
    elim (Bool-cases (is_zero (socket_receive os (some c.sock) (some buffer) size none w).0.0)) [
      | inl e ↦ same_sock c _ (rw e refl)
      | inr e ↦ same_sock c _ (rw e refl)
    ]
call-SameSocket os (blocks blocking) c w =
    unfold socket_set_blocking in
    record { handle = inl refl; type = refl; family = refl; id = refl }

-- Over every sequence of calls a client keeps its socket: the handle is the one that it had or
-- NULL, and the names in the struct do not change.
pub Reaches-SameSocket :
    {W : Type 0} (os : Os W) (s t : Client × W) → Reaches os s t → SameSocket s.0 t.0
Reaches-SameSocket os s _ (done _) = same_sock s.0 s.0 refl
Reaches-SameSocket os s t (next k _ _ r) =
    SameSocket-trans s.0 (call os k s).0 t.0 (call-SameSocket os k s.0 s.1)
      (Reaches-SameSocket os (call os k s) t r)

-- Disconnecting closes the client's descriptor and marks it not connected, and destroying the
-- client afterwards closes descriptor 0.
pub destroy-disconnect :
    {W : Type 0} (os : Os W) (c : Client) (w : W)
    → (c' : Client) × (disconnect os (some c) w ≡ ((success, some c'), os.close c.sock.handle w))
      × (c'.connected ≡ false)
      × (destroy os (some c') (os.close c.sock.handle w)
          ≡ os.close (pos 0) (os.close c.sock.handle w))
unfolding disconnect destroy socket_close
destroy-disconnect os c w =
    (record c { sock = record c.sock { handle = pos 0 }; connected = false }, refl, refl, refl)
