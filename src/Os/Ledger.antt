-- ===== src/Os/Ledger.antt =====
-- A system that also keeps a ledger: the descriptors that its `socket` and its `accept` gave,
-- and those that its `close` got, the latest first. Otherwise it does what the system that it stands on does.
use fossil_network.Base.{ℕ, ◌+◌, List, [], ◌∷◌, ◌==◌, if◌then◌else◌, ℤ, pos, negsuc}
use fossil_network.Os.{Os}

pub record Ledger (W : Type 0) : Type 0 where
  pub inner : W
  pub opened : List ℤ
  pub closed : List ℤ
  pub accepted : List ℤ

abbrev pub ledger : {W : Type 0} → W → Ledger W
ledger w = record { inner = w; opened = []; closed = []; accepted = [] }

-- How often a descriptor stands in a list of them.
unfoldable pub is_fd : ℕ → ℤ → ℕ
is_fd fd (pos n) = if n == fd then 1 else 0
is_fd fd (negsuc n) = 0

unfoldable pub count_fd : ℕ → List ℤ → ℕ
count_fd fd [] = 0
count_fd fd (z ∷ zs) = is_fd fd z + count_fd fd zs

abbrev pub at_inner : {W R : Type 0} → Ledger W → R × W → R × Ledger W
at_inner l (r, w) = (r, record l { inner = w })

abbrev pub recording : {W : Type 0} → Os W → Os (Ledger W)
recording os = record {
  errno = λ l. os.errno l.inner;
  socket = λ af type l.
      let (fd, w) = os.socket af type l.inner in
      (fd, record l { inner = w; opened = fd ∷ l.opened });
  close = λ fd l. record l { inner = os.close fd l.inner; closed = fd ∷ l.closed };
  get_flags = λ fd l. os.get_flags fd l.inner;
  set_flags = λ fd flags l. record l { inner = os.set_flags fd flags l.inner };
  bind = λ fd sa l. at_inner l (os.bind fd sa l.inner);
  listen = λ fd backlog l. at_inner l (os.listen fd backlog l.inner);
  accept = λ fd l.
      let ((s, sa), w) = os.accept fd l.inner in
      ((s, sa), record l { inner = w; accepted = s ∷ l.accepted });
  connect = λ fd sa l. at_inner l (os.connect fd sa l.inner);
  send = λ fd bytes l. at_inner l (os.send fd bytes l.inner);
  recv = λ fd size l. at_inner l (os.recv fd size l.inner);
  set_reuseaddr = λ fd optval l. at_inner l (os.set_reuseaddr fd optval l.inner);
  getsockname = λ fd l. at_inner l (os.getsockname fd l.inner);
  getpeername = λ fd l. at_inner l (os.getpeername fd l.inner);
  sleep = λ seconds l. record l { inner = os.sleep seconds l.inner };
  gethostname = λ size l. at_inner l (os.gethostname size l.inner);
  gethostbyname = λ name l. at_inner l (os.gethostbyname name l.inner);
  inet_pton = os.inet_pton;
  inet_ntop = os.inet_ntop;
}
