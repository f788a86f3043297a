-- ===== src/Os/Demo.antt =====
-- A small system to run the sockets of code/logic/socket.c on: every call succeeds, the status flags
-- are those of one descriptor, and what is closed, bound and sent is recorded. The text of an address
-- is the list of its bytes, each plus one.
use fossil_network.Base.{
  ℕ, zero, suc, ◌≡◌, refl, ap, [], ◌∷◌, List, map, none, some, ◌&&◌, ◌||◌, ◌==◌, if◌then◌else◌,
  length, arith, ℤ, pos,
}
use fossil_network.Cstr.{Bytes, IsText, codes}
use fossil_network.Os.{sockaddr, Os, SockAddr}

pub record World : Type 0 where
  pub flags : ℤ
  pub closed : List ℤ
  pub bound : List SockAddr
  pub sent : Bytes

abbrev pub world : World
world = record { flags = pos 2; closed = []; bound = []; sent = [] }

abbrev pub pred : ℕ → ℕ
pred zero = zero
pred (suc n) = n

abbrev pub peer : SockAddr
peer = sockaddr 2 34835 (127 ∷ 0 ∷ 0 ∷ 1 ∷ [])

abbrev pub demo : Os World
demo = record {
  errno = λ w. pos 111;
  socket = λ af type w. (pos 3, w);
  close = λ fd w. record w { closed = fd ∷ w.closed };
  get_flags = λ fd w. w.flags;
  set_flags = λ fd flags w. record w { flags = flags };
  bind = λ fd sa w. (pos 0, record w { bound = sa ∷ w.bound });
  listen = λ fd backlog w. (pos 0, w);
  accept = λ fd w. ((pos 7, peer), w);
  connect = λ fd sa w. (pos 0, w);
  send = λ fd bytes w. (pos (length bytes), record w { sent = bytes });
  recv = λ fd size w. ((pos 2, codes "HT"), w);
  set_reuseaddr = λ fd optval w. (pos 0, w);
  getsockname = λ fd w. ((pos 0, peer), w);
  getpeername = λ fd w. ((pos 0, peer), w);
  sleep = λ seconds w. w;
  gethostname = λ size w. ((pos 0, codes "host"), w);
  gethostbyname =
      λ name w. (some (record { addrtype = 2; length = 4; first = some peer.address }), w);
  inet_pton = λ af text.
      if ((af == 2) && (length text == 4)) || ((af == 10) && (length text == 16))
      then some (map pred text)
      else none;
  inet_ntop = λ af address. map suc address;
}

pub map-pred-suc : (a : Bytes) → map pred (map suc a) ≡ a
map-pred-suc [] = refl
map-pred-suc (x ∷ a) = ap (◌∷◌ x) (map-pred-suc a)

pub map-suc-IsText : (a : Bytes) → IsText (map suc a)
map-suc-IsText [] = tt
map-suc-IsText (x ∷ a) = ((λ e. omega arith), map-suc-IsText a)
