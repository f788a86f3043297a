-- ===== src/Poll.antt =====
-- The poll sets of code/logic/socket.c: fossil_net_socket_poll_add, _poll_remove and _poll_clear on
-- an array of socket pointers with a count, and fossil_net_socket_poll. A pointer is its address. A
-- write behind the array would be dropped and a read there gives 0; the theorems assume an array
-- that is as long as the caller's `max`.
pub mod Shift
pub mod Sets
pub mod Reach
pub mod Select
mod Tests
use fossil_network.Base.{
  at_index, ℕ, zero, suc, ◌+◌, ◌-◌, ◌*◌, ◌/◌, ◌%◌, ◌^◌, List, [], ◌∷◌, Option, none, some, ltb, leb,
  ◌==◌, if◌then◌else◌, set, get_elem?, get_or, ℤ, pos, negsuc, success, failure,
}

-- The caller's array and `*count`.
pub record PollSet : Type 0 where
  pub sockets : List ℕ
  pub count : ℕ

unfoldable pub add : PollSet → ℕ → ℕ → ℤ × PollSet
add p max sock =
    if leb max p.count
    then (failure, p)
    else (success, record { sockets = set p.sockets p.count sock; count = (p.count + 1) % 2 ^ 32 })

unfoldable pub poll_add :
    Option (List ℕ) → Option ℕ → ℕ → Option ℕ → ℤ × (Option (List ℕ) × Option ℕ)
poll_add (some sockets) (some count) max (some sock) =
    let (code, p) = add (record { sockets = sockets; count = count }) max sock in
    (code, (some p.sockets, some p.count))
poll_add sockets count max _ = (failure, (sockets, count))

-- The inner loop, in its last `n` rounds.
unfoldable pub shift : ℕ → ℕ → List ℕ → List ℕ
shift zero j sockets = sockets
shift (suc n) j sockets = shift n (suc j) (set sockets j (at_index sockets (suc j)))

-- The outer loop, in its last `n` rounds.
unfoldable pub remove_from : ℕ → ℕ → PollSet → ℕ → ℤ × PollSet
remove_from zero i p sock = (failure, p)
remove_from (suc n) i p sock =
    let later = remove_from n (suc i) p sock in
    if at_index p.sockets i == sock
    then (success, record { sockets = shift (p.count - 1 - i) i p.sockets; count = p.count - 1 })
    else later

unfoldable pub remove : PollSet → ℕ → ℤ × PollSet
unfolding remove_from
remove p sock = remove_from p.count 0 p sock

unfoldable pub poll_remove :
    Option (List ℕ) → Option ℕ → Option ℕ → ℤ × (Option (List ℕ) × Option ℕ)
poll_remove (some sockets) (some count) (some sock) =
    let (code, p) = remove (record { sockets = sockets; count = count }) sock in
    (code, (some p.sockets, some p.count))
poll_remove sockets count _ = (failure, (sockets, count))

unfoldable pub clear : PollSet → PollSet
clear p = record p { count = 0 }

unfoldable pub poll_clear : Option (List ℕ) → Option ℕ → ℤ × (Option (List ℕ) × Option ℕ)
poll_clear (some sockets) (some count) = (success, (some sockets, some 0))
poll_clear sockets count = (failure, (sockets, count))

-- `FD_SETSIZE`
abbrev pub max_fds : ℕ
max_fds = 1024

-- The loop that fills `readfds` and keeps the largest descriptor. The arguments are the handles
-- behind the pointers. FD_SET checks nothing, and C leaves it undefined for a descriptor below 0. On
-- 64-bit Linux, the word is the descriptor / 64, rounded to 0, and the bit is the descriptor modulo
-- 64: a handle from -1 to -63 sets a bit of the first word. `none` is a write outside the set, or a
-- round behind the array.
unfoldable pub collect : ℕ → List ℤ → List ℕ → ℕ → Option (List ℕ × ℕ)
collect zero handles readfds max_fd = some (readfds, max_fd)
collect (suc n) [] readfds max_fd = none
collect (suc n) (negsuc k ∷ handles) readfds max_fd =
    let later = collect n handles ((63 - k) ∷ readfds) max_fd in if leb 63 k then none else later
collect (suc n) (pos fd ∷ handles) readfds max_fd =
    let later = collect n handles (fd ∷ readfds) (if ltb max_fd fd then fd else max_fd) in
    if leb max_fds fd then none else later

-- `struct timeval tv = {timeout_ms/1000, (timeout_ms%1000)*1000}`
unfoldable pub timeval : ℕ → ℕ × ℕ
timeval timeout_ms = (timeout_ms / 1000, timeout_ms % 1000 * 1000)

-- `select` gets the number of descriptors, the set and the time; `none` is a fault.
unfoldable pub call_select : (ℕ → List ℕ → ℕ × ℕ → ℤ) → ℕ × ℕ → Option (List ℕ × ℕ) → Option ℤ
call_select select tv none = none
call_select select tv (some (readfds, max_fd)) = some (select (max_fd + 1) readfds tv)

unfoldable pub poll : (ℕ → List ℕ → ℕ × ℕ → ℤ) → Option (List ℤ) → ℕ → ℕ → Option ℤ
unfolding collect timeval call_select
poll select none count timeout_ms = some failure
poll select (some handles) count timeout_ms =
    if count == 0
    then some failure
    else call_select select (timeval timeout_ms) (collect count handles [] 0)
