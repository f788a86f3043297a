-- ===== src/Socket/Hostname.antt =====
-- What fossil_net_socket_hostname leaves in the caller's buffer.
use fossil_network.Address.{is_zero}
use fossil_network.Base.{
  ℕ, zero, suc, ◌-◌, ◌≡◌, ◌≤◌, ◌<◌, ◌⊎◌, refl, ap, sym, ◌∙◌, arith, true, false, Bool-cases, inl,
  inr, [], ◌∷◌, ◌++◌, none, some, ℤ, success, failure, length, take, drop, set, length-set,
  length-take, length-append, length-drop, nonzero, take_of_length,
}
use fossil_network.Cstr.{Bytes, c_string, memcpy}
use fossil_network.Cstr.Cut.{drop-set_before}
use fossil_network.Os.{Os}
use fossil_network.Socket.{hostname}

-- A NUL written into an array cuts its string there.
c_string-set-nul : (m : Bytes) (i : ℕ) → i < length m → c_string (set m i 0) ≡ take i (c_string m)
unfolding c_string
c_string-set-nul [] i h = absurd (omega arith)
c_string-set-nul (x ∷ m) zero h = refl
c_string-set-nul (zero ∷ m) (suc i) h = refl
c_string-set-nul (suc x ∷ m) (suc i) h = ap (◌∷◌ (suc x)) (c_string-set-nul m i (omega arith))

drop-over :
    (xs m : Bytes) (n : ℕ)
    → length xs ≤ n
    → length xs ≤ length m
    → drop n (xs ++ drop (length xs) m) ≡ drop n m
drop-over [] m n h k = refl
drop-over (x ∷ xs) [] n h k = absurd (omega arith)
drop-over (x ∷ xs) (y ∷ m) zero h k = absurd (omega arith)
drop-over (x ∷ xs) (y ∷ m) (suc n) h k = drop-over xs m n (omega arith) (omega arith)

-- What gethostname wrote over the start of the buffer.
abbrev pub written : Bytes → Bytes → ℕ → Bytes
written buffer name size = memcpy buffer (take size name) (length (take size name))

written-parts :
    (buffer name : Bytes) (size : ℕ)
    → written buffer name size ≡ take size name ++ drop (length (take size name)) buffer
written-parts buffer name size =
    ap (λ xs. xs ++ drop (length (take size name)) buffer)
      (take_of_length (length (take size name)) (take size name) (omega arith))

length-written :
    (buffer name : Bytes) (size : ℕ)
    → size ≤ length buffer
    → length (written buffer name size) ≡ length buffer
length-written buffer name size h =
    let n = length (take size name) in
    ap length (written-parts buffer name size)
    ∙ omega (
      arith,
      length-append {0} (take size name) (drop n buffer),
      length-drop {0} n buffer,
      length-take {0} size name,
    )

drop-written :
    (buffer name : Bytes) (size : ℕ)
    → size ≤ length buffer
    → drop size (written buffer name size) ≡ drop size buffer
drop-written buffer name size h =
    ap (drop size) (written-parts buffer name size)
    ∙ drop-over (take size name) buffer size (omega (arith, length-take {0} size name))
        (omega (arith, length-take {0} size name))

-- The buffer holds the string, cut to `size - 1` bytes, of what was written, and behind its first
-- `size` bytes what it held before.
pub record Named (buffer name : Bytes) (size : ℕ) (out : Bytes) : Type 0 where
  pub string : c_string out ≡ take (size - 1) (c_string (written buffer name size))
  pub bounded : length (c_string out) < size
  pub behind : drop size out ≡ drop size buffer
  pub size_kept : length out ≡ length buffer

named :
    (buffer name : Bytes) (n : ℕ)
    → suc n ≤ length buffer
    → Named buffer name (suc n) (set (written buffer name (suc n)) n 0)
named buffer name n h =
    let m = written buffer name (suc n) in
    let long = length-written buffer name (suc n) h in
    let cut = c_string-set-nul m n (omega (arith, long)) in
    let same : suc n - 1 ≡ n = omega arith in
    record {
      string = cut ∙ ap (λ i. take i (c_string m)) (sym same);
      bounded = omega (arith, ap length cut, length-take {0} n (c_string m));
      behind = drop-set_before m (suc n) n 0 (omega arith) ∙ drop-written buffer name (suc n) h;
      size_kept = length-set m n 0 ∙ long;
    }

-- Asking for the host's name with a buffer of at least size bytes: where gethostname succeeds and
-- size is not 0, the result is 0 and the buffer holds what was written, cut to size - 1 bytes,
-- with its NUL inside the first size bytes and nothing behind them changed. Where it succeeds for
-- size 0, the NUL is written outside the buffer. Where it fails, the result is -1.
pub hostname_lem :
    {W : Type 0} (os : Os W) (buffer : Bytes) (size : ℕ) (w : W) (r : ℤ) (name : Bytes) (w' : W)
    → os.gethostname size w ≡ ((r, name), w')
    → size ≤ length buffer
    → ((is_zero r ≡ true)
        × (0 < size)
        × ((out : Bytes) × (hostname os (some buffer) size w ≡ some ((success, some out), w'))
            × Named buffer name size out))
      ⊎ (((is_zero r ≡ true) × (size ≡ 0) × (hostname os (some buffer) size w ≡ none))
          ⊎ ((is_zero r ≡ false)
              × (hostname os (some buffer) size w
                  ≡ some ((failure, some (written buffer name size)), w'))))
unfolding hostname
hostname_lem os buffer zero w r name w' g h = elim (Bool-cases (is_zero r)) [
  | inl z ↦ inr (inl (z, refl, rw (g, z) refl))
  | inr z ↦ inr (inr (z, rw (g, z) refl))
]
hostname_lem os buffer (suc n) w r name w' g h = elim (Bool-cases (is_zero r)) [
  | inl z ↦
      let kept : suc n - 1 ≡ n = omega arith in
      inl (
        z,
        omega arith,
        (
          set (written buffer name (suc n)) n 0,
          rw (g, z, nonzero n, kept) refl,
          named buffer name n h,
        ),
      )
  | inr z ↦ inr (inr (z, rw (g, z) refl))
]
