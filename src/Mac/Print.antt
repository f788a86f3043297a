-- ===== src/Mac/Print.antt =====
-- What fossil_net_socket_mac_to_string writes, which address fossil_net_socket_mac_get takes, and
-- what fossil_net_socket_mac_equal compares.
use fossil_network.Base.{
  ℕ, zero, suc, ◌+◌, ◌-◌, ◌≡◌, ◌≤◌, ◌<◌, ◌↔◌, refl, ap, sym, ◌∙◌, subst, ◌⊎◌, inl, inr, Bool-cases,
  arith, true, false, ◌&&◌, List, [], ◌∷◌, ◌++◌, some, take, drop, set, length-append, length-take,
  take_of_length, drop_of_length, append_assoc, set-append, append-nil, length-replicate, length,
  All, All-take, success, ◌==◌,
}
use fossil_network.Cstr.{Bytes, IsText, c_string, strncpy, strcpy, memcpy, zeroed, snprintf_at}
use fossil_network.Cstr.Copy.{c_string-append, c_string-IsText, str_eq_iff}
use fossil_network.Mac.{
  Mac, mac_parse, mac_to_string, mac_equal, mac_get, first_mac, format_mac, Interface, is_packet,
}
use fossil_network.Mac.Hex.{IsByte, length-format_mac}
use fossil_network.Mac.Parse.{IsValid, mac_parse-format, printed-IsValid, snprintf_layout}

drop_split : (n : ℕ) (m : Bytes) → n < length m → (d : ℕ) × (drop n m ≡ d ∷ drop (suc n) m)
drop_split n [] h = absurd (omega arith)
drop_split zero (c ∷ m) h = (c, refl)
drop_split (suc n) (c ∷ m) h = drop_split n m (omega arith)

zeros-cut : (k : ℕ) (t m : Bytes) → IsText t → c_string (t ++ (zeroed k ++ 0 ∷ m)) ≡ t
zeros-cut zero t m h = c_string-append t m h
zeros-cut (suc k) t m h = c_string-append t (zeroed k ++ 0 ∷ m) h

-- A NUL is set behind two parts of a list, in place of the element there.
set-behind :
    (n : ℕ) (xs ys : Bytes) (d : ℕ) (m : Bytes)
    → length xs + length ys ≡ n
    → set (xs ++ (ys ++ d ∷ m)) n 0 ≡ xs ++ (ys ++ 0 ∷ m)
set-behind n xs ys d m e =
    ap (λ s. set s n 0) (sym (append_assoc xs ys (d ∷ m)))
    ∙ ap (λ j. set ((xs ++ ys) ++ d ∷ m) j 0) (omega (arith, e, length-append {0} xs ys))
    ∙ set-append (xs ++ ys) d 0 m
    ∙ append_assoc xs ys (0 ∷ m)

-- strncpy with a NUL behind its `n` bytes leaves the source cut to `n` bytes.
pub c_string-strncpy-nul :
    (dst src : Bytes) (n : ℕ)
    → n < length dst
    → IsText src
    → c_string (set (strncpy dst src n) n 0) ≡ take n src
unfolding strncpy
c_string-strncpy-nul dst src n h t =
    let (d, e) = drop_split n dst h in
    let k : ℕ = n - length src in
    rw
      (
        e,
        set-behind n (take n src) (zeroed k) d (drop (suc n) dst)
            (omega (arith, length-take {0} n src, length-replicate {0} {A = ℕ} k 0)),
      )
      (zeros-cut k (take n src) (drop (suc n) dst) (All-take _ n src t))

-- A well-formed address printed into a buffer of at least 18 bytes and parsed again, into a struct
-- whose string array has 18 bytes, gives the same bytes and the same string.
pub mac_parse-to_string :
    (mac other : Mac) (buffer : Bytes) (size : ℕ)
    → IsValid mac
    → length other.string ≡ 18
    → 18 ≤ size
    → size ≤ length buffer
    → (out : Bytes) × (mac' : Mac) × (mac_to_string (some mac) (some buffer) size
        ≡ some (success, some out))
      × (mac_parse (some other) (some (c_string out)) ≡ (success, some mac'))
      × (mac'.bytes ≡ mac.bytes)
      × (c_string mac'.string ≡ c_string mac.string)
unfolding mac_to_string
mac_parse-to_string mac other buffer zero v q p r = absurd (omega arith)
mac_parse-to_string mac other buffer (suc n) v q p r =
    let text : Bytes = format_mac mac.bytes in
    let (string, e, valid) = mac_parse-format other mac.bytes q v.six v.each in
    let kept : c_string (set (strncpy buffer (c_string mac.string) n) n 0) ≡ text =
      c_string-strncpy-nul buffer (c_string mac.string) n (omega arith) (c_string-IsText mac.string)
      ∙ ap (take n) v.printed
      ∙ take_of_length n text (omega (arith, length-format_mac mac.bytes, v.six)) in
    (
      set (strncpy buffer (c_string mac.string) n) n 0,
      record { bytes = mac.bytes; string = string },
      refl,
      rw kept e,
      refl,
      valid.printed ∙ sym v.printed,
    )

-- Two addresses compare equal exactly where their six bytes are the same.
pub mac_equal_iff :
    (a b : Mac)
    → length a.bytes ≡ 6
    → length b.bytes ≡ 6
    → (mac_equal (some a) (some b) ≡ true) ↔ (a.bytes ≡ b.bytes)
unfolding mac_equal
mac_equal_iff a b p q =
    rw (take_of_length 6 a.bytes (omega (arith, p)), take_of_length 6 b.bytes (omega (arith, q)))
      (str_eq_iff a.bytes b.bytes)

-- An interface with a link-layer address of six bytes.
abbrev pub HasMac : Interface → Type 0
HasMac i = (is_packet i.family && (i.sll_halen == 6)) ≡ true

abbrev pub LacksMac : Interface → Type 0
LacksMac i = (is_packet i.family && (i.sll_halen == 6)) ≡ false

-- The address is taken from the first interface that has a link-layer address of six bytes,
-- whatever stands behind it, and is well formed; the arrays of the struct have 6 and 18 bytes.
pub mac_get_first :
    (before after : List Interface) (i : Interface) (mac : Mac)
    → All LacksMac before
    → HasMac i
    → length mac.bytes ≡ 6
    → length mac.string ≡ 18
    → 6 ≤ length i.sll_addr
    → All IsByte i.sll_addr
    → (mac' : Mac) × (mac_get (some (before ++ i ∷ after)) (some mac) ≡ (success, some mac'))
      × (mac'.bytes ≡ take 6 i.sll_addr)
      × IsValid mac'
unfolding mac_get first_mac
mac_get_first [] after i mac l h p q r s =
    let bytes : List ℕ = take 6 i.sll_addr in
    let copied : memcpy mac.bytes i.sll_addr 6 ≡ bytes =
      ap (λ t. bytes ++ t) (drop_of_length 6 mac.bytes (omega (arith, p))) ∙ append-nil bytes in
    let six : length bytes ≡ 6 = omega (arith, length-take {0} 6 i.sll_addr, r) in
    let fits : length (format_mac bytes) < 18 = omega (arith, length-format_mac bytes, six) in
    let same : strcpy mac.string (format_mac bytes)
        ≡ snprintf_at mac.string 0 18 (format_mac bytes) =
      unfold strcpy in sym (snprintf_layout mac.string (format_mac bytes) 18 fits) in
    (
      record { bytes = bytes; string = snprintf_at mac.string 0 18 (format_mac bytes) },
      rw (h, copied, same) refl,
      refl,
      printed-IsValid bytes mac.string six (All-take _ 6 i.sll_addr s) q,
    )
mac_get_first (j ∷ before) after i mac (l, ls) h p q r s =
    let (mac', e, same, valid) = mac_get_first before after i mac ls h p q r s in
    (mac', rw l e, same, valid)

-- Where no interface has a link-layer address of six bytes, the result is 0 all the same, and the
-- address is what it was.
pub mac_get_none :
    (ifap : List Interface) (mac : Mac)
    → All LacksMac ifap
    → mac_get (some ifap) (some mac) ≡ (success, some mac)
unfolding mac_get first_mac
mac_get_none [] mac h = refl
mac_get_none (i ∷ ifap) mac (l, h) = rw l (mac_get_none ifap mac h)

-- What the system says of a link-layer address: at least six bytes.
abbrev pub IsLink : Interface → Type 0
IsLink i = (6 ≤ length i.sll_addr) × All IsByte i.sll_addr

-- The first interface with an address, if there is one.
pub record First (ifap : List Interface) : Type 0 where
  pub before : List Interface
  pub found : Interface
  pub after : List Interface
  pub split : ifap ≡ before ++ found ∷ after
  pub none_before : All LacksMac before
  pub has : HasMac found

First-cases : (ifap : List Interface) → First ifap ⊎ All LacksMac ifap
First-cases [] = inr tt
First-cases (i ∷ ifap) = elim (Bool-cases (is_packet i.family && (i.sll_halen == 6))) [
  | inl e ↦
      inl (record { before = []; found = i; after = ifap; split = refl; none_before = tt; has = e })
  | inr e ↦ elim (First-cases ifap) [
    | inl f ↦ inl (record {
      before = i ∷ f.before;
      found = f.found;
      after = f.after;
      split = ap (◌∷◌ i) f.split;
      none_before = (e, f.none_before);
      has = f.has;
    })
    | inr n ↦ inr (e, n)
  ]
]

All-found :
    (P : Interface → Type 0) (before : List Interface) (i : Interface) (after : List Interface)
    → All P (before ++ i ∷ after)
    → P i
All-found P [] i after (h, hs) = h
All-found P (j ∷ before) i after (h, hs) = All-found P before i after hs

-- For every list of interfaces whose link-layer addresses are of at least six bytes, the result is
-- 0. The address is taken from the first interface that has one of length six, and is well formed;
-- where there is none, it is what the caller's struct held before.
pub mac_get_lem :
    (ifap : List Interface) (mac : Mac)
    → All IsLink ifap
    → length mac.bytes ≡ 6
    → length mac.string ≡ 18
    → ((f : First ifap) × (mac' : Mac) × (mac_get (some ifap) (some mac) ≡ (success, some mac'))
        × (mac'.bytes ≡ take 6 f.found.sll_addr)
        × IsValid mac')
      ⊎ (All LacksMac ifap × (mac_get (some ifap) (some mac) ≡ (success, some mac)))
mac_get_lem ifap mac links p q = elim (First-cases ifap) [
  | inl f ↦
      let link : IsLink f.found =
        All-found IsLink f.before f.found f.after (subst (All IsLink) f.split links) in
      let (mac', e, same, valid) =
        mac_get_first f.before f.after f.found mac f.none_before f.has p q link.0 link.1 in
      inl (f, mac', ap (λ is. mac_get (some is) (some mac)) f.split ∙ e, same, valid)
  | inr none_there ↦ inr (none_there, mac_get_none ifap mac none_there)
]
