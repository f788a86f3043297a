-- ===== src/Mac/Parse.antt =====
-- fossil_net_socket_mac_parse: what is printed is read back, and what is accepted is well formed.
use fossil_network.Base.{
  ◌>>=◌, ℕ, zero, suc, ◌-◌, ◌≡◌, ◌<◌, ◌⊎◌, inl, inr, refl, ap, ap₂, sym, ◌∙◌, arith, List, [], ◌∷◌,
  ◌++◌, Option, none, some, Option-cases, to_list, take, drop, length-append, length-drop,
  take_of_length, subst, length, All, success, failure,
}
use fossil_network.Cstr.{Bytes, c_string, snprintf_at}
use fossil_network.Cstr.Copy.{snprintf_cut, c_string-append}
use fossil_network.Mac.{
  Mac, scan_hex2, scan_colon, scan_fields, format_mac, mac_parse, parsed_mac, to_bytes,
}
use fossil_network.Mac.Hex.{IsByte, scan_fields-format, format_mac-IsText, length-format_mac}

-- A well-formed address: six bytes, and their print in the string.
pub record IsValid (mac : Mac) : Type 0 where
  pub six : length mac.bytes ≡ 6
  pub each : All IsByte mac.bytes
  pub printed : c_string mac.string ≡ format_mac mac.bytes
  pub string_size : length mac.string ≡ 18

bind-All {ℓ κ μ} :
    {A : Type ℓ} {B : Type κ} (P : B → Type μ) (m : Option A) (f : A → Option B)
    → ((a : A) → All P (to_list (f a)))
    → All P (to_list (m >>= f))
bind-All P none f h = tt
bind-All P (some a) f h = h a

scan_fields-length : (n : ℕ) (s : Bytes) → All (λ bs. length bs ≡ n) (to_list (scan_fields n s))
unfolding scan_fields
scan_fields-length zero s = (refl, tt)
scan_fields-length (suc zero) s = bind-All _ (scan_hex2 s) _ λ x. (refl, tt)
scan_fields-length (suc (suc n)) s = bind-All _ (scan_hex2 s) _ λ x.
    bind-All _ (scan_colon x.1) _
      λ r. later x.0 (scan_fields (suc n) r) (scan_fields-length (suc n) r)
  where
    later :
        (b : ℕ) (m : Option (List ℕ))
        → All (λ bs. length bs ≡ suc n) (to_list m)
        → All (λ bs. length bs ≡ suc (suc n)) (to_list (m >>= λ bs. some (b ∷ bs)))
    later b none h = tt
    later b (some bs) (h, _) = (ap suc h, tt)

to_bytes_each : (bs : List ℕ) → All IsByte (to_bytes bs)
to_bytes_each [] = tt
to_bytes_each (b ∷ bs) = (omega arith, to_bytes_each bs)

length-to_bytes : (bs : List ℕ) → length (to_bytes bs) ≡ length bs
length-to_bytes [] = refl
length-to_bytes (b ∷ bs) = ap suc (length-to_bytes bs)

to_bytes_same : (bs : List ℕ) → All IsByte bs → to_bytes bs ≡ bs
to_bytes_same [] h = refl
to_bytes_same (b ∷ bs) (h, hs) = ap₂ ◌∷◌ (omega arith) (to_bytes_same bs hs)

-- snprintf at the start of an array with room for the text leaves the text, a NUL and the old rest.
pub snprintf_layout :
    (m text : Bytes) (size : ℕ)
    → length text < size
    → snprintf_at m 0 size text ≡ text ++ 0 ∷ drop (suc (length text)) m
snprintf_layout m text size h =
    let cut : take (size - 1) text ≡ text = take_of_length (size - 1) text (omega arith) in
    snprintf_cut m text size (omega arith) ∙ ap (λ t. t ++ 0 ∷ drop (suc (length t)) m) cut

pub printed-IsValid :
    (bs : List ℕ) (m : Bytes)
    → length bs ≡ 6
    → All IsByte bs
    → length m ≡ 18
    → IsValid (record { bytes = bs; string = snprintf_at m 0 18 (format_mac bs) })
printed-IsValid bs m six each size =
    let fits : length (format_mac bs) ≡ 17 = omega (arith, length-format_mac bs) in
    record {
      six = six;
      each = each;
      printed =
          rw (snprintf_layout m (format_mac bs) 18 (omega arith))
            (c_string-append _ _ (format_mac-IsText bs each));
      string_size = rw (snprintf_layout m (format_mac bs) 18 (omega arith)) (
          omega (
            arith,
            length-append {0} (format_mac bs) (0 ∷ drop (suc (length (format_mac bs))) m),
            length-drop {0} (suc (length (format_mac bs))) m,
          ));
    }

-- Parsing a text into a struct whose string array has 18 bytes either gives -1 and leaves the
-- struct as it was, or gives 0 and leaves a well-formed address, for every text.
pub mac_parse-IsValid :
    (mac : Mac) (text : Bytes)
    → length mac.string ≡ 18
    → (mac_parse (some mac) (some text) ≡ (failure, some mac))
      ⊎ ((mac' : Mac) × (mac_parse (some mac) (some text) ≡ (success, some mac')) × IsValid mac')
unfolding mac_parse parsed_mac
mac_parse-IsValid mac text size = elim (Option-cases (scan_fields 6 text)) [
  | inl e ↦ inl (rw e refl)
  | inr (bs, e) ↦
      let six =
        (subst (λ o. All (λ bs. length bs ≡ 6) (to_list o)) e (scan_fields-length 6 text)).0 in
      inr (
        (parsed_mac mac (some bs)).1,
        rw e refl,
        printed-IsValid (to_bytes bs) mac.string (length-to_bytes bs ∙ six) (to_bytes_each bs) size,
      )
]

-- The print of six bytes is parsed, into a struct whose string array has 18 bytes, as these bytes,
-- and the address is well formed.
pub mac_parse-format :
    (mac : Mac) (bs : List ℕ)
    → length mac.string ≡ 18
    → length bs ≡ 6
    → All IsByte bs
    → (string : Bytes) × (mac_parse (some mac) (some (format_mac bs))
        ≡ (success, some (record { bytes = bs; string = string })))
      × IsValid (record { bytes = bs; string = string })
unfolding mac_parse parsed_mac
mac_parse-format mac bs size six each = (
  snprintf_at mac.string 0 18 (format_mac bs),
  rw (sym six, scan_fields-format bs each, to_bytes_same bs each) refl,
  printed-IsValid bs mac.string six each size,
)
