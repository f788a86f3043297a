-- ===== src/Request/Fields.antt =====
-- The specification of a request's headers: a list of names with values, at most 32 of them. Names
-- are cut to 63 bytes when they are added, and values to 255.
use mathlib.Core.Option
use fossil_network.Base.{
  ◌≡◌, ◌↔◌, ◌≤◌, refl, inl, inr, false, List, [], ◌∷◌, ◌++◌, Option, none, some, arith, leb,
  if◌then◌else◌, Bool-cases, Option-cases, length, take, length-append, take_of_length,
}
use fossil_network.Cstr.{Bytes, str_eq}
use fossil_network.Cstr.Copy.{str_eq_iff}

abbrev pub Fields : Type 0
Fields = List (Bytes × Bytes)

unfoldable pub lookup : Bytes → Fields → Option Bytes
lookup key [] = none
lookup key ((k, v) ∷ fs) = if str_eq k key then some v else lookup key fs

-- A new value for the first field of that name.
unfoldable pub replace : Bytes → Bytes → Fields → Option Fields
replace key value [] = none
replace key value ((k, v) ∷ fs) =
    if str_eq k key
    then some ((k, value) ∷ fs)
    else Option.map (λ fs'. (k, v) ∷ fs') (replace key value fs)

abbrev pub cut_value : Bytes → Bytes
cut_value = take 255

abbrev pub cut_key : Bytes → Bytes
cut_key = take 63

unfoldable pub add_field : Bytes → Bytes → Fields → Option Fields
add_field key value fs =
    if leb 32 (length fs) then none else some (fs ++ (cut_key key, cut_value value) ∷ [])

unfoldable pub put_or_add : Option Fields → Bytes → Bytes → Fields → Option Fields
unfolding add_field
put_or_add (some fs') key value fs = some fs'
put_or_add none key value fs = add_field key value fs

-- `none`: the list is full.
unfoldable pub put : Bytes → Bytes → Fields → Option Fields
unfolding put_or_add
put key value fs = put_or_add (replace key (cut_value value) fs) key value fs

-- A replacement below the first field.
replace_below :
    (key value k v : Bytes) (fs : Fields) {fs' : Fields}
    → str_eq k key ≡ false
    → replace key value ((k, v) ∷ fs) ≡ some fs'
    → (r : Fields) × (replace key value fs ≡ some r) × (fs' ≡ (k, v) ∷ r)
unfolding replace
replace_below key value k v fs other h = elim (Option-cases (replace key value fs)) [
  | inl e ↦ absurd (ground arith)
  | inr (r, e) ↦ (r, e, ground arith)
]

replace-lookup :
    (key value j : Bytes) (fs : Fields) {fs' : Fields}
    → replace key value fs ≡ some fs'
    → lookup j fs' ≡ (if str_eq key j then some value else lookup j fs)
unfolding replace lookup
replace-lookup key value j [] h = absurd (cc)
replace-lookup key value j ((k, v) ∷ fs) h = elim (Bool-cases (str_eq k key)) [
  | inl same ↦ ground (arith, (str_eq_iff k key).0 same)
  | inr other ↦
      let (r, e, shape) = replace_below key value k v fs other h in
      ground
        (arith, replace-lookup key value j fs e, str_eq_iff k key, str_eq_iff key j, str_eq_iff k j)
]

replace-none :
    (key value : Bytes) (fs : Fields) → replace key value fs ≡ none → lookup key fs ≡ none
unfolding replace lookup
replace-none key value [] h = refl
replace-none key value ((k, v) ∷ fs) h = ground (arith, replace-none key value fs)

replace-length :
    (key value : Bytes) (fs : Fields) {fs' : Fields}
    → replace key value fs ≡ some fs'
    → length fs' ≡ length fs
unfolding replace
replace-length key value [] h = absurd (cc)
replace-length key value ((k, v) ∷ fs) h = elim (Bool-cases (str_eq k key)) [
  | inl same ↦ ground arith
  | inr other ↦
      let (r, e, shape) = replace_below key value k v fs other h in
      ground (arith, replace-length key value fs e)
]

abbrev or_else : Option Bytes → Option Bytes → Option Bytes
or_else none b = b
or_else (some a) b = some a

lookup-append :
    (j k v : Bytes) (fs : Fields)
    → lookup j (fs ++ (k, v) ∷ []) ≡ or_else (lookup j fs) (if str_eq k j then some v else none)
unfolding lookup
lookup-append j k v [] = refl
lookup-append j k v ((i, w) ∷ fs) = ground (arith, lookup-append j k v fs)

-- A stored name shorter than 64 bytes is found again with the value cut to 255 bytes; every other
-- name keeps its value.
pub lookup-put :
    (key value j : Bytes) (fs : Fields) {fs' : Fields}
    → length key ≤ 63
    → put key value fs ≡ some fs'
    → lookup j fs' ≡ (if str_eq key j then some (cut_value value) else lookup j fs)
unfolding put
lookup-put key value j fs short h = elim (Option-cases (replace key (cut_value value) fs)) [
  | inl e ↦ ground (
    arith,
    take_of_length 63 key short,
    replace-none key (cut_value value) fs e,
    lookup-append j (cut_key key) (cut_value value) fs,
    str_eq_iff key j,
  )
  | inr (r, e) ↦ ground (arith, replace-lookup key (cut_value value) j fs e)
]

pub put-length :
    (key value : Bytes) (fs : Fields) {fs' : Fields}
    → length fs ≤ 32
    → put key value fs ≡ some fs'
    → length fs' ≤ 32
unfolding put
put-length key value fs small h = elim (Option-cases (replace key (cut_value value) fs)) [
  | inl e ↦ ground (arith, length-append fs ((cut_key key, cut_value value) ∷ []))
  | inr (r, e) ↦ ground (arith, replace-length key (cut_value value) fs e)
]

lookup-none : (key value : Bytes) (fs : Fields) → lookup key fs ≡ none → replace key value fs ≡ none
unfolding replace lookup
lookup-none key value [] h = refl
lookup-none key value ((k, v) ∷ fs) h = ground (arith, lookup-none key value fs)

-- A field is refused exactly when the name is new and 32 fields are there.
pub put-none_iff :
    (key value : Bytes) (fs : Fields)
    → (put key value fs ≡ none) ↔ ((lookup key fs ≡ none) × (32 ≤ length fs))
unfolding put
put-none_iff key value fs = elim (Option-cases (replace key (cut_value value) fs)) [
  | inl e ↦ ground (arith, replace-none key (cut_value value) fs e)
  | inr (r, e) ↦ ground (arith, lookup-none key (cut_value value) fs)
]
