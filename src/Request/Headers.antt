-- ===== src/Request/Headers.antt =====
-- fossil_net_request_set_header as its callers see it, and the two calls that end the life of a
-- request and of a response.
use native.Mathlib.Numerals.{add-one}
use fossil_network.Base.{
  ℕ, zero, suc, ◌+◌, ◌≡◌, ◌≢◌, ◌≤◌, ◌<◌, ◌⊎◌, refl, sym, ap, inl, inr, arith, List, [], ◌∷◌, ◌++◌,
  Option, none, some, if◌then◌else◌, lt→leb-false, ℤ, success, failure, length, All,
}
use fossil_network.Cstr.{Bytes, c_string, IsText, str_eq}
use fossil_network.Cstr.Copy.{str_eq_iff}
use fossil_network.Request.{Header, Request, find_header, put_header, set_header_at}
use fossil_network.Request.Fields.{
  Fields, lookup, put, put-none_iff, lookup-put, cut_value, cut_key,
}
use fossil_network.Request.Table.{
  request_fields, Follows, put_header_refines, length-entries, added-entries,
}
use fossil_network.Request.Valid.{HeaderIsValid, RequestIsValid}

-- The result of a call that the specification of the fields decides.
Follows-cases :
    (spec : Option Fields) {old new : Fields} {code : ℤ}
    → Follows spec old code new
    → ((code ≡ success) × (spec ≡ some new)) ⊎ ((code ≡ failure) × (spec ≡ none) × (new ≡ old))
Follows-cases none (c, e) = inr (c, refl, e)
Follows-cases (some fs) (c, e) = inl (c, ap some (sym e))

-- A header whose name is shorter than 64 bytes. The call returns 0 unless the name is new and 32
-- headers are set; then the name has the new value, cut to 255 bytes, and every other name has the
-- value it had. Where it returns -1 the request's fields are unchanged.
pub put_header-lookup :
    (req : Request) (key value j : Bytes)
    → RequestIsValid req
    → IsText key
    → IsText value
    → length key ≤ 63
    → (((put_header req key value).0 ≡ success)
        × (lookup j (request_fields (put_header req key value).1)
            ≡ (if str_eq key j then some (cut_value value) else lookup j (request_fields req))))
      ⊎ (((put_header req key value).0 ≡ failure)
          × (lookup key (request_fields req) ≡ none)
          × (req.header_count ≡ 32)
          × (request_fields (put_header req key value).1 ≡ request_fields req))
put_header-lookup req key value j v s t short =
    elim (Follows-cases (put key value (request_fields req))
      (put_header_refines req key value v s t).0) [
        | inl (c, e) ↦ inl (c, lookup-put key value j (request_fields req) short e)
        | inr (c, e, same) ↦
            let full = (put-none_iff key value (request_fields req)).0 e in
            inr (
              c,
              full.0,
              omega (
                arith,
                full.1,
                length-entries req.headers req.header_count
                    (omega (arith, v.table.table_size, v.table.table_count)),
                v.table.table_count,
              ),
              same,
            )
      ]

long_key_not_found :
    (hs : List Header) (n : ℕ) (key : Bytes)
    → All HeaderIsValid hs
    → 64 ≤ length key
    → find_header hs n key ≡ none
unfolding find_header
long_key_not_found hs zero key v h = refl
long_key_not_found [] (suc n) key v h = refl
long_key_not_found (x ∷ hs) (suc n) key (v, vs) h =
    let other : c_string x.key ≢ key =
      λ e. omega (arith, v.key_array.terminated, v.key_array.size, ap length e) in
    ground (arith, str_eq_iff (c_string x.key) key, other, long_key_not_found hs n key vs h)

-- A name of 64 bytes or more is never found again: while there is room every call adds one more
-- header under the same cut name, whatever headers are set.
pub put_header-long_key :
    (req : Request) (key value : Bytes)
    → RequestIsValid req
    → IsText key
    → IsText value
    → 64 ≤ length key
    → req.header_count < 32
    → ((put_header req key value).0 ≡ success)
      × ((put_header req key value).1.header_count ≡ req.header_count + 1)
      × (request_fields (put_header req key value).1
          ≡ request_fields req ++ (cut_key key, cut_value value) ∷ [])
put_header-long_key req key value v s t long room =
    let absent = long_key_not_found req.headers req.header_count key v.table.table_headers long in
    let added =
      added-entries req.headers req.header_count key value s t v.table.table_headers
        (omega (arith, v.table.table_size)) in
    unfold put_header in
    rw (absent, set_header_at, lt→leb-false 32 req.header_count room)
      (refl, refl, rw (add-one req.header_count) added)
