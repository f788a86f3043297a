-- ===== src/Request/Table.antt =====
-- fossil_net_request_set_header refines the specification of `Request.Fields`.
use native.Mathlib.Numerals.{add-one}
use fossil_network.Base.{
  ℕ, zero, suc, ◌≡◌, ◌≤◌, ◌<◌, refl, ap, inl, inr, arith, List, [], ◌∷◌, ◌++◌, Option, none, some,
  Option-cases, ℤ, success, failure, length, All,
}
use fossil_network.Cstr.{Bytes, c_string, IsText}
use fossil_network.Cstr.Copy.{c_string-copy_string}
use fossil_network.Request.{Header, Request, find_header, write_value, write_header, put_header}
use fossil_network.Request.Fields.{Fields, replace, put, cut_value, cut_key}
use fossil_network.Request.Valid.{
  HeaderIsValid, RequestIsValid, write_value-IsValid, write_header-IsValid, length-write_value,
  length-write_header,
}

-- The strings of the first `n` headers.
unfoldable pub entries : List Header → ℕ → Fields
entries hs zero = []
entries [] (suc n) = []
entries (h ∷ hs) (suc n) = (c_string h.key, c_string h.value) ∷ entries hs n

abbrev pub request_fields : Request → Fields
request_fields req = entries req.headers req.header_count

pub length-entries : (hs : List Header) (n : ℕ) → n ≤ length hs → length (entries hs n) ≡ n
unfolding entries
length-entries hs zero h = refl
length-entries [] (suc n) h = absurd (omega arith)
length-entries (x ∷ hs) (suc n) h = omega (arith, length-entries hs n)

found-replace :
    (hs : List Header) (n i : ℕ) (key value : Bytes)
    → IsText value
    → All HeaderIsValid hs
    → find_header hs n key ≡ some i
    → replace key (cut_value value) (entries hs n) ≡ some (entries (write_value hs i value) n)
unfolding entries find_header write_value replace
found-replace hs zero i key value t v h = absurd (cc)
found-replace [] (suc n) i key value t v h = absurd (cc)
found-replace (x ∷ hs) (suc n) zero key value t (v, vs) h = ground (
  arith,
  c_string-copy_string x.value value 256 (omega arith) (omega (arith, v.value_array.size)) t,
)
found-replace (x ∷ hs) (suc n) (suc i) key value t (v, vs) h =
    ground (arith, found-replace hs n i key value t vs)

absent-replace :
    (hs : List Header) (n : ℕ) (key value : Bytes)
    → find_header hs n key ≡ none
    → replace key value (entries hs n) ≡ none
unfolding entries find_header replace
absent-replace hs zero key value h = refl
absent-replace [] (suc n) key value h = refl
absent-replace (x ∷ hs) (suc n) key value h = ground (arith, absent-replace hs n key value)

pub added-entries :
    (hs : List Header) (n : ℕ) (key value : Bytes)
    → IsText key
    → IsText value
    → All HeaderIsValid hs
    → n < length hs
    → entries (write_header hs n key value) (suc n)
      ≡ entries hs n ++ (cut_key key, cut_value value) ∷ []
unfolding entries write_header
added-entries [] n key value s t v h = absurd (omega arith)
added-entries (x ∷ hs) zero key value s t (v, vs) h = rw (
  c_string-copy_string x.key key 64 (omega arith) (omega (arith, v.key_array.size)) s,
  c_string-copy_string x.value value 256 (omega arith) (omega (arith, v.value_array.size)) t,
)
added-entries (x ∷ hs) (suc n) key value s t (v, vs) h =
    ap (◌∷◌ (c_string x.key, c_string x.value)) (added-entries hs n key value s t vs (omega arith))

-- What a result of the specification says of the code's result.
abbrev pub Follows : Option Fields → Fields → ℤ → Fields → Type 0
Follows (some spec) old code new = (code ≡ success) × (new ≡ spec)
Follows none old code new = (code ≡ failure) × (new ≡ old)

-- A request with other headers.
abbrev pub with_table : Request → Request → Request
with_table req new = record req { headers = new.headers; header_count = new.header_count }

put_header-new :
    (req : Request) (key value : Bytes)
    → RequestIsValid req
    → IsText key
    → IsText value
    → find_header req.headers req.header_count key ≡ none
    → Follows
        (put key value (request_fields req))
        (request_fields req)
        (put_header req key value).0
        (request_fields (put_header req key value).1)
unfolding put_header put
put_header-new req key value v s t e =
    rw (e, absent-replace req.headers req.header_count key (cut_value value) e)
      (ground (
        arith,
        length-entries req.headers req.header_count,
        added-entries req.headers req.header_count key value s t v.table.table_headers,
        add-one req.header_count,
      ))

put_header-old :
    (req : Request) (key value : Bytes) (i : ℕ)
    → RequestIsValid req
    → IsText value
    → find_header req.headers req.header_count key ≡ some i
    → Follows
        (put key value (request_fields req))
        (request_fields req)
        (put_header req key value).0
        (request_fields (put_header req key value).1)
unfolding put_header put
put_header-old req key value i v t e =
    rw (e, found-replace req.headers req.header_count i key value t v.table.table_headers e)
      (refl, refl)

-- On a well-formed request, setting a header does to the request's fields what the specification
-- says and returns 0 exactly where the specification gives a list; it returns -1 and leaves them
-- where the list is full. No other part of the request changes.
pub put_header_refines :
    (req : Request) (key value : Bytes)
    → RequestIsValid req
    → IsText key
    → IsText value
    → Follows
        (put key value (request_fields req))
        (request_fields req)
        (put_header req key value).0
        (request_fields (put_header req key value).1)
      × ((put_header req key value).1 ≡ with_table req (put_header req key value).1)
put_header_refines req key value v s t = (
  elim (Option-cases (find_header req.headers req.header_count key)) [
    | inl e ↦ put_header-new req key value v s t e
    | inr (i, e) ↦ put_header-old req key value i v t e
  ],
  unfold put_header in ground arith,
)

-- Setting a header keeps a request well formed.
pub put_header-IsValid :
    (req : Request) (key value : Bytes)
    → RequestIsValid req
    → IsText key
    → IsText value
    → RequestIsValid (put_header req key value).1
unfolding put_header
put_header-IsValid req key value v s t =
    elim (Option-cases (find_header req.headers req.header_count key)) [
      | inl e ↦ rw e (
          ground (
            arith,
            length-write_header req.headers req.header_count key value,
            write_header-IsValid req.headers req.header_count key value s t v.table.table_headers,
          ))
      | inr (i, e) ↦ rw e (
          ground (
            arith,
            length-write_value req.headers i value,
            write_value-IsValid req.headers i value t v.table.table_headers,
          ))
    ]
