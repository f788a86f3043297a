-- ===== src/Request/Body.antt =====
-- fossil_net_request_set_body, _free, fossil_net_response_get_header and _free.
use fossil_network.Base.{
  ℕ, zero, suc, ◌-◌, ◌≡◌, ◌≤◌, ◌<◌, ◌⊎◌, refl, sym, ap, ◌∙◌, inl, inr, arith, List, [], ◌∷◌, Option,
  none, some, Option-cases, success, failure, length, take, drop, get_or, to_list, All,
  take_of_length,
}
use fossil_network.Cstr.{Bytes, c_string, IsText, copy_string, safe_copy}
use fossil_network.Cstr.Copy.{
  c_string-copy_string, c_string-IsText, length-copy_string, drop-copy_string,
}
use fossil_network.Request.{
  Header, Request, Response, find_header, validate_content_type, valid_types, request_set_body,
  response_free, response_get_header, get_value,
}
use fossil_network.Request.Build.{OneOf, validate_in_iff, validate_in-failure, OneOf-cases}
use fossil_network.Request.Fields.{lookup}
use fossil_network.Request.Table.{entries}
use fossil_network.Request.Valid.{RequestIsValid, IsArray-copy_string}

type_short : (m : Bytes) → OneOf m valid_types → (length m ≤ 63) × IsText m
type_short m (inl e) = rw e (omega arith, omega arith)
type_short m (inr (inl e)) = rw e (omega arith, omega arith)
type_short m (inr (inr (inl e))) = rw e (omega arith, omega arith)
type_short m (inr (inr (inr (inl e)))) = rw e (omega arith, omega arith)
type_short m (inr (inr (inr (inr e)))) = absurd e

copied_type :
    (dst type : Bytes)
    → length dst ≡ 64
    → OneOf type valid_types
    → c_string (copy_string dst type 64) ≡ type
copied_type dst type e k =
    c_string-copy_string dst type 64 (omega arith) (omega arith) (type_short type k).1
    ∙ take_of_length 63 type (type_short type k).0

set_type-IsValid :
    (req : Request) (body : Option Bytes) (size : ℕ) (type : Bytes)
    → RequestIsValid req
    → OneOf type valid_types
    → RequestIsValid (record req {
      body = body;
      body_size = size;
      content_type = copy_string req.content_type type 64;
    })
set_type-IsValid req body size type v k = record {
  method_array = v.method_array;
  url_array = v.url_array;
  type_array =
      IsArray-copy_string 64 req.content_type type (omega arith) v.type_array.size
        (type_short type k).1;
  method_known = v.method_known;
  type_known =
      ap (λ m. validate_content_type (some m)) (copied_type _ type v.type_array.size k)
      ∙ unfold validate_content_type in (validate_in_iff type valid_types).1 k;
  table = v.table;
}

-- What setting a body leaves: the body and size that were given, and the type if one was given.
pub record HasBody (new old : Request) (body : Option Bytes) (size : ℕ) (type : Option Bytes)
    : Type 0 where
  pub valid : RequestIsValid new
  pub body_is : new.body ≡ body
  pub body_size_is : new.body_size ≡ size
  pub type_is : c_string new.content_type ≡ get_or type (c_string old.content_type)
  pub rest : new ≡ record old { body = body; body_size = size; content_type = new.content_type }

-- Setting a body on a well-formed request succeeds exactly if no type is given or the type is one
-- of the four known ones. It then stores the body, the size and the type, keeps the old type where
-- none is given, and keeps the request well formed; otherwise it returns -1 and changes nothing.
pub set_body_lem :
    (req : Request) (body : Option Bytes) (size : ℕ) (type : Option Bytes)
    → RequestIsValid req
    → (All (λ t. OneOf t valid_types) (to_list type)
        × ((r : Request) × (request_set_body (some req) body size type ≡ (success, some r))
            × HasBody r req body size type))
      ⊎ ((¬ All (λ t. OneOf t valid_types) (to_list type))
          × (request_set_body (some req) body size type ≡ (failure, some req)))
set_body_lem req body size none v = inl (
  tt,
  (
    record req { body = body; body_size = size },
    unfold request_set_body in refl,
    record {
      valid = record {
        method_array = v.method_array;
        url_array = v.url_array;
        type_array = v.type_array;
        method_known = v.method_known;
        type_known = v.type_known;
        table = v.table;
      };
      body_is = refl;
      body_size_is = refl;
      type_is = refl;
      rest = refl;
    },
  ),
)
set_body_lem req body size (some type) v = elim (OneOf-cases type valid_types) [
  | inl k ↦ inl (
    (k, tt),
    (
      record req {
        body = body;
        body_size = size;
        content_type = copy_string req.content_type type 64;
      },
      unfold request_set_body validate_content_type in rw ((validate_in_iff type valid_types).1 k),
      record {
        valid = set_type-IsValid req body size type v k;
        body_is = refl;
        body_size_is = refl;
        type_is = copied_type req.content_type type v.type_array.size k;
        rest = refl;
      },
    ),
  )
  | inr k ↦ inr (
    λ h. k h.0,
    unfold request_set_body validate_content_type in rw (validate_in-failure type valid_types k),
  )
]

-- The header that the search finds is the one that the specification's lookup finds.
pub find_header-lookup :
    (hs : List Header) (n : ℕ) (key : Bytes)
    → (elim (find_header hs n key) [ none ↦ none | some i ↦ some (c_string (get_value hs i)) ])
      ≡ lookup key (entries hs n)
unfolding find_header entries lookup get_value
find_header-lookup hs zero key = refl
find_header-lookup [] (suc n) key = refl
find_header-lookup (x ∷ hs) (suc n) key = ground (arith, find_header-lookup hs n key)

-- Reading a header of a response: the first header of that name gives its value, cut to the
-- buffer's size less one, and 0; with no such header the result is -1 and the buffer is untouched.
-- No byte of the buffer at or behind `size` is written.
pub get_header_lem :
    (res : Response) (key buffer : Bytes) (size : ℕ)
    → 0 < size
    → size ≤ length buffer
    → ((v out : Bytes) × (lookup key (entries res.headers res.header_count) ≡ some v)
        × (response_get_header (some res) (some key) (some buffer) size ≡ (success, some out))
        × (c_string out ≡ take (size - 1) v)
        × (length out ≡ length buffer)
        × (drop size out ≡ drop size buffer))
      ⊎ ((lookup key (entries res.headers res.header_count) ≡ none)
          × (response_get_header (some res) (some key) (some buffer) size ≡ (failure, some buffer)))
get_header_lem res key buffer size p q =
    elim (Option-cases (find_header res.headers res.header_count key)) [
      | inl e ↦ inr (
        sym (find_header-lookup res.headers res.header_count key) ∙ rw e,
        unfold response_get_header in rw e,
      )
      | inr (i, e) ↦
          let v : Bytes = c_string (get_value res.headers i) in
          let t : IsText v = c_string-IsText (get_value res.headers i) in
          inl (
            v,
            copy_string buffer v size,
            sym (find_header-lookup res.headers res.header_count key) ∙ rw e,
            unfold response_get_header safe_copy in rw e (ground arith),
            c_string-copy_string buffer v size p q t,
            length-copy_string buffer v size p q,
            drop-copy_string buffer v size p q,
          )
    ]

-- Freeing a response hands its body to free() once: a second call has no block to free and changes
-- nothing more.
pub response_free_once :
    (res : Response)
    → ((response_free (some res)).1 ≡ res.body)
      × ((response_free (response_free (some res)).0).1 ≡ none)
      × ((response_free (response_free (some res)).0).0 ≡ (response_free (some res)).0)
unfolding response_free
response_free_once res = (refl, refl, refl)
