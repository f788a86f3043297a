-- ===== src/Request/Build.antt =====
-- fossil_net_request_init, _set_header, _set_body, _free: what each leaves in the request, on every
-- branch.
use fossil_network.Base.{
  ℕ, zero, suc, ◌-◌, ◌≡◌, ◌≤◌, ◌<◌, ◌↔◌, ◌⊎◌, refl, ap, ◌∙◌, inl, inr, arith, List, [], ◌∷◌, none,
  some, Bool-cases, success, failure, length, take, All, replicate, length-replicate,
  take_of_length,
}
use fossil_network.Cstr.{Bytes, codes, c_string, IsText, str_eq, copy_string, zeroed}
use fossil_network.Cstr.Copy.{c_string-copy_string, str_eq_iff}
use fossil_network.Request.{
  Request, validate_in, validate_method, validate_content_type, valid_methods, zero_header,
  initial_request, request_init,
}
use fossil_network.Request.Table.{entries, request_fields}
use fossil_network.Request.Valid.{
  IsArray, HeaderIsValid, RequestIsValid, IsArray-copy_string, zeroed-IsArray,
}

abbrev pub OneOf : Bytes → List Bytes → Type 0
OneOf x [] = ⊥
OneOf x (v ∷ vs) = (x ≡ v) ⊎ OneOf x vs

-- A name is accepted exactly when it is in the list, letter for letter.
pub validate_in_iff : (x : Bytes) (vs : List Bytes) → (validate_in x vs ≡ success) ↔ OneOf x vs
unfolding validate_in
validate_in_iff x [] = (λ h. cc, λ h. absurd h)
validate_in_iff x (v ∷ vs) = ground (arith, str_eq_iff x v, validate_in_iff x vs)

pub validate_in-failure : (x : Bytes) (vs : List Bytes) → ¬ OneOf x vs → validate_in x vs ≡ failure
unfolding validate_in
validate_in-failure x [] h = refl
validate_in-failure x (v ∷ vs) h = ground (arith, str_eq_iff x v, validate_in-failure x vs)

-- Whether a name is in the list is decided.
pub OneOf-cases : (x : Bytes) (vs : List Bytes) → OneOf x vs ⊎ (¬ OneOf x vs)
OneOf-cases x [] = inr (λ h. h)
OneOf-cases x (v ∷ vs) = elim (Bool-cases (str_eq x v)) [
  | inl same ↦ inl (inl ((str_eq_iff x v).0 same))
  | inr other ↦ elim (OneOf-cases x vs) [
    | inl k ↦ inl (inr k)
    | inr k ↦ inr (ground (arith, str_eq_iff x v))
  ]
]

pub zero_headers_valid : (n : ℕ) → All HeaderIsValid (replicate n zero_header)
zero_headers_valid zero = tt
zero_headers_valid (suc n) = (
  record { key_array = zeroed-IsArray 63; value_array = zeroed-IsArray 255 },
  zero_headers_valid n,
)

-- A known method name is shorter than its array.
method_short : (m : Bytes) → OneOf m valid_methods → length m ≤ 15
method_short m (inl e) = rw e (omega arith)
method_short m (inr (inl e)) = rw e (omega arith)
method_short m (inr (inr (inl e))) = rw e (omega arith)
method_short m (inr (inr (inr (inl e)))) = rw e (omega arith)
method_short m (inr (inr (inr (inr (inl e))))) = rw e (omega arith)
method_short m (inr (inr (inr (inr (inr (inl e)))))) = rw e (omega arith)
method_short m (inr (inr (inr (inr (inr (inr e)))))) = absurd e

-- The string of an array of zeros after a copy.
c_string-fresh :
    (n : ℕ) (src : Bytes)
    → 0 < n
    → IsText src
    → c_string (copy_string (zeroed n) src n) ≡ take (n - 1) src
c_string-fresh n src p t =
    c_string-copy_string (zeroed n) src n p (omega (arith, length-replicate {0} {A = ℕ} n 0)) t

IsArray-fresh :
    (n : ℕ) (src : Bytes) → 0 < n → IsText src → IsArray n (copy_string (zeroed n) src n)
IsArray-fresh n src p t = IsArray-copy_string n (zeroed n) src p (length-replicate n 0) t

default_type-IsText : IsText (codes "text/plain")
default_type-IsText = omega arith

initial-method :
    (method url : Bytes)
    → OneOf method valid_methods
    → IsText method
    → c_string (initial_request method url).method ≡ method
unfolding initial_request
initial-method method url k s =
    c_string-fresh 16 method (omega arith) s ∙ take_of_length 15 method (method_short method k)

initial-url :
    (method url : Bytes) → IsText url → c_string (initial_request method url).url ≡ take 511 url
unfolding initial_request
initial-url method url t = c_string-fresh 512 url (omega arith) t

initial-type :
    (method url : Bytes) → c_string (initial_request method url).content_type ≡ codes "text/plain"
unfolding initial_request
initial-type method url = c_string-fresh 64 (codes "text/plain") (omega arith) default_type-IsText

initial-fields : (method url : Bytes) → request_fields (initial_request method url) ≡ []
unfolding initial_request entries
initial-fields method url = refl

pub initial_request-IsValid :
    (method url : Bytes)
    → OneOf method valid_methods
    → IsText method
    → IsText url
    → RequestIsValid (initial_request method url)
unfolding initial_request
initial_request-IsValid method url k s t = record {
  method_array = IsArray-fresh 16 method (omega arith) s;
  url_array = IsArray-fresh 512 url (omega arith) t;
  type_array = IsArray-fresh 64 (codes "text/plain") (omega arith) default_type-IsText;
  method_known =
      ap (λ m. validate_method (some m)) (initial-method method url k s)
      ∙ unfold validate_method in (validate_in_iff method valid_methods).1 k;
  type_known =
      ap (λ m. validate_content_type (some m)) (initial-type method url)
      ∙ unfold validate_content_type str_eq in refl;
  table = record {
    table_size = length-replicate 32 zero_header;
    table_count = omega arith;
    table_headers = zero_headers_valid 32;
  };
}

-- What a request looks like right after a successful initialisation.
pub record IsInitial (req : Request) (method url : Bytes) : Type 0 where
  pub valid : RequestIsValid req
  pub method_is : c_string req.method ≡ method
  pub url_is : c_string req.url ≡ take 511 url
  pub type_is : c_string req.content_type ≡ codes "text/plain"
  pub body_is : req.body ≡ none
  pub body_size_is : req.body_size ≡ 0
  pub fields_are : request_fields req ≡ []

-- Initialisation succeeds exactly for the six known methods, and then leaves a well-formed request
-- with that method, the URL cut to 511 bytes, type text/plain, no body and no headers. For any
-- other method it returns -1 and the struct keeps its contents.
pub request_init_lem :
    (req : Request) (method url : Bytes)
    → IsText method
    → IsText url
    → (OneOf method valid_methods
        × ((r : Request) × (request_init (some req) (some method) (some url) ≡ (success, some r))
            × IsInitial r method url))
      ⊎ ((¬ OneOf method valid_methods)
          × (request_init (some req) (some method) (some url) ≡ (failure, some req)))
request_init_lem req method url s t = elim (OneOf-cases method valid_methods) [
  | inl k ↦ inl (
    k,
    (
      initial_request method url,
      unfold request_init validate_method in rw ((validate_in_iff method valid_methods).1 k),
      record {
        valid = initial_request-IsValid method url k s t;
        method_is = initial-method method url k s;
        url_is = initial-url method url t;
        type_is = initial-type method url;
        body_is = unfold initial_request in refl;
        body_size_is = unfold initial_request in refl;
        fields_are = initial-fields method url;
      },
    ),
  )
  | inr k ↦
      inr
        (k, unfold request_init validate_method in rw (validate_in-failure method valid_methods k))
]
