-- ===== src/Cpp/Request/Made.antt =====
-- What the constructor of the class Request leaves in an object, and what its methods keep.
use fossil_network.Base.{
  ℕ, ◌≡◌, ◌⊎◌, refl, ap, sym, ◌∙◌, subst, inl, inr, arith, Option, some, take, Option-cases,
  Bool-cases, leb,
}
use fossil_network.Cpp.Request.{constructed, set_header, set_body, get, post, put, del, patch, head}
use fossil_network.Cstr.{Bytes, IsText, codes, c_string}
use fossil_network.Cstr.Copy.{c_string-IsText, c_string_of_text}
use fossil_network.Request.{
  Request, zero_request, request_set_header, put_header, set_header_at, find_header, valid_methods,
}
use fossil_network.Request.Body.{set_body_lem}
use fossil_network.Request.Build.{OneOf, IsInitial, request_init_lem}
use fossil_network.Request.Table.{put_header-IsValid}
use fossil_network.Request.Valid.{RequestIsValid}

-- The constructor of the class Request: for one of the six known methods the object holds a well-
-- formed request with that method, the URL cut to 511 bytes, type text/plain, no body and no
-- headers. For every other method the constructor fails in silence, and the object holds the
-- struct that is all zeros.
pub constructed_lem :
    (method url : Bytes)
    → (OneOf (c_string method) valid_methods
        × IsInitial (constructed method url) (c_string method) (c_string url))
      ⊎ ((¬ OneOf (c_string method) valid_methods) × (constructed method url ≡ zero_request))
unfolding constructed
constructed_lem method url =
    elim (request_init_lem zero_request (c_string method) (c_string url) (c_string-IsText method)
      (c_string-IsText url)) [
        | inl (k, (r, e, i)) ↦ inl (k, rw e i)
        | inr (k, e) ↦ inr (k, rw e refl)
      ]

-- The class's own functions for the six methods
pub data Factory : Type 0 where
  gets posts puts dels patches heads : Factory

abbrev pub made : Factory → Bytes → Request
made gets = get
made posts = post
made puts = put
made dels = del
made patches = patch
made heads = head

abbrev pub name : Factory → Bytes
name gets = codes "get"
name posts = codes "post"
name puts = codes "put"
name dels = codes "delete"
name patches = codes "patch"
name heads = codes "head"

initial :
    (method url : Bytes)
    → IsText method
    → OneOf method valid_methods
    → IsInitial (constructed method url) method (c_string url)
initial method url t k =
    let same = c_string_of_text method t in
    elim (constructed_lem method url) [
      | inl (_, i) ↦ subst (λ m. IsInitial (constructed method url) m (c_string url)) same i
      | inr (other, _) ↦ absurd (other (subst (λ m. OneOf m valid_methods) (sym same) k))
    ]

made-IsInitial : (f : Factory) (url : Bytes) → IsInitial (made f url) (name f) (c_string url)
unfolding get post put del patch head
made-IsInitial gets url = initial (codes "get") url (omega arith) (inl refl)
made-IsInitial posts url = initial (codes "post") url (omega arith) (inr (inl refl))
made-IsInitial puts url = initial (codes "put") url (omega arith) (inr (inr (inl refl)))
made-IsInitial dels url = initial (codes "delete") url (omega arith) (inr (inr (inr (inl refl))))
made-IsInitial patches url =
    initial (codes "patch") url (omega arith) (inr (inr (inr (inr (inl refl)))))
made-IsInitial heads url =
    initial (codes "head") url (omega arith) (inr (inr (inr (inr (inr (inl refl))))))

-- An object from one of these functions, and any sequence of method calls on it, failing ones
-- included.
pub data Reaches (f : Factory) (url : Bytes) : Request → Type 0 where
  makes : Reaches f url (made f url)
  sets_header :
      {req : Request} (key value : Bytes)
      → Reaches f url req
      → Reaches f url (set_header key value req).1
  sets_body :
      {req : Request} (body : Option Bytes) (size : ℕ) (content_type : Bytes)
      → Reaches f url req
      → Reaches f url (set_body body size content_type req).1

pub record Keeps (f : Factory) (url : Bytes) (req : Request) : Type 0 where
  pub valid : RequestIsValid req
  pub method_is : c_string req.method ≡ name f
  pub url_is : c_string req.url ≡ take 511 (c_string url)

put_header-names :
    (req : Request) (key value : Bytes)
    → ((put_header req key value).1.method ≡ req.method)
      × ((put_header req key value).1.url ≡ req.url)
unfolding put_header set_header_at
put_header-names req key value =
    elim (Option-cases (find_header req.headers req.header_count key)) [
      | inl e ↦ elim (Bool-cases (leb 32 req.header_count)) [
        | inl full ↦ rw (e, full) (refl, refl)
        | inr room ↦ rw (e, room) (refl, refl)
      ]
      | inr (i, e) ↦ rw e (refl, refl)
    ]

Keeps-set_header :
    {f : Factory} {url : Bytes} (req : Request) (key value : Bytes)
    → Keeps f url req
    → Keeps f url (set_header key value req).1
unfolding set_header request_set_header
Keeps-set_header req key value k =
    let (m, u) = put_header-names req (c_string key) (c_string value) in
    record {
      valid =
          put_header-IsValid req (c_string key) (c_string value) k.valid (c_string-IsText key)
            (c_string-IsText value);
      method_is = ap c_string m ∙ k.method_is;
      url_is = ap c_string u ∙ k.url_is;
    }

Keeps-set_body :
    {f : Factory} {url : Bytes} (req : Request) (body : Option Bytes) (size : ℕ)
    (content_type : Bytes)
    → Keeps f url req
    → Keeps f url (set_body body size content_type req).1
unfolding set_body
Keeps-set_body req body size content_type k =
    elim (set_body_lem req body size (some (c_string content_type)) k.valid) [
      | inl (_, (r, e, b)) ↦ rw e (record {
        valid = b.valid;
        method_is = ap (λ (x : Request). c_string x.method) b.rest ∙ k.method_is;
        url_is = ap (λ (x : Request). c_string x.url) b.rest ∙ k.url_is;
      })
      | inr (_, e) ↦ rw e k
    ]

-- However set_header and set_body are called on it, an object of the class Request that one of
-- get, post, put, del, patch and head made for a URL holds a well-formed request with that
-- function's method and that URL, cut to 511 bytes.
pub Reaches-Keeps :
    {f : Factory} {url : Bytes} {req : Request} → Reaches f url req → Keeps f url req
Reaches-Keeps {f} {url} makes =
    let i = made-IsInitial f url in
    record { valid = i.valid; method_is = i.method_is; url_is = i.url_is }
Reaches-Keeps (sets_header key value before) = Keeps-set_header _ key value (Reaches-Keeps before)
Reaches-Keeps (sets_body body size content_type before) =
    Keeps-set_body _ body size content_type (Reaches-Keeps before)
