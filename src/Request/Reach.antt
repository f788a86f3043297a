-- ===== src/Request/Reach.antt =====
-- The life of a request, as a relation: it is initialised, and then any sequence of header and body
-- calls is made on it, failing ones included.
use fossil_network.Base.{ℕ, ◌≡◌, refl, subst, inl, inr, Option, some, ℤ, success}
use fossil_network.Cstr.{Bytes, IsText}
use fossil_network.Request.{Request, request_set_body, request_init, request_set_header}
use fossil_network.Request.Body.{set_body_lem}
use fossil_network.Request.Build.{request_init_lem}
use fossil_network.Request.Table.{put_header-IsValid}
use fossil_network.Request.Valid.{RequestIsValid}

pub data Reaches : Request → Type 0 where
  inits :
      {r : Request} (req : Request) (method url : Bytes)
      → IsText method
      → IsText url
      → request_init (some req) (some method) (some url) ≡ (success, some r)
      → Reaches r
  sets_header :
      {req r : Request} (key value : Bytes) (code : ℤ)
      → Reaches req
      → IsText key
      → IsText value
      → request_set_header (some req) (some key) (some value) ≡ (code, some r)
      → Reaches r
  sets_body :
      {req r : Request} (body type : Option Bytes) (size : ℕ) (code : ℤ)
      → Reaches req
      → request_set_body (some req) body size type ≡ (code, some r)
      → Reaches r

-- Two descriptions of one result name the same request.
same_request :
    (res : ℤ × Option Request) {c d : ℤ} {r r' : Request}
    → res ≡ (c, some r)
    → res ≡ (d, some r')
    → r ≡ r'
same_request res p q = cc

init-IsValid :
    (req r : Request) (method url : Bytes)
    → IsText method
    → IsText url
    → request_init (some req) (some method) (some url) ≡ (success, some r)
    → RequestIsValid r
init-IsValid req r method url s t h = elim (request_init_lem req method url s t) [
  | inl (k, (r', e, i)) ↦ subst RequestIsValid (same_request _ e h) i.valid
  | inr (k, e) ↦ cc
]

set_header-IsValid :
    (req r : Request) (key value : Bytes) (code : ℤ)
    → RequestIsValid req
    → IsText key
    → IsText value
    → request_set_header (some req) (some key) (some value) ≡ (code, some r)
    → RequestIsValid r
unfolding request_set_header
set_header-IsValid req r key value code v s t h =
    subst RequestIsValid (same_request _ refl h) (put_header-IsValid req key value v s t)

set_body-IsValid :
    (req r : Request) (body type : Option Bytes) (size : ℕ) (code : ℤ)
    → RequestIsValid req
    → request_set_body (some req) body size type ≡ (code, some r)
    → RequestIsValid r
set_body-IsValid req r body type size code v h = elim (set_body_lem req body size type v) [
  | inl (k, (r', e, b)) ↦ subst RequestIsValid (same_request _ e h) b.valid
  | inr (k, e) ↦ subst RequestIsValid (same_request _ e h) v
]

-- Every request that the calls can build is well formed: its strings end inside their arrays, at
-- most 32 headers are set, and the method and content type are known ones.
pub Reaches-IsValid : {r : Request} → Reaches r → RequestIsValid r
Reaches-IsValid (inits req method url s t h) = init-IsValid req _ method url s t h
Reaches-IsValid (sets_header key value code before s t h) =
    set_header-IsValid _ _ key value code (Reaches-IsValid before) s t h
Reaches-IsValid (sets_body body type size code before h) =
    set_body-IsValid _ _ body type size code (Reaches-IsValid before) h
