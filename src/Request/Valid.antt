-- ===== src/Request/Valid.antt =====
-- Well-formed requests and responses: every array has its declared size and holds a NUL, the header
-- count is at most 32, and the method and content type are among the known ones.
use fossil_network.Base.{
  ℕ, zero, suc, ◌≡◌, ◌≤◌, ◌<◌, refl, arith, List, [], ◌∷◌, some, success, length, All,
  length-replicate,
}
use fossil_network.Cstr.{Bytes, c_string, IsTerminated, IsText, zeroed, copy_string}
use fossil_network.Cstr.Copy.{IsTerminated-copy_string, length-copy_string}
use fossil_network.Request.{
  Header, Request, validate_method, validate_content_type, write_value, write_header,
}

-- A char array of `n` bytes that holds a string.
pub record IsArray (n : ℕ) (m : Bytes) : Type 0 where
  pub size : length m ≡ n
  pub terminated : IsTerminated m

pub record HeaderIsValid (h : Header) : Type 0 where
  pub key_array : IsArray 64 h.key
  pub value_array : IsArray 256 h.value

-- A table of 32 headers of which `count` are in use.
pub record TableIsValid (headers : List Header) (count : ℕ) : Type 0 where
  pub table_size : length headers ≡ 32
  pub table_count : count ≤ 32
  pub table_headers : All HeaderIsValid headers

pub record RequestIsValid (req : Request) : Type 0 where
  pub method_array : IsArray 16 req.method
  pub url_array : IsArray 512 req.url
  pub type_array : IsArray 64 req.content_type
  pub method_known : validate_method (some (c_string req.method)) ≡ success
  pub type_known : validate_content_type (some (c_string req.content_type)) ≡ success
  pub table : TableIsValid req.headers req.header_count

pub IsArray-copy_string :
    (n : ℕ) (dst src : Bytes)
    → 0 < n
    → length dst ≡ n
    → IsText src
    → IsArray n (copy_string dst src n)
IsArray-copy_string n dst src p q t = record {
  size = omega (arith, length-copy_string dst src n p (omega arith));
  terminated = IsTerminated-copy_string dst src n p (omega arith) t;
}

pub write_value-IsValid :
    (hs : List Header) (i : ℕ) (value : Bytes)
    → IsText value
    → All HeaderIsValid hs
    → All HeaderIsValid (write_value hs i value)
unfolding write_value
write_value-IsValid [] i value t h = tt
write_value-IsValid (x ∷ hs) zero value t (v, h) = (
  record {
    key_array = v.key_array;
    value_array = IsArray-copy_string 256 x.value value (omega arith) v.value_array.size t;
  },
  h,
)
write_value-IsValid (x ∷ hs) (suc i) value t (v, h) = (v, write_value-IsValid hs i value t h)

pub write_header-IsValid :
    (hs : List Header) (i : ℕ) (key value : Bytes)
    → IsText key
    → IsText value
    → All HeaderIsValid hs
    → All HeaderIsValid (write_header hs i key value)
unfolding write_header
write_header-IsValid [] i key value s t h = tt
write_header-IsValid (x ∷ hs) zero key value s t (v, h) = (
  record {
    key_array = IsArray-copy_string 64 x.key key (omega arith) v.key_array.size s;
    value_array = IsArray-copy_string 256 x.value value (omega arith) v.value_array.size t;
  },
  h,
)
write_header-IsValid (x ∷ hs) (suc i) key value s t (v, h) =
    (v, write_header-IsValid hs i key value s t h)

pub length-write_value :
    (hs : List Header) (i : ℕ) (value : Bytes) → length (write_value hs i value) ≡ length hs
unfolding write_value
length-write_value [] i value = refl
length-write_value (x ∷ hs) zero value = refl
length-write_value (x ∷ hs) (suc i) value = omega (arith, length-write_value hs i value)

pub length-write_header :
    (hs : List Header) (i : ℕ) (key value : Bytes)
    → length (write_header hs i key value) ≡ length hs
unfolding write_header
length-write_header [] i key value = refl
length-write_header (x ∷ hs) zero key value = refl
length-write_header (x ∷ hs) (suc i) key value = omega (arith, length-write_header hs i key value)

pub zeroed-IsArray : (n : ℕ) → IsArray (suc n) (zeroed (suc n))
unfolding c_string
zeroed-IsArray n = record { size = length-replicate (suc n) 0; terminated = omega arith }
