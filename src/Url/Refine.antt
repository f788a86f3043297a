-- ===== src/Url/Refine.antt =====
-- fossil__url_parse computes the parts of `Url.Spec`.
use fossil_network.Base.{
  ℕ, suc, ◌+◌, ◌≡◌, ◌≤◌, ◌<◌, refl, sym, ap, ◌∙◌, ap₂, inl, inr, [], ◌∷◌, some, arith, Option-cases,
  length, take, drop, set, length-drop,
}
use fossil_network.Cstr.{Bytes, codes, c_string, IsText, strcpy, copy_string}
use fossil_network.Cstr.Copy.{
  c_string-copy_string, c_string-append, c_string-IsText, length-c_string-le,
}
use fossil_network.Cstr.Cut.{
  before, from, strchr-some, strchr_absent, strchr_from, c_string-set, c_string-drop,
  drop-set_before,
}
use fossil_network.Cstr.Search.{strchr, strstr, strstr_fits}
use fossil_network.Url.{Url, take_path, take_port, parse_plain, parse_full, parse_at, parse_into}
use fossil_network.Url.Spec.{
  view, path_or_root, port_or, default_port, plain_parts, full_parts, url_parts,
}

c_string-strcpy : (dst src : Bytes) → IsText src → c_string (strcpy dst src) ≡ src
unfolding strcpy
c_string-strcpy dst src t = c_string-append src _ t

path_or_root_pos : (s : Bytes) → 0 < length s → path_or_root s ≡ take 1023 s
path_or_root_pos [] h = absurd (omega arith)
path_or_root_pos (c ∷ s) h = refl

module _ (m path : Bytes) (room : length path ≡ 1024) where
  pub take_path-path :
      c_string (take_path (strchr (c_string m) b'/') m path).0
      ≡ path_or_root (from b'/' (c_string m))
  unfolding take_path
  take_path-path = elim (Option-cases (strchr (c_string m) b'/')) [
    | inl e ↦
        rw (e, (strchr_absent (c_string m) b'/' e).1)
          (c_string-strcpy path (codes "/") (omega arith))
    | inr (p, e) ↦
        let (t, d, lt) = strchr-some (c_string m) b'/' p e in
        rw e (
          c_string-copy_string path _ 1024 (omega arith) (omega arith) (c_string-IsText (drop p m))
          ∙ ap (take 1023) (c_string-drop m p (omega arith) ∙ d)
          ∙ sym (
              path_or_root_pos (from b'/' (c_string m))
                (omega (arith, ap length d, length-drop {0} p (c_string m)))))
  ]

  pub take_path-rest :
      c_string (take_path (strchr (c_string m) b'/') m path).1 ≡ before b'/' (c_string m)
  unfolding take_path
  take_path-rest = elim (Option-cases (strchr (c_string m) b'/')) [
    | inl e ↦ rw (e, (strchr_absent (c_string m) b'/' e).0)
    | inr (p, e) ↦
        let (t, d, lt) = strchr-some (c_string m) b'/' p e in
        rw e (c_string-set m p (omega arith) (omega (arith, length-c_string-le m)) ∙ t)
  ]

module _ (m : Bytes) (other : ℕ) where
  pub take_port-port :
      (take_port (strchr (c_string m) b':') m other).0 ≡ port_or (from b':' (c_string m)) other
  unfolding take_port
  take_port-port = elim (Option-cases (strchr (c_string m) b':')) [
    | inl e ↦ rw (e, (strchr_absent (c_string m) b':' e).1)
    | inr (q, e) ↦
        let (t, d, lt) = strchr-some (c_string m) b':' q e in
        rw (
          e,
          strchr_from (c_string m) b':' q e,
          drop-set_before m (suc q) q 0 (omega arith),
          c_string-drop m (suc q) (omega arith),
        )
  ]

  pub take_port-rest :
      c_string (take_port (strchr (c_string m) b':') m other).1 ≡ before b':' (c_string m)
  unfolding take_port
  take_port-rest = elim (Option-cases (strchr (c_string m) b':')) [
    | inl e ↦ rw (e, (strchr_absent (c_string m) b':' e).0)
    | inr (q, e) ↦
        let (t, d, lt) = strchr-some (c_string m) b':' q e in
        rw e (c_string-set m q (omega arith) (omega (arith, length-c_string-le m)) ∙ t)
  ]

-- The arrays of a `fossil_url_t` have their declared sizes.
pub record UrlIsSized (u : Url) : Type 0 where
  pub scheme_size : length u.scheme ≡ 16
  pub host_size : length u.host ≡ 256
  pub path_size : length u.path ≡ 1024

parse_plain-parts :
    (temp : Bytes) (u : Url)
    → UrlIsSized u
    → view (parse_plain temp u) ≡ plain_parts (c_string temp)
unfolding parse_plain
parse_plain-parts temp u z =
    let host : Bytes = copy_string u.host (c_string temp) 256 in
    let cut : c_string host ≡ take 255 (c_string temp) =
      c_string-copy_string u.host (c_string temp) 256 (omega arith) (omega (arith, z.host_size))
        (c_string-IsText temp) in
    let split = take_path (strchr (c_string host) b'/') host u.path in
    let rest : c_string split.1 ≡ before b'/' (take 255 (c_string temp)) =
      take_path-rest host u.path z.path_size ∙ ap (before b'/') cut in
    λ i. record {
      scheme = c_string-strcpy u.scheme (codes "http") (omega arith) i;
      host = (take_port-rest split.1 80 ∙ ap (before b':') rest) i;
      port = (take_port-port split.1 80 ∙ ap (λ a. port_or (from b':' a) 80) rest) i;
      path = (take_path-path host u.path z.path_size ∙ ap (λ a. path_or_root (from b'/' a)) cut) i;
    }

parse_full-parts :
    (temp : Bytes) (e : ℕ) (u : Url)
    → UrlIsSized u
    → strstr (c_string temp) (codes "://") ≡ some e
    → view (parse_full temp e u)
      ≡ full_parts (take 15 (take e (c_string temp))) (drop (e + 3) (c_string temp))
unfolding parse_full
parse_full-parts temp e u z found =
    let fits : e + 3 ≤ length (c_string temp) = strstr_fits (c_string temp) (codes "://") e found in
    let temp1 : Bytes = set temp e 0 in
    let scheme_is : c_string (copy_string u.scheme (c_string temp1) 16)
        ≡ take 15 (take e (c_string temp)) =
      c_string-copy_string u.scheme (c_string temp1) 16 (omega arith) (omega (arith, z.scheme_size))
        (c_string-IsText temp1)
      ∙ ap (take 15) (c_string-set temp e (omega arith) (omega (arith, length-c_string-le temp))) in
    let rest : Bytes = drop (e + 3) temp1 in
    let rest_is : c_string rest ≡ drop (e + 3) (c_string temp) =
      ap c_string (drop-set_before temp (e + 3) e 0 (omega arith))
      ∙ c_string-drop temp (e + 3) fits in
    let split = take_path (strchr (c_string rest) b'/') rest u.path in
    let authority : c_string split.1 ≡ before b'/' (drop (e + 3) (c_string temp)) =
      take_path-rest rest u.path z.path_size ∙ ap (before b'/') rest_is in
    let other : ℕ = default_port (c_string (copy_string u.scheme (c_string temp1) 16)) in
    let last = take_port (strchr (c_string split.1) b':') split.1 other in
    λ i. record {
      scheme = scheme_is i;
      host =
          (c_string-copy_string u.host (c_string last.1) 256 (omega arith)
                (omega (arith, z.host_size)) (c_string-IsText last.1)
              ∙ ap (take 255) (take_port-rest split.1 other ∙ ap (before b':') authority))
            i;
      port =
          (take_port-port split.1 other
              ∙ ap₂ (λ a s. port_or (from b':' a) (default_port s)) authority scheme_is)
            i;
      path =
          (take_path-path rest u.path z.path_size ∙ ap (λ a. path_or_root (from b'/' a)) rest_is) i;
    }

parse_at-parts :
    (temp : Bytes) (u : Url)
    → UrlIsSized u
    → view (parse_at (strstr (c_string temp) (codes "://")) temp u) ≡ url_parts (c_string temp)
unfolding parse_at url_parts
parse_at-parts temp u z = elim (Option-cases (strstr (c_string temp) (codes "://"))) [
  | inl e ↦ rw e (parse_plain-parts temp u z)
  | inr (e, found) ↦ rw found (parse_full-parts temp e u z found)
]

-- Whatever the arrays held before, the parsed URL has the parts of the text, of which the first
-- 2047 bytes are read.
pub parse_into-parts :
    (stack url : Bytes) (u : Url)
    → length stack ≡ 2048
    → IsText url
    → UrlIsSized u
    → view (parse_into stack url u) ≡ url_parts (take 2047 url)
unfolding parse_into
parse_into-parts stack url u size t z =
    parse_at-parts (copy_string stack url 2048) u z
    ∙ ap url_parts (c_string-copy_string stack url 2048 (omega arith) (omega arith) t)
