-- ===== src/Http/Build/FromUrl.antt =====
-- The path and the Host line that fossil__http_build_request takes from the URL are those of
-- `Http.Build.Spec`.
use fossil_network.Base.{
  ℕ, zero, suc, ◌≡◌, refl, sym, ap, ◌∙◌, ◌⊎◌, lt→ltb, ◌+◌, not, ◌&&◌, ◌||◌, if◌then◌else◌, Bool,
  true, false, [], ◌∷◌, ◌++◌, Option, none, some, inl, inr, arith, ◌==◌, Bool-cases, Option-cases,
  length, take, drop, append_assoc,
}
use fossil_network.Cstr.{Bytes, codes, crlf, c_string, IsText}
use fossil_network.Cstr.Copy.{str_eq_iff}
use fossil_network.Cstr.Cut.{from}
use fossil_network.Cstr.Decimal.{decimal}
use fossil_network.Cstr.Search.{strstr}
use fossil_network.Http.Build.{Target, is_empty, target_of, shows_port, host_line, sends_body}
use fossil_network.Http.Build.Spec.{
  port_is_usual, host_or_local, host_value, path_or_url, requested_path, carries_body,
}
use fossil_network.Url.{Url, zero_url, parse_into}
use fossil_network.Url.Refine.{UrlIsSized, parse_into-parts}
use fossil_network.Url.Spec.{view, path_or_root, url_parts}

zero_url-UrlIsSized : UrlIsSized zero_url
zero_url-UrlIsSized = record { scheme_size = refl; host_size = refl; path_size = refl }

-- The path of a parsed URL is never empty.
path_or_root-nonempty : (s : Bytes) → is_empty (path_or_root s) ≡ false
path_or_root-nonempty [] = refl
path_or_root-nonempty (c ∷ s) = refl

url_parts-path : (text : Bytes) → is_empty (url_parts text).path ≡ false
unfolding url_parts
url_parts-path text = elim (Option-cases (strstr text (codes "://"))) [
  | inl e ↦ rw e (path_or_root-nonempty (from b'/' (take 255 text)))
  | inr (k, e) ↦ rw e (path_or_root-nonempty (from b'/' (drop (k + 3) text)))
]

pub sends_body-carries : (body : Option Bytes) (n : ℕ) → sends_body body n ≡ carries_body body n
sends_body-carries none n = refl
sends_body-carries (some body) zero = refl
sends_body-carries (some body) (suc n) = lt→ltb 0 (suc n) (omega arith)

shown_port :
    (h s : Bool) (p : ℕ)
    → ((h ≡ true) → (s ≡ true) → ⊥)
    → ((h && not (p == 80)) || (s && not (p == 443)) || (p == 0))
      ≡ not (if h then p == 80 else if s then p == 443 else not (p == 0))
shown_port true true p apart = absurd (apart refl refl)
shown_port true false p apart = ground arith
shown_port false true p apart = ground arith
shown_port false false p apart = ground arith

http-apart : codes "http" ≡ codes "https" → ⊥
http-apart e = omega (arith, ap length e)

-- The test of the serializer is the opposite of that of the specification.
shows_port-usual : (u : Url) → shows_port u ≡ not (port_is_usual (c_string u.scheme) u.port)
unfolding shows_port
shows_port-usual u = shown_port _ _ u.port (λ h s. http-apart (
    sym ((str_eq_iff (c_string u.scheme) (codes "http")).0 h)
    ∙ (str_eq_iff (c_string u.scheme) (codes "https")).0 s))

-- The two results of `target_of` for a URL that is not empty.
abbrev chosen : Bytes → Url → Target
chosen url u =
    if not (is_empty (c_string u.host))
    then record {
      path = if not (is_empty (c_string u.path)) then c_string u.path else codes "/";
      parsed = u;
      parsed_host_available = true;
    }
    else record { path = url; parsed = u; parsed_host_available = false }

list_cases : (s : Bytes) → (s ≡ []) ⊎ ((c : ℕ) × (r : Bytes) × (s ≡ c ∷ r))
list_cases [] = inl refl
list_cases (c ∷ r) = inr (c, r, refl)

chosen_path :
    (url : Bytes) (u : Url)
    → is_empty (c_string u.path) ≡ false
    → (chosen url u).path ≡ path_or_url (c_string u.host) (c_string u.path) url
chosen_path url u nonempty = elim (list_cases (c_string u.host)) [
  | inl e ↦ rw e refl
  | inr (c, r, e) ↦ rw (e, nonempty) refl
]

chosen_host :
    (url : Bytes) (u : Url)
    → host_line (chosen url u)
      ≡ codes "Host: " ++ (host_or_local (c_string u.host) (view u) ++ crlf)
unfolding host_line
chosen_host url u = elim (list_cases (c_string u.host)) [
  | inl e ↦ rw e refl
  | inr (c, r, e) ↦ elim (Bool-cases (port_is_usual (c_string u.scheme) u.port)) [
    | inl usual ↦
        rw (ap is_empty e, ap (λ h. host_or_local h (view u)) e, shows_port-usual u, usual) refl
    | inr other ↦
        rw (ap is_empty e, ap (λ h. host_or_local h (view u)) e, shows_port-usual u, other)
          (ap (λ t. codes "Host: " ++ t)
            (ap (λ t. c_string u.host ++ t) (sym (append_assoc (codes ":") (decimal u.port) crlf))
              ∙ sym (append_assoc (c_string u.host) (codes ":" ++ decimal u.port) crlf)))
  ]
]

module _ (stack : Bytes) (size : length stack ≡ 2048) where
  parsed-parts :
      (url : Bytes) → IsText url → view (parse_into stack url zero_url) ≡ url_parts (take 2047 url)
  parsed-parts url t = parse_into-parts stack url zero_url size t zero_url-UrlIsSized

  pub target_of-path :
      (url : Bytes)
      → IsText url
      → (target_of stack url).path ≡ requested_path url (url_parts (take 2047 url))
  unfolding target_of
  target_of-path [] t = refl
  target_of-path (c ∷ s) t =
      chosen_path (c ∷ s) (parse_into stack (c ∷ s) zero_url)
        (ap (λ p. is_empty p.path) (parsed-parts (c ∷ s) t) ∙ url_parts-path (take 2047 (c ∷ s)))
      ∙ ap (λ p. path_or_url p.host p.path (c ∷ s)) (parsed-parts (c ∷ s) t)

  pub host_line-value :
      (url : Bytes)
      → IsText url
      → host_line (target_of stack url)
        ≡ codes "Host: " ++ (host_value url (url_parts (take 2047 url)) ++ crlf)
  unfolding target_of host_line
  host_line-value [] t = refl
  host_line-value (c ∷ s) t =
      chosen_host (c ∷ s) (parse_into stack (c ∷ s) zero_url)
      ∙ ap (λ p. codes "Host: " ++ (host_or_local p.host p ++ crlf)) (parsed-parts (c ∷ s) t)
