-- ===== src/Url/RoundTrip.antt =====
-- URLs of the usual form are read back: `scheme://host:port/path`, and the same without a port.
use fossil_network.Base.{
  ℕ, ◌^◌, ◌≡◌, ◌≢◌, ◌≤◌, ◌<◌, sym, ap, ◌∙◌, [], ◌∷◌, ◌++◌, arith, length, length-append, All-append,
  All-map, append-nil, take_of_length, take-append, to_unsigned,
}
use fossil_network.Cstr.{Bytes, codes, IsText}
use fossil_network.Cstr.Copy.{drop_beyond}
use fossil_network.Cstr.Cut.{before-append, from-append, before-Lacks, from-Lacks}
use fossil_network.Cstr.Decimal.{
  decimal, decimal-IsDigit, decimal-IsText, decimal-length, IsDigit, atoi, atoi-decimal,
}
use fossil_network.Cstr.Search.{strstr-append, Lacks}
use fossil_network.Url.{Url, parse_into}
use fossil_network.Url.Refine.{UrlIsSized, parse_into-parts}
use fossil_network.Url.Spec.{view, port_or, default_port, full_parts, url_parts}

-- A scheme, a host and a path that a URL can carry with no loss.
pub record Plain (scheme host path : Bytes) : Type 0 where
  pub scheme_text : IsText scheme
  pub scheme_lacks_colon : Lacks b':' scheme
  pub scheme_fits : length scheme ≤ 15
  pub host_text : IsText host
  pub host_lacks_colon : Lacks b':' host
  pub host_lacks_slash : Lacks b'/' host
  pub host_fits : length host ≤ 255
  pub path_text : IsText path
  pub path_fits : length path ≤ 1022

abbrev pub with_port : Bytes → Bytes → ℕ → Bytes → Bytes
with_port scheme host port path =
    scheme ++ (codes "://" ++ ((host ++ (b':' ∷ decimal port)) ++ (b'/' ∷ path)))

abbrev pub without_port : Bytes → Bytes → Bytes → Bytes
without_port scheme host path = scheme ++ (codes "://" ++ (host ++ (b'/' ∷ path)))

port_or-decimal : (p other : ℕ) → p < 2 ^ 16 → port_or (b':' ∷ decimal p) other ≡ p
port_or-decimal p other h =
    ap (λ s. to_unsigned 16 (atoi s)) (sym (append-nil (decimal p)))
    ∙ ap (to_unsigned 16) (atoi-decimal p [] (omega arith) tt)
    ∙ unfold to_unsigned in omega arith

decimal-Lacks_slash : (p : ℕ) → Lacks b'/' (decimal p)
decimal-Lacks_slash p =
    All-map IsDigit (λ c. c ≢ b'/') (λ c d. omega arith) (decimal p) (decimal-IsDigit p)

module _ (scheme host path : Bytes) (ok : Plain scheme host path) where
  -- The text behind "://" is split off.
  url_parts-full :
      (rest : Bytes) → url_parts (scheme ++ (codes "://" ++ rest)) ≡ full_parts scheme rest
  unfolding url_parts
  url_parts-full rest = rw (
    strstr-append scheme rest b':' (codes "//") ok.scheme_lacks_colon,
    take-append scheme (codes "://" ++ rest),
    drop_beyond 3 scheme (codes "://" ++ rest),
    take_of_length 15 scheme ok.scheme_fits,
  )

  url_parts-with_port :
      (port : ℕ)
      → port < 2 ^ 16
      → url_parts (with_port scheme host port path)
        ≡ record { scheme = scheme; host = host; port = port; path = b'/' ∷ path }
  url_parts-with_port port h =
      let name : Bytes = host ++ (b':' ∷ decimal port) in
      let clean : Lacks b'/' name =
        All-append _ host _ ok.host_lacks_slash ((λ e. cc), decimal-Lacks_slash port) in
      url_parts-full (name ++ (b'/' ∷ path))
      ∙ rw (
        before-append name path b'/' clean,
        from-append name path b'/' clean,
        before-append host (decimal port) b':' ok.host_lacks_colon,
        from-append host (decimal port) b':' ok.host_lacks_colon,
        take_of_length 255 host ok.host_fits,
        port_or-decimal port (default_port scheme) h,
        take_of_length 1022 path ok.path_fits,
      )

  url_parts-without_port :
      url_parts (without_port scheme host path)
      ≡ record { scheme = scheme; host = host; port = default_port scheme; path = b'/' ∷ path }
  url_parts-without_port =
      url_parts-full (host ++ (b'/' ∷ path))
      ∙ rw (
        before-append host path b'/' ok.host_lacks_slash,
        from-append host path b'/' ok.host_lacks_slash,
        before-Lacks host b':' ok.host_lacks_colon,
        from-Lacks host b':' ok.host_lacks_colon,
        take_of_length 255 host ok.host_fits,
        take_of_length 1022 path ok.path_fits,
      )

module _ (scheme host path : Bytes) (ok : Plain scheme host path) where
  slash_path : IsText (b'/' ∷ path)
  slash_path = ((λ e. cc), ok.path_text)

  without_port-IsText : IsText (without_port scheme host path)
  without_port-IsText =
      All-append _ scheme _ ok.scheme_text
        ((λ e. cc), ((λ e. cc), ((λ e. cc), All-append _ host _ ok.host_text slash_path)))

  with_port-IsText : (port : ℕ) → IsText (with_port scheme host port path)
  with_port-IsText port =
      let name : IsText (host ++ b':' ∷ decimal port) =
        All-append (λ c. c ≢ 0) host _ ok.host_text ((λ e. cc), decimal-IsText port) in
      All-append _ scheme _ ok.scheme_text
        ((λ e. cc), ((λ e. cc), ((λ e. cc), All-append _ _ (b'/' ∷ path) name slash_path)))

  without_port_fits : length (without_port scheme host path) ≤ 2047
  without_port_fits = omega (
    arith,
    ok.scheme_fits,
    ok.host_fits,
    ok.path_fits,
    length-append {0} scheme (codes "://" ++ (host ++ (b'/' ∷ path))),
    length-append {0} host (b'/' ∷ path),
  )

  with_port_fits : (port : ℕ) → port < 2 ^ 16 → length (with_port scheme host port path) ≤ 2047
  with_port_fits port h = omega (
    arith,
    ok.scheme_fits,
    ok.host_fits,
    ok.path_fits,
    decimal-length port 4 (omega arith),
    length-append {0} scheme (codes "://" ++ ((host ++ (b':' ∷ decimal port)) ++ (b'/' ∷ path))),
    length-append {0} (host ++ (b':' ∷ decimal port)) (b'/' ∷ path),
    length-append {0} host (b':' ∷ decimal port),
  )

-- A URL scheme://host:port/path is parsed into exactly these parts, for every 16-bit port; with no
-- port the port is 443 for https and 80 for any other scheme. No part holds a NUL; the scheme has
-- at most 15 bytes and no colon, the host at most 255 bytes and neither a colon nor a slash, and
-- the path at most 1022 bytes behind its slash.
pub url_parse-format :
    (stack scheme host path : Bytes) (port : ℕ) (u : Url)
    → length stack ≡ 2048
    → UrlIsSized u
    → Plain scheme host path
    → port < 2 ^ 16
    → (view (parse_into stack (with_port scheme host port path) u)
        ≡ record { scheme = scheme; host = host; port = port; path = b'/' ∷ path })
      × (view (parse_into stack (without_port scheme host path) u)
          ≡ record { scheme = scheme; host = host; port = default_port scheme; path = b'/' ∷ path })
url_parse-format stack scheme host path port u size z ok h = (
  parse_into-parts stack (with_port scheme host port path) u size
        (with_port-IsText scheme host path ok port) z
      ∙ ap url_parts (take_of_length 2047 _ (with_port_fits scheme host path ok port h))
      ∙ url_parts-with_port scheme host path ok port h,
  parse_into-parts stack (without_port scheme host path) u size
        (without_port-IsText scheme host path ok) z
      ∙ ap url_parts (take_of_length 2047 _ (without_port_fits scheme host path ok))
      ∙ url_parts-without_port scheme host path ok,
)
