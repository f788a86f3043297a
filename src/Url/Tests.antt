-- ===== src/Url/Tests.antt =====
-- Runs of fossil__url_parse, and the theorems about it at small URLs.
use fossil_network.Base.{◌≡◌, refl, arith, ◌∷◌, take, to_unsigned}
use fossil_network.Cstr.{Bytes, codes, str_eq, zeroed}
use fossil_network.Cstr.Cut.{before, from}
use fossil_network.Cstr.Decimal.{atoi}
use fossil_network.Cstr.Search.{strstr}
use fossil_network.Url.{zero_url, parse_into}
use fossil_network.Url.Refine.{UrlIsSized, parse_into-parts}
use fossil_network.Url.RoundTrip.{Plain, with_port, without_port, url_parse-format}
use fossil_network.Url.Spec.{view, default_port, url_parts}

abbrev stack : Bytes
stack = zeroed 2048

zero_url-IsSized : UrlIsSized zero_url
zero_url-IsSized = record { scheme_size = refl; host_size = refl; path_size = refl }

abbrev https : Bytes
https = codes "https"

abbrev name : Bytes
name = codes "example.com"

plain : Plain https name (codes "a/b?c=d")
plain = record {
  scheme_text = omega arith;
  scheme_lacks_colon = omega arith;
  scheme_fits = omega arith;
  host_text = omega arith;
  host_lacks_colon = omega arith;
  host_lacks_slash = omega arith;
  host_fits = omega arith;
  path_text = omega arith;
  path_fits = omega arith;
}

-- A text with no scheme, one whose port wraps around, and an IPv6 address, of which the host is
-- cut at the first colon.
parts_tests :
    (url_parts (codes "example.com/x")
      ≡ record { scheme = codes "http"; host = name; port = 80; path = codes "/x" })
    × (url_parts (codes "ws://h:65616")
        ≡ record { scheme = codes "ws"; host = codes "h"; port = 80; path = codes "/" })
    × (url_parts (codes "http://[::1]:8080/x")
        ≡ record { scheme = codes "http"; host = codes "["; port = 0; path = codes "/x" })
unfolding url_parts before from strstr atoi to_unsigned str_eq
parts_tests = (refl, refl, refl)

parse_into-parts_example :
    view (parse_into stack (codes "example.com:80/x") zero_url)
    ≡ url_parts (take 2047 (codes "example.com:80/x"))
parse_into-parts_example =
    parse_into-parts stack (codes "example.com:80/x") zero_url (omega arith) (omega arith)
      zero_url-IsSized

url_parse-format_example :
    (view (parse_into stack (with_port https name 8443 (codes "a/b?c=d")) zero_url)
      ≡ record { scheme = https; host = name; port = 8443; path = b'/' ∷ codes "a/b?c=d" })
    × (view (parse_into stack (without_port https name (codes "a/b?c=d")) zero_url) ≡ record {
      scheme = https;
      host = name;
      port = default_port https;
      path = b'/' ∷ codes "a/b?c=d";
    })
url_parse-format_example =
    url_parse-format stack https name (codes "a/b?c=d") 8443 zero_url (omega arith) zero_url-IsSized
      plain (omega arith)
