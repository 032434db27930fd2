-- ===== src/Proxy/Headers.antt =====
-- Which headers cross the proxy: the filters of server/src/proxy.rs. A `HeaderMap` is the list of its
-- pairs, whose names are in lower case; `to_str` reads a value as a string.
pub mod Kept
use keychute.Prelude.{
  ℕ, Bool, true, false, not, ◌&&◌, ◌||◌, Option, none, some, List, [], ◌∷◌, ◌++◌, map, Text, codes,
  text_eq, one_of, starts_with, split_byte, to_ascii_lowercase, is_empty, keep, leb, ◌==◌,
  if◌then◌else◌,
}

abbrev pub HeaderMap : Type 0
HeaderMap = List (Text × Text)

abbrev pub strip_list : List Text
strip_list =
    codes "host"
    ∷ codes "authorization"
    ∷ codes "proxy-authorization"
    ∷ codes "cookie"
    ∷ codes "set-cookie"
    ∷ codes "forwarded"
    ∷ codes "x-real-ip"
    ∷ codes "x-http-method-override"
    ∷ codes "x-method-override"
    ∷ codes "x-original-url"
    ∷ codes "x-rewrite-url"
    ∷ codes "x-original-method"
    ∷ codes "connection"
    ∷ codes "keep-alive"
    ∷ codes "proxy-connection"
    ∷ codes "te"
    ∷ codes "trailer"
    ∷ codes "transfer-encoding"
    ∷ codes "upgrade"
    ∷ codes "content-length"
    ∷ codes "expect"
    ∷ []

abbrev pub response_strip : List Text
response_strip =
    codes "x-keychute-error"
    ∷ codes "connection"
    ∷ codes "keep-alive"
    ∷ codes "proxy-authenticate"
    ∷ codes "proxy-authorization"
    ∷ codes "proxy-connection"
    ∷ codes "te"
    ∷ codes "trailer"
    ∷ codes "transfer-encoding"
    ∷ codes "upgrade"
    ∷ []

-- `trim`, on the ASCII text of a header's value.
abbrev is_space : ℕ → Bool
is_space b = b == 32 || (leb 9 b && leb b 13)

unfoldable pub trim_start : Text → Text
trim_start [] = []
trim_start (b ∷ s) = let rest = trim_start s in if is_space b then rest else b ∷ s

unfoldable pub trim_end : Text → Text
trim_end [] = []
trim_end (b ∷ s) = let rest = trim_end s in if is_empty rest && is_space b then [] else b ∷ rest

abbrev trim : Text → Text
trim s = trim_end (trim_start s)

abbrev tokens : Option Text → List Text
tokens none = []
tokens (some value) =
    keep (λ t. not (is_empty t)) (map (λ t. to_ascii_lowercase (trim t)) (split_byte b',' value))

-- `HeaderMap::insert`: other values of the name are dropped.
abbrev insert : Text × Text → HeaderMap → HeaderMap
insert header headers = header ∷ keep (λ h. not (text_eq h.0 header.0)) headers

unfoldable pub insert_all : HeaderMap → HeaderMap → HeaderMap
insert_all [] out = out
insert_all (header ∷ injected) out = insert_all injected (insert header out)

abbrev pub is_stripped : Text → Bool
is_stripped n = one_of strip_list n || starts_with n (codes "x-forwarded-")

module _ (to_str : Text → Option Text) where
  unfoldable pub connection_named : HeaderMap → List Text
  connection_named [] = []
  connection_named (h ∷ headers) =
      let rest = connection_named headers in
      if text_eq h.0 (codes "connection") then tokens (to_str h.1) ++ rest else rest

  abbrev pub is_forwarded : List Text → List Text → Text → Bool
  is_forwarded dynamic injected n = not (is_stripped n || one_of dynamic n || one_of injected n)

  unfoldable pub build_outbound_headers : HeaderMap → List Text → HeaderMap
  build_outbound_headers caller injected =
      keep (λ h. is_forwarded (connection_named caller) injected h.0) caller

  unfoldable pub build_response_headers : HeaderMap → HeaderMap
  build_response_headers upstream =
      keep (λ h. not (one_of response_strip h.0 || one_of (connection_named upstream) h.0)) upstream
