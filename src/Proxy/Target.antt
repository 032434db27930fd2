-- ===== src/Proxy/Target.antt =====
-- What a proxied call is aimed at, and the checks on it in server/src/proxy.rs that read only the
-- request and the grant's constraints.
pub mod Checked
use keychute.Api.{
  ApiFailure, policy_denied, not_granted, internal, inconsistent, invalid_path, body_too_large,
  invalid_request, not_found,
}
use keychute.Paths.{
  canonicalize, prefix_matches, Rejection, no_leading_slash, truncated_escape, invalid_escape,
  encoded_slash, encoded_backslash, raw_backslash, not_utf8, control_character, dot_segment,
  duplicate_slash,
}
use keychute.Policy.Scope.{Call}
use keychute.Prelude.{
  ℕ, Bool, true, false, not, ◌&&◌, ◌||◌, Option, none, some, List, [], ◌∷◌, ◌++◌, Text, codes,
  text_eq, any, split_once, eq_ignore_ascii_case, to_ascii_uppercase, Result, ok, err, ◌>>=◌, ◌>>◌,
  ensure, ok_or, ltb, ◌==◌, ◌+◌, ◌/◌, ◌%◌, is_empty, length, if◌then◌else◌,
}
use keychute.Types.{Uuid, Origin, Constraints}

-- The body is the chunks of its stream, `none` where reading one fails.
pub record Request : Type 0 where
  pub method : Text
  pub path : Text
  pub query : Option Text
  pub headers : List (Text × Text)
  pub body : List (Option Text)

unfoldable pub strip_prefix : Text → Text → Option Text
strip_prefix s [] = some s
strip_prefix [] (_ ∷ _) = none
strip_prefix (a ∷ s) (b ∷ p) = let rest = strip_prefix s p in if a == b then rest else none

unfoldable pub grant_id_from_path : (Text → Option Uuid) → Text → Result ApiFailure Uuid
grant_id_from_path parse_uuid raw_path = do
  after_prefix ← ok_or (strip_prefix raw_path (codes "/v1/grants/")) not_found
  parts ← ok_or (split_once b'/' after_prefix) not_found
  ok_or (parse_uuid parts.0) not_found

abbrev root_or : Text → Option Text
root_or [] = some (codes "/")
root_or (b ∷ s) = if b == b'/' then some (b ∷ s) else none

abbrev and_then : {A B : Type 0} → Option A → (A → Option B) → Option B
and_then none f = none
and_then (some a) f = f a

unfoldable pub proxy_suffix : Text → Option Text
proxy_suffix raw_path = and_then (strip_prefix raw_path (codes "/v1/grants/")) (λ after_prefix.
    and_then (split_once b'/' after_prefix)
      (λ parts. and_then (strip_prefix parts.1 (codes "proxy")) root_or))

-- The message of `canonicalize`.
abbrev pub rejection_text : Rejection → Text
rejection_text no_leading_slash = codes "path must start with '/'"
rejection_text truncated_escape = codes "truncated percent escape"
rejection_text invalid_escape = codes "invalid percent escape"
rejection_text encoded_slash = codes "encoded '/' in path"
rejection_text encoded_backslash = codes "encoded '\\' in path"
rejection_text raw_backslash = codes "raw '\\' in path"
rejection_text not_utf8 = codes "path is not valid UTF-8 after decoding"
rejection_text control_character = codes "control character in path"
rejection_text dot_segment = codes "dot segment in path"
rejection_text duplicate_slash = codes "duplicate slash in path"

abbrev pub or_invalid_path : Result Rejection Text → Result ApiFailure Text
or_invalid_path (ok path) = ok path
or_invalid_path (err e) = err (invalid_path (rejection_text e))

abbrev pub only_origin : List Origin → Result ApiFailure Origin
only_origin (o ∷ []) = ok o
only_origin _ = err (internal (inconsistent (codes "brokered grant must have exactly one origin")))

-- Method, path and origin, in the order of the early returns.
unfoldable pub permitted : Constraints → Request → Result ApiFailure Call
permitted c req = do
  let method = to_ascii_uppercase req.method
  ensure (not (text_eq method (codes "TRACE"))) (
      policy_denied
        (not_granted (codes "TRACE is never proxied (it would reflect the injected credential)")))
  ensure (is_empty c.methods || any (λ m. eq_ignore_ascii_case m method) c.methods)
      (policy_denied (not_granted (codes "method not allowed by grant")))
  rest ← ok_or (proxy_suffix req.path) (internal (inconsistent (codes "route prefix mismatch")))
  canonical ← or_invalid_path (canonicalize rest)
  ensure (is_empty c.path_prefixes || any (λ p. prefix_matches p canonical) c.path_prefixes)
      (policy_denied (not_granted (codes "path not allowed by grant")))
  origin ← only_origin c.origins
  ok (record { origin = origin; method = method; path = canonical })

-- The loop that buffers the body under the limit.
unfoldable pub buffered : ℕ → Text → List (Option Text) → Result ApiFailure Text
buffered max_body buf [] = ok buf
buffered max_body buf (none ∷ chunks) = err (invalid_request (codes "request body read failed"))
buffered max_body buf (some chunk ∷ chunks) =
    let rest = buffered max_body (buf ++ chunk) chunks in
    if ltb max_body (length buf + length chunk) then err body_too_large else rest

-- A port in decimal.
abbrev digit : ℕ → ℕ
digit n = n % 10 + b'0'

abbrev port_text : ℕ → Text
port_text p =
    if ltb p 10
    then digit p ∷ []
    else if ltb p 100
    then digit (p / 10) ∷ digit p ∷ []
    else if ltb p 1000
    then digit (p / 100) ∷ digit (p / 10) ∷ digit p ∷ []
    else if ltb p 10000
    then digit (p / 1000) ∷ digit (p / 100) ∷ digit (p / 10) ∷ digit p ∷ []
    else digit (p / 10000) ∷ digit (p / 1000) ∷ digit (p / 100) ∷ digit (p / 10) ∷ digit p ∷ []

unfoldable pub to_display : Origin → Text
to_display o = elim o.port [
  | none ↦ codes "https://" ++ o.host
  | some p ↦ codes "https://" ++ (o.host ++ b':' ∷ port_text p)
]
