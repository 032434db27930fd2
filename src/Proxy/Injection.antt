-- ===== src/Proxy/Injection.antt =====
-- How a credential is placed into a request: `InjectionSpec` and `injection_header` of
-- server/src/proxy.rs. `header_name` and `header_value` are the constructors of the HTTP package,
-- and `base64` its encoding.
use keychute.Api.{ApiFailure, bad_credential_encoding, internal, inconsistent}
use keychute.Prelude.{
  ℕ, Bool, true, false, not, ◌||◌, Option, none, some, List, [], ◌∷◌, ◌++◌, Text, codes, text_eq,
  has_byte, any, to_ascii_lowercase, Result, ok, err, ◌>>=◌, ◌>>◌, ensure, ok_or, or_err, ◌==◌,
  if◌then◌else◌,
}
use keychute.Proxy.Headers.{is_stripped}
use keychute.SigV4.{validate_access_key_id, parse_scope}
use keychute.Store.{SecretRow}

pub record Scope : Type 0 where
  pub access_key_id : Text
  pub region : Text
  pub service : Text

pub data InjectionSpec : Type 0 where
  bearer : InjectionSpec
  header basic_password : Text → InjectionSpec
  aws_sig_v4 : Scope → InjectionSpec

abbrev pub is_sigv4 : InjectionSpec → Bool
is_sigv4 (aws_sig_v4 s) = true
is_sigv4 _ = false

abbrev authorization : Text
authorization = codes "authorization"

abbrev pub breaks_header : ℕ → Bool
breaks_header b = b == 13 || b == 10 || b == 0

abbrev pub owned_headers : InjectionSpec → List Text
owned_headers (aws_sig_v4 s) =
    authorization
    ∷ codes "x-amz-date"
    ∷ codes "x-amz-content-sha256"
    ∷ codes "x-amz-security-token"
    ∷ codes "x-amz-copy-source"
    ∷ codes "x-amz-copy-source-range"
    ∷ codes "x-amz-copy-source-if-match"
    ∷ codes "x-amz-copy-source-if-none-match"
    ∷ codes "x-amz-copy-source-if-modified-since"
    ∷ codes "x-amz-copy-source-if-unmodified-since"
    ∷ []
owned_headers _ = []

abbrev pub or_else : Option Text → Option Text → Option Text
or_else none o = o
or_else (some t) o = some t

-- The template of a stored secret, by its kind.
unfoldable pub spec_of : SecretRow → Result ApiFailure InjectionSpec
spec_of s =
    if text_eq s.injection_kind (codes "bearer")
    then ok bearer
    else if text_eq s.injection_kind (codes "header")
    then ok_or s.injection_header bad_credential_encoding >>= (λ name. ok (header name))
    else if text_eq s.injection_kind (codes "basic")
        || text_eq s.injection_kind (codes "basic-password")
    then ok_or (or_else s.injection_username s.injection_header) bad_credential_encoding
      >>= (λ username. ok (basic_password username))
    else if text_eq s.injection_kind (codes "aws-sigv4")
    then (do
      username ← ok_or s.injection_username bad_credential_encoding
      scope ← ok_or s.injection_header bad_credential_encoding
      parts ← or_err (parse_scope scope) bad_credential_encoding
      ok (aws_sig_v4 (record { access_key_id = username; region = parts.0; service = parts.1 })))
    else err bad_credential_encoding

module _ (header_name : Text → Option Text) where
  unfoldable pub validate : InjectionSpec → Result ApiFailure Text
  validate bearer = ok authorization
  validate (header name) = do
    ensure (not (is_stripped (to_ascii_lowercase name))) bad_credential_encoding
    ok_or (header_name name) bad_credential_encoding
  validate (basic_password username) = do
    ensure (not (has_byte b':' username || any breaks_header username)) bad_credential_encoding
    ok authorization
  validate (aws_sig_v4 scope) = do
    or_err (validate_access_key_id scope.access_key_id) bad_credential_encoding
    parts ← or_err (parse_scope (scope.region ++ b'/' ∷ scope.service)) bad_credential_encoding
    ok authorization

  module _ (header_value : Text → Option Text) (base64 : Text → Text) where
    abbrev value_of : InjectionSpec → Text → Result ApiFailure Text
    value_of bearer secret = do
      ensure (not (any breaks_header secret)) bad_credential_encoding
      ok_or (header_value (codes "Bearer " ++ secret)) bad_credential_encoding
    value_of (header name) secret = do
      ensure (not (any breaks_header secret)) bad_credential_encoding
      ok_or (header_value secret) bad_credential_encoding
    value_of (basic_password username) secret =
        ok_or (header_value (codes "Basic " ++ base64 (username ++ b':' ∷ secret)))
          bad_credential_encoding
    value_of (aws_sig_v4 scope) secret =
        err (internal (inconsistent (codes "aws-sigv4 has no static injection header")))

    unfoldable pub injection_header : InjectionSpec → Text → Result ApiFailure (Text × Text)
    injection_header spec secret = do
      name ← validate spec
      value ← value_of spec secret
      ok (name, value)
