-- ===== src/Api/Deposit.antt =====
-- server/src/api/secrets.rs: a client's deposit of a secret. The body is the value that it decodes
-- to; wiping it and the push that follows a deposit have no effect on the answer or the database. The
-- texts by which a template is refused are one text here.
pub mod Store
pub mod Deposited
use keychute.Api.{ApiFailure, not_granted, policy_denied, invalid_request, request_too_large}
use keychute.Api.Grants.{SecretEncoding, utf8, base64}
use keychute.Crypto.{Packages, Keyset, Draws, CryptoError, secret_version, seal}
use keychute.Prelude.{
  ℕ, ◌+◌, ◌*◌, ◌/◌, Bool, true, false, not, ◌&&◌, ◌||◌, Option, none, some, List, [], ◌∷◌, ◌++◌,
  Text, codes, Result, ok, err, ◌>>=◌, ◌>>◌, ensure, ok_or, or_err, leb, ◌==◌, all, length,
  is_empty, starts_with, is_ascii_alphanumeric,
}
use keychute.Prelude.Trim.{trim}
use keychute.Proxy.Template.{validate_injection}
use keychute.Store.{ClientRow}
use keychute.Store.Requests.{Sealed}
use keychute.Store.Secrets.{StoreSecretParams}
use keychute.Types.{Uuid, Tier, tier_as_int}

abbrev pub max_name_bytes : ℕ
max_name_bytes = 128

abbrev pub max_description_bytes : ℕ
max_description_bytes = 1024

abbrev pub max_value_bytes : ℕ
max_value_bytes = 64 * 1024

abbrev pub max_encoded_value_bytes : ℕ
max_encoded_value_bytes = 4 * max_value_bytes / 3 + 4096

abbrev pub deposit_rate_window_hours : ℕ
deposit_rate_window_hours = 1

pub record StoreSecretRequest : Type 0 where
  pub name : Text
  pub description : Text
  pub value : Text
  pub encoding : SecretEncoding
  pub max_tier : Option Tier
  pub injection_kind : Option Text
  pub injection_header : Option Text

pub record StoreSecretResponse : Type 0 where
  pub secret_id : Uuid
  pub name : Text
  pub version : ℕ

abbrev pub is_name_byte : ℕ → Bool
is_name_byte b = is_ascii_alphanumeric b || b == b'-' || b == b'_' || b == b'.'

unfoldable pub validate_name : Text → Result ApiFailure (Unit {0})
validate_name name = do
  ensure (not (is_empty name)) (invalid_request (codes "name is required"))
  ensure (leb (length name) max_name_bytes) (request_too_large (codes "name too long"))
  ensure (all is_name_byte name && not (starts_with name (codes ".")))
      (invalid_request (codes "name must be ASCII letters, digits, '-', '_' or '.'"))

abbrev pub given_or : {A : Type 0} → Option A → A → A
given_or none a = a
given_or (some b) a = b

-- `as_deref().filter(|h| !h.is_empty())`.
abbrev pub filled : Option Text → Option Text
filled none = none
filled (some s) = elim (is_empty s) [ true ↦ none | false ↦ some s ]

abbrev pub sealed_or_none : Result CryptoError Sealed → Option Sealed
sealed_or_none (ok s) = some s
sealed_or_none (err e) = none

module _ (p : Packages) where
  abbrev pub decode_value : StoreSecretRequest → Result ApiFailure Text
  decode_value req = elim req.encoding [
    | utf8 ↦ ok req.value
    | base64 ↦
        ok_or (p.base64_decode req.value) (invalid_request (codes "value is not valid base64"))
  ]

  unfoldable pub deposit_value : StoreSecretRequest → Result ApiFailure Text
  deposit_value req = do
    ensure (not (is_empty req.value)) (invalid_request (codes "value is required"))
    ensure (leb (length req.value) max_encoded_value_bytes)
        (request_too_large (codes "value too large"))
    plaintext ← decode_value req
    ensure (leb (length plaintext) max_value_bytes) (request_too_large (codes "value too large"))
    ensure (not (is_empty plaintext)) (invalid_request (codes "value is required"))
    ok plaintext

module _ (p : Packages) (ks : Keyset) (d : Draws) (secret_id : Uuid) where
  -- `store_inner` up to the transaction, which seals the value itself.
  unfoldable pub deposit_params :
      ClientRow → StoreSecretRequest → Result ApiFailure StoreSecretParams
  deposit_params client req = do
    ensure client.may_store_secrets
        (policy_denied (not_granted (codes "client is not permitted to store secrets")))
    let name = trim req.name
    validate_name name
    ensure (leb (length req.description) max_description_bytes)
        (request_too_large (codes "description too long"))
    value ← deposit_value p req
    template ←
        or_err
          (validate_injection (given_or req.injection_kind (codes "bearer"))
            (filled req.injection_header) none)
          (invalid_request (codes "invalid injection template"))
    ok (record {
      secret_id = secret_id;
      name = name;
      description = trim req.description;
      max_tier = tier_as_int (given_or req.max_tier Tier.brokered);
      injection_kind = template.0;
      injection_header = template.1.0;
      injection_username = template.1.1;
      seal = sealed_or_none (seal p d ks value (secret_version secret_id 1));
    })
