-- ===== src/Cli/Request.antt =====
-- `acquire_grant` of cli/src/curl.rs, up to the request that it posts.
pub mod Accepted
use keychute.Api.{CreateAccessRequest}
use keychute.Cli.{Failure, fail, exit_config}
use keychute.Cli.Constraints.{constraints_for}
use keychute.Cli.Key.{Call, call_bound_idempotency_key}
use keychute.Cli.Options.{CurlArgs, max_curl_user_key_bytes}
use keychute.Prelude.{
  ℕ, Bool, true, false, not, Option, none, some, Text, Result, ok, err, ◌>>=◌, ◌>>◌, ensure, leb,
  length, is_empty,
}
use keychute.Types.{Mechanism}

abbrev pub max_request_idem_key_bytes : ℕ
max_request_idem_key_bytes = 124

unfoldable pub validate_idempotency_key : Text → Result Failure (Unit {0})
validate_idempotency_key key = do
  ensure (not (is_empty key)) (fail exit_config)
  ensure (leb (length key) max_request_idem_key_bytes) (fail exit_config)

-- `fresh` is the text of a random UUID.
abbrev pub user_key : CurlArgs → Text → Text
user_key args fresh = elim args.idempotency_key [ none ↦ fresh | some key ↦ key ]

-- The packages' test of a method and SHA-256 in hexadecimal; `structured` is the context as JSON.
module _ (method_ok : Text → Bool) (sha256_hex : Text → Text) where
  unfoldable pub access_request :
      CurlArgs → Text → Call → Text → Text → Result Failure CreateAccessRequest
  access_request args fresh call secret_name structured = do
    ensure (leb (length (user_key args fresh)) max_curl_user_key_bytes) (fail exit_config)
    let idem_key = call_bound_idempotency_key sha256_hex (user_key args fresh) call
    validate_idempotency_key idem_key
    constraints ←
        constraints_for method_ok call.target call.method args.allow_methods args.path_prefixes
          args.ttl args.max_uses
    ok (record {
      idempotency_key = idem_key;
      secret_name = secret_name;
      mechanism = Mechanism.brokered;
      constraints = constraints;
      context = record { reason = args.reason; structured = some structured };
    })
