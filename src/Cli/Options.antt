-- ===== src/Cli/Options.antt =====
-- `validate_grant_options` of cli/src/curl.rs, from the arguments alone.
pub mod Fit
pub mod Accepted
use keychute.Cli.{Failure, fail, exit_config, Target, canonical_path}
use keychute.Cli.Constraints.{add_methods, constraints_for}
use keychute.Cli.Key.{call_binding_hex_chars}
use keychute.Prelude.{
  ℕ, ◌+◌, ◌-◌, ◌*◌, Bool, true, false, not, ◌&&◌, Option, none, some, List, [], ◌∷◌, Text, Result,
  ok, err, ◌>>=◌, ◌>>◌, ensure, ltb, leb, length, is_empty, is_some, if◌then◌else◌,
}

abbrev pub max_ttl_seconds : ℕ
max_ttl_seconds = 30 * 24 * 3600

-- The greatest `i32`.
abbrev pub max_server_uses : ℕ
max_server_uses = 2147483647

abbrev pub max_secret_name_bytes : ℕ
max_secret_name_bytes = 256

abbrev pub max_reason_bytes : ℕ
max_reason_bytes = 4 * 1024

abbrev pub max_constraint_entries : ℕ
max_constraint_entries = 32

abbrev pub max_approval_wait_seconds : ℕ
max_approval_wait_seconds = max_ttl_seconds

abbrev pub max_curl_user_key_bytes : ℕ
max_curl_user_key_bytes = 124 - (call_binding_hex_chars + 1)

-- The part of `CurlArgs` that is read. `max_time_fits` is the test on the float `max_time`.
pub record CurlArgs : Type 0 where
  pub grant_id : Option Text
  pub max_time_fits : Bool
  pub idempotency_key : Option Text
  pub ttl : ℕ
  pub max_uses : ℕ
  pub timeout : ℕ
  pub secret : Option Text
  pub reason : Text
  pub allow_methods : List Text
  pub path_prefixes : List Text

abbrev pub key_fits : Option Text → Bool
key_fits none = true
key_fits (some key) = not (is_empty key) && leb (length key) max_curl_user_key_bytes

abbrev pub secret_fits : Option Text → Bool
secret_fits none = true
secret_fits (some name) = not (is_empty name) && leb (length name) max_secret_name_bytes

module _ (method_ok : Text → Bool) (args : CurlArgs) (target : Target) (method : Text) where
  abbrev pub check_prefixes : Result Failure (Unit {0})
  check_prefixes = if is_empty args.path_prefixes then ok tt else (do
    _ ← constraints_for method_ok target method [] args.path_prefixes args.ttl args.max_uses
    ok tt)

  -- Without `--grant-id`.
  unfoldable pub validate_new_grant : Result Failure (Unit {0})
  validate_new_grant = do
    ensure (key_fits args.idempotency_key) (fail exit_config)
    ensure (leb 1 args.ttl && leb args.ttl max_ttl_seconds) (fail exit_config)
    ensure (leb args.max_uses max_server_uses) (fail exit_config)
    ensure (leb args.timeout max_approval_wait_seconds) (fail exit_config)
    ensure (secret_fits args.secret) (fail exit_config)
    ensure (leb (length args.reason) max_reason_bytes) (fail exit_config)
    distinct ← add_methods method_ok (method ∷ []) args.allow_methods
    ensure (leb (length distinct) max_constraint_entries) (fail exit_config)
    ensure (leb (length args.path_prefixes) max_constraint_entries) (fail exit_config)
    check_prefixes

  unfoldable pub validate_grant_options : Result Failure (Unit {0})
  validate_grant_options = do
    ensure (is_some (canonical_path target.path)) (fail exit_config)
    ensure args.max_time_fits (fail exit_config)
    if is_some args.grant_id then ok tt else validate_new_grant
