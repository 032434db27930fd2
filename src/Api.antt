-- ===== src/Api.antt =====
-- server/src/api/: the failures of the handlers (error.rs), the client's requests
-- (types/src/lib.rs), the limits of server/src/config.rs, and the lookups of mod.rs that the
-- handlers share. A handler reads the database several times, and other transactions run between its
-- accesses: see Api/Between. A body is the value that it decodes to, and the client is the row that
-- authentication found. The `serde_json` form of a JSON value is its text.
pub mod Between
pub mod Revalidated
pub mod Validation
pub mod Inputs
pub mod Decide
pub mod Create
pub mod Grants
pub mod Deposit
pub mod Slots
pub mod Wait
use keychute.Policy.{Reason}
use keychute.Prelude.{
  ℕ, Bool, true, false, not, ◌&&◌, Option, none, some, List, Text, codes, text_eq, Result, ok, err,
  ◌>>=◌, ◌>>◌, ensure, ok_or, ltb, leb, if◌then◌else◌, any,
}
use keychute.Store.{
  Db, DbError, GrantRow, AccessRequestRow, SecretRow, get_grant, get_request, get_client_by_name,
  get_secret_by_name, get_grant_for_request,
}
use keychute.Store.Pushes.{is_approved_state}
use keychute.Types.{
  Uuid, DateTime, Mechanism, Constraints, RequestState, Tier, tier, exceeds, tier_from_int,
  mechanism_from_str,
}

-- The text of a 403: policy's reason, that a stored rule cannot be read, or the proxy's reason.
pub data DenyText : Type 0 where
  by_policy : Reason → DenyText
  unreadable_rule : DenyText
  not_granted : Text → DenyText

-- Why an `Internal` error was raised.
pub data InternalError : Type 0 where
  store_failed : DbError → InternalError
  inconsistent : Text → InternalError
  cannot_open : InternalError

pub data ApiFailure : Type 0 where
  unauthenticated not_found method_not_allowed wrong_mechanism idempotency_key_reuse : ApiFailure
  secret_exists revalidation_failed too_many_pending too_many_waits too_many_streams : ApiFailure
  too_many_deposits grant_exhausted grant_expired payload_lost body_too_large : ApiFailure
  bad_credential_encoding upstream_unreachable upstream_timeout : ApiFailure
  invalid_request request_too_large invalid_path : Text → ApiFailure
  policy_denied : DenyText → ApiFailure
  internal : InternalError → ApiFailure

abbrev pub status_code : ApiFailure → ℕ
status_code unauthenticated = 401
status_code not_found = 404
status_code (invalid_request m) = 400
status_code method_not_allowed = 405
status_code (request_too_large m) = 400
status_code (invalid_path m) = 400
status_code wrong_mechanism = 400
status_code idempotency_key_reuse = 409
status_code secret_exists = 409
status_code (policy_denied reason) = 403
status_code revalidation_failed = 403
status_code too_many_pending = 429
status_code too_many_waits = 429
status_code too_many_streams = 429
status_code too_many_deposits = 429
status_code grant_exhausted = 410
status_code grant_expired = 410
status_code payload_lost = 410
status_code body_too_large = 413
status_code bad_credential_encoding = 502
status_code upstream_unreachable = 502
status_code upstream_timeout = 504
status_code (internal e) = 500

-- `structured` is the serialised JSON value.
pub record RequestContext : Type 0 where
  pub reason : Text
  pub structured : Option Text

pub record CreateAccessRequest : Type 0 where
  pub idempotency_key : Text
  pub secret_name : Text
  pub mechanism : Mechanism
  pub constraints : Constraints
  pub context : RequestContext

pub record AccessRequestStatus : Type 0 where
  pub request_id : Uuid
  pub state : RequestState
  pub grant_id : Option Uuid
  pub deny_reason : Option Text
  pub expires_at : DateTime
  pub granted_secret_name : Option Text
  pub auto_approved : Bool

pub record Limits : Type 0 where
  pub max_pending_per_client : ℕ
  pub request_expiry_seconds : ℕ
  pub replay_window_seconds : ℕ

-- `RESOLVED_BY_POLICY_AUTO`.
abbrev pub resolved_by_policy_auto : Text
resolved_by_policy_auto = codes "policy:auto"

abbrev pub is_policy_auto : Option Text → Bool
is_policy_auto none = false
is_policy_auto (some by) = text_eq by resolved_by_policy_auto

-- The status of a row; the grant is read at `db`. `deny_reason` holds the text that was stored.
unfoldable pub status_from_row : AccessRequestRow → Db → AccessRequestStatus
status_from_row row db =
    let grant = if is_approved_state row.state then get_grant_for_request db row.id else none in
    record {
      request_id = row.id;
      state = row.state;
      grant_id = elim grant [ none ↦ none | some g ↦ some g.id ];
      deny_reason = row.deny_reason;
      expires_at = row.expires_at;
      granted_secret_name = elim grant [ none ↦ none | some g ↦ some g.secret_name ];
      auto_approved = is_approved_state row.state && is_policy_auto row.resolved_by;
    }

-- A row of another client is answered like a missing one.
unfoldable pub owned_grant : Text → Uuid → Db → Result ApiFailure GrantRow
owned_grant client id db = do
  grant ← ok_or (get_grant db id) not_found
  ensure (text_eq grant.client_name client) not_found
  ok grant

unfoldable pub owned_request : Text → Uuid → Db → Result ApiFailure AccessRequestRow
owned_request client id db = do
  row ← ok_or (get_request db id) not_found
  ensure (text_eq row.client_name client) not_found
  ok row

abbrev pub revalidate_secret : Tier → Option SecretRow → Result ApiFailure (Option SecretRow)
revalidate_secret t none = ok none
revalidate_secret t (some s) = do
  ensure s.enabled revalidation_failed
  secret_max ← ok_or (tier_from_int s.max_tier) revalidation_failed
  ensure (not (exceeds t secret_max)) revalidation_failed
  ok (some s)

-- The client is read at `db`, and the secret at `db'`.
unfoldable pub revalidate_grant : GrantRow → Db → Db → Result ApiFailure (Option SecretRow)
revalidate_grant grant db db' = do
  client ← ok_or (get_client_by_name db grant.client_name) revalidation_failed
  ensure client.enabled revalidation_failed
  mechanism ← ok_or (mechanism_from_str grant.mechanism) revalidation_failed
  ensure (any (λ m. text_eq m grant.mechanism) client.mechanisms) revalidation_failed
  client_max ← ok_or (tier_from_int client.max_tier) revalidation_failed
  ensure (not (exceeds (tier mechanism) client_max)) revalidation_failed
  revalidate_secret (tier mechanism) (get_secret_by_name db' grant.secret_name)
