-- ===== src/Store.antt =====
-- The tables of migrations/ and the row types of server/src/db/, with server/src/audit.rs.
-- A table is the list of its rows, newest first. A transaction is a function of the whole database:
-- its row locks make it atomic, and one that rolls back returns the database that it was given.
-- `now` is SQL's `now()`. Ids that the database or the server draws are arguments. A JSON column
-- holds the value that it encodes.
pub mod Grants
pub mod Requests
pub mod Secrets
pub mod Approvals
pub mod Pushes
pub mod Policies
pub mod Provision
pub mod Steps
use keychute.Prelude.{
  find, text_eq, ℕ, zero, suc, ◌+◌, ◌-◌, ◌*◌, ◌/◌, ◌%◌, ◌≤◌, ◌<◌, ◌≡◌, refl, sym, ap, ◌∙◌, ◌≢◌, ◌↔◌,
  ◌⊎◌, inl, inr, Bool, true, false, not, ◌&&◌, ◌||◌, Option, none, some, List, [], ◌∷◌, ◌++◌, map,
  arith, Text, codes, Result, ok, err, ◌>>=◌, ◌>>◌, ensure, ok_or, ltb, leb, ◌==◌, if◌then◌else◌,
  Bool-cases, Option-cases, length, is_empty, any, all, In,
}
use keychute.Types.{Uuid, DateTime, RequestState, Constraints}

pub data AuditKind : Type 0 where
  request_created request_approved request_denied request_expired grant_revoked : AuditKind
  release_attempt release_completed proxy_attempt proxy_completed : AuditKind
  secret_created secret_rotated secret_updated secret_deleted secret_vetted : AuditKind

-- The `detail` objects that the store writes.
pub data Detail : Type 0 where
  replay client_api because_secret_deleted : Detail
  for_mechanism substituted_for : Text → Detail
  version_vetted : ℕ → Detail
  deletion : ℕ → ℕ → ℕ → Detail
  settings : ℕ → ℕ → Bool → Bool → Text → Bool → List Text → List Text → Detail

pub record AuditEvent : Type 0 where
  pub at : DateTime
  pub kind : AuditKind
  pub request_id : Option Uuid
  pub grant_id : Option Uuid
  pub client_name : Option Text
  pub secret_name : Option Text
  pub secret_version_id : Option Uuid
  pub actor : Option Text
  pub method : Option Text
  pub origin : Option Text
  pub path : Option Text
  pub status : Option ℕ
  pub detail : Option Detail

-- `AuditEvent { kind, ..Default::default() }`.
abbrev pub event : DateTime → AuditKind → AuditEvent
event at kind = record {
  at = at;
  kind = kind;
  request_id = none;
  grant_id = none;
  client_name = none;
  secret_name = none;
  secret_version_id = none;
  actor = none;
  method = none;
  origin = none;
  path = none;
  status = none;
  detail = none;
}

pub record SecretRow : Type 0 where
  pub id : Uuid
  pub name : Text
  pub description : Text
  pub max_tier : ℕ
  pub injection_kind : Text
  pub injection_header : Option Text
  pub injection_username : Option Text
  pub current_version : ℕ
  pub enabled : Bool
  pub operator_vetted : Bool
  pub managed_by_config : Bool
  pub created_at : DateTime
  pub updated_at : DateTime

pub record SecretVersionRow : Type 0 where
  pub id : Uuid
  pub secret_id : Uuid
  pub version : ℕ
  pub ciphertext : Text
  pub nonce : Text
  pub wrapped_dek : Text
  pub kek_id : Text
  pub created_at : DateTime
  pub created_by_request : Option Uuid

pub record ClientRow : Type 0 where
  pub name : Text
  pub max_tier : ℕ
  pub mechanisms : List Text
  pub enabled : Bool
  pub may_store_secrets : Bool

pub record AccessRequestRow : Type 0 where
  pub id : Uuid
  pub client_name : Text
  pub secret_name : Text
  pub mechanism : Text
  pub constraints : Constraints
  pub context_ciphertext : Option Text
  pub context_nonce : Option Text
  pub context_wrapped_dek : Option Text
  pub context_kek_id : Option Text
  pub state : RequestState
  pub policy_not_after : Option DateTime
  pub deny_reason : Option Text
  pub resolved_by : Option Text
  pub created_at : DateTime
  pub resolved_at : Option DateTime
  pub expires_at : DateTime
  pub push_delivered_at : Option DateTime
  pub push_attempts : ℕ
  pub notify_only : Bool
  pub idem_client : Text
  pub idem_key : Text
  pub idem_mac : Text

pub record GrantRow : Type 0 where
  pub id : Uuid
  pub request_id : Uuid
  pub client_name : Text
  pub secret_name : Text
  pub mechanism : Text
  pub constraints : Constraints
  pub not_after : DateTime
  pub max_uses : Option ℕ
  pub use_count : ℕ
  pub revoked : Bool
  pub passthrough_ciphertext : Option Text
  pub passthrough_nonce : Option Text
  pub passthrough_wrapped_dek : Option Text
  pub passthrough_ephemeral : Bool
  pub created_at : DateTime

pub record GrantReadRow : Type 0 where
  pub grant_id : Uuid
  pub idem_key : Text
  pub secret_version_id : Option Uuid
  pub passthrough : Bool
  pub first_read_at : DateTime

pub record Db : Type 0 where
  pub clients : List ClientRow
  pub secrets : List SecretRow
  pub secret_versions : List SecretVersionRow
  pub secret_tags : List (Uuid × Text)
  pub access_requests : List AccessRequestRow
  pub grants : List GrantRow
  pub grant_reads : List GrantReadRow
  pub audit_log : List AuditEvent

-- The largest `int` of Postgres.
abbrev pub max_int : ℕ
max_int = 2147483647

-- Why a transaction rolls back: an error of Postgres, of the encryption, or of the code itself.
pub data DbError : Type 0 where
  integer_out_of_range constraint_violated sealing_failed secret_not_found : DbError
  secret_changed_identity grant_deadline_elapsed : DbError

-- `insert_audit`.
abbrev pub insert_audit : AuditEvent → Db → Db
insert_audit e db = record db { audit_log = e ∷ db.audit_log }

-- `UPDATE ... SET f WHERE p`.
abbrev pub update_where {ℓ} : {A : Type ℓ} → (A → Bool) → (A → A) → List A → List A
update_where p f = map (λ r. if p r then f r else r)

-- `SELECT * FROM grants WHERE id = $1`.
abbrev pub get_grant : Db → Uuid → Option GrantRow
get_grant db id = find (λ g. g.id == id) db.grants

abbrev pub get_grant_for_request : Db → Uuid → Option GrantRow
get_grant_for_request db request_id = find (λ g. g.request_id == request_id) db.grants

abbrev pub get_request : Db → Uuid → Option AccessRequestRow
get_request db id = find (λ r. r.id == id) db.access_requests

abbrev pub get_secret_by_name : Db → Text → Option SecretRow
get_secret_by_name db name = find (λ s. text_eq s.name name) db.secrets

abbrev pub get_secret_version : Db → Uuid → ℕ → Option SecretVersionRow
get_secret_version db secret_id version =
    find (λ v. v.secret_id == secret_id && v.version == version) db.secret_versions

abbrev pub get_secret_version_by_id : Db → Uuid → Option SecretVersionRow
get_secret_version_by_id db id = find (λ v. v.id == id) db.secret_versions

abbrev pub get_client_by_name : Db → Text → Option ClientRow
get_client_by_name db name = find (λ c. text_eq c.name name) db.clients

-- Only this secret row under this name counts.
abbrev pub secret_incarnation_exists : Db → Uuid → Text → Bool
secret_incarnation_exists db secret_id name =
    any (λ s. s.id == secret_id && text_eq s.name name) db.secrets
