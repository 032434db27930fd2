-- ===== src/Store/Requests.antt =====
-- server/src/db/requests.rs, with `insert_access_request_with_id` of server/src/db/api_ext.rs and
-- `approve_request` of server/src/db/ui_ext.rs. What a seal returns is an argument, `none` when it
-- fails; a `PassthroughPayload` is the three columns that it fills.
use mathlib.Core.Option
use keychute.Prelude.{
  find, is_some, keep, ℕ, ◌+◌, ◌*◌, Bool, true, false, not, ◌&&◌, ◌||◌, Option, none, some, ◌∷◌,
  ◌++◌, map, Text, Result, ok, err, ◌>>=◌, ltb, ◌==◌, if◌then◌else◌, length, any,
}
use keychute.Store.{
  insert_audit, request_approved, request_denied, request_expired, constraint_violated, event,
  secret_incarnation_exists, update_where, Db, DbError, AccessRequestRow, GrantRow, AuditEvent,
}
use keychute.Types.{second, Uuid, DateTime, Constraints, RequestState}

pub record Sealed : Type 0 where
  pub ciphertext : Text
  pub nonce : Text
  pub wrapped_dek : Text
  pub kek_id : Text

pub record PassthroughPayload : Type 0 where
  pub ciphertext : Text
  pub nonce : Text
  pub wrapped_dek : Text

pub record GrantParams : Type 0 where
  pub client_name : Text
  pub secret_name : Text
  pub secret_id : Option Uuid
  pub mechanism : Text
  pub constraints : Constraints
  pub not_after : DateTime
  pub max_uses : Option ℕ
  pub passthrough : Option PassthroughPayload

pub record NewAccessRequest : Type 0 where
  pub client_name : Text
  pub secret_name : Text
  pub mechanism : Text
  pub constraints : Constraints
  pub expires_at : DateTime
  pub policy_not_after : Option DateTime
  pub idem_client : Text
  pub idem_key : Text
  pub idem_mac : Text

abbrev pub is_pending : RequestState → Bool
is_pending RequestState.pending = true
is_pending _ = false

-- `id = $1 AND state = 'pending' AND now() < expires_at`.
abbrev pub is_open : DateTime → Uuid → AccessRequestRow → Bool
is_open now id r = r.id == id && is_pending r.state && ltb now r.expires_at

abbrev pub same_secret : Option Uuid → Text → Db → Bool
same_secret none name db = false
same_secret (some id) name db = secret_incarnation_exists db id name

-- A grant with no payload of its own releases the stored row that was decided about.
abbrev pub is_backed : GrantParams → Db → Bool
is_backed p db = is_some p.passthrough || same_secret p.secret_id p.secret_name db

-- The row that `INSERT INTO grants` makes.
abbrev pub new_grant : DateTime → Uuid → Uuid → GrantParams → GrantRow
new_grant now grant_id request_id p = record {
  id = grant_id;
  request_id = request_id;
  client_name = p.client_name;
  secret_name = p.secret_name;
  mechanism = p.mechanism;
  constraints = p.constraints;
  not_after = p.not_after;
  max_uses = p.max_uses;
  use_count = 0;
  revoked = false;
  passthrough_ciphertext = Option.map (λ (s : PassthroughPayload). s.ciphertext) p.passthrough;
  passthrough_nonce = Option.map (λ (s : PassthroughPayload). s.nonce) p.passthrough;
  passthrough_wrapped_dek = Option.map (λ (s : PassthroughPayload). s.wrapped_dek) p.passthrough;
  passthrough_ephemeral = is_some p.passthrough;
  created_at = now;
}

-- The primary key, `UNIQUE (request_id)` and the reference to the request.
abbrev pub grant_conflicts : GrantRow → Db → Bool
grant_conflicts g db =
    any (λ h. h.id == g.id || h.request_id == g.request_id) db.grants
    || not (any (λ r. r.id == g.request_id) db.access_requests)

unfoldable pub insert_grant : GrantRow → Db → Result DbError Db
insert_grant g db =
    if grant_conflicts g db
    then err constraint_violated
    else ok (record db { grants = g ∷ db.grants })

abbrev pub resolved : RequestState → Option Text → DateTime → AccessRequestRow → AccessRequestRow
resolved state actor now r = record r { state = state; resolved_by = actor; resolved_at = some now }

abbrev pub approval_event : DateTime → Text → Uuid → Uuid → GrantParams → AuditEvent
approval_event now actor request_id grant_id p = record (event now request_approved) {
  request_id = some request_id;
  grant_id = some grant_id;
  client_name = some p.client_name;
  secret_name = some p.secret_name;
  actor = some actor;
}

-- The transition, the grant and the audit row.
abbrev pub approve_where :
    (AccessRequestRow → Bool) → DateTime → Text → AuditEvent → GrantRow → Db → Result DbError Db
approve_where p now actor audit grant db = do
  minted ← insert_grant grant (record db {
    access_requests =
        update_where p (resolved RequestState.approved (some actor) now) db.access_requests;
  })
  ok (insert_audit audit minted)

-- `grant_id` is the id that the database draws.
unfoldable pub resolve_approve :
    DateTime → Uuid → Text → Uuid → GrantParams → Db → Result DbError (Option Uuid × Db)
resolve_approve now request_id resolved_by grant_id p db =
    if not (is_backed p db && any (is_open now request_id) db.access_requests)
    then ok (none, db)
    else do
      db' ←
          approve_where (is_open now request_id) now resolved_by
            (approval_event now resolved_by request_id grant_id p)
            (new_grant now grant_id request_id p) db
      ok (some grant_id, db')

abbrev pub denied_row : Text → Text → DateTime → AccessRequestRow → AccessRequestRow
denied_row actor reason now r = record (resolved RequestState.denied (some actor) now r) {
  deny_reason = some reason;
}

abbrev pub denial_event : DateTime → Text → AccessRequestRow → AuditEvent
denial_event now actor r = record (event now request_denied) {
  request_id = some r.id;
  client_name = some r.client_name;
  secret_name = some r.secret_name;
  actor = some actor;
}

unfoldable pub resolve_deny : DateTime → Uuid → Text → Text → Db → Bool × Db
resolve_deny now request_id resolved_by reason db =
    elim (find (is_open now request_id) db.access_requests) [
      | none ↦ (false, db)
      | some r ↦ (
        true,
        insert_audit (denial_event now resolved_by r) (record db {
          access_requests =
              update_where (is_open now request_id) (denied_row resolved_by reason now)
                db.access_requests;
        }),
      )
    ]

abbrev pub is_stale : DateTime → AccessRequestRow → Bool
is_stale now r = is_pending r.state && ltb r.expires_at now

abbrev pub expired_row : DateTime → AccessRequestRow → AccessRequestRow
expired_row now r = record r { state = RequestState.expired; resolved_at = some now }

abbrev pub expiry_event : DateTime → AccessRequestRow → AuditEvent
expiry_event now r = record (event now request_expired) {
  request_id = some r.id;
  client_name = some r.client_name;
  secret_name = some r.secret_name;
}

unfoldable pub expire_stale : DateTime → Db → ℕ × Db
expire_stale now db =
    let expired = keep (is_stale now) db.access_requests in
    (
      length expired,
      record db {
        access_requests = update_where (is_stale now) (expired_row now) db.access_requests;
        audit_log = map (expiry_event now) expired ++ db.audit_log;
      },
    )

abbrev pub resolved_before : Option DateTime → ℕ → DateTime → Bool
resolved_before none retention now = false
resolved_before (some t) retention now = ltb (t + retention * second) now

unfoldable pub purge_request_context : DateTime → ℕ → Db → Db
purge_request_context now retention_seconds db = record db {
  access_requests =
      update_where
        (λ r.
          not (is_pending r.state)
          && resolved_before r.resolved_at retention_seconds now
          && is_some r.context_ciphertext)
        (λ r. record r {
          context_ciphertext = none;
          context_nonce = none;
          context_wrapped_dek = none;
          context_kek_id = none;
        })
        db.access_requests;
}

unfoldable pub mark_push_delivered : DateTime → Uuid → Db → Db
mark_push_delivered now request_id db = record db {
  access_requests =
      update_where (λ r. r.id == request_id) (λ r. record r { push_delivered_at = some now })
        db.access_requests;
}
