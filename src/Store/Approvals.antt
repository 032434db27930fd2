-- ===== src/Store/Approvals.antt =====
-- The two transactions that make a request and a grant together: `approve_request` of
-- server/src/db/ui_ext.rs and `insert_access_request_with_id` of server/src/db/api_ext.rs.
pub mod Released
pub mod ByOperator
use mathlib.Core.Option
use keychute.Prelude.{
  count_where, find, is_some, text_eq, ℕ, Bool, true, false, not, ◌&&◌, ◌||◌, Option, none, some,
  ◌∷◌, Text, Result, ok, err, ◌>>=◌, ◌>>◌, ensure, ltb, ◌==◌, if◌then◌else◌, any,
}
use keychute.Store.{
  grant_deadline_elapsed, for_mechanism, request_created, secret_created, substituted_for,
  constraint_violated, event, insert_audit, sealing_failed, secret_changed_identity, Db, DbError,
  AccessRequestRow, AuditEvent,
}
use keychute.Store.Requests.{
  insert_grant, denial_event, denied_row, is_pending, approval_event, approve_where, resolved,
  GrantParams, NewAccessRequest, Sealed, is_open, is_backed, new_grant,
}
use keychute.Store.Secrets.{new_secret, insert_secret, with_first_version, StoreSecretParams}
use keychute.Types.{Uuid, DateTime, RequestState}

pub data ApproveOutcome : Type 0 where
  approved : Uuid → ApproveOutcome
  not_approvable secret_name_taken secret_gone : ApproveOutcome

-- What differs from `resolve_approve`'s row: the name that was asked for, if it is another.
abbrev pub ui_approval_event : DateTime → Text → Uuid → Uuid → GrantParams → Text → AuditEvent
ui_approval_event now actor request_id grant_id p requested =
    record (approval_event now actor request_id grant_id p) {
      detail = if text_eq requested p.secret_name then none else some (substituted_for requested);
    }

module _ (now : DateTime) (request_id : Uuid) (resolved_by : Text) (grant_id version_id : Uuid)
    (p : GrantParams) (store : Option StoreSecretParams) where
  abbrev pub open_for : AccessRequestRow → Bool
  open_for r = is_open now request_id r && ltb now p.not_after

  abbrev pub approve_open : Text → Db → Result DbError (ApproveOutcome × Db)
  approve_open requested db = do
    db' ←
        approve_where open_for now resolved_by
          (ui_approval_event now resolved_by request_id grant_id p requested)
          (new_grant now grant_id request_id p) db
    ok (approved grant_id, db')

  abbrev pub stored_event : StoreSecretParams → AuditEvent
  stored_event s = record (event now secret_created) {
    request_id = some request_id;
    secret_name = some s.name;
    actor = some resolved_by;
  }

  -- The insertion of the secret, when its name is still free.
  abbrev pub approve_inserted :
      Text → StoreSecretParams → Db → Option Db → Result DbError (ApproveOutcome × Db)
  approve_inserted requested s db none = ok (secret_name_taken, db)
  approve_inserted requested s db (some db1) = do
    db2 ← with_first_version now version_id s (some request_id) (stored_event s) db1
    approve_open requested db2

  abbrev pub approve_storing :
      Text → Option StoreSecretParams → Db → Result DbError (ApproveOutcome × Db)
  approve_storing requested none db = approve_open requested db
  approve_storing requested (some s) db = do
    ensure (is_some s.seal) sealing_failed
    inserted ← insert_secret (new_secret now true s) db
    approve_inserted requested s db inserted

  abbrev pub approve_found : Option AccessRequestRow → Db → Result DbError (ApproveOutcome × Db)
  approve_found none db = ok (not_approvable, db)
  approve_found (some r) db = approve_storing r.secret_name store db

  unfoldable pub approve_request : Db → Result DbError (ApproveOutcome × Db)
  approve_request db =
      if not (is_some store || is_backed p db)
      then ok (secret_gone, db)
      else approve_found (find open_for db.access_requests) db

pub data InitialResolution : Type 0 where
  left_pending : InitialResolution
  initially_denied : Text → Text → InitialResolution
  initially_approved : Text → GrantParams → Bool → InitialResolution

pub data InsertOutcome : Type 0 where
  created : AccessRequestRow → Option Uuid → InsertOutcome
  existing : AccessRequestRow → InsertOutcome
  pending_cap_exceeded : InsertOutcome

abbrev pub same_idem : Text → Text → AccessRequestRow → Bool
same_idem client key r = text_eq r.idem_client client && text_eq r.idem_key key

abbrev pub get_request_by_idem : Db → Text → Text → Option AccessRequestRow
get_request_by_idem db client key = find (same_idem client key) db.access_requests

-- The row of `INSERT INTO access_requests`.
abbrev pub new_request : DateTime → Uuid → NewAccessRequest → Option Sealed → AccessRequestRow
new_request now id req context = record {
  id = id;
  client_name = req.client_name;
  secret_name = req.secret_name;
  mechanism = req.mechanism;
  constraints = req.constraints;
  context_ciphertext = Option.map (λ (s : Sealed). s.ciphertext) context;
  context_nonce = Option.map (λ (s : Sealed). s.nonce) context;
  context_wrapped_dek = Option.map (λ (s : Sealed). s.wrapped_dek) context;
  context_kek_id = Option.map (λ (s : Sealed). s.kek_id) context;
  state = RequestState.pending;
  policy_not_after = req.policy_not_after;
  deny_reason = none;
  resolved_by = none;
  created_at = now;
  resolved_at = none;
  expires_at = req.expires_at;
  push_delivered_at = none;
  push_attempts = 0;
  notify_only = false;
  idem_client = req.idem_client;
  idem_key = req.idem_key;
  idem_mac = req.idem_mac;
}

-- The rows that the cap counts.
abbrev pub counts_as_pending : DateTime → Text → AccessRequestRow → Bool
counts_as_pending now client r =
    text_eq r.client_name client && is_pending r.state && ltb now r.expires_at

abbrev pub over_cap : Option ℕ → ℕ → Bool
over_cap none n = false
over_cap (some cap) n = ltb cap n

abbrev pub creation_event : DateTime → Uuid → NewAccessRequest → AuditEvent
creation_event now id req = record (event now request_created) {
  request_id = some id;
  client_name = some req.client_name;
  secret_name = some req.secret_name;
  detail = some (for_mechanism req.mechanism);
}

abbrev pub auto_approved_row : Text → Bool → DateTime → AccessRequestRow → AccessRequestRow
auto_approved_row actor fyi now r = record (resolved RequestState.approved (some actor) now r) {
  notify_only = fyi;
}

-- The seal's result, when there is a context.
abbrev pub sealed_context : Option (Option Sealed) → Result DbError (Option Sealed)
sealed_context none = ok none
sealed_context (some none) = err sealing_failed
sealed_context (some (some s)) = ok (some s)

module _ (now : DateTime) (id grant_id : Uuid) (req : NewAccessRequest) (pending_cap : Option ℕ)
    (resolution : InitialResolution) (seal_context : Option (Option Sealed)) where
  -- A payload-less grant of an auto-approval needs the row that policy was evaluated against.
  abbrev pub may_release : InitialResolution → Db → Bool
  may_release (initially_approved _ p _) db = is_backed p db
  may_release _ db = true

  abbrev pub with_request : AccessRequestRow → Db → Db
  with_request r db = record db { access_requests = r ∷ db.access_requests }

  -- The decided outcome, on the row just inserted, which `row` is.
  abbrev pub resolve_created :
      InitialResolution → AccessRequestRow → Db → Result DbError (InsertOutcome × Db)
  resolve_created left_pending row db =
      ok (created row none, insert_audit (creation_event now id req) (with_request row db))
  resolve_created (initially_denied reason actor) row db = ok (
    created (denied_row actor reason now row) none,
    insert_audit (denial_event now actor row) (
        insert_audit (creation_event now id req)
          (with_request (denied_row actor reason now row) db)),
  )
  resolve_created (initially_approved actor p fyi) row db =
      if not (ltb now p.not_after) then err grant_deadline_elapsed else do
        minted ← insert_grant (new_grant now grant_id id p) (
            insert_audit (creation_event now id req)
              (with_request (auto_approved_row actor fyi now row) db))
        ok (
          created (auto_approved_row actor fyi now row) (some grant_id),
          insert_audit (approval_event now actor id grant_id p) minted,
        )

  abbrev pub insert_fresh : Option Sealed → Db → Result DbError (InsertOutcome × Db)
  insert_fresh context db =
      if any (λ r. r.id == id) db.access_requests
      then err constraint_violated
      else if over_cap pending_cap (
          count_where (counts_as_pending now req.client_name)
            (new_request now id req context ∷ db.access_requests))
      then ok (pending_cap_exceeded, db)
      else resolve_created resolution (new_request now id req context) db

  abbrev pub insert_or_existing :
      Option AccessRequestRow → Option Sealed → Db → Result DbError (InsertOutcome × Db)
  insert_or_existing (some r) context db = ok (existing r, db)
  insert_or_existing none context db = insert_fresh context db

  unfoldable pub insert_access_request_with_id : Db → Result DbError (InsertOutcome × Db)
  insert_access_request_with_id db =
      if not (may_release resolution db) then err secret_changed_identity else do
        context ← sealed_context seal_context
        insert_or_existing (get_request_by_idem db req.idem_client req.idem_key) context db
