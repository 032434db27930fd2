-- ===== src/Store/Steps.antt =====
-- The transactions of server/src/db/ as steps of the whole database, in any order and with any
-- arguments. A transaction that rolls back is no step.
pub mod Change
pub mod Lifecycle
pub mod Final
pub mod Accounts
pub mod OfGrants
pub mod OfRequests
pub mod OfSecrets
pub mod OfCreation
pub mod OfPushes
pub mod Invariants
use keychute.Prelude.{
  ℕ, zero, suc, ◌+◌, ◌-◌, ◌*◌, ◌/◌, ◌%◌, ◌≤◌, ◌<◌, ◌≡◌, refl, sym, ap, ◌∙◌, ◌≢◌, ◌↔◌, ◌⊎◌, inl, inr,
  Bool, true, false, not, ◌&&◌, ◌||◌, Option, none, some, List, [], ◌∷◌, ◌++◌, map, arith, Text,
  codes, Result, ok, err, ◌>>=◌, ◌>>◌, ensure, ok_or, ltb, leb, ◌==◌, if◌then◌else◌, Bool-cases,
  Option-cases, length, is_empty, any, all, In,
}
use keychute.Store.{Db, AuditKind, SecretVersionRow, AccessRequestRow, AuditEvent, insert_audit}
use keychute.Store.Approvals.{
  insert_access_request_with_id, approve_request, ApproveOutcome, InitialResolution, InsertOutcome,
}
use keychute.Store.Grants.{
  unpin_stale_grant_reads, sweep_purge_passthroughs, purge_passthrough, revoke_grant,
  begin_grant_use, AuditTarget, GrantUse,
}
use keychute.Store.Grants.Effect.{is_attempt_kind}
use keychute.Store.Pushes.{count_attempt}
use keychute.Store.Requests.{
  mark_push_delivered, purge_request_context, expire_stale, resolve_deny, resolve_approve,
  GrantParams, NewAccessRequest, Sealed,
}
use keychute.Store.Secrets.{
  rotate_secret_version, insert_secret_version, create_secret_with_version,
  create_secret_from_client, StoreSecretParams, DepositRate, DepositOutcome,
}
use keychute.Store.Secrets.Edits.{
  delete_secret_audited, update_secret_settings_audited, set_secret_tags, mark_secret_vetted,
  SecretSettings,
}
use keychute.Types.{Uuid, DateTime}

-- The kinds that a use of a grant is logged under.
abbrev pub IsUse : AuditKind → Type 0
IsUse kind = is_attempt_kind kind ≡ true

-- The transactions on grants and requests.
pub data Step (db : Db) : Db → Type 0 where
  used :
      (now : DateTime) (grant_id : Uuid) (key : Option Text) (version : Option Uuid)
      (kind : AuditKind) (window : ℕ) (target : Option AuditTarget) (u : GrantUse) (db' : Db)
      → IsUse kind
      → begin_grant_use now grant_id key version kind window target db ≡ ok (u, db')
      → Step db db'
  revoked : (now : DateTime) (id : Uuid) (actor : Text) → Step db (revoke_grant now id actor db).1
  purged : (id : Uuid) → Step db (purge_passthrough id db)
  swept : (now : DateTime) (window : ℕ) → Step db (sweep_purge_passthroughs now window db)
  unpinned : (now : DateTime) (window : ℕ) → Step db (unpin_stale_grant_reads now window db)
  resolved :
      (now : DateTime) (id : Uuid) (by : Text) (grant_id : Uuid) (p : GrantParams) (o : Option Uuid)
      (db' : Db)
      → resolve_approve now id by grant_id p db ≡ ok (o, db')
      → Step db db'
  denied :
      (now : DateTime) (id : Uuid) (by reason : Text) → Step db (resolve_deny now id by reason db).1
  expired : (now : DateTime) → Step db (expire_stale now db).1
  context_purged :
      (now : DateTime) (retention : ℕ) → Step db (purge_request_context now retention db)
  push_marked : (now : DateTime) (id : Uuid) → Step db (mark_push_delivered now id db)
  approved :
      (now : DateTime) (id : Uuid) (by : Text) (grant_id version_id : Uuid) (p : GrantParams)
      (store : Option StoreSecretParams) (o : ApproveOutcome) (db' : Db)
      → approve_request now id by grant_id version_id p store db ≡ ok (o, db')
      → Step db db'
  requested :
      (now : DateTime) (id grant_id : Uuid) (req : NewAccessRequest) (cap : Option ℕ)
      (resolution : InitialResolution) (context : Option (Option Sealed)) (o : InsertOutcome)
      (db' : Db)
      → insert_access_request_with_id now id grant_id req cap resolution context db ≡ ok (o, db')
      → Step db db'
  deposited :
      (now : DateTime) (version_id : Uuid) (s : StoreSecretParams) (client : Text)
      (rate : DepositRate) (o : DepositOutcome) (db' : Db)
      → create_secret_from_client now version_id s client rate db ≡ ok (o, db')
      → Step db db'
  stored :
      (now : DateTime) (version_id : Uuid) (s : StoreSecretParams) (actor : Text) (o : Bool)
      (db' : Db)
      → create_secret_with_version now version_id s actor db ≡ ok (o, db')
      → Step db db'
  appended :
      (now : DateTime) (version_id id : Uuid) (seal : ℕ → Option Sealed) (by : Option Uuid)
      (v : SecretVersionRow) (db' : Db)
      → insert_secret_version now version_id id seal by db ≡ ok (v, db')
      → Step db db'
  rotated :
      (now : DateTime) (version_id id : Uuid) (name actor : Text) (seal : ℕ → Option Sealed)
      (v : Option SecretVersionRow) (db' : Db)
      → rotate_secret_version now version_id id name actor seal db ≡ ok (v, db')
      → Step db db'
  vetted :
      (now : DateTime) (id : Uuid) (version : ℕ) (actor : Text)
      → Step db (mark_secret_vetted now id version actor db).1
  tagged : (id : Uuid) (tags : List Text) → Step db (set_secret_tags id tags db)
  edited :
      (now : DateTime) (id : Uuid) (s : SecretSettings) (actor : Text)
      → Step db (update_secret_settings_audited now id s actor db).1
  deleted :
      (now : DateTime) (id : Uuid) (version : ℕ) (actor : Text)
      → Step db (delete_secret_audited now id version actor db).1
  attempted :
      (p : AccessRequestRow → Bool) (o : Bool) (db' : Db)
      → count_attempt p db ≡ ok (o, db')
      → Step db db'
  logged : (e : AuditEvent) → is_attempt_kind e.kind ≡ false → Step db (insert_audit e db)

-- Any number of steps.
pub data Reach (db : Db) : Db → Type 0 where
  start : Reach db db
  then_step : (db1 db2 : Db) → Reach db db1 → Step db1 db2 → Reach db db2
