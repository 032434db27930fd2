-- ===== src/Store/Grants.antt =====
-- server/src/db/grants.rs, and the grant queries of server/src/db/ui_ext.rs.
pub mod Effect
use keychute.Prelude.{
  is_some, keep, find, text_eq, ℕ, zero, suc, ◌+◌, ◌-◌, ◌*◌, ◌/◌, ◌%◌, ◌≤◌, ◌<◌, ◌≡◌, refl, sym, ap,
  ◌∙◌, ◌≢◌, ◌↔◌, ◌⊎◌, inl, inr, Bool, true, false, not, ◌&&◌, ◌||◌, Option, none, some, List, [],
  ◌∷◌, ◌++◌, map, arith, Text, codes, Result, ok, err, ◌>>=◌, ◌>>◌, ensure, ok_or, ltb, leb, ◌==◌,
  if◌then◌else◌, Bool-cases, Option-cases, length, is_empty, any, all, In,
}
use keychute.Store.{
  max_int, AuditEvent, Db, GrantRow, GrantReadRow, AuditKind, grant_revoked, replay, event,
  insert_audit, update_where, get_grant, DbError, integer_out_of_range,
}
use keychute.Types.{Uuid, DateTime, second}

-- Where the credential is about to be sent.
pub record AuditTarget : Type 0 where
  pub method : Text
  pub origin : Text
  pub path : Text

pub data GrantUse : Type 0 where
  not_found expired_or_revoked exhausted : GrantUse
  replayed : GrantRow → Option Uuid → Bool → GrantUse
  first_use : GrantRow → GrantUse

abbrev pub is_live : GrantRow → DateTime → Bool
is_live g now = not g.revoked && ltb now g.not_after

-- `first_read_at > now() - make_interval(secs => window)`.
abbrev pub in_window : GrantReadRow → DateTime → ℕ → Bool
in_window r now window = ltb now (r.first_read_at + window * second)

abbrev pub is_read : Uuid → Text → GrantReadRow → Bool
is_read id key r = r.grant_id == id && text_eq r.idem_key key

abbrev pub prior_read : Db → Uuid → Option Text → Option GrantReadRow
prior_read db id none = none
prior_read db id (some key) = find (is_read id key) db.grant_reads

abbrev pub uses_left : GrantRow → Bool
uses_left g = elim g.max_uses [ none ↦ true | some m ↦ ltb g.use_count m ]

abbrev pub target_method : Option AuditTarget → Option Text
target_method none = none
target_method (some t) = some t.method

abbrev pub target_origin : Option AuditTarget → Option Text
target_origin none = none
target_origin (some t) = some t.origin

abbrev pub target_path : Option AuditTarget → Option Text
target_path none = none
target_path (some t) = some t.path

module _ (now : DateTime) (grant_id : Uuid) (idem_key : Option Text)
    (secret_version_id : Option Uuid) (audit_kind : AuditKind) (replay_window_seconds : ℕ)
    (target : Option AuditTarget) where
  -- The row that the two branches write to the audit log.
  abbrev pub attempt : GrantRow → Option Uuid → Bool → AuditEvent
  attempt grant version is_replay = record (event now audit_kind) {
    request_id = some grant.request_id;
    grant_id = some grant_id;
    client_name = some grant.client_name;
    secret_name = some grant.secret_name;
    secret_version_id = version;
    method = target_method target;
    origin = target_origin target;
    path = target_path target;
    detail = if is_replay then some replay else none;
  }

  abbrev pub bumped : GrantRow → GrantRow
  bumped g = record g { use_count = g.use_count + 1 }

  abbrev pub can_bump : GrantRow → Bool
  can_bump g = g.id == grant_id && is_live g now && uses_left g

  -- `INSERT INTO grant_reads`, where the call has a key.
  abbrev pub record_read : Option Text → GrantRow → List GrantReadRow → List GrantReadRow
  record_read none g reads = reads
  record_read (some key) g reads =
      record {
        grant_id = grant_id;
        idem_key = key;
        secret_version_id = secret_version_id;
        passthrough = is_some g.passthrough_ciphertext;
        first_read_at = now;
      }
      ∷ reads

  -- The conditional increment and what is committed with it.
  unfoldable pub account : GrantRow → Db → Result DbError (GrantUse × Db)
  account grant db =
      if not (is_live grant now && uses_left grant)
      then ok (exhausted, db)
      else if grant.use_count == max_int
      then err integer_out_of_range
      else ok (
        first_use (bumped grant),
        record db {
          grants = update_where can_bump bumped db.grants;
          grant_reads = record_read idem_key (bumped grant) db.grant_reads;
          audit_log = attempt (bumped grant) secret_version_id false ∷ db.audit_log;
        },
      )

  -- The replay check, for a key that was seen before.
  abbrev replay_or_account : GrantRow → Option GrantReadRow → Db → Result DbError (GrantUse × Db)
  replay_or_account grant none db = account grant db
  replay_or_account grant (some r) db =
      if in_window r now replay_window_seconds
      then ok (
        replayed grant r.secret_version_id r.passthrough,
        insert_audit (attempt grant r.secret_version_id true) db,
      )
      else ok (exhausted, db)

  abbrev with_grant : Option GrantRow → Db → Result DbError (GrantUse × Db)
  with_grant none db = ok (not_found, db)
  with_grant (some grant) db =
      if is_live grant now
      then replay_or_account grant (prior_read db grant_id idem_key) db
      else ok (expired_or_revoked, db)

  unfoldable pub begin_grant_use : Db → Result DbError (GrantUse × Db)
  begin_grant_use db = with_grant (get_grant db grant_id) db

abbrev pub without_payload : GrantRow → GrantRow
without_payload g = record g {
  passthrough_ciphertext = none;
  passthrough_nonce = none;
  passthrough_wrapped_dek = none;
}

abbrev pub revoke_one : GrantRow → GrantRow
revoke_one g = record (without_payload g) { revoked = true }

-- Whether a row was revoked, and the database after it.
unfoldable pub revoke_grant : DateTime → Uuid → Text → Db → Bool × Db
revoke_grant now grant_id actor db =
    let unrevoked = λ (g : GrantRow). g.id == grant_id && not g.revoked in
    elim (find unrevoked db.grants) [
      | none ↦ (false, db)
      | some g ↦ (
        true,
        record db {
          grants = update_where unrevoked revoke_one db.grants;
          audit_log =
              record (event now grant_revoked) {
                request_id = some g.request_id;
                grant_id = some grant_id;
                client_name = some g.client_name;
                secret_name = some g.secret_name;
                actor = some actor;
              }
              ∷ db.audit_log;
        },
      )
    ]

unfoldable pub purge_passthrough : Uuid → Db → Db
purge_passthrough grant_id db = record db {
  grants = update_where (λ g. g.id == grant_id) without_payload db.grants;
}

-- The `EXISTS` over `grant_reads` of the sweep and of the active-grants predicate.
abbrev pub replay_open : DateTime → ℕ → List GrantReadRow → Uuid → Bool
replay_open now window reads id = any (λ r. r.grant_id == id && in_window r now window) reads

abbrev pub fully_used : GrantRow → Bool
fully_used g = elim g.max_uses [ none ↦ false | some m ↦ leb m g.use_count ]

abbrev pub purgeable : DateTime → ℕ → List GrantReadRow → GrantRow → Bool
purgeable now window reads g =
    is_some g.passthrough_ciphertext
    && (g.revoked
        || ltb g.not_after now
        || (fully_used g && not (replay_open now window reads g.id)))

unfoldable pub sweep_purge_passthroughs : DateTime → ℕ → Db → Db
sweep_purge_passthroughs now replay_window_seconds db = record db {
  grants =
      update_where (purgeable now replay_window_seconds db.grant_reads) without_payload db.grants;
}

unfoldable pub unpin_stale_grant_reads : DateTime → ℕ → Db → Db
unpin_stale_grant_reads now replay_window_seconds db = record db {
  grant_reads =
      update_where
        (λ r.
          ltb (r.first_read_at + replay_window_seconds * second) now && is_some r.secret_version_id)
        (λ r. record r { secret_version_id = none }) db.grant_reads;
}

-- `ACTIVE_GRANTS_PREDICATE`.
unfoldable pub is_active : DateTime → ℕ → List GrantReadRow → GrantRow → Bool
is_active now window reads g = is_live g now && (uses_left g || replay_open now window reads g.id)

unfoldable pub list_active_grants : DateTime → ℕ → Db → List GrantRow
unfolding is_active
list_active_grants now window db = keep (is_active now window db.grant_reads) db.grants
