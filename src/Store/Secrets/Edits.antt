-- ===== src/Store/Secrets/Edits.antt =====
-- Review, edit and deletion of a stored secret: `mark_secret_vetted`, `set_secret_tags` of
-- server/src/db/secrets.rs, `update_secret_settings_audited` and `delete_secret_audited` of
-- server/src/db/ui_ext.rs. Tags are listed in insertion order.
use keychute.Prelude.{
  count_where, find, keep, text_eq, ℕ, Bool, true, false, not, ◌&&◌, ◌||◌, Option, none, some, List,
  [], ◌∷◌, ◌++◌, map, Text, ◌==◌, if◌then◌else◌, length, any, is_empty,
}
use keychute.Store.{
  because_secret_deleted, deletion, settings, version_vetted, grant_revoked, secret_deleted,
  secret_updated, secret_vetted, update_where, event, insert_audit, Db, GrantRow, SecretRow,
  SecretVersionRow, AuditEvent,
}
use keychute.Store.Grants.{revoke_one, is_live}
use keychute.Store.Secrets.{find_secret}
use keychute.Types.{Uuid, DateTime}

abbrev pub awaits_review : Uuid → ℕ → SecretRow → Bool
awaits_review secret_id reviewed_version s =
    s.id == secret_id && not s.operator_vetted && s.current_version == reviewed_version

abbrev pub vetted_row : DateTime → SecretRow → SecretRow
vetted_row now s = record s { operator_vetted = true; updated_at = now }

unfoldable pub mark_secret_vetted : DateTime → Uuid → ℕ → Text → Db → Bool × Db
mark_secret_vetted now secret_id reviewed_version actor db =
    elim (find (awaits_review secret_id reviewed_version) db.secrets) [
      | none ↦ (false, db)
      | some s ↦ (
        true,
        insert_audit
            (record (event now secret_vetted) {
              secret_name = some s.name;
              actor = some actor;
              detail = some (version_vetted reviewed_version);
            })
            (record db {
              secrets =
                  update_where (awaits_review secret_id reviewed_version) (vetted_row now)
                    db.secrets;
            }),
      )
    ]

abbrev pub tags_of : Uuid → List (Uuid × Text) → List Text
tags_of id rows = map (λ r. r.1) (keep (λ r. r.0 == id) rows)

-- `INSERT ... ON CONFLICT DO NOTHING` for each tag.
abbrev pub insert_tags : Uuid → List Text → List (Uuid × Text) → List (Uuid × Text)
insert_tags id [] rows = rows
insert_tags id (t ∷ ts) rows =
    insert_tags id ts
      (if any (λ r. r.0 == id && text_eq r.1 t) rows then rows else rows ++ ((id, t) ∷ []))

-- Deleting the tags of a secret and inserting the new ones.
abbrev pub replaced_tags : Uuid → List Text → Db → Db
replaced_tags secret_id tags db = record db {
  secret_tags = insert_tags secret_id tags (keep (λ r. not (r.0 == secret_id)) db.secret_tags);
}

-- A tag references its secret: without one, an insertion fails and the transaction rolls back.
unfoldable pub set_secret_tags : Uuid → List Text → Db → Db
set_secret_tags secret_id tags db =
    if is_empty tags || any (λ s. s.id == secret_id) db.secrets
    then replaced_tags secret_id tags db
    else db

pub record SecretSettings : Type 0 where
  pub description : Text
  pub max_tier : ℕ
  pub injection_kind : Text
  pub injection_header : Option Text
  pub injection_username : Option Text
  pub enabled : Bool
  pub tags : List Text

pub data UpdateSecretOutcome : Type 0 where
  updated not_found managed : UpdateSecretOutcome

abbrev pub same_text : Option Text → Option Text → Bool
same_text none none = true
same_text (some a) (some b) = text_eq a b
same_text _ _ = false

abbrev pub injection_changed : SecretRow → SecretSettings → Bool
injection_changed prev s =
    not (text_eq prev.injection_kind s.injection_kind)
    || not (same_text prev.injection_header s.injection_header)
    || not (same_text prev.injection_username s.injection_username)

abbrev pub edited : DateTime → SecretSettings → SecretRow → SecretRow
edited now s prev = record prev {
  description = s.description;
  max_tier = s.max_tier;
  injection_kind = s.injection_kind;
  injection_header = s.injection_header;
  injection_username = s.injection_username;
  enabled = s.enabled;
  updated_at = now;
}

abbrev pub settings_event : DateTime → Text → SecretRow → SecretSettings → List Text → AuditEvent
settings_event now actor prev s prev_tags = record (event now secret_updated) {
  secret_name = some prev.name;
  actor = some actor;
  detail = some (
      settings s.max_tier prev.max_tier s.enabled prev.enabled s.injection_kind
        (injection_changed prev s) s.tags prev_tags);
}

abbrev pub edit_found :
    DateTime → SecretSettings → Text → Db → Option SecretRow → UpdateSecretOutcome × Db
edit_found now s actor db none = (not_found, db)
edit_found now s actor db (some prev) = if prev.managed_by_config then (managed, db) else (
  updated,
  insert_audit (settings_event now actor prev s (tags_of prev.id db.secret_tags)) (
      replaced_tags prev.id s.tags
        (record db { secrets = update_where (λ t. t.id == prev.id) (edited now s) db.secrets })),
)

unfoldable pub update_secret_settings_audited :
    DateTime → Uuid → SecretSettings → Text → Db → UpdateSecretOutcome × Db
update_secret_settings_audited now secret_id s actor db =
    edit_found now s actor db (find_secret db secret_id)

pub data DeleteSecretOutcome : Type 0 where
  deleted : ℕ → DeleteSecretOutcome
  stale : DeleteSecretOutcome

-- The grants that the stored bytes still back.
abbrev pub is_stored_backed : DateTime → Text → GrantRow → Bool
is_stored_backed now name g =
    text_eq g.secret_name name && is_live g now && not g.passthrough_ephemeral

abbrev pub revocation_event : DateTime → Text → Text → GrantRow → AuditEvent
revocation_event now actor name g = record (event now grant_revoked) {
  request_id = some g.request_id;
  grant_id = some g.id;
  client_name = some g.client_name;
  secret_name = some name;
  actor = some actor;
  detail = some because_secret_deleted;
}

abbrev pub deletion_event : DateTime → Text → Text → ℕ → ℕ → ℕ → AuditEvent
deletion_event now actor name version versions revoked = record (event now secret_deleted) {
  secret_name = some name;
  actor = some actor;
  detail = some (deletion version versions revoked);
}

-- The row goes, its versions and tags cascade, and the live grants that it backed are revoked.
abbrev pub without_secret : DateTime → Text → SecretRow → ℕ → Db → Db
without_secret now actor s version db =
    let revoked = keep (is_stored_backed now s.name) db.grants in
    record db {
      secrets = keep (λ t. not (t.id == s.id && t.current_version == version)) db.secrets;
      secret_versions = keep (λ v. not (v.secret_id == s.id)) db.secret_versions;
      secret_tags = keep (λ t. not (t.0 == s.id)) db.secret_tags;
      grants = update_where (is_stored_backed now s.name) revoke_one db.grants;
      audit_log =
          deletion_event now actor s.name version
            (count_where (λ (v : SecretVersionRow). v.secret_id == s.id) db.secret_versions)
            (length revoked)
          ∷ (map (revocation_event now actor s.name) revoked ++ db.audit_log);
    }

abbrev pub delete_found :
    DateTime → Uuid → ℕ → Text → Db → Option SecretRow → DeleteSecretOutcome × Db
delete_found now secret_id version actor db none = (stale, db)
delete_found now secret_id version actor db (some s) =
    if not (any (λ t. t.id == secret_id && t.current_version == version) db.secrets)
    then (stale, db)
    else (
      deleted (count_where (is_stored_backed now s.name) db.grants),
      without_secret now actor s version db,
    )

unfoldable pub delete_secret_audited : DateTime → Uuid → ℕ → Text → Db → DeleteSecretOutcome × Db
delete_secret_audited now secret_id expected_version actor db =
    delete_found now secret_id expected_version actor db (find_secret db secret_id)
