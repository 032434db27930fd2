-- ===== src/Store/Secrets.antt =====
-- server/src/db/secrets.rs, and the secret transactions of server/src/db/ui_ext.rs. Ids that the
-- database draws are arguments; a seal is what it returns for the version number that it is given.
pub mod Edits
pub mod Created
use keychute.Prelude.{
  is_some, count_where, find, text_eq, ℕ, zero, suc, ◌+◌, ◌-◌, ◌*◌, ◌/◌, ◌%◌, ◌≤◌, ◌<◌, ◌≡◌, refl,
  sym, ap, ◌∙◌, ◌≢◌, ◌↔◌, ◌⊎◌, inl, inr, Bool, true, false, not, ◌&&◌, ◌||◌, Option, none, some,
  List, [], ◌∷◌, ◌++◌, map, arith, Text, codes, Result, ok, err, ◌>>=◌, ◌>>◌, ensure, ok_or, ltb,
  leb, ◌==◌, if◌then◌else◌, Bool-cases, Option-cases, length, is_empty, any, all, In,
}
use keychute.Store.{
  client_api, update_where, integer_out_of_range, secret_created, secret_rotated, AuditKind,
  constraint_violated, event, insert_audit, max_int, sealing_failed, secret_not_found, Db, DbError,
  GrantRow, SecretRow, SecretVersionRow, AuditEvent,
}
use keychute.Store.Requests.{Sealed}
use keychute.Types.{Uuid, DateTime, second}

pub record StoreSecretParams : Type 0 where
  pub secret_id : Uuid
  pub name : Text
  pub description : Text
  pub max_tier : ℕ
  pub injection_kind : Text
  pub injection_header : Option Text
  pub injection_username : Option Text
  pub seal : Option Sealed

-- The row of `INSERT INTO secrets`; what the statement leaves out has the column's default.
abbrev pub new_secret : DateTime → Bool → StoreSecretParams → SecretRow
new_secret now vetted s = record {
  id = s.secret_id;
  name = s.name;
  description = s.description;
  max_tier = s.max_tier;
  injection_kind = s.injection_kind;
  injection_header = s.injection_header;
  injection_username = s.injection_username;
  current_version = 1;
  enabled = true;
  operator_vetted = vetted;
  managed_by_config = false;
  created_at = now;
  updated_at = now;
}

-- The check on `injection_kind` that the migrations declare.
abbrev pub is_storable_kind : Text → Bool
is_storable_kind kind = any (text_eq kind) (
    codes "bearer"
    ∷ codes "header"
    ∷ codes "basic"
    ∷ codes "basic-password"
    ∷ codes "aws-sigv4"
    ∷ [])

-- `INSERT INTO secrets ... ON CONFLICT (name) DO NOTHING`: nothing is inserted if the name is taken.
unfoldable pub insert_secret : SecretRow → Db → Result DbError (Option Db)
insert_secret s db = do
  ensure (is_storable_kind s.injection_kind) constraint_violated
  if any (λ t. text_eq t.name s.name) db.secrets
      then ok none
      else if any (λ t. t.id == s.id) db.secrets
      then err constraint_violated
      else ok (some (record db { secrets = s ∷ db.secrets }))

abbrev pub new_version : DateTime → Uuid → Uuid → ℕ → Sealed → Option Uuid → SecretVersionRow
new_version now id secret_id version sealed created_by_request = record {
  id = id;
  secret_id = secret_id;
  version = version;
  ciphertext = sealed.ciphertext;
  nonce = sealed.nonce;
  wrapped_dek = sealed.wrapped_dek;
  kek_id = sealed.kek_id;
  created_at = now;
  created_by_request = created_by_request;
}

abbrev pub version_conflicts : SecretVersionRow → Db → Bool
version_conflicts v db =
    any (λ w. w.id == v.id || (w.secret_id == v.secret_id && w.version == v.version))
      db.secret_versions
    || not (any (λ s. s.id == v.secret_id) db.secrets)

unfoldable pub insert_version : SecretVersionRow → Db → Result DbError Db
insert_version v db =
    if version_conflicts v db
    then err constraint_violated
    else ok (record db { secret_versions = v ∷ db.secret_versions })

-- The secret and its version 1, with the audit row.
abbrev pub with_first_version :
    DateTime → Uuid → StoreSecretParams → Option Uuid → AuditEvent → Db → Result DbError Db
with_first_version now version_id s created_by_request audit db = do
  sealed ← ok_or s.seal sealing_failed
  stored ← insert_version (new_version now version_id s.secret_id 1 sealed created_by_request) db
  ok (insert_audit audit stored)

pub data DepositOutcome : Type 0 where
  created : Uuid → DepositOutcome
  name_taken rate_limited : DepositOutcome

pub record DepositRate : Type 0 where
  pub max_per_window : ℕ
  pub window_hours : ℕ

abbrev pub is_secret_created : AuditKind → Bool
is_secret_created secret_created = true
is_secret_created _ = false

abbrev pub names : Option Text → Text → Bool
names none name = false
names (some n) name = text_eq n name

-- The rows that the deposit cap counts.
abbrev pub is_recent_deposit : DateTime → Text → ℕ → AuditEvent → Bool
is_recent_deposit now client_name window_hours e =
    is_secret_created e.kind
    && names e.client_name client_name
    && ltb now (e.at + window_hours * 3600 * second)

abbrev pub deposit_event : DateTime → Text → StoreSecretParams → AuditEvent
deposit_event now client_name store = record (event now secret_created) {
  client_name = some client_name;
  secret_name = some store.name;
  actor = some (codes "client:" ++ client_name);
  detail = some client_api;
}

abbrev pub deposited :
    DateTime
    → Uuid
    → StoreSecretParams
    → Text
    → Db
    → Option Db
    → Result DbError (DepositOutcome × Db)
deposited now version_id store client_name db none = ok (name_taken, db)
deposited now version_id store client_name db (some db1) = do
  db2 ← with_first_version now version_id store none (deposit_event now client_name store) db1
  ok (created store.secret_id, db2)

unfoldable pub create_secret_from_client :
    DateTime
    → Uuid
    → StoreSecretParams
    → Text
    → DepositRate
    → Db
    → Result DbError (DepositOutcome × Db)
create_secret_from_client now version_id store client_name rate db =
    if leb rate.max_per_window
      (count_where (is_recent_deposit now client_name rate.window_hours) db.audit_log)
    then ok (rate_limited, db)
    else do
      inserted ← insert_secret (new_secret now false store) db
      deposited now version_id store client_name db inserted

abbrev pub operator_event : DateTime → Text → Text → AuditEvent
operator_event now actor name = record (event now secret_created) {
  secret_name = some name;
  actor = some actor;
}

abbrev pub stored_by_operator :
    DateTime → Uuid → StoreSecretParams → Text → Db → Option Db → Result DbError (Bool × Db)
stored_by_operator now version_id store actor db none = ok (false, db)
stored_by_operator now version_id store actor db (some db1) = do
  db2 ← with_first_version now version_id store none (operator_event now actor store.name) db1
  ok (true, db2)

-- The value is sealed before the row is inserted.
unfoldable pub create_secret_with_version :
    DateTime → Uuid → StoreSecretParams → Text → Db → Result DbError (Bool × Db)
create_secret_with_version now version_id store actor db = do
  ensure (is_some store.seal) sealing_failed
  inserted ← insert_secret (new_secret now true store) db
  stored_by_operator now version_id store actor db inserted

-- `current_version + 1`, which Postgres checks.
abbrev pub bump_version : Bool → DateTime → SecretRow → SecretRow
bump_version vets now s = record s {
  current_version = s.current_version + 1;
  operator_vetted = vets || s.operator_vetted;
  updated_at = now;
}

-- The shared part of `insert_secret_version` and `rotate_secret_version`: the new row and the database.
abbrev pub append_version :
    Bool
    → DateTime
    → Uuid
    → SecretRow
    → (ℕ → Option Sealed)
    → Option Uuid
    → Db
    → Result DbError (SecretVersionRow × Db)
append_version vets now version_id s seal created_by_request db = do
  ensure (not (s.current_version == max_int)) integer_out_of_range
  sealed ← ok_or (seal (s.current_version + 1)) sealing_failed
  let row = new_version now version_id s.id (s.current_version + 1) sealed created_by_request
  db' ←
      insert_version row (record db {
        secrets = update_where (λ t. t.id == s.id) (bump_version vets now) db.secrets;
      })
  ok (row, db')

abbrev pub find_secret : Db → Uuid → Option SecretRow
find_secret db id = find (λ s. s.id == id) db.secrets

unfoldable pub insert_secret_version :
    DateTime
    → Uuid
    → Uuid
    → (ℕ → Option Sealed)
    → Option Uuid
    → Db
    → Result DbError (SecretVersionRow × Db)
insert_secret_version now version_id secret_id seal created_by_request db = do
  s ← ok_or (find_secret db secret_id) secret_not_found
  append_version false now version_id s seal created_by_request db

abbrev pub rotation_event : DateTime → Text → Text → Uuid → AuditEvent
rotation_event now actor name version_id = record (event now secret_rotated) {
  secret_name = some name;
  secret_version_id = some version_id;
  actor = some actor;
}

abbrev pub rotated :
    DateTime
    → Uuid
    → Text
    → Text
    → (ℕ → Option Sealed)
    → Db
    → Option SecretRow
    → Result DbError (Option SecretVersionRow × Db)
rotated now version_id secret_name actor seal db none = ok (none, db)
rotated now version_id secret_name actor seal db (some s) = do
  appended ← append_version true now version_id s seal none db
  ok (some appended.0, insert_audit (rotation_event now actor secret_name appended.0.id) appended.1)

unfoldable pub rotate_secret_version :
    DateTime
    → Uuid
    → Uuid
    → Text
    → Text
    → (ℕ → Option Sealed)
    → Db
    → Result DbError (Option SecretVersionRow × Db)
rotate_secret_version now version_id secret_id secret_name actor seal db =
    rotated now version_id secret_name actor seal db (find_secret db secret_id)
