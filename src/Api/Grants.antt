-- ===== src/Api/Grants.antt =====
-- The grant endpoints of server/src/api/grants.rs: `info`, and `read`, the release of a secret. The
-- decryption and the base64 encoding of packages are parameters.
pub mod Sources
pub mod Used
pub mod Released
use mathlib.Core.Option
use keychute.Api.{
  ApiFailure, internal, inconsistent, cannot_open, not_found, grant_expired, grant_exhausted,
  payload_lost, wrong_mechanism, revalidation_failed, invalid_request, request_too_large,
  owned_grant, revalidate_grant,
}
use keychute.Api.Between.{api_raises, Handler, ◌>>=◌, ◌>>◌, give, when, read, transact, change}
use keychute.Paths.{chars}
use keychute.Prelude.{
  ℕ, Bool, true, false, not, ◌&&◌, Option, none, some, Text, codes, Result, ok, err, ensure, ok_or,
  or_err, ltb, leb, if◌then◌else◌, ◌-◌, ◌+◌, ◌/◌, is_empty, is_some, length,
}
use keychute.Store.{
  Db, GrantRow, SecretRow, SecretVersionRow, AuditEvent, event, insert_audit, release_attempt,
  release_completed, get_grant, get_secret_version, get_secret_version_by_id,
}
use keychute.Store.Grants.{
  GrantUse, begin_grant_use, expired_or_revoked, exhausted, replayed, first_use,
}
use keychute.Types.{Uuid, DateTime, Mechanism, mechanism_from_str, is_releasing, Constraints}

-- One run of `read` by a client: as in Api/Create, and the decryption of a passthrough payload for a
-- grant and of a stored version.
pub record Setting : Type 0 where
  pub replay_window_seconds : ℕ
  pub others : ℕ → Db → Db
  pub clock : ℕ → DateTime
  pub client_name : Text
  pub open_ephemeral : Text → Text → Text → Uuid → Option Text
  pub open_keyset : SecretVersionRow → Option Text
  pub base64 : Text → Text
  pub audit_arrives : Bool

pub data SecretEncoding : Type 0 where
  utf8 base64 : SecretEncoding

pub record ReadGrantResponse : Type 0 where
  pub secret : Text
  pub encoding : SecretEncoding
  pub secret_version_id : Uuid

pub data Source : Type 0 where
  passthrough passthrough_gone : Source
  stored : SecretVersionRow → Source

-- What is released: the bytes, the payload's id, and the grant.
pub record Release : Type 0 where
  pub plaintext : Text
  pub version_id : Uuid
  pub grant : GrantRow

pub record GrantInfo : Type 0 where
  pub grant_id : Uuid
  pub mechanism : Mechanism
  pub constraints : Constraints
  pub not_after : DateTime
  pub max_uses : Option ℕ
  pub use_count : ℕ
  pub revoked : Bool
  pub server_time : Option DateTime

-- The lifetime of a grant in seconds, rounded, from microseconds.
abbrev pub ttl_of : GrantRow → ℕ
ttl_of g = ((g.not_after - g.created_at) / 1000 + 500) / 1000

-- The dead-grant query; a missing row counts as dead.
abbrev pub is_dead : DateTime → Option GrantRow → Bool
is_dead now none = true
is_dead now (some g) = if g.revoked then true else leb g.not_after now

module _ (w : Setting) where
  unfoldable pub open_passthrough : GrantRow → Result ApiFailure Text
  open_passthrough grant = elim grant.passthrough_ciphertext [
    | none ↦ err payload_lost
    | some ct ↦ elim grant.passthrough_nonce [
      | none ↦ err payload_lost
      | some nonce ↦ elim grant.passthrough_wrapped_dek [
        | none ↦ err payload_lost
        | some dek ↦
            if grant.passthrough_ephemeral
            then ok_or (w.open_ephemeral ct nonce dek grant.id) payload_lost
            else err payload_lost
      ]
    ]
  ]

  abbrev pub open_secret_version : SecretVersionRow → Result ApiFailure Text
  open_secret_version row = ok_or (w.open_keyset row) (internal cannot_open)

  abbrev pub current_version : Option SecretRow → Db → Option SecretVersionRow
  current_version none db = none
  current_version (some s) db = get_secret_version db s.id s.current_version

  -- The payload's source and id, before the use is accounted.
  abbrev pub source_of : GrantRow → Option SecretRow → Handler (Source × Uuid)
  source_of grant secret =
      if is_some grant.passthrough_ciphertext
      then give (ok (passthrough, grant.id))
      else if grant.passthrough_ephemeral
      then give (ok (passthrough_gone, grant.id))
      else (do
        found ← read w.others 4 (current_version secret)
        version ← give (ok_or found payload_lost)
        give (ok (stored version, version.id)))

  abbrev pub first_payload : Source → GrantRow → Result ApiFailure Text
  first_payload passthrough grant = open_passthrough grant
  first_payload passthrough_gone grant = err payload_lost
  first_payload (stored version) grant = open_secret_version version

  abbrev pub release : GrantRow → Uuid → Text → Release
  release grant id bytes = record { plaintext = bytes; version_id = id; grant = grant }

  abbrev pub replay_stored : GrantRow → Option Uuid → Handler Release
  replay_stored grant pinned = do
    id ← give (ok_or pinned payload_lost)
    found ← read w.others 6 (λ db. get_secret_version_by_id db id)
    version ← give (ok_or found payload_lost)
    bytes ← give (open_secret_version version)
    give (ok (release grant id bytes))

  abbrev pub released_by : Source → Uuid → GrantUse → Handler Release
  released_by source id GrantUse.not_found = give (err ApiFailure.not_found)
  released_by source id expired_or_revoked = give (err grant_expired)
  released_by source id exhausted = give (err grant_exhausted)
  released_by source id (first_use grant) = do
    bytes ← give (first_payload source grant)
    give (ok (release grant id bytes))
  released_by source id (replayed grant pinned was_passthrough) =
      if was_passthrough
      then (do bytes ← give (open_passthrough grant); give (ok (release grant grant.id bytes)))
      else replay_stored grant pinned

  abbrev pub encoded : Release → ReadGrantResponse
  encoded r =
      if is_some (chars r.plaintext)
      then record { secret = r.plaintext; encoding = utf8; secret_version_id = r.version_id }
      else record {
        secret = w.base64 r.plaintext;
        encoding = SecretEncoding.base64;
        secret_version_id = r.version_id;
      }

  abbrev pub completion_event : Release → AuditEvent
  completion_event r = record (event (w.clock 7) release_completed) {
    request_id = some r.grant.request_id;
    grant_id = some r.grant.id;
    client_name = some r.grant.client_name;
    secret_name = some r.grant.secret_name;
    secret_version_id = some r.version_id;
    status = some 200;
  }

  -- After the lookup: the guards, the accounting, and the release.
  abbrev pub read_owned : Text → GrantRow → Handler ReadGrantResponse
  read_owned key grant = do
    mechanism ← give (ok_or (mechanism_from_str grant.mechanism) revalidation_failed)
    give (ensure (is_releasing mechanism) wrong_mechanism)
    at_client ← read w.others 1 (λ db. db)
    revalidated ← read w.others 2 (revalidate_grant grant at_client)
    secret ← give revalidated
    dead ← read w.others 3 (λ db. is_dead (w.clock 3) (get_grant db grant.id))
    give (ensure (not dead) grant_expired)
    source ← source_of grant secret
    outcome ← transact w.others 5 (
        begin_grant_use (w.clock 5) grant.id (some key) (some source.1) release_attempt
          w.replay_window_seconds none)
    released ← released_by source.0 source.1 outcome
    when w.audit_arrives (change w.others 7 (insert_audit (completion_event released)))
    give (ok (encoded released))

  unfoldable pub read_grant : Uuid → Text → Handler ReadGrantResponse
  read_grant id key = do
    give (ensure (not (is_empty key)) (invalid_request (codes "idempotency_key is required")))
    give (ensure (leb (length key) 160) (request_too_large (codes "idempotency_key too long")))
    found ← read w.others 0 (owned_grant w.client_name id)
    grant ← give found
    read_owned key grant

  abbrev pub granted_constraints : GrantRow → Constraints
  granted_constraints grant = record grant.constraints {
    max_uses = grant.max_uses;
    ttl_seconds = ttl_of grant;
  }

  unfoldable pub info : Uuid → Handler GrantInfo
  info id = do
    found ← read w.others 0 (owned_grant w.client_name id)
    grant ← give found
    mechanism ← give (
        ok_or (mechanism_from_str grant.mechanism)
          (internal (inconsistent (codes "unknown grant mechanism"))))
    give (
        ok (record {
          grant_id = grant.id;
          mechanism = mechanism;
          constraints = granted_constraints grant;
          not_after = grant.not_after;
          max_uses = grant.max_uses;
          use_count = grant.use_count;
          revoked = grant.revoked;
          server_time = some (w.clock 1);
        }))
