-- ===== src/Api/Create.antt =====
-- `create`, `status` and the pushes of server/src/api/requests.rs.
pub mod Inserted
pub mod Released
pub mod AfterInsertion
pub mod Denied
use keychute.Store
use keychute.Store.Policies
use keychute.Api.{
  ApiFailure, idempotency_key_reuse, internal, inconsistent, policy_denied, by_policy,
  too_many_pending, CreateAccessRequest, AccessRequestStatus, Limits, status_from_row,
  owned_request,
}
use keychute.Api.Between.{api_raises, Handler, ◌>>=◌, ◌>>◌, give, when, read, transact, change}
use keychute.Api.Decide.{
  evaluated, auto_grant, resolution, new_row, pending_cap, has_context, is_notified,
}
use keychute.Api.Validation.{validate_idempotency_key, validate_request}
use keychute.Policy.{
  RequestedGrant, Evaluation, Decision, denied, notified, auto_approved, approval_required,
  unreachable,
}
use keychute.Prelude.{
  ℕ, Bool, true, false, not, ◌&&◌, Option, none, some, List, [], Text, codes, text_eq, Result, ok,
  err, ensure, if◌then◌else◌, ◌-◌, ◌*◌,
}
use keychute.Store.{Db, DbError, AccessRequestRow, get_secret_by_name}
use keychute.Store.Approvals.{
  insert_access_request_with_id, get_request_by_idem, InsertOutcome, created, existing,
  pending_cap_exceeded,
}
use keychute.Store.Pushes.{recent_duplicate_push, claim_for_push, claim_for_fyi_push}
use keychute.Store.Requests.{mark_push_delivered, Sealed}
use keychute.Store.Secrets.Edits.{tags_of}
use keychute.Types.{Uuid, DateTime, Constraints, RequestState, second}

-- 200 for an idempotent retry, 201 for a new request.
pub record Response : Type 0 where
  pub code : ℕ
  pub status : AccessRequestStatus

-- The notifier: whether there is one, and whether its send succeeds in time.
pub record Notifier : Type 0 where
  pub is_real : Bool
  pub delivers : Bool

-- `PUSH_DEDUP_WINDOW_SECONDS`, and the process clock that the window is measured on.
abbrev pub push_dedup_window_seconds : ℕ
push_dedup_window_seconds = 60

-- What the handler draws and is given by the encryption.
pub record Drawn : Type 0 where
  pub request_id : Uuid
  pub grant_id : Uuid
  pub idem_mac : Text
  pub sealed : Option Sealed
  pub process_now : DateTime

abbrev pub tags_at : Option Store.SecretRow → Db → List Text
tags_at none db = []
tags_at (some s) db = tags_of s.id db.secret_tags

abbrev pub auto_status : AccessRequestRow → Uuid → Option Store.SecretRow → AccessRequestStatus
auto_status row grant_id secret = record {
  request_id = row.id;
  state = RequestState.approved;
  grant_id = some grant_id;
  deny_reason = none;
  expires_at = row.expires_at;
  granted_secret_name = elim secret [ none ↦ none | some s ↦ some s.name ];
  auto_approved = true;
}

abbrev pub pending_status : AccessRequestRow → AccessRequestStatus
pending_status row = record {
  request_id = row.id;
  state = RequestState.pending;
  grant_id = none;
  deny_reason = none;
  expires_at = row.expires_at;
  granted_secret_name = none;
  auto_approved = false;
}

-- One run of a handler: the configuration, the notifier, the client that authentication found, what
-- the handler draws, the policy table that it reads, the time that each access reads, and what other
-- requests commit before it.
pub record Setting : Type 0 where
  pub max_utc : DateTime
  pub show_uuid : Uuid → Text
  pub limits : Limits
  pub others : ℕ → Db → Db
  pub clock : ℕ → DateTime
  pub notifier : Notifier
  pub policies : List Policies.PolicyRow
  pub drawn : Drawn
  pub client : Store.ClientRow

module _ (w : Setting) where
  -- A committed row for the key: the same payload gets its state, another is refused.
  abbrev pub answer_existing : ℕ → AccessRequestRow → Handler Response
  answer_existing k row = do
    give (ensure (text_eq row.idem_mac w.drawn.idem_mac) idempotency_key_reuse)
    status ← read w.others k (status_from_row row)
    give (ok (record { code = 200; status = status }))

  abbrev pub fyi_push : AccessRequestRow → Handler (Unit {0})
  fyi_push row = do
    claimed ← transact w.others 5 (claim_for_fyi_push row.id)
    when (claimed && w.notifier.delivers)
        (change w.others 6 (mark_push_delivered (w.clock 6) row.id))

  abbrev pub approval_push : AccessRequestRow → Handler (Unit {0})
  approval_push row = do
    deduped ←
        read w.others 5
          (recent_duplicate_push row (w.drawn.process_now - push_dedup_window_seconds * second))
    if deduped then change w.others 6 (mark_push_delivered (w.clock 6) row.id) else (do
      claimed ← transact w.others 6 (claim_for_push (w.clock 6) row.id)
      when (claimed && w.notifier.delivers)
          (change w.others 7 (mark_push_delivered (w.clock 7) row.id)))

  abbrev pub granted : Option Uuid → Result ApiFailure Uuid
  granted none = err (internal (inconsistent (codes "approved request created without a grant")))
  granted (some id) = ok id

  -- After the insertion committed a new row.
  abbrev pub answer_released :
      Bool → Option Store.SecretRow → AccessRequestRow → Option Uuid → Handler Response
  answer_released fyi secret row grant = do
    grant_id ← give (granted grant)
    when (fyi && w.notifier.is_real) (fyi_push row)
    give (ok (record { code = 201; status = auto_status row grant_id secret }))

  abbrev pub answer_created :
      Decision → Option Store.SecretRow → AccessRequestRow → Option Uuid → Handler Response
  answer_created (denied reason) secret row grant = give (err (policy_denied (by_policy reason)))
  answer_created auto_approved secret row grant = answer_released false secret row grant
  answer_created notified secret row grant = answer_released true secret row grant
  answer_created approval_required secret row grant = do
    when w.notifier.is_real (approval_push row)
    give (ok (record { code = 201; status = pending_status row }))
  answer_created unreachable secret row grant =
      give (err (internal (inconsistent (codes "deny rows filtered above"))))

  abbrev pub answer_inserted : Decision → Option Store.SecretRow → InsertOutcome → Handler Response
  answer_inserted decision secret pending_cap_exceeded = give (err too_many_pending)
  answer_inserted decision secret (existing row) = answer_existing 5 row
  answer_inserted decision secret (created row grant) = answer_created decision secret row grant

  -- A genuinely new request.
  abbrev pub create_new : CreateAccessRequest → Handler Response
  create_new req = do
    constraints ← give (validate_request req)
    secret ← read w.others 1 (λ db. get_secret_by_name db req.secret_name)
    tags ← read w.others 2 (tags_at secret)
    let requested : RequestedGrant = record {
      secret_name = req.secret_name;
      mechanism = req.mechanism;
      constraints = constraints;
    }
    evaluation ← give (evaluated w.max_utc w.client secret tags requested w.policies (w.clock 3))
    grant ← give (auto_grant w.show_uuid w.client req constraints secret (w.clock 3) evaluation)
    outcome ← transact w.others 4 (
        insert_access_request_with_id (w.clock 4) w.drawn.request_id w.drawn.grant_id
          (new_row w.limits w.client req constraints w.drawn.idem_mac (w.clock 3) evaluation)
          (pending_cap w.limits evaluation.decision)
          (resolution w.show_uuid evaluation.decision grant)
          (if has_context req then some w.drawn.sealed else none))
    answer_inserted evaluation.decision secret outcome

  abbrev pub answer_retry : CreateAccessRequest → Option AccessRequestRow → Handler Response
  answer_retry req (some row) = answer_existing 1 row
  answer_retry req none = create_new req

  unfoldable pub create : CreateAccessRequest → Handler Response
  create req = do
    give (validate_idempotency_key req.idempotency_key)
    seen ← read w.others 0 (λ db. get_request_by_idem db w.client.name req.idempotency_key)
    answer_retry req seen

  unfoldable pub status : Uuid → Handler AccessRequestStatus
  status id = do
    row ← read w.others 0 (owned_request w.client.name id)
    found ← give row
    read w.others 1 (status_from_row found)
