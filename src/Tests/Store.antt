-- ===== src/Tests/Store.antt =====
-- The store's transactions, from a database with one stored secret and one pending request.
use keychute.Prelude.{
  ◌==◌, Bool-cases, inl, inr, ◌≡◌, refl, true, false, [], ◌∷◌, some, none, codes, text_eq, ok,
}
use keychute.Store.{
  AuditEvent, event, request_approved, replay, Db, SecretRow, AccessRequestRow, GrantRow,
  release_attempt, get_grant, get_request, GrantReadRow,
}
use keychute.Store.Approvals.{ApproveOutcome, approve_request}
use keychute.Store.Grants.{replayed, exhausted, first_use, begin_grant_use, account}
use keychute.Store.Grants.Effect.{begin-Effect, Effect}
use keychute.Store.Requests.{GrantParams, insert_grant, new_grant}
use keychute.Store.Steps.{Step, Reach, start, then_step}
use keychute.Store.Steps.Accounts.{IsAccounted}
use keychute.Store.Steps.Change.{RequestKept, GrantKept}
use keychute.Store.Steps.Invariants.{Reach-request, Reach-grant, Reach-IsMatched, Reach-IsAccounted}
use keychute.Store.Steps.Lifecycle.{IsMatched}
use keychute.Types.{Constraints, RequestState}

store : Unit {0}
unfolding approve_request insert_grant begin_grant_use account text_eq
store = tt

abbrev token : SecretRow
token = record {
  id = 7;
  name = codes "token";
  description = [];
  max_tier = 2;
  injection_kind = codes "bearer";
  injection_header = none;
  injection_username = none;
  current_version = 1;
  enabled = true;
  operator_vetted = true;
  managed_by_config = false;
  created_at = 1;
  updated_at = 1;
}

abbrev scope : Constraints
scope = record {
  origins = [];
  methods = [];
  path_prefixes = [];
  ttl_seconds = 60;
  max_uses = some 1;
}

abbrev asked : AccessRequestRow
asked = record {
  id = 20;
  client_name = codes "agent";
  secret_name = codes "token";
  mechanism = codes "cli-read";
  constraints = scope;
  context_ciphertext = none;
  context_nonce = none;
  context_wrapped_dek = none;
  context_kek_id = none;
  state = RequestState.pending;
  policy_not_after = none;
  deny_reason = none;
  resolved_by = none;
  created_at = 10;
  resolved_at = none;
  expires_at = 1000;
  push_delivered_at = none;
  push_attempts = 0;
  notify_only = false;
  idem_client = codes "agent";
  idem_key = codes "k";
  idem_mac = codes "m";
}

abbrev before : Db
before = record {
  clients = [];
  secrets = token ∷ [];
  secret_versions = [];
  secret_tags = [];
  access_requests = asked ∷ [];
  grants = [];
  grant_reads = [];
  audit_log = [];
}

abbrev params : GrantParams
params = record {
  client_name = codes "agent";
  secret_name = codes "token";
  secret_id = some 7;
  mechanism = codes "cli-read";
  constraints = scope;
  not_after = 900;
  max_uses = some 1;
  passthrough = none;
}

abbrev approved_row : AccessRequestRow
approved_row = record asked {
  state = RequestState.approved;
  resolved_by = some (codes "op");
  resolved_at = some 100;
}

abbrev minted : GrantRow
minted = new_grant 100 30 20 params

-- The log row that the approval writes.
abbrev approval_logged : AuditEvent
approval_logged = record (event 100 request_approved) {
  request_id = some 20;
  grant_id = some 30;
  client_name = some (codes "agent");
  secret_name = some (codes "token");
  actor = some (codes "op");
}

abbrev after : Db
after = record before {
  access_requests = approved_row ∷ [];
  grants = minted ∷ [];
  audit_log = approval_logged ∷ [];
}

approval :
    approve_request 100 20 (codes "op") 30 31 params none before
    ≡ ok (ApproveOutcome.approved 30, after)
unfolding store
approval = refl

abbrev used_grant : GrantRow
used_grant = record minted { use_count = 1 }

-- The first use of the grant under a key, a replay of it, and a use under another key.
abbrev use_logged : AuditEvent
use_logged = record (event 200 release_attempt) {
  request_id = some 20;
  grant_id = some 30;
  client_name = some (codes "agent");
  secret_name = some (codes "token");
  secret_version_id = some 5;
}

abbrev first_read : GrantReadRow
first_read = record {
  grant_id = 30;
  idem_key = codes "a";
  secret_version_id = some 5;
  passthrough = false;
  first_read_at = 200;
}

abbrev spent : Db
spent = record after {
  grants = used_grant ∷ [];
  grant_reads = first_read ∷ [];
  audit_log = use_logged ∷ approval_logged ∷ [];
}

read_once :
    begin_grant_use 200 30 (some (codes "a")) (some 5) release_attempt 60 none after
    ≡ ok (first_use used_grant, spent)
unfolding store
read_once = refl

read_again :
    begin_grant_use 210 30 (some (codes "a")) (some 6) release_attempt 60 none spent
    ≡ ok (
      replayed used_grant (some 5) false,
      record spent {
        audit_log = record use_logged { at = 210; detail = some replay } ∷ spent.audit_log;
      },
    )
unfolding store
read_again = refl

read_more :
    begin_grant_use 210 30 (some (codes "b")) (some 6) release_attempt 60 none spent
    ≡ ok (exhausted, spent)
unfolding store
read_more = refl

history : Reach before spent
history =
    then_step after spent
      (then_step before after start (
        Step.approved 100 20 (codes "op") 30 31 params none (ApproveOutcome.approved 30) after
          approval))
      (Step.used 200 30 (some (codes "a")) (some 5) release_attempt 60 none (first_use used_grant)
        spent refl read_once)

Reach-request_example :
    (r' : AccessRequestRow) × (get_request spent 20 ≡ some r') × RequestKept asked r'
Reach-request_example = Reach-request before spent 20 asked history refl

second_use : Reach after spent
second_use = then_step after spent start (
    Step.used 200 30 (some (codes "a")) (some 5) release_attempt 60 none (first_use used_grant)
      spent refl read_once)

Reach-grant_example : (g' : GrantRow) × (get_grant spent 30 ≡ some g') × GrantKept minted g'
Reach-grant_example = Reach-grant after spent 30 minted second_use refl

before-IsMatched : IsMatched before
before-IsMatched id = elim (Bool-cases (20 == id)) [ inl e ↦ rw e refl | inr e ↦ rw e refl ]

Reach-IsMatched_example : IsMatched spent
Reach-IsMatched_example = Reach-IsMatched before spent history before-IsMatched

before-IsAccounted : IsAccounted before
before-IsAccounted id = refl

Reach-IsAccounted_example : IsAccounted spent
Reach-IsAccounted_example = Reach-IsAccounted before spent history before-IsAccounted

begin-Effect_example :
    Effect 200 30
      (some (codes "a"))
      (some 5)
      release_attempt
      60
      none
      after
      (first_use used_grant)
      spent
begin-Effect_example =
    begin-Effect 200 30 (some (codes "a")) (some 5) release_attempt 60 none after spent
      (first_use used_grant) read_once
