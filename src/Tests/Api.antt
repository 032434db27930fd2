-- ===== src/Tests/Api.antt =====
-- server/src/api/: a request that a standing policy releases, and the read of its grant.
use keychute.Api.Create
use keychute.Api.Grants
use keychute.Store
use keychute.Store.Policies
use keychute.Api.{CreateAccessRequest, status_from_row, owned_grant, revalidate_grant}
use keychute.Api.Between.{read, transact, change, give, when, ◌>>=◌}
use keychute.Api.Create.{create, Response, tags_at}
use keychute.Api.Create.Denied.{create-denied}
use keychute.Api.Create.Inserted.{asked, secret_seen, at_tags}
use keychute.Api.Create.Released.{AutoReleased, create-AutoReleased}
use keychute.Api.Decide.{evaluated, auto_grant}
use keychute.Api.Grants.{read_grant, open_passthrough, SecretEncoding, ReadGrantResponse}
use keychute.Api.Inputs.{
  parse_row, unparseable, policy_inputs, policy_rows, row_is_applicable_raw, known_mechanisms,
}
use keychute.Api.Validation.{
  validate_request, validate_idempotency_key, normal_constraints, normal_methods, normal_uses,
  canonicalize_all,
}
use keychute.Api.Validation.Normal.{IsNormal, validate_request-IsNormal}
use keychute.Paths.{canonicalize, decode, check_decoded, chars, has_double_slash, prefix_matches}
use keychute.Paths.Canonical.{Bytes}
use keychute.Policy.{
  is_valid_http_method, outcome_from_str, evaluate, winner, hard_caps, clamped, precedence_key,
  is_applicable, scopes_overlap, request_is_subset,
}
use keychute.Prelude.{
  ℕ, ◌≡◌, refl, inl, inr, true, false, [], ◌∷◌, some, none, err, arith, Text, codes, ok, In,
  split_byte, before_byte, text_eq, starts_with, to_ascii_uppercase,
}
use keychute.Prelude.Int.{pos}
use keychute.Prelude.Order.{max_by}
use keychute.Store.{Db}
use keychute.Store.Approvals.{insert_access_request_with_id}
use keychute.Store.Grants.{begin_grant_use, account}
use keychute.Store.Requests.{insert_grant}
use keychute.Store.Steps.{Reach, start}
use keychute.Types.{mechanism_from_str, tier_from_int, Constraints, RequestState, Mechanism}

abbrev client : Store.ClientRow
client = record {
  name = codes "agent";
  max_tier = 2;
  mechanisms = codes "cli-read" ∷ [];
  enabled = true;
  may_store_secrets = false;
}

abbrev secret : Store.SecretRow
secret = record {
  id = 7;
  name = codes "token";
  description = [];
  max_tier = 2;
  injection_kind = codes "bearer";
  injection_header = none;
  injection_username = none;
  current_version = 1;
  enabled = true;
  operator_vetted = true;
  managed_by_config = false;
  created_at = 1;
  updated_at = 1;
}

abbrev version : Store.SecretVersionRow
version = record {
  id = 5;
  secret_id = 7;
  version = 1;
  ciphertext = codes "c";
  nonce = codes "n";
  wrapped_dek = codes "d";
  kek_id = codes "k";
  created_at = 1;
  created_by_request = none;
}

abbrev initial : Db
initial = record {
  clients = client ∷ [];
  secrets = secret ∷ [];
  secret_versions = version ∷ [];
  secret_tags = [];
  access_requests = [];
  grants = [];
  grant_reads = [];
  audit_log = [];
}

abbrev standing : Policies.PolicyRow
standing = record {
  id = 1;
  client_name = none;
  secret_name = some (codes "token");
  secret_tag = none;
  mechanism = codes "cli-read";
  outcome = codes "auto-approve";
  priority = pos 0;
  origins = some [];
  methods = [];
  path_prefixes = [];
  max_ttl_seconds = some (pos 600);
  max_uses = none;
  not_after = some 900;
  created_by = codes "op";
  created_at = 1;
  managed_by_config = false;
}

-- A row that names its outcome wrongly.
abbrev garbled : Policies.PolicyRow
garbled = record standing { id = 2; outcome = codes "allow" }

abbrev wanted : CreateAccessRequest
wanted = record {
  idempotency_key = codes "key";
  secret_name = codes "token";
  mechanism = Mechanism.cli_read;
  constraints = record {
    origins = [];
    methods = codes "get" ∷ [];
    path_prefixes = codes "/a%20b" ∷ [];
    ttl_seconds = 60;
    max_uses = none;
  };
  context = record { reason = []; structured = none };
}

abbrev kept : Constraints
kept = record {
  origins = [];
  methods = codes "GET" ∷ [];
  path_prefixes = codes "/a b" ∷ [];
  ttl_seconds = 60;
  max_uses = some 1;
}

abbrev setting : Create.Setting
setting = record {
  max_utc = 1000000;
  show_uuid = λ id. codes "id";
  limits = record {
    max_pending_per_client = 10;
    request_expiry_seconds = 3600;
    replay_window_seconds = 60;
  };
  others = λ k db. db;
  clock = λ k. 100;
  notifier = record { is_real = false; delivers = false };
  policies = standing ∷ [];
  drawn = record {
    request_id = 20;
    grant_id = 30;
    idem_mac = codes "m";
    sealed = none;
    process_now = 100;
  };
  client = client;
}

api : Unit {0}
unfolding validate_request validate_idempotency_key normal_constraints normal_methods normal_uses
    canonicalize_all is_valid_http_method canonicalize decode check_decoded chars has_double_slash
    split_byte before_byte text_eq starts_with to_ascii_uppercase create evaluated policy_inputs
    policy_rows parse_row row_is_applicable_raw known_mechanisms mechanism_from_str tier_from_int
    outcome_from_str evaluate winner hard_caps clamped precedence_key is_applicable scopes_overlap
    request_is_subset max_by prefix_matches auto_grant insert_access_request_with_id insert_grant
    read transact change give when ◌>>=◌ status_from_row begin_grant_use account read_grant
    owned_grant revalidate_grant open_passthrough
api = tt

valid : validate_request wanted ≡ ok kept
unfolding api
valid = refl

abbrev answered : Response
answered = record {
  code = 201;
  status = record {
    request_id = 20;
    state = RequestState.approved;
    grant_id = some 30;
    deny_reason = none;
    expires_at = 3600000100;
    granted_secret_name = some (codes "token");
    auto_approved = true;
  };
}

abbrev after : Db
after = (create setting wanted initial).1

created_now : create setting wanted initial ≡ (ok answered, after)
unfolding api
created_now = refl

abbrev undisturbed : (k : ℕ) (db : Db) → Reach db (setting.others k db)
undisturbed k db = start

create-AutoReleased_example : AutoReleased setting wanted initial after
create-AutoReleased_example =
    create-AutoReleased setting undisturbed wanted initial after answered created_now refl refl

abbrev with_garbled : Create.Setting
with_garbled = record setting { policies = standing ∷ garbled ∷ [] }

garbled_applies :
    row_is_applicable_raw garbled
      (codes "agent")
      (asked with_garbled wanted kept)
      (tags_at (secret_seen with_garbled wanted initial) (at_tags with_garbled initial))
      100
    ≡ true
unfolding api
garbled_applies = refl

garbled_unparseable : parse_row garbled ≡ err unparseable
unfolding api
garbled_unparseable = refl

create-denied_example : ¬ (
    (db' : Db) × (resp : Response) × (create with_garbled wanted initial ≡ (ok resp, db'))
    × (resp.code ≡ 201)
    × (resp.status.state ≡ RequestState.approved))
create-denied_example =
    create-denied with_garbled undisturbed wanted initial kept garbled valid (inr (inl refl))
      garbled_applies (inl garbled_unparseable)

wanted-Bytes : (p : Text) → In p wanted.constraints.path_prefixes → Bytes p
wanted-Bytes p (inl e) = let b : Bytes (codes "/a%20b") = omega arith in rw (← e) b
wanted-Bytes p (inr x) = elim x [ ]

validate_request-IsNormal_example : IsNormal Mechanism.cli_read kept
validate_request-IsNormal_example = validate_request-IsNormal wanted kept wanted-Bytes valid

abbrev reading : Grants.Setting
reading = record {
  replay_window_seconds = 60;
  others = λ k db. db;
  clock = λ k. 200;
  client_name = codes "agent";
  open_ephemeral = λ ct nonce dek id. none;
  open_keyset = λ v. some (codes "s3cret");
  base64 = λ bytes. bytes;
  audit_arrives = true;
}

abbrev handed : ReadGrantResponse
handed = record { secret = codes "s3cret"; encoding = SecretEncoding.utf8; secret_version_id = 5 }

abbrev after_read : Db
after_read = (read_grant reading 30 (codes "r1") after).1
