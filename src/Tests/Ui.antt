-- ===== src/Tests/Ui.antt =====
-- server/src/ui/: an approval of a stored secret, its token, a denial and a revocation.
use keychute.Crypto
use keychute.Store
use keychute.Between.{◌>>=◌, give, read, transact}
use keychute.Crypto.{csrf_mac}
use keychute.Prelude.{
  ℕ, zero, suc, ◌+◌, ◌≤◌, ◌<◌, ◌≡◌, refl, ◌↔◌, true, false, none, some, [], ◌∷◌, arith, Text, codes,
  text_eq, ok, split_once, length, any, ◌==◌,
}
use keychute.Prelude.Bytes.{be_bytes, from_be}
use keychute.Prelude.Int.{pos}
use keychute.Prelude.Numerals.{decimal, digits, parse_i32, parse_unsigned}
use keychute.Prelude.Trim.{drop_space, trim}
use keychute.Proxy.Target.{strip_prefix}
use keychute.Store.{Db}
use keychute.Store.Approvals.{approve_request}
use keychute.Store.Grants.{revoke_grant}
use keychute.Store.Requests.{insert_grant, resolve_deny}
use keychute.Types.{Constraints, RequestState, mechanism_from_str}
use keychute.Ui.{r_approve, r_deny, r_revoke}
use keychute.Ui.Approve.{approve, choose, commit, deadline}
use keychute.Ui.Approve.Approved.{Approved}
use keychute.Ui.Between.{Setting, check_post}
use keychute.Ui.Choice.{choose_stored}
use keychute.Ui.Csrf.{Form, issue_token, verify_token, browser_metadata_ok, mac_input, timestamp}
use keychute.Ui.Csrf.Binding.{Encodes, IsPlain, NoNul, verify-issue_iff}
use keychute.Ui.Forms.{
  ApproveForm, non_empty, parse_narrow_u64, parse_secret_present, secret_state_marker,
  substitute_option_value, parse_substitute_option, take_secret_value, policy_cap_elapsed,
}
use keychute.Ui.Forms.Markers.{parse-substitute_option_value}
use keychute.Ui.Resolve.{deny, revoke}
use keychute.Ui.Terms.{identify, still_pending, terms_of}

-- A MAC of 32 bytes, all zero but the first, which counts its input; the encoding is the identity.
abbrev zeros : ℕ → Text
zeros zero = []
zeros (suc n) = 0 ∷ zeros n

abbrev packages : Crypto.Packages
packages = record {
  encrypt = λ k n m a. none;
  decrypt = λ k n m a. none;
  hmac_sha256 = λ key m. length m ∷ zeros 31;
  base64_decode = λ s. some s;
  show_uuid = λ id. decimal id;
}

abbrev keyset : Crypto.Keyset
keyset = record { active = codes "k0"; keys = []; mac_key = [] }

abbrev form_of : Text → Text → Form
form_of route marker = record {
  route = route;
  action_id = decimal 20;
  subject = codes "op";
  form_state = marker;
}

abbrev token_of : Text → Text → Text
token_of route marker =
    issue_token (csrf_mac packages keyset) (λ s. s) (form_of route marker) 5000000

abbrev setting : Setting
setting = record {
  operator = ok (record { subject = codes "op" });
  external_url = codes "https://keychute.example";
  tls = true;
  headers = [];
  parse_url = λ s. none;
  to_str = λ s. some s;
  base64_url_decode = λ s. some s;
  packages = packages;
  keyset = keyset;
  ephemeral_kek = [];
  draws = record { dek = []; payload_nonce = []; wrap_nonce = [] };
  grant_id = 30;
  secret_id = 31;
  version_id = 32;
  policies = [];
  max_utc = 1000000000000000;
  seconds_before_epoch = 8334601228800;
  process_now = 6000000;
  others = λ k db. db;
  clock = λ k. 6000000;
}

abbrev secret : Store.SecretRow
secret = record {
  id = 7;
  name = codes "token";
  description = [];
  max_tier = 2;
  injection_kind = codes "bearer";
  injection_header = none;
  injection_username = none;
  current_version = 3;
  enabled = true;
  operator_vetted = true;
  managed_by_config = false;
  created_at = 1;
  updated_at = 1;
}

abbrev asked : Constraints
asked = record {
  origins = [];
  methods = [];
  path_prefixes = [];
  ttl_seconds = 60;
  max_uses = some 1;
}

abbrev request : Store.AccessRequestRow
request = record {
  id = 20;
  client_name = codes "agent";
  secret_name = codes "token";
  mechanism = codes "cli-read";
  constraints = asked;
  context_ciphertext = none;
  context_nonce = none;
  context_wrapped_dek = none;
  context_kek_id = none;
  state = RequestState.pending;
  policy_not_after = some 30000000;
  deny_reason = none;
  resolved_by = none;
  created_at = 1;
  resolved_at = none;
  expires_at = 90000000;
  push_delivered_at = none;
  push_attempts = 0;
  notify_only = false;
  idem_client = codes "agent";
  idem_key = codes "key";
  idem_mac = codes "m";
}

abbrev initial : Db
initial = record {
  clients = [];
  secrets = secret ∷ [];
  secret_versions = [];
  secret_tags = [];
  access_requests = request ∷ [];
  grants = [];
  grant_reads = [];
  audit_log = [];
}

abbrev submitted : ApproveForm
submitted = record {
  csrf_token = token_of r_approve (codes "1:3");
  secret_present = some (codes " 1:3 ");
  ttl_seconds = some (codes "45");
  max_uses = none;
  secret_value = none;
  substitute_secret = none;
  store_secret = none;
  store_max_tier = none;
  injection_kind = none;
  injection_header = none;
  store_description = none;
}

ui : Unit {0}
unfolding approve identify check_post still_pending terms_of choose commit choose_stored deadline
    approve_request insert_grant read transact give ◌>>=◌ non_empty parse_narrow_u64
    parse_secret_present secret_state_marker take_secret_value policy_cap_elapsed verify_token
    issue_token browser_metadata_ok mac_input be_bytes from_be csrf_mac decimal digits parse_i32
    parse_unsigned drop_space trim strip_prefix mechanism_from_str text_eq deny revoke resolve_deny
    revoke_grant substitute_option_value parse_substitute_option split_once
ui = tt

abbrev after : Db
after = (approve setting 20 submitted initial).1

parse-substitute_option_value_example :
    parse_substitute_option (substitute_option_value secret) ≡ some (pos 3, codes "token")
parse-substitute_option_value_example = parse-substitute_option_value secret (omega arith) refl

plain : (s : Text) → any (λ b. b == 0) s ≡ false → NoNul s
plain [] h = tt
plain (b ∷ s) h = (ground arith, plain s (ground arith))

abbrev page : Form
page = form_of r_approve (codes "1:3")

page-IsPlain : IsPlain page
unfolding decimal
page-IsPlain = (
  plain page.route refl,
  plain page.action_id refl,
  plain page.subject refl,
  plain page.form_state refl,
)

mac-Encodes : Encodes (csrf_mac packages keyset) (λ s. s) (λ s. some s)
unfolding csrf_mac
mac-Encodes = record { sized = λ s. refl; decodes = λ s. refl }

verify-issue_iff_example :
    (verify_token
        (csrf_mac packages keyset)
        (λ s. some s)
        page
        (issue_token (csrf_mac packages keyset) (λ s. s) page 5000000)
        6000000
      ≡ true)
    ↔ ((page ≡ page)
        × (timestamp 5000000 ≤ timestamp 6000000)
        × (timestamp 6000000 < timestamp 5000000 + 900))
verify-issue_iff_example =
    verify-issue_iff (csrf_mac packages keyset) (λ s. s) (λ s. some s) mac-Encodes page page 5000000
      6000000 page-IsPlain page-IsPlain (omega arith) (λ same. refl)

abbrev denied_db : Db
denied_db = (deny setting 20 (token_of r_deny []) initial).1

abbrev revoked_db : Db
revoked_db = (revoke setting 30 (token_of r_revoke []) after).1
