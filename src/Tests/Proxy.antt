-- ===== src/Tests/Proxy.antt =====
-- server/src/proxy.rs and server/src/injection.rs: a template that is written, and a proxied call.
use keychute.Api.{body_too_large, owned_grant, revalidate_grant}
use keychute.Api.Between.{read, transact, change, give, when, ◌>>=◌}
use keychute.Paths.{canonicalize, decode, check_decoded, chars, has_double_slash, prefix_matches}
use keychute.Prelude.{
  err, ◌≡◌, refl, true, false, [], ◌∷◌, some, none, codes, ok, text_eq, split_once, split_byte,
  before_byte, starts_with, to_ascii_lowercase, to_ascii_uppercase, eq_ignore_ascii_case,
}
use keychute.Proxy.Handle.{identify, aim, resolve, charge, forward, prepare, proxy}
use keychute.Proxy.Handle.Authorized.{Authorized, prepare-Authorized}
use keychute.Proxy.Headers.{
  build_outbound_headers, build_response_headers, connection_named, insert_all, trim_start,
  trim_end,
}
use keychute.Proxy.Injection.{spec_of, validate, injection_header}
use keychute.Proxy.Placed.{placed_at, outbound_url, escape_percent, injected}
use keychute.Proxy.Setting.{Setting, Sent, unreachable}
use keychute.Proxy.Target.{
  Request, strip_prefix, proxy_suffix, grant_id_from_path, permitted, buffered, to_display,
}
use keychute.Proxy.Template.{validate_injection, validate_header, validate_basic, validate_sigv4}
use keychute.Proxy.Template.Usable.{IsUsable, validate_injection-IsUsable}
use keychute.Store.{Db, ClientRow, SecretRow, SecretVersionRow, GrantRow}
use keychute.Store.Grants.{begin_grant_use, account}
use keychute.Types.{Origin, Constraints, mechanism_from_str, tier_from_int}

proxied : Unit {0}
unfolding owned_grant revalidate_grant read transact change give when ◌>>=◌ canonicalize decode
    check_decoded chars has_double_slash prefix_matches text_eq split_once split_byte before_byte
    starts_with to_ascii_lowercase to_ascii_uppercase eq_ignore_ascii_case identify aim resolve
    charge forward prepare proxy build_outbound_headers build_response_headers connection_named
    insert_all trim_start trim_end spec_of validate injection_header placed_at outbound_url
    escape_percent injected strip_prefix proxy_suffix grant_id_from_path permitted buffered
    to_display validate_injection validate_header validate_basic validate_sigv4 begin_grant_use
    account mechanism_from_str tier_from_int
proxied = tt

abbrev client : ClientRow
client = record {
  name = codes "agent";
  max_tier = 2;
  mechanisms = codes "brokered" ∷ [];
  enabled = true;
  may_store_secrets = false;
}

abbrev secret : SecretRow
secret = record {
  id = 7;
  name = codes "token";
  description = [];
  max_tier = 2;
  injection_kind = codes "header";
  injection_header = some (codes "X-Api-Key");
  injection_username = none;
  current_version = 1;
  enabled = true;
  operator_vetted = true;
  managed_by_config = false;
  created_at = 1;
  updated_at = 1;
}

accepted :
    validate_injection (codes "header") (some (codes "X-Api-Key")) none
    ≡ ok (codes "header", (some (codes "X-Api-Key"), none))
unfolding proxied
accepted = refl

validate_injection-IsUsable_example : IsUsable (λ n. some (to_ascii_lowercase n)) secret
validate_injection-IsUsable_example =
    validate_injection-IsUsable (λ n. some (to_ascii_lowercase n)) secret (λ n token short. refl)
      (codes "header") (some (codes "X-Api-Key")) none
      (codes "header", (some (codes "X-Api-Key"), none)) accepted (refl, refl, refl)

abbrev version : SecretVersionRow
version = record {
  id = 5;
  secret_id = 7;
  version = 1;
  ciphertext = codes "c";
  nonce = codes "n";
  wrapped_dek = codes "d";
  kek_id = codes "k";
  created_at = 1;
  created_by_request = none;
}

abbrev upstream : Origin
upstream = record { host = codes "api.test"; port = some 8443 }

abbrev scope : Constraints
scope = record {
  origins = upstream ∷ [];
  methods = codes "GET" ∷ [];
  path_prefixes = codes "/v1" ∷ [];
  ttl_seconds = 60;
  max_uses = some 2;
}

abbrev grant : GrantRow
grant = record {
  id = 30;
  request_id = 20;
  client_name = codes "agent";
  secret_name = codes "token";
  mechanism = codes "brokered";
  constraints = scope;
  not_after = 900;
  max_uses = some 2;
  use_count = 1;
  revoked = false;
  passthrough_ciphertext = none;
  passthrough_nonce = none;
  passthrough_wrapped_dek = none;
  passthrough_ephemeral = false;
  created_at = 10;
}

abbrev initial : Db
initial = record {
  clients = client ∷ [];
  secrets = secret ∷ [];
  secret_versions = version ∷ [];
  secret_tags = [];
  access_requests = [];
  grants = grant ∷ [];
  grant_reads = [];
  audit_log = [];
}

abbrev setting : Setting
setting = record {
  others = λ k db. db;
  clock = λ k. 100;
  client_name = codes "agent";
  replay_window_seconds = 60;
  proxy_max_body_bytes = 8;
  is_method = λ m. true;
  slot_free = true;
  parse_uuid = λ t. some 30;
  to_str = λ v. some v;
  header_name = λ n. some (to_ascii_lowercase n);
  header_value = λ v. some v;
  base64 = λ b. b;
  parse_url = λ origin path query. some (record { text = origin; path = path; query = query });
  open_keyset = λ v. some (codes "s3cret");
  sign = λ scope secret method url extra body. record {
    authorization = [];
    amz_date = [];
    content_sha256 = [];
  };
  exchange = λ sent. unreachable;
  audit_arrives = true;
}

abbrev asked : Request
asked = record {
  method = codes "get";
  path = codes "/v1/grants/x/proxy/v1/a%20b";
  query = some (codes "q=1");
  headers =
      (codes "accept", codes "*/*")
      ∷ (codes "cookie", codes "c=1")
      ∷ (codes "connection", codes "x-hop")
      ∷ (codes "x-hop", codes "1")
      ∷ (codes "x-api-key", codes "mine")
      ∷ [];
  body = some (codes "body") ∷ [];
}

abbrev sent : Sent
sent = record {
  call = record { origin = upstream; method = codes "GET"; path = codes "/v1/a b" };
  url = record {
    text = codes "https://api.test:8443";
    path = codes "/v1/a b";
    query = some (codes "q=1");
  };
  headers = (codes "x-api-key", codes "s3cret") ∷ (codes "accept", codes "*/*") ∷ [];
  body = codes "body";
  grant = grant;
  version_id = 5;
}

abbrev after : Db
after = (prepare setting 30 asked initial).1

prepared : prepare setting 30 asked initial ≡ (ok sent, after)
unfolding proxied
prepared = refl

prepare-Authorized_example : Authorized setting 30 asked initial after sent
prepare-Authorized_example = prepare-Authorized setting 30 asked initial after sent prepared

abbrev long : Request
long = record asked { body = some (codes "body") ∷ some (codes "12345") ∷ [] }

too_long : proxy setting long initial ≡ (err body_too_large, initial)
unfolding proxied
too_long = refl
