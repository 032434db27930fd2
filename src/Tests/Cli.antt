-- ===== src/Tests/Cli.antt =====
-- cli/src/curl.rs: a call, the grant that it asks for, the body and the key of its retry.
use keychute.Api.{CreateAccessRequest}
use keychute.Api.Grants.{GrantInfo}
use keychute.Api.Validation.{
  normal_constraints, validate_request, normal_methods, canonicalize_all, normal_uses,
}
use keychute.Cli.{Target, fail, exit_config, normalize_method}
use keychute.Cli.Body.{
  Piece, literal, source, parse_max_body, until_cut, join_cut, strip_like_curl, read_bounded,
  add_pieces, read_body_with,
}
use keychute.Cli.Body.Bounded.{joined, read_body-joined}
use keychute.Cli.Constraints.{add_methods, canonical_prefixes, checked_prefixes, constraints_for}
use keychute.Cli.Constraints.Served.{constraints_for-permitted}
use keychute.Cli.Key.{call_bound_idempotency_key, preimage, header_fields, Call}
use keychute.Cli.Key.Bound.{Fits, SameCall, preimage_inj}
use keychute.Cli.Options.{CurlArgs, validate_grant_options, validate_new_grant}
use keychute.Cli.Options.Fit.{AcceptsTokens}
use keychute.Cli.Preflight.{check_grant_covers, proxied}
use keychute.Cli.Preflight.Permitted.{check_grant_covers-permitted}
use keychute.Cli.Request.{access_request}
use keychute.Cli.Request.Accepted.{access_request-accepted}
use keychute.Paths.{canonicalize, prefix_matches, decode, chars, check_decoded, has_double_slash}
use keychute.Policy.{is_valid_http_method}
use keychute.Prelude.{
  ◌≤◌, ◌≡◌, refl, true, false, none, some, List, [], ◌∷◌, arith, Text, codes, text_eq, ok, err,
  length, to_ascii_uppercase, starts_with, split_byte, before_byte, byte_at, eq_ignore_ascii_case,
}
use keychute.Prelude.Bytes.{sized, be_bytes}
use keychute.Prelude.Numerals.{decimal, digits, parse_unsigned}
use keychute.Prelude.Trim.{drop_space, trim}
use keychute.Proxy.Target.{permitted, to_display}
use keychute.Types.{Constraints, Mechanism, Origin, same_target}

abbrev api_test : Origin
api_test = record { host = codes "api.test"; port = none }

abbrev target : Target
target = record { origin = api_test; path = codes "/v1/a%20b"; query = some (codes "q=1") }

-- The grant names the port that the URL leaves out.
abbrev grant : GrantInfo
grant = record {
  grant_id = 30;
  mechanism = Mechanism.brokered;
  constraints = record {
    origins = record { host = codes "api.test"; port = some 443 } ∷ [];
    methods = codes "GET" ∷ codes "POST" ∷ [];
    path_prefixes = codes "/v1" ∷ [];
    ttl_seconds = 600;
    max_uses = some 2;
  };
  not_after = 1000;
  max_uses = some 2;
  use_count = 1;
  revoked = false;
  server_time = some 500;
}

cli : Unit {0}
unfolding access_request call_bound_idempotency_key preimage header_fields sized be_bytes to_display
    decimal keychute.Cli.Request.validate_idempotency_key validate_grant_options validate_new_grant
    constraints_for add_methods normalize_method to_ascii_uppercase trim drop_space text_eq
    checked_prefixes canonical_prefixes canonicalize starts_with decode check_decoded chars
    has_double_slash split_byte before_byte byte_at prefix_matches is_valid_http_method
    eq_ignore_ascii_case check_grant_covers normal_constraints normal_methods canonicalize_all
    normal_uses read_body_with add_pieces read_bounded strip_like_curl join_cut until_cut
    parse_max_body parse_unsigned digits
cli = tt

covered : check_grant_covers 700 grant target (codes "POST") ≡ ok tt
unfolding cli
covered = refl

uncovered : check_grant_covers 700 grant target (codes "PUT") ≡ err (fail exit_config)
unfolding cli
uncovered = refl

post : normalize_method is_valid_http_method (codes " post ") ≡ ok (codes "POST")
unfolding cli
post = refl

clean : canonicalize target.path ≡ ok (codes "/v1/a b")
unfolding cli
clean = refl

check_grant_covers-permitted_example :
    (o : Origin) × (same_target o target.origin ≡ true)
    × (permitted grant.constraints (proxied (codes "30") target (codes "POST") [] [])
        ≡ ok (record { origin = o; method = codes "POST"; path = codes "/v1/a b" }))
check_grant_covers-permitted_example =
    check_grant_covers-permitted is_valid_http_method (codes " post ") (codes "POST") (codes "30")
      (codes "v1/a%20b") (codes "/v1/a b") grant target [] [] 700 post refl refl clean covered

abbrev asked : Constraints
asked = record {
  origins = api_test ∷ [];
  methods = codes "POST" ∷ codes "GET" ∷ [];
  path_prefixes = codes "/v1/a%20b" ∷ [];
  ttl_seconds = 600;
  max_uses = some 3;
}

abbrev stored : Constraints
stored = record {
  origins = api_test ∷ [];
  methods = codes "POST" ∷ codes "GET" ∷ [];
  path_prefixes = codes "/v1/a b" ∷ [];
  ttl_seconds = 600;
  max_uses = some 3;
}

wanted :
    constraints_for is_valid_http_method target
      (codes "POST")
      (codes "get" ∷ codes "post" ∷ [])
      (codes "/v1/a%20b" ∷ [])
      600
      3
    ≡ ok asked
unfolding cli
wanted = refl

accepted : normal_constraints Mechanism.brokered asked ≡ ok stored
unfolding cli
accepted = refl

constraints_for-permitted_example :
    permitted stored (proxied (codes "30") target (codes "POST") [] [])
    ≡ ok (record { origin = api_test; method = codes "POST"; path = codes "/v1/a b" })
constraints_for-permitted_example =
    constraints_for-permitted is_valid_http_method (codes " post ") (codes "POST") (codes "30")
      (codes "v1/a%20b") (codes "/v1/a b") target (codes "get" ∷ codes "post" ∷ [])
      (codes "/v1/a%20b" ∷ []) 600 3 asked stored [] [] post refl refl (omega arith) clean wanted
      accepted

-- A file that is stripped, a literal and standard input.
abbrev pieces : List Piece
pieces = source (some (codes "a=1\nb\n")) ∷ literal (codes "x") ∷ source (some []) ∷ []

assembled : read_body_with 10 true (some pieces) ≡ ok (some (codes "a=1b&x&"))
unfolding cli
assembled = refl

-- Three empty sources under a limit of one byte.
too_long :
    read_body_with 1 true (some (source (some []) ∷ source (some []) ∷ source (some []) ∷ []))
    ≡ err (fail exit_config)
unfolding cli
too_long = refl

-- curl cuts a line at its first CR.
cut : strip_like_curl (codes "a\rb\nc") ≡ codes "ac"
unfolding cli
cut = refl

no_room : parse_max_body 10 (some (codes "0")) ≡ err (fail exit_config)
unfolding cli
no_room = refl

read_body-joined_example :
    (length (codes "a=1b&x&") ≤ 10) × (joined true true pieces ≡ some (codes "a=1b&x&"))
read_body-joined_example = read_body-joined 10 true pieces (codes "a=1b&x&") assembled

abbrev call : Call
call = record {
  method = codes "POST";
  target = target;
  headers = (codes "accept", codes "*/*") ∷ [];
  body = none;
  suppress_user_agent = false;
}

-- Each length of the call.
fits : Fits call
unfolding to_display
fits = record {
  method = omega arith;
  origin = omega arith;
  path = omega arith;
  query = omega arith;
  count = omega arith;
  headers = (omega arith, omega arith, tt);
  body = tt;
}

preimage_inj_example : SameCall call call
preimage_inj_example = preimage_inj call call fits fits refl

abbrev args : CurlArgs
args = record {
  grant_id = none;
  max_time_fits = true;
  idempotency_key = some (codes "k");
  ttl = 600;
  max_uses = 3;
  timeout = 60;
  secret = some (codes "github");
  reason = codes "backup";
  allow_methods = codes "get" ∷ [];
  path_prefixes = codes "/v1" ∷ [];
}

options_fit : validate_grant_options is_valid_http_method args target (codes "POST") ≡ ok tt
unfolding cli
options_fit = refl

tokens : AcceptsTokens is_valid_http_method
unfolding is_valid_http_method
tokens m h = ground arith

abbrev packages_sha256 : Text → Text
packages_sha256 s = decimal (length s)

access_request-accepted_example :
    (req : CreateAccessRequest) × (stored : Constraints) × (access_request is_valid_http_method
        packages_sha256 args
        (codes "00000000-0000-4000-8000-000000000000")
        call
        (codes "github")
        (codes "{}")
      ≡ ok req)
    × (validate_request req ≡ ok stored)
access_request-accepted_example =
    access_request-accepted is_valid_http_method packages_sha256 args call (codes " post ")
      (codes "00000000-0000-4000-8000-000000000000") (codes "github") (codes "{}") tokens post refl
      refl refl refl options_fit

posted :
    access_request is_valid_http_method packages_sha256
      (record args { allow_methods = codes "bad method" ∷ [] })
      (codes "00000000-0000-4000-8000-000000000000")
      call
      (codes "github")
      (codes "{}")
    ≡ err (fail exit_config)
unfolding cli
posted = refl
