-- ===== src/Api/Validation.antt =====
-- The validation of a create request in server/src/api/requests.rs.
pub mod Normal
use keychute.Api.{ApiFailure, invalid_request, request_too_large, CreateAccessRequest}
use keychute.Paths.{canonicalize, Rejection}
use keychute.Policy.{is_valid_http_method}
use keychute.Prelude.{
  ℕ, Bool, true, false, not, ◌&&◌, ◌||◌, Option, none, some, List, [], ◌∷◌, Text, codes, Result, ok,
  err, ◌>>=◌, ◌>>◌, ensure, or_err, ltb, leb, ◌==◌, ◌*◌, if◌then◌else◌, length, is_empty,
  to_ascii_uppercase,
}
use keychute.Store.{max_int}
use keychute.Types.{Mechanism, same_mechanism, Constraints}

abbrev pub max_idem_key_bytes : ℕ
max_idem_key_bytes = 128

abbrev pub max_reason_bytes : ℕ
max_reason_bytes = 4 * 1024

abbrev pub max_structured_bytes : ℕ
max_structured_bytes = 16 * 1024

abbrev pub max_constraint_entries : ℕ
max_constraint_entries = 32

abbrev pub max_ttl_seconds : ℕ
max_ttl_seconds = 30 * 24 * 3600

unfoldable pub validate_idempotency_key : Text → Result ApiFailure (Unit {0})
validate_idempotency_key key = do
  ensure (not (is_empty key)) (invalid_request (codes "idempotency_key is required"))
  ensure (leb (length key) max_idem_key_bytes)
      (request_too_large (codes "idempotency_key too long"))

abbrev pub structured_fits : Option Text → Bool
structured_fits none = true
structured_fits (some json) = leb (length json) max_structured_bytes

-- The two loops: the first entry that fails is the answer.
unfoldable pub normal_methods : List Text → Result ApiFailure (List Text)
normal_methods [] = ok []
normal_methods (m ∷ ms) = do
  ensure (is_valid_http_method m) (invalid_request (codes "invalid method"))
  rest ← normal_methods ms
  ok (to_ascii_uppercase m ∷ rest)

unfoldable pub canonicalize_all : List Text → Result Rejection (List Text)
canonicalize_all [] = ok []
canonicalize_all (p ∷ ps) = do
  canonical ← canonicalize p
  rest ← canonicalize_all ps
  ok (canonical ∷ rest)

abbrev pub brokered_uses : Option ℕ → Result ApiFailure (Option ℕ)
brokered_uses none = ok none
brokered_uses (some u) = do
  ensure (not (u == 0)) (invalid_request (codes "max_uses must be at least 1"))
  ensure (leb u max_int) (invalid_request (codes "max_uses is too large"))
  ok (some u)

-- Releasing tiers: one use, which is the default.
abbrev pub releasing_uses : Option ℕ → Result ApiFailure (Option ℕ)
releasing_uses none = ok (some 1)
releasing_uses (some u) = do
  ensure (u == 1) (invalid_request (codes "releasing-tier requests may not exceed max_uses = 1"))
  ok (some 1)

unfoldable pub normal_uses : Mechanism → Constraints → List Text → Result ApiFailure (Option ℕ)
normal_uses mechanism c methods =
    if same_mechanism mechanism Mechanism.brokered
    then (do
      ensure (length c.origins == 1)
          (invalid_request (codes "brokered requests must name exactly one origin"))
      ensure (not (is_empty methods))
          (invalid_request (codes "brokered requests must name at least one method"))
      brokered_uses c.max_uses)
    else releasing_uses c.max_uses

abbrev pub few_entries : Constraints → Bool
few_entries c =
    leb (length c.origins) max_constraint_entries
    && leb (length c.methods) max_constraint_entries
    && leb (length c.path_prefixes) max_constraint_entries

-- The constraints to store.
unfoldable pub normal_constraints : Mechanism → Constraints → Result ApiFailure Constraints
normal_constraints mechanism c = do
  ensure (few_entries c) (request_too_large (codes "too many constraint entries"))
  ensure (leb 1 c.ttl_seconds && leb c.ttl_seconds max_ttl_seconds)
      (invalid_request (codes "ttl_seconds must be between 1 and 30 days"))
  methods ← normal_methods c.methods
  prefixes ←
      or_err (canonicalize_all c.path_prefixes) (invalid_request (codes "invalid path prefix"))
  max_uses ← normal_uses mechanism c methods
  ok (record {
    origins = c.origins;
    methods = methods;
    path_prefixes = prefixes;
    ttl_seconds = c.ttl_seconds;
    max_uses = max_uses;
  })

unfoldable pub validate_request : CreateAccessRequest → Result ApiFailure Constraints
validate_request req = do
  validate_idempotency_key req.idempotency_key
  ensure (not (is_empty req.secret_name) && leb (length req.secret_name) 256)
      (invalid_request (codes "invalid secret_name"))
  ensure (leb (length req.context.reason) max_reason_bytes)
      (request_too_large (codes "context.reason too long"))
  ensure (structured_fits req.context.structured)
      (request_too_large (codes "context.structured too large"))
  normal_constraints req.mechanism req.constraints
