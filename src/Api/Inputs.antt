-- ===== src/Api/Inputs.antt =====
-- From stored rows to the inputs of the policy engine: `row_is_applicable_raw` and `policy_inputs`
-- of server/src/api/requests.rs.
pub mod FailClosed
use keychute.Policy
use keychute.Store
use keychute.Store.Policies
use mathlib.Core.Option
use keychute.Api.{ApiFailure, policy_denied, unreadable_rule}
use keychute.Api.Validation.{canonicalize_all}
use keychute.Policy.{
  RequestedGrant, has_expired, names_client, names_secret, outcome_from_str, is_valid_http_method,
}
use keychute.Prelude.{
  ℕ, Bool, true, false, not, ◌&&◌, Option, none, some, List, [], ◌∷◌, Text, text_eq, Result, ok,
  err, ◌>>=◌, ◌>>◌, ensure, ok_or, or_err, if◌then◌else◌, all,
}
use keychute.Prelude.Int.{ℤ, pos, negsuc}
use keychute.Types.{DateTime, Tier, tier_from_int, Mechanism, mechanism_from_str, mechanism_as_str}

-- Reads only the columns that always parse.
unfoldable pub row_is_applicable_raw :
    Policies.PolicyRow → Text → RequestedGrant → List Text → DateTime → Bool
row_is_applicable_raw r client_name req secret_tags now =
    text_eq r.mechanism (mechanism_as_str req.mechanism)
    && not (has_expired r.not_after now)
    && names_client r.client_name client_name
    && names_secret r.secret_name r.secret_tag req.secret_name secret_tags

abbrev pub tier_or_brokered : ℕ → Tier
tier_or_brokered n = elim (tier_from_int n) [ none ↦ Tier.brokered | some t ↦ t ]

-- `filter_map`.
unfoldable pub known_mechanisms : List Text → List Mechanism
known_mechanisms [] = []
known_mechanisms (m ∷ ms) = elim (mechanism_from_str m) [
  | none ↦ known_mechanisms ms
  | some k ↦ k ∷ known_mechanisms ms
]

abbrev pub client_input : Store.ClientRow → Policy.ClientRow
client_input client = record {
  name = client.name;
  enabled = client.enabled;
  max_tier = tier_or_brokered client.max_tier;
  allowed_mechanisms = known_mechanisms client.mechanisms;
}

abbrev pub secret_input : Store.SecretRow → Policy.SecretRow
secret_input s = record {
  name = s.name;
  enabled = s.enabled;
  max_tier = tier_or_brokered s.max_tier;
  operator_vetted = s.operator_vetted;
}

-- `v.max(0)`.
abbrev pub at_least_zero : ℤ → ℕ
at_least_zero (pos n) = n
at_least_zero (negsuc n) = 0

pub data Unparseable : Type 0 where
  unparseable : Unparseable

-- The closure that parses a row, and the row that it is pushed as.
unfoldable pub parse_row : Policies.PolicyRow → Result Unparseable Policy.PolicyRow
parse_row r = do
  mechanism ← ok_or (mechanism_from_str r.mechanism) unparseable
  outcome ← ok_or (outcome_from_str r.outcome) unparseable
  origins ← ok_or r.origins unparseable
  ensure (all is_valid_http_method r.methods) unparseable
  path_prefixes ← or_err (canonicalize_all r.path_prefixes) unparseable
  ok (record {
    id = r.id;
    client_name = r.client_name;
    secret_name = r.secret_name;
    secret_tag = r.secret_tag;
    mechanism = mechanism;
    outcome = outcome;
    priority = r.priority;
    origins = origins;
    methods = r.methods;
    path_prefixes = path_prefixes;
    max_ttl_seconds = Option.map at_least_zero r.max_ttl_seconds;
    max_uses = Option.map at_least_zero r.max_uses;
    not_after = r.not_after;
  })

module _ (client_name : Text) (req : RequestedGrant) (secret_tags : List Text)
    (now : DateTime) where
  abbrev pub applies_raw : Policies.PolicyRow → Bool
  applies_raw r = row_is_applicable_raw r client_name req secret_tags now

  -- A row that applies and cannot be parsed fails the whole set; one that does not apply is skipped.
  unfoldable pub policy_rows : List Policies.PolicyRow → Result ApiFailure (List Policy.PolicyRow)
  policy_rows [] = ok []
  policy_rows (r ∷ rs) =
      let rest = policy_rows rs in
      elim (parse_row r) [
        | ok p ↦ rest >>= (λ out. ok (p ∷ out))
        | err e ↦ if applies_raw r then err (policy_denied unreadable_rule) else rest
      ]

unfoldable pub policy_inputs :
    Store.ClientRow
    → Option Store.SecretRow
    → List Text
    → RequestedGrant
    → List Policies.PolicyRow
    → DateTime
    → Result ApiFailure (Policy.ClientRow × (Option Policy.SecretRow × List Policy.PolicyRow))
policy_inputs client secret secret_tags req rows now = do
  out ← policy_rows client.name req secret_tags now rows
  ok (client_input client, (Option.map secret_input secret, out))
