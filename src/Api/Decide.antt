-- ===== src/Api/Decide.antt =====
-- The part of `create` in server/src/api/requests.rs that decides: the policy evaluation, and what
-- the insertion transaction is given. `show_uuid` prints an id.
use keychute.Store
use keychute.Store.Policies
use mathlib.Core.Option
use keychute.Api.{
  ApiFailure, internal, inconsistent, CreateAccessRequest, Limits, resolved_by_policy_auto,
}
use keychute.Api.Inputs.{policy_inputs}
use keychute.Policy.{
  RequestedGrant, Evaluation, evaluate, Reason, Decision, denied, notified, approval_required,
  releases, client_disabled, mechanism_not_allowed, exceeds_client_tier, secret_disabled,
  exceeds_secret_tier, denied_by_policy,
}
use keychute.Prelude.{
  ℕ, Bool, true, false, ◌&&◌, Option, none, some, List, ◌++◌, Text, codes, Result, ok, ◌>>=◌, ok_or,
  ltb, ◌+◌, ◌*◌, if◌then◌else◌, is_empty, is_some, not,
}
use keychute.Store.{max_int}
use keychute.Store.Approvals.{InitialResolution, left_pending, initially_denied, initially_approved}
use keychute.Store.Requests.{GrantParams, NewAccessRequest}
use keychute.Types.{Uuid, DateTime, Constraints, Tier, mechanism_as_str, second}

-- `Tier::as_str`.
abbrev pub tier_as_str : Tier → Text
tier_as_str Tier.brokered = codes "brokered"
tier_as_str Tier.trusted_client = codes "trusted-client"
tier_as_str Tier.cooperating_client = codes "cooperating-client"
tier_as_str Tier.direct = codes "direct"

-- The texts that `evaluate` formats.
abbrev pub reason_text : (Uuid → Text) → Reason → Text
reason_text show_uuid client_disabled = codes "client is disabled"
reason_text show_uuid (mechanism_not_allowed m name) =
    codes "mechanism " ++ (mechanism_as_str m ++ (codes " not allowed for client " ++ name))
reason_text show_uuid (exceeds_client_tier t cap) =
    codes "tier " ++ (tier_as_str t ++ (codes " exceeds client max tier " ++ tier_as_str cap))
reason_text show_uuid secret_disabled = codes "secret is disabled"
reason_text show_uuid (exceeds_secret_tier t cap) =
    codes "tier " ++ (tier_as_str t ++ (codes " exceeds secret max tier " ++ tier_as_str cap))
reason_text show_uuid (denied_by_policy id) = codes "denied by policy " ++ show_uuid id

abbrev pub is_notified : Decision → Bool
is_notified notified = true
is_notified _ = false

abbrev pub needs_approval : Decision → Bool
needs_approval approval_required = true
needs_approval _ = false

abbrev pub earlier : DateTime → Option DateTime → DateTime
earlier t none = t
earlier t (some cap) = if ltb cap t then cap else t

-- `i32::try_from(u).unwrap_or(i32::MAX)`.
abbrev pub saturated : ℕ → ℕ
saturated u = if ltb max_int u then max_int else u

-- The engine on the translated rows.
unfoldable pub evaluated :
    DateTime
    → Store.ClientRow
    → Option Store.SecretRow
    → List Text
    → RequestedGrant
    → List Policies.PolicyRow
    → DateTime
    → Result ApiFailure Evaluation
evaluated max_utc client secret tags req rows now = do
  inputs ← policy_inputs client secret tags req rows now
  ok (evaluate max_utc inputs.0 inputs.1.0 tags req now inputs.1.1)

module _ (show_uuid : Uuid → Text) (client : Store.ClientRow) (req : CreateAccessRequest)
    (constraints : Constraints) (secret : Option Store.SecretRow) (now : DateTime)
    (evaluation : Evaluation) where
  abbrev pub auto_params : Store.SecretRow → GrantParams
  auto_params s = record {
    client_name = client.name;
    secret_name = s.name;
    secret_id = some s.id;
    mechanism = mechanism_as_str req.mechanism;
    constraints = constraints;
    not_after = earlier (now + constraints.ttl_seconds * second) evaluation.policy_not_after;
    max_uses = Option.map saturated constraints.max_uses;
    passthrough = none;
  }

  unfoldable pub auto_grant : Result ApiFailure (Option GrantParams)
  auto_grant =
      if releases evaluation.decision
      then (do
        s ←
            ok_or secret
              (internal (inconsistent (codes "auto-approve decision without a stored secret")))
        ok (some (auto_params s)))
      else ok none

abbrev pub granted_or_pending : Decision → Option GrantParams → InitialResolution
granted_or_pending decision none = left_pending
granted_or_pending decision (some p) =
    initially_approved resolved_by_policy_auto p (is_notified decision)

abbrev pub resolution : (Uuid → Text) → Decision → Option GrantParams → InitialResolution
resolution show_uuid (denied reason) grant =
    initially_denied (reason_text show_uuid reason) (codes "policy")
resolution show_uuid decision grant = granted_or_pending decision grant

abbrev pub new_row :
    Limits
    → Store.ClientRow
    → CreateAccessRequest
    → Constraints
    → Text
    → DateTime
    → Evaluation
    → NewAccessRequest
new_row limits client req constraints idem_mac now evaluation = record {
  client_name = client.name;
  secret_name = req.secret_name;
  mechanism = mechanism_as_str req.mechanism;
  constraints = constraints;
  expires_at = now + limits.request_expiry_seconds * second;
  policy_not_after = evaluation.policy_not_after;
  idem_client = client.name;
  idem_key = req.idempotency_key;
  idem_mac = idem_mac;
}

abbrev pub pending_cap : Limits → Decision → Option ℕ
pending_cap limits decision =
    if needs_approval decision then some limits.max_pending_per_client else none

-- Whether there is a context to seal.
abbrev pub has_context : CreateAccessRequest → Bool
has_context req = not (is_empty req.context.reason && not (is_some req.context.structured))
