-- ===== src/Tests/Policy.antt =====
-- server/src/policy/mod.rs at a table of three rows.
use keychute.Paths.{prefix_matches}
use keychute.Policy.{
  ClientRow, SecretRow, PolicyRow, RequestedGrant, Evaluation, Reason, deny, auto_approve,
  require_approval, denied, approval_required, auto_approved, evaluate, winner, hard_caps, clamped,
  precedence_key, is_applicable, scopes_overlap, request_is_subset, releases,
}
use keychute.Policy.Release.{Released, evaluate-forbidden_call, evaluate-Released}
use keychute.Policy.Rows.{UniqueIds, SameRows, IsDenied, evaluate-SameRows, evaluate-add_deny}
use keychute.Policy.Scope.{
  Call, Allows, RowAllows, RowForbids, request_is_subset_sound, scopes_overlap_complete,
}
use keychute.Prelude.{
  ◌≡◌, ◌⊎◌, refl, inl, inr, true, List, [], ◌∷◌, some, none, arith, codes, In, eq_ignore_ascii_case,
  to_ascii_lowercase,
}
use keychute.Prelude.Int.{pos}
use keychute.Prelude.Order.{max_by}
use keychute.Types.{Tier, Mechanism, Origin, Constraints}

policy : Unit {0}
unfolding evaluate winner hard_caps clamped precedence_key is_applicable scopes_overlap
    request_is_subset max_by prefix_matches eq_ignore_ascii_case to_ascii_lowercase
policy = tt

abbrev agent : ClientRow
agent = record {
  name = codes "agent";
  enabled = true;
  max_tier = Tier.trusted_client;
  allowed_mechanisms = Mechanism.brokered ∷ [];
}

abbrev token : SecretRow
token = record {
  name = codes "token";
  enabled = true;
  max_tier = Tier.brokered;
  operator_vetted = true;
}

abbrev api : Origin
api = record { host = codes "api.example.com"; port = none }

abbrev wanted : Constraints
wanted = record {
  origins = api ∷ [];
  methods = codes "GET" ∷ [];
  path_prefixes = codes "/v1/items" ∷ [];
  ttl_seconds = 600;
  max_uses = some 5;
}

abbrev asked : RequestedGrant
asked = record { secret_name = codes "token"; mechanism = Mechanism.brokered; constraints = wanted }

abbrev standing : PolicyRow
standing = record {
  id = 1;
  client_name = some (codes "agent");
  secret_name = some (codes "token");
  secret_tag = none;
  mechanism = Mechanism.brokered;
  outcome = auto_approve;
  priority = pos 0;
  origins = record { host = codes "api.example.com"; port = some 443 } ∷ [];
  methods = codes "get" ∷ codes "head" ∷ [];
  path_prefixes = codes "/v1" ∷ [];
  max_ttl_seconds = some 3600;
  max_uses = some 10;
  not_after = some 900;
}

abbrev broad : PolicyRow
broad = record standing { id = 2; client_name = none; outcome = require_approval }

-- Written with capitals, and wider than the request.
abbrev forbidding : PolicyRow
forbidding = record standing {
  id = 3;
  client_name = none;
  outcome = deny;
  path_prefixes = codes "/V1/Items/7" ∷ [];
}

abbrev run : List PolicyRow → Evaluation
run = evaluate 1000000 agent (some token) [] asked 100

released : releases (run (broad ∷ standing ∷ [])).decision ≡ true
unfolding policy
released = refl

decisions :
    (run [] ≡ record { decision = approval_required; policy_not_after = none; policy_id = none })
    × ((run (broad ∷ standing ∷ [])).decision ≡ auto_approved)
    × ((run (broad ∷ [])).decision ≡ approval_required)
    × ((evaluate 1000000 agent none [] asked 100 (standing ∷ [])).decision ≡ approval_required)
    × ((evaluate 1000000 agent (some token) [] asked 900 (standing ∷ [])).decision
        ≡ approval_required)
unfolding policy
decisions = (refl, refl, refl, refl, refl)

abbrev call : Call
call = record { origin = api; method = codes "get"; path = codes "/v1/items/7/x" }

allowed : Allows wanted call
unfolding prefix_matches eq_ignore_ascii_case
allowed = (refl, refl, refl)

forbidden : RowForbids forbidding call
unfolding prefix_matches eq_ignore_ascii_case to_ascii_lowercase
forbidden = (refl, refl, refl)

subset : request_is_subset standing wanted ≡ true
unfolding policy
subset = refl

applies : is_applicable forbidding agent asked [] 100 ≡ true
unfolding policy
applies = refl

request_is_subset_sound_example : RowAllows standing call
request_is_subset_sound_example = request_is_subset_sound standing wanted call subset allowed

scopes_overlap_complete_example : scopes_overlap forbidding wanted ≡ true
scopes_overlap_complete_example = scopes_overlap_complete forbidding wanted call forbidden allowed

evaluate-forbidden_call_example :
    (r : Reason) × ((run (standing ∷ forbidding ∷ [])).decision ≡ denied r)
evaluate-forbidden_call_example =
    evaluate-forbidden_call 1000000 agent (some token) [] asked 100 (standing ∷ forbidding ∷ [])
      forbidding call (inr (inl refl)) applies refl forbidden allowed

evaluate-Released_example :
    Released 1000000 agent
      (some token)
      []
      asked
      100
      (broad ∷ standing ∷ [])
      (run (broad ∷ standing ∷ []))
evaluate-Released_example =
    evaluate-Released 1000000 agent (some token) [] asked 100 (broad ∷ standing ∷ []) released

unique : UniqueIds (broad ∷ standing ∷ [])
unique p q (inl a) (inl b) e = cc
unique p q (inl a) (inr (inl b)) e = absurd (ground arith)
unique p q (inr (inl a)) (inl b) e = absurd (ground arith)
unique p q (inr (inl a)) (inr (inl b)) e = cc
unique p q (inr (inr a)) j e = absurd a
unique p q (inl a) (inr (inr b)) e = absurd b
unique p q (inr (inl a)) (inr (inr b)) e = absurd b

turned : SameRows (broad ∷ standing ∷ []) (standing ∷ broad ∷ [])
turned p = (flip, flip')
  where
    flip : In p (broad ∷ standing ∷ []) → In p (standing ∷ broad ∷ [])
    flip (inl a) = inr (inl a)
    flip (inr (inl a)) = inl a
    flip (inr (inr a)) = absurd a

    flip' : In p (standing ∷ broad ∷ []) → In p (broad ∷ standing ∷ [])
    flip' (inl a) = inr (inl a)
    flip' (inr (inl a)) = inl a
    flip' (inr (inr a)) = absurd a

evaluate-SameRows_example :
    (run (broad ∷ standing ∷ []) ≡ run (standing ∷ broad ∷ []))
    ⊎ (IsDenied (run (broad ∷ standing ∷ [])) × IsDenied (run (standing ∷ broad ∷ [])))
evaluate-SameRows_example =
    evaluate-SameRows 1000000 agent (some token) [] asked 100 (broad ∷ standing ∷ [])
      (standing ∷ broad ∷ []) unique turned

-- A deny row of another mechanism leaves the release as it was.
abbrev elsewhere : PolicyRow
elsewhere = record forbidding { id = 4; mechanism = Mechanism.cli_read }

still_released : releases (run (elsewhere ∷ standing ∷ [])).decision ≡ true
unfolding policy
still_released = refl

evaluate-add_deny_example : run (elsewhere ∷ standing ∷ []) ≡ run (standing ∷ [])
evaluate-add_deny_example =
    evaluate-add_deny 1000000 agent (some token) [] asked 100 (standing ∷ []) elsewhere refl
      still_released
