-- ===== src/Policy.antt =====
-- server/src/policy/mod.rs: the policy engine, a pure decision over the policy table.
-- `DateTime::<Utc>::MAX_UTC` is the parameter `max_utc`; a denial's text is a `Reason`, which holds
-- what the text is formatted from.
mod Vocabulary
pub mod Scope
pub mod Release
pub mod Rows
unfoldable pub use Vocabulary.*
use keychute.Paths.{prefix_matches}
use keychute.Prelude.{
  ℕ, Bool, true, false, not, ◌&&◌, ◌||◌, Option, none, some, List, [], ◌∷◌, Text, codes, Result, ok,
  err, ◌>>=◌, ◌>>◌, ensure, ltb, leb, ◌==◌, if◌then◌else◌, length, is_empty, any, all, keep, find,
  one_of, is_ascii_alphanumeric, has_byte, text_eq, eq_ignore_ascii_case, to_ascii_lowercase,
  is_some,
}
use keychute.Prelude.Int.{ℤ, gtb_ℤ}
use keychute.Prelude.Order.{lex, reversed, gtb, max_by}
use keychute.Types.{
  Uuid, DateTime, Tier, exceeds, Mechanism, tier, same_mechanism, Origin, same_target, Constraints,
}

pub record ClientRow : Type 0 where
  pub name : Text
  pub enabled : Bool
  pub max_tier : Tier
  pub allowed_mechanisms : List Mechanism

pub record SecretRow : Type 0 where
  pub name : Text
  pub enabled : Bool
  pub max_tier : Tier
  pub operator_vetted : Bool

pub record PolicyRow : Type 0 where
  pub id : Uuid
  pub client_name : Option Text
  pub secret_name : Option Text
  pub secret_tag : Option Text
  pub mechanism : Mechanism
  pub outcome : Outcome
  pub priority : ℤ
  pub origins : List Origin
  pub methods : List Text
  pub path_prefixes : List Text
  pub max_ttl_seconds : Option ℕ
  pub max_uses : Option ℕ
  pub not_after : Option DateTime

pub record RequestedGrant : Type 0 where
  pub secret_name : Text
  pub mechanism : Mechanism
  pub constraints : Constraints

pub data Reason : Type 0 where
  client_disabled : Reason
  mechanism_not_allowed : Mechanism → Text → Reason
  exceeds_client_tier : Tier → Tier → Reason
  secret_disabled : Reason
  exceeds_secret_tier : Tier → Tier → Reason
  denied_by_policy : Uuid → Reason

-- `unreachable` is the panic of the arm for deny rows.
pub data Decision : Type 0 where
  denied : Reason → Decision
  approval_required notified auto_approved unreachable : Decision

pub record Evaluation : Type 0 where
  pub decision : Decision
  pub policy_not_after : Option DateTime
  pub policy_id : Option Uuid

-- `Evaluation::deny`.
abbrev pub deny_with : Reason → Evaluation
deny_with reason = record { decision = denied reason; policy_not_after = none; policy_id = none }

abbrev pub has_expired : Option DateTime → DateTime → Bool
has_expired none now = false
has_expired (some nafter) now = leb nafter now

abbrev pub names_client : Option Text → Text → Bool
names_client none name = true
names_client (some c) name = text_eq c name

abbrev pub names_secret : Option Text → Option Text → Text → List Text → Bool
names_secret (some name) _ secret_name secret_tags = text_eq name secret_name
names_secret none (some tag) secret_name secret_tags = any (λ t. text_eq t tag) secret_tags
names_secret none none secret_name secret_tags = true

unfoldable pub is_applicable : PolicyRow → ClientRow → RequestedGrant → List Text → DateTime → Bool
is_applicable p client req secret_tags now =
    same_mechanism p.mechanism req.mechanism
    && not (has_expired p.not_after now)
    && names_client p.client_name client.name
    && names_secret p.secret_name p.secret_tag req.secret_name secret_tags

-- The rule for deny rows: every dimension intersects, and an empty side is unconstrained.
abbrev pub origins_overlap : List Origin → List Origin → Bool
origins_overlap rows wanted =
    is_empty rows || is_empty wanted || any (λ po. any (λ ro. same_target po ro) wanted) rows

abbrev pub methods_overlap : List Text → List Text → Bool
methods_overlap rows wanted =
    is_empty rows
    || is_empty wanted
    || any (λ pm. any (λ rm. eq_ignore_ascii_case pm rm) wanted) rows

abbrev pub prefixes_meet : Text → Text → Bool
prefixes_meet pp rp =
    let pp' = to_ascii_lowercase pp in
    let rp' = to_ascii_lowercase rp in prefix_matches pp' rp' || prefix_matches rp' pp'

abbrev pub prefixes_overlap : List Text → List Text → Bool
prefixes_overlap rows wanted =
    is_empty rows || is_empty wanted || any (λ pp. any (λ rp. prefixes_meet pp rp) wanted) rows

unfoldable pub scopes_overlap : PolicyRow → Constraints → Bool
scopes_overlap p req =
    origins_overlap p.origins req.origins
    && methods_overlap p.methods req.methods
    && prefixes_overlap p.path_prefixes req.path_prefixes

-- The rule for other rows: the request fits within the row in every dimension.
abbrev pub origins_fit : List Origin → List Origin → Bool
origins_fit rows wanted =
    if is_empty wanted
    then is_empty rows
    else is_empty rows || all (λ ro. any (λ po. same_target po ro) rows) wanted

abbrev pub methods_fit : List Text → List Text → Bool
methods_fit rows wanted =
    if is_empty wanted
    then is_empty rows
    else is_empty rows || all (λ rm. any (λ pm. eq_ignore_ascii_case pm rm) rows) wanted

abbrev pub prefixes_fit : List Text → List Text → Bool
prefixes_fit rows wanted =
    if is_empty wanted
    then is_empty rows
    else is_empty rows || all (λ rp. any (λ pp. prefix_matches pp rp) rows) wanted

abbrev pub ttl_fits : Option ℕ → ℕ → Bool
ttl_fits none ttl = true
ttl_fits (some max_ttl) ttl = leb ttl max_ttl

abbrev pub uses_fit : Option ℕ → Option ℕ → Bool
uses_fit none _ = true
uses_fit (some m) none = false
uses_fit (some m) (some r) = leb r m

unfoldable pub request_is_subset : PolicyRow → Constraints → Bool
request_is_subset p req =
    origins_fit p.origins req.origins
    && methods_fit p.methods req.methods
    && prefixes_fit p.path_prefixes req.path_prefixes
    && ttl_fits p.max_ttl_seconds req.ttl_seconds
    && uses_fit p.max_uses req.max_uses

-- The key of `max_by_key`, with the order of its tuple.
abbrev pub Key : Type 0
Key = ℕ × (ℕ × (ℤ × (ℕ × (DateTime × Uuid))))

abbrev pub key_greater : Key → Key → Bool
key_greater = lex gtb (lex gtb (lex gtb_ℤ (lex gtb (lex (reversed gtb) gtb))))

abbrev pub unwrap_or : {A : Type 0} → Option A → A → A
unwrap_or none d = d
unwrap_or (some a) d = a

module _ (max_utc : DateTime) where
  unfoldable pub precedence_key : PolicyRow → Key
  precedence_key p = (
    if is_some p.client_name then 1 else 0,
    (
      if is_some p.secret_name then 2 else if is_some p.secret_tag then 1 else 0,
      (p.priority, (restrictiveness p.outcome, (unwrap_or p.not_after max_utc, p.id))),
    ),
  )

  abbrev pub outranks : PolicyRow → PolicyRow → Bool
  outranks p q = key_greater (precedence_key p) (precedence_key q)

abbrev pub secret_caps : Option SecretRow → Tier → Result Reason (Unit {0})
secret_caps none t = ok tt
secret_caps (some s) t = do
  ensure s.enabled secret_disabled
  ensure (not (exceeds t s.max_tier)) (exceeds_secret_tier t s.max_tier)

-- The caps that deny whatever the rows say, in the order of the early returns.
unfoldable pub hard_caps : ClientRow → Option SecretRow → Mechanism → Result Reason (Unit {0})
hard_caps client secret mechanism = do
  ensure client.enabled client_disabled
  ensure (any (λ m. same_mechanism m mechanism) client.allowed_mechanisms)
      (mechanism_not_allowed mechanism client.name)
  ensure (not (exceeds (tier mechanism) client.max_tier))
      (exceeds_client_tier (tier mechanism) client.max_tier)
  secret_caps secret (tier mechanism)

abbrev pub as_decision : Outcome → Decision
as_decision auto_approve = auto_approved
as_decision notify_only = notified
as_decision require_approval = approval_required
as_decision deny = unreachable

-- `matches!(decision, AutoApprove | NotifyOnly)`.
abbrev pub releases : Decision → Bool
releases auto_approved = true
releases notified = true
releases _ = false

abbrev pub unvetted : Option SecretRow → Bool
unvetted none = true
unvetted (some s) = not s.operator_vetted

-- The two clamps on the winning row's decision.
unfoldable pub clamped : Option SecretRow → Mechanism → PolicyRow → Decision
clamped secret mechanism p =
    let first =
      if unvetted secret && releases (as_decision p.outcome)
      then approval_required
      else as_decision p.outcome in
    if same_mechanism mechanism Mechanism.brokered && is_empty p.origins && releases first
    then approval_required
    else first

abbrev pub is_deny_row : PolicyRow → Bool
is_deny_row p = is_deny p.outcome

-- What is left of `evaluate` once the caps have passed: the first overlapping deny row, else the
-- row of the highest precedence among those that the request fits.
abbrev pub by_deny_row : Option PolicyRow → Evaluation → Evaluation
by_deny_row none otherwise = otherwise
by_deny_row (some p) otherwise = record {
  decision = denied (denied_by_policy p.id);
  policy_not_after = p.not_after;
  policy_id = some p.id;
}

abbrev pub after_caps : Result Reason (Unit {0}) → Evaluation → Evaluation
after_caps (err reason) otherwise = deny_with reason
after_caps (ok _) otherwise = otherwise

abbrev pub by_winner : Option SecretRow → Mechanism → Option PolicyRow → Evaluation
by_winner secret mechanism none = record {
  decision = approval_required;
  policy_not_after = none;
  policy_id = none;
}
by_winner secret mechanism (some p) = record {
  decision = clamped secret mechanism p;
  policy_not_after = p.not_after;
  policy_id = some p.id;
}

module _ (max_utc : DateTime) (client : ClientRow) (secret : Option SecretRow)
    (secret_tags : List Text) (req : RequestedGrant) (now : DateTime) where
  abbrev pub applicable : List PolicyRow → List PolicyRow
  applicable = keep (λ p. is_applicable p client req secret_tags now)

  abbrev pub overlapping_deny : PolicyRow → Bool
  overlapping_deny p = is_deny_row p && scopes_overlap p req.constraints

  abbrev pub fits : PolicyRow → Bool
  fits p = not (is_deny_row p) && request_is_subset p req.constraints

  unfoldable pub winner : List PolicyRow → Option PolicyRow
  winner policies = max_by (outranks max_utc) (keep fits (applicable policies))

  unfoldable pub evaluate : List PolicyRow → Evaluation
  evaluate policies = after_caps (hard_caps client secret req.mechanism) (
      by_deny_row (find overlapping_deny (applicable policies))
        (by_winner secret req.mechanism (winner policies)))
