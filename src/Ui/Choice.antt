-- ===== src/Ui/Choice.antt =====
-- The secret that `approve` of server/src/ui/mod.rs issues a grant against: the stored one, or a
-- value that was entered; and what a secret that was picked in its place has to pass.
pub mod Checked
use keychute.Store
use mathlib.Core.Option
use keychute.Api.Decide.{evaluated}
use keychute.Crypto.{CryptoError, secret_version, grant_passthrough, seal, ephemeral_seal}
use keychute.Policy.{RequestedGrant, Evaluation, Decision, denied, Reason}
use keychute.Prelude.{
  ℕ, Bool, true, false, not, ◌&&◌, ◌||◌, Option, none, some, [], Text, codes, text_eq, Result, ok,
  err, ◌>>=◌, ◌>>◌, ensure, ok_or, or_err, ltb, ◌==◌, if◌then◌else◌, is_some,
}
use keychute.Prelude.Int.{ℤ, pos, negsuc}
use keychute.Proxy.Template.{validate_injection}
use keychute.Store.{AccessRequestRow, get_secret_by_name, get_client_by_name}
use keychute.Store.Requests.{PassthroughPayload, Sealed}
use keychute.Store.Secrets.{StoreSecretParams}
use keychute.Store.Secrets.Edits.{tags_of}
use keychute.Types.{Uuid, DateTime, Mechanism, same_mechanism, Tier, tier, tier_as_int, Constraints}
use keychute.Ui.{
  Stop, bad_request, internal, malformed_form, either_stored_or_new, below_tier_being_approved,
  client_gone, unreadable_rule, policy_refuses, policy_of_secret_expired, secret_disabled,
  mechanism_exceeds_tier, not_stored, invalid_max_tier, broader_tier, invalid_template,
  brokered_needs_stored,
}
use keychute.Ui.Between.{Setting}
use keychute.Ui.Forms.{
  ApproveForm, non_empty, or_text, max_u32, parse_substitute_option, policy_cap_elapsed,
  tier_from_str,
}
use keychute.Ui.Terms.{Terms}

-- What the grant is issued against.
pub record Choice : Type 0 where
  pub released_name : Text
  pub released_secret_id : Option Uuid
  pub substitute_cap : Option DateTime
  pub store : Option StoreSecretParams
  pub passthrough : Option PassthroughPayload

abbrev pub choice : Text → Option Uuid → Choice
choice name id = record {
  released_name = name;
  released_secret_id = id;
  substitute_cap = none;
  store = none;
  passthrough = none;
}

-- `PassthroughPayload::seal`.
abbrev pub payload_of : Result CryptoError Sealed → Result Stop PassthroughPayload
payload_of (ok s) =
    ok (record { ciphertext = s.ciphertext; nonce = s.nonce; wrapped_dek = s.wrapped_dek })
payload_of (err e) = err internal

abbrev sealed_or_none : Result CryptoError Sealed → Option Sealed
sealed_or_none (ok s) = some s
sealed_or_none (err e) = none

abbrev pub exceeds_max : Tier → Store.SecretRow → Bool
exceeds_max t s = ltb s.max_tier (tier_as_int t)

-- `s.current_version != picked_version`, negated, and enabled.
abbrev pub is_fresh : ℤ → Store.SecretRow → Bool
is_fresh (pos version) s = s.enabled && s.current_version == version
is_fresh (negsuc _) s = false

-- The request as the grant will be issued.
abbrev pub effective : AccessRequestRow → Terms → Constraints
effective row t = record row.constraints {
  ttl_seconds = t.ttl;
  max_uses = Option.map (λ u. if ltb max_u32 u then max_u32 else u) t.max_uses;
}

abbrev pub asked_of : AccessRequestRow → Terms → Store.SecretRow → RequestedGrant
asked_of row t chosen = record {
  secret_name = chosen.name;
  mechanism = t.mechanism;
  constraints = effective row t;
}

abbrev pub picked_choice : Store.SecretRow → Evaluation → Choice
picked_choice chosen e = record (choice chosen.name (some chosen.id)) {
  substitute_cap = e.policy_not_after;
}

-- Why standing policy keeps a secret from being released in place of another.
abbrev pub not_refused : Text → Decision → Result Stop (Unit {0})
not_refused client (denied reason) = err (bad_request (policy_refuses client reason))
not_refused client _ = ok tt

abbrev pub check_policy : Text → DateTime → Evaluation → Result Stop (Unit {0})
check_policy client now e = do
  not_refused client e.decision
  ensure (not (policy_cap_elapsed e.policy_not_after now)) (bad_request policy_of_secret_expired)

-- The stored secret under the name that was asked for.
unfoldable pub choose_stored : AccessRequestRow → Terms → Store.SecretRow → Result Stop Choice
choose_stored row t s = do
  ensure s.enabled (bad_request secret_disabled)
  ensure (not (exceeds_max (tier t.mechanism) s)) (bad_request mechanism_exceeds_tier)
  ok (choice row.secret_name (some s.id))

abbrev pub stored_tier : Option Text → Mechanism → Result Stop Tier
stored_tier none m = ok (tier m)
stored_tier (some raw) m = ok_or (tier_from_str raw) (bad_request invalid_max_tier)

module _ (w : Setting) (form : ApproveForm) (row : AccessRequestRow) (t : Terms)
    (value : Text) where
  -- The entered value becomes a stored secret, sealed by the transaction itself.
  unfoldable pub choose_storing : Result Stop Choice
  choose_storing = do
    max_tier ← stored_tier (non_empty form.store_max_tier) t.mechanism
    ensure (tier_as_int max_tier == tier_as_int (tier t.mechanism)) (bad_request broader_tier)
    template ←
        or_err
          (validate_injection (or_text (non_empty form.injection_kind) (codes "bearer"))
            (non_empty form.injection_header) none)
          (bad_request invalid_template)
    ok (record (choice row.secret_name (some w.secret_id)) {
      store = some (record {
        secret_id = w.secret_id;
        name = row.secret_name;
        description = or_text (non_empty form.store_description) [];
        max_tier = tier_as_int max_tier;
        injection_kind = template.0;
        injection_header = template.1.0;
        injection_username = template.1.1;
        seal =
            sealed_or_none (seal w.packages w.draws w.keyset value (secret_version w.secret_id 1));
      });
    })

  -- The entered value is released once, under the key of this process.
  unfoldable pub choose_passthrough : Result Stop Choice
  choose_passthrough = do
    ensure (not (same_mechanism t.mechanism Mechanism.brokered)) (bad_request brokered_needs_stored)
    payload ←
        payload_of
          (ephemeral_seal w.packages w.draws w.ephemeral_kek value (grant_passthrough w.grant_id))
    ok (record (choice row.secret_name none) { passthrough = some payload })

  abbrev pub choose_value : Result Stop Choice
  choose_value =
      if is_some (non_empty form.store_secret) then choose_storing else choose_passthrough

unfoldable pub choose_entered :
    Setting → ApproveForm → AccessRequestRow → Terms → Option Text → Result Stop Choice
choose_entered w form row t value = do
  entered ← ok_or value (bad_request not_stored)
  choose_value w form row t entered
