-- ===== src/Ui/Substitute.antt =====
-- `approve` of server/src/ui/mod.rs when the operator picked a stored secret in place of an absent
-- one, with `evaluate_substitution`.
pub mod Checked
use keychute.Store
use mathlib.Core.Option
use keychute.Api.Decide.{evaluated}
use keychute.Between.{◌>>=◌, ◌>>◌, give, read}
use keychute.Crypto.{CryptoError, secret_version, grant_passthrough, seal, ephemeral_seal}
use keychute.Policy.{RequestedGrant, Evaluation, Decision, denied, Reason}
use keychute.Prelude.{
  ℕ, Bool, true, false, not, ◌&&◌, ◌||◌, Option, none, some, [], Text, codes, text_eq, Result, ok,
  err, ensure, ok_or, or_err, ltb, ◌==◌, if◌then◌else◌, is_some,
}
use keychute.Prelude.Int.{ℤ, pos, negsuc}
use keychute.Proxy.Template.{validate_injection}
use keychute.Store.{AccessRequestRow, get_secret_by_name, get_client_by_name}
use keychute.Store.Requests.{PassthroughPayload, Sealed}
use keychute.Store.Secrets.{StoreSecretParams}
use keychute.Store.Secrets.Edits.{tags_of}
use keychute.Types.{Uuid, DateTime, Mechanism, same_mechanism, Tier, tier, tier_as_int, Constraints}
use keychute.Ui.{
  Stop, bad_request, internal, malformed_form, either_stored_or_new, below_tier_being_approved,
  client_gone, unreadable_rule, policy_refuses, policy_of_secret_expired, secret_disabled,
  mechanism_exceeds_tier, not_stored, invalid_max_tier, broader_tier, invalid_template,
  brokered_needs_stored,
}
use keychute.Ui.Between.{ui_raises, Handler, Setting}
use keychute.Ui.Choice.{
  Choice, picked_choice, exceeds_max, is_fresh, asked_of, check_policy, choose_stored,
  choose_entered,
}
use keychute.Ui.Forms.{
  ApproveForm, non_empty, or_text, max_u32, parse_substitute_option, policy_cap_elapsed,
  tier_from_str,
}
use keychute.Ui.Terms.{Terms}

module _ (w : Setting) (form : ApproveForm) (row : AccessRequestRow) (t : Terms)
    (now : DateTime) where
  -- The engine for the picked secret, on the terms that the grant will have.
  unfoldable pub evaluate_substitution : Store.SecretRow → Handler Evaluation
  evaluate_substitution chosen = do
    found ← read w.others 4 (λ db. get_client_by_name db row.client_name)
    client ← give (ok_or found (bad_request client_gone))
    tags ← read w.others 5 (λ db. tags_of chosen.id db.secret_tags)
    policies ← read w.others 6 (λ db. w.policies)
    give (
        or_err (evaluated w.max_utc client (some chosen) tags (asked_of row t chosen) policies now)
          (bad_request unreadable_rule))

  -- `none` when the page has to be rendered again.
  abbrev pub choose_fresh : ℤ → Store.SecretRow → Handler (Option Choice)
  choose_fresh version chosen = if not (is_fresh version chosen) then give (ok none) else do
    give (
        ensure (not (exceeds_max (tier t.mechanism) chosen))
          (bad_request below_tier_being_approved))
    e ← evaluate_substitution chosen
    give (check_policy row.client_name now e)
    give (ok (some (picked_choice chosen e)))

  abbrev pub choose_picked : ℤ → Option Store.SecretRow → Handler (Option Choice)
  choose_picked version none = give (ok none)
  choose_picked version (some chosen) = choose_fresh version chosen

  unfoldable pub choose_substitute : Option Text → Text → Handler (Option Choice)
  choose_substitute value raw = do
    give (
        ensure (not (is_some value || is_some (non_empty form.store_secret)))
          (bad_request either_stored_or_new))
    picked ← give (ok_or (parse_substitute_option raw) (bad_request malformed_form))
    chosen ← read w.others 3 (λ db. get_secret_by_name db picked.1)
    choose_picked picked.0 chosen
