-- ===== src/Ui/Choice/Checked.antt =====
-- What was checked of the secret that an approval in server/src/ui/mod.rs releases.
use keychute.Store
use keychute.Crypto.{ephemeral_seal, grant_passthrough}
use keychute.Policy.{
  Evaluation, Decision, denied, approval_required, notified, auto_approved, unreachable, Reason,
}
use keychute.Prelude.{
  ◌≤◌, ◌≡◌, refl, true, false, not, Option, none, some, arith, Text, ok, ensure, ok_or, or_err,
  >>=-eq-ok, ok_inj, ensure-eq-ok, ◌==◌, ==_iff, Bool-cases, inl, inr, is_some,
}
use keychute.Proxy.Template.{validate_injection}
use keychute.Store.{AccessRequestRow}
use keychute.Store.Requests.{PassthroughPayload}
use keychute.Store.Secrets.{StoreSecretParams}
use keychute.Types.{DateTime, Mechanism, same_mechanism, tier, tier_as_int}
use keychute.Ui.{
  bad_request, secret_disabled, mechanism_exceeds_tier, broader_tier, not_stored,
  brokered_needs_stored,
}
use keychute.Ui.Between.{Setting}
use keychute.Ui.Choice.{
  Choice, exceeds_max, check_policy, choose_stored, choose_storing, choose_passthrough,
  choose_entered, not_refused, stored_tier, payload_of,
}
use keychute.Ui.Forms.{ApproveForm, non_empty, policy_cap_elapsed}
use keychute.Ui.Terms.{Terms}

-- A row of the store is released, which may serve the mechanism.
pub record IsReleasable (t : Terms) (s : Store.SecretRow) (c : Choice) : Type 0 where
  pub enabled : s.enabled ≡ true
  pub within_tier : tier_as_int (tier t.mechanism) ≤ s.max_tier
  pub id : c.released_secret_id ≡ some s.id
  pub not_new : c.store ≡ none
  pub no_payload : c.passthrough ≡ none

pub not_exceeds :
    (t : Terms) (s : Store.SecretRow)
    → not (exceeds_max (tier t.mechanism) s) ≡ true
    → tier_as_int (tier t.mechanism) ≤ s.max_tier
not_exceeds t s h = ground arith

pub choose_stored-IsReleasable :
    (row : AccessRequestRow) (t : Terms) (s : Store.SecretRow) (c : Choice)
    → choose_stored row t s ≡ ok c
    → IsReleasable t s c × (c.released_name ≡ row.secret_name) × (c.substitute_cap ≡ none)
unfolding choose_stored
choose_stored-IsReleasable row t s c h =
    let (u, enabled, h1) = >>=-eq-ok (ensure s.enabled (bad_request secret_disabled)) _ h in
    let (u', below, h2) =
      >>=-eq-ok
        (ensure (not (exceeds_max (tier t.mechanism) s)) (bad_request mechanism_exceeds_tier)) _
        h1 in
    let same = ok_inj _ c _ refl h2 in
    (
      record {
        enabled = ensure-eq-ok _ _ enabled;
        within_tier = not_exceeds t s (ensure-eq-ok _ _ below);
        id = rw (← same) refl;
        not_new = rw (← same) refl;
        no_payload = rw (← same) refl;
      },
      rw (← same) refl,
      rw (← same) refl,
    )

-- The decision that `evaluate` makes when a row or a cap forbids the release.
abbrev pub IsDenied : Decision → Type 0
IsDenied d = (r : Reason) × (d ≡ denied r)

not_refused-allowed :
    (client : Text) (d : Decision) {u : Unit {0}} → not_refused client d ≡ ok u → IsDenied d → ⊥
not_refused-allowed client (denied reason) h k = cc
not_refused-allowed client approval_required h (r, k) = cc
not_refused-allowed client notified h (r, k) = cc
not_refused-allowed client auto_approved h (r, k) = cc
not_refused-allowed client unreachable h (r, k) = cc

pub check_policy-allowed :
    (client : Text) (now : DateTime) (e : Evaluation) {u : Unit {0}}
    → check_policy client now e ≡ ok u
    → (IsDenied e.decision → ⊥) × (policy_cap_elapsed e.policy_not_after now ≡ false)
check_policy-allowed client now e h =
    let (u, allowed, k) = >>=-eq-ok (not_refused client e.decision) _ h in
    let fresh = ensure-eq-ok _ _ k in (not_refused-allowed client e.decision allowed, ground arith)

-- A value that was entered: stored at the mechanism's own tier, or released once under the key of the
-- process, which a brokered grant cannot be.
pub data Entered (row : AccessRequestRow) (t : Terms) (c : Choice) : Type 0 where
  stored_now :
      (s : StoreSecretParams)
      → c.store ≡ some s
      → s.name ≡ row.secret_name
      → s.max_tier ≡ tier_as_int (tier t.mechanism)
      → c.released_secret_id ≡ some s.secret_id
      → Entered row t c
  released_once :
      (payload : PassthroughPayload)
      → c.passthrough ≡ some payload
      → same_mechanism t.mechanism Mechanism.brokered ≡ false
      → c.released_secret_id ≡ none
      → Entered row t c

module _ (w : Setting) (form : ApproveForm) (row : AccessRequestRow) (t : Terms) where
  storing-Entered :
      (value : Text) (c : Choice)
      → choose_storing w form row t value ≡ ok c
      → Entered row t c × (c.released_name ≡ row.secret_name) × (c.substitute_cap ≡ none)
  unfolding choose_storing
  storing-Entered value c h =
      let (max, given, h1) =
        >>=-eq-ok (stored_tier (non_empty form.store_max_tier) t.mechanism) _ h in
      let (u, equal, h2) =
        >>=-eq-ok
          (ensure (tier_as_int max == tier_as_int (tier t.mechanism)) (bad_request broader_tier)) _
          h1 in
      let (template, valid, h3) = >>=-eq-ok (or_err (validate_injection _ _ none) _) _ h2 in
      let same = ok_inj _ c _ refl h3 in
      rw (← same) (
        stored_now _ refl refl
            ((==_iff (tier_as_int max) (tier_as_int (tier t.mechanism))).0 (ensure-eq-ok _ _ equal))
            refl,
        refl,
        refl,
      )

  passthrough-Entered :
      (value : Text) (c : Choice)
      → choose_passthrough w form row t value ≡ ok c
      → Entered row t c × (c.released_name ≡ row.secret_name) × (c.substitute_cap ≡ none)
  unfolding choose_passthrough
  passthrough-Entered value c h =
      let (u, other, h1) =
        >>=-eq-ok
          (ensure (not (same_mechanism t.mechanism Mechanism.brokered))
            (bad_request brokered_needs_stored))
          _ h in
      let (payload, sealed, h2) =
        >>=-eq-ok
          (payload_of (
            ephemeral_seal w.packages w.draws w.ephemeral_kek value (grant_passthrough w.grant_id)))
          _ h1 in
      let same = ok_inj _ c _ refl h2 in
      let direct = ensure-eq-ok _ _ other in
      rw (← same) (released_once payload refl (ground arith) refl, refl, refl)

  pub choose_entered-Entered :
      (value : Option Text) (c : Choice)
      → choose_entered w form row t value ≡ ok c
      → Entered row t c × (c.released_name ≡ row.secret_name) × (c.substitute_cap ≡ none)
  unfolding choose_entered
  choose_entered-Entered value c h =
      let (entered, given, h1) = >>=-eq-ok (ok_or value (bad_request not_stored)) _ h in
      elim (Bool-cases (is_some (non_empty form.store_secret))) [
        | inl e ↦ storing-Entered entered c (rw e at h1)
        | inr e ↦ passthrough-Entered entered c (rw e at h1)
      ]
