-- ===== src/Ui.antt =====
-- server/src/ui/: the errors of the handlers, the operator, and the forms that carry a token only.
-- A page is not modelled; a form is the fields that it decodes to.
pub mod Csrf
pub mod Between
pub mod Forms
pub mod Terms
pub mod Choice
pub mod Substitute
pub mod Approve
pub mod Resolve
use keychute.Policy.{Reason}
use keychute.Prelude.{ℕ, Text, codes}

-- The texts of `UiError`.
pub data Message : Type 0 where
  internal_error not_an_operator no_authentication : Message
  cross_origin bad_form_token malformed_form no_such_request not_pending policy_row_expired :
      Message
  invalid_number not_positive only_narrow : Text → Message
  either_stored_or_new below_tier_being_approved client_gone unreadable_rule : Message
  policy_refuses : Text → Reason → Message
  policy_of_secret_expired secret_disabled mechanism_exceeds_tier : Message
  not_stored invalid_max_tier broader_tier invalid_template brokered_needs_stored : Message
  resolved_concurrently name_taken secret_deleted grant_not_active : Message

pub data Notice : Type 0 where
  secret_state_changed substitute_state_changed : Notice

pub record UiError : Type 0 where
  pub status : ℕ
  pub msg : Message

-- How a handler stops early: with an error page, or by a panic, which answers nothing.
pub data Stop : Type 0 where
  refused : UiError → Stop
  panicked : Stop

abbrev pub ui_error : ℕ → Message → Stop
ui_error status m = refused (record { status = status; msg = m })

abbrev pub bad_request : Message → Stop
bad_request = ui_error 400

abbrev pub conflict : Message → Stop
conflict = ui_error 409

-- `From<anyhow::Error>`.
abbrev pub internal : Stop
internal = ui_error 500 internal_error

-- A redirect, or the request's page again with a notice (409).
pub data Response : Type 0 where
  redirect_to : Text → Response
  rendered_again : Notice → Response

pub record Operator : Type 0 where
  pub subject : Text

-- The CSRF route labels of the forms that are modelled.
abbrev pub r_approve : Text
r_approve = codes "/ui/requests/approve"

abbrev pub r_deny : Text
r_deny = codes "/ui/requests/deny"

abbrev pub r_revoke : Text
r_revoke = codes "/ui/grants/revoke"
