-- ===== src/Ui/Terms.antt =====
-- `approve` of server/src/ui/mod.rs before a secret is chosen: its guards, and the narrowing of what
-- was asked for. A stored request's columns hold their values.
pub mod Guarded
pub mod Narrowed
use keychute.Prelude.{
  ℕ, Bool, true, false, not, ◌&&◌, Option, none, some, [], Text, codes, Result, ok, ◌>>=◌, ◌>>◌,
  ensure, ok_or, ltb, if◌then◌else◌, is_some,
}
use keychute.Store.{AccessRequestRow}
use keychute.Store.Requests.{is_pending}
use keychute.Types.{Uuid, DateTime, Mechanism, mechanism_from_str, is_releasing, Constraints}
use keychute.Ui.{
  Stop, bad_request, conflict, internal, Operator, r_approve, malformed_form, not_pending,
  policy_row_expired,
}
use keychute.Ui.Between.{Setting, check_post}
use keychute.Ui.Csrf.{Form}
use keychute.Ui.Forms.{
  ApproveForm, non_empty, or_text, max_u64, parse_narrow_u64, parse_secret_present,
  policy_cap_elapsed,
}

-- What the operator and the page have fixed before a secret is chosen.
pub record Terms : Type 0 where
  pub mechanism : Mechanism
  pub ttl : ℕ
  pub max_uses : Option ℕ

abbrev pub submitted_marker : ApproveForm → Text
submitted_marker form = or_text (non_empty form.secret_present) []

abbrev pub approve_form : Setting → Uuid → Operator → ApproveForm → Form
approve_form w id op form = record {
  route = r_approve;
  action_id = w.packages.show_uuid id;
  subject = op.subject;
  form_state = submitted_marker form;
}

-- The first guards: who asks, the token of the form with its marker, and a marker that parses.
unfoldable pub identify : Setting → Uuid → ApproveForm → Result Stop Operator
identify w id form = do
  op ← w.operator
  check_post w (approve_form w id op form) form.csrf_token
  ensure (is_some (parse_secret_present (non_empty form.secret_present)))
      (bad_request malformed_form)
  ok op

unfoldable pub still_pending : DateTime → AccessRequestRow → Result Stop (Unit {0})
still_pending now row = do
  ensure (is_pending row.state && ltb now row.expires_at) (conflict not_pending)
  ensure (not (policy_cap_elapsed row.policy_not_after now)) (conflict policy_row_expired)

abbrev pub requested_uses : Mechanism → Constraints → Option ℕ
requested_uses m c = if is_releasing m then some 1 else c.max_uses

abbrev pub narrow_uses : Option Text → Option ℕ → Result Stop (Option ℕ)
narrow_uses none base = ok base
narrow_uses (some raw) base = do
  v ← parse_narrow_u64 (some raw) (elim base [ none ↦ max_u64 | some n ↦ n ]) (codes "max_uses")
  ok (some v)

unfoldable pub terms_of : ApproveForm → AccessRequestRow → Result Stop Terms
terms_of form row = do
  mechanism ← ok_or (mechanism_from_str row.mechanism) internal
  ttl ←
      parse_narrow_u64 (non_empty form.ttl_seconds) row.constraints.ttl_seconds
        (codes "ttl_seconds")
  max_uses ← narrow_uses (non_empty form.max_uses) (requested_uses mechanism row.constraints)
  ok (record { mechanism = mechanism; ttl = ttl; max_uses = max_uses })
