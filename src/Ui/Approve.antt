-- ===== src/Ui/Approve.antt =====
-- `approve` of server/src/ui/mod.rs. The page that is rendered again, and the wake-up of waiting
-- clients, are left out.
pub mod Decided
pub mod Approved
use keychute.Store
use mathlib.Core.Option
use keychute.Api.Decide.{earlier}
use keychute.Between.{◌>>=◌, ◌>>◌, give, read, transact}
use keychute.Prelude.{
  ℕ, ◌+◌, ◌-◌, ◌*◌, ◌/◌, Bool, true, false, not, ◌&&◌, ◌||◌, Option, none, some, Text, codes,
  text_eq, Result, ok, err, ensure, ok_or, ltb, if◌then◌else◌, is_some,
}
use keychute.Store.{Db, AccessRequestRow, max_int, get_request, get_secret_by_name}
use keychute.Store.Approvals.{
  approve_request, ApproveOutcome, approved, not_approvable, secret_name_taken, secret_gone,
}
use keychute.Store.Requests.{GrantParams}
use keychute.Types.{Uuid, DateTime, second}
use keychute.Ui.{
  Stop, panicked, ui_error, bad_request, conflict, Operator, Response, redirect_to, rendered_again,
  secret_state_changed, substitute_state_changed, malformed_form, no_such_request,
  resolved_concurrently, name_taken, secret_deleted,
}
use keychute.Ui.Between.{ui_raises, Handler, Setting}
use keychute.Ui.Choice.{Choice, choose_stored, choose_entered}
use keychute.Ui.Forms.{ApproveForm, non_empty, secret_state_marker, take_secret_value}
use keychute.Ui.Substitute.{choose_substitute}
use keychute.Ui.Terms.{Terms, identify, still_pending, terms_of, submitted_marker}

-- How many seconds a duration may have in chrono.
abbrev max_duration : ℕ
max_duration = 9223372036854775

-- `now + Duration::seconds(ttl as i64)`; `none` is a panic, and a time before the epoch is 0.
unfoldable pub deadline : DateTime → ℕ → DateTime → ℕ → Option DateTime
deadline max_utc seconds_before_epoch now ttl =
    if ltb ttl 9223372036854775808
    then (if ltb max_duration ttl || ltb max_utc (now + ttl * second)
        then none
        else some (now + ttl * second))
    else (let back = 18446744073709551616 - ttl in
        if ltb max_duration back || ltb (now / second + seconds_before_epoch) back
        then none
        else some (now - back * second))

abbrev pub capped : AccessRequestRow → Choice → DateTime → DateTime
capped row c not_after = earlier (earlier not_after row.policy_not_after) c.substitute_cap

abbrev pub grant_params : AccessRequestRow → Terms → Choice → DateTime → GrantParams
grant_params row t c not_after = record {
  client_name = row.client_name;
  secret_name = c.released_name;
  secret_id = c.released_secret_id;
  mechanism = row.mechanism;
  constraints = row.constraints;
  not_after = capped row c not_after;
  max_uses = Option.map (λ u. if ltb max_int u then max_int else u) t.max_uses;
  passthrough = c.passthrough;
}

abbrev pub answer : ApproveOutcome → Result Stop Response
answer (approved _) = ok (redirect_to (codes "/ui/requests"))
answer not_approvable = err (conflict resolved_concurrently)
answer secret_name_taken = err (conflict name_taken)
answer secret_gone = err (conflict secret_deleted)

module _ (w : Setting) (id : Uuid) (form : ApproveForm) where
  unfoldable pub commit : Operator → AccessRequestRow → DateTime → Terms → Choice → Handler Response
  commit op row now t c = do
    not_after ← give (ok_or (deadline w.max_utc w.seconds_before_epoch now t.ttl) panicked)
    outcome ← transact w.others 7 (
        approve_request (w.clock 7) id op.subject w.grant_id w.version_id
          (grant_params row t c not_after) c.store)
    give (answer outcome)

  abbrev pub commit_chosen :
      Operator → AccessRequestRow → DateTime → Terms → Option Choice → Handler Response
  commit_chosen op row now t none = give (ok (rendered_again substitute_state_changed))
  commit_chosen op row now t (some c) = commit op row now t c

  -- By the stored secret, the picked one and the value.
  unfoldable pub choose :
      AccessRequestRow
      → DateTime
      → Terms
      → Option Store.SecretRow
      → Option Text
      → Handler (Option Choice)
  choose row now t none (some raw) = choose_substitute w form row t now (take_secret_value form) raw
  choose row now t (some s) substitute = do
    give (
        ensure (not (is_some (take_secret_value form) || is_some substitute))
          (bad_request malformed_form))
    c ← give (choose_stored row t s)
    give (ok (some c))
  choose row now t none none = do
    c ← give (choose_entered w form row t (take_secret_value form))
    give (ok (some c))

  abbrev pub decide :
      Operator → AccessRequestRow → DateTime → Terms → Option Store.SecretRow → Handler Response
  decide op row now t secret =
      if not (text_eq (submitted_marker form) (secret_state_marker secret))
      then give (ok (rendered_again secret_state_changed))
      else do
        c ← choose row now t secret (non_empty form.substitute_secret)
        commit_chosen op row now t c

  unfoldable pub approve : Handler Response
  approve = do
    op ← give (identify w id form)
    found ← read w.others 0 (λ db. get_request db id)
    row ← give (ok_or found (ui_error 404 no_such_request))
    now ← read w.others 1 (λ db. w.clock 1)
    give (still_pending now row)
    t ← give (terms_of form row)
    secret ← read w.others 2 (λ db. get_secret_by_name db row.secret_name)
    decide op row now t secret
