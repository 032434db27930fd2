-- ===== src/Ui/Approve/Approved.antt =====
-- What an approval by `approve` of server/src/ui/mod.rs rests on.
use keychute.Store
use keychute.Crypto.{csrf_mac}
use keychute.Prelude.{◌+◌, ◌*◌, ◌≤◌, ◌≡◌, true, some}
use keychute.Store.{
  Db, AccessRequestRow, get_request, get_secret_by_name, secret_incarnation_exists,
}
use keychute.Store.Approvals.ByOperator.{Opened}
use keychute.Store.Requests.{is_pending}
use keychute.Types.{Uuid, DateTime, second}
use keychute.Ui.{Operator}
use keychute.Ui.Approve.{grant_params}
use keychute.Ui.Approve.Decided.{Grounds}
use keychute.Ui.Between.{ui_raises, Setting}
use keychute.Ui.Choice.{Choice}
use keychute.Ui.Choice.Checked.{IsReleasable}
use keychute.Ui.Csrf.{verify_token, browser_metadata_ok}
use keychute.Ui.Forms.{ApproveForm, secret_state_marker}
use keychute.Ui.Terms.{Terms, approve_form, submitted_marker}
use keychute.Ui.Terms.Narrowed.{IsNarrowed}

module _ (w : Setting) (id : Uuid) (form : ApproveForm) where
  abbrev pub at_row : Db → Db
  at_row db = w.others 0 db

  abbrev pub at_secret : Db → Db
  at_secret db = w.others 2 (w.others 1 (w.others 0 db))

  -- An approval: who asked with which token, the request that was pending, the terms, the secret as
  -- the page showed it and why it may be released, and the grant as it was committed.
  pub record Approved (db db' : Db) : Type 0 where
    pub operator : Operator
    pub row : AccessRequestRow
    pub terms : Terms
    pub chosen : Choice
    pub between : Db
    pub until : DateTime
    pub authentic :
        verify_token
          (csrf_mac w.packages w.keyset)
          w.base64_url_decode
          (approve_form w id operator form)
          form.csrf_token
          w.process_now
        ≡ true
    pub same_site : browser_metadata_ok w.parse_url w.to_str w.external_url w.tls w.headers ≡ true
    pub found : get_request (at_row db) id ≡ some row
    pub pending : is_pending row.state ≡ true
    pub narrowed : IsNarrowed row terms
    pub as_shown :
        submitted_marker form
        ≡ secret_state_marker (get_secret_by_name (at_secret db) row.secret_name)
    pub grounds :
        Grounds w id form row terms
          (w.clock 1)
          (at_secret db)
          chosen
          (get_secret_by_name (at_secret db) row.secret_name)
          between
    pub opened :
        Opened
          (w.clock 7)
          id
          operator.subject
          w.grant_id
          w.version_id
          (grant_params row terms chosen until)
          chosen.store
          (w.others 7 between)
          db'
    pub still_there :
        (s : Store.SecretRow)
        → IsReleasable terms s chosen
        → secret_incarnation_exists (w.others 7 between) s.id chosen.released_name ≡ true
    pub within_ttl :
        (grant_params row terms chosen until).not_after
        ≤ w.clock 1 + row.constraints.ttl_seconds * second
    pub within_policy :
        (cap : DateTime)
        → row.policy_not_after ≡ some cap
        → (grant_params row terms chosen until).not_after ≤ cap
    pub within_own_policy :
        (cap : DateTime)
        → chosen.substitute_cap ≡ some cap
        → (grant_params row terms chosen until).not_after ≤ cap
