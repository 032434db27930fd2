-- ===== src/Ui/Resolve.antt =====
-- `deny` and `revoke` of server/src/ui/mod.rs.
pub mod Effect
use keychute.Between.{◌>>=◌, ◌>>◌, give, transact}
use keychute.Prelude.{ℕ, Bool, not, [], Text, codes, Result, ok, ensure}
use keychute.Store.{Db, DbError}
use keychute.Store.Grants.{revoke_grant}
use keychute.Store.Requests.{resolve_deny}
use keychute.Types.{Uuid}
use keychute.Ui.{
  Stop, conflict, not_pending, grant_not_active, Operator, r_deny, r_revoke, Response, redirect_to,
}
use keychute.Ui.Between.{ui_raises, Handler, Setting, check_post}

module _ (w : Setting) where
  unfoldable pub deny : Uuid → Text → Handler Response
  deny id csrf_token = do
    op ← give w.operator
    give (
        check_post w
          (record {
            route = r_deny;
            action_id = w.packages.show_uuid id;
            subject = op.subject;
            form_state = [];
          })
          csrf_token)
    denied ←
        transact w.others 0
          (λ db. ok (resolve_deny (w.clock 0) id op.subject (codes "denied by operator") db))
    give (ensure denied (conflict not_pending))
    give (ok (redirect_to (codes "/ui/requests")))

  unfoldable pub revoke : Uuid → Text → Handler Response
  revoke id csrf_token = do
    op ← give w.operator
    give (
        check_post w
          (record {
            route = r_revoke;
            action_id = w.packages.show_uuid id;
            subject = op.subject;
            form_state = [];
          })
          csrf_token)
    revoked ← transact w.others 0 (λ db. ok (revoke_grant (w.clock 0) id op.subject db))
    give (ensure revoked (conflict grant_not_active))
    give (ok (redirect_to (codes "/ui/grants")))
