-- ===== src/Ui/Resolve/Effect.antt =====
-- What `deny` and `revoke` of server/src/ui/mod.rs commit when they redirect.
use keychute.Prelude.{◌≡◌, Bool, true, false, not, ◌&&◌, [], In, any, Text, codes, ◌==◌}
use keychute.Store.{Db, GrantRow, AccessRequestRow}
use keychute.Store.Grants.{revoke_grant, revoke_one}
use keychute.Store.Requests.{resolve_deny, denied_row, is_open}
use keychute.Types.{Uuid}
use keychute.Ui.{Operator, r_deny, r_revoke}
use keychute.Ui.Between.{ui_raises, Setting}
use keychute.Ui.Csrf.{Form}
use keychute.Ui.Terms.Guarded.{is_authentic, is_same_site}

module _ (w : Setting) (id : Uuid) (token : Text) where
  abbrev form : Text → Operator → Form
  form route op = record {
    route = route;
    action_id = w.packages.show_uuid id;
    subject = op.subject;
    form_state = [];
  }

  -- The operator, the token that was accepted, and what the transaction answered.
  pub record Resolved (route : Text) (db db' : Db) (tx : Operator → Db → Bool × Db) : Type 0 where
    pub operator : Operator
    pub authentic : is_authentic w (form route operator) token ≡ true
    pub same_site : is_same_site w ≡ true
    pub done : tx operator (w.others 0 db) ≡ (true, db')

  abbrev tx_deny : Operator → Db → Bool × Db
  tx_deny op db = resolve_deny (w.clock 0) id op.subject (codes "denied by operator") db

  abbrev tx_revoke : Operator → Db → Bool × Db
  tx_revoke op db = revoke_grant (w.clock 0) id op.subject db

  abbrev is_unrevoked : GrantRow → Bool
  is_unrevoked g = g.id == id && not g.revoked

  -- A revocation: who asked, the grant, and that it holds nothing that could still be used.
  pub record Revoked (db db' : Db) : Type 0 where
    pub resolved : Resolved r_revoke db db' tx_revoke
    pub grant : GrantRow
    pub there : In grant (w.others 0 db).grants
    pub live : is_unrevoked grant ≡ true
    pub dead : In (revoke_one grant) db'.grants
    pub none_left : any is_unrevoked db'.grants ≡ false

  -- A denial: who asked, the request, and that it cannot be resolved again.
  pub record Denied (db db' : Db) : Type 0 where
    pub resolved : Resolved r_deny db db' tx_deny
    pub row : AccessRequestRow
    pub there : In row (w.others 0 db).access_requests
    pub live : is_open (w.clock 0) id row ≡ true
    pub closed :
        In
          (denied_row resolved.operator.subject (codes "denied by operator") (w.clock 0) row)
          db'.access_requests
    pub none_left : any (is_open (w.clock 0) id) db'.access_requests ≡ false
