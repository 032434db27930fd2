-- ===== src/Store/Approvals/ByOperator.antt =====
-- An approval by an operator that minted a grant: what `approve_request` of server/src/db/ui_ext.rs
-- checked.
use keychute.Prelude.{
  find, >>=-eq-ok, ok_pair_inj, ok_inj, ◌≡◌, refl, inl, inr, Bool, true, ◌||◌, Option, none, some,
  ok, ltb, Bool-cases, Option-cases, Text, is_some, ensure, find-In, and_true,
}
use keychute.Store.{Db, GrantRow, AccessRequestRow, AuditEvent, get_grant, insert_audit}
use keychute.Store.Approvals.{
  open_for, approve_open, approve_inserted, approve_storing, approve_request, approved,
}
use keychute.Store.Approvals.Released.{inserted_grant}
use keychute.Store.Requests.{approve_where, new_grant, insert_grant, is_backed, GrantParams}
use keychute.Store.Secrets.{StoreSecretParams, insert_secret, with_first_version, new_secret}
use keychute.Types.{Uuid, DateTime}

approve_where-minted :
    (p : AccessRequestRow → Bool) (now : DateTime) (by : Text) (e : AuditEvent) (g : GrantRow)
    (db db' : Db)
    → approve_where p now by e g db ≡ ok db'
    → get_grant db' g.id ≡ some g
approve_where-minted p now by e g db db' h =
    let (minted, q, k) = >>=-eq-ok (insert_grant g _) _ h in
    let same : insert_audit e minted ≡ db' = ok_inj _ db' _ refl k in
    rw (← same) (inserted_grant g _ minted q)

module _ (now : DateTime) (id : Uuid) (by : Text) (gid vid : Uuid) (p : GrantParams)
    (store : Option StoreSecretParams) where
  abbrev open_now : AccessRequestRow → Bool
  open_now = open_for now id by gid vid p store

  open-minted :
      (requested : Text) (db db' : Db) (o : Uuid)
      → approve_open now id by gid vid p store requested db ≡ ok (approved o, db')
      → get_grant db' gid ≡ some (new_grant now gid id p)
  open-minted requested db db' o h =
      let (minted, q, k) =
        >>=-eq-ok (approve_where open_now now by _ (new_grant now gid id p) db) _ h in
      let same = (ok_pair_inj {b = minted} refl k).1 in
      rw same (approve_where-minted open_now now by _ (new_grant now gid id p) db minted q)

  inserted-minted :
      (requested : Text) (s : StoreSecretParams) (db db' : Db) (inserted : Option Db) (o : Uuid)
      → approve_inserted now id by gid vid p store requested s db inserted ≡ ok (approved o, db')
      → get_grant db' gid ≡ some (new_grant now gid id p)
  inserted-minted requested s db db' none o h = let k = (ok_pair_inj refl h).0 in absurd (cc)
  inserted-minted requested s db db' (some db1) o h =
      let (db2, q, k) = >>=-eq-ok (with_first_version now vid s (some id) _ db1) _ h in
      open-minted requested db2 db' o k

  storing-minted :
      (requested : Text) (s : Option StoreSecretParams) (db db' : Db) (o : Uuid)
      → approve_storing now id by gid vid p store requested s db ≡ ok (approved o, db')
      → get_grant db' gid ≡ some (new_grant now gid id p)
  storing-minted requested none db db' o h = open-minted requested db db' o h
  storing-minted requested (some s) db db' o h =
      let (u, q, k) = >>=-eq-ok (ensure (is_some s.seal) _) _ h in
      let (inserted, q', k') = >>=-eq-ok (insert_secret (new_secret now true s) db) _ k in
      inserted-minted requested s db db' inserted o k'

  -- What the transaction found when it approved.
  pub record Opened (db db' : Db) : Type 0 where
    pub row : AccessRequestRow
    pub found : find open_now db.access_requests ≡ some row
    pub backed : (is_some store || is_backed p db) ≡ true
    pub live : ltb now p.not_after ≡ true
    pub minted : get_grant db' gid ≡ some (new_grant now gid id p)

  pub approve_request-Opened :
      (db db' : Db) (o : Uuid)
      → approve_request now id by gid vid p store db ≡ ok (approved o, db')
      → Opened db db'
  unfolding approve_request
  approve_request-Opened db db' o h = elim (Bool-cases (is_some store || is_backed p db)) [
    | inr e ↦ let k = (ok_pair_inj refl (rw e at h)).0 in absurd (cc)
    | inl e ↦ elim (Option-cases (find open_now db.access_requests)) [
      | inl missing ↦ let k = (ok_pair_inj refl (rw (e, missing) at h)).0 in absurd (cc)
      | inr (row, found) ↦
          let stored = rw (e, found) at h in
          record {
            row = row;
            found = found;
            backed = e;
            live = (and_true _ _ (find-In open_now db.access_requests row found).1).1;
            minted = storing-minted row.secret_name store db db' o stored;
          }
    ]
  ]
