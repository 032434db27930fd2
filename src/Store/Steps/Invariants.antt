-- ===== src/Store/Steps/Invariants.antt =====
-- What holds of the database after any sequence of transactions.
use keychute.Prelude.{◌≡◌, some}
use keychute.Store.{get_grant, get_request, Db, AccessRequestRow, GrantRow}
use keychute.Store.Grants.Effect.{begin-Effect}
use keychute.Store.Secrets.{find_secret, insert_secret_version, rotate_secret_version}
use keychute.Store.Secrets.Edits.{update_secret_settings_audited, delete_secret_audited}
use keychute.Store.Steps.{
  delete_secret_audited, update_secret_settings_audited, rotate_secret_version,
  insert_secret_version, Step, Reach,
}
use keychute.Store.Steps.Accounts.{Change-IsAccounted, IsAccounted}
use keychute.Store.Steps.Change.{GrantKept-refl, RequestKept-refl, Change, RequestKept, GrantKept}
use keychute.Store.Steps.Final.{GrantKept-trans, RequestKept-trans, Change-grant, Change-request}
use keychute.Store.Steps.Lifecycle.{Change-IsMatched, IsMatched}
use keychute.Store.Steps.OfCreation.{insert_access_request_with_id-Change}
use keychute.Store.Steps.OfGrants.{
  unpin-Change, sweep-Change, purge_passthrough-Change, revoke_grant-Change, begin-Change,
}
use keychute.Store.Steps.OfPushes.{count_attempt-Change, insert_audit-Change}
use keychute.Store.Steps.OfRequests.{
  approve_request-Change, mark_push_delivered-Change, purge_request_context-Change,
  expire_stale-Change, resolve_deny-Change, resolve_approve-Change,
}
use keychute.Store.Steps.OfSecrets.{
  delete_found-Change, edit_found-Untouched, set_secret_tags-Untouched,
  mark_secret_vetted-Untouched, rotated-Untouched, insert_secret_version-Untouched,
  create_secret_with_version-Untouched, create_secret_from_client-Untouched, Untouched-Change,
}
use keychute.Types.{Uuid}

Step-Change : (db db' : Db) → Step db db' → Change db db'
unfolding insert_secret_version rotate_secret_version update_secret_settings_audited
    delete_secret_audited
Step-Change db db' (Step.used now gid key v kind w t u db1 is_use h) =
    begin-Change now gid key v kind w t db db1 u is_use
      (begin-Effect now gid key v kind w t db db1 u h)
Step-Change db db' (Step.revoked now id actor) = revoke_grant-Change now id actor db
Step-Change db db' (Step.purged id) = purge_passthrough-Change id db
Step-Change db db' (Step.swept now w) = sweep-Change now w db
Step-Change db db' (Step.unpinned now w) = unpin-Change now w db
Step-Change db db' (Step.resolved now id by gid p o db1 h) =
    resolve_approve-Change now id by gid p o db db1 h
Step-Change db db' (Step.denied now id by reason) = resolve_deny-Change now id by reason db
Step-Change db db' (Step.expired now) = expire_stale-Change now db
Step-Change db db' (Step.context_purged now r) = purge_request_context-Change now r db
Step-Change db db' (Step.push_marked now id) = mark_push_delivered-Change now id db
Step-Change db db' (Step.approved now id by gid vid p store o db1 h) =
    approve_request-Change now id by gid vid p store o db db1 h
Step-Change db db' (Step.requested now id gid req cap res ctx o db1 h) =
    insert_access_request_with_id-Change now id gid req cap res ctx o db db1 h
Step-Change db db' (Step.deposited now vid s client rate o db1 h) =
    Untouched-Change db db1 (create_secret_from_client-Untouched now vid s client rate o db db1 h)
Step-Change db db' (Step.stored now vid s actor o db1 h) =
    Untouched-Change db db1 (create_secret_with_version-Untouched now vid s actor o db db1 h)
Step-Change db db' (Step.appended now vid id seal by v db1 h) =
    Untouched-Change db db1 (insert_secret_version-Untouched now vid id seal by v db db1 h)
Step-Change db db' (Step.rotated now vid id name actor seal v db1 h) =
    Untouched-Change db db1
      (rotated-Untouched now vid name actor seal (find_secret db id) v db db1 h)
Step-Change db db' (Step.vetted now id version actor) =
    Untouched-Change db _ (mark_secret_vetted-Untouched now id version actor db)
Step-Change db db' (Step.tagged id tags) =
    Untouched-Change db _ (set_secret_tags-Untouched id tags db)
Step-Change db db' (Step.edited now id s actor) =
    Untouched-Change db _ (edit_found-Untouched now s actor db (find_secret db id))
Step-Change db db' (Step.deleted now id version actor) =
    delete_found-Change now id version actor db (find_secret db id)
Step-Change db db' (Step.attempted p o db1 h) = count_attempt-Change p db db1 o h
Step-Change db db' (Step.logged e unused) = insert_audit-Change e db unused

-- After any sequence of the store's transactions, a request that was there is there, with the same
-- client, secret, idempotency key and MAC; and one that was decided has the same state.
pub Reach-request :
    (db db' : Db) (id : Uuid) (r : AccessRequestRow)
    → Reach db db'
    → get_request db id ≡ some r
    → (r' : AccessRequestRow) × (get_request db' id ≡ some r') × RequestKept r r'
Reach-request db db' id r Reach.start found = (r, found, RequestKept-refl r)
Reach-request db db' id r (Reach.then_step db1 db2 before step) found =
    let (r1, found1, k1) = Reach-request db db1 id r before found in
    let (r2, found2, k2) = Change-request db1 db2 id r1 (Step-Change db1 db2 step) found1 in
    (r2, found2, RequestKept-trans r r1 r2 k1 k2)

-- After any sequence of the store's transactions, a grant that was there is there, with the same
-- request, client, secret, mechanism, constraints, expiry and cap; its use count has not gone down;
-- and if it was revoked or had lost its payload, it still is or has.
pub Reach-grant :
    (db db' : Db) (id : Uuid) (g : GrantRow)
    → Reach db db'
    → get_grant db id ≡ some g
    → (g' : GrantRow) × (get_grant db' id ≡ some g') × GrantKept g g'
Reach-grant db db' id g Reach.start found = (g, found, GrantKept-refl g)
Reach-grant db db' id g (Reach.then_step db1 db2 before step) found =
    let (g1, found1, k1) = Reach-grant db db1 id g before found in
    let (g2, found2, k2) = Change-grant db1 db2 id g1 (Step-Change db1 db2 step) found1 in
    (g2, found2, GrantKept-trans g g1 g2 k1 k2)

-- If every request has one grant when it is approved and none otherwise, that holds after any sequence
-- of the store's transactions.
pub Reach-IsMatched : (db db' : Db) → Reach db db' → IsMatched db → IsMatched db'
Reach-IsMatched db db' Reach.start m = m
Reach-IsMatched db db' (Reach.then_step db1 db2 before step) m =
    Change-IsMatched db1 db2 (Step-Change db1 db2 step) (Reach-IsMatched db db1 before m)

-- If every grant's use count is the number of its uses in the audit log and within its cap, and no
-- other grant has a use in the log, that holds after any sequence of the store's transactions.
pub Reach-IsAccounted : (db db' : Db) → Reach db db' → IsAccounted db → IsAccounted db'
Reach-IsAccounted db db' Reach.start a = a
Reach-IsAccounted db db' (Reach.then_step db1 db2 before step) a =
    Change-IsAccounted db1 db2 (Step-Change db1 db2 step) (Reach-IsAccounted db db1 before a)
