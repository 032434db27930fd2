-- ===== src/Store/Steps/OfRequests.antt =====
-- The transactions on requests, as changes.
use keychute.Store.Requests
use keychute.Prelude.{
  In-any, keep, find-In, is_some, and_true, ok_inj, ok_pair_inj, >>=-eq-ok, find, ℕ, ◌≡◌, refl, sym,
  ap, inl, inr, Bool, true, false, ◌&&◌, ◌||◌, Option, none, some, List, [], ◌∷◌, ◌++◌, map, arith,
  Text, ok, ensure, Bool-cases, Option-cases, any,
}
use keychute.Store.{
  sealing_failed, update_where, insert_audit, Db, AccessRequestRow, GrantRow, AuditEvent,
}
use keychute.Store.Approvals.{
  stored_event, approve_inserted, ui_approval_event, approve_found, approve_open, approve_storing,
  approve_request, open_for, ApproveOutcome,
}
use keychute.Store.Grants.Effect.{uses_logged, is_use_of}
use keychute.Store.Requests.{
  expired_row, expiry_event, is_stale, expire_stale, mark_push_delivered, purge_request_context,
  approval_event, denied_row, new_grant, grant_conflicts, is_open, approve_where, is_backed,
  insert_grant, is_pending, resolve_approve, resolve_deny, GrantParams, NewAccessRequest, Sealed,
}
use keychute.Store.Secrets.{with_first_version, new_secret, insert_secret, StoreSecretParams}
use keychute.Store.Steps.Change.{
  kept_requests, untouched, RequestKept, is_approved, NoConflict, Change,
}
use keychute.Store.Steps.OfSecrets.{
  with_first_version-Untouched, insert_secret-Untouched, Untouched-trans, Untouched,
}
use keychute.Types.{Uuid, DateTime, RequestState}

-- A row whose decision changes, where it was pending.
module _ (state : RequestState) (reason by : Option Text) (at : Option DateTime)
    (r : AccessRequestRow) where
  abbrev decided : AccessRequestRow
  decided = record r { state = state; deny_reason = reason; resolved_by = by; resolved_at = at }

  decided-kept : is_pending r.state ≡ true → RequestKept r decided
  decided-kept h = record {
    same_id = refl;
    same_client = refl;
    same_secret = refl;
    same_idem_client = refl;
    same_idem_key = refl;
    same_idem_mac = refl;
    final = λ k. absurd (cc);
  }

-- A row whose context and push columns change.
module _ (context nonce dek kek : Option Text) (delivered : Option DateTime)
    (r : AccessRequestRow) where
  abbrev cleaned : AccessRequestRow
  cleaned = record r {
    context_ciphertext = context;
    context_nonce = nonce;
    context_wrapped_dek = dek;
    context_kek_id = kek;
    push_delivered_at = delivered;
  }

  cleaned-kept : RequestKept r cleaned × (is_approved cleaned.state ≡ is_approved r.state)
  cleaned-kept = (
    record {
      same_id = refl;
      same_client = refl;
      same_secret = refl;
      same_idem_client = refl;
      same_idem_key = refl;
      same_idem_mac = refl;
      final = λ k. refl;
    },
    refl,
  )

unapproved_pending : (s : RequestState) → is_pending s ≡ true → false ≡ is_approved s
unapproved_pending RequestState.pending h = refl
unapproved_pending RequestState.approved h = cc
unapproved_pending RequestState.denied h = cc
unapproved_pending RequestState.expired h = cc

pub insert_grant-cases :
    (g : GrantRow) (db db' : Db)
    → insert_grant g db ≡ ok db'
    → NoConflict db g × (db' ≡ record db { grants = g ∷ db.grants })
unfolding insert_grant
insert_grant-cases g db db' h = elim (Bool-cases (grant_conflicts g db)) [
  | inl e ↦ let k = rw e at h in absurd (cc)
  | inr e ↦ (ground arith, sym (ok_inj _ db' _ refl (rw e at h)))
]

module _ (p : AccessRequestRow → Bool) (now : DateTime) (actor : Text) (audit : AuditEvent)
    (g : GrantRow) (db0 db db' : Db) where
  -- The approval of the rows that `p` names.
  pub approve_where-Change :
      ((i : Uuid) → is_use_of i audit ≡ false)
      → ((r : AccessRequestRow) → p r ≡ true → (r.id ≡ g.request_id) × (is_pending r.state ≡ true))
      → g.use_count ≡ 0
      → Untouched db0 db
      → any p db0.access_requests ≡ true
      → approve_where p now actor audit g db ≡ ok db'
      → Change db0 db'
  approve_where-Change quiet opened unused (r0, g0, u0) there h =
      let (db1, q, k) = >>=-eq-ok (insert_grant g _) _ h in
      let (free, e) = insert_grant-cases g _ db1 q in
      let d = ok_inj (insert_audit audit db1) db' _ refl k in
      Change.approved p (Requests.resolved RequestState.approved (some actor) now) g
        (record {
          of_request = λ r t. (opened r t).0;
          keeps = λ r t.
              decided-kept RequestState.approved r.deny_reason (some actor) (some now) r
                (opened r t).1;
          approves = λ r. refl;
          some_row = there;
        })
        unused (rw (← g0) free) (rw (← d, e) (ap (update_where p _) r0))
        (rw (← d, e) (ap (λ l. g ∷ l) g0))
        (λ i. rw (← d, e) (rw (quiet i) (let z = u0 i in omega arith)))

pub resolve_approve-Change :
    (now : DateTime) (id : Uuid) (by : Text) (gid : Uuid) (p : GrantParams) (o : Option Uuid)
    (db db' : Db)
    → resolve_approve now id by gid p db ≡ ok (o, db')
    → Change db db'
unfolding resolve_approve
resolve_approve-Change now id by gid p o db db' h =
    elim (Bool-cases (is_backed p db && any (is_open now id) db.access_requests)) [
      | inr e ↦
          let (_, d) = ok_pair_inj refl (rw e at h) in rw d (untouched db db refl refl (λ i. refl))
      | inl e ↦
          let (db1, q, k) =
            >>=-eq-ok (approve_where (is_open now id) now by _ (new_grant now gid id p) db) _
              (rw e at h) in
          let (_, d) = ok_pair_inj refl k in
          rw d (
            approve_where-Change (is_open now id) now by (approval_event now by id gid p)
              (new_grant now gid id p) db db db1 (λ i. ground arith) (λ r t. ground arith) refl
              (refl, refl, λ i. refl) (and_true (is_backed p db) _ e).1 q)
    ]

pub resolve_deny-Change :
    (now : DateTime) (id : Uuid) (by reason : Text) (db : Db)
    → Change db (resolve_deny now id by reason db).1
unfolding resolve_deny
resolve_deny-Change now id by reason db =
    elim (Option-cases (find (is_open now id) db.access_requests)) [
      | inl e ↦ rw (e, resolve_deny) (untouched db db refl refl (λ i. refl))
      | inr (r, e) ↦
          rw (e, resolve_deny)
            (kept_requests db _ (is_open now id) (denied_row by reason now)
              (λ x t.
                let waits : is_pending x.state ≡ true = ground arith in
                (
                  decided-kept RequestState.denied (some reason) (some by) (some now) x waits,
                  unapproved_pending x.state waits,
                ))
              refl refl (λ i. omega arith))
    ]

expiries-unused :
    (now : DateTime) (rs : List AccessRequestRow) (log : List AuditEvent) (i : Uuid)
    → uses_logged i (map (expiry_event now) rs ++ log) ≡ uses_logged i log
expiries-unused now [] log i = refl
expiries-unused now (r ∷ rs) log i = let h = expiries-unused now rs log i in ground arith

pub expire_stale-Change : (now : DateTime) (db : Db) → Change db (expire_stale now db).1
unfolding expire_stale
expire_stale-Change now db =
    kept_requests db _ (is_stale now) (expired_row now)
      (λ x t.
        let waits : is_pending x.state ≡ true = ground arith in
        (
          decided-kept RequestState.expired x.deny_reason x.resolved_by (some now) x waits,
          unapproved_pending x.state waits,
        ))
      refl refl (expiries-unused now (keep (is_stale now) db.access_requests) db.audit_log)

pub purge_request_context-Change :
    (now : DateTime) (retention : ℕ) (db : Db) → Change db (purge_request_context now retention db)
unfolding purge_request_context
purge_request_context-Change now retention db =
    kept_requests db _ _ _ (λ x t. cleaned-kept none none none none x.push_delivered_at x) refl refl
      (λ i. refl)

pub mark_push_delivered-Change :
    (now : DateTime) (id : Uuid) (db : Db) → Change db (mark_push_delivered now id db)
unfolding mark_push_delivered
mark_push_delivered-Change now id db =
    kept_requests db _ _ _
      (λ x t.
        cleaned-kept x.context_ciphertext x.context_nonce x.context_wrapped_dek x.context_kek_id
          (some now) x)
      refl refl (λ i. refl)

module _ (now : DateTime) (id : Uuid) (by : Text) (gid vid : Uuid) (p : GrantParams)
    (store : Option StoreSecretParams) where
  approve_open-Change :
      (requested : Text) (o : ApproveOutcome) (db0 db db' : Db)
      → Untouched db0 db
      → any (open_for now id by gid vid p store) db0.access_requests ≡ true
      → approve_open now id by gid vid p store requested db ≡ ok (o, db')
      → Change db0 db'
  approve_open-Change requested o db0 db db' u there h =
      let (db1, q, k) =
        >>=-eq-ok
          (approve_where (open_for now id by gid vid p store) now by
            (ui_approval_event now by id gid p requested) (new_grant now gid id p) db)
          _ h in
      let (_, d) = ok_pair_inj refl k in
      rw d (
        approve_where-Change (open_for now id by gid vid p store) now by
          (ui_approval_event now by id gid p requested) (new_grant now gid id p) db0 db db1
          (λ i. ground arith) (λ r t. ground arith) refl u there q)

  approve_inserted-Change :
      (requested : Text) (s : StoreSecretParams) (r : Option Db) (o : ApproveOutcome) (db db' : Db)
      → insert_secret (new_secret now true s) db ≡ ok r
      → any (open_for now id by gid vid p store) db.access_requests ≡ true
      → approve_inserted now id by gid vid p store requested s db r ≡ ok (o, db')
      → Change db db'
  approve_inserted-Change requested s none o db db' q there h =
      let (_, d) = ok_pair_inj refl h in rw d (untouched db db refl refl (λ i. refl))
  approve_inserted-Change requested s (some db1) o db db' q there h =
      let e = stored_event now id by gid vid p store s in
      let (db2, w, k) = >>=-eq-ok (with_first_version now vid s (some id) e db1) _ h in
      approve_open-Change requested o db db2 db'
        (Untouched-trans db db1 db2 (insert_secret-Untouched (new_secret now true s) db db1 q)
          (with_first_version-Untouched now vid s (some id) e db1 db2 (λ i. refl) w))
        there k

  approve_storing-Change :
      (requested : Text) (s : Option StoreSecretParams) (o : ApproveOutcome) (db db' : Db)
      → any (open_for now id by gid vid p store) db.access_requests ≡ true
      → approve_storing now id by gid vid p store requested s db ≡ ok (o, db')
      → Change db db'
  approve_storing-Change requested none o db db' there h =
      approve_open-Change requested o db db db' (refl, refl, λ i. refl) there h
  approve_storing-Change requested (some s) o db db' there h =
      let (_, _, h1) = >>=-eq-ok (ensure (is_some s.seal) sealing_failed) _ h in
      let (r, q, h2) = >>=-eq-ok (insert_secret (new_secret now true s) db) _ h1 in
      approve_inserted-Change requested s r o db db' q there h2

  approve_found-Change :
      (r : Option AccessRequestRow) (o : ApproveOutcome) (db db' : Db)
      → find (open_for now id by gid vid p store) db.access_requests ≡ r
      → approve_found now id by gid vid p store r db ≡ ok (o, db')
      → Change db db'
  approve_found-Change none o db db' e h =
      let (_, d) = ok_pair_inj refl h in rw d (untouched db db refl refl (λ i. refl))
  approve_found-Change (some r) o db db' e h =
      let (i, t) = find-In (open_for now id by gid vid p store) db.access_requests r e in
      approve_storing-Change r.secret_name store o db db'
        (In-any (open_for now id by gid vid p store) db.access_requests r i t) h

  pub approve_request-Change :
      (o : ApproveOutcome) (db db' : Db)
      → approve_request now id by gid vid p store db ≡ ok (o, db')
      → Change db db'
  unfolding approve_request
  approve_request-Change o db db' h = elim (Bool-cases (is_some store || is_backed p db)) [
    | inr e ↦
        let (_, d) = ok_pair_inj refl (rw e at h) in rw d (untouched db db refl refl (λ i. refl))
    | inl e ↦
        approve_found-Change (find (open_for now id by gid vid p store) db.access_requests) o db db'
          refl (rw e at h)
  ]
