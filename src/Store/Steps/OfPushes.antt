-- ===== src/Store/Steps/OfPushes.antt =====
-- The push counters and a row of the audit log that is no use, as changes.
use keychute.Prelude.{
  ok_pair_inj, ◌≡◌, refl, inl, inr, Bool, false, ◌&&◌, ok, ◌==◌, Bool-cases, any, arith,
}
use keychute.Store.{Db, AccessRequestRow, AuditEvent, insert_audit, max_int, update_where}
use keychute.Store.Grants.Effect.{is_attempt_kind}
use keychute.Store.Pushes.{count_attempt, attempted}
use keychute.Store.Steps.Change.{kept_requests, untouched, RequestKept, is_approved, Change}

attempted-kept :
    (r : AccessRequestRow)
    → RequestKept r (attempted r) × (is_approved (attempted r).state ≡ is_approved r.state)
attempted-kept r = (
  record {
    same_id = refl;
    same_client = refl;
    same_secret = refl;
    same_idem_client = refl;
    same_idem_key = refl;
    same_idem_mac = refl;
    final = λ k. refl;
  },
  refl,
)

pub count_attempt-ok :
    (p : AccessRequestRow → Bool) (db db' : Db) (b : Bool)
    → count_attempt p db ≡ ok (b, db')
    → (b ≡ any p db.access_requests)
      × (db' ≡ record db { access_requests = update_where p attempted db.access_requests })
unfolding count_attempt
count_attempt-ok p db db' b h =
    elim (Bool-cases (any (λ r. p r && r.push_attempts == max_int) db.access_requests)) [
      | inl e ↦ absurd (let k = rw e at h in cc)
      | inr e ↦ ok_pair_inj refl (rw e at h)
    ]

pub count_attempt-Change :
    (p : AccessRequestRow → Bool) (db db' : Db) (b : Bool)
    → count_attempt p db ≡ ok (b, db')
    → Change db db'
count_attempt-Change p db db' b h =
    let (_, d) = count_attempt-ok p db db' b h in
    rw d (kept_requests db _ p attempted (λ r t. attempted-kept r) refl refl (λ i. refl))

pub insert_audit-Change :
    (e : AuditEvent) (db : Db) → is_attempt_kind e.kind ≡ false → Change db (insert_audit e db)
insert_audit-Change e db unused = untouched db _ refl refl (λ i. ground arith)
