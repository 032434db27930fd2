-- ===== src/Store/Steps/OfGrants.antt =====
-- The transactions on grants, as changes.
use keychute.Prelude.{
  find-In, find, ℕ, ◌+◌, ◌≡◌, refl, inl, inr, Bool, true, not, ◌&&◌, Option, arith, Text, Result,
  ◌==◌, Option-cases,
}
use keychute.Store.{Db, GrantRow, AuditKind, DbError}
use keychute.Store.Grants.{
  bumped, can_bump, purgeable, revoke_one, without_payload, begin_grant_use, purge_passthrough,
  revoke_grant, sweep_purge_passthroughs, unpin_stale_grant_reads, AuditTarget, GrantUse,
}
use keychute.Store.Grants.Effect.{accounted, replay_logged, nothing, Effect}
use keychute.Store.Steps.{IsUse}
use keychute.Store.Steps.Change.{kept_grants, untouched, GrantKept, Change}
use keychute.Types.{Uuid, DateTime}

purged-kept :
    (g : GrantRow) (b : Bool)
    → (g.revoked ≡ true → b ≡ true)
    → GrantKept g (record (without_payload g) { revoked = b })
purged-kept g b h = record {
  same_id = refl;
  same_request = refl;
  same_client = refl;
  same_secret = refl;
  same_mechanism = refl;
  same_constraints = refl;
  same_not_after = refl;
  same_cap = refl;
  stays_revoked = h;
  stays_purged = λ k. refl;
  uses_grow = omega arith;
}

without_payload-kept :
    (g : GrantRow) → GrantKept g (without_payload g) × ((without_payload g).use_count ≡ g.use_count)
without_payload-kept g = (purged-kept g g.revoked (λ h. h), refl)

pub revoke_one-kept :
    (g : GrantRow) → GrantKept g (revoke_one g) × ((revoke_one g).use_count ≡ g.use_count)
revoke_one-kept g = (purged-kept g true (λ h. refl), refl)

pub purge_passthrough-Change : (id : Uuid) (db : Db) → Change db (purge_passthrough id db)
unfolding purge_passthrough
purge_passthrough-Change id db =
    kept_grants db (purge_passthrough id db) (λ g. g.id == id) without_payload
      (λ g _. without_payload-kept g) refl refl (λ i. refl)

pub sweep-Change :
    (now : DateTime) (window : ℕ) (db : Db) → Change db (sweep_purge_passthroughs now window db)
unfolding sweep_purge_passthroughs
sweep-Change now window db =
    kept_grants db (sweep_purge_passthroughs now window db) (purgeable now window db.grant_reads)
      without_payload (λ g _. without_payload-kept g) refl refl (λ i. refl)

pub unpin-Change :
    (now : DateTime) (window : ℕ) (db : Db) → Change db (unpin_stale_grant_reads now window db)
unfolding unpin_stale_grant_reads
unpin-Change now window db =
    untouched db (unpin_stale_grant_reads now window db) refl refl (λ i. refl)

pub revoke_grant-Change :
    (now : DateTime) (id : Uuid) (actor : Text) (db : Db)
    → Change db (revoke_grant now id actor db).1
unfolding revoke_grant
revoke_grant-Change now id actor db =
    elim (Option-cases (find (λ (g : GrantRow). g.id == id && not g.revoked) db.grants)) [
      | inl e ↦ rw (e, revoke_grant) (untouched db db refl refl (λ i. refl))
      | inr (g, e) ↦
          rw (e, revoke_grant)
            (kept_grants db _ (λ r. r.id == id && not r.revoked) revoke_one
              (λ r _. revoke_one-kept r) refl refl (λ i. ground arith))
    ]

module _ (now : DateTime) (grant_id : Uuid) (idem_key : Option Text)
    (secret_version_id : Option Uuid) (audit_kind : AuditKind) (replay_window_seconds : ℕ)
    (target : Option AuditTarget) where
  abbrev begin : Db → Result DbError (GrantUse × Db)
  begin =
      begin_grant_use now grant_id idem_key secret_version_id audit_kind replay_window_seconds
        target

  abbrev bump : GrantRow → GrantRow
  bump = bumped now grant_id idem_key secret_version_id audit_kind replay_window_seconds target

  abbrev bumpable : GrantRow → Bool
  bumpable =
      can_bump now grant_id idem_key secret_version_id audit_kind replay_window_seconds target

  bumped-kept : (g : GrantRow) → GrantKept g (bump g) × ((bump g).use_count ≡ g.use_count + 1)
  bumped-kept g = (
    record {
      same_id = refl;
      same_request = refl;
      same_client = refl;
      same_secret = refl;
      same_mechanism = refl;
      same_constraints = refl;
      same_not_after = refl;
      same_cap = refl;
      stays_revoked = λ h. h;
      stays_purged = λ h. h;
      uses_grow = omega arith;
    },
    refl,
  )

  pub begin-Change :
      (db db' : Db) (u : GrantUse)
      → IsUse audit_kind
      → Effect now grant_id idem_key secret_version_id audit_kind replay_window_seconds target db u
          db'
      → Change db db'
  begin-Change db db' u kind (nothing same _) = rw same (untouched db db refl refl (λ i. refl))
  begin-Change db db' u kind (replay_logged g r _ _ _ _ _ d) =
      rw d (untouched db _ refl refl (λ i. ground arith))
  begin-Change db db' u kind (accounted g found live left _ _ d) =
      let (_, here) = find-In (λ x. x.id == grant_id) db.grants g found in
      rw d (
        Change.used grant_id bumpable bump g found left (rw (here, live, left) refl)
          (λ r h. ground arith) bumped-kept refl refl (λ i. rw kind (ground arith)))
