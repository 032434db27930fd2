-- ===== src/Store/Grants/Effect.antt =====
-- What one call of `begin_grant_use` does, and which rows of the audit log are accounted uses.
use keychute.Prelude.{
  ok_pair_inj, count_where, ℕ, ◌≡◌, refl, sym, ◌∙◌, ◌⊎◌, inl, inr, Bool, true, false, not, ◌&&◌,
  Option, none, some, List, ◌∷◌, Text, Result, ok, err, ◌==◌, if◌then◌else◌, Bool-cases,
  Option-cases,
}
use keychute.Store.{
  insert_audit, GrantReadRow, DbError, max_int, Db, GrantRow, AuditEvent, AuditKind,
  release_attempt, proxy_attempt, Detail, replay, get_grant, update_where,
}
use keychute.Store.Grants.{
  integer_out_of_range, record_read, first_use, uses_left, attempt, replayed, in_window, prior_read,
  is_live, exhausted, expired_or_revoked, account, not_found, GrantUse, begin_grant_use, bumped,
  can_bump, AuditTarget,
}
use keychute.Types.{Uuid, DateTime}

abbrev pub is_attempt_kind : AuditKind → Bool
is_attempt_kind release_attempt = true
is_attempt_kind proxy_attempt = true
is_attempt_kind _ = false

abbrev pub is_replay_detail : Option Detail → Bool
is_replay_detail (some replay) = true
is_replay_detail _ = false

abbrev pub names_grant : Uuid → Option Uuid → Bool
names_grant id none = false
names_grant id (some g) = g == id

-- A write-ahead row for a use that was accounted, and how many there are.
abbrev pub is_use_of : Uuid → AuditEvent → Bool
is_use_of id e =
    names_grant id e.grant_id && is_attempt_kind e.kind && not (is_replay_detail e.detail)

abbrev pub uses_logged : Uuid → List AuditEvent → ℕ
uses_logged id = count_where (is_use_of id)

module _ (now : DateTime) (grant_id : Uuid) (idem_key : Option Text)
    (secret_version_id : Option Uuid) (audit_kind : AuditKind) (replay_window_seconds : ℕ)
    (target : Option AuditTarget) where
  abbrev begin : Db → Result DbError (GrantUse × Db)
  begin =
      begin_grant_use now grant_id idem_key secret_version_id audit_kind replay_window_seconds
        target

  abbrev bump : GrantRow → GrantRow
  bump = bumped now grant_id idem_key secret_version_id audit_kind replay_window_seconds target

  abbrev bumpable : GrantRow → Bool
  bumpable =
      can_bump now grant_id idem_key secret_version_id audit_kind replay_window_seconds target

  abbrev written : GrantRow → Option Uuid → Bool → AuditEvent
  written = attempt now grant_id idem_key secret_version_id audit_kind replay_window_seconds target

  abbrev with_read : Option Text → GrantRow → List GrantReadRow → List GrantReadRow
  with_read =
      record_read now grant_id idem_key secret_version_id audit_kind replay_window_seconds target

  -- The database that an accounted use commits.
  abbrev pub after_use : GrantRow → Db → Db
  after_use g db = record db {
    grants = update_where bumpable bump db.grants;
    grant_reads = with_read idem_key (bump g) db.grant_reads;
    audit_log = written (bump g) secret_version_id false ∷ db.audit_log;
  }

  -- What one call can do: nothing, log a replay, or account a use of a live grant with uses left.
  pub data Effect (db : Db) (u : GrantUse) (db' : Db) : Type 0 where
    nothing :
        db' ≡ db → (u ≡ not_found) ⊎ (u ≡ expired_or_revoked) ⊎ (u ≡ exhausted) → Effect db u db'
    replay_logged :
        (g : GrantRow) (r : GrantReadRow)
        → get_grant db grant_id ≡ some g
        → is_live g now ≡ true
        → prior_read db grant_id idem_key ≡ some r
        → in_window r now replay_window_seconds ≡ true
        → u ≡ replayed g r.secret_version_id r.passthrough
        → db' ≡ insert_audit (written g r.secret_version_id true) db
        → Effect db u db'
    accounted :
        (g : GrantRow)
        → get_grant db grant_id ≡ some g
        → is_live g now ≡ true
        → uses_left g ≡ true
        → prior_read db grant_id idem_key ≡ none
        → u ≡ first_use (bump g)
        → db' ≡ after_use g db
        → Effect db u db'

  pub begin-dead :
      (db : Db) (g : GrantRow)
      → get_grant db grant_id ≡ some g
      → is_live g now ≡ false
      → begin db ≡ ok (expired_or_revoked, db)
  unfolding begin_grant_use
  begin-dead db g e dead = rw (e, dead) refl

  pub begin-seen :
      (db : Db) (g : GrantRow) (r : GrantReadRow)
      → get_grant db grant_id ≡ some g
      → is_live g now ≡ true
      → prior_read db grant_id idem_key ≡ some r
      → begin db ≡ (
          if in_window r now replay_window_seconds
          then ok (
            replayed g r.secret_version_id r.passthrough,
            insert_audit (written g r.secret_version_id true) db,
          )
          else ok (exhausted, db))
  unfolding begin_grant_use
  begin-seen db g r e live seen = rw (e, live, seen) refl

  pub begin-fresh :
      (db : Db) (g : GrantRow)
      → get_grant db grant_id ≡ some g
      → is_live g now ≡ true
      → prior_read db grant_id idem_key ≡ none
      → begin db ≡ (
          if not (is_live g now && uses_left g)
          then ok (exhausted, db)
          else if g.use_count == max_int
          then err integer_out_of_range
          else ok (first_use (bump g), after_use g db))
  unfolding begin_grant_use account
  begin-fresh db g e live fresh = rw (e, fresh) (rw live refl)

  seen-Effect :
      (db db' : Db) (u : GrantUse) (g : GrantRow) (r : GrantReadRow)
      → get_grant db grant_id ≡ some g
      → is_live g now ≡ true
      → prior_read db grant_id idem_key ≡ some r
      → begin db ≡ ok (u, db')
      → Effect db u db'
  seen-Effect db db' u g r e live seen h =
      let k = sym (begin-seen db g r e live seen) ∙ h in
      elim (Bool-cases (in_window r now replay_window_seconds)) [
        | inl opened ↦
            let (q, d) = ok_pair_inj refl (rw opened at k) in
            replay_logged g r e live seen opened q d
        | inr past ↦ let (q, d) = ok_pair_inj refl (rw past at k) in nothing d (inr (inr q))
      ]

  fresh-Effect :
      (db db' : Db) (u : GrantUse) (g : GrantRow)
      → get_grant db grant_id ≡ some g
      → is_live g now ≡ true
      → prior_read db grant_id idem_key ≡ none
      → begin db ≡ ok (u, db')
      → Effect db u db'
  fresh-Effect db db' u g e live fresh h =
      let k = sym (begin-fresh db g e live fresh) ∙ h in
      elim (Bool-cases (uses_left g)) [
        | inr spent ↦
            let (q, d) = ok_pair_inj refl (rw (live, spent) at k) in nothing d (inr (inr q))
        | inl left ↦ elim (Bool-cases (g.use_count == max_int)) [
          | inl full ↦ let k' = rw (live, left, full) at k in absurd (cc)
          | inr room ↦
              let (q, d) = ok_pair_inj refl (rw (live, left, room) at k) in
              accounted g e live left fresh q d
        ]
      ]

  begin-missing : (db : Db) → get_grant db grant_id ≡ none → begin db ≡ ok (not_found, db)
  unfolding begin_grant_use
  begin-missing db e = rw e refl

  -- When `begin_grant_use` returns, then either it refused and left the database as it was; or it
  -- answered a replay of a live grant, within the window of a read under the same key, and only
  -- logged it; or the grant was live with uses left and a key not seen before, and its counter, the
  -- read and the log row were committed together.
  pub begin-Effect : (db db' : Db) (u : GrantUse) → begin db ≡ ok (u, db') → Effect db u db'
  begin-Effect db db' u h = elim (Option-cases (get_grant db grant_id)) [
    | inl e ↦ let (q, d) = ok_pair_inj refl (sym (begin-missing db e) ∙ h) in nothing d (inl q)
    | inr (g, e) ↦ elim (Bool-cases (is_live g now)) [
      | inr dead ↦
          let (q, d) = ok_pair_inj refl (sym (begin-dead db g e dead) ∙ h) in
          nothing d (inr (inl q))
      | inl live ↦ elim (Option-cases (prior_read db grant_id idem_key)) [
        | inl fresh ↦ fresh-Effect db db' u g e live fresh h
        | inr (r, seen) ↦ seen-Effect db db' u g r e live seen h
      ]
    ]
  ]
