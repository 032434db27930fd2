-- ===== src/Store/Steps/OfSecrets.antt =====
-- The transactions on secrets, as changes: only a deletion touches a grant.
use keychute.Store.Secrets
use mathlib.Core.Path.{subst}
use keychute.Prelude.{
  is_empty, ◌||◌, keep, find, count_where, is_some, ok_pair_inj, text_eq, >>=-eq-ok, ok_inj, ℕ, ◌+◌,
  ◌≡◌, refl, ◌∙◌, inl, inr, Bool, true, false, not, ◌&&◌, Option, none, some, List, [], ◌∷◌, ◌++◌,
  map, arith, Text, ok, ensure, ok_or, leb, ◌==◌, Bool-cases, Option-cases, any,
}
use keychute.Store.{
  constraint_violated, integer_out_of_range, secret_not_found, max_int, insert_audit,
  sealing_failed, Db, GrantRow, AuditEvent, SecretRow, SecretVersionRow,
}
use keychute.Store.Grants.{revoke_one}
use keychute.Store.Grants.Effect.{uses_logged, is_use_of}
use keychute.Store.Requests.{Sealed}
use keychute.Store.Secrets.{
  rotation_event, is_recent_deposit, deposit_event, operator_event, deposited, stored_by_operator,
  find_secret, new_secret, append_version, create_secret_from_client, create_secret_with_version,
  insert_secret_version, new_version, version_conflicts, with_first_version, is_storable_kind,
  insert_secret, insert_version, StoreSecretParams, DepositRate, DepositOutcome,
}
use keychute.Store.Secrets.Edits.{
  is_stored_backed, without_secret, awaits_review, edit_found, revocation_event, delete_found,
  mark_secret_vetted, set_secret_tags, SecretSettings,
}
use keychute.Store.Steps.Change.{kept_grants, untouched, SameUses, Change}
use keychute.Store.Steps.OfGrants.{revoke_one-kept}
use keychute.Types.{Uuid, DateTime}

-- Both tables as they were, and no use logged.
abbrev pub Untouched : Db → Db → Type 0
Untouched db db' =
    (db'.access_requests ≡ db.access_requests) × (db'.grants ≡ db.grants) × SameUses db db'

pub Untouched-trans : (a b c : Db) → Untouched a b → Untouched b c → Untouched a c
Untouched-trans a b c (r, g, u) (r', g', u') = (r' ∙ r, g' ∙ g, λ i. u' i ∙ u i)

-- One row more in the log, which is no use.
pub logged-Untouched :
    (db db1 : Db) (e : AuditEvent)
    → ((i : Uuid) → is_use_of i e ≡ false)
    → Untouched db db1
    → Untouched db (insert_audit e db1)
logged-Untouched db db1 e quiet (r, g, u) = (r, g, λ i. rw (quiet i) (let z = u i in omega arith))

pub insert_secret-Untouched :
    (s : SecretRow) (db db' : Db) → insert_secret s db ≡ ok (some db') → Untouched db db'
unfolding insert_secret
insert_secret-Untouched s db db' h0 =
    let (u, kind, h) =
      >>=-eq-ok (ensure (is_storable_kind s.injection_kind) constraint_violated) _ h0 in
    elim (Bool-cases (any (λ (t : SecretRow). text_eq t.name s.name) db.secrets)) [
      | inl e ↦ let k = ok_inj none (some db') _ refl (rw e at h) in absurd (cc)
      | inr e ↦ elim (Bool-cases (any (λ (t : SecretRow). t.id == s.id) db.secrets)) [
        | inl d ↦ let k = rw (e, d) at h in absurd (cc)
        | inr d ↦
            let k = ok_inj _ (some db') _ refl (rw (e, d) at h) in
            let q : record db { secrets = s ∷ db.secrets } ≡ db' = ground arith in
            rw (← q) (refl, refl, λ i. refl)
      ]
    ]

insert_version-Untouched :
    (v : SecretVersionRow) (db db' : Db) → insert_version v db ≡ ok db' → Untouched db db'
unfolding insert_version
insert_version-Untouched v db db' h = elim (Bool-cases (version_conflicts v db)) [
  | inl e ↦ let k = rw e at h in absurd (cc)
  | inr e ↦ let q = ok_inj _ db' _ refl (rw e at h) in rw (← q) (refl, refl, λ i. refl)
]

pub with_first_version-Untouched :
    (now : DateTime) (vid : Uuid) (s : StoreSecretParams) (by : Option Uuid) (audit : AuditEvent)
    (db db' : Db)
    → ((i : Uuid) → is_use_of i audit ≡ false)
    → with_first_version now vid s by audit db ≡ ok db'
    → Untouched db db'
with_first_version-Untouched now vid s by audit db db' quiet h =
    let (sealed, _, h1) = >>=-eq-ok (ok_or s.seal sealing_failed) _ h in
    let row = new_version now vid s.secret_id 1 sealed by in
    let (db1, q, h2) = >>=-eq-ok (insert_version row db) _ h1 in
    let q' = ok_inj (insert_audit audit db1) db' _ refl h2 in
    subst (Untouched db) q'
      (logged-Untouched db db1 audit quiet (insert_version-Untouched row db db1 q))

pub Untouched-Change : (db db' : Db) → Untouched db db' → Change db db'
Untouched-Change db db' (r, g, u) = untouched db db' r g u

Untouched-refl : (db : Db) → Untouched db db
Untouched-refl db = (refl, refl, λ i. refl)

pub create_secret_from_client-Untouched :
    (now : DateTime) (vid : Uuid) (s : StoreSecretParams) (client : Text) (rate : DepositRate)
    (o : DepositOutcome) (db db' : Db)
    → create_secret_from_client now vid s client rate db ≡ ok (o, db')
    → Untouched db db'
unfolding create_secret_from_client
create_secret_from_client-Untouched now vid s client rate o db db' h =
    elim (Bool-cases (
      leb rate.max_per_window
        (count_where (is_recent_deposit now client rate.window_hours) db.audit_log))) [
          | inl e ↦ let (_, d) = ok_pair_inj refl (rw e at h) in rw d (Untouched-refl db)
          | inr e ↦
              let (r, q, h1) =
                >>=-eq-ok (insert_secret (new_secret now false s) db) _ (rw e at h) in
              deposit r q h1
        ]
  where
    deposit :
        (r : Option Db)
        → insert_secret (new_secret now false s) db ≡ ok r
        → deposited now vid s client db r ≡ ok (o, db')
        → Untouched db db'
    deposit none q k = let (_, d) = ok_pair_inj refl k in rw d (Untouched-refl db)
    deposit (some db1) q k =
        let (db2, w, k1) =
          >>=-eq-ok (with_first_version now vid s none (deposit_event now client s) db1) _ k in
        let (_, d) = ok_pair_inj refl k1 in
        rw d (
          Untouched-trans db db1 db2 (insert_secret-Untouched (new_secret now false s) db db1 q) (
            with_first_version-Untouched now vid s none (deposit_event now client s) db1 db2
              (λ i. refl) w))

pub create_secret_with_version-Untouched :
    (now : DateTime) (vid : Uuid) (s : StoreSecretParams) (actor : Text) (o : Bool) (db db' : Db)
    → create_secret_with_version now vid s actor db ≡ ok (o, db')
    → Untouched db db'
unfolding create_secret_with_version
create_secret_with_version-Untouched now vid s actor o db db' h =
    let (_, _, h1) = >>=-eq-ok (ensure (is_some s.seal) sealing_failed) _ h in
    let (r, q, h2) = >>=-eq-ok (insert_secret (new_secret now true s) db) _ h1 in stores r q h2
  where
    stores :
        (r : Option Db)
        → insert_secret (new_secret now true s) db ≡ ok r
        → stored_by_operator now vid s actor db r ≡ ok (o, db')
        → Untouched db db'
    stores none q k = let (_, d) = ok_pair_inj refl k in rw d (Untouched-refl db)
    stores (some db1) q k =
        let (db2, w, k1) =
          >>=-eq-ok (with_first_version now vid s none (operator_event now actor s.name) db1) _ k in
        let (_, d) = ok_pair_inj refl k1 in
        rw d (
          Untouched-trans db db1 db2 (insert_secret-Untouched (new_secret now true s) db db1 q) (
            with_first_version-Untouched now vid s none (operator_event now actor s.name) db1 db2
              (λ i. refl) w))

append_version-Untouched :
    (vets : Bool) (now : DateTime) (vid : Uuid) (s : SecretRow) (seal : ℕ → Option Sealed)
    (by : Option Uuid) (v : SecretVersionRow) (db db' : Db)
    → append_version vets now vid s seal by db ≡ ok (v, db')
    → Untouched db db'
append_version-Untouched vets now vid s seal by v db db' h =
    let (_, _, h1) =
      >>=-eq-ok (ensure (not (s.current_version == max_int)) integer_out_of_range) _ h in
    let (sealed, _, h2) = >>=-eq-ok (ok_or (seal (s.current_version + 1)) sealing_failed) _ h1 in
    let (db1, q, h3) = >>=-eq-ok (insert_version _ _) _ h2 in
    let (_, d) = ok_pair_inj refl h3 in rw d (insert_version-Untouched _ _ db1 q)

pub insert_secret_version-Untouched :
    (now : DateTime) (vid id : Uuid) (seal : ℕ → Option Sealed) (by : Option Uuid)
    (v : SecretVersionRow) (db db' : Db)
    → insert_secret_version now vid id seal by db ≡ ok (v, db')
    → Untouched db db'
unfolding insert_secret_version
insert_secret_version-Untouched now vid id seal by v db db' h =
    let (s, _, k) = >>=-eq-ok (ok_or (find_secret db id) secret_not_found) _ h in
    append_version-Untouched false now vid s seal by v db db' k

pub rotated-Untouched :
    (now : DateTime) (vid : Uuid) (name actor : Text) (seal : ℕ → Option Sealed)
    (s : Option SecretRow) (v : Option SecretVersionRow) (db db' : Db)
    → Secrets.rotated now vid name actor seal db s ≡ ok (v, db')
    → Untouched db db'
rotated-Untouched now vid name actor seal none v db db' h =
    let (_, d) = ok_pair_inj refl h in rw d (Untouched-refl db)
rotated-Untouched now vid name actor seal (some s) v db db' h =
    let ((w, db1), q, k) = >>=-eq-ok (append_version true now vid s seal none db) _ h in
    let (_, d) = ok_pair_inj refl k in
    rw d (
      logged-Untouched db db1 (rotation_event now actor name w.id) (λ i. refl)
        (append_version-Untouched true now vid s seal none w db db1 q))

pub mark_secret_vetted-Untouched :
    (now : DateTime) (id : Uuid) (version : ℕ) (actor : Text) (db : Db)
    → Untouched db (mark_secret_vetted now id version actor db).1
unfolding mark_secret_vetted
mark_secret_vetted-Untouched now id version actor db =
    elim (Option-cases (find (awaits_review id version) db.secrets)) [
      | inl e ↦ rw (e, mark_secret_vetted) (Untouched-refl db)
      | inr (s, e) ↦ rw (e, mark_secret_vetted) (refl, refl, λ i. omega arith)
    ]

pub set_secret_tags-Untouched :
    (id : Uuid) (tags : List Text) (db : Db) → Untouched db (set_secret_tags id tags db)
unfolding set_secret_tags
set_secret_tags-Untouched id tags db =
    elim (Bool-cases (is_empty tags || any (λ s. s.id == id) db.secrets)) [
      | inl e ↦ rw (set_secret_tags, e) (Untouched-refl db)
      | inr e ↦ rw (set_secret_tags, e) (Untouched-refl db)
    ]

pub edit_found-Untouched :
    (now : DateTime) (s : SecretSettings) (actor : Text) (db : Db) (o : Option SecretRow)
    → Untouched db (edit_found now s actor db o).1
unfolding set_secret_tags
edit_found-Untouched now s actor db none = Untouched-refl db
edit_found-Untouched now s actor db (some prev) = elim (Bool-cases prev.managed_by_config) [
  | inl e ↦ rw e (Untouched-refl db)
  | inr e ↦ rw e (refl, refl, λ i. omega arith)
]

revocations-unused :
    (now : DateTime) (actor name : Text) (gs : List GrantRow) (log : List AuditEvent) (i : Uuid)
    → uses_logged i (map (revocation_event now actor name) gs ++ log) ≡ uses_logged i log
revocations-unused now actor name [] log i = refl
revocations-unused now actor name (g ∷ gs) log i =
    let h = revocations-unused now actor name gs log i in ground arith

-- A deletion revokes grants and keeps their counts.
pub delete_found-Change :
    (now : DateTime) (id : Uuid) (version : ℕ) (actor : Text) (db : Db) (o : Option SecretRow)
    → Change db (delete_found now id version actor db o).1
delete_found-Change now id version actor db none = untouched db db refl refl (λ i. refl)
delete_found-Change now id version actor db (some s) =
    elim (Bool-cases
      (any (λ (t : SecretRow). t.id == id && t.current_version == version) db.secrets)) [
        | inr e ↦ rw e (untouched db db refl refl (λ i. refl))
        | inl e ↦ rw e (
            kept_grants db (without_secret now actor s version db) (is_stored_backed now s.name)
              revoke_one (λ g _. revoke_one-kept g) refl refl
              (λ i.
                let h =
                  revocations-unused now actor s.name (keep (is_stored_backed now s.name) db.grants)
                    db.audit_log i in
                omega arith))
      ]
