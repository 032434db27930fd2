-- ===== src/Store/Secrets/Created.antt =====
-- A client's deposit in server/src/db/ui_ext.rs that was made.
use keychute.Prelude.{
  ◌≡◌, refl, sym, ap, ◌∙◌, false, Option, none, some, ◌∷◌, Text, ok, ok_or, ok_inj, ok_pair_inj,
  >>=-eq-ok, ok_or-eq-ok, ensure, some_inj, leb, any, text_eq, count_where, Bool-cases, inl, inr,
  ◌==◌,
}
use keychute.Store.{
  Db, SecretRow, SecretVersionRow, insert_audit, sealing_failed, constraint_violated,
}
use keychute.Store.Requests.{Sealed}
use keychute.Store.Secrets.{
  StoreSecretParams, created, DepositRate, new_secret, new_version, is_storable_kind, insert_secret,
  insert_version, with_first_version, is_recent_deposit, deposit_event, deposited,
  create_secret_from_client, version_conflicts,
}
use keychute.Types.{Uuid, DateTime}

-- A deposit that the transaction made.
pub record Created (now : DateTime) (version_id : Uuid) (s : StoreSecretParams) (client : Text)
    (rate : DepositRate) (db db' : Db) : Type 0 where
  pub under_cap :
      leb rate.max_per_window
        (count_where (is_recent_deposit now client rate.window_hours) db.audit_log)
      ≡ false
  pub new_name : any (λ t. text_eq t.name s.name) db.secrets ≡ false
  pub secrets : db'.secrets ≡ new_secret now false s ∷ db.secrets
  pub sealed : Sealed
  pub is_sealed : s.seal ≡ some sealed
  pub versions :
      db'.secret_versions
      ≡ new_version now version_id s.secret_id 1 sealed none ∷ db.secret_versions

insert_secret-new :
    (s : SecretRow) (db db' : Db)
    → insert_secret s db ≡ ok (some db')
    → (any (λ t. text_eq t.name s.name) db.secrets ≡ false)
      × (db' ≡ record db { secrets = s ∷ db.secrets })
unfolding insert_secret
insert_secret-new s db db' h0 =
    let (u, kind, h) =
      >>=-eq-ok (ensure (is_storable_kind s.injection_kind) constraint_violated) _ h0 in
    elim (Bool-cases (any (λ t. text_eq t.name s.name) db.secrets)) [
      | inl e ↦ let k = rw e at h in absurd (cc)
      | inr e ↦
          let k = rw e at h in
          elim (Bool-cases (any (λ t. t.id == s.id) db.secrets)) [
            | inl f ↦ let j = rw f at k in absurd (cc)
            | inr f ↦ let j = rw f at k in (e, sym (some_inj _ db' (ok_inj _ _ _ refl j)))
          ]
    ]

insert_version-new :
    (v : SecretVersionRow) (db db' : Db)
    → insert_version v db ≡ ok db'
    → db' ≡ record db { secret_versions = v ∷ db.secret_versions }
unfolding insert_version
insert_version-new v db db' h = elim (Bool-cases (version_conflicts v db)) [
  | inl e ↦ let k = rw e at h in absurd (cc)
  | inr e ↦ sym (ok_inj _ db' _ refl (rw e at h))
]

pub create-Created :
    (now : DateTime) (vid : Uuid) (s : StoreSecretParams) (client : Text) (rate : DepositRate)
    (db db' : Db) (id : Uuid)
    → create_secret_from_client now vid s client rate db ≡ ok (created id, db')
    → (id ≡ s.secret_id) × Created now vid s client rate db db'
unfolding create_secret_from_client
create-Created now vid s client rate db db' id h =
    elim (Bool-cases (
      leb rate.max_per_window
        (count_where (is_recent_deposit now client rate.window_hours) db.audit_log))) [
          | inl e ↦ let k = (ok_pair_inj {b = db} refl (rw e at h)).0 in absurd (cc)
          | inr e ↦
              let (r, q, h1) =
                >>=-eq-ok (insert_secret (new_secret now false s) db) _ (rw e at h) in
              deposit e r q h1
        ]
  where
    deposit :
        leb rate.max_per_window
            (count_where (is_recent_deposit now client rate.window_hours) db.audit_log)
          ≡ false
        → (r : Option Db) → insert_secret (new_secret now false s) db ≡ ok r
        → deposited now vid s client db r ≡ ok (created id, db')
        → (id ≡ s.secret_id) × Created now vid s client rate db db'
    deposit e none q k = let j = (ok_pair_inj refl k).0 in absurd (cc)
    deposit e (some db1) q k =
        let audit = deposit_event now client s in
        let (db2, w, k1) = >>=-eq-ok (with_first_version now vid s none audit db1) _ k in
        let (outcome, last) = ok_pair_inj {b = db2} refl k1 in
        let (fresh, d1) = insert_secret-new (new_secret now false s) db db1 q in
        let (sealed, given, w1) = >>=-eq-ok (ok_or s.seal sealing_failed) _ w in
        let row = new_version now vid s.secret_id 1 sealed none in
        let (db3, v, w2) = >>=-eq-ok (insert_version row db1) _ w1 in
        let d3 = insert_version-new row db1 db3 v in
        let d2 = ok_inj (insert_audit audit db3) db2 _ refl w2 in
        (
          cc,
          record {
            under_cap = e;
            new_name = fresh;
            secrets =
                ap (λ d. d.secrets) last
                ∙ (sym (ap (λ d. d.secrets) d2)
                    ∙ (ap (λ d. d.secrets) d3 ∙ ap (λ d. d.secrets) d1));
            sealed = sealed;
            is_sealed = ok_or-eq-ok _ _ given;
            versions =
                ap (λ d. d.secret_versions) last
                ∙ (sym (ap (λ d. d.secret_versions) d2)
                    ∙ (ap (λ d. d.secret_versions) d3 ∙ ap (λ d. row ∷ d.secret_versions) d1));
          },
        )
