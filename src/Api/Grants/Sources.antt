-- ===== src/Api/Grants/Sources.antt =====
-- Where `read` of server/src/api/grants.rs takes the payload of a first use from.
use keychute.Api.{ApiFailure, payload_lost}
use keychute.Api.Between.{api_raises, ◌>>=◌, give, read, go_on}
use keychute.Api.Grants.{Setting, Source, stored, current_version, source_of}
use keychute.Prelude.{
  ◌≡◌, ◌⊎◌, refl, sym, ap, inl, inr, true, Option, none, some, Result, ok, err, ◌||◌, is_some,
  if◌then◌else◌, Bool-cases, ok_or, ok_inj,
}
use keychute.Store.{Db, GrantRow, SecretVersionRow, SecretRow}
use keychute.Types.{Uuid}

module _ (w : Setting) where
  -- The database that the accounting of a use finds, as other requests leave it: the handler looks up
  -- the stored version before, unless the payload is the grant's own.
  abbrev pub accounted_on : GrantRow → Db → Db
  accounted_on grant db = w.others 5 (
      if is_some grant.passthrough_ciphertext || grant.passthrough_ephemeral
      then w.others 3 (w.others 2 (w.others 1 db))
      else w.others 4 (w.others 3 (w.others 2 (w.others 1 db))))

  looked_up :
      (r : Result ApiFailure SecretVersionRow) (db : Db)
      → (go_on {E = ApiFailure} {B = Source × Uuid}
          (r, db)
          (λ version. give (ok (stored version, version.id)))).1
        ≡ db
  unfolding give
  looked_up (ok v) db = refl
  looked_up (err e) db = refl

  from_version :
      (o : Option SecretVersionRow) (db : Db) (s : Source × Uuid)
      → (go_on {E = ApiFailure} {B = Source × Uuid}
          (ok_or o payload_lost, db)
          (λ version. give (ok (stored version, version.id)))).0
        ≡ ok s
      → (version : SecretVersionRow) × (o ≡ some version) × (s.1 ≡ version.id)
  unfolding give
  from_version none db s h = absurd (cc)
  from_version (some v) db s h = (v, refl, ap (λ x. x.1) (sym (ok_inj _ s _ refl h)))

  pub source_of-db :
      (grant : GrantRow) (secret : Option SecretRow) (db : Db)
      → (source_of w grant secret db).1 ≡ (
          if is_some grant.passthrough_ciphertext || grant.passthrough_ephemeral
          then db
          else w.others 4 db)
  unfolding give read ◌>>=◌
  source_of-db grant secret db = elim (Bool-cases (is_some grant.passthrough_ciphertext)) [
    | inl e ↦ rw e refl
    | inr e ↦ elim (Bool-cases grant.passthrough_ephemeral) [
      | inl e' ↦ rw (e, e') refl
      | inr e' ↦
          rw (e, e')
            (looked_up (ok_or (current_version w secret (w.others 4 db)) _) (w.others 4 db))
    ]
  ]

  -- The id of the payload that a first use releases: the grant's own, or the secret's current version.
  abbrev pub IsSource : GrantRow → Option SecretRow → Db → Uuid → Type 0
  IsSource grant secret db id =
      ((is_some grant.passthrough_ciphertext || grant.passthrough_ephemeral) ≡ true
        × (id ≡ grant.id))
      ⊎ ((version : SecretVersionRow) × (current_version w secret
              (w.others 4 (w.others 3 (w.others 2 (w.others 1 db))))
            ≡ some version)
          × (id ≡ version.id))

  pub source_of-IsSource :
      (grant : GrantRow) (secret : Option SecretRow) (db : Db) (s : Source × Uuid)
      → (source_of w grant secret (w.others 3 (w.others 2 (w.others 1 db)))).0 ≡ ok s
      → IsSource grant secret db s.1
  unfolding give read ◌>>=◌
  source_of-IsSource grant secret db s h =
      elim (Bool-cases (is_some grant.passthrough_ciphertext)) [
        | inl e ↦ inl (rw e refl, ap (λ x. x.1) (sym (ok_inj _ s _ refl (rw e at h))))
        | inr e ↦ elim (Bool-cases grant.passthrough_ephemeral) [
          | inl e' ↦
              inl (rw (e, e') refl, ap (λ x. x.1) (sym (ok_inj _ s _ refl (rw (e, e') at h))))
          | inr e' ↦ inr (from_version _ _ s (rw (e, e') at h))
        ]
      ]
