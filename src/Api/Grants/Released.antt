-- ===== src/Api/Grants/Released.antt =====
-- What a release by `read` of server/src/api/grants.rs rests on.
use keychute.Api.{ApiFailure, owned_grant, not_found}
use keychute.Api.Between.{api_raises}
use keychute.Api.Grants.{Setting, ReadGrantResponse}
use keychute.Api.Grants.Sources.{accounted_on, IsSource}
use keychute.Api.Grants.Used.{Chosen}
use keychute.Api.Revalidated.{Revalidated, some_of, true_of}
use keychute.Prelude.{
  ◌≡◌, refl, sym, ap, ◌∙◌, true, Option, some, Text, Result, ok, ensure, ok_or, text_eq,
  text_eq_iff, ok_inj, >>=-eq-ok,
}
use keychute.Store.{Db, GrantRow, SecretRow, get_grant}
use keychute.Types.{Uuid, Mechanism, mechanism_from_str, is_releasing}

pub pair_of : {A : Type 0} {o : Result ApiFailure A × Db} {a : A} → o.0 ≡ ok a → o ≡ (ok a, o.1)
pair_of {o = o} h = ap (λ x. (x, o.1)) h

pub owned_grant-ok :
    (client : Text) (id : Uuid) (g : GrantRow) (db : Db)
    → owned_grant client id db ≡ ok g
    → (get_grant db id ≡ some g) × (g.client_name ≡ client)
unfolding owned_grant
owned_grant-ok client id g db h =
    let (g', q, k) = >>=-eq-ok (ok_or (get_grant db id) not_found) _ h in
    let (u, t, k') = >>=-eq-ok (ensure (text_eq g'.client_name client) not_found) _ k in
    let same = ok_inj g' g (ok g') refl k' in
    (
      some_of _ q ∙ ap some same,
      ap (λ (x : GrantRow). x.client_name) (sym same)
          ∙ (text_eq_iff g'.client_name client).0 (true_of _ t),
    )

module _ (w : Setting) where
  pub record ReadReleased (id : Uuid) (key : Text) (db : Db) (resp : ReadGrantResponse)
      : Type 0 where
    pub grant : GrantRow
    pub mechanism : Mechanism
    pub secret : Option SecretRow
    pub found : get_grant (w.others 0 db) id ≡ some grant
    pub owned : grant.client_name ≡ w.client_name
    pub same_mechanism : mechanism_from_str grant.mechanism ≡ some mechanism
    pub releasing : is_releasing mechanism ≡ true
    pub revalidated :
        Revalidated grant
          (w.others 1 (w.others 0 db))
          (w.others 2 (w.others 1 (w.others 0 db)))
          secret
    pub source : Uuid
    pub current : IsSource w grant secret (w.others 0 db) source
    pub chosen :
        Chosen w key grant source (accounted_on w grant (w.others 0 db)) resp.secret_version_id
