-- ===== src/Proxy/Handle/Resolved.antt =====
-- What is known in server/src/proxy.rs before a use is accounted.
use mathlib.Core.Path.{subst}
use keychute.Api.{owned_grant, revalidate_grant, wrong_mechanism, payload_lost, too_many_streams}
use keychute.Api.Between.{◌>>=◌, give, read, go_on-ok, answer_inj}
use keychute.Api.Grants.Released.{owned_grant-ok, pair_of}
use keychute.Api.Revalidated.{Revalidated, revalidate_grant-Revalidated}
use keychute.Policy.Scope.{Call}
use keychute.Prelude.{
  ◌≡◌, ◌≤◌, refl, sym, ap, ◌∙◌, Bool, true, false, not, ◌&&◌, Option, none, some, List, [], map,
  Text, ok, ensure, ok_or, >>=-eq-ok, ensure-eq-ok, ok_or-eq-ok, ok_inj, arith, length, is_some,
}
use keychute.Proxy.Handle.{resolve, identify, aim, is_brokered}
use keychute.Proxy.Injection.{InjectionSpec, spec_of, validate, is_sigv4}
use keychute.Proxy.Placed.{outbound_url, placed_at}
use keychute.Proxy.Setting.{Setting, Ready, Url}
use keychute.Proxy.Target.{Request, permitted, buffered}
use keychute.Proxy.Target.Checked.{
  Permitted, permitted-Permitted, joined, buffered-length, buffered-joined,
}
use keychute.Store.{Db, GrantRow, SecretRow, get_grant, get_secret_version}
use keychute.Types.{Uuid, mechanism_from_str}

no_query-sigv4 : (b : Bool) (q : Option Text) → not (b && is_some q) ≡ true → b ≡ true → q ≡ none
no_query-sigv4 b none h e = refl
no_query-sigv4 true (some t) h e = absurd (cc)
no_query-sigv4 false (some t) h e = absurd (cc)

module _ (w : Setting) where
  -- The database that the stored version is looked up in, as other requests leave it.
  abbrev pub found_version_on : Db → Db
  found_version_on db = w.others 3 (w.others 2 (w.others 1 (w.others 0 db)))

  -- Before the accounting: the grant and its revalidation, the call, the body and the template.
  pub record Resolved (id : Uuid) (req : Request) (db : Db) (r : Ready) : Type 0 where
    pub found : get_grant (w.others 0 db) id ≡ some r.grant
    pub owned : r.grant.client_name ≡ w.client_name
    pub brokered : is_brokered (mechanism_from_str r.grant.mechanism) ≡ true
    pub revalidated :
        Revalidated r.grant
          (w.others 1 (w.others 0 db))
          (w.others 2 (w.others 1 (w.others 0 db)))
          (some r.secret)
    pub slot : w.slot_free ≡ true
    pub permitted_by : Permitted r.grant.constraints req r.call
    pub current :
        get_secret_version (found_version_on db) r.secret.id r.secret.current_version
        ≡ some r.version
    pub pieces : List Text
    pub arrived : req.body ≡ map some pieces
    pub whole : r.body ≡ joined pieces
    pub small : length r.body ≤ w.proxy_max_body_bytes
    pub placed : spec_of r.secret ≡ ok r.spec
    pub checked : (name : Text) × (validate w.header_name r.spec ≡ ok name)
    pub aimed : outbound_url w r.call.origin r.call.path req.query (is_sigv4 r.spec) ≡ some r.url
    pub no_query : is_sigv4 r.spec ≡ true → req.query ≡ none

  identify-ok :
      (id : Uuid) (db db' : Db) (g : GrantRow) (secret : SecretRow)
      → identify w id db ≡ (ok (g, secret), db')
      → (get_grant (w.others 0 db) id ≡ some g)
        × (g.client_name ≡ w.client_name)
        × (is_brokered (mechanism_from_str g.mechanism) ≡ true)
        × Revalidated g
            (w.others 1 (w.others 0 db))
            (w.others 2 (w.others 1 (w.others 0 db)))
            (some secret)
        × (db' ≡ w.others 2 (w.others 1 (w.others 0 db)))
        × (w.slot_free ≡ true)
  unfolding identify ◌>>=◌ give read
  identify-ok id db db' g secret h =
      let d0 = w.others 0 db in
      let (g', q0, h0) = go_on-ok (owned_grant w.client_name id d0, d0) _ (g, secret) db' h in
      let (_, q1, h1) =
        go_on-ok (ensure (is_brokered (mechanism_from_str g'.mechanism)) wrong_mechanism, d0) _
          (g, secret) db' h0 in
      let d1 = w.others 1 d0 in
      let d2 = w.others 2 d1 in
      let (stored, q2, h2) = go_on-ok (revalidate_grant g' d1 d2, d2) _ (g, secret) db' h1 in
      let (secret', q3, h3) = go_on-ok (ok_or stored payload_lost, d2) _ (g, secret) db' h2 in
      let (_, q4, h4) = go_on-ok (ensure w.slot_free too_many_streams, d2) _ (g, secret) db' h3 in
      let same = answer_inj (g', secret') (g, secret) d2 db' h4 in
      let (found, owned) = owned_grant-ok w.client_name id g' d0 q0 in
      let kept =
        subst (Revalidated g' d1 d2) (ok_or-eq-ok stored payload_lost q3)
          (revalidate_grant-Revalidated g' d1 d2 stored q2) in
      subst
        (λ p.
          (get_grant d0 id ≡ some p.0)
          × (p.0.client_name ≡ w.client_name)
          × (is_brokered (mechanism_from_str p.0.mechanism) ≡ true)
          × Revalidated p.0 d1 d2 (some p.1)
          × (db' ≡ d2)
          × (w.slot_free ≡ true))
        same (found, owned, ensure-eq-ok _ _ q1, kept, sym (ap (λ o. o.1) h4), ensure-eq-ok _ _ q4)

  placed_at-ok :
      (req : Request) (call : Call) (secret : SecretRow) (spec : InjectionSpec) (url : Url)
      → placed_at w req call secret ≡ ok (spec, url)
      → (spec_of secret ≡ ok spec)
        × (outbound_url w call.origin call.path req.query (is_sigv4 spec) ≡ some url)
        × (is_sigv4 spec ≡ true → req.query ≡ none)
        × ((name : Text) × (validate w.header_name spec ≡ ok name))
  unfolding placed_at
  placed_at-ok req call secret spec url h =
      let (spec', q0, h0) = >>=-eq-ok (spec_of secret) _ h in
      let (name, q1, h1) = >>=-eq-ok (validate w.header_name spec') _ h0 in
      let (_, q2, h2) = >>=-eq-ok (ensure (not (is_sigv4 spec' && is_some req.query)) _) _ h1 in
      let (url', q3, h3) =
        >>=-eq-ok (ok_or (outbound_url w call.origin call.path req.query (is_sigv4 spec')) _) _
          h2 in
      let same = ok_inj (spec', url') (spec, url) (ok (spec', url')) refl h3 in
      subst
        (λ p.
          (spec_of secret ≡ ok p.0)
          × (outbound_url w call.origin call.path req.query (is_sigv4 p.0) ≡ some p.1)
          × (is_sigv4 p.0 ≡ true → req.query ≡ none)
          × ((n : Text) × (validate w.header_name p.0 ≡ ok n)))
        same
        (
          q0,
          ok_or-eq-ok _ _ q3,
          no_query-sigv4 (is_sigv4 spec') req.query (ensure-eq-ok _ _ q2),
          (name, q1),
        )

  aim-ok :
      (req : Request) (g : GrantRow) (secret : SecretRow) (db db' : Db) (r : Ready)
      → aim w req (g, secret) db ≡ (ok r, db')
      → (r.grant ≡ g)
        × (r.secret ≡ secret)
        × Permitted g.constraints req r.call
        × (length r.body ≤ w.proxy_max_body_bytes)
        × (placed_at w req r.call secret ≡ ok (r.spec, r.url))
        × (get_secret_version (w.others 3 db) secret.id secret.current_version ≡ some r.version)
        × (db' ≡ w.others 3 db)
        × ((pieces : List Text) × (req.body ≡ map some pieces) × (r.body ≡ joined pieces))
  unfolding aim ◌>>=◌ give read
  aim-ok req g secret db db' r h =
      let (call, q5, h5) = go_on-ok (permitted g.constraints req, db) _ r db' h in
      let (body, q6, h6) = go_on-ok (buffered w.proxy_max_body_bytes [] req.body, db) _ r db' h5 in
      let d3 = w.others 3 db in
      let (version, q7, h7) =
        go_on-ok (ok_or (get_secret_version d3 secret.id secret.current_version) payload_lost, d3) _
          r db' h6 in
      let (placed, q8, h8) = go_on-ok (placed_at w req call secret, d3) _ r db' h7 in
      subst
        (λ x.
          (x.grant ≡ g)
          × (x.secret ≡ secret)
          × Permitted g.constraints req x.call
          × (length x.body ≤ w.proxy_max_body_bytes)
          × (placed_at w req x.call secret ≡ ok (x.spec, x.url))
          × (get_secret_version d3 secret.id secret.current_version ≡ some x.version)
          × (db' ≡ d3)
          × ((pieces : List Text) × (req.body ≡ map some pieces) × (x.body ≡ joined pieces)))
        (answer_inj _ r _ db' h8)
        (
          refl,
          refl,
          permitted-Permitted g.constraints req call q5,
          buffered-length w.proxy_max_body_bytes [] req.body body (omega arith) q6,
          q8,
          ok_or-eq-ok _ _ q7,
          sym (ap (λ o. o.1) h8),
          buffered-joined w.proxy_max_body_bytes [] req.body body q6,
        )

  pub resolve-Resolved :
      (id : Uuid) (req : Request) (db db' : Db) (r : Ready)
      → resolve w id req db ≡ (ok r, db')
      → Resolved id req db r × (db' ≡ found_version_on db)
  unfolding resolve ◌>>=◌
  resolve-Resolved id req db db' r h =
      let (owned, q, k) = go_on-ok (identify w id db) _ r db' h in
      let (found, mine, brokered, revalidated, seen, slot) =
        identify-ok id db _ owned.0 owned.1 (pair_of q) in
      let (same, stored, by, small, placed, current, last, (pieces, arrived, whole)) =
        aim-ok req owned.0 owned.1 _ db' r k in
      let (spec, aimed, no_query, checked) = placed_at-ok req r.call owned.1 r.spec r.url placed in
      (
        record {
          found = rw same found;
          owned = rw same mine;
          brokered = rw same brokered;
          revalidated =
              subst
                (λ g.
                  Revalidated g (w.others 1 (w.others 0 db))
                    (w.others 2 (w.others 1 (w.others 0 db))) (some r.secret))
                (sym same)
                (subst
                  (λ x.
                    Revalidated owned.0 (w.others 1 (w.others 0 db))
                      (w.others 2 (w.others 1 (w.others 0 db))) (some x))
                  (sym stored) revalidated);
          permitted_by = subst (λ g. Permitted g.constraints req r.call) (sym same) by;
          small = small;
          placed = rw stored spec;
          aimed = aimed;
          no_query = no_query;
          slot = slot;
          pieces = pieces;
          arrived = arrived;
          whole = whole;
          checked = checked;
          current = rw stored (
              subst
                (λ d.
                  get_secret_version (w.others 3 d) owned.1.id owned.1.current_version
                  ≡ some r.version)
                seen current);
        },
        last ∙ ap (w.others 3) seen,
      )
