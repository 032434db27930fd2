-- ===== src/Api/Revalidated.antt =====
-- What the access-time checks of server/src/api/mod.rs establish.
use keychute.Api.{ApiFailure, revalidate_grant, revalidate_secret}
use keychute.Prelude.{
  ◌≡◌, refl, sym, ap, Bool, true, false, not, Option, none, some, ok, any, text_eq, >>=-eq-ok,
  ensure, ensure-eq-ok, ok_or, ok_inj, ◌⊎◌, inl, inr,
}
use keychute.Store.{Db, GrantRow, ClientRow, SecretRow, get_client_by_name, get_secret_by_name}
use keychute.Types.{Mechanism, mechanism_from_str, Tier, tier, tier_from_int, exceeds}

pub record Revalidated (grant : GrantRow) (db db' : Db) (secret : Option SecretRow) : Type 0 where
  pub client : ClientRow
  pub mechanism : Mechanism
  pub client_max : Tier
  pub client_found : get_client_by_name db grant.client_name ≡ some client
  pub client_enabled : client.enabled ≡ true
  pub known : mechanism_from_str grant.mechanism ≡ some mechanism
  pub still_allowed : any (λ m. text_eq m grant.mechanism) client.mechanisms ≡ true
  pub client_cap : tier_from_int client.max_tier ≡ some client_max
  pub within_client : exceeds (tier mechanism) client_max ≡ false
  pub secret_found : secret ≡ get_secret_by_name db' grant.secret_name
  pub within_secret :
      (secret ≡ none)
      ⊎ ((s : SecretRow) × (cap : Tier) × (secret ≡ some s)
          × (s.enabled ≡ true)
          × (tier_from_int s.max_tier ≡ some cap)
          × (exceeds (tier mechanism) cap ≡ false))

pub some_of : {A : Type 0} (e : ApiFailure) {o : Option A} {a : A} → ok_or o e ≡ ok a → o ≡ some a
some_of e {o = none} h = absurd (cc)
some_of e {o = some b} {a = a} h = ap some (ok_inj b a (ok b) refl h)

pub true_of : (e : ApiFailure) {b : Bool} {u : Unit {0}} → ensure b e ≡ ok u → b ≡ true
true_of e {b = b} h = ensure-eq-ok b e h

not-true : (b : Bool) → not b ≡ true → b ≡ false
not-true true h = absurd (cc)
not-true false h = refl

revalidate_secret-ok :
    (t : Tier) (o o' : Option SecretRow)
    → revalidate_secret t o ≡ ok o'
    → (o' ≡ o)
      × ((o' ≡ none)
          ⊎ ((s : SecretRow) × (cap : Tier) × (o' ≡ some s)
              × (s.enabled ≡ true)
              × (tier_from_int s.max_tier ≡ some cap)
              × (exceeds t cap ≡ false)))
revalidate_secret-ok t none o' h = let q = ok_inj none o' (ok none) refl h in (sym q, inl (sym q))
revalidate_secret-ok t (some s) o' h =
    let (u, q, k) = >>=-eq-ok (ensure s.enabled ApiFailure.revalidation_failed) _ h in
    let (cap, q1, k1) =
      >>=-eq-ok (ok_or (tier_from_int s.max_tier) ApiFailure.revalidation_failed) _ k in
    let (v, q2, k2) =
      >>=-eq-ok (ensure (not (exceeds t cap)) ApiFailure.revalidation_failed) _ k1 in
    let same = ok_inj (some s) o' (ok (some s)) refl k2 in
    (sym same, inr (s, cap, sym same, true_of _ q, some_of _ q1, not-true _ (true_of _ q2)))

pub revalidate_grant-Revalidated :
    (grant : GrantRow) (db db' : Db) (secret : Option SecretRow)
    → revalidate_grant grant db db' ≡ ok secret
    → Revalidated grant db db' secret
unfolding revalidate_grant
revalidate_grant-Revalidated grant db db' secret h =
    let (client, q0, k0) =
      >>=-eq-ok (ok_or (get_client_by_name db grant.client_name) ApiFailure.revalidation_failed) _
        h in
    let (u, q1, k1) = >>=-eq-ok (ensure client.enabled ApiFailure.revalidation_failed) _ k0 in
    let (m, q2, k2) =
      >>=-eq-ok (ok_or (mechanism_from_str grant.mechanism) ApiFailure.revalidation_failed) _ k1 in
    let (u', q3, k3) =
      >>=-eq-ok
        (ensure (any (λ m. text_eq m grant.mechanism) client.mechanisms)
          ApiFailure.revalidation_failed)
        _ k2 in
    let (cap, q4, k4) =
      >>=-eq-ok (ok_or (tier_from_int client.max_tier) ApiFailure.revalidation_failed) _ k3 in
    let (u'', q5, k5) =
      >>=-eq-ok (ensure (not (exceeds (tier m) cap)) ApiFailure.revalidation_failed) _ k4 in
    let (same, within) =
      revalidate_secret-ok (tier m) (get_secret_by_name db' grant.secret_name) secret k5 in
    record {
      client = client;
      mechanism = m;
      client_max = cap;
      client_found = some_of _ q0;
      client_enabled = true_of _ q1;
      known = some_of _ q2;
      still_allowed = true_of _ q3;
      client_cap = some_of _ q4;
      within_client = not-true _ (true_of _ q5);
      secret_found = same;
      within_secret = within;
    }
