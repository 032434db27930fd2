-- ===== src/Store/Steps/Final.antt =====
-- What a step leaves of a request and of a grant that are there.
use mathlib.Core.Option
use keychute.Prelude.{
  In-any, find-map, find-In, find, ◌≡◌, ap, ◌∙◌, inl, inr, Bool, true, false, ◌||◌, some, List, ◌∷◌,
  map, arith, ◌==◌, if◌then◌else◌, Bool-cases, any,
}
use keychute.Store.{get_grant, get_request, Db, AccessRequestRow, GrantRow}
use keychute.Store.Requests.{is_pending}
use keychute.Store.Steps.Change.{
  approved, created_approved, GrantKept-refl, created, RequestKept-refl, updated-kept, used, kept,
  Change, RequestKept, GrantKept,
}
use keychute.Types.{Uuid}

pub RequestKept-trans :
    (a b c : AccessRequestRow) → RequestKept a b → RequestKept b c → RequestKept a c
RequestKept-trans a b c h k = record {
  same_id = k.same_id ∙ h.same_id;
  same_client = k.same_client ∙ h.same_client;
  same_secret = k.same_secret ∙ h.same_secret;
  same_idem_client = k.same_idem_client ∙ h.same_idem_client;
  same_idem_key = k.same_idem_key ∙ h.same_idem_key;
  same_idem_mac = k.same_idem_mac ∙ h.same_idem_mac;
  final = λ p. let q = h.final p in k.final (ap is_pending q ∙ p) ∙ q;
}

pub GrantKept-trans : (a b c : GrantRow) → GrantKept a b → GrantKept b c → GrantKept a c
GrantKept-trans a b c h k = record {
  same_id = k.same_id ∙ h.same_id;
  same_request = k.same_request ∙ h.same_request;
  same_client = k.same_client ∙ h.same_client;
  same_secret = k.same_secret ∙ h.same_secret;
  same_mechanism = k.same_mechanism ∙ h.same_mechanism;
  same_constraints = k.same_constraints ∙ h.same_constraints;
  same_not_after = k.same_not_after ∙ h.same_not_after;
  same_cap = k.same_cap ∙ h.same_cap;
  stays_revoked = λ p. k.stays_revoked (h.stays_revoked p);
  stays_purged = λ p. k.stays_purged (h.stays_purged p);
  uses_grow = let i = h.uses_grow in let j = k.uses_grow in omega arith;
}

-- A lookup by id after an update that keeps ids, and after an insertion under another id.
module _ {A : Type 0} (key : A → Uuid) (id : Uuid) (xs ys : List A) (x : A)
    (found : find (λ a. key a == id) xs ≡ some x) where
  found_after_map :
      (f : A → A)
      → ((a : A) → key (f a) ≡ key a)
      → ys ≡ map f xs
      → find (λ a. key a == id) ys ≡ some (f x)
  found_after_map f same e =
      ap (find (λ a. key a == id)) e
      ∙ find-map (λ a. key a == id) f xs (λ a. ap (λ i. i == id) (same a))
      ∙ ap (Option.map f) found

  found_after_insert :
      (y : A) (p : A → Bool)
      → ((a : A) → key a ≡ key y → p a ≡ true)
      → any p xs ≡ false
      → ys ≡ y ∷ xs
      → find (λ a. key a == id) ys ≡ some x
  found_after_insert y p hits free e =
      let (i, k) = find-In (λ a. key a == id) xs x found in
      elim (Bool-cases (key y == id)) [
        | inl same ↦ let t = In-any p xs x i (hits x (ground arith)) in absurd (cc)
        | inr other ↦ ap (find (λ a. key a == id)) e ∙ (rw other found)
      ]

pub Change-request :
    (db db' : Db) (id : Uuid) (r : AccessRequestRow)
    → Change db db'
    → get_request db id ≡ some r
    → (r' : AccessRequestRow) × (get_request db' id ≡ some r') × RequestKept r r'
Change-request db db' id r (kept f h kf kh re ge u) found = (
  f r,
  found_after_map (λ a. a.id) id db.access_requests db'.access_requests r found f
      (λ a. (kf a).0.same_id) re,
  (kf r).0,
)
Change-request db db' id r (used _ _ _ _ _ _ _ _ _ re _ _) found =
    (r, ap (find (λ a. a.id == id)) re ∙ found, RequestKept-refl r)
Change-request db db' id r (created y fresh _ re _ _) found = (
  r,
  found_after_insert (λ a. a.id) id db.access_requests db'.access_requests r found y
      (λ a. a.id == y.id) (λ a e. ground arith) fresh re,
  RequestKept-refl r,
)
Change-request db db' id r (created_approved y _ fresh _ _ _ _ re _ _) found = (
  r,
  found_after_insert (λ a. a.id) id db.access_requests db'.access_requests r found y
      (λ a. a.id == y.id) (λ a e. ground arith) fresh re,
  RequestKept-refl r,
)
Change-request db db' id r (approved p f g a _ _ re _ _) found =
    let k = updated-kept RequestKept p f RequestKept-refl a.keeps in
    (
      if p r then f r else r,
      found_after_map (λ a. a.id) id db.access_requests db'.access_requests r found
          (λ x. if p x then f x else x) (λ x. (k x).same_id) re,
      k r,
    )

pub Change-grant :
    (db db' : Db) (id : Uuid) (g : GrantRow)
    → Change db db'
    → get_grant db id ≡ some g
    → (g' : GrantRow) × (get_grant db' id ≡ some g') × GrantKept g g'
Change-grant db db' id g (kept f h kf kh re ge u) found = (
  h g,
  found_after_map (λ a. a.id) id db.grants db'.grants g found h (λ a. (kh a).0.same_id) ge,
  (kh g).0,
)
Change-grant db db' id g (used _ p h _ _ _ _ _ kh _ ge _) found =
    let k = updated-kept GrantKept p h GrantKept-refl (λ y _. (kh y).0) in
    (
      if p g then h g else g,
      found_after_map (λ a. a.id) id db.grants db'.grants g found (λ x. if p x then h x else x)
          (λ x. (k x).same_id) ge,
      k g,
    )
Change-grant db db' id g (created _ _ _ _ ge _) found =
    (g, ap (find (λ a. a.id == id)) ge ∙ found, GrantKept-refl g)
Change-grant db db' id g (created_approved _ y _ _ _ _ free _ ge _) found = (
  g,
  found_after_insert (λ a. a.id) id db.grants db'.grants g found y
      (λ a. a.id == y.id || a.request_id == y.request_id) (λ a e. ground arith) free ge,
  GrantKept-refl g,
)
Change-grant db db' id g (approved _ _ y _ _ free _ ge _) found = (
  g,
  found_after_insert (λ a. a.id) id db.grants db'.grants g found y
      (λ a. a.id == y.id || a.request_id == y.request_id) (λ a e. ground arith) free ge,
  GrantKept-refl g,
)
