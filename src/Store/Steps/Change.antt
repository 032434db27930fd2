-- ===== src/Store/Steps/Change.antt =====
-- What a step can do to the tables of requests and grants and to the logged uses.
use keychute.Prelude.{
  ℕ, ◌+◌, ◌≤◌, ◌≡◌, refl, sym, ap, ◌∙◌, inl, inr, Bool, true, false, ◌||◌, none, some, List, [],
  ◌∷◌, map, arith, ◌==◌, if◌then◌else◌, Bool-cases, any,
}
use keychute.Store.{get_grant, update_where, Db, AccessRequestRow, GrantRow}
use keychute.Store.Grants.{uses_left}
use keychute.Store.Grants.Effect.{uses_logged}
use keychute.Store.Requests.{is_pending}
use keychute.Types.{Uuid, RequestState}

pub record RequestKept (r r' : AccessRequestRow) : Type 0 where
  pub same_id : r'.id ≡ r.id
  pub same_client : r'.client_name ≡ r.client_name
  pub same_secret : r'.secret_name ≡ r.secret_name
  pub same_idem_client : r'.idem_client ≡ r.idem_client
  pub same_idem_key : r'.idem_key ≡ r.idem_key
  pub same_idem_mac : r'.idem_mac ≡ r.idem_mac
  pub final : is_pending r.state ≡ false → r'.state ≡ r.state

pub record GrantKept (g g' : GrantRow) : Type 0 where
  pub same_id : g'.id ≡ g.id
  pub same_request : g'.request_id ≡ g.request_id
  pub same_client : g'.client_name ≡ g.client_name
  pub same_secret : g'.secret_name ≡ g.secret_name
  pub same_mechanism : g'.mechanism ≡ g.mechanism
  pub same_constraints : g'.constraints ≡ g.constraints
  pub same_not_after : g'.not_after ≡ g.not_after
  pub same_cap : g'.max_uses ≡ g.max_uses
  pub stays_revoked : g.revoked ≡ true → g'.revoked ≡ true
  pub stays_purged : g.passthrough_ciphertext ≡ none → g'.passthrough_ciphertext ≡ none
  pub uses_grow : g.use_count ≤ g'.use_count

abbrev pub is_approved : RequestState → Bool
is_approved RequestState.approved = true
is_approved _ = false

pub RequestKept-refl : (r : AccessRequestRow) → RequestKept r r
RequestKept-refl r = record {
  same_id = refl;
  same_client = refl;
  same_secret = refl;
  same_idem_client = refl;
  same_idem_key = refl;
  same_idem_mac = refl;
  final = λ h. refl;
}

pub GrantKept-refl : (g : GrantRow) → GrantKept g g
GrantKept-refl g = record {
  same_id = refl;
  same_request = refl;
  same_client = refl;
  same_secret = refl;
  same_mechanism = refl;
  same_constraints = refl;
  same_not_after = refl;
  same_cap = refl;
  stays_revoked = λ h. h;
  stays_purged = λ h. h;
  uses_grow = omega arith;
}

-- A relation of each row with its update, for an update under a test.
pub updated-kept :
    {A : Type 0} (K : A → A → Type 0) (p : A → Bool) (f : A → A)
    → ((a : A) → K a a)
    → ((a : A) → p a ≡ true → K a (f a))
    → (a : A) → K a (if p a then f a else a)
updated-kept K p f same changed a = elim (Bool-cases (p a)) [
  | inl e ↦ rw e (changed a e)
  | inr e ↦ rw e (same a)
]

-- The rows of the log that are uses of a grant, unchanged.
abbrev pub SameUses : Db → Db → Type 0
SameUses db db' = (id : Uuid) → uses_logged id db'.audit_log ≡ uses_logged id db.audit_log

abbrev pub one_if : Bool → ℕ
one_if b = if b then 1 else 0

-- Requests that keep their approval, and grants that keep their count.
abbrev pub Unapproving : (AccessRequestRow → AccessRequestRow) → Type 0
Unapproving f =
    (r : AccessRequestRow) → RequestKept r (f r) × (is_approved (f r).state ≡ is_approved r.state)

abbrev pub Uncounting : (GrantRow → GrantRow) → Type 0
Uncounting h = (g : GrantRow) → GrantKept g (h g) × ((h g).use_count ≡ g.use_count)

-- No grant of that id, none of that request, and the request is there.
abbrev pub NoConflict : Db → GrantRow → Type 0
NoConflict db g = any (λ h. h.id == g.id || h.request_id == g.request_id) db.grants ≡ false

-- The approval of the rows that `p` names: all are of one request, and there is one.
pub record Approves (p : AccessRequestRow → Bool) (f : AccessRequestRow → AccessRequestRow)
    (request_id : Uuid) (rows : List AccessRequestRow) : Type 0 where
  pub of_request : (r : AccessRequestRow) → p r ≡ true → r.id ≡ request_id
  pub keeps : (r : AccessRequestRow) → p r ≡ true → RequestKept r (f r)
  pub approves : (r : AccessRequestRow) → is_approved (f r).state ≡ true
  pub some_row : any p rows ≡ true

pub data Change (db db' : Db) : Type 0 where
  kept :
      (f : AccessRequestRow → AccessRequestRow) (h : GrantRow → GrantRow)
      → Unapproving f
      → Uncounting h
      → db'.access_requests ≡ map f db.access_requests
      → db'.grants ≡ map h db.grants
      → SameUses db db'
      → Change db db'
  used :
      (grant_id : Uuid) (p : GrantRow → Bool) (h : GrantRow → GrantRow) (g : GrantRow)
      → get_grant db grant_id ≡ some g
      → uses_left g ≡ true
      → p g ≡ true
      → ((r : GrantRow) → p r ≡ true → r.id ≡ grant_id)
      → ((r : GrantRow) → GrantKept r (h r) × ((h r).use_count ≡ r.use_count + 1))
      → db'.access_requests ≡ db.access_requests
      → db'.grants ≡ update_where p h db.grants
      → ((id : Uuid)
          → uses_logged id db'.audit_log ≡ one_if (grant_id == id) + uses_logged id db.audit_log)
      → Change db db'
  created :
      (r : AccessRequestRow)
      → any (λ x. x.id == r.id) db.access_requests ≡ false
      → is_approved r.state ≡ false
      → db'.access_requests ≡ r ∷ db.access_requests
      → db'.grants ≡ db.grants
      → SameUses db db'
      → Change db db'
  created_approved :
      (r : AccessRequestRow) (g : GrantRow)
      → any (λ x. x.id == r.id) db.access_requests ≡ false
      → is_approved r.state ≡ true
      → g.request_id ≡ r.id
      → g.use_count ≡ 0
      → NoConflict db g
      → db'.access_requests ≡ r ∷ db.access_requests
      → db'.grants ≡ g ∷ db.grants
      → SameUses db db'
      → Change db db'
  approved :
      (p : AccessRequestRow → Bool) (f : AccessRequestRow → AccessRequestRow) (g : GrantRow)
      → Approves p f g.request_id db.access_requests
      → g.use_count ≡ 0
      → NoConflict db g
      → db'.access_requests ≡ update_where p f db.access_requests
      → db'.grants ≡ g ∷ db.grants
      → SameUses db db'
      → Change db db'

map-same : {A : Type 0} (xs : List A) → map (λ a. a) xs ≡ xs
map-same [] = refl
map-same (x ∷ xs) = ap (λ ys. x ∷ ys) (map-same xs)

-- A step that leaves both tables alone.
pub untouched :
    (db db' : Db)
    → db'.access_requests ≡ db.access_requests
    → db'.grants ≡ db.grants
    → SameUses db db'
    → Change db db'
untouched db db' r g u =
    kept (λ x. x) (λ x. x) (λ x. (RequestKept-refl x, refl)) (λ x. (GrantKept-refl x, refl))
      (r ∙ sym (map-same db.access_requests)) (g ∙ sym (map-same db.grants)) u

pub kept_grants :
    (db db' : Db) (p : GrantRow → Bool) (h : GrantRow → GrantRow)
    → ((g : GrantRow) → p g ≡ true → GrantKept g (h g) × ((h g).use_count ≡ g.use_count))
    → db'.access_requests ≡ db.access_requests
    → db'.grants ≡ update_where p h db.grants
    → SameUses db db'
    → Change db db'
kept_grants db db' p h k r g u =
    kept (λ x. x) (λ x. if p x then h x else x) (λ x. (RequestKept-refl x, refl))
      (updated-kept (λ a b. GrantKept a b × (b.use_count ≡ a.use_count)) p h
        (λ x. (GrantKept-refl x, refl)) k)
      (r ∙ sym (map-same db.access_requests)) g u

pub kept_requests :
    (db db' : Db) (p : AccessRequestRow → Bool) (f : AccessRequestRow → AccessRequestRow)
    → ((r : AccessRequestRow)
        → p r ≡ true
        → RequestKept r (f r) × (is_approved (f r).state ≡ is_approved r.state))
    → db'.access_requests ≡ update_where p f db.access_requests
    → db'.grants ≡ db.grants
    → SameUses db db'
    → Change db db'
kept_requests db db' p f k r g u =
    kept (λ x. if p x then f x else x) (λ x. x)
      (updated-kept (λ a b. RequestKept a b × (is_approved b.state ≡ is_approved a.state)) p f
        (λ x. (RequestKept-refl x, refl)) k)
      (λ x. (GrantKept-refl x, refl)) r (g ∙ sym (map-same db.grants)) u
