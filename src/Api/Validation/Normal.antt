-- ===== src/Api/Validation/Normal.antt =====
-- What the validation of server/src/api/requests.rs lets through.
use keychute.Api.{CreateAccessRequest}
use keychute.Api.Validation.{
  validate_request, validate_idempotency_key, normal_constraints, normal_methods, canonicalize_all,
  normal_uses, few_entries, max_ttl_seconds, max_reason_bytes, structured_fits,
  max_constraint_entries,
}
use keychute.Paths.{canonicalize}
use keychute.Paths.Canonical.{IsCanonical, Bytes, canonicalize-IsCanonical}
use keychute.Policy.{is_valid_http_method}
use keychute.Prelude.{
  ℕ, ◌≡◌, ◌≤◌, refl, ap, true, false, Option, some, List, [], ◌∷◌, Text, ok, err, length, is_empty,
  to_ascii_uppercase, In, inl, inr, arith, >>=-eq-ok, ok_inj, ensure, ensure-eq-ok, ◌&&◌, or_err,
  not, leb, Result, upper_byte,
}
use keychute.Store.{max_int}
use keychute.Types.{Mechanism, is_releasing, Constraints}

-- Constraints as the store keeps them.
pub record IsNormal (mechanism : Mechanism) (c : Constraints) : Type 0 where
  pub lives : 1 ≤ c.ttl_seconds
  pub within_month : c.ttl_seconds ≤ max_ttl_seconds
  pub uppercase : (m : Text) → In m c.methods → to_ascii_uppercase m ≡ m
  pub canonical : (p : Text) → In p c.path_prefixes → IsCanonical p
  pub few_methods : length c.methods ≤ max_constraint_entries
  pub few_prefixes : length c.path_prefixes ≤ max_constraint_entries
  pub few_origins : length c.origins ≤ max_constraint_entries
  pub usable : (n : ℕ) → c.max_uses ≡ some n → (1 ≤ n) × (n ≤ max_int)
  pub one_use : is_releasing mechanism ≡ true → c.max_uses ≡ some 1
  pub one_origin : is_releasing mechanism ≡ false → length c.origins ≡ 1
  pub some_method : is_releasing mechanism ≡ false → is_empty c.methods ≡ false

upper-twice : (b : ℕ) → upper_byte (upper_byte b) ≡ upper_byte b
upper-twice b = ground arith

uppercase_twice : (s : Text) → to_ascii_uppercase (to_ascii_uppercase s) ≡ to_ascii_uppercase s
unfolding to_ascii_uppercase
uppercase_twice [] = refl
uppercase_twice (b ∷ s) = rw (upper-twice b, uppercase_twice s) refl

normal_methods-ok :
    (ms ns : List Text)
    → normal_methods ms ≡ ok ns
    → (length ns ≡ length ms) × ((m : Text) → In m ns → to_ascii_uppercase m ≡ m)
unfolding normal_methods
normal_methods-ok [] ns h =
    let q = ok_inj [] ns (ok []) refl h in (rw (← q) refl, λ m i. absurd (rw (← q) at i))
normal_methods-ok (x ∷ ms) ns h =
    let (u, q, k) = >>=-eq-ok (ensure (is_valid_http_method x) _) _ h in
    let (rest, q1, k1) = >>=-eq-ok (normal_methods ms) _ k in
    let (same, upper) = normal_methods-ok ms rest q1 in
    let e = ok_inj (to_ascii_uppercase x ∷ rest) ns (ok (to_ascii_uppercase x ∷ rest)) refl k1 in
    (
      rw (← e) (rw same refl),
      λ m i. elim (rw (← e) at i) [ inl s ↦ rw (← s) (uppercase_twice x) | inr j ↦ upper m j ],
    )

canonicalize_all-ok :
    (ps qs : List Text)
    → ((p : Text) → In p ps → Bytes p)
    → canonicalize_all ps ≡ ok qs
    → (length qs ≡ length ps) × ((p : Text) → In p qs → IsCanonical p)
unfolding canonicalize_all
canonicalize_all-ok [] qs small h =
    let q = ok_inj [] qs (ok []) refl h in (rw (← q) refl, λ m i. absurd (rw (← q) at i))
canonicalize_all-ok (x ∷ ps) qs small h =
    let (c, q, k) = >>=-eq-ok (canonicalize x) _ h in
    let (rest, q1, k1) = >>=-eq-ok (canonicalize_all ps) _ k in
    let (same, canonical) = canonicalize_all-ok ps rest (λ p i. small p (inr i)) q1 in
    let e = ok_inj (c ∷ rest) qs (ok (c ∷ rest)) refl k1 in
    (
      rw (← e) (rw same refl),
      λ p i. elim (rw (← e) at i) [
        | inl s ↦ rw (← s) (canonicalize-IsCanonical x c (small x (inl refl)) q).0
        | inr j ↦ canonical p j
      ],
    )

normal_uses-ok :
    (mechanism : Mechanism) (c : Constraints) (ms : List Text) (u : Option ℕ)
    → normal_uses mechanism c ms ≡ ok u
    → ((n : ℕ) → u ≡ some n → (1 ≤ n) × (n ≤ max_int))
      × (is_releasing mechanism ≡ true → u ≡ some 1)
      × (is_releasing mechanism ≡ false → length c.origins ≡ 1)
      × (is_releasing mechanism ≡ false → is_empty ms ≡ false)
unfolding normal_uses
normal_uses-ok mechanism c ms u h = ground arith

or_err-ok : {E F A : Type 0} (r : Result E A) (f : F) {a : A} → or_err r f ≡ ok a → r ≡ ok a
or_err-ok (ok b) f {a = a} h = ap ok (ok_inj b a (ok b) refl h)
or_err-ok (err e) f h = absurd (cc)

normal_constraints-IsNormal :
    (mechanism : Mechanism) (c c' : Constraints)
    → ((p : Text) → In p c.path_prefixes → Bytes p)
    → normal_constraints mechanism c ≡ ok c'
    → IsNormal mechanism c'
unfolding normal_constraints
normal_constraints-IsNormal mechanism c c' small h =
    let (u, q, k) = >>=-eq-ok (ensure (few_entries c) _) _ h in
    let (v, q1, k1) =
      >>=-eq-ok (ensure (leb 1 c.ttl_seconds && leb c.ttl_seconds max_ttl_seconds) _) _ k in
    let (ms, q2, k2) = >>=-eq-ok (normal_methods c.methods) _ k1 in
    let (ps, q3, k3) = >>=-eq-ok (or_err (canonicalize_all c.path_prefixes) _) _ k2 in
    let (uses, q4, k4) = >>=-eq-ok (normal_uses mechanism c ms) _ k3 in
    let same = ok_inj _ c' _ refl k4 in
    let few = ensure-eq-ok _ _ q in
    let ttl = ensure-eq-ok _ _ q1 in
    let (methods_same, upper) = normal_methods-ok c.methods ms q2 in
    let (prefixes_same, canonical) =
      canonicalize_all-ok c.path_prefixes ps small (or_err-ok _ _ q3) in
    let (usable, one_use, one_origin, some_method) = normal_uses-ok mechanism c ms uses q4 in
    rw (← same) (record {
      lives = ground arith;
      within_month = ground arith;
      uppercase = upper;
      canonical = canonical;
      few_methods = ground arith;
      few_prefixes = ground arith;
      few_origins = ground arith;
      usable = usable;
      one_use = one_use;
      one_origin = one_origin;
      some_method = some_method;
    })

-- Constraints that validation accepts, of a request whose prefixes are byte strings: a lifetime of 1
-- second to 30 days; upper-case methods and canonical prefixes, 32 of each kind at most; a use count
-- that is positive and fits the column; exactly one use for a releasing mechanism; and for a brokered
-- request exactly one origin and at least one method.
pub validate_request-IsNormal :
    (req : CreateAccessRequest) (c : Constraints)
    → ((p : Text) → In p req.constraints.path_prefixes → Bytes p)
    → validate_request req ≡ ok c
    → IsNormal req.mechanism c
unfolding validate_request
validate_request-IsNormal req c small h =
    let (u, q, k) = >>=-eq-ok (validate_idempotency_key req.idempotency_key) _ h in
    let (v, q1, k1) =
      >>=-eq-ok (ensure (not (is_empty req.secret_name) && leb (length req.secret_name) 256) _) _
        k in
    let (x, q2, k2) =
      >>=-eq-ok (ensure (leb (length req.context.reason) max_reason_bytes) _) _ k1 in
    let (y, q3, k3) = >>=-eq-ok (ensure (structured_fits req.context.structured) _) _ k2 in
    normal_constraints-IsNormal req.mechanism req.constraints c small k3
