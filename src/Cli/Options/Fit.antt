-- ===== src/Cli/Options/Fit.antt =====
-- Constraints that the validation of server/src/api/requests.rs accepts, and methods of
-- cli/src/curl.rs that it accepts.
use keychute.Api.Validation.{
  normal_constraints, normal_methods, canonicalize_all, normal_uses, brokered_uses,
}
use keychute.Cli.{fail, exit_config, normalize_method, canonical_path}
use keychute.Cli.Constraints.{add_methods}
use keychute.Paths.{Rejection, canonicalize}
use keychute.Policy.{is_valid_http_method, is_tchar}
use keychute.Prelude.{
  ℕ, ◌≡◌, refl, ◌∙◌, Bool, true, false, not, ◌&&◌, none, some, List, [], ◌∷◌, ◌++◌, arith, Text,
  codes, text_eq, one_of, to_ascii_uppercase, Result, ok, err, ensure, ok_inj, >>=-eq-ok,
  ensure-eq-ok, leb, ltb, length, is_empty, is_some, all, if◌then◌else◌, Bool-cases, inl, inr, ◌*◌,
}
use keychute.Prelude.Trim.{trim}
use keychute.Types.{Constraints, Mechanism}

-- `Method::from_bytes` accepts tokens only.
abbrev pub AcceptsTokens : (Text → Bool) → Type 0
AcceptsTokens method_ok =
    (m : Text) → method_ok m ≡ true → (is_empty m ≡ false) × (all is_tchar m ≡ true)

pub normalize_method-valid :
    (method_ok : Text → Bool) (raw m : Text)
    → AcceptsTokens method_ok
    → normalize_method method_ok raw ≡ ok m
    → is_valid_http_method m ≡ true
unfolding normalize_method is_valid_http_method
normalize_method-valid method_ok raw m tokens h =
    let upper = to_ascii_uppercase (trim raw) in
    let (u, known, h1) = >>=-eq-ok (ensure (method_ok upper) (fail exit_config)) _ h in
    let (u1, short, h2) = >>=-eq-ok (ensure (leb (length upper) 64) (fail exit_config)) _ h1 in
    let (u2, connect, h3) =
      >>=-eq-ok (ensure (not (text_eq upper (codes "CONNECT"))) (fail exit_config)) _ h2 in
    let (u3, trace, h4) =
      >>=-eq-ok (ensure (not (text_eq upper (codes "TRACE"))) (fail exit_config)) _ h3 in
    let same : upper ≡ m = ok_inj upper m _ refl h4 in
    let (filled, token) = tokens upper (ensure-eq-ok _ _ known) in
    rw (← same, filled, token, ensure-eq-ok _ _ short) refl

all-snoc :
    (p : Text → Bool) (l : List Text) (a : Text)
    → all p l ≡ true
    → p a ≡ true
    → all p (l ++ (a ∷ [])) ≡ true
all-snoc p [] a h k = rw k refl
all-snoc p (x ∷ l) a h k = ground (arith, all-snoc p l a)

pub add_methods-valid :
    (method_ok : Text → Bool) (l extra out : List Text)
    → AcceptsTokens method_ok
    → all is_valid_http_method l ≡ true
    → add_methods method_ok l extra ≡ ok out
    → all is_valid_http_method out ≡ true
unfolding add_methods
add_methods-valid method_ok l [] out tokens v h = let q = ok_inj l out _ refl h in rw (← q) v
add_methods-valid method_ok l (m ∷ extra) out tokens v h =
    let (upper, known, h1) = >>=-eq-ok (normalize_method method_ok m) _ h in
    let valid = normalize_method-valid method_ok m upper tokens known in
    elim (Bool-cases (one_of l upper)) [
      | inl e ↦ add_methods-valid method_ok l extra out tokens v (rw e at h1)
      | inr e ↦
          add_methods-valid method_ok (l ++ (upper ∷ [])) extra out tokens
            (all-snoc is_valid_http_method l upper v valid) (rw e at h1)
    ]

normal_methods-total :
    (ms : List Text)
    → all is_valid_http_method ms ≡ true
    → (out : List Text) × (normal_methods ms ≡ ok out) × (is_empty out ≡ is_empty ms)
unfolding normal_methods
normal_methods-total [] h = ([], refl, refl)
normal_methods-total (m ∷ ms) h =
    let valid : is_valid_http_method m ≡ true = ground arith in
    let (out, e, q) = normal_methods-total ms (ground arith) in
    (to_ascii_uppercase m ∷ out, rw (valid, e) refl, refl)

pub canonicalize-total :
    (p : Text) → is_some (canonical_path p) ≡ true → (q : Text) × (canonicalize p ≡ ok q)
canonicalize-total p h = of (canonicalize p) refl h
  where
    of :
        (r : Result Rejection Text)
        → r ≡ r
        → is_some (elim r [ ok path ↦ some path | err e ↦ none ]) ≡ true
        → (q : Text) × (r ≡ ok q)
    of (ok q) e h = (q, refl)
    of (err x) e h = absurd (cc)

canonicalize_all-total :
    (ps : List Text)
    → all (λ p. is_some (canonical_path p)) ps ≡ true
    → (out : List Text) × (canonicalize_all ps ≡ ok out)
unfolding canonicalize_all
canonicalize_all-total [] h = ([], refl)
canonicalize_all-total (p ∷ ps) h =
    let first : is_some (canonical_path p) ≡ true = ground arith in
    let (q, e) = canonicalize-total p first in
    let (out, f) = canonicalize_all-total ps (ground arith) in (q ∷ out, rw (e, f) refl)

-- The use cap that the command line asks for.
pub uses-fit :
    (n : ℕ)
    → leb n 2147483647 ≡ true
    → brokered_uses (if ltb 0 n then some n else none) ≡ ok (if ltb 0 n then some n else none)
uses-fit n h = ground arith

-- Constraints that the server accepts.
pub record Fit (c : Constraints) : Type 0 where
  pub origin : length c.origins ≡ 1
  pub methods : all is_valid_http_method c.methods ≡ true
  pub filled : is_empty c.methods ≡ false
  pub few_methods : leb (length c.methods) 32 ≡ true
  pub paths : all (λ p. is_some (canonical_path p)) c.path_prefixes ≡ true
  pub few_paths : leb (length c.path_prefixes) 32 ≡ true
  pub timely : (leb 1 c.ttl_seconds && leb c.ttl_seconds (30 * 24 * 3600)) ≡ true
  pub uses : brokered_uses c.max_uses ≡ ok c.max_uses

uses-normal :
    (c : Constraints) (ms : List Text)
    → length c.origins ≡ 1
    → is_empty ms ≡ false
    → brokered_uses c.max_uses ≡ ok c.max_uses
    → normal_uses Mechanism.brokered c ms ≡ ok c.max_uses
unfolding normal_uses
uses-normal c ms one filled fit = rw (one, filled, fit) refl

pub Fit-normal :
    (c : Constraints)
    → Fit c
    → (stored : Constraints) × (normal_constraints Mechanism.brokered c ≡ ok stored)
unfolding normal_constraints
Fit-normal c f =
    let (ms, kept, q) = normal_methods-total c.methods f.methods in
    let (ps, canonised) = canonicalize_all-total c.path_prefixes f.paths in
    let filled : is_empty ms ≡ false = q ∙ f.filled in
    let uses = uses-normal c ms f.origin filled f.uses in
    (
      record c { methods = ms; path_prefixes = ps; max_uses = c.max_uses },
      rw (f.origin, f.few_methods, f.few_paths, f.timely, kept, canonised, uses) refl,
    )
