-- ===== src/Cli/Options/Accepted.antt =====
-- What `validate_grant_options` of cli/src/curl.rs lets through, the validation of
-- server/src/api/requests.rs accepts.
use keychute.Api.Validation.{normal_constraints}
use keychute.Cli.{Failure, fail, exit_config, Target, normalize_method, canonical_path}
use keychute.Cli.Constraints.{
  add_methods, checked_prefixes, constraints_for, covers, canonical_prefixes,
}
use keychute.Cli.Constraints.Served.{asked-fields}
use keychute.Cli.Constraints.Stored.{add_methods-In}
use keychute.Cli.Options.{
  CurlArgs, key_fits, secret_fits, check_prefixes, validate_new_grant, validate_grant_options,
}
use keychute.Cli.Options.Fit.{
  AcceptsTokens, normalize_method-valid, add_methods-valid, canonicalize-total, uses-fit, Fit,
  Fit-normal,
}
use keychute.Paths.{canonicalize}
use keychute.Policy.{is_valid_http_method}
use keychute.Prelude.{
  ◌≡◌, refl, Bool, true, false, ◌&&◌, Option, none, some, List, [], ◌∷◌, Text, codes, Result, ok,
  ensure, ok_inj, >>=-eq-ok, ensure-eq-ok, leb, ltb, length, is_empty, is_some, all, starts_with,
  if◌then◌else◌, inl, In, ◌*◌, ◌>>=◌,
}
use keychute.Types.{Constraints, Mechanism}

In-filled : (m : Text) (l : List Text) → In m l → is_empty l ≡ false
In-filled m [] i = absurd i
In-filled m (x ∷ l) i = refl

-- The prefixes that are asked for have canonical forms and are no more than those given, or one.
checked_prefixes-fit :
    (path : Text) (given paths : List Text)
    → is_some (canonical_path path) ≡ true
    → leb (length given) 32 ≡ true
    → checked_prefixes path given ≡ ok paths
    → (all (λ p. is_some (canonical_path p)) paths ≡ true) × (leb (length paths) 32 ≡ true)
unfolding checked_prefixes
checked_prefixes-fit path [] paths c few h =
    let same : path ∷ [] ≡ paths = ok_inj _ paths _ refl h in
    (rw (← same, c) refl, rw (← same) refl)
checked_prefixes-fit path (p ∷ ps) paths c few h =
    let (u, rooted, h1) =
      >>=-eq-ok (ensure (all (λ q. starts_with q (codes "/")) (p ∷ ps)) (fail exit_config)) _ h in
    let (u1, valid, h2) =
      >>=-eq-ok (ensure (all (λ q. is_some (canonical_path q)) (p ∷ ps)) (fail exit_config)) _ h1 in
    let (u2, covered, h3) =
      >>=-eq-ok
        (ensure (covers (canonical_prefixes (p ∷ ps)) (canonical_path path)) (fail exit_config)) _
        h2 in
    let same : p ∷ ps ≡ paths = ok_inj _ paths _ refl h3 in
    (rw (← same) (ensure-eq-ok _ _ valid), rw (← same) few)

-- The prefixes pass the check of the constraints themselves.
check_prefixes-checked :
    (method_ok : Text → Bool) (args : CurlArgs) (target : Target) (method : Text) {u : Unit {0}}
    → check_prefixes method_ok args target method ≡ ok u
    → (paths : List Text) × (checked_prefixes target.path args.path_prefixes ≡ ok paths)
unfolding checked_prefixes
check_prefixes-checked method_ok args target method h = of args.path_prefixes h
  where
    of :
        (ps : List Text) {u : Unit {0}}
        → (if is_empty ps then ok tt else (do
          _ ← constraints_for method_ok target method [] ps args.ttl args.max_uses
          ok tt))
          ≡ ok u
        → (paths : List Text) × (checked_prefixes target.path ps ≡ ok paths)
    of [] h = (target.path ∷ [], refl)
    of (p ∷ ps) h =
        let (asked, q, h1) =
          >>=-eq-ok (constraints_for method_ok target method [] (p ∷ ps) args.ttl args.max_uses) _
            h in
        (
          asked.path_prefixes,
          (asked-fields method_ok target method [] (p ∷ ps) args.ttl args.max_uses asked q).2,
        )

-- What the checks without a grant say of the arguments.
new_grant-checked :
    (method_ok : Text → Bool) (args : CurlArgs) (target : Target) (method : Text) {u : Unit {0}}
    → validate_new_grant method_ok args target method ≡ ok u
    → (distinct : List Text) × (paths : List Text) × (add_methods method_ok
          (method ∷ [])
          args.allow_methods
        ≡ ok distinct)
      × (checked_prefixes target.path args.path_prefixes ≡ ok paths)
      × (leb (length distinct) 32 ≡ true)
      × (leb (length args.path_prefixes) 32 ≡ true)
      × ((leb 1 args.ttl && leb args.ttl (30 * 24 * 3600)) ≡ true)
      × (leb args.max_uses 2147483647 ≡ true)
unfolding validate_new_grant
new_grant-checked method_ok args target method h =
    let (u1, key, h1) = >>=-eq-ok (ensure (key_fits args.idempotency_key) (fail exit_config)) _ h in
    let (u2, timely, h2) =
      >>=-eq-ok (ensure (leb 1 args.ttl && leb args.ttl (30 * 24 * 3600)) (fail exit_config)) _
        h1 in
    let (u3, few, h3) = >>=-eq-ok (ensure (leb args.max_uses 2147483647) (fail exit_config)) _ h2 in
    let (u4, waits, h4) =
      >>=-eq-ok (ensure (leb args.timeout (30 * 24 * 3600)) (fail exit_config)) _ h3 in
    let (u5, named, h5) = >>=-eq-ok (ensure (secret_fits args.secret) (fail exit_config)) _ h4 in
    let (u6, short, h6) =
      >>=-eq-ok (ensure (leb (length args.reason) (4 * 1024)) (fail exit_config)) _ h5 in
    let (distinct, listed, h7) =
      >>=-eq-ok (add_methods method_ok (method ∷ []) args.allow_methods) _ h6 in
    let (u7, methods, h8) = >>=-eq-ok (ensure (leb (length distinct) 32) (fail exit_config)) _ h7 in
    let (u8, prefixes, h9) =
      >>=-eq-ok (ensure (leb (length args.path_prefixes) 32) (fail exit_config)) _ h8 in
    let (paths, checked) = check_prefixes-checked method_ok args target method h9 in
    (
      distinct,
      paths,
      listed,
      checked,
      ensure-eq-ok _ _ methods,
      ensure-eq-ok _ _ prefixes,
      ensure-eq-ok _ _ timely,
      ensure-eq-ok _ _ few,
    )

pub new_grant-sizes :
    (method_ok : Text → Bool) (args : CurlArgs) (target : Target) (method : Text) {u : Unit {0}}
    → validate_new_grant method_ok args target method ≡ ok u
    → (key_fits args.idempotency_key ≡ true)
      × (secret_fits args.secret ≡ true)
      × (leb (length args.reason) (4 * 1024) ≡ true)
unfolding validate_new_grant
new_grant-sizes method_ok args target method h =
    let (u1, key, h1) = >>=-eq-ok (ensure (key_fits args.idempotency_key) (fail exit_config)) _ h in
    let (u2, timely, h2) =
      >>=-eq-ok (ensure (leb 1 args.ttl && leb args.ttl (30 * 24 * 3600)) (fail exit_config)) _
        h1 in
    let (u3, few, h3) = >>=-eq-ok (ensure (leb args.max_uses 2147483647) (fail exit_config)) _ h2 in
    let (u4, waits, h4) =
      >>=-eq-ok (ensure (leb args.timeout (30 * 24 * 3600)) (fail exit_config)) _ h3 in
    let (u5, named, h5) = >>=-eq-ok (ensure (secret_fits args.secret) (fail exit_config)) _ h4 in
    let (u6, short, h6) =
      >>=-eq-ok (ensure (leb (length args.reason) (4 * 1024)) (fail exit_config)) _ h5 in
    (ensure-eq-ok _ _ key, ensure-eq-ok _ _ named, ensure-eq-ok _ _ short)

without_grant :
    (id : Option Text) (r : Result Failure (Unit {0})) {u : Unit {0}}
    → id ≡ none
    → (if is_some id then ok tt else r) ≡ ok u
    → r ≡ ok u
without_grant none r e h = h
without_grant (some id) r e h = absurd (cc)

pub options-new :
    (method_ok : Text → Bool) (args : CurlArgs) (target : Target) (method : Text)
    → args.grant_id ≡ none
    → validate_grant_options method_ok args target method ≡ ok tt
    → validate_new_grant method_ok args target method ≡ ok tt
unfolding validate_grant_options
options-new method_ok args target method fresh h =
    let (u, known, h1) =
      >>=-eq-ok (ensure (is_some (canonical_path target.path)) (fail exit_config)) _ h in
    let (u1, timed, h2) = >>=-eq-ok (ensure args.max_time_fits (fail exit_config)) _ h1 in
    without_grant args.grant_id _ fresh h2

-- Options without a grant that validate, for a normalised method: the path is one that the server
-- accepts, `constraints_for` yields constraints, and the server's validation of them for a brokered
-- grant succeeds. The method's syntax is that of a token.
pub validate_grant_options-accepted :
    (method_ok : Text → Bool) (args : CurlArgs) (target : Target) (raw method : Text)
    → AcceptsTokens method_ok
    → normalize_method method_ok raw ≡ ok method
    → args.grant_id ≡ none
    → validate_grant_options method_ok args target method ≡ ok tt
    → (canonical : Text) × (asked : Constraints) × (stored : Constraints) × (canonicalize
          target.path
        ≡ ok canonical)
      × (constraints_for method_ok target method args.allow_methods args.path_prefixes args.ttl
            args.max_uses
          ≡ ok asked)
      × (normal_constraints Mechanism.brokered asked ≡ ok stored)
unfolding validate_grant_options constraints_for
validate_grant_options-accepted method_ok args target raw method tokens normal fresh h =
    let (u, known, h1) =
      >>=-eq-ok (ensure (is_some (canonical_path target.path)) (fail exit_config)) _ h in
    let (u1, timed, h2) = >>=-eq-ok (ensure args.max_time_fits (fail exit_config)) _ h1 in
    let clean = ensure-eq-ok _ _ known in
    let (canonical, c) = canonicalize-total target.path clean in
    let (distinct, paths, listed, checked, methods, prefixes, timely, uses) =
      new_grant-checked method_ok args target method (without_grant args.grant_id _ fresh h2) in
    let (spelled, few) =
      checked_prefixes-fit target.path args.path_prefixes paths clean prefixes checked in
    let valid : is_valid_http_method method ≡ true =
      normalize_method-valid method_ok raw method tokens normal in
    let asked : Constraints = record {
      origins = target.origin ∷ [];
      methods = distinct;
      path_prefixes = paths;
      ttl_seconds = args.ttl;
      max_uses = if ltb 0 args.max_uses then some args.max_uses else none;
    } in
    let fit : Fit asked = record {
      origin = refl;
      methods =
          add_methods-valid method_ok (method ∷ []) args.allow_methods distinct tokens
            (rw valid refl) listed;
      filled = In-filled method distinct (
          add_methods-In method_ok (method ∷ []) args.allow_methods distinct method (inl refl)
            listed);
      few_methods = methods;
      paths = spelled;
      few_paths = few;
      timely = timely;
      uses = uses-fit args.max_uses uses;
    } in
    let (stored, accepted) = Fit-normal asked fit in
    (canonical, asked, stored, c, rw (listed, checked) refl, accepted)
