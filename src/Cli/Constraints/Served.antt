-- ===== src/Cli/Constraints/Served.antt =====
-- A grant for what cli/src/curl.rs asks for serves the call: the checks of server/src/proxy.rs pass
-- under the constraints as server/src/api/requests.rs normalises them.
use keychute.Api.{invalid_request, request_too_large}
use keychute.Api.Validation.{
  normal_constraints, normal_methods, canonicalize_all, normal_uses, few_entries, max_ttl_seconds,
}
use keychute.Cli.{Target, normalize_method}
use keychute.Cli.Constraints.{add_methods, checked_prefixes, constraints_for}
use keychute.Cli.Constraints.Stored.{normal_methods-In, prefixes-cover, add_methods-In}
use keychute.Cli.Preflight.{proxied}
use keychute.Cli.Preflight.Permitted.{normal-upper, proxied-suffix}
use keychute.Paths.{canonicalize, prefix_matches}
use keychute.Paths.Canonical.{Bytes}
use keychute.Prelude.{
  ℕ, ◌≡◌, refl, sym, ap, ◌∙◌, Bool, true, false, ◌||◌, ◌&&◌, Option, some, List, [], ◌∷◌, ◌++◌,
  arith, Text, codes, text_eq, text_eq_refl, to_ascii_uppercase, to_ascii_lowercase, ok, ensure,
  or_err, ok_inj, >>=-eq-ok, or_err-eq-ok, leb, is_empty, any, eq_ignore_ascii_case, has_byte, inl,
  In, In-any,
}
use keychute.Proxy.Headers.{HeaderMap}
use keychute.Proxy.Target.{permitted, proxy_suffix}
use keychute.Types.{Constraints, Mechanism}

-- The proxy's checks, one by one, on a request that the command line sends.
permitted-with :
    (c : Constraints) (id rest method canonical : Text) (target : Target) (headers : HeaderMap)
    (body : List (Option Text))
    → to_ascii_uppercase method ≡ method
    → text_eq method (codes "TRACE") ≡ false
    → has_byte b'/' id ≡ false
    → target.path ≡ b'/' ∷ rest
    → canonicalize target.path ≡ ok canonical
    → c.origins ≡ target.origin ∷ []
    → (is_empty c.methods || any (λ m. eq_ignore_ascii_case m method) c.methods) ≡ true
    → (is_empty c.path_prefixes || any (λ p. prefix_matches p canonical) c.path_prefixes) ≡ true
    → permitted c (proxied id target method headers body)
      ≡ ok (record { origin = target.origin; method = method; path = canonical })
unfolding permitted
permitted-with c id rest method canonical target headers body upper other plain rooted clean one
      listed covered =
    let suffix : proxy_suffix (codes "/v1/grants/" ++ (id ++ (codes "/proxy" ++ target.path)))
        ≡ some target.path =
      rw rooted (proxied-suffix id rest plain) in
    rw (upper, other, listed, suffix, clean, covered, one) refl

-- The call's own method is among those that are stored.
method-stored :
    (method_ok : Text → Bool) (method : Text) (extra methods stored : List Text)
    → to_ascii_uppercase method ≡ method
    → add_methods method_ok (method ∷ []) extra ≡ ok methods
    → normal_methods methods ≡ ok stored
    → (is_empty stored || any (λ m. eq_ignore_ascii_case m method) stored) ≡ true
unfolding eq_ignore_ascii_case text_eq
method-stored method_ok method extra methods stored upper listed kept =
    let here : In method methods =
      add_methods-In method_ok (method ∷ []) extra methods method (inl refl) listed in
    let there : In method stored =
      rw upper at (normal_methods-In methods stored method here kept) in
    let found =
      In-any (λ m. eq_ignore_ascii_case m method) stored method there
        (text_eq_refl (to_ascii_lowercase method)) in
    ground arith

-- What the command line asks for.
pub asked-fields :
    (method_ok : Text → Bool) (target : Target) (method : Text) (extra prefixes : List Text)
    (ttl uses : ℕ) (asked : Constraints)
    → constraints_for method_ok target method extra prefixes ttl uses ≡ ok asked
    → (asked.origins ≡ target.origin ∷ [])
      × (add_methods method_ok (method ∷ []) extra ≡ ok asked.methods)
      × (checked_prefixes target.path prefixes ≡ ok asked.path_prefixes)
unfolding constraints_for
asked-fields method_ok target method extra prefixes ttl uses asked wanted =
    let (methods, listed, w1) = >>=-eq-ok (add_methods method_ok (method ∷ []) extra) _ wanted in
    let (paths, checked, w2) = >>=-eq-ok (checked_prefixes target.path prefixes) _ w1 in
    let same = ok_inj _ asked _ refl w2 in
    (
      ap (λ c. c.origins) (sym same),
      listed ∙ ap (λ c. ok c.methods) same,
      checked ∙ ap (λ c. ok c.path_prefixes) same,
    )

-- What the server stores of it.
stored-fields :
    (asked stored : Constraints)
    → normal_constraints Mechanism.brokered asked ≡ ok stored
    → (stored.origins ≡ asked.origins)
      × (normal_methods asked.methods ≡ ok stored.methods)
      × (canonicalize_all asked.path_prefixes ≡ ok stored.path_prefixes)
unfolding normal_constraints
stored-fields asked stored accepted =
    let (u, few, a1) =
      >>=-eq-ok
        (ensure (few_entries asked) (request_too_large (codes "too many constraint entries"))) _
        accepted in
    let (u1, timely, a2) =
      >>=-eq-ok
        (ensure (leb 1 asked.ttl_seconds && leb asked.ttl_seconds max_ttl_seconds)
          (invalid_request (codes "ttl_seconds must be between 1 and 30 days")))
        _ a1 in
    let (ms, kept, a3) = >>=-eq-ok (normal_methods asked.methods) _ a2 in
    let (ps, canonised, a4) =
      >>=-eq-ok
        (or_err (canonicalize_all asked.path_prefixes)
          (invalid_request (codes "invalid path prefix")))
        _ a3 in
    let (n, counted, a5) = >>=-eq-ok (normal_uses Mechanism.brokered asked ms) _ a4 in
    let same = ok_inj _ stored _ refl a5 in
    (
      ap (λ c. c.origins) (sym same),
      kept ∙ ap (λ c. ok c.methods) same,
      or_err-eq-ok _ _ canonised ∙ ap (λ c. ok c.path_prefixes) same,
    )

-- When the command line asks for constraints and the server accepts and stores them as they are
-- normalised, a grant with them permits the call: the proxy's checks on the request that is then sent
-- pass, with this origin, method and canonical path. The method was normalised and the path is one
-- that the server accepts.
pub constraints_for-permitted :
    (method_ok : Text → Bool) (raw method id rest canonical : Text) (target : Target)
    (extra prefixes : List Text) (ttl uses : ℕ) (asked stored : Constraints) (headers : HeaderMap)
    (body : List (Option Text))
    → normalize_method method_ok raw ≡ ok method
    → has_byte b'/' id ≡ false
    → target.path ≡ b'/' ∷ rest
    → Bytes target.path
    → canonicalize target.path ≡ ok canonical
    → constraints_for method_ok target method extra prefixes ttl uses ≡ ok asked
    → normal_constraints Mechanism.brokered asked ≡ ok stored
    → permitted stored (proxied id target method headers body)
      ≡ ok (record { origin = target.origin; method = method; path = canonical })
constraints_for-permitted method_ok raw method id rest canonical target extra prefixes ttl uses
      asked stored headers body normal plain rooted small clean wanted accepted =
    let (one, listed, checked) =
      asked-fields method_ok target method extra prefixes ttl uses asked wanted in
    let (origins, kept, canonised) = stored-fields asked stored accepted in
    let (upper, other) = normal-upper method_ok raw method normal in
    let covered =
      prefixes-cover target.path canonical prefixes asked.path_prefixes stored.path_prefixes small
        clean checked canonised in
    permitted-with stored id rest method canonical target headers body upper other plain rooted
      clean (origins ∙ one)
      (method-stored method_ok method extra asked.methods stored.methods upper listed kept) covered
