-- ===== src/Cli/Preflight/Permitted.antt =====
-- What the preflight of cli/src/curl.rs lets through, the proxy of server/src/proxy.rs permits.
use keychute.Api.Grants.{GrantInfo}
use keychute.Cli.{
  fail, exit_other, exit_config, exit_timeout, Target, normalize_method, canonical_path,
}
use keychute.Cli.Preflight.{check_grant_covers, check_origin, has_uses, proxied}
use keychute.Paths.{canonicalize}
use keychute.Policy.{unwrap_or}
use keychute.Prelude.{
  ℕ, ◌≡◌, refl, Bool, true, false, not, ◌||◌, Option, some, List, [], ◌∷◌, ◌++◌, arith, Text, codes,
  text_eq, to_ascii_uppercase, upper_byte, ok, ensure, ok_inj, >>=-eq-ok, ensure-eq-ok, ltb, leb,
  length, is_empty, any, eq_ignore_ascii_case, has_byte, split_once, ◌==◌, ==_refl,
}
use keychute.Prelude.Trim.{trim}
use keychute.Proxy.Headers.{HeaderMap}
use keychute.Proxy.Target.{permitted, proxy_suffix, strip_prefix}
use keychute.Types.{DateTime, Origin, Mechanism, same_mechanism, same_target}

strip_prefix-append : (p s : Text) → strip_prefix (p ++ s) p ≡ some s
unfolding strip_prefix
strip_prefix-append [] s = refl
strip_prefix-append (b ∷ p) s = rw (==_refl b, strip_prefix-append p s) refl

split_once-append :
    (b : ℕ) (s t : Text) → has_byte b s ≡ false → split_once b (s ++ b ∷ t) ≡ some (s, t)
unfolding split_once
split_once-append b [] t h = rw (==_refl b) refl
split_once-append b (c ∷ s) t h =
    let apart : (c == b) ≡ false = ground arith in
    rw (apart, split_once-append b s t (ground arith)) refl

-- The suffix that the proxy cuts from the path that is sent.
pub proxied-suffix :
    (id rest : Text)
    → has_byte b'/' id ≡ false
    → proxy_suffix (codes "/v1/grants/" ++ (id ++ (codes "/proxy" ++ b'/' ∷ rest)))
      ≡ some (b'/' ∷ rest)
unfolding proxy_suffix
proxied-suffix id rest h =
    rw
      (
        strip_prefix-append (codes "/v1/grants/") (id ++ (codes "/proxy" ++ b'/' ∷ rest)),
        split_once-append b'/' id (codes "proxy" ++ b'/' ∷ rest) h,
        strip_prefix-append (codes "proxy") (b'/' ∷ rest),
      )
      refl

upper_idem : (s : Text) → to_ascii_uppercase (to_ascii_uppercase s) ≡ to_ascii_uppercase s
unfolding to_ascii_uppercase
upper_idem [] = refl
upper_idem (c ∷ s) =
    let first : upper_byte (upper_byte c) ≡ upper_byte c = ground arith in cc (first, upper_idem s)

-- A method that was normalised.
pub normal-upper :
    (method_ok : Text → Bool) (raw method : Text)
    → normalize_method method_ok raw ≡ ok method
    → (to_ascii_uppercase method ≡ method) × (text_eq method (codes "TRACE") ≡ false)
unfolding normalize_method
normal-upper method_ok raw method h =
    let upper = to_ascii_uppercase (trim raw) in
    let (u, valid, h1) = >>=-eq-ok (ensure (method_ok upper) (fail exit_config)) _ h in
    let (u1, short, h2) = >>=-eq-ok (ensure (leb (length upper) 64) (fail exit_config)) _ h1 in
    let (u2, connect, h3) =
      >>=-eq-ok (ensure (not (text_eq upper (codes "CONNECT"))) (fail exit_config)) _ h2 in
    let (u3, trace, h4) =
      >>=-eq-ok (ensure (not (text_eq upper (codes "TRACE"))) (fail exit_config)) _ h3 in
    let same = ok_inj upper method _ refl h4 in
    let other = ensure-eq-ok _ _ trace in
    (rw (← same) (upper_idem (trim raw)), rw (← same) (ground arith))

one_origin :
    (os : List Origin) (target : Target) {u : Unit {0}}
    → check_origin os target ≡ ok u
    → (o : Origin) × (os ≡ o ∷ []) × (same_target o target.origin ≡ true)
one_origin [] target h = absurd (cc)
one_origin (o ∷ []) target h = (o, refl, ensure-eq-ok _ _ h)
one_origin (o ∷ o' ∷ os) target h = absurd (cc)

-- When the preflight passes for a normalised method and a path that the server accepts, the proxy's
-- own checks on the request that is then sent pass under the grant's constraints, and yield that
-- method, the canonical path, and an origin that is the one the URL names.
pub check_grant_covers-permitted :
    (method_ok : Text → Bool) (raw method id rest canonical : Text) (info : GrantInfo)
    (target : Target) (headers : HeaderMap) (body : List (Option Text)) (now : DateTime)
    → normalize_method method_ok raw ≡ ok method
    → has_byte b'/' id ≡ false
    → target.path ≡ b'/' ∷ rest
    → canonicalize target.path ≡ ok canonical
    → check_grant_covers now info target method ≡ ok tt
    → (o : Origin) × (same_target o target.origin ≡ true)
      × (permitted info.constraints (proxied id target method headers body)
          ≡ ok (record { origin = o; method = method; path = canonical }))
unfolding check_grant_covers permitted
check_grant_covers-permitted method_ok raw method id rest canonical info target headers body now
      normal plain rooted clean h =
    let c = info.constraints in
    let (u1, brokered, h1) =
      >>=-eq-ok (ensure (same_mechanism info.mechanism Mechanism.brokered) (fail exit_config)) _
        h in
    let (u2, live, h2) = >>=-eq-ok (ensure (not info.revoked) (fail exit_timeout)) _ h1 in
    let (u3, fresh, h3) =
      >>=-eq-ok (ensure (ltb (unwrap_or info.server_time now) info.not_after) (fail exit_timeout)) _
        h2 in
    let (u4, left, h4) = >>=-eq-ok (ensure (has_uses info) (fail exit_other)) _ h3 in
    let (u5, origin, h5) = >>=-eq-ok (check_origin c.origins target) _ h4 in
    let (u6, methods, paths) =
      >>=-eq-ok
        (ensure (is_empty c.methods || any (λ m. eq_ignore_ascii_case m method) c.methods)
          (fail exit_config))
        _ h5 in
    let (o, one, same) = one_origin c.origins target origin in
    let (upper, other) = normal-upper method_ok raw method normal in
    let listed = ensure-eq-ok _ _ methods in
    let found : canonical_path target.path ≡ some canonical = rw (clean, canonical_path) refl in
    let covered = ensure-eq-ok _ _ (rw found at paths) in
    let suffix : proxy_suffix (codes "/v1/grants/" ++ (id ++ (codes "/proxy" ++ target.path)))
        ≡ some target.path =
      rw rooted (proxied-suffix id rest plain) in
    (o, same, rw (upper, other, listed, suffix, clean, covered, one) refl)
