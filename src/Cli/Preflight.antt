-- ===== src/Cli/Preflight.antt =====
-- `check_grant_covers` of cli/src/curl.rs, and the request that `proxy_call` then sends.
pub mod Permitted
use keychute.Api.Grants.{GrantInfo}
use keychute.Cli.{
  Failure, fail, exit_other, exit_config, exit_timeout, Target, canonical_path, path_covered,
}
use keychute.Policy.{unwrap_or}
use keychute.Prelude.{
  ℕ, Bool, true, false, not, ◌||◌, Option, none, some, List, [], ◌∷◌, ◌++◌, Text, codes, Result, ok,
  err, ◌>>=◌, ◌>>◌, ensure, ltb, leb, is_empty, any, eq_ignore_ascii_case,
}
use keychute.Proxy.Headers.{HeaderMap}
use keychute.Proxy.Target.{Request}
use keychute.Types.{DateTime, Origin, Mechanism, same_mechanism, same_target}

abbrev pub has_uses : GrantInfo → Bool
has_uses info = elim info.max_uses [ none ↦ true | some max ↦ not (leb max info.use_count) ]

abbrev pub check_origin : List Origin → Target → Result Failure (Unit {0})
check_origin (approved ∷ []) target = ensure (same_target approved target.origin) (fail exit_config)
check_origin _ target = err (fail exit_other)

-- A path that the server refuses is left to the server.
abbrev pub check_path : List Text → Option Text → Result Failure (Unit {0})
check_path prefixes none = ok tt
check_path prefixes (some canonical) =
    ensure (is_empty prefixes || any (λ p. path_covered p canonical) prefixes) (fail exit_config)

-- After `fetch_grant`; `now` is the local clock, for a server that sends no time.
unfoldable pub check_grant_covers : DateTime → GrantInfo → Target → Text → Result Failure (Unit {0})
check_grant_covers now info target method = do
  ensure (same_mechanism info.mechanism Mechanism.brokered) (fail exit_config)
  ensure (not info.revoked) (fail exit_timeout)
  ensure (ltb (unwrap_or info.server_time now) info.not_after) (fail exit_timeout)
  ensure (has_uses info) (fail exit_other)
  check_origin info.constraints.origins target
  ensure
      (is_empty info.constraints.methods
        || any (λ m. eq_ignore_ascii_case m method) info.constraints.methods)
      (fail exit_config)
  check_path info.constraints.path_prefixes (canonical_path target.path)

-- The path is sent as it was written; `id` is the grant's in text.
abbrev pub proxied : Text → Target → Text → HeaderMap → List (Option Text) → Request
proxied id target method headers body = record {
  method = method;
  path = codes "/v1/grants/" ++ (id ++ (codes "/proxy" ++ target.path));
  query = target.query;
  headers = headers;
  body = body;
}
