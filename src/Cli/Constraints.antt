-- ===== src/Cli/Constraints.antt =====
-- `constraints_for` of cli/src/curl.rs: what a grant has to permit for this call. The MAX_* checks on
-- the options stand before it.
pub mod Stored
pub mod Served
use keychute.Cli.{
  Failure, fail, exit_config, Target, normalize_method, canonical_path, path_covered,
}
use keychute.Prelude.{
  ℕ, Bool, true, false, not, ◌&&◌, ◌||◌, Option, none, some, List, [], ◌∷◌, ◌++◌, Text, codes,
  one_of, Result, ok, err, ◌>>=◌, ◌>>◌, ensure, ltb, is_empty, is_some, all, any, starts_with,
  if◌then◌else◌,
}
use keychute.Types.{Constraints}

-- Each further method once.
unfoldable pub add_methods : (Text → Bool) → List Text → List Text → Result Failure (List Text)
add_methods method_ok methods [] = ok methods
add_methods method_ok methods (m ∷ extra) = do
  upper ← normalize_method method_ok m
  add_methods method_ok (if one_of methods upper then methods else methods ++ (upper ∷ [])) extra

-- `filter_map`.
unfoldable pub canonical_prefixes : List Text → List Text
canonical_prefixes [] = []
canonical_prefixes (p ∷ ps) = elim (canonical_path p) [
  | none ↦ canonical_prefixes ps
  | some q ↦ q ∷ canonical_prefixes ps
]

abbrev pub covers : List Text → Option Text → Bool
covers prefixes none = true
covers prefixes (some target) = is_empty prefixes || any (λ p. path_covered p target) prefixes

unfoldable pub checked_prefixes : Text → List Text → Result Failure (List Text)
checked_prefixes path [] = ok (path ∷ [])
checked_prefixes path (p ∷ ps) = do
  ensure (all (λ q. starts_with q (codes "/")) (p ∷ ps)) (fail exit_config)
  ensure (all (λ q. is_some (canonical_path q)) (p ∷ ps)) (fail exit_config)
  ensure (covers (canonical_prefixes (p ∷ ps)) (canonical_path path)) (fail exit_config)
  ok (p ∷ ps)

unfoldable pub constraints_for :
    (Text → Bool) → Target → Text → List Text → List Text → ℕ → ℕ → Result Failure Constraints
constraints_for method_ok target method extra_methods path_prefixes ttl max_uses = do
  methods ← add_methods method_ok (method ∷ []) extra_methods
  prefixes ← checked_prefixes target.path path_prefixes
  ok (record {
    origins = target.origin ∷ [];
    methods = methods;
    path_prefixes = prefixes;
    ttl_seconds = ttl;
    max_uses = if ltb 0 max_uses then some max_uses else none;
  })
