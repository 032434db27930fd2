-- ===== src/Cli.antt =====
-- cli/src/curl.rs: `keychute curl`, up to the request that it sends: what it asks a grant for, what it
-- checks a grant for, the body that it reads, and the key that binds a retry to its call.
pub mod Preflight
pub mod Constraints
pub mod Body
pub mod Key
pub mod Options
pub mod Request
use mathlib.Core.Option
use keychute.Paths.{canonicalize, prefix_matches}
use keychute.Prelude.{
  ℕ, Bool, true, false, not, ◌&&◌, ◌||◌, Option, none, some, List, [], ◌∷◌, ◌++◌, Text, codes,
  text_eq, to_ascii_uppercase, Result, ok, err, ◌>>=◌, ◌>>◌, ensure, leb, length,
}
use keychute.Prelude.Trim.{trim}
use keychute.Types.{Origin}

-- A `Failure` without its message: the exit code.
abbrev pub exit_other : ℕ
exit_other = 1

abbrev pub exit_config : ℕ
exit_config = 2

abbrev pub exit_timeout : ℕ
exit_timeout = 4

pub record Failure : Type 0 where
  pub code : ℕ

abbrev pub fail : ℕ → Failure
fail code = record { code = code }

-- Where the call goes; path and query as they were written.
pub record Target : Type 0 where
  pub origin : Origin
  pub path : Text
  pub query : Option Text

abbrev pub max_method_bytes : ℕ
max_method_bytes = 64

-- `method_ok` is `reqwest::Method::from_bytes`.
unfoldable pub normalize_method : (Text → Bool) → Text → Result Failure Text
normalize_method method_ok m = do
  let upper = to_ascii_uppercase (trim m)
  ensure (method_ok upper) (fail exit_config)
  ensure (leb (length upper) max_method_bytes) (fail exit_config)
  ensure (not (text_eq upper (codes "CONNECT"))) (fail exit_config)
  ensure (not (text_eq upper (codes "TRACE"))) (fail exit_config)
  ok upper

abbrev pub canonical_path : Text → Option Text
canonical_path raw = elim (canonicalize raw) [ ok path ↦ some path | err e ↦ none ]

abbrev pub path_covered : Text → Text → Bool
path_covered prefix path = prefix_matches prefix path
