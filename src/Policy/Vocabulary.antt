-- ===== src/Policy/Vocabulary.antt =====
-- The vocabulary of policy rows: the HTTP methods that server/src/policy/mod.rs admits and the
-- outcomes that it orders.
use keychute.Prelude.{
  ℕ, Bool, true, false, not, ◌&&◌, ◌||◌, Option, none, some, Text, codes, leb, ◌==◌, if◌then◌else◌,
  length, is_empty, all, is_ascii_alphanumeric, text_eq,
}

abbrev pub max_http_method_len : ℕ
max_http_method_len = 64

-- `!`, `#` to `'`, `*`, `+`, `-`, `.`, `^`, `_`, a backquote, `|`, `~`, letters and digits.
abbrev pub is_tchar : ℕ → Bool
is_tchar b =
    is_ascii_alphanumeric b
    || (b == 33
        || (leb 35 b && leb b 39)
        || b == 42
        || b == 43
        || b == 45
        || b == 46
        || b == 94
        || b == 95
        || b == 96
        || b == 124
        || b == 126)

unfoldable pub is_valid_http_method : Text → Bool
is_valid_http_method s = not (is_empty s) && leb (length s) max_http_method_len && all is_tchar s

pub data Outcome : Type 0 where
  auto_approve notify_only require_approval deny : Outcome

unfoldable pub outcome_from_str : Text → Option Outcome
unfolding text_eq
outcome_from_str s =
    if text_eq s (codes "auto-approve")
    then some auto_approve
    else if text_eq s (codes "notify-only")
    then some notify_only
    else if text_eq s (codes "require-approval")
    then some require_approval
    else if text_eq s (codes "deny")
    then some deny
    else none

abbrev pub outcome_as_str : Outcome → Text
outcome_as_str auto_approve = codes "auto-approve"
outcome_as_str notify_only = codes "notify-only"
outcome_as_str require_approval = codes "require-approval"
outcome_as_str deny = codes "deny"

abbrev pub restrictiveness : Outcome → ℕ
restrictiveness auto_approve = 0
restrictiveness notify_only = 1
restrictiveness require_approval = 2
restrictiveness deny = 3

abbrev pub is_deny : Outcome → Bool
is_deny deny = true
is_deny _ = false
