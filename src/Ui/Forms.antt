-- ===== src/Ui/Forms.antt =====
-- The fields of the forms of server/src/ui/mod.rs, and the markers that the approval page renders.
pub mod Markers
use keychute.Prelude.{
  ℕ, Bool, true, false, not, Option, none, some, [], ◌∷◌, ◌++◌, Text, codes, text_eq, Result, ok,
  err, ◌>>=◌, ◌>>◌, ensure, ok_or, ltb, ◌==◌, if◌then◌else◌, is_empty, is_some, split_once,
}
use keychute.Prelude.Int.{ℤ}
use keychute.Prelude.Numerals.{decimal, parse_unsigned, parse_i32}
use keychute.Prelude.Trim.{trim}
use keychute.Proxy.Target.{strip_prefix}
use keychute.Store.{SecretRow}
use keychute.Types.{DateTime, Tier}
use keychute.Ui.{Stop, bad_request, invalid_number, not_positive, only_narrow}

pub record ApproveForm : Type 0 where
  pub csrf_token : Text
  pub secret_present : Option Text
  pub ttl_seconds : Option Text
  pub max_uses : Option Text
  pub secret_value : Option Text
  pub substitute_secret : Option Text
  pub store_secret : Option Text
  pub store_max_tier : Option Text
  pub injection_kind : Option Text
  pub injection_header : Option Text
  pub store_description : Option Text

unfoldable pub non_empty : Option Text → Option Text
non_empty none = none
non_empty (some v) = if is_empty (trim v) then none else some (trim v)

-- `unwrap_or`.
abbrev pub or_text : Option Text → Text → Text
or_text none t = t
or_text (some s) t = s

abbrev pub max_u64 : ℕ
max_u64 = 18446744073709551615

abbrev pub max_u32 : ℕ
max_u32 = 4294967295

-- What an operator may write in place of a number of the request.
unfoldable pub parse_narrow_u64 : Option Text → ℕ → Text → Result Stop ℕ
parse_narrow_u64 none requested what = ok requested
parse_narrow_u64 (some raw) requested what = do
  v ← ok_or (parse_unsigned max_u64 raw) (bad_request (invalid_number what))
  ensure (not (v == 0)) (bad_request (not_positive what))
  ensure (not (ltb requested v)) (bad_request (only_narrow what))
  ok v

abbrev stored_at : Option ℤ → Option Bool
stored_at none = none
stored_at (some version) = some true

abbrev after_one : Option Text → Option Bool
after_one none = none
after_one (some version) = stored_at (parse_i32 version)

unfoldable pub parse_secret_present : Option Text → Option Bool
parse_secret_present none = none
parse_secret_present (some s) =
    if text_eq s (codes "0") then some false else after_one (strip_prefix s (codes "1:"))

unfoldable pub secret_state_marker : Option SecretRow → Text
secret_state_marker none = codes "0"
secret_state_marker (some s) = codes "1:" ++ decimal s.current_version

unfoldable pub substitute_option_value : SecretRow → Text
substitute_option_value s = decimal s.current_version ++ b':' ∷ s.name

abbrev named : Option ℤ → Text → Option (ℤ × Text)
named none name = none
named (some version) name = if is_empty name then none else some (version, name)

abbrev versioned : Option (Text × Text) → Option (ℤ × Text)
versioned none = none
versioned (some parts) = named (parse_i32 parts.0) parts.1

unfoldable pub parse_substitute_option : Text → Option (ℤ × Text)
parse_substitute_option raw = versioned (split_once b':' raw)

unfoldable pub take_secret_value : ApproveForm → Option Text
take_secret_value form = elim form.secret_value [
  | none ↦ none
  | some raw ↦ if is_empty raw then none else some raw
]

unfoldable pub policy_cap_elapsed : Option DateTime → DateTime → Bool
policy_cap_elapsed none now = false
policy_cap_elapsed (some cap) now = not (ltb now cap)

unfoldable pub tier_from_str : Text → Option Tier
tier_from_str s =
    if text_eq s (codes "brokered")
    then some Tier.brokered
    else if text_eq s (codes "trusted-client")
    then some Tier.trusted_client
    else if text_eq s (codes "cooperating-client")
    then some Tier.cooperating_client
    else if text_eq s (codes "direct")
    then some Tier.direct
    else none
