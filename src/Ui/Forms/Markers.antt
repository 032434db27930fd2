-- ===== src/Ui/Forms/Markers.antt =====
-- The markers of the approval page of server/src/ui/mod.rs name what it was rendered for.
use keychute.Prelude.{
  ℕ, ◌≤◌, ◌≡◌, refl, ap, true, false, Option, none, some, [], ◌∷◌, ◌++◌, arith, Text, ◌==◌, all,
  is_ascii_digit, is_empty, and_true, split_once, drop, take,
}
use keychute.Prelude.Int.{pos}
use keychute.Prelude.Numerals.{decimal, decimal-all_digits, decimal_inj, parse_i32-decimal}
use keychute.Store.{SecretRow, max_int}
use keychute.Ui.Forms.{secret_state_marker, substitute_option_value, parse_substitute_option}

split_once-digits :
    (s t : Text) → all is_ascii_digit s ≡ true → split_once b':' (s ++ b':' ∷ t) ≡ some (s, t)
unfolding split_once
split_once-digits [] t h = refl
split_once-digits (c ∷ s) t h =
    let (digit, rest) = and_true (is_ascii_digit c) _ h in
    let apart : (c == b':') ≡ false = ground arith in rw (apart, split_once-digits s t rest) refl

-- The value of a picker's entry reads back as the version and the name that it was printed from, for
-- a version that an `i32` holds and a name that is not empty.
pub parse-substitute_option_value :
    (s : SecretRow)
    → s.current_version ≤ max_int
    → is_empty s.name ≡ false
    → parse_substitute_option (substitute_option_value s) ≡ some (pos s.current_version, s.name)
unfolding parse_substitute_option substitute_option_value
parse-substitute_option_value s h named =
    rw
      (
        split_once-digits (decimal s.current_version) s.name (decimal-all_digits s.current_version),
        parse_i32-decimal s.current_version h,
        named,
      )
      refl

-- The version of a secret is an `i32`.
abbrev pub InRange : Option SecretRow → Type 0
InRange none = Unit
InRange (some s) = s.current_version ≤ max_int

abbrev pub version_of : Option SecretRow → Option ℕ
version_of none = none
version_of (some s) = some s.current_version

-- The marker says whether a secret is stored, and at which version.
pub marker_inj :
    (o o' : Option SecretRow)
    → InRange o
    → InRange o'
    → secret_state_marker o ≡ secret_state_marker o'
    → version_of o ≡ version_of o'
unfolding secret_state_marker
marker_inj none none h k e = refl
marker_inj (some s) (some s') h k e =
    ap some
      (decimal_inj s.current_version s'.current_version (omega arith) (omega arith) (ap (drop 2) e))
marker_inj none (some s) h k e = let q : 48 ∷ [] ≡ 49 ∷ [] = ap (take 1) e in absurd (ground arith)
marker_inj (some s) none h k e = let q : 49 ∷ [] ≡ 48 ∷ [] = ap (take 1) e in absurd (ground arith)
