-- ===== src/Paths/Prefix/Itself.antt =====
-- A canonical path of types/src/paths.rs is a prefix of itself.
use keychute.Paths.{prefix_matches, has_double_slash}
use keychute.Paths.Canonical.{IsCanonical}
use keychute.Paths.Prefix.{trim, Under-trim, Covers-prefix_matches}
use keychute.Prelude.{
  ◌≡◌, inl, inr, true, false, [], ◌∷◌, arith, Text, codes, is_empty, starts_with, byte_at,
  Bool-cases, trim_end_byte,
}

-- What is trimmed away is slashes, and one at most stands there.
trimmed-root :
    (s : Text)
    → starts_with s (codes "/") ≡ true
    → has_double_slash s ≡ false
    → is_empty (trim s) ≡ true
    → s ≡ codes "/"
unfolding trim trim_end_byte has_double_slash starts_with byte_at
trimmed-root [] r d e = absurd (cc)
trimmed-root (a ∷ []) r d e = ground arith
trimmed-root (a ∷ b ∷ s) r d e = absurd (ground arith)

pub prefix_matches_refl : (s : Text) → IsCanonical s → prefix_matches s s ≡ true
prefix_matches_refl s c = Covers-prefix_matches s s (elim (Bool-cases (is_empty (trim s))) [
  | inl e ↦ inl (trimmed-root s c.rooted c.no_empty_segment e)
  | inr e ↦ inr (e, Under-trim s)
])
