-- ===== src/Tests/Paths.antt =====
-- types/src/paths.rs and the path encoding of server/src/sigv4.rs at concrete paths.
use keychute.Paths.{canonicalize, prefix_matches, decode, chars, check_decoded, has_double_slash}
use keychute.Paths.Canonical.{IsCanonical, Bytes, canonicalize-IsCanonical}
use keychute.Paths.Prefix.{prefix_matches_iff}
use keychute.Prelude.{
  ◌≡◌, ◌↔◌, ◌⊎◌, refl, true, ◌++◌, ◌∷◌, arith, Text, codes, ok, text_eq, starts_with, byte_at,
  trim_end_byte, split_byte, before_byte,
}
use keychute.SigV4.{wire_path}
use keychute.SigV4.Encoding.{canonicalize-wire_path}

abbrev slashed : Text
slashed = codes "/v1/account/"

abbrev below : Text
below = codes "/v1/account/x"

trimmed : trim_end_byte b'/' (codes "/v1") ≡ codes "/v1"
unfolding trim_end_byte
trimmed = refl

prefix_matches_iff_example :
    (prefix_matches (codes "/v1") below ≡ true)
    ↔ ((below ≡ codes "/v1") ⊎ ((rest : Text) × (below ≡ codes "/v1" ++ b'/' ∷ rest)))
prefix_matches_iff_example = prefix_matches_iff (codes "/v1") below trimmed (λ e. ground arith)

abbrev spaced : Text
spaced = codes "/a b/caf"

accepted : canonicalize (codes "/a%20b/c%61f") ≡ ok spaced
unfolding canonicalize starts_with decode check_decoded chars split_byte text_eq before_byte
    has_double_slash byte_at
accepted = refl

canonicalize-IsCanonical_example : IsCanonical spaced × Bytes spaced
canonicalize-IsCanonical_example =
    canonicalize-IsCanonical (codes "/a%20b/c%61f") spaced (omega arith) accepted

canonicalize-wire_path_example : canonicalize (wire_path spaced) ≡ ok spaced
canonicalize-wire_path_example =
    canonicalize-wire_path spaced canonicalize-IsCanonical_example.1
      canonicalize-IsCanonical_example.0
