-- ===== src/SigV4/Encoding.antt =====
-- Encoding a canonical path and canonicalising it again.
use keychute.Paths.{canonicalize, plain, decode, hex_val}
use keychute.Paths.Canonical.{
  canonicalize_of_decode, decode-nil, Bytes, NoBackslash, IsCanonical, decode-plain, decode-escape,
}
use keychute.Prelude.{
  starts_with, ℕ, ◌/◌, ◌%◌, ◌<◌, ◌≡◌, refl, ap, ◌∙◌, ◌≢◌, inl, inr, true, ◌&&◌, ◌||◌, some, [], ◌∷◌,
  arith, Text, codes, ok, ◌==◌, Bool-cases,
}
use keychute.SigV4.{wire_path, is_unreserved, percent, upper_hex, uri_encode}

hex_val-upper_hex : (n : ℕ) → n < 16 → hex_val (upper_hex n) ≡ some n
hex_val-upper_hex n h = ground arith

decode-percent :
    (b : ℕ) (rest s : Text)
    → b < 256
    → b ≢ b'/'
    → b ≢ 92
    → decode rest ≡ ok s
    → decode (percent b rest) ≡ ok (b ∷ s)
decode-percent b rest s small slash back h =
    rw (decode-escape (upper_hex (b / 16)) (upper_hex (b % 16)) rest, h)
      (rw (hex_val-upper_hex (b / 16) (omega arith), hex_val-upper_hex (b % 16) (omega arith))
        (ground arith))

plain-of_ok : (b : ℕ) (s : Text) → b ≢ 92 → plain b (ok s) ≡ ok (b ∷ s)
plain-of_ok b s h = ground arith

decode-uri_encode : (s : Text) → Bytes s → NoBackslash s → decode (uri_encode s true) ≡ ok s
unfolding uri_encode
decode-uri_encode [] small back = decode-nil
decode-uri_encode (b ∷ s) (small, smalls) (back, backs) =
    let ih = decode-uri_encode s smalls backs in
    elim (Bool-cases (is_unreserved b || (true && b == b'/'))) [
      | inl e ↦ rw e (
          decode-plain b (uri_encode s true) (ground arith)
          ∙ ap (plain b) ih
          ∙ plain-of_ok b s back)
      | inr e ↦ rw e (decode-percent b (uri_encode s true) s small (ground arith) back ih)
    ]

uri_encode-rooted :
    (s : Text)
    → starts_with s (codes "/") ≡ true
    → starts_with (uri_encode s true) (codes "/") ≡ true
unfolding uri_encode starts_with
uri_encode-rooted [] h = absurd (ground arith)
uri_encode-rooted (b ∷ s) h = ground arith

wire_path-uri_encode :
    (s : Text) → starts_with s (codes "/") ≡ true → wire_path s ≡ uri_encode s true
unfolding wire_path starts_with
wire_path-uri_encode [] h = absurd (ground arith)
wire_path-uri_encode (b ∷ s) h = refl

-- The path that is signed and sent decodes to the path that was authorised: canonicalising the
-- encoding of a canonical byte string gives that string back.
pub canonicalize-wire_path :
    (s : Text) → Bytes s → IsCanonical s → canonicalize (wire_path s) ≡ ok s
canonicalize-wire_path s small c = rw (wire_path-uri_encode s c.rooted) (
    canonicalize_of_decode (uri_encode s true) s (uri_encode-rooted s c.rooted)
      (decode-uri_encode s small c.no_backslash) c)
