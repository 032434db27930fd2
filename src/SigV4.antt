-- ===== src/SigV4.antt =====
-- server/src/sigv4.rs: the template's validation and the path encoding of AWS Signature Version 4.
pub mod Encoding
use keychute.Prelude.{
  is_ascii_digit, text_eq, is_ascii_alphanumeric, is_ascii_lowercase, split_once, ℕ, zero, suc, ◌+◌,
  ◌-◌, ◌*◌, ◌/◌, ◌%◌, ◌≤◌, ◌<◌, ◌≡◌, refl, sym, ap, ◌∙◌, ◌≢◌, ◌↔◌, ◌⊎◌, inl, inr, Bool, true, false,
  not, ◌&&◌, ◌||◌, Option, none, some, List, [], ◌∷◌, ◌++◌, map, arith, Text, codes, Result, ok,
  err, ◌>>=◌, ◌>>◌, ensure, ok_or, ltb, leb, ◌==◌, if◌then◌else◌, Bool-cases, Option-cases, length,
  is_empty, any, all, In,
}

abbrev pub max_scope_part_bytes : ℕ
max_scope_part_bytes = 64

pub data SigV4Error : Type 0 where
  key_id_length key_id_characters scope_shape scope_part service_unsupported : SigV4Error

unfoldable pub validate_access_key_id : Text → Result SigV4Error (Unit {0})
validate_access_key_id id = do
  ensure (not (is_empty id || ltb 128 (length id))) key_id_length
  ensure (all (λ b. is_ascii_alphanumeric b || b == b'-' || b == b'_') id) key_id_characters

abbrev pub is_scope_part : Text → Bool
is_scope_part part =
    not (is_empty part || ltb max_scope_part_bytes (length part))
    && all (λ b. is_ascii_lowercase b || is_ascii_digit b || b == b'-') part

unfoldable pub parse_scope : Text → Result SigV4Error (Text × Text)
unfolding split_once text_eq
parse_scope scope = do
  parts ← ok_or (split_once b'/' scope) scope_shape
  ensure (is_scope_part parts.0) scope_part
  ensure (is_scope_part parts.1) scope_part
  ensure (text_eq parts.1 (codes "s3")) service_unsupported
  ok parts

abbrev pub is_unreserved : ℕ → Bool
is_unreserved b = is_ascii_alphanumeric b || b == b'-' || b == b'.' || b == b'_' || b == b'~'

-- One digit of `{:02X}`.
abbrev pub upper_hex : ℕ → ℕ
upper_hex n = if ltb n 10 then n + b'0' else n + 55

abbrev pub percent : ℕ → Text → Text
percent b rest = b'%' ∷ upper_hex (b / 16) ∷ upper_hex (b % 16) ∷ rest

-- The bytes of the input are below 256.
unfoldable pub uri_encode : Text → Bool → Text
uri_encode [] keep_slash = []
uri_encode (b ∷ input) keep_slash =
    let rest = uri_encode input keep_slash in
    if is_unreserved b || (keep_slash && b == b'/') then b ∷ rest else percent b rest

unfoldable pub wire_path : Text → Text
unfolding uri_encode
wire_path decoded_path = if is_empty decoded_path then codes "/" else uri_encode decoded_path true
