-- ===== src/Proxy/Template.antt =====
-- server/src/injection.rs: the validation of an injection template where it is written.
pub mod Usable
use keychute.Policy.{is_tchar}
use keychute.Prelude.{
  ℕ, Bool, true, false, not, ◌&&◌, ◌||◌, Option, none, some, List, [], ◌∷◌, Text, codes, text_eq,
  has_byte, all, one_of, starts_with, to_ascii_lowercase, Result, ok, err, ◌>>=◌, ◌>>◌, ensure,
  ok_or, or_err, ltb, leb, ◌==◌, length, is_empty, is_some, if◌then◌else◌,
}
use keychute.SigV4.{validate_access_key_id, parse_scope}

abbrev pub max_injection_field_bytes : ℕ
max_injection_field_bytes = 128

pub data InjectionError : Type 0 where
  scope_not_allowed header_required name_too_long invalid_name reserved : InjectionError
  username_required username_too_long invalid_username key_id_required : InjectionError
  invalid_key_id scope_required invalid_scope unknown_kind : InjectionError

abbrev pub reserved_headers : List Text
reserved_headers =
    codes "host"
    ∷ codes "authorization"
    ∷ codes "proxy-authorization"
    ∷ codes "cookie"
    ∷ codes "set-cookie"
    ∷ codes "forwarded"
    ∷ codes "x-real-ip"
    ∷ codes "x-http-method-override"
    ∷ codes "x-method-override"
    ∷ codes "x-original-url"
    ∷ codes "x-rewrite-url"
    ∷ codes "x-original-method"
    ∷ codes "connection"
    ∷ codes "keep-alive"
    ∷ codes "proxy-connection"
    ∷ codes "te"
    ∷ codes "trailer"
    ∷ codes "transfer-encoding"
    ∷ codes "upgrade"
    ∷ codes "content-length"
    ∷ codes "expect"
    ∷ []

abbrev pub is_reserved : Text → Bool
is_reserved n = one_of reserved_headers n || starts_with n (codes "x-forwarded-")

abbrev is_c1 : Text → Bool
is_c1 [] = false
is_c1 (b ∷ s) = leb 128 b && leb b 159

-- `chars().any(char::is_control)`, on the UTF-8 bytes.
unfoldable pub has_control : Text → Bool
has_control [] = false
has_control (b ∷ s) = ltb b 32 || b == 127 || (b == 194 && is_c1 s) || has_control s

abbrev pub is_token : Text → Bool
is_token name = not (is_empty name) && all is_tchar name

abbrev pub Template : Type 0
Template = Text × (Option Text × Option Text)

-- The kind, the header column and the username column.
unfoldable pub validate_header : Option Text → Result InjectionError Template
validate_header given = do
  name ← ok_or given header_required
  ensure (leb (length name) max_injection_field_bytes) name_too_long
  ensure (is_token name) invalid_name
  ensure (not (is_reserved (to_ascii_lowercase name))) reserved
  ok (codes "header", (some name, none))

unfoldable pub validate_basic : Option Text → Result InjectionError Template
validate_basic given = do
  username ← ok_or given username_required
  ensure (leb (length username) max_injection_field_bytes) username_too_long
  ensure (not (has_byte b':' username || has_control username)) invalid_username
  ok (codes "basic", (none, some username))

unfoldable pub validate_sigv4 : Option Text → Option Text → Result InjectionError Template
validate_sigv4 given scope = do
  id ← ok_or given key_id_required
  or_err (validate_access_key_id id) invalid_key_id
  region ← ok_or scope scope_required
  parts ← or_err (parse_scope region) invalid_scope
  ok (codes "aws-sigv4", (some region, some id))

abbrev pub by_kind : Text → Option Text → Option Text → Result InjectionError Template
by_kind kind header scope =
    if text_eq kind (codes "bearer")
    then ok (codes "bearer", (none, none))
    else if text_eq kind (codes "header")
    then validate_header header
    else if text_eq kind (codes "basic") || text_eq kind (codes "basic-password")
    then validate_basic header
    else if text_eq kind (codes "aws-sigv4")
    then validate_sigv4 header scope
    else err unknown_kind

unfoldable pub validate_injection :
    Text → Option Text → Option Text → Result InjectionError Template
validate_injection kind header scope = do
  ensure (not (is_some scope && not (text_eq kind (codes "aws-sigv4")))) scope_not_allowed
  by_kind kind header scope
