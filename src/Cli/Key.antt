-- ===== src/Cli/Key.antt =====
-- `call_bound_idempotency_key` of cli/src/curl.rs. SHA-256 in hexadecimal is a package's.
pub mod Bound
use keychute.Cli.{Target}
use keychute.Prelude.{
  ℕ, Bool, true, false, Option, none, some, List, [], ◌∷◌, ◌++◌, Text, length, take, if◌then◌else◌,
}
use keychute.Prelude.Bytes.{be_bytes, sized}
use keychute.Proxy.Target.{to_display}

-- The call that a run makes.
pub record Call : Type 0 where
  pub method : Text
  pub target : Target
  pub headers : List (Text × Text)
  pub body : Option Text
  pub suppress_user_agent : Bool

abbrev pub call_binding_hex_chars : ℕ
call_binding_hex_chars = 32

-- Absent and empty differ.
abbrev pub optional : Option Text → Text
optional none = 0 ∷ []
optional (some s) = 1 ∷ sized s

unfoldable pub header_fields : List (Text × Text) → Text
header_fields [] = []
header_fields (h ∷ headers) = sized h.0 ++ (sized h.1 ++ header_fields headers)

-- What the hash is taken of.
unfoldable pub preimage : Call → Text
preimage c =
    sized c.method
    ++ (sized (to_display c.target.origin)
        ++ (sized c.target.path
            ++ (optional c.target.query
                ++ (be_bytes 8 (length c.headers)
                    ++ (header_fields c.headers
                        ++ (optional c.body ++ ((if c.suppress_user_agent then 1 else 0) ∷ [])))))))

unfoldable pub call_bound_idempotency_key : (Text → Text) → Text → Call → Text
call_bound_idempotency_key sha256_hex user_key c =
    user_key ++ b'-' ∷ take call_binding_hex_chars (sha256_hex (preimage c))
