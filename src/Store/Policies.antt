-- ===== src/Store/Policies.antt =====
-- The rows of server/src/db/policies.rs, as the database holds them.
use keychute.Prelude.{Bool, Option, List, Text}
use keychute.Prelude.Int.{ℤ}
use keychute.Types.{Uuid, DateTime, Origin}

-- `origins` is what the JSON column decodes to, `none` where it does not.
pub record PolicyRow : Type 0 where
  pub id : Uuid
  pub client_name : Option Text
  pub secret_name : Option Text
  pub secret_tag : Option Text
  pub mechanism : Text
  pub outcome : Text
  pub priority : ℤ
  pub origins : Option (List Origin)
  pub methods : List Text
  pub path_prefixes : List Text
  pub max_ttl_seconds : Option ℤ
  pub max_uses : Option ℤ
  pub not_after : Option DateTime
  pub created_by : Text
  pub created_at : DateTime
  pub managed_by_config : Bool
