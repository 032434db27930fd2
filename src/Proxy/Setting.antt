-- ===== src/Proxy/Setting.antt =====
-- One run of the proxy in server/src/proxy.rs: what it is given, and the values it passes on. The URL
-- package, the signer of server/src/sigv4.rs, the HTTP client and the decryption are parameters.
use keychute.Policy.Scope.{Call}
use keychute.Prelude.{ℕ, Bool, Option, List, Text}
use keychute.Proxy.Headers.{HeaderMap}
use keychute.Proxy.Injection.{Scope, InjectionSpec}
use keychute.Store.{Db, GrantRow, SecretRow, SecretVersionRow}
use keychute.Types.{Uuid, DateTime}

-- A URL of the package: its text, path and query.
pub record Url : Type 0 where
  pub text : Text
  pub path : Text
  pub query : Option Text

-- What the signer returns.
pub record Signed : Type 0 where
  pub authorization : Text
  pub amz_date : Text
  pub content_sha256 : Text

-- A request that leaves the process.
pub record Sent : Type 0 where
  pub call : Call
  pub url : Url
  pub headers : HeaderMap
  pub body : Text
  pub grant : GrantRow
  pub version_id : Uuid

pub record Upstream : Type 0 where
  pub status : ℕ
  pub headers : HeaderMap

pub data Exchange : Type 0 where
  timed_out unreachable : Exchange
  responded : Upstream → Exchange

-- `parse_url` parses an origin, sets the path and sets the query.
pub record Setting : Type 0 where
  pub others : ℕ → Db → Db
  pub clock : ℕ → DateTime
  pub client_name : Text
  pub replay_window_seconds : ℕ
  pub proxy_max_body_bytes : ℕ
  pub is_method : Text → Bool
  pub slot_free : Bool
  pub parse_uuid : Text → Option Uuid
  pub to_str : Text → Option Text
  pub header_name : Text → Option Text
  pub header_value : Text → Option Text
  pub base64 : Text → Text
  pub parse_url : Text → Text → Option Text → Option Url
  pub open_keyset : SecretVersionRow → Option Text
  pub sign : Scope → Text → Text → Url → List (Text × Text) → Text → Signed
  pub exchange : Sent → Exchange
  pub audit_arrives : Bool

-- What is known before a use is accounted.
pub record Ready : Type 0 where
  pub grant : GrantRow
  pub secret : SecretRow
  pub call : Call
  pub body : Text
  pub version : SecretVersionRow
  pub spec : InjectionSpec
  pub url : Url
