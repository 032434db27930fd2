-- ===== src/Ui/Csrf.antt =====
-- server/src/ui/csrf.rs: the tokens of the forms and the browser's metadata. `csrf_mac` is the
-- keyset's MAC; base64 and the URL parser are packages.
pub mod Binding
use keychute.Crypto.{ct_eq}
use keychute.Prelude.{
  ℕ, zero, suc, ◌+◌, ◌-◌, ◌*◌, ◌/◌, ◌%◌, Bool, true, false, not, ◌&&◌, ◌||◌, Option, none, some,
  List, [], ◌∷◌, ◌++◌, Text, codes, text_eq, to_ascii_lowercase, ltb, leb, ◌==◌, if◌then◌else◌,
  length, take, drop, is_empty, is_some, find,
}
use keychute.Prelude.Bytes.{be_bytes, from_be}
use keychute.Prelude.Int.{ℤ, pos, negsuc}
use keychute.Prelude.Numerals.{decimal}
use keychute.Prelude.Trim.{trim}
use keychute.Proxy.Headers.{HeaderMap}
use keychute.Types.{DateTime, second}

abbrev pub csrf_ttl_seconds : ℕ
csrf_ttl_seconds = 900

-- `timestamp`.
abbrev pub timestamp : DateTime → ℕ
timestamp now = now / second

-- What a token stands for.
pub record Form : Type 0 where
  pub route : Text
  pub action_id : Text
  pub subject : Text
  pub form_state : Text

-- `to_string` of an `i64`.
abbrev pub signed_decimal : ℤ → Text
signed_decimal (pos n) = decimal n
signed_decimal (negsuc n) = b'-' ∷ decimal (suc n)

unfoldable pub mac_input : Form → ℤ → Text
mac_input f expiry_unix =
    f.route
    ++ 0 ∷ (f.action_id ++ 0 ∷ (f.subject ++ 0 ∷ (f.form_state ++ 0 ∷ signed_decimal expiry_unix)))

abbrev two_63 : ℕ
two_63 = 9223372036854775808

-- `i64::from_be_bytes`, in two's complement.
abbrev pub i64_of : ℕ → ℤ
i64_of n = if ltb n two_63 then pos n else negsuc (two_63 + two_63 - 1 - n)

-- `ts >= expiry || expiry - ts > CSRF_TTL_SECONDS`.
abbrev pub out_of_date : ℕ → ℤ → Bool
out_of_date ts (pos expiry) = leb expiry ts || ltb csrf_ttl_seconds (expiry - ts)
out_of_date ts (negsuc _) = true

module _ (csrf_mac : Text → Text) where
  unfoldable pub issue_token : (Text → Text) → Form → DateTime → Text
  issue_token base64_encode f now =
      let expiry = timestamp now + csrf_ttl_seconds in
      base64_encode (be_bytes 8 expiry ++ csrf_mac (mac_input f (pos expiry)))

  abbrev pub verify_raw : Form → DateTime → Text → Bool
  verify_raw f now raw =
      let expiry = i64_of (from_be 0 (take 8 raw)) in
      length raw == 40
      && not (out_of_date (timestamp now) expiry)
      && ct_eq (drop 8 raw) (csrf_mac (mac_input f expiry))

  unfoldable pub verify_token : (Text → Option Text) → Form → Text → DateTime → Bool
  verify_token base64_decode f token now = elim (base64_decode token) [
    | none ↦ false
    | some raw ↦ verify_raw f now raw
  ]

-- What the URL parser says of an absolute URL; the port is the written or the scheme's own.
pub record Url : Type 0 where
  pub scheme : Text
  pub username : Text
  pub password : Option Text
  pub host_str : Option Text
  pub port_or_known_default : Option ℕ

pub record UrlOrigin : Type 0 where
  pub scheme : Text
  pub host : Text
  pub port : ℕ

abbrev same_origin : UrlOrigin → UrlOrigin → Bool
same_origin a b = text_eq a.scheme b.scheme && text_eq a.host b.host && a.port == b.port

abbrev with_port : Url → Option Text → Option ℕ → Option UrlOrigin
with_port url none port = none
with_port url (some host) none = none
with_port url (some host) (some port) =
    some (record { scheme = url.scheme; host = to_ascii_lowercase host; port = port })

abbrev origin_of : Option Url → Option UrlOrigin
origin_of none = none
origin_of (some url) =
    if not (text_eq url.scheme (codes "http") || text_eq url.scheme (codes "https"))
    then none
    else if not (is_empty url.username) || is_some url.password
    then none
    else with_port url url.host_str url.port_or_known_default

module _ (parse_url : Text → Option Url) (to_str : Text → Option Text) where
  unfoldable pub parse_origin : Text → Option UrlOrigin
  parse_origin s = origin_of (parse_url (trim s))

  abbrev pub header_value : HeaderMap → Text → Option Text
  header_value headers name = elim (find (λ h. text_eq h.0 name) headers) [
    | none ↦ none
    | some h ↦ some h.1
  ]

  abbrev is_origin : UrlOrigin → Option UrlOrigin → Bool
  is_origin got none = false
  is_origin got (some o) = same_origin got o

  -- The origin that the request's own Host stands for.
  abbrev pub own_origin : Bool → HeaderMap → Option UrlOrigin
  own_origin tls headers = elim (header_value headers (codes "host")) [
    | none ↦ none
    | some value ↦ elim (to_str value) [
      | none ↦ none
      | some host ↦
          parse_origin ((if tls then codes "https" else codes "http") ++ (codes "://" ++ host))
    ]
  ]

  abbrev pub origin_ok : Text → Bool → HeaderMap → Option Text → Bool
  origin_ok external_url tls headers none = false
  origin_ok external_url tls headers (some origin) = elim (parse_origin origin) [
    | none ↦ false
    | some got ↦ is_origin got (parse_origin external_url) || is_origin got (own_origin tls headers)
  ]

  abbrev pub site_ok : Option Text → Bool
  site_ok none = false
  site_ok (some site) =
      text_eq (to_ascii_lowercase site) (codes "same-origin")
      || text_eq (to_ascii_lowercase site) (codes "none")

  unfoldable pub browser_metadata_ok : Text → Bool → HeaderMap → Bool
  browser_metadata_ok external_url tls headers = elim (header_value headers (codes "origin")) [
    | some origin ↦ origin_ok external_url tls headers (to_str origin)
    | none ↦ elim (header_value headers (codes "sec-fetch-site")) [
      | none ↦ true
      | some site ↦ site_ok (to_str site)
    ]
  ]
