-- ===== src/Ui/Between.antt =====
-- The handlers of server/src/ui/mod.rs over time, one run of them, and the guard of every POST.
use keychute.Store.Policies
use keychute.Between.{Run, Raises}
use keychute.Crypto.{Packages, Keyset, Draws, csrf_mac}
use keychute.Prelude.{ℕ, Bool, List, Option, Text, Result, ◌>>◌, ensure}
use keychute.Proxy.Headers.{HeaderMap}
use keychute.Store.{Db}
use keychute.Types.{Uuid, DateTime}
use keychute.Ui.{Stop, ui_error, internal, Operator, cross_origin, bad_form_token}
use keychute.Ui.Csrf.{Form, Url, browser_metadata_ok, verify_token}

abbrev pub Handler : Type 0 → Type 0
Handler A = Run Stop A

instance abbrev pub ui_raises : Raises Stop
ui_raises = record { raise = λ e. internal }

-- One run: what authentication, the configuration and the packages say, what is drawn, the policy
-- table that is read, the time of each access and of the process, and what other requests commit.
pub record Setting : Type 0 where
  pub operator : Result Stop Operator
  pub external_url : Text
  pub tls : Bool
  pub headers : HeaderMap
  pub parse_url : Text → Option Url
  pub to_str : Text → Option Text
  pub base64_url_decode : Text → Option Text
  pub packages : Packages
  pub keyset : Keyset
  pub ephemeral_kek : Text
  pub draws : Draws
  pub grant_id : Uuid
  pub secret_id : Uuid
  pub version_id : Uuid
  pub policies : List Policies.PolicyRow
  pub max_utc : DateTime
  -- How many seconds `DateTime::<Utc>::MIN_UTC` is before the epoch.
  pub seconds_before_epoch : ℕ
  pub process_now : DateTime
  pub others : ℕ → Db → Db
  pub clock : ℕ → DateTime

unfoldable pub check_post : Setting → Form → Text → Result Stop (Unit {0})
check_post w form token = do
  ensure (browser_metadata_ok w.parse_url w.to_str w.external_url w.tls w.headers)
      (ui_error 403 cross_origin)
  ensure (verify_token (csrf_mac w.packages w.keyset) w.base64_url_decode form token w.process_now)
      (ui_error 403 bad_form_token)
