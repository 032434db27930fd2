-- ===== src/Ui/Terms/Guarded.antt =====
-- The first guards of `approve` in server/src/ui/mod.rs.
use keychute.Crypto.{csrf_mac}
use keychute.Prelude.{
  ◌≡◌, refl, Bool, true, ◌&&◌, Text, ok, ensure, ok_inj, >>=-eq-ok, ensure-eq-ok, ltb, is_some,
  and_true,
}
use keychute.Store.{AccessRequestRow}
use keychute.Store.Requests.{is_pending}
use keychute.Types.{Uuid, DateTime}
use keychute.Ui.{
  bad_request, conflict, ui_error, cross_origin, malformed_form, not_pending, Operator,
}
use keychute.Ui.Between.{Setting, check_post}
use keychute.Ui.Csrf.{Form, verify_token, browser_metadata_ok}
use keychute.Ui.Forms.{ApproveForm, non_empty, parse_secret_present}
use keychute.Ui.Terms.{identify, approve_form, still_pending}

module _ (w : Setting) where
  abbrev pub is_authentic : Form → Text → Bool
  is_authentic form token =
      verify_token (csrf_mac w.packages w.keyset) w.base64_url_decode form token w.process_now

  abbrev pub is_same_site : Bool
  is_same_site = browser_metadata_ok w.parse_url w.to_str w.external_url w.tls w.headers

  -- A POST that passes the guard.
  pub check_post-guarded :
      (form : Form) (token : Text) {u : Unit {0}}
      → check_post w form token ≡ ok u
      → (is_authentic form token ≡ true) × (is_same_site ≡ true)
  unfolding check_post
  check_post-guarded form token h =
      let (u, site, rest) = >>=-eq-ok (ensure is_same_site (ui_error 403 cross_origin)) _ h in
      (ensure-eq-ok (is_authentic form token) _ rest, ensure-eq-ok is_same_site _ site)

  pub identify-guarded :
      (id : Uuid) (form : ApproveForm) (op : Operator)
      → identify w id form ≡ ok op
      → (is_authentic (approve_form w id op form) form.csrf_token ≡ true) × (is_same_site ≡ true)
  unfolding identify
  identify-guarded id form op h =
      let (op', known, h1) = >>=-eq-ok w.operator _ h in
      let (u, guarded, h2) =
        >>=-eq-ok (check_post w (approve_form w id op' form) form.csrf_token) _ h1 in
      let (u', parsed, h3) =
        >>=-eq-ok
          (ensure (is_some (parse_secret_present (non_empty form.secret_present)))
            (bad_request malformed_form))
          _ h2 in
      let same = ok_inj op' op _ refl h3 in
      rw (← same) (check_post-guarded (approve_form w id op' form) form.csrf_token guarded)

pub still_pending-pending :
    (now : DateTime) (row : AccessRequestRow) {u : Unit {0}}
    → still_pending now row ≡ ok u
    → is_pending row.state ≡ true
unfolding still_pending
still_pending-pending now row h =
    let (u, first, rest) =
      >>=-eq-ok (ensure (is_pending row.state && ltb now row.expires_at) (conflict not_pending)) _
        h in
    (and_true (is_pending row.state) _ (ensure-eq-ok _ _ first)).0
