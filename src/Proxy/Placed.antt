-- ===== src/Proxy/Placed.antt =====
-- The URL and the credential's headers in server/src/proxy.rs: `outbound_url`, the part of
-- `handle_inner` that checks the template, `sigv4_headers`, and the injection.
use keychute.Api.{ApiFailure, internal, inconsistent, invalid_request, bad_credential_encoding}
use keychute.Policy.Scope.{Call}
use keychute.Prelude.{
  Bool, not, ◌&&◌, Option, none, some, List, [], ◌∷◌, ◌++◌, Text, codes, starts_with, Result, ok,
  err, ◌>>=◌, ◌>>◌, ensure, ok_or, ◌==◌, is_some, if◌then◌else◌,
}
use keychute.Proxy.Headers.{HeaderMap, build_outbound_headers}
use keychute.Proxy.Injection.{
  Scope, InjectionSpec, aws_sig_v4, is_sigv4, owned_headers, spec_of, validate, injection_header,
}
use keychute.Proxy.Setting.{Setting, Url, Signed, Ready}
use keychute.Proxy.Target.{Request, to_display}
use keychute.SigV4.{wire_path}
use keychute.Store.{SecretRow}
use keychute.Types.{Origin}

-- `replace('%', "%25")`.
unfoldable pub escape_percent : Text → Text
escape_percent [] = []
escape_percent (b ∷ s) =
    let rest = escape_percent s in if b == b'%' then codes "%25" ++ rest else b ∷ rest

module _ (w : Setting) where
  unfoldable pub outbound_url : Origin → Text → Option Text → Bool → Option Url
  outbound_url origin canonical_path query sigv4_path =
      w.parse_url (to_display origin)
        (if sigv4_path then wire_path canonical_path else escape_percent canonical_path) query

  -- Where the credential goes, and to which URL.
  unfoldable pub placed_at : Request → Call → SecretRow → Result ApiFailure (InjectionSpec × Url)
  placed_at req call secret = do
    spec ← spec_of secret
    name ← validate w.header_name spec
    ensure (not (is_sigv4 spec && is_some req.query))
        (invalid_request (codes "aws-sigv4 grants do not forward a query string"))
    url ←
        ok_or (outbound_url call.origin call.path req.query (is_sigv4 spec))
          (internal (inconsistent (codes "origin parse")))
    ok (spec, url)

  -- `sigv4_headers`: every `x-amz-*` header that survived is signed, and has to be a string.
  unfoldable pub signed_extra : HeaderMap → Result ApiFailure (List (Text × Text))
  signed_extra [] = ok []
  signed_extra (h ∷ headers) =
      let rest = signed_extra headers in
      if starts_with h.0 (codes "x-amz-")
      then elim (w.to_str h.1) [
        | none ↦ err (invalid_request (codes "x-amz-* header is not visible ASCII"))
        | some v ↦ elim rest [ ok extra ↦ ok ((h.0, v) ∷ extra) | err e ↦ err e ]
      ]
      else rest

  abbrev signed_headers : Signed → Result ApiFailure HeaderMap
  signed_headers s = elim (w.header_value s.authorization) [
    | none ↦ err bad_credential_encoding
    | some authorization ↦ elim (w.header_value s.amz_date) [
      | none ↦ err (internal (inconsistent (codes "x-amz-date")))
      | some date ↦ elim (w.header_value s.content_sha256) [
        | none ↦ err (internal (inconsistent (codes "x-amz-content-sha256")))
        | some hash ↦ ok (
            (codes "authorization", authorization)
            ∷ (codes "x-amz-date", date)
            ∷ (codes "x-amz-content-sha256", hash)
            ∷ [])
      ]
    ]
  ]

  unfoldable pub sigv4_headers :
      Scope → Text → Text → Url → HeaderMap → Text → Result ApiFailure HeaderMap
  sigv4_headers scope secret method url outbound payload = elim (signed_extra outbound) [
    | err e ↦ err e
    | ok extra ↦ signed_headers (w.sign scope secret method url extra payload)
  ]

  -- The outbound headers without the credential, and the ones that carry it.
  abbrev pub static_headers :
      Request → Result ApiFailure (Text × Text) → Result ApiFailure (HeaderMap × HeaderMap)
  static_headers req (err e) = err e
  static_headers req (ok h) = ok (build_outbound_headers w.to_str req.headers (h.0 ∷ []), h ∷ [])

  abbrev pub with_signed :
      HeaderMap → Result ApiFailure HeaderMap → Result ApiFailure (HeaderMap × HeaderMap)
  with_signed outbound (err e) = err e
  with_signed outbound (ok injected) = ok (outbound, injected)

  abbrev pub injected_by :
      InjectionSpec → Ready → Request → Text → Result ApiFailure (HeaderMap × HeaderMap)
  injected_by (aws_sig_v4 scope) r req plaintext =
      let outbound =
        build_outbound_headers w.to_str req.headers (owned_headers (aws_sig_v4 scope)) in
      with_signed outbound (sigv4_headers scope plaintext r.call.method r.url outbound r.body)
  injected_by spec r req plaintext =
      static_headers req (injection_header w.header_name w.header_value w.base64 spec plaintext)

  unfoldable pub injected : Ready → Request → Text → Result ApiFailure (HeaderMap × HeaderMap)
  injected r req plaintext = injected_by r.spec r req plaintext
