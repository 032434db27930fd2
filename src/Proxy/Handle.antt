-- ===== src/Proxy/Handle.antt =====
-- The proxy's handler: `handle_inner` and `forward` of server/src/proxy.rs, without the deadline that
-- may cut a run short and the streaming of the response's body.
pub mod Resolved
pub mod Authorized
pub mod Unburned
use keychute.Api.{
  ApiFailure, internal, inconsistent, cannot_open, not_found, grant_expired, grant_exhausted,
  payload_lost, wrong_mechanism, too_many_streams, invalid_request, bad_credential_encoding,
  upstream_timeout, upstream_unreachable, owned_grant, revalidate_grant,
}
use keychute.Api.Between.{api_raises, Handler, ◌>>=◌, ◌>>◌, give, when, read, transact, change}
use keychute.Policy.Scope.{Call}
use keychute.Prelude.{
  ℕ, Bool, true, false, not, ◌&&◌, ◌||◌, Option, none, some, List, [], ◌∷◌, ◌++◌, Text, codes,
  text_eq, starts_with, Result, ok, err, ensure, ok_or, ◌==◌, is_some, if◌then◌else◌, keep,
}
use keychute.Proxy.Headers.{HeaderMap, build_outbound_headers, build_response_headers, insert_all}
use keychute.Proxy.Injection.{
  Scope, InjectionSpec, bearer, header, basic_password, aws_sig_v4, is_sigv4, owned_headers,
  spec_of, validate, injection_header,
}
use keychute.Proxy.Placed.{placed_at, injected}
use keychute.Proxy.Setting.{
  Setting, Url, Ready, Sent, Upstream, Exchange, timed_out, unreachable, responded,
}
use keychute.Proxy.Target.{Request, permitted, buffered, to_display, grant_id_from_path}
use keychute.SigV4.{wire_path}
use keychute.Store.{
  Db, GrantRow, SecretRow, SecretVersionRow, AuditEvent, event, insert_audit, proxy_attempt,
  proxy_completed, get_secret_version,
}
use keychute.Store.Grants.{
  AuditTarget, GrantUse, begin_grant_use, expired_or_revoked, exhausted, replayed, first_use,
}
use keychute.Types.{Uuid, DateTime, Mechanism, mechanism_from_str, same_mechanism, Origin}

abbrev pub is_brokered : Option Mechanism → Bool
is_brokered none = false
is_brokered (some m) = same_mechanism m Mechanism.brokered

abbrev pub audited_path : Url → Text
audited_path url = elim url.query [ none ↦ url.path | some q ↦ url.path ++ b'?' ∷ q ]

abbrev pub audit_target : Ready → AuditTarget
audit_target r = record {
  method = r.call.method;
  origin = to_display r.call.origin;
  path = audited_path r.url;
}

abbrev pub accounted : GrantUse → Result ApiFailure (Unit {0})
accounted (first_use grant) = ok tt
accounted GrantUse.not_found = err ApiFailure.not_found
accounted expired_or_revoked = err grant_expired
accounted exhausted = err grant_exhausted
accounted (replayed grant version passthrough) =
    err (internal (inconsistent (codes "replay outcome without idempotency key")))

module _ (w : Setting) where
  -- The grant and the secret behind it.
  unfoldable pub identify : Uuid → Handler (GrantRow × SecretRow)
  identify id = do
    found ← read w.others 0 (owned_grant w.client_name id)
    grant ← give found
    give (ensure (is_brokered (mechanism_from_str grant.mechanism)) wrong_mechanism)
    at_client ← read w.others 1 (λ db. db)
    revalidated ← read w.others 2 (revalidate_grant grant at_client)
    stored ← give revalidated
    secret ← give (ok_or stored payload_lost)
    give (ensure w.slot_free too_many_streams)
    give (ok (grant, secret))

  unfoldable pub aim : Request → GrantRow × SecretRow → Handler Ready
  aim req owned = do
    call ← give (permitted owned.0.constraints req)
    body ← give (buffered w.proxy_max_body_bytes [] req.body)
    row ← read w.others 3 (λ db. get_secret_version db owned.1.id owned.1.current_version)
    version ← give (ok_or row payload_lost)
    placed ← give (placed_at w req call owned.1)
    give (
        ok (record {
          grant = owned.0;
          secret = owned.1;
          call = call;
          body = body;
          version = version;
          spec = placed.0;
          url = placed.1;
        }))

  -- Everything before the use is accounted.
  unfoldable pub resolve : Uuid → Request → Handler Ready
  resolve id req = do owned ← identify id; aim req owned

  -- The accounting, and the request that is built after it.
  unfoldable pub charge : Uuid → Request → Ready → Handler Sent
  charge id req r = do
    outcome ← transact w.others 4 (
        begin_grant_use (w.clock 4) id none (some r.version.id) proxy_attempt
          w.replay_window_seconds (some (audit_target r)))
    give (accounted outcome)
    plaintext ← give (ok_or (w.open_keyset r.version) (internal cannot_open))
    parts ← give (injected w r req plaintext)
    give (
        ok (record {
          call = r.call;
          url = r.url;
          headers = insert_all parts.1 parts.0;
          body = r.body;
          grant = r.grant;
          version_id = r.version.id;
        }))

  abbrev pub completed : Sent → ℕ → AuditEvent
  completed s status = record (event (w.clock 5) proxy_completed) {
    request_id = some s.grant.request_id;
    grant_id = some s.grant.id;
    client_name = some s.grant.client_name;
    secret_name = some s.grant.secret_name;
    secret_version_id = some s.version_id;
    method = some s.call.method;
    origin = some (to_display s.call.origin);
    path = some (audited_path s.url);
    status = some status;
  }

  abbrev pub answered : Exchange → Result ApiFailure Upstream
  answered timed_out = err upstream_timeout
  answered unreachable = err upstream_unreachable
  answered (responded upstream) = ok upstream

  unfoldable pub forward : Sent → Handler Upstream
  forward s = do
    give (ensure (w.is_method s.call.method) (invalid_request (codes "invalid HTTP method")))
    upstream ← give (answered (w.exchange s))
    when w.audit_arrives (change w.others 5 (insert_audit (completed s upstream.status)))
    give (
        ok (record {
          status = upstream.status;
          headers =
              insert_all ((codes "cache-control", codes "no-store") ∷ [])
                (build_response_headers w.to_str upstream.headers);
        }))

  unfoldable pub prepare : Uuid → Request → Handler Sent
  prepare id req = do ready ← resolve id req; charge id req ready

  unfoldable pub proxy : Request → Handler Upstream
  proxy req = do
    id ← give (grant_id_from_path w.parse_uuid req.path)
    sent ← prepare id req
    forward sent
