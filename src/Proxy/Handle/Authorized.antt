-- ===== src/Proxy/Handle/Authorized.antt =====
-- What a request that the proxy of server/src/proxy.rs sends rests on.
use mathlib.Core.Path.{subst}
use keychute.Api.{ApiFailure, internal, cannot_open}
use keychute.Api.Between.{
  api_raises, ◌>>=◌, give, transact, go_on-ok, committed-ok, answer_inj, committed,
}
use keychute.Api.Grants.Released.{pair_of}
use keychute.Prelude.{
  ℕ, ◌≡◌, ◌⊎◌, refl, sym, ap, ◌∙◌, inl, inr, true, false, Option, none, some, List, Text, one_of,
  Result, ok, err, ok_or, ok_or-eq-ok, ok_inj, In, map,
}
use keychute.Proxy.Handle.{resolve, charge, prepare, accounted, audit_target}
use keychute.Proxy.Handle.Resolved.{Resolved, resolve-Resolved}
use keychute.Proxy.Headers.{HeaderMap, build_outbound_headers, connection_named, is_stripped}
use keychute.Proxy.Headers.Kept.{insert_all-In, outbound-kept}
use keychute.Proxy.Injection.{
  InjectionSpec, bearer, header, basic_password, aws_sig_v4, owned_headers,
}
use keychute.Proxy.Placed.{injected, injected_by, static_headers, with_signed}
use keychute.Proxy.Setting.{Setting, Ready, Sent}
use keychute.Proxy.Target.{Request}
use keychute.Store.{Db, GrantRow, proxy_attempt, get_grant}
use keychute.Store.Grants.{AuditTarget, GrantUse, begin_grant_use, is_live, uses_left}
use keychute.Store.Grants.Effect.{Effect, begin-Effect, after_use}
use keychute.Types.{Uuid}

accounted-first :
    (now : ℕ) (id : Uuid) (version : Option Uuid) (window : ℕ) (target : Option AuditTarget)
    (db db' : Db) (u : GrantUse)
    → begin_grant_use now id none version proxy_attempt window target db ≡ ok (u, db')
    → accounted u ≡ ok tt
    → (g : GrantRow) × (get_grant db id ≡ some g)
      × (is_live g now ≡ true)
      × (uses_left g ≡ true)
      × (db' ≡ after_use now id none version proxy_attempt window target g db)
accounted-first now id version window target db db' u h done =
    elim (begin-Effect now id none version proxy_attempt window target db db' u h) [
      | Effect.nothing same why ↦ elim why [
        | inl e ↦ let k = rw e at done in absurd (cc)
        | inr (inl e) ↦ let k = rw e at done in absurd (cc)
        | inr (inr e) ↦ let k = rw e at done in absurd (cc)
      ]
      | Effect.replay_logged g x found live seen opened e d ↦ let k = rw e at done in absurd (cc)
      | Effect.accounted g found live left none_seen e d ↦ (g, found, live, left, d)
    ]

module _ (w : Setting) where
  -- The names that the injection owns: of a signature, all that `owned_headers` lists, and else the
  -- name of the header that it sets.
  abbrev pub owned_names : InjectionSpec → HeaderMap → List Text
  owned_names (aws_sig_v4 scope) set = owned_headers (aws_sig_v4 scope)
  owned_names bearer set = map (λ h. h.0) set
  owned_names (header name) set = map (λ h. h.0) set
  owned_names (basic_password user) set = map (λ h. h.0) set

  static-outbound :
      (req : Request) (o : Result ApiFailure (Text × Text)) (parts : HeaderMap × HeaderMap)
      → static_headers w req o ≡ ok parts
      → parts.0 ≡ build_outbound_headers w.to_str req.headers (map (λ h. h.0) parts.1)
  static-outbound req (err e) parts h = absurd (cc)
  static-outbound req (ok x) parts h =
      subst (λ p. p.0 ≡ build_outbound_headers w.to_str req.headers (map (λ h. h.0) p.1))
        (ok_inj _ parts _ refl h) refl

  signed-outbound :
      (outbound : HeaderMap) (o : Result ApiFailure HeaderMap) (parts : HeaderMap × HeaderMap)
      → with_signed w outbound o ≡ ok parts
      → parts.0 ≡ outbound
  signed-outbound outbound (err e) parts h = absurd (cc)
  signed-outbound outbound (ok x) parts h = ap (λ p. p.0) (sym (ok_inj _ parts _ refl h))

  injected-outbound :
      (spec : InjectionSpec) (r : Ready) (req : Request) (plaintext : Text)
      (parts : HeaderMap × HeaderMap)
      → injected_by w spec r req plaintext ≡ ok parts
      → parts.0 ≡ build_outbound_headers w.to_str req.headers (owned_names spec parts.1)
  injected-outbound bearer r req plaintext parts h = static-outbound req _ parts h
  injected-outbound (header name) r req plaintext parts h = static-outbound req _ parts h
  injected-outbound (basic_password user) r req plaintext parts h = static-outbound req _ parts h
  injected-outbound (aws_sig_v4 scope) r req plaintext parts h = signed-outbound _ _ parts h

  -- What the caller's part of the headers holds: what none of the three rules strips.
  abbrev pub IsForwarded : Request → List Text → Text × Text → Type 0
  IsForwarded req owned h =
      In h req.headers
      × (is_stripped h.0 ≡ false)
      × (one_of (connection_named w.to_str req.headers) h.0 ≡ false)
      × (one_of owned h.0 ≡ false)

  injected-IsForwarded :
      (r : Ready) (req : Request) (plaintext : Text) (parts : HeaderMap × HeaderMap)
      (h : Text × Text)
      → injected w r req plaintext ≡ ok parts
      → In h parts.0
      → IsForwarded req (owned_names r.spec parts.1) h
  unfolding injected
  injected-IsForwarded r req plaintext parts h made i =
      outbound-kept w.to_str req.headers (owned_names r.spec parts.1) h
        (subst (In h) (injected-outbound r.spec r req plaintext parts made) i)

  -- The database that the accounting of a use finds, as other requests leave it.
  abbrev pub charged_on : Db → Db
  charged_on db = w.others 4 (w.others 3 (w.others 2 (w.others 1 (w.others 0 db))))

  abbrev ChargedOn : Uuid → Ready → Db → Db → Type 0
  ChargedOn id r after db =
      (g : GrantRow) × (get_grant db id ≡ some g)
      × (is_live g (w.clock 4) ≡ true)
      × (uses_left g ≡ true)
      × (after
          ≡ after_use (w.clock 4) id none (some r.version.id) proxy_attempt w.replay_window_seconds
              (some (audit_target r)) g db)

  pub record Authorized (id : Uuid) (req : Request) (db db' : Db) (sent : Sent) : Type 0 where
    pub ready : Ready
    pub resolved : Resolved w id req db ready
    pub same_call : sent.call ≡ ready.call
    pub same_url : sent.url ≡ ready.url
    pub same_body : sent.body ≡ ready.body
    pub grant : GrantRow
    pub found : get_grant (charged_on db) id ≡ some grant
    pub live : is_live grant (w.clock 4) ≡ true
    pub left : uses_left grant ≡ true
    pub logged :
        db'
        ≡ after_use
            (w.clock 4)
            id
            none
            (some ready.version.id)
            proxy_attempt
            w.replay_window_seconds
            (some (audit_target ready))
            grant
            (charged_on db)
    pub plaintext : Text
    pub opened : w.open_keyset ready.version ≡ some plaintext
    pub parts : HeaderMap × HeaderMap
    pub credential : injected w ready req plaintext ≡ ok parts
    pub passed :
        (h : Text × Text)
        → In h sent.headers
        → In h parts.1 ⊎ IsForwarded req (owned_names ready.spec parts.1) h

  -- When the proxy is about to send a request, whatever other requests did meanwhile: the grant is the
  -- caller's, is brokered and passed the access-time checks; its constraints allow the origin, the
  -- method, which is not TRACE, and the canonical path that the URL is built from; the body is within
  -- the limit; the database has just accounted a use of a live grant that had one left, with a log row
  -- of this target; and each header carries the credential, or is the caller's and no rule strips it.
  pub prepare-Authorized :
      (id : Uuid) (req : Request) (db db' : Db) (sent : Sent)
      → prepare w id req db ≡ (ok sent, db')
      → Authorized id req db db' sent
  unfolding prepare charge ◌>>=◌ give transact
  prepare-Authorized id req db db' sent h =
      let (r, q, k) = go_on-ok (resolve w id req db) _ sent db' h in
      let before = w.others 4 (resolve w id req db).1 in
      let (resolved, at_) = resolve-Resolved w id req db _ r (pair_of q) in
      let begun =
        begin_grant_use (w.clock 4) id none (some r.version.id) proxy_attempt
          w.replay_window_seconds (some (audit_target r)) before in
      let (u, q1, h1) = go_on-ok (committed before begun) _ sent db' k in
      let after = (committed before begun).1 in
      let (tick, q2, h2) = go_on-ok (accounted u, after) _ sent db' h1 in
      let (plaintext, q3, h3) =
        go_on-ok (ok_or (w.open_keyset r.version) (internal cannot_open), after) _ sent db' h2 in
      let (parts, q4, h4) = go_on-ok (injected w r req plaintext, after) _ sent db' h3 in
      let same = answer_inj _ sent after db' h4 in
      let (g, found, live, left, d) = subst (ChargedOn id r after) (ap (w.others 4) at_) (
        accounted-first (w.clock 4) id (some r.version.id) w.replay_window_seconds
          (some (audit_target r)) before after u (committed-ok before begun u q1) q2) in
      record {
        ready = r;
        resolved = resolved;
        same_call = ap (λ (x : Sent). x.call) (sym same);
        same_url = ap (λ (x : Sent). x.url) (sym same);
        same_body = ap (λ (x : Sent). x.body) (sym same);
        grant = g;
        found = found;
        live = live;
        left = left;
        logged = sym (ap (λ p. p.1) h4) ∙ d;
        plaintext = plaintext;
        opened = ok_or-eq-ok _ _ q3;
        parts = parts;
        credential = q4;
        passed = λ x i. elim (insert_all-In parts.1 parts.0 x (rw (← same) at i)) [
          | inl j ↦ inl j
          | inr j ↦ inr (injected-IsForwarded r req plaintext parts x q4 j)
        ];
      }
