-- ===== src/Api/Grants/Used.antt =====
-- Which use of the grant `read` of server/src/api/grants.rs releases a payload for.
use keychute.Api.Between.{api_raises, ◌>>=◌, give, read, go_on-ok, answer_inj, no_answer}
use keychute.Api.Grants.{
  Setting, Source, Release, released_by, first_payload, open_secret_version, open_passthrough,
}
use keychute.Prelude.{
  ◌≡◌, ◌⊎◌, refl, sym, ap, ◌∙◌, inl, inr, Bool, true, false, Option, none, some, Text, ok, ok_or,
  arith,
}
use keychute.Store.{
  Db, GrantRow, GrantReadRow, get_grant, release_attempt, get_secret_version_by_id,
}
use keychute.Store.Grants.{
  GrantUse, begin_grant_use, is_live, uses_left, prior_read, in_window, expired_or_revoked,
  exhausted, replayed, first_use,
}
use keychute.Store.Grants.Effect.{Effect, begin-Effect}
use keychute.Types.{Uuid}

abbrev IsRefused : GrantUse → Type 0
IsRefused u = (u ≡ GrantUse.not_found) ⊎ (u ≡ expired_or_revoked) ⊎ (u ≡ exhausted)

refusal-first : (u : GrantUse) (g : GrantRow) → IsRefused u → u ≡ first_use g → ⊥
refusal-first u g why e = absurd (ground arith)

refusal-replay :
    (u : GrantUse) (g : GrantRow) (pinned : Option Uuid) (p : Bool)
    → IsRefused u
    → u ≡ replayed g pinned p
    → ⊥
refusal-replay u g pinned p why e = absurd (ground arith)

module _ (w : Setting) where
  -- How the released payload was chosen: a use that was accounted now, or a replay of one.
  pub data Chosen (key : Text) (grant : GrantRow) (source : Uuid) (before : Db) (version : Uuid)
      : Type 0 where
    fresh :
        (g : GrantRow)
        → get_grant before grant.id ≡ some g
        → is_live g (w.clock 5) ≡ true
        → uses_left g ≡ true
        → prior_read before grant.id (some key) ≡ none
        → version ≡ source
        → Chosen key grant source before version
    again :
        (g : GrantRow) (r : GrantReadRow)
        → get_grant before grant.id ≡ some g
        → is_live g (w.clock 5) ≡ true
        → prior_read before grant.id (some key) ≡ some r
        → in_window r (w.clock 5) w.replay_window_seconds ≡ true
        → ((r.passthrough ≡ true) × (version ≡ g.id))
          ⊎ ((r.passthrough ≡ false) × (r.secret_version_id ≡ some version))
        → Chosen key grant source before version

  -- A payload comes from a first use or a replay.
  released_by-used :
      (s : Source) (id : Uuid) (u : GrantUse) (r : Release) (db db' : Db)
      → released_by w s id u db ≡ (ok r, db')
      → ((g : GrantRow) × (u ≡ first_use g) × (r.version_id ≡ id))
        ⊎ ((g : GrantRow) × (pinned : Option Uuid) × (p : Bool) × (u ≡ replayed g pinned p)
            × (((p ≡ true) × (r.version_id ≡ g.id)) ⊎ ((p ≡ false) × (pinned ≡ some r.version_id))))
  unfolding ◌>>=◌ give read
  released_by-used s id GrantUse.not_found r db db' h = absurd (no_answer _ r db db' h)
  released_by-used s id expired_or_revoked r db db' h = absurd (no_answer _ r db db' h)
  released_by-used s id exhausted r db db' h = absurd (no_answer _ r db db' h)
  released_by-used s id (first_use g) r db db' h =
      let (bytes, q, k) = go_on-ok (first_payload w s g, db) _ r db' h in
      inl (g, refl, ap (λ (x : Release). x.version_id) (sym (answer_inj _ r _ db' k)))
  released_by-used s id (replayed g pinned true) r db db' h =
      let (bytes, q, k) = go_on-ok (open_passthrough w g, db) _ r db' h in
      inr (
        g,
        pinned,
        true,
        refl,
        inl (refl, ap (λ (x : Release). x.version_id) (sym (answer_inj _ r _ db' k))),
      )
  released_by-used s id (replayed g none false) r db db' h = absurd (no_answer _ r db db' h)
  released_by-used s id (replayed g (some v) false) r db db' h =
      let (version, q, k) =
        go_on-ok (ok_or (get_secret_version_by_id (w.others 6 db) v) _, w.others 6 db) _ r db' h in
      let (bytes, q', k') = go_on-ok (open_secret_version w version, w.others 6 db) _ r db' k in
      inr (
        g,
        some v,
        false,
        refl,
        inr (refl, ap some (ap (λ (x : Release). x.version_id) (answer_inj _ r _ db' k'))),
      )

  pub used-Chosen :
      (key : Text) (grant : GrantRow) (s : Source) (id : Uuid) (u : GrantUse) (r : Release)
      (before after db' : Db)
      → begin_grant_use
          (w.clock 5)
          grant.id
          (some key)
          (some id)
          release_attempt
          w.replay_window_seconds
          none
          before
        ≡ ok (u, after)
      → released_by w s id u after ≡ (ok r, db')
      → Chosen key grant id before r.version_id
  used-Chosen key grant s id u r before after db' used h =
      let by = released_by-used s id u r after db' h in
      elim (begin-Effect (w.clock 5) grant.id (some key) (some id) release_attempt
        w.replay_window_seconds none before after u used) [
          | Effect.nothing same why ↦ elim by [
            | inl (g, e, v) ↦ absurd (refusal-first u g why e)
            | inr (g, pinned, p, e, v) ↦ absurd (refusal-replay u g pinned p why e)
          ]
          | Effect.replay_logged g x found live seen opened e d ↦ elim by [
            | inl (g', e', v) ↦ let k = sym e ∙ e' in absurd (cc)
            | inr (g', pinned, p, e', v) ↦
                let k = sym e ∙ e' in again g x found live seen opened (ground arith)
          ]
          | Effect.accounted g found live left none_seen e d ↦ elim by [
            | inl (g', e', v) ↦ fresh g found live left none_seen v
            | inr (g', pinned, p, e', v) ↦ let k = sym e ∙ e' in absurd (cc)
          ]
        ]
