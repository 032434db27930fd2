-- ===== src/Ui/Substitute/Checked.antt =====
-- What was checked of a secret that an operator picked in place of another, in server/src/ui/mod.rs.
use keychute.Store
use keychute.Api.Decide.{evaluated}
use keychute.Between.{◌>>=◌, give, read, go_on-ok, answer_inj}
use keychute.Policy.{Evaluation}
use keychute.Prelude.{
  ℕ, ◌≡◌, refl, sym, ap, ◌∙◌, true, false, not, ◌||◌, Option, none, some, Text, ok, ensure, ok_or,
  or_err, some_inj, ensure-eq-ok, ok_or-eq-ok, or_err-eq-ok, ==_iff, Bool-cases, inl, inr, is_some,
  and_true,
}
use keychute.Prelude.Int.{ℤ, pos, negsuc}
use keychute.Store.{Db, AccessRequestRow, get_secret_by_name, get_client_by_name}
use keychute.Store.Secrets.Edits.{tags_of}
use keychute.Types.{DateTime, tier}
use keychute.Ui.{
  Stop, bad_request, malformed_form, either_stored_or_new, client_gone, unreadable_rule,
  below_tier_being_approved,
}
use keychute.Ui.Between.{Setting}
use keychute.Ui.Choice.{Choice, picked_choice, is_fresh, exceeds_max, asked_of, check_policy}
use keychute.Ui.Choice.Checked.{IsReleasable, IsDenied, check_policy-allowed, not_exceeds}
use keychute.Ui.Forms.{ApproveForm, non_empty, policy_cap_elapsed, parse_substitute_option}
use keychute.Ui.Substitute.{evaluate_substitution, choose_fresh, choose_picked, choose_substitute}
use keychute.Ui.Terms.{Terms}

module _ (w : Setting) (form : ApproveForm) (row : AccessRequestRow) (t : Terms)
    (now : DateTime) where
  -- The policy evaluation that let the secret pass, on the rows that were read.
  pub record IsAllowed (s : Store.SecretRow) (db : Db) (e : Evaluation) : Type 0 where
    pub client : Store.ClientRow
    pub known : get_client_by_name (w.others 4 db) row.client_name ≡ some client
    pub decided :
        evaluated w.max_utc client
          (some s)
          (tags_of s.id (w.others 5 (w.others 4 db)).secret_tags)
          (asked_of row t s)
          w.policies
          now
        ≡ ok e

  evaluate_substitution-IsAllowed :
      (s : Store.SecretRow) (db db' : Db) (e : Evaluation)
      → evaluate_substitution w form row t now s db ≡ (ok e, db')
      → IsAllowed s db e × (db' ≡ w.others 6 (w.others 5 (w.others 4 db)))
  unfolding evaluate_substitution ◌>>=◌ give read
  evaluate_substitution-IsAllowed s db db' e h =
      let db4 = w.others 4 db in
      let db5 = w.others 5 db4 in
      let db6 = w.others 6 db5 in
      let (client, q, h1) =
        go_on-ok (ok_or (get_client_by_name db4 row.client_name) (bad_request client_gone), db4) _ e
          db' h in
      let run =
        evaluated w.max_utc client (some s) (tags_of s.id db5.secret_tags) (asked_of row t s)
          w.policies now in
      let got : or_err run (bad_request unreadable_rule) ≡ ok e = ap (λ x. x.0) h1 in
      (
        record { client = client; known = ok_or-eq-ok _ _ q; decided = or_err-eq-ok _ _ got },
        sym (ap (λ x. x.1) h1),
      )

  -- A picked secret as the page showed it, which standing policy does not refuse the client.
  pub record Picked (raw : Text) (c : Choice) (db db' : Db) : Type 0 where
    pub version : ℕ
    pub name : Text
    pub secret : Store.SecretRow
    pub evaluation : Evaluation
    pub read_back : parse_substitute_option raw ≡ some (pos version, name)
    pub found : get_secret_by_name (w.others 3 db) name ≡ some secret
    pub as_shown : secret.current_version ≡ version
    pub releasable : IsReleasable t secret c
    pub same_name : c.released_name ≡ secret.name
    pub allowed : IsAllowed secret (w.others 3 db) evaluation
    pub not_denied : IsDenied evaluation.decision → ⊥
    pub not_elapsed : policy_cap_elapsed evaluation.policy_not_after now ≡ false
    pub cap : c.substitute_cap ≡ evaluation.policy_not_after
    pub reads : db' ≡ w.others 6 (w.others 5 (w.others 4 (w.others 3 db)))

  -- The same, once the row is read.
  pub record PickedRow (version : ℤ) (s : Store.SecretRow) (c : Choice) (db db' : Db) : Type 0 where
    pub shown : ℕ
    pub is_shown : version ≡ pos shown
    pub evaluation : Evaluation
    pub as_shown : s.current_version ≡ shown
    pub releasable : IsReleasable t s c
    pub same_name : c.released_name ≡ s.name
    pub allowed : IsAllowed s db evaluation
    pub not_denied : IsDenied evaluation.decision → ⊥
    pub not_elapsed : policy_cap_elapsed evaluation.policy_not_after now ≡ false
    pub cap : c.substitute_cap ≡ evaluation.policy_not_after
    pub reads : db' ≡ w.others 6 (w.others 5 (w.others 4 db))

  fresh_parts :
      (version : ℤ) (s : Store.SecretRow)
      → is_fresh version s ≡ true
      → (shown : ℕ) × (version ≡ pos shown) × (s.enabled ≡ true) × (s.current_version ≡ shown)
  fresh_parts (pos v) s h =
      let (e, q) = and_true s.enabled _ h in (v, refl, e, (==_iff s.current_version v).0 q)
  fresh_parts (negsuc v) s h = absurd (cc)

  choose_fresh-PickedRow :
      (version : ℤ) (s : Store.SecretRow) (c : Choice) (db db' : Db)
      → choose_fresh w form row t now version s db ≡ (ok (some c), db')
      → PickedRow version s c db db'
  unfolding ◌>>=◌ give
  choose_fresh-PickedRow version s c db db' h = elim (Bool-cases (is_fresh version s)) [
    | inr e ↦ let k = answer_inj {E = Stop} _ _ _ _ (rw e at h) in absurd (cc)
    | inl e ↦
        let (shown, q, enabled, same) = fresh_parts version s e in
        let h0 = rw e at h in
        let (u, below, h1) =
          go_on-ok
            (
              ensure (not (exceeds_max (tier t.mechanism) s))
                  (bad_request below_tier_being_approved),
              db,
            )
            _ (some c) db' h0 in
        let (e', run, h2) =
          go_on-ok (evaluate_substitution w form row t now s db) _ (some c) db' h1 in
        let after = (evaluate_substitution w form row t now s db).1 in
        let (u', passed, h3) =
          go_on-ok (check_policy row.client_name now e', after) _ (some c) db' h2 in
        let (allowed, reads) =
          evaluate_substitution-IsAllowed s db after e' (ap (λ x. (x, after)) run) in
        let (clear, live) = check_policy-allowed row.client_name now e' passed in
        let is : picked_choice s e' ≡ c = some_inj _ _ (answer_inj {E = Stop} _ _ _ _ h3) in
        record {
          shown = shown;
          is_shown = q;
          evaluation = e';
          as_shown = same;
          releasable = record {
            enabled = enabled;
            within_tier = not_exceeds t s (ensure-eq-ok _ _ below);
            id = rw (← is) refl;
            not_new = rw (← is) refl;
            no_payload = rw (← is) refl;
          };
          same_name = rw (← is) refl;
          allowed = allowed;
          not_denied = clear;
          not_elapsed = live;
          cap = rw (← is) refl;
          reads = sym (ap (λ x. x.1) h3) ∙ reads;
        }
  ]

  choose_picked-PickedRow :
      (version : ℤ) (found : Option Store.SecretRow) (c : Choice) (db db' : Db)
      → choose_picked w form row t now version found db ≡ (ok (some c), db')
      → (s : Store.SecretRow) × (found ≡ some s) × PickedRow version s c db db'
  unfolding give
  choose_picked-PickedRow version none c db db' h =
      let k = answer_inj {E = Stop} _ _ _ _ h in absurd (cc)
  choose_picked-PickedRow version (some s) c db db' h =
      (s, refl, choose_fresh-PickedRow version s c db db' h)

  pub choose_substitute-Picked :
      (value : Option Text) (raw : Text) (c : Choice) (db db' : Db)
      → choose_substitute w form row t now value raw db ≡ (ok (some c), db')
      → Picked raw c db db'
  unfolding choose_substitute ◌>>=◌ give read
  choose_substitute-Picked value raw c db db' h =
      let (u, alone, h1) =
        go_on-ok
          (
            ensure (not (is_some value || is_some (non_empty form.store_secret)))
                (bad_request either_stored_or_new),
            db,
          )
          _ (some c) db' h in
      let (picked, parsed, h2) =
        go_on-ok (ok_or (parse_substitute_option raw) (bad_request malformed_form), db) _ (some c)
          db' h1 in
      let db3 = w.others 3 db in
      let (s, found, p) =
        choose_picked-PickedRow picked.0 (get_secret_by_name db3 picked.1) c db3 db' h2 in
      let read_back = ok_or-eq-ok _ _ parsed in
      record {
        version = p.shown;
        name = picked.1;
        secret = s;
        evaluation = p.evaluation;
        read_back = read_back ∙ ap (λ v. some (v, picked.1)) p.is_shown;
        found = found;
        as_shown = p.as_shown;
        releasable = p.releasable;
        same_name = p.same_name;
        allowed = p.allowed;
        not_denied = p.not_denied;
        not_elapsed = p.not_elapsed;
        cap = p.cap;
        reads = p.reads;
      }
