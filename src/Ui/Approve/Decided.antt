-- ===== src/Ui/Approve/Decided.antt =====
-- The choice and the commit of `approve` in server/src/ui/mod.rs: what each answer rests on.
use keychute.Store
use mathlib.Core.Path.{subst}
use keychute.Between.{◌>>=◌, give, transact, go_on-ok, answer_inj, committed-ok, committed}
use keychute.Prelude.{
  ◌≡◌, refl, ap, ◌∙◌, true, not, ◌||◌, Option, none, some, Text, text_eq, text_eq_iff, ok, ensure,
  ok_or, some_inj, ok_or-eq-ok, Bool-cases, inl, inr, is_some,
}
use keychute.Store.{
  Db, AccessRequestRow, get_request, get_secret_by_name, secret_incarnation_exists,
}
use keychute.Store.Approvals.{
  approve_request, ApproveOutcome, approved, not_approvable, secret_name_taken, secret_gone,
}
use keychute.Store.Approvals.ByOperator.{Opened, approve_request-Opened}
use keychute.Types.{Uuid, DateTime}
use keychute.Ui.{Stop, panicked, bad_request, malformed_form, Operator, Response, redirect_to}
use keychute.Ui.Approve.{deadline, grant_params, answer, commit, commit_chosen, choose, decide}
use keychute.Ui.Between.{ui_raises, Setting}
use keychute.Ui.Choice.{Choice, choose_stored, choose_entered}
use keychute.Ui.Choice.Checked.{
  IsReleasable, Entered, choose_stored-IsReleasable, choose_entered-Entered,
}
use keychute.Ui.Forms.{ApproveForm, non_empty, secret_state_marker, take_secret_value}
use keychute.Ui.Substitute.Checked.{Picked, choose_substitute-Picked}
use keychute.Ui.Terms.{Terms, submitted_marker}

answer-approved :
    (o : ApproveOutcome) (r : Response) → answer o ≡ ok r → (g : Uuid) × (o ≡ approved g)
answer-approved (approved g) r h = (g, refl)
answer-approved not_approvable r h = absurd (cc)
answer-approved secret_name_taken r h = absurd (cc)
answer-approved secret_gone r h = absurd (cc)

module _ (w : Setting) (id : Uuid) (form : ApproveForm) where
  -- Why a secret was released: the stored row under the name that was asked for, a stored row that was
  -- picked for a name that has none, or a value that was entered for it.
  pub data Grounds (row : AccessRequestRow) (t : Terms) (now : DateTime) (db : Db) (c : Choice)
      : Option Store.SecretRow → Db → Type 0 where
    by_stored :
        (s : Store.SecretRow)
        → IsReleasable t s c
        → c.released_name ≡ row.secret_name
        → Grounds row t now db c (some s) db
    by_picked :
        (raw : Text) (db' : Db)
        → non_empty form.substitute_secret ≡ some raw
        → Picked w form row t now raw c db db'
        → Grounds row t now db c none db'
    by_entered :
        non_empty form.substitute_secret ≡ none
        → Entered row t c
        → c.released_name ≡ row.secret_name
        → Grounds row t now db c none db

  choose-Grounds :
      (row : AccessRequestRow) (now : DateTime) (t : Terms) (secret : Option Store.SecretRow)
      (picked : Option Text) (c : Choice) (db db' : Db)
      → non_empty form.substitute_secret ≡ picked
      → choose w id form row now t secret picked db ≡ (ok (some c), db')
      → Grounds row t now db c secret db'
  unfolding choose ◌>>=◌ give
  choose-Grounds row now t none (some raw) c db db' e h =
      by_picked raw db' e (choose_substitute-Picked w form row t now _ raw c db db' h)
  choose-Grounds row now t (some s) picked c db db' e h =
      let (u, bare, h1) =
        go_on-ok
          (
            ensure (not (is_some (take_secret_value form) || is_some picked))
                (bad_request malformed_form),
            db,
          )
          _ (some c) db' h in
      let (c', chosen, h2) = go_on-ok (choose_stored row t s, db) _ (some c) db' h1 in
      let same = some_inj c' c (answer_inj {E = Stop} _ _ _ _ h2) in
      let (r, name, cap) = choose_stored-IsReleasable row t s c (rw same at chosen) in
      let here : db ≡ db' = ap (λ x. x.1) h2 in
      subst (Grounds row t now db c (some s)) here (by_stored s r name)
  choose-Grounds row now t none none c db db' e h =
      let (c', chosen, h2) =
        go_on-ok (choose_entered w form row t (take_secret_value form), db) _ (some c) db' h in
      let same = some_inj c' c (answer_inj {E = Stop} _ _ _ _ h2) in
      let (entered, name, cap) =
        choose_entered-Entered w form row t (take_secret_value form) c (rw same at chosen) in
      let here : db ≡ db' = ap (λ x. x.1) h2 in
      subst (Grounds row t now db c none) here (by_entered e entered name)

  -- The grant that was committed, on what was chosen.
  pub record Minted (op : Operator) (row : AccessRequestRow) (now : DateTime) (t : Terms)
      (c : Choice) (db db' : Db) : Type 0 where
    pub until : DateTime
    pub timed : deadline w.max_utc w.seconds_before_epoch now t.ttl ≡ some until
    pub opened :
        Opened
          (w.clock 7)
          id
          op.subject
          w.grant_id
          w.version_id
          (grant_params row t c until)
          c.store
          (w.others 7 db)
          db'

  commit-Minted :
      (op : Operator) (row : AccessRequestRow) (now : DateTime) (t : Terms) (c : Choice)
      (r : Response) (db db' : Db)
      → commit w id form op row now t c db ≡ (ok r, db')
      → Minted op row now t c db db'
  unfolding commit ◌>>=◌ give transact
  commit-Minted op row now t c r db db' h =
      let (until, timed, h1) =
        go_on-ok (ok_or (deadline w.max_utc w.seconds_before_epoch now t.ttl) panicked, db) _ r db'
          h in
      let db7 = w.others 7 db in
      let tx =
        approve_request (w.clock 7) id op.subject w.grant_id w.version_id
          (grant_params row t c until) c.store db7 in
      let (o, done, h2) = go_on-ok (committed {E = Stop} db7 tx) _ r db' h1 in
      let told : answer o ≡ ok r = ap (λ x. x.0) h2 in
      let here : (committed {E = Stop} db7 tx).1 ≡ db' = ap (λ x. x.1) h2 in
      let (g, is) = answer-approved o r told in
      let made : tx ≡ ok (o, db') = committed-ok Stop db7 tx o done ∙ ap (λ d. ok (o, d)) here in
      record {
        until = until;
        timed = ok_or-eq-ok _ _ timed;
        opened =
            approve_request-Opened (w.clock 7) id op.subject w.grant_id w.version_id
              (grant_params row t c until) c.store db7 db' g (rw is at made);
      }

  pub record Decided (op : Operator) (row : AccessRequestRow) (now : DateTime) (t : Terms)
      (secret : Option Store.SecretRow) (db db' : Db) : Type 0 where
    pub marker : submitted_marker form ≡ secret_state_marker secret
    pub chosen : Choice
    pub between : Db
    pub grounds : Grounds row t now db chosen secret between
    pub minted : Minted op row now t chosen between db'

  pub decide-Decided :
      (op : Operator) (row : AccessRequestRow) (now : DateTime) (t : Terms)
      (secret : Option Store.SecretRow) (to : Text) (db db' : Db)
      → decide w id form op row now t secret db ≡ (ok (redirect_to to), db')
      → Decided op row now t secret db db'
  unfolding ◌>>=◌ give
  decide-Decided op row now t secret to db db' h =
      elim (Bool-cases (text_eq (submitted_marker form) (secret_state_marker secret))) [
        | inr e ↦ let k = answer_inj {E = Stop} _ _ _ _ (rw e at h) in absurd (cc)
        | inl e ↦
            let picked = non_empty form.substitute_secret in
            let (o, chosen, h1) =
              go_on-ok (choose w id form row now t secret picked db) _ (redirect_to to) db'
                (rw e at h) in
            let after = (choose w id form row now t secret picked db).1 in
            by_choice o after e (ap (λ x. (x, after)) chosen) h1
      ]
    where
      by_choice :
          (o : Option Choice) (after : Db)
          → text_eq (submitted_marker form) (secret_state_marker secret) ≡ true
          → choose w id form row now t secret (non_empty form.substitute_secret) db ≡ (ok o, after)
          → commit_chosen w id form op row now t o after ≡ (ok (redirect_to to), db')
          → Decided op row now t secret db db'
      by_choice none after e chosen h = let k = answer_inj {E = Stop} _ _ _ _ h in absurd (cc)
      by_choice (some c) after e chosen h = record {
        marker = (text_eq_iff (submitted_marker form) (secret_state_marker secret)).0 e;
        chosen = c;
        between = after;
        grounds = choose-Grounds row now t secret _ c db after refl chosen;
        minted = commit-Minted op row now t c (redirect_to to) after db' h;
      }
