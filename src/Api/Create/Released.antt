-- ===== src/Api/Create/Released.antt =====
-- What an unattended release by `create` of server/src/api/requests.rs rests on.
use keychute.Policy
use keychute.Store
use keychute.Store.Policies
use mathlib.Core.Path.{subst}
use keychute.Api.{CreateAccessRequest, ApiFailure}
use keychute.Api.Between.{IsSteps, ◌>>=◌, give, go_on-ok, answer_inj, no_answer, when}
use keychute.Api.Create.{create, answer_inserted, approval_push, Response, Setting, tags_at}
use keychute.Api.Create.Inserted.{
  made, at_secret, at_insert, at_tags, secret_seen, asked, create-Inserted, existing-200, insertion,
}
use keychute.Api.Create.AfterInsertion.{answer_inserted-IsSteps}
use keychute.Api.Decide.{evaluated, auto_grant, auto_params, resolution, earlier}
use keychute.Api.Inputs.{policy_inputs}
use keychute.Api.Validation.{validate_request}
use keychute.Policy.{
  RequestedGrant, Evaluation, Decision, releases, evaluate, denied, notified, auto_approved,
  approval_required, unreachable,
}
use keychute.Policy.Release.{Released, evaluate-Released}
use keychute.Prelude.{
  ℕ, ◌≡◌, ◌≤◌, ◌+◌, ◌*◌, refl, ap, Bool, true, false, Option, none, some, List, Text, Result, ok,
  arith, ok_inj, >>=-eq-ok, ltb,
}
use keychute.Store.{
  Db, get_grant, get_secret_by_name, secret_incarnation_exists, AccessRequestRow, GrantRow,
}
use keychute.Store.Approvals.{
  InsertOutcome, created, existing, pending_cap_exceeded, initially_approved,
}
use keychute.Store.Approvals.Released.{insert_approved}
use keychute.Store.Requests.{new_grant, is_backed, GrantParams}
use keychute.Store.Steps.{Reach}
use keychute.Store.Steps.Change.{GrantKept}
use keychute.Store.Steps.Invariants.{Reach-grant}
use keychute.Types.{Uuid, DateTime, Constraints, RequestState, second}

earlier_le : (t : DateTime) (cap : Option DateTime) → earlier t cap ≤ t
earlier_le t none = omega arith
earlier_le t (some cap) = ground arith

earlier-le_cap : (t : DateTime) (cap : DateTime) → earlier t (some cap) ≤ cap
earlier-le_cap t cap = ground arith

-- A released evaluation of stored rows, on the rows that they are translated to.
evaluated-Released :
    (max_utc : DateTime) (client : Store.ClientRow) (secret : Option Store.SecretRow)
    (tags : List Text) (req : RequestedGrant) (rows : List Policies.PolicyRow) (now : DateTime)
    (e : Evaluation)
    → evaluated max_utc client secret tags req rows now ≡ ok e
    → releases e.decision ≡ true
    → (c : Policy.ClientRow) × (s : Option Policy.SecretRow) × (out : List Policy.PolicyRow)
      × (policy_inputs client secret tags req rows now ≡ ok (c, (s, out)))
      × Released max_utc c s tags req now out e
unfolding evaluated
evaluated-Released max_utc client secret tags req rows now e h r =
    let (inputs, q, k) = >>=-eq-ok (policy_inputs client secret tags req rows now) _ h in
    let run = evaluate max_utc inputs.0 inputs.1.0 tags req now in
    let same : run inputs.1.1 ≡ e = ok_inj _ e _ refl k in
    let freed : releases (run inputs.1.1).decision ≡ true = rw same r in
    (
      inputs.0,
      inputs.1.0,
      inputs.1.1,
      q,
      subst (Released max_utc inputs.0 inputs.1.0 tags req now inputs.1.1) same
          (evaluate-Released max_utc inputs.0 inputs.1.0 tags req now inputs.1.1 freed),
    )

releases-resolution :
    (show_uuid : Uuid → Text) (d : Decision) (p : GrantParams)
    → releases d ≡ true
    → (fyi : Bool) × (by : Text) × (resolution show_uuid d (some p) ≡ initially_approved by p fyi)
releases-resolution show_uuid (denied r) p h = absurd (cc)
releases-resolution show_uuid approval_required p h = absurd (cc)
releases-resolution show_uuid unreachable p h = absurd (cc)
releases-resolution show_uuid notified p h = (true, _, refl)
releases-resolution show_uuid auto_approved p h = (false, _, refl)

module _ (w : Setting) where
  abbrev answered :
      Decision → Option Store.SecretRow → InsertOutcome → Db → Result ApiFailure Response × Db
  answered = answer_inserted w

  -- An approved answer to a new request comes with a grant, from a decision that releases.
  answered-released :
      (d : Decision) (secret : Option Store.SecretRow) (o : InsertOutcome) (db db' : Db)
      (resp : Response)
      → answered d secret o db ≡ (ok resp, db')
      → resp.code ≡ 201
      → resp.status.state ≡ RequestState.approved
      → (releases d ≡ true) × (row : AccessRequestRow) × (g : Uuid) × (o ≡ created row (some g))
  unfolding ◌>>=◌ give when
  answered-released d secret pending_cap_exceeded db db' resp h new app =
      absurd (no_answer _ resp db db' h)
  answered-released d secret (existing row) db db' resp h new app =
      let old = existing-200 w 5 row db db' resp h in absurd (ground arith)
  answered-released (denied r) secret (created row g) db db' resp h new app =
      absurd (no_answer _ resp db db' h)
  answered-released approval_required secret (created row g) db db' resp h new app =
      let (u, q, k) = go_on-ok (when w.notifier.is_real (approval_push w row) db) _ resp db' h in
      let same : RequestState.pending ≡ resp.status.state =
        ap (λ (x : Response). x.status.state) (answer_inj _ resp _ db' k) in
      absurd (cc)
  answered-released unreachable secret (created row g) db db' resp h new app =
      absurd (no_answer _ resp db db' h)
  answered-released auto_approved secret (created row none) db db' resp h new app =
      absurd (no_answer _ resp db db' h)
  answered-released auto_approved secret (created row (some g)) db db' resp h new app =
      (refl, row, g, refl)
  answered-released notified secret (created row none) db db' resp h new app =
      absurd (no_answer _ resp db db' h)
  answered-released notified secret (created row (some g)) db db' resp h new app =
      (refl, row, g, refl)

  -- A release without a human: what was read, what policy said of it, and what was committed.
  pub record AutoReleased (req : CreateAccessRequest) (db db' : Db) : Type 0 where
    pub constraints : Constraints
    pub secret : Store.SecretRow
    pub client_input : Policy.ClientRow
    pub secret_input : Option Policy.SecretRow
    pub rows : List Policy.PolicyRow
    pub evaluation : Evaluation
    pub params : GrantParams
    pub valid : validate_request req ≡ ok constraints
    pub stored : get_secret_by_name (at_secret w db) req.secret_name ≡ some secret
    pub read_rows :
        policy_inputs w.client
          (some secret)
          (tags_at (some secret) (at_tags w db))
          (asked w req constraints)
          w.policies
          (w.clock 3)
        ≡ ok (client_input, (secret_input, rows))
    pub released :
        Released w.max_utc client_input secret_input
          (tags_at (some secret) (at_tags w db))
          (asked w req constraints)
          (w.clock 3)
          rows
          evaluation
    pub minted :
        (g : GrantRow) × (get_grant db' w.drawn.grant_id ≡ some g)
        × GrantKept (new_grant (w.clock 4) w.drawn.grant_id w.drawn.request_id params) g
    pub same_secret : secret_incarnation_exists (at_insert w db) secret.id secret.name ≡ true
    pub same_client : params.client_name ≡ w.client.name
    pub same_name : params.secret_name ≡ secret.name
    pub same_constraints : params.constraints ≡ constraints
    pub not_expired : ltb (w.clock 4) params.not_after ≡ true
    pub within_ttl : params.not_after ≤ w.clock 3 + constraints.ttl_seconds * second
    pub within_policy :
        (cap : DateTime) → evaluation.policy_not_after ≡ some cap → params.not_after ≤ cap

  auto_grant-some :
      (req : CreateAccessRequest) (c : Constraints) (secret : Option Store.SecretRow)
      (e : Evaluation) (g : Option GrantParams)
      → releases e.decision ≡ true
      → auto_grant w.show_uuid w.client req c secret (w.clock 3) e ≡ ok g
      → (s : Store.SecretRow) × (secret ≡ some s)
        × (g ≡ some (auto_params w.show_uuid w.client req c secret (w.clock 3) e s))
  unfolding auto_grant
  auto_grant-some req c none e g r h = let k = rw r at h in absurd (cc)
  auto_grant-some req c (some s) e g r h = (s, refl, ok_inj _ _ _ (rw r at h) refl)

  -- What the insertion of a released request committed.
  released-Inserted :
      (req : CreateAccessRequest) (db db1 : Db) (c : Constraints) (e : Evaluation)
      (s : Store.SecretRow) (row : AccessRequestRow) (g : Uuid)
      → releases e.decision ≡ true
      → insertion w req c e
          (some (auto_params w.show_uuid w.client req c (some s) (w.clock 3) e s))
          db
        ≡ ok (created row (some g), db1)
      → (is_backed
            (auto_params w.show_uuid w.client req c (some s) (w.clock 3) e s)
            (at_insert w db)
          ≡ true)
        × (ltb
              (w.clock 4)
              (auto_params w.show_uuid w.client req c (some s) (w.clock 3) e s).not_after
            ≡ true)
        × (get_grant db1 w.drawn.grant_id
            ≡ some (
                new_grant
                  (w.clock 4)
                  w.drawn.grant_id
                  w.drawn.request_id
                  (auto_params w.show_uuid w.client req c (some s) (w.clock 3) e s)))
  released-Inserted req db db1 c e s row g r h =
      let p = auto_params w.show_uuid w.client req c (some s) (w.clock 3) e s in
      let (fyi, by, q) = releases-resolution w.show_uuid e.decision p r in
      insert_approved _ _ _ _ _ by p fyi _ row g (at_insert w db) db1 (rw q at h)

  -- When `create` answers a new request as approved, whatever other requests did meanwhile: the
  -- request was valid; policy released it, on the rows it read, for the client and the secret it read;
  -- the secret of that id and name was still there when the grant was made; and the grant is in the
  -- database, for that client, secret and constraints, to expire neither after the lifetime that was
  -- asked for nor after the policy row.
  pub create-AutoReleased :
      ((k : ℕ) (db : Db) → Reach db (w.others k db))
      → (req : CreateAccessRequest) (db db' : Db) (resp : Response)
      → create w req db ≡ (ok resp, db')
      → resp.code ≡ 201
      → resp.status.state ≡ RequestState.approved
      → AutoReleased req db db'
  unfolding IsSteps
  create-AutoReleased steps req db db' resp h new app =
      let i = create-Inserted w req db db' resp h new in
      let (freed, row, gid, made) =
        answered-released i.evaluation.decision (secret_seen w req db) i.outcome i.inserted db' resp
          i.answered new app in
      let (s, stored, granted) =
        auto_grant-some req i.constraints (secret_seen w req db) i.evaluation i.grant freed
          i.minted in
      let decided =
        subst
          (λ x.
            evaluated w.max_utc w.client x (tags_at x (at_tags w db)) (asked w req i.constraints)
              w.policies (w.clock 3)
            ≡ ok i.evaluation)
          stored i.decided in
      let (c, si, out, read, freed_by) =
        evaluated-Released w.max_utc w.client (some s) (tags_at (some s) (at_tags w db))
          (asked w req i.constraints) w.policies (w.clock 3) i.evaluation decided freed in
      let p =
        auto_params w.show_uuid w.client req i.constraints (some s) (w.clock 3) i.evaluation s in
      let committed : insertion w req i.constraints i.evaluation (some p) db
          ≡ ok (created row (some gid), i.inserted) =
        subst
          (λ g.
            insertion w req i.constraints i.evaluation g db
            ≡ ok (created row (some gid), i.inserted))
          granted (rw made at i.committed) in
      let (backed, live, minted) =
        released-Inserted req db i.inserted i.constraints i.evaluation s row gid freed committed in
      let after =
        answer_inserted-IsSteps w steps i.evaluation.decision (secret_seen w req db) i.outcome
          i.inserted in
      record {
        constraints = i.constraints;
        secret = s;
        client_input = c;
        secret_input = si;
        rows = out;
        evaluation = i.evaluation;
        params = p;
        valid = i.valid;
        stored = stored;
        read_rows = read;
        released = freed_by;
        minted =
            Reach-grant i.inserted db' _ _
              (subst (λ x. Reach i.inserted x) (ap (λ x. x.1) i.answered) after) minted;
        same_secret = backed;
        same_client = refl;
        same_name = refl;
        same_constraints = refl;
        not_expired = live;
        within_ttl = earlier_le _ i.evaluation.policy_not_after;
        within_policy = λ cap q. rw q (earlier-le_cap _ cap);
      }
