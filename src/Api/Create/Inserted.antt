-- ===== src/Api/Create/Inserted.antt =====
-- What a new request was inserted with: `create` of server/src/api/requests.rs, access by access.
use keychute.Store
use keychute.Api.{CreateAccessRequest, idempotency_key_reuse}
use keychute.Api.Between.{
  api_raises, ◌>>=◌, give, read, transact, Handler, go_on-ok, committed-ok, committed, answer_inj,
}
use keychute.Api.Create.{
  create, create_new, answer_existing, answer_inserted, Response, Setting, tags_at,
}
use keychute.Api.Decide.{evaluated, auto_grant, resolution, new_row, pending_cap, has_context}
use keychute.Api.Validation.{validate_request, validate_idempotency_key}
use keychute.Policy.{RequestedGrant, Evaluation}
use keychute.Prelude.{
  ℕ, ◌≡◌, sym, ap, inl, inr, Option, none, some, text_eq, ok, arith, Option-cases, Result,
  if◌then◌else◌, ensure,
}
use keychute.Store.{Db, DbError, get_secret_by_name}
use keychute.Store.Approvals.{insert_access_request_with_id, get_request_by_idem, InsertOutcome}
use keychute.Store.Requests.{GrantParams}
use keychute.Types.{Constraints}

module _ (w : Setting) where
  abbrev pub made : CreateAccessRequest → Handler Response
  made = create w

  -- The database that each access of a new request finds.
  abbrev pub at_secret : Db → Db
  at_secret db = w.others 1 (w.others 0 db)

  abbrev pub at_tags : Db → Db
  at_tags db = w.others 2 (at_secret db)

  abbrev pub at_insert : Db → Db
  at_insert db = w.others 4 (at_tags db)

  abbrev pub secret_seen : CreateAccessRequest → Db → Option Store.SecretRow
  secret_seen req db = get_secret_by_name (at_secret db) req.secret_name

  abbrev pub asked : CreateAccessRequest → Constraints → RequestedGrant
  asked req c = record { secret_name = req.secret_name; mechanism = req.mechanism; constraints = c }

  abbrev pub insertion :
      CreateAccessRequest
      → Constraints
      → Evaluation
      → Option GrantParams
      → Db
      → Result DbError (InsertOutcome × Db)
  insertion req c e g db =
      insert_access_request_with_id (w.clock 4) w.drawn.request_id w.drawn.grant_id
        (new_row w.limits w.client req c w.drawn.idem_mac (w.clock 3) e)
        (pending_cap w.limits e.decision) (resolution w.show_uuid e.decision g)
        (if has_context req then some w.drawn.sealed else none) (at_insert db)

  -- What a new request was inserted with.
  pub record Inserted (req : CreateAccessRequest) (db : Db) (resp : Response) (db' : Db)
      : Type 0 where
    pub constraints : Constraints
    pub evaluation : Evaluation
    pub grant : Option GrantParams
    pub outcome : InsertOutcome
    pub inserted : Db
    pub valid : validate_request req ≡ ok constraints
    pub decided :
        evaluated w.max_utc w.client
          (secret_seen req db)
          (tags_at (secret_seen req db) (at_tags db))
          (asked req constraints)
          w.policies
          (w.clock 3)
        ≡ ok evaluation
    pub minted :
        auto_grant w.show_uuid w.client req constraints (secret_seen req db) (w.clock 3) evaluation
        ≡ ok grant
    pub committed : insertion req constraints evaluation grant db ≡ ok (outcome, inserted)
    pub answered :
        answer_inserted w evaluation.decision (secret_seen req db) outcome inserted ≡ (ok resp, db')

  create_new-Inserted :
      (req : CreateAccessRequest) (db db' : Db) (resp : Response)
      → create_new w req (w.others 0 db) ≡ (ok resp, db')
      → Inserted req db resp db'
  unfolding ◌>>=◌ give read transact
  create_new-Inserted req db db' resp h =
      let (c, valid, h1) = go_on-ok (validate_request req, w.others 0 db) _ resp db' h in
      let (e, decided, h2) =
        go_on-ok
          (
            evaluated w.max_utc w.client (secret_seen req db)
                (tags_at (secret_seen req db) (at_tags db)) (asked req c) w.policies (w.clock 3),
            at_tags db,
          )
          _ resp db' h1 in
      let (g, minted, h3) =
        go_on-ok
          (auto_grant w.show_uuid w.client req c (secret_seen req db) (w.clock 3) e, at_tags db) _
          resp db' h2 in
      let (o, q, h4) = go_on-ok (committed (at_insert db) (insertion req c e g db)) _ resp db' h3 in
      record {
        constraints = c;
        evaluation = e;
        grant = g;
        outcome = o;
        inserted = _;
        valid = valid;
        decided = decided;
        minted = minted;
        committed = committed-ok (at_insert db) _ o q;
        answered = h4;
      }

  pub existing-200 :
      (k : ℕ) (row : Store.AccessRequestRow) (db db' : Db) (resp : Response)
      → answer_existing w k row db ≡ (ok resp, db')
      → resp.code ≡ 200
  unfolding ◌>>=◌ give read transact
  existing-200 k row db db' resp h =
      let (u, q, h1) =
        go_on-ok (ensure (text_eq row.idem_mac w.drawn.idem_mac) idempotency_key_reuse, db) _ resp
          db' h in
      ap (λ (r : Response). r.code) (sym (answer_inj _ resp _ db' h1))

  -- An answer that is no retry's comes from an insertion.
  pub create-Inserted :
      (req : CreateAccessRequest) (db db' : Db) (resp : Response)
      → made req db ≡ (ok resp, db')
      → resp.code ≡ 201
      → Inserted req db resp db'
  unfolding create ◌>>=◌ give read
  create-Inserted req db db' resp h new =
      let (u, q, h1) = go_on-ok (validate_idempotency_key req.idempotency_key, db) _ resp db' h in
      elim (Option-cases (get_request_by_idem (w.others 0 db) w.client.name req.idempotency_key)) [
        | inl e ↦ create_new-Inserted req db db' resp (rw e at h1)
        | inr (row, e) ↦
            let old = existing-200 1 row (w.others 0 db) db' resp (rw e at h1) in
            absurd (ground arith)
      ]
