-- ===== src/Api/Create/Denied.antt =====
-- No unattended release by `create` of server/src/api/requests.rs against a stored deny rule.
use keychute.Policy
use keychute.Store.Policies
use mathlib.Core.Path.{subst}
use keychute.Api.{CreateAccessRequest}
use keychute.Api.Create.{create, Response, Setting, tags_at}
use keychute.Api.Create.Inserted.{secret_seen, asked, at_tags}
use keychute.Api.Create.Released.{create-AutoReleased}
use keychute.Api.Inputs.{parse_row, row_is_applicable_raw, unparseable}
use keychute.Api.Inputs.FailClosed.{policy_inputs-applicable, policy_inputs-unreadable}
use keychute.Api.Validation.{validate_request}
use keychute.Policy.{deny}
use keychute.Policy.Scope.{Call, Allows, RowForbids, scopes_overlap_complete}
use keychute.Prelude.{ℕ, ◌≡◌, ◌⊎◌, inl, inr, sym, ◌∙◌, true, In, ok, err, ok_inj, arith, some}
use keychute.Store.{Db}
use keychute.Store.Steps.{Reach}
use keychute.Types.{RequestState, Constraints}

-- A stored row that cannot be read, or that forbids the call.
abbrev pub Objects : Policies.PolicyRow → Constraints → Type 0
Objects r c =
    (parse_row r ≡ err unparseable)
    ⊎ ((p : Policy.PolicyRow) × (call : Call) × (parse_row r ≡ ok p)
        × (p.outcome ≡ deny)
        × RowForbids p call
        × Allows c call)

module _ (w : Setting) (steps : (k : ℕ) (db : Db) → Reach db (w.others k db)) where
  -- If the policy table holds a row that applies to the request by its columns, and that cannot be
  -- parsed or denies a call that the normalised constraints allow, then no answer to a new request is
  -- an approval, whatever the other rows say and whatever other requests do meanwhile.
  pub create-denied :
      (req : CreateAccessRequest) (db : Db) (c : Constraints) (r : Policies.PolicyRow)
      → validate_request req ≡ ok c
      → In r w.policies
      → row_is_applicable_raw r w.client.name
          (asked w req c)
          (tags_at (secret_seen w req db) (at_tags w db))
          (w.clock 3)
        ≡ true
      → Objects r c
      → ¬ (
          (db' : Db) × (resp : Response) × (create w req db ≡ (ok resp, db'))
          × (resp.code ≡ 201)
          × (resp.status.state ≡ RequestState.approved))
  create-denied req db c r valid listed a objects (db', resp, h, new, app) =
      let z = create-AutoReleased w steps req db db' resp h new app in
      let same : z.constraints ≡ c = ok_inj _ _ _ z.valid valid in
      let tags = tags_at (some z.secret) (at_tags w db) in
      let a1 =
        subst
          (λ x.
            row_is_applicable_raw r w.client.name (asked w req c) (tags_at x (at_tags w db))
              (w.clock 3)
            ≡ true)
          z.stored a in
      let a' =
        subst (λ x. row_is_applicable_raw r w.client.name (asked w req x) tags (w.clock 3) ≡ true)
          (sym same) a1 in
      elim objects [
        | inl bad ↦
            let k =
              policy_inputs-unreadable w.client (some z.secret) tags (asked w req z.constraints)
                w.policies (w.clock 3) r unparseable listed a' bad in
            let q = sym k ∙ z.read_rows in absurd (cc)
        | inr (p, call, e, denies, forbids, allows) ↦
            let (i, applied) =
              policy_inputs-applicable w.client (some z.secret) tags (asked w req z.constraints)
                w.policies (w.clock 3) r p z.client_input z.secret_input z.rows listed a' e
                z.read_rows in
            let clean = z.released.not_denied p i applied in
            let met = scopes_overlap_complete p z.constraints call forbids (rw same allows) in
            absurd (ground arith)
      ]
