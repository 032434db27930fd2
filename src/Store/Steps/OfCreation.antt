-- ===== src/Store/Steps/OfCreation.antt =====
-- The creation of a request, with the outcome that policy already decided, as a change.
use keychute.Store.Approvals
use keychute.Prelude.{
  count_where, >>=-eq-ok, ok_pair_inj, ℕ, ◌≡◌, refl, sym, inl, inr, false, Option, none, some, ◌∷◌,
  arith, ok, ltb, ◌==◌, Bool-cases, any,
}
use keychute.Store.{Db, AccessRequestRow}
use keychute.Store.Approvals.{
  auto_approved_row, new_request, counts_as_pending, get_request_by_idem, initially_approved,
  over_cap, sealed_context, initially_denied, may_release, resolve_created,
  insert_access_request_with_id, insert_or_existing, InitialResolution, InsertOutcome,
}
use keychute.Store.Requests.{new_grant, insert_grant, denied_row, NewAccessRequest, Sealed}
use keychute.Store.Steps.Change.{untouched, is_approved, Change}
use keychute.Store.Steps.OfRequests.{insert_grant-cases}
use keychute.Types.{Uuid, DateTime}

module _ (now : DateTime) (id gid : Uuid) (req : NewAccessRequest) (cap : Option ℕ)
    (resolution : InitialResolution) (seal_context : Option (Option Sealed)) where
  resolve_created-Change :
      (res : InitialResolution) (row : AccessRequestRow) (o : InsertOutcome) (db db' : Db)
      → row.id ≡ id
      → is_approved row.state ≡ false
      → any (λ r. r.id == id) db.access_requests ≡ false
      → resolve_created now id gid req cap resolution seal_context res row db ≡ ok (o, db')
      → Change db db'
  resolve_created-Change Approvals.left_pending row o db db' same waits free h =
      let (_, d) = ok_pair_inj refl h in
      rw d (Change.created row (rw same free) waits refl refl (λ i. ground arith))
  resolve_created-Change (Approvals.initially_denied reason actor) row o db db' same waits free h =
      let (_, d) = ok_pair_inj refl h in
      rw d (
        Change.created (denied_row actor reason now row) (rw same free) refl refl refl
          (λ i. ground arith))
  resolve_created-Change (Approvals.initially_approved actor p fyi) row o db db' same waits free h =
      elim (Bool-cases (ltb now p.not_after)) [
        | inr e ↦ let k = rw e at h in absurd (cc)
        | inl e ↦
            let (db1, q, k) = >>=-eq-ok (insert_grant (new_grant now gid id p) _) _ (rw e at h) in
            let (fresh, made) = insert_grant-cases (new_grant now gid id p) _ db1 q in
            let (_, d) = ok_pair_inj refl k in
            rw (d, made)
              (Change.created_approved (auto_approved_row actor fyi now row)
                (new_grant now gid id p) (rw same free) refl (sym same) refl fresh refl refl
                (λ i. ground arith))
      ]

  insert_or_existing-Change :
      (r : Option AccessRequestRow) (context : Option Sealed) (o : InsertOutcome) (db db' : Db)
      → insert_or_existing now id gid req cap resolution seal_context r context db ≡ ok (o, db')
      → Change db db'
  insert_or_existing-Change (some r) context o db db' h =
      let (_, d) = ok_pair_inj refl h in rw d (untouched db db refl refl (λ i. refl))
  insert_or_existing-Change none context o db db' h =
      elim (Bool-cases (any (λ (r : AccessRequestRow). r.id == id) db.access_requests)) [
        | inl e ↦ let k = rw e at h in absurd (cc)
        | inr e ↦
            elim (Bool-cases (
              over_cap cap (
                count_where (counts_as_pending now req.client_name)
                  (new_request now id req context ∷ db.access_requests)))) [
                    | inl c ↦
                        let (_, d) = ok_pair_inj refl (rw (e, c) at h) in
                        rw d (untouched db db refl refl (λ i. refl))
                    | inr c ↦
                        resolve_created-Change resolution (new_request now id req context) o db db'
                          refl refl e (rw (e, c) at h)
                  ]
      ]

  pub insert_access_request_with_id-Change :
      (o : InsertOutcome) (db db' : Db)
      → insert_access_request_with_id now id gid req cap resolution seal_context db ≡ ok (o, db')
      → Change db db'
  unfolding insert_access_request_with_id
  insert_access_request_with_id-Change o db db' h =
      elim (Bool-cases (may_release now id gid req cap resolution seal_context resolution db)) [
        | inr e ↦ let k = rw e at h in absurd (cc)
        | inl e ↦
            let (context, _, k) = >>=-eq-ok (sealed_context seal_context) _ (rw e at h) in
            insert_or_existing-Change (get_request_by_idem db req.idem_client req.idem_key) context
              o db db' k
      ]
