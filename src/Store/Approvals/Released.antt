-- ===== src/Store/Approvals/Released.antt =====
-- An insertion that answers with a grant: what the transaction of server/src/db/api_ext.rs checked.
use keychute.Prelude.{
  count_where, >>=-eq-ok, ok_pair_inj, ok_inj, ℕ, ◌≡◌, refl, inl, inr, Bool, true, Option, some,
  ◌∷◌, ok, ltb, ◌==◌, ==_refl, Bool-cases, Option-cases, any, Text,
}
use keychute.Store.{Db, GrantRow, AccessRequestRow, get_grant, insert_audit}
use keychute.Store.Approvals.{
  auto_approved_row, creation_event, with_request, new_request, counts_as_pending,
  get_request_by_idem, initially_approved, over_cap, sealed_context, resolve_created, insert_fresh,
  created, insert_access_request_with_id, InitialResolution,
}
use keychute.Store.Requests.{
  approval_event, new_grant, grant_conflicts, insert_grant, is_backed, GrantParams,
  NewAccessRequest, Sealed,
}
use keychute.Types.{Uuid, DateTime}

pub inserted_grant :
    (g : GrantRow) (db db' : Db) → insert_grant g db ≡ ok db' → get_grant db' g.id ≡ some g
unfolding insert_grant
inserted_grant g db db' h = elim (Bool-cases (grant_conflicts g db)) [
  | inl e ↦ let k = rw e at h in absurd (cc)
  | inr e ↦ let q = ok_inj _ db' _ refl (rw e at h) in rw (← q) (rw (==_refl g.id) refl)
]

module _ (now : DateTime) (id gid : Uuid) (req : NewAccessRequest) (cap : Option ℕ) (actor : Text)
    (p : GrantParams) (fyi : Bool) (seal : Option (Option Sealed)) where
  abbrev res : InitialResolution
  res = initially_approved actor p fyi

  abbrev requested : AccessRequestRow → Db → Db
  requested row db =
      insert_audit (creation_event now id req)
        (with_request now id gid req cap res seal (auto_approved_row actor fyi now row) db)

  pub resolve_approved :
      (row r : AccessRequestRow) (g : Option Uuid) (db db' : Db)
      → resolve_created now id gid req cap res seal res row db ≡ ok (created r g, db')
      → (ltb now p.not_after ≡ true) × (get_grant db' gid ≡ some (new_grant now gid id p))
  resolve_approved row r g db db' h = elim (Bool-cases (ltb now p.not_after)) [
    | inr e ↦ let k = rw e at h in absurd (cc)
    | inl e ↦
        let (db1, q, k) =
          >>=-eq-ok (insert_grant (new_grant now gid id p) (requested row db)) _ (rw e at h) in
        let minted : get_grant db1 gid ≡ some (new_grant now gid id p) =
          inserted_grant (new_grant now gid id p) (requested row db) db1 q in
        let d = (ok_pair_inj {b = insert_audit (approval_event now actor id gid p) db1} refl k).1 in
        (e, rw d minted)
  ]

  fresh_created :
      (context : Option Sealed) (r : AccessRequestRow) (g : Uuid) (db db' : Db)
      → insert_fresh now id gid req cap res seal context db ≡ ok (created r (some g), db')
      → resolve_created now id gid req cap res seal res (new_request now id req context) db
        ≡ ok (created r (some g), db')
  fresh_created context r g db db' h =
      elim (Bool-cases (any (λ r. r.id == id) db.access_requests)) [
        | inl e ↦ let k = rw e at h in absurd (cc)
        | inr e ↦
            elim (Bool-cases (
              over_cap cap (
                count_where (counts_as_pending now req.client_name)
                  (new_request now id req context ∷ db.access_requests)))) [
                    | inl full ↦ let k = rw (e, full) at h in absurd (cc)
                    | inr room ↦ rw (e, room) at h
                  ]
      ]

  pub insert_approved :
      (r : AccessRequestRow) (g : Uuid) (db db' : Db)
      → insert_access_request_with_id now id gid req cap res seal db ≡ ok (created r (some g), db')
      → (is_backed p db ≡ true)
        × (ltb now p.not_after ≡ true)
        × (get_grant db' gid ≡ some (new_grant now gid id p))
  unfolding insert_access_request_with_id
  insert_approved r g db db' h = elim (Bool-cases (is_backed p db)) [
    | inr e ↦ let k = rw e at h in absurd (cc)
    | inl e ↦
        let (context, q, k) = >>=-eq-ok (sealed_context seal) _ (rw e at h) in
        elim (Option-cases (get_request_by_idem db req.idem_client req.idem_key)) [
          | inr (old, found) ↦ let k' = rw found at k in absurd (cc)
          | inl fresh ↦
              let (live, minted) =
                resolve_approved (new_request now id req context) r (some g) db db'
                  (fresh_created context r g db db' (rw fresh at k)) in
              (e, live, minted)
        ]
  ]
