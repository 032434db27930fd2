-- ===== src/Store/Steps/Lifecycle.antt =====
-- Requests and grants over any sequence of transactions: what is decided stays decided, and a grant
-- exists exactly for the requests that were approved.
use keychute.Prelude.{
  any-map_some, any-map_same, count_where_none, count_where, count_where-map_same, ℕ, ◌≡◌, refl,
  sym, ap, ◌∙◌, ◌≢◌, inl, inr, Bool, true, false, ◌&&◌, ◌||◌, List, [], ◌∷◌, map, arith, ◌==◌,
  if◌then◌else◌, Bool-cases, any,
}
use keychute.Store.{update_where, Db, AccessRequestRow, GrantRow}
use keychute.Store.Steps.Change.{
  approved, created_approved, created, GrantKept-refl, GrantKept, updated-kept, used, Approves,
  kept, Unapproving, is_approved, NoConflict, one_if, Change,
}
use keychute.Types.{Uuid}

-- Whether a request of that id is approved, and how many grants it has.
abbrev pub approved_at : Db → Uuid → Bool
approved_at db id = any (λ r. r.id == id && is_approved r.state) db.access_requests

abbrev pub grants_of : Db → Uuid → ℕ
grants_of db id = count_where (λ g. g.request_id == id) db.grants

abbrev pub IsMatched : Db → Type 0
IsMatched db = (id : Uuid) → grants_of db id ≡ one_if (approved_at db id)

module _ (db db' : Db) (id : Uuid) where
  approved_at-map :
      (f : AccessRequestRow → AccessRequestRow)
      → Unapproving f
      → db'.access_requests ≡ map f db.access_requests
      → approved_at db' id ≡ approved_at db id
  approved_at-map f k e = rw e (
      any-map_same (λ r. r.id == id && is_approved r.state) f db.access_requests
        (λ r. rw ((k r).0.same_id, (k r).1) refl))

  grants_of-map :
      (h : GrantRow → GrantRow)
      → ((g : GrantRow) → (h g).request_id ≡ g.request_id)
      → db'.grants ≡ map h db.grants
      → grants_of db' id ≡ grants_of db id
  grants_of-map h k e =
      rw e (count_where-map_same (λ g. g.request_id == id) h db.grants (λ g. rw (k g) refl))

  -- A grant that is inserted is its request's first.
  grants_of-insert :
      (g : GrantRow)
      → NoConflict db g
      → db'.grants ≡ g ∷ db.grants
      → (g.request_id ≡ id → grants_of db' id ≡ 1)
        × (g.request_id ≢ id → grants_of db' id ≡ grants_of db id)
  grants_of-insert g free e = (
    λ q. rw e (
        let z =
          count_where_none (λ h. h.id == g.id || h.request_id == g.request_id)
            (λ h. h.request_id == id) db.grants (λ h k. ground arith) free in
        ground arith),
    λ q. rw e (ground arith),
  )

  approved_at-insert :
      (r : AccessRequestRow) (b : Bool)
      → is_approved r.state ≡ b
      → db'.access_requests ≡ r ∷ db.access_requests
      → approved_at db' id ≡ (r.id == id && b) || approved_at db id
  approved_at-insert r b q e = rw (e, q) refl

  approved_at-approve :
      (p : AccessRequestRow → Bool) (f : AccessRequestRow → AccessRequestRow) (request_id : Uuid)
      → Approves p f request_id db.access_requests
      → db'.access_requests ≡ update_where p f db.access_requests
      → (request_id ≡ id → approved_at db' id ≡ true)
        × (request_id ≢ id → approved_at db' id ≡ approved_at db id)
  approved_at-approve p f request_id a e = (
    λ q. rw e (
        any-map_some p (λ r. r.id == id && is_approved r.state) (λ r. if p r then f r else r)
          db.access_requests
          (λ r t.
            let i = a.of_request r t in
            let s = (a.keeps r t).same_id in let v = a.approves r in rw t (ground arith))
          a.some_row),
    λ q. rw e (
        any-map_same (λ r. r.id == id && is_approved r.state) (λ r. if p r then f r else r)
          db.access_requests
          (λ r. elim (Bool-cases (p r)) [
            | inl t ↦
                let i = a.of_request r t in let s = (a.keeps r t).same_id in rw t (ground arith)
            | inr t ↦ rw t refl
          ])),
  )

any_none_approved :
    (rows : List AccessRequestRow) (id : Uuid)
    → any (λ x. x.id == id) rows ≡ false
    → any (λ x. x.id == id && is_approved x.state) rows ≡ false
any_none_approved [] id h = refl
any_none_approved (r ∷ rs) id h = ground (arith, any_none_approved rs id)

pub Change-IsMatched : (db db' : Db) → Change db db' → IsMatched db → IsMatched db'
Change-IsMatched db db' (kept f h kf kh re ge u) inv id =
    grants_of-map db db' id h (λ g. (kh g).0.same_request) ge
    ∙ inv id
    ∙ ap one_if (sym (approved_at-map db db' id f kf re))
Change-IsMatched db db' (used gid p h g _ _ _ only kh re ge u) inv id =
    grants_of-map db db' id (λ x. if p x then h x else x)
      (λ x. (updated-kept GrantKept p h GrantKept-refl (λ y _. (kh y).0) x).same_request) ge
    ∙ inv id
    ∙ ap (λ rows. one_if (any (λ (r : AccessRequestRow). r.id == id && is_approved r.state) rows))
        (sym re)
Change-IsMatched db db' (created r fresh na re ge u) inv id =
    let a = approved_at-insert db db' id r false na re in
    let i = inv id in let g : grants_of db' id ≡ grants_of db id = rw ge refl in ground arith
Change-IsMatched db db' (created_approved r g fresh ap' q z free re ge u) inv id =
    let a = approved_at-insert db db' id r true ap' re in
    let (here, there) = grants_of-insert db db' id g free ge in
    let i = inv id in
    elim (Bool-cases (r.id == id)) [
      | inl e ↦ let h = here (ground arith) in ground arith
      | inr e ↦ let h = there (λ k. ground arith) in ground arith
    ]
Change-IsMatched db db' (approved p f g a z free re ge u) inv id =
    let (here, there) = grants_of-insert db db' id g free ge in
    let (gains, keeps) = approved_at-approve db db' id p f g.request_id a re in
    let i = inv id in
    elim (Bool-cases (g.request_id == id)) [
      | inl e ↦ let h = here (ground arith) in let y = gains (ground arith) in ground arith
      | inr e ↦
          let ne : g.request_id ≢ id = λ k. ground arith in
          let h = there ne in let y = keeps ne in ground arith
    ]
