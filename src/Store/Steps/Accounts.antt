-- ===== src/Store/Steps/Accounts.antt =====
-- The use budget of a grant: every accounted use has its row in the audit log, and their number
-- never passes `max_uses`.
use mathlib.Core.Option
use mathlib.Core.Path.{subst, subst₂}
use keychute.Prelude.{
  find-In, find_missing, find-map, find, ℕ, ◌+◌, ◌≤◌, ◌≡◌, sym, ap, ◌∙◌, inl, inr, true, false,
  ◌||◌, Option, none, some, ◌∷◌, arith, ltb, ◌==◌, if◌then◌else◌, Bool-cases, Option-cases,
}
use keychute.Store.{get_grant, Db, GrantRow}
use keychute.Store.Grants.Effect.{uses_logged}
use keychute.Store.Steps.Change.{
  GrantKept-refl, GrantKept, updated-kept, approved, created_approved, created, used, SameUses,
  Uncounting, kept, NoConflict, Change,
}
use keychute.Types.{Uuid}

abbrev pub Within : Option ℕ → ℕ → Type 0
Within none n = Unit
Within (some m) n = n ≤ m

-- What the log has of a grant: nothing before it is there, then its count, within its cap.
abbrev pub Account : Option GrantRow → ℕ → Type 0
Account none n = n ≡ 0
Account (some g) n = Within g.max_uses n × (n ≡ g.use_count)

abbrev pub IsAccounted : Db → Type 0
IsAccounted db = (id : Uuid) → Account (get_grant db id) (uses_logged id db.audit_log)

Account-map :
    (h : GrantRow → GrantRow) (o : Option GrantRow) (n : ℕ)
    → Uncounting h
    → Account o n
    → Account (Option.map h o) n
Account-map h none n k a = a
Account-map h (some g) n k (cap, count) =
    (subst (λ m. Within m n) (sym (k g).0.same_cap) cap, count ∙ sym (k g).1)

Within-more :
    (m : Option ℕ) (n : ℕ) → elim m [ none ↦ true | some k ↦ ltb n k ] ≡ true → Within m (n + 1)
Within-more none n h = tt
Within-more (some k) n h = ground arith

Within-none : (m : Option ℕ) → Within m 0
Within-none none = tt
Within-none (some k) = omega arith

-- After the insertion of a grant that has no row in the log.
Account-insert :
    (db db' : Db) (g : GrantRow) (id : Uuid)
    → NoConflict db g
    → g.use_count ≡ 0
    → db'.grants ≡ g ∷ db.grants
    → SameUses db db'
    → IsAccounted db
    → Account (get_grant db' id) (uses_logged id db'.audit_log)
Account-insert db db' g id free zero_uses ge u inv =
    rw (ge, u id)
      (elim (Bool-cases (g.id == id)) [
        | inl e ↦
            let missing : get_grant db id ≡ none =
              find_missing (λ h. h.id == g.id || h.request_id == g.request_id) (λ h. h.id == id)
                db.grants (λ h k. ground arith) free in
            let n : uses_logged id db.audit_log ≡ 0 =
              subst (λ o. Account o (uses_logged id db.audit_log)) missing (inv id) in
            rw (e, n) (Within-none g.max_uses, sym zero_uses)
        | inr e ↦ rw e (inv id)
      ])

pub Change-IsAccounted : (db db' : Db) → Change db db' → IsAccounted db → IsAccounted db'
Change-IsAccounted db db' (kept f h kf kh re ge u) inv id =
    let q : get_grant db' id ≡ Option.map h (get_grant db id) =
      ap (find (λ a. a.id == id)) ge
      ∙ find-map (λ a. a.id == id) h db.grants (λ a. ap (λ i. i == id) (kh a).0.same_id) in
    rw (q, u id) (Account-map h (get_grant db id) (uses_logged id db.audit_log) kh (inv id))
Change-IsAccounted db db' (used gid p h g found left hits only kh re ge u) inv id =
    let only_id =
      λ (a : GrantRow). (updated-kept GrantKept p h GrantKept-refl (λ y _. (kh y).0) a).same_id in
    let q : get_grant db' id ≡ Option.map (λ x. if p x then h x else x) (get_grant db id) =
      ap (find (λ a. a.id == id)) ge
      ∙ find-map (λ a. a.id == id) (λ x. if p x then h x else x) db.grants
          (λ a. ap (λ i. i == id) (only_id a)) in
    elim (Bool-cases (gid == id)) [
      | inl e ↦
          let same : gid ≡ id = ground arith in
          let found' : get_grant db id ≡ some g = rw (← same) found in
          let (cap, count) = subst (λ o. Account o (uses_logged id db.audit_log)) found' (inv id) in
          rw (q, u id, found', e)
            (rw hits (
              subst₂ Within (sym (kh g).0.same_cap) (ground arith)
                  (Within-more g.max_uses g.use_count left),
              ground (arith, (kh g).1),
            ))
      | inr e ↦
          let quiet : uses_logged id db'.audit_log ≡ uses_logged id db.audit_log =
            u id ∙ rw e (omega arith) in
          rw (q, quiet)
            (elim (Option-cases (get_grant db id)) [
              | inl missing ↦
                  rw missing (subst (λ o. Account o (uses_logged id db.audit_log)) missing (inv id))
              | inr (a, there) ↦
                  let (_, i) = find-In (λ x. x.id == id) db.grants a there in
                  let skip : p a ≡ false = elim (Bool-cases (p a)) [
                    | inl t ↦ let o = only a t in absurd (ground arith)
                    | inr t ↦ t
                  ] in
                  rw (there, skip)
                    (subst (λ o. Account o (uses_logged id db.audit_log)) there (inv id))
            ])
    ]
Change-IsAccounted db db' (created r fresh na re ge u) inv id = rw (ge, u id) (inv id)
Change-IsAccounted db db' (created_approved r g fresh ap' q z free re ge u) inv id =
    Account-insert db db' g id free z ge u inv
Change-IsAccounted db db' (approved p f g a z free re ge u) inv id =
    Account-insert db db' g id free z ge u inv
