-- ===== src/Store/Provision/Matched.antt =====
-- The loop of `reconcile_policies` in server/src/db/provision.rs over the rows that the policy table
-- has from an earlier start.
use keychute.Prelude.{
  ◌≡◌, refl, sym, ◌∙◌, ℕ, ◌+◌, Bool, true, false, not, ◌&&◌, List, [], ◌∷◌, Option, none, some, any,
  ◌==◌, keep, count_where, In, ◌⊎◌, inl, inr, arith,
}
use keychute.Store.Policies.{PolicyRow}
use keychute.Store.Provision.{
  NewPolicy, policy_of, same_key, position, swap_remove, delete_row, Reconciled, match_existing,
}
use keychute.Store.Provision.Counts.{same_key_refl, swap_remove-count, position-none}
use keychute.Store.Provision.Rows.{
  UniqueIds, any-keep, without, keep-UniqueIds, other_id, without-count, without-keep, without-In,
}

-- Managed rows of the table with a rule that passes a test.
abbrev pub managed_count : (NewPolicy → Bool) → List PolicyRow → ℕ
managed_count f rows = count_where (λ r. r.managed_by_config && f (policy_of r)) rows

-- The rows that `reconcile_policies` has no business with.
abbrev pub own_rows : List PolicyRow → List PolicyRow
own_rows rows = keep (λ r. not r.managed_by_config) rows

-- The managed rows that the loop has still to visit.
abbrev pub Visits : List PolicyRow → List PolicyRow → Type 0
Visits rest rows =
    UniqueIds rest
    × UniqueIds rows
    × ((r : PolicyRow) → In r rest → In r rows × (r.managed_by_config ≡ true))

==_flip : (m n : ℕ) → (m == n) ≡ false → (n == m) ≡ false
==_flip m n h = ground arith

Visits-rest :
    (r : PolicyRow) (rest rows : List PolicyRow) → Visits (r ∷ rest) rows → Visits rest rows
Visits-rest r rest rows ((h, u), v, at_) = (u, v, λ x i. at_ x (inr i))

Visits-without :
    (r : PolicyRow) (rest rows : List PolicyRow)
    → Visits (r ∷ rest) rows
    → Visits rest (without r.id rows)
Visits-without r rest rows ((h, u), v, at_) = (
  u,
  keep-UniqueIds (λ x. not (x.id == r.id)) rows v,
  λ x i. (
    without-In rows r x (at_ x (inr i)).0 (==_flip r.id x.id (other_id r x rest h i)),
    (at_ x (inr i)).1,
  ),
)

found_or_not : (o : Option ℕ) → ((i : ℕ) × (o ≡ some i)) ⊎ (o ≡ none)
found_or_not none = inr refl
found_or_not (some i) = inl (i, refl)

-- The state after a row that nothing wants.
abbrev without_row : PolicyRow → Reconciled → Reconciled
without_row r s = record s {
  table = delete_row r.id s.table;
  changes = record s.changes { deleted = s.changes.deleted + 1 };
}

abbrev with_one_less : ℕ → Reconciled → Reconciled
with_one_less i s = record s { wanted = swap_remove i s.wanted }

match_existing-found :
    (r : PolicyRow) (rest : List PolicyRow) (s : Reconciled) (i : ℕ)
    → position (policy_of r) s.wanted ≡ some i
    → match_existing (r ∷ rest) s ≡ match_existing rest (with_one_less i s)
unfolding match_existing
match_existing-found r rest s i e = rw (match_existing, e) refl

match_existing-missing :
    (r : PolicyRow) (rest : List PolicyRow) (s : Reconciled)
    → position (policy_of r) s.wanted ≡ none
    → match_existing (r ∷ rest) s ≡ match_existing rest (without_row r s)
unfolding match_existing
match_existing-missing r rest s e = rw (match_existing, e) refl

-- What the loop leaves of the count of rules: each is in the table or still wanted.
pub match_existing-count :
    (f : NewPolicy → Bool) (rest : List PolicyRow) (s : Reconciled)
    → Visits rest s.table.rows
    → let s' = match_existing rest s in
      managed_count f s'.table.rows + count_where f s'.wanted + managed_count f rest
      ≡ managed_count f s.table.rows + count_where f s.wanted
unfolding match_existing
match_existing-count f [] s v = omega arith
match_existing-count f (r ∷ rest) s v =
    let (is_there, managed) = v.2 r (inl refl) in
    elim (found_or_not (position (policy_of r) s.wanted)) [
      | inl (i, e) ↦
          let ih =
            match_existing-count f rest (with_one_less i s) (Visits-rest r rest s.table.rows v) in
          let gone = swap_remove-count f (policy_of r) s.wanted i e in
          rw (match_existing-found r rest s i e, managed) (omega (arith, ih, gone))
      | inr e ↦
          let ih =
            match_existing-count f rest (without_row r s) (Visits-without r rest s.table.rows v) in
          let gone =
            without-count (λ x. x.managed_by_config && f (policy_of x)) s.table.rows r v.1
              is_there in
          rw (match_existing-missing r rest s e, managed) (omega (arith, ih, rw managed at gone))
    ]

pub match_existing-own :
    (rest : List PolicyRow) (s : Reconciled)
    → Visits rest s.table.rows
    → own_rows (match_existing rest s).table.rows ≡ own_rows s.table.rows
unfolding match_existing
match_existing-own [] s v = refl
match_existing-own (r ∷ rest) s v =
    let (is_there, managed) = v.2 r (inl refl) in
    elim (found_or_not (position (policy_of r) s.wanted)) [
      | inl (i, e) ↦
          rw (match_existing-found r rest s i e)
            (match_existing-own rest (with_one_less i s) (Visits-rest r rest s.table.rows v))
      | inr e ↦
          let ih =
            match_existing-own rest (without_row r s) (Visits-without r rest s.table.rows v) in
          let same =
            without-keep (λ x. not x.managed_by_config) s.table.rows r v.1 is_there
              (rw managed refl) in
          rw (match_existing-missing r rest s e) (ih ∙ same)
    ]

-- The loop adds no row.
pub match_existing-any :
    (p : PolicyRow → Bool) (rest : List PolicyRow) (s : Reconciled)
    → any p s.table.rows ≡ false
    → any p (match_existing rest s).table.rows ≡ false
unfolding match_existing
match_existing-any p [] s h = h
match_existing-any p (r ∷ rest) s h = elim (found_or_not (position (policy_of r) s.wanted)) [
  | inl (i, e) ↦
      rw (match_existing-found r rest s i e) (match_existing-any p rest (with_one_less i s) h)
  | inr e ↦ rw (match_existing-missing r rest s e) (
      match_existing-any p rest (without_row r s)
        (any-keep p (λ x. not (x.id == r.id)) s.table.rows h))
]

-- The loop wants nothing more.
pub match_existing-wanted :
    (f : NewPolicy → Bool) (rest : List PolicyRow) (s : Reconciled)
    → count_where f s.wanted ≡ 0
    → count_where f (match_existing rest s).wanted ≡ 0
unfolding match_existing
match_existing-wanted f [] s h = h
match_existing-wanted f (r ∷ rest) s h = elim (found_or_not (position (policy_of r) s.wanted)) [
  | inl (i, e) ↦
      let gone = swap_remove-count f (policy_of r) s.wanted i e in
      rw (match_existing-found r rest s i e)
        (match_existing-wanted f rest (with_one_less i s) (omega (arith, h, gone)))
  | inr e ↦
      rw (match_existing-missing r rest s e) (match_existing-wanted f rest (without_row r s) h)
]

-- Rules none of which occurs are no rules.
no_rules : (ps : List NewPolicy) → ((k : NewPolicy) → count_where (same_key k) ps ≡ 0) → ps ≡ []
no_rules [] h = refl
no_rules (p ∷ ps) h =
    let one = same_key_refl p in let none_of = h p in absurd (omega (arith, rw one at none_of))

-- Rows that are what is wanted, each as often as it is wanted, all stay.
pub match_existing-settled :
    (rest : List PolicyRow) (s : Reconciled)
    → ((k : NewPolicy)
        → count_where (λ r. same_key k (policy_of r)) rest ≡ count_where (same_key k) s.wanted)
    → match_existing rest s ≡ record s { wanted = [] }
unfolding match_existing
match_existing-settled [] s h = rw (no_rules s.wanted (λ k. sym (h k))) refl
match_existing-settled (r ∷ rest) s h = elim (found_or_not (position (policy_of r) s.wanted)) [
  | inl (i, e) ↦ rw (match_existing-found r rest s i e) (
      match_existing-settled rest (with_one_less i s) (λ k.
        let gone = swap_remove-count (same_key k) (policy_of r) s.wanted i e in
        omega (arith, h k, gone)))
  | inr e ↦
      let zero_of = position-none (policy_of r) s.wanted e in
      let some_of = h (policy_of r) in
      absurd (omega (arith, zero_of, rw (same_key_refl (policy_of r)) at some_of))
]
