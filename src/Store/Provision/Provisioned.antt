-- ===== src/Store/Provision/Provisioned.antt =====
-- `reconcile_policies` of server/src/db/provision.rs: what the policy table has after a start.
use keychute.Prelude.{
  ◌≡◌, refl, sym, ◌∙◌, ℕ, ◌+◌, ◌≤◌, Bool, true, false, not, List, [], ◌∷◌, any, all, keep,
  count_where, In-keep, arith, Bool-cases, inl, inr, ok, ==_iff, and_true,
}
use keychute.Store.Policies.{PolicyRow}
use keychute.Store.Provision.{
  NewPolicy, PolicyTable, PolicyChanges, policy_of, same_key, Reconciled, match_existing,
  managed_row, insert_wanted, reconcile_policies, policy_created, is_storable,
}
use keychute.Store.Provision.Counts.{one_if}
use keychute.Store.Provision.Matched.{
  managed_count, own_rows, Visits, match_existing-any, match_existing-count, match_existing-wanted,
  match_existing-own, match_existing-settled,
}
use keychute.Store.Provision.Rows.{has_id, UniqueIds, keep-UniqueIds}
use keychute.Types.{Uuid, DateTime}

-- The managed rows are the rules that are wanted, each as often; the other rows are as they were.
abbrev pub Provisioned : List NewPolicy → PolicyTable → PolicyTable → Type 0
Provisioned desired before after =
    ((k : NewPolicy) → managed_count (same_key k) after.rows ≡ count_where (same_key k) desired)
    × (own_rows after.rows ≡ own_rows before.rows)

-- The ids that the database draws are new.
abbrev Fresh : (ℕ → Uuid) → ℕ → List PolicyRow → Type 0
Fresh draw from_ rows = (n : ℕ) → from_ ≤ n → any (has_id (draw n)) rows ≡ false

abbrev Injective : (ℕ → Uuid) → Type 0
Injective draw = (m n : ℕ) → draw m ≡ draw n → m ≡ n

abbrev managed_rows : PolicyTable → List PolicyRow
managed_rows t = keep (λ r. r.managed_by_config) t.rows

-- What the loop over the managed rows starts with.
abbrev start : List NewPolicy → PolicyTable → Reconciled
start desired t = record {
  wanted = desired;
  table = t;
  changes = record { created = 0; deleted = 0 };
}

start-Visits : (t : PolicyTable) → UniqueIds t.rows → Visits (managed_rows t) t.rows
start-Visits t unique = (
  keep-UniqueIds (λ r. r.managed_by_config) t.rows unique,
  unique,
  λ r i. In-keep (λ x. x.managed_by_config) t.rows r i,
)

count-managed :
    (f : NewPolicy → Bool) (rows : List PolicyRow)
    → count_where (λ r. f (policy_of r)) (keep (λ r. r.managed_by_config) rows)
      ≡ managed_count f rows
count-managed f [] = refl
count-managed f (r ∷ rows) = let ih = count-managed f rows in ground arith

managed_count-managed :
    (f : NewPolicy → Bool) (rows : List PolicyRow)
    → managed_count f (keep (λ r. r.managed_by_config) rows) ≡ managed_count f rows
managed_count-managed f [] = refl
managed_count-managed f (r ∷ rows) = let ih = managed_count-managed f rows in ground arith

Fresh-insert :
    (draw : ℕ → Uuid) (created : ℕ) (r : PolicyRow) (rows : List PolicyRow)
    → Injective draw
    → Fresh draw created rows
    → r.id ≡ draw created
    → Fresh draw (created + 1) (r ∷ rows)
Fresh-insert draw created r rows inj fresh id n le = elim (Bool-cases (has_id (draw n) r)) [
  | inl e ↦ let same = inj created n (sym id ∙ (==_iff r.id (draw n)).0 e) in absurd (omega arith)
  | inr e ↦ rw (e, fresh n (omega arith)) refl
]

abbrev not_storable : NewPolicy → Bool
not_storable p = not (is_storable p)

all_storable : (ps : List NewPolicy) → all is_storable ps ≡ true → count_where not_storable ps ≡ 0
all_storable [] h = refl
all_storable (p ∷ ps) h =
    let (first, later) = and_true (is_storable p) (all is_storable ps) h in
    let ih = all_storable ps later in rw first (omega (arith, ih))

first_storable :
    (p : NewPolicy) (n : ℕ) → one_if (not_storable p) + n ≡ 0 → (is_storable p ≡ true) × (n ≡ 0)
first_storable p n h = elim (Bool-cases (is_storable p)) [
  | inl e ↦ (e, omega arith)
  | inr e ↦ absurd (omega (arith, rw e at h))
]

-- With new ids and rules that the table admits every insertion goes through.
insert_wanted-ok :
    (draw : ℕ → Uuid) (now : DateTime) (ps : List NewPolicy) (t : PolicyTable) (c : PolicyChanges)
    → Injective draw
    → Fresh draw c.created t.rows
    → count_where not_storable ps ≡ 0
    → (c' : PolicyChanges) × (t' : PolicyTable) × (insert_wanted draw now ps t c ≡ ok (c', t'))
      × ((f : NewPolicy → Bool)
          → managed_count f t'.rows ≡ managed_count f t.rows + count_where f ps)
      × (own_rows t'.rows ≡ own_rows t.rows)
unfolding insert_wanted
insert_wanted-ok draw now [] t c inj fresh storable = (c, t, refl, λ f. omega arith, refl)
insert_wanted-ok draw now (p ∷ ps) t c inj fresh storable =
    let (first, later) = first_storable p (count_where not_storable ps) storable in
    let r = managed_row draw now (draw c.created) p in
    let (c', t', ran, count, own) =
      insert_wanted-ok draw now ps
        (record { rows = r ∷ t.rows; log = policy_created (draw c.created) ∷ t.log })
        (record c { created = c.created + 1 }) inj
        (Fresh-insert draw c.created r t.rows inj fresh refl) later in
    (c', t', rw (first, fresh c.created (omega arith)) ran, λ f. omega (arith, count f), own)

-- A table that has what is wanted stays as it is.
provisioned_again :
    (draw : ℕ → Uuid) (now : DateTime) (desired : List NewPolicy) (t : PolicyTable)
    → ((k : NewPolicy) → managed_count (same_key k) t.rows ≡ count_where (same_key k) desired)
    → reconcile_policies draw now desired t ≡ ok (record { created = 0; deleted = 0 }, t)
unfolding reconcile_policies insert_wanted
provisioned_again draw now desired t h =
    let settled =
      match_existing-settled (managed_rows t) (start desired t)
        (λ k. count-managed (same_key k) t.rows ∙ h k) in
    rw settled refl

-- When ids are a primary key, the database draws new ones and its checks admit the rules of the
-- configuration, reconciliation succeeds, leaves the
-- managed rows that the configuration wants, each rule as often as it is wanted, and keeps the rows
-- that are not managed, in their order. A second one with the same configuration, at any later time,
-- creates and deletes nothing.
pub reconcile_policies-Provisioned :
    (draw : ℕ → Uuid) (now : DateTime) (desired : List NewPolicy) (t : PolicyTable)
    → UniqueIds t.rows
    → all is_storable desired ≡ true
    → Injective draw
    → Fresh draw 0 t.rows
    → (changes : PolicyChanges) × (t' : PolicyTable) × (reconcile_policies draw now desired t
        ≡ ok (changes, t'))
      × Provisioned desired t t'
      × ((draw' : ℕ → Uuid) (later : DateTime)
          → reconcile_policies draw' later desired t'
            ≡ ok (record { created = 0; deleted = 0 }, t'))
unfolding reconcile_policies
reconcile_policies-Provisioned draw now desired t unique storable inj fresh =
    let s = match_existing (managed_rows t) (start desired t) in
    let visits = start-Visits t unique in
    let (changes, t', ran, count, own) =
      insert_wanted-ok draw now s.wanted s.table s.changes inj
        (λ n le.
          match_existing-any (has_id (draw n)) (managed_rows t) (start desired t)
            (fresh n (omega arith)))
        (match_existing-wanted not_storable (managed_rows t) (start desired t)
          (all_storable desired storable)) in
    let counted : (k : NewPolicy)
        → managed_count (same_key k) t'.rows ≡ count_where (same_key k) desired =
      λ k.
        let kept = match_existing-count (same_key k) (managed_rows t) (start desired t) visits in
        let all_managed = managed_count-managed (same_key k) t.rows in
        omega (arith, count (same_key k), kept, all_managed) in
    (
      changes,
      t',
      ran,
      (counted, own ∙ match_existing-own (managed_rows t) (start desired t) visits),
      λ draw' later. provisioned_again draw' later desired t' counted,
    )
