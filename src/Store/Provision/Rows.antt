-- ===== src/Store/Provision/Rows.antt =====
-- The policy table under the deletions of server/src/db/provision.rs: ids are a primary key, so one
-- row goes.
use mathlib.Core.Path.{subst}
use keychute.Prelude.{
  ◌≡◌, refl, sym, ap, ◌∙◌, ◌+◌, Bool, true, false, not, List, [], ◌∷◌, any, ◌==◌, keep, count_where,
  In, inl, inr, arith, Bool-cases, keep_of_In, In-any, ==_refl,
}
use keychute.Store.Policies.{PolicyRow}
use keychute.Store.Provision.Counts.{one_if}
use keychute.Types.{Uuid}

abbrev pub has_id : Uuid → PolicyRow → Bool
has_id id r = r.id == id

-- The primary key.
abbrev pub UniqueIds : List PolicyRow → Type 0
UniqueIds [] = Unit
UniqueIds (r ∷ rows) = (any (has_id r.id) rows ≡ false) × UniqueIds rows

abbrev pub without : Uuid → List PolicyRow → List PolicyRow
without id rows = keep (λ r. not (r.id == id)) rows

pub any-keep :
    (p q : PolicyRow → Bool) (rows : List PolicyRow)
    → any p rows ≡ false
    → any p (keep q rows) ≡ false
any-keep p q [] h = refl
any-keep p q (r ∷ rows) h = let ih = any-keep p q rows in ground arith

pub keep-UniqueIds :
    (q : PolicyRow → Bool) (rows : List PolicyRow) → UniqueIds rows → UniqueIds (keep q rows)
keep-UniqueIds q [] u = u
keep-UniqueIds q (r ∷ rows) (h, u) = elim (Bool-cases (q r)) [
  | inl e ↦ rw e (any-keep (has_id r.id) q rows h, keep-UniqueIds q rows u)
  | inr e ↦ rw e (keep-UniqueIds q rows u)
]

without-absent :
    (id : Uuid) (rows : List PolicyRow) → any (has_id id) rows ≡ false → without id rows ≡ rows
without-absent id [] h = refl
without-absent id (r ∷ rows) h = let ih = without-absent id rows in ground arith

without-head :
    (r : PolicyRow) (rows : List PolicyRow)
    → any (has_id r.id) rows ≡ false
    → without r.id (r ∷ rows) ≡ rows
without-head r rows h = rw (==_refl r.id) (without-absent r.id rows h)

-- A row in the table other than the one at its head has another id.
pub other_id :
    (r x : PolicyRow) (rows : List PolicyRow)
    → any (has_id r.id) rows ≡ false
    → In x rows
    → (r.id == x.id) ≡ false
other_id r x rows h i = elim (Bool-cases (r.id == x.id)) [
  | inl e ↦
      let back : has_id r.id x ≡ true = ground arith in
      let k = In-any (has_id r.id) rows x i back in absurd (cc)
  | inr e ↦ e
]

pub without-count :
    (f : PolicyRow → Bool) (rows : List PolicyRow) (x : PolicyRow)
    → UniqueIds rows
    → In x rows
    → count_where f rows ≡ one_if (f x) + count_where f (without x.id rows)
without-count f [] x u i = absurd i
without-count f (r ∷ rows) x (h, u) (inl e) =
    subst (λ y. count_where f (r ∷ rows) ≡ one_if (f y) + count_where f (without y.id (r ∷ rows))) e
      (sym (ap (λ l. one_if (f r) + count_where f l) (without-head r rows h)))
without-count f (r ∷ rows) x (h, u) (inr i) =
    let ih = without-count f rows x u i in rw (other_id r x rows h i) (omega (arith, ih))

pub without-keep :
    (f : PolicyRow → Bool) (rows : List PolicyRow) (x : PolicyRow)
    → UniqueIds rows
    → In x rows
    → f x ≡ false
    → keep f (without x.id rows) ≡ keep f rows
without-keep f [] x u i e = absurd i
without-keep f (r ∷ rows) x (h, u) (inl q) e =
    let e' : f r ≡ false = rw q e in
    subst (λ y. keep f (without y.id (r ∷ rows)) ≡ keep f (r ∷ rows)) q
      (ap (keep f) (without-head r rows h) ∙ rw e' refl)
without-keep f (r ∷ rows) x (h, u) (inr i) e =
    rw (other_id r x rows h i, without-keep f rows x u i e) refl

-- A row of another id is still there.
pub without-In :
    (rows : List PolicyRow) (r x : PolicyRow)
    → In x rows
    → (x.id == r.id) ≡ false
    → In x (without r.id rows)
without-In rows r x i e = keep_of_In (λ y. not (y.id == r.id)) rows x i (rw e refl)
