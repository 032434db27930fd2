-- ===== src/Between.antt =====
-- A request's handler over time, in server/src/api/ and server/src/ui/. It accesses the database
-- several times; before its k-th access other requests commit what `others k` does. A failure keeps
-- what was committed before it. `E` is the handler's failures.
use keychute.Prelude.{ℕ, ◌≡◌, refl, ap, ok_inj, Bool, true, false, Result, ok, err}
use keychute.Store.{Db, DbError}
use keychute.Store.Steps.{Step, Reach, start, then_step}

abbrev pub Run : Type 0 → Type 0 → Type 0
Run E A = Db → Result E A × Db

-- How a failed transaction is reported.
pub record Raises (E : Type 0) : Type 0 where
  pub raise : DbError → E

abbrev pub go_on : {E A B : Type 0} → Result E A × Db → (A → Run E B) → Result E B × Db
go_on (ok a, db) rest = rest a db
go_on (err e, db) rest = (err e, db)

infixl 5 ◌>>=◌ ◌>>◌
unfoldable pub ◌>>=◌ : {E A B : Type 0} → Run E A → (A → Run E B) → Run E B
first >>= rest = λ db. go_on (first db) rest

abbrev pub ◌>>◌ : {E B : Type 0} → Run E (Unit {0}) → Run E B → Run E B
first >> rest = first >>= (λ _. rest)

-- A computation that does not touch the database.
unfoldable pub give : {E A : Type 0} → Result E A → Run E A
give r db = (r, db)

unfoldable pub when : {E : Type 0} → Bool → Run E (Unit {0}) → Run E (Unit {0})
unfolding give
when test act = elim test [ true ↦ act | false ↦ give (ok tt) ]

abbrev pub committed :
    {E A : Type 0} ⦃f : Raises E⦄ → Db → Result DbError (A × Db) → Result E A × Db
committed ⦃f⦄ db (ok (a, db')) = (ok a, db')
committed ⦃f⦄ db (err e) = (err (f.raise e), db)

module _ (others : ℕ → Db → Db) where
  unfoldable pub read : {E A : Type 0} → ℕ → (Db → A) → Run E A
  read k query db = (ok (query (others k db)), others k db)

  unfoldable pub transact :
      {E A : Type 0} ⦃f : Raises E⦄ → ℕ → (Db → Result DbError (A × Db)) → Run E A
  transact k tx db = committed (others k db) (tx (others k db))

  unfoldable pub change : {E : Type 0} → ℕ → (Db → Db) → Run E (Unit {0})
  change k act db = (ok tt, act (others k db))

pub Reach-trans : (a b c : Db) → Reach a b → Reach b c → Reach a c
Reach-trans a b c r start = r
Reach-trans a b c r (then_step d e s t) = then_step d e (Reach-trans a b d r s) t

-- A handler that only takes the store's transactions.
unfoldable pub IsSteps : {E A : Type 0} → Run E A → Type 0
IsSteps act = (db : Db) → Reach db (act db).1

pub give-IsSteps : {E A : Type 0} (r : Result E A) → IsSteps (give r)
unfolding IsSteps give
give-IsSteps r db = start

go_on-IsSteps :
    {E A B : Type 0} (db : Db) (o : Result E A × Db) (rest : A → Run E B)
    → Reach db o.1
    → ((a : A) → IsSteps (rest a))
    → Reach db (go_on o rest).1
unfolding IsSteps
go_on-IsSteps db (ok a, db') rest r s = Reach-trans db db' _ r (s a db')
go_on-IsSteps db (err e, db') rest r s = r

pub bind-IsSteps :
    {E A B : Type 0} (first : Run E A) (rest : A → Run E B)
    → IsSteps first
    → ((a : A) → IsSteps (rest a))
    → IsSteps (first >>= rest)
unfolding IsSteps ◌>>=◌
bind-IsSteps first rest r s db = go_on-IsSteps db (first db) rest (r db) s

pub when-IsSteps :
    {E : Type 0} (b : Bool) (act : Run E (Unit {0})) → IsSteps act → IsSteps (when b act)
unfolding when
when-IsSteps true act s = s
when-IsSteps false act s = give-IsSteps (ok tt)

module _ (others : ℕ → Db → Db) (steps : (k : ℕ) (db : Db) → Reach db (others k db)) where
  pub read-IsSteps :
      (E : Type 0) {A : Type 0} (k : ℕ) (query : Db → A) → IsSteps {E = E} (read others k query)
  unfolding IsSteps read
  read-IsSteps E k query db = steps k db

  committed-IsSteps :
      (E : Type 0) {A : Type 0} ⦃f : Raises E⦄ (db0 db : Db) (r : Result DbError (A × Db))
      → Reach db0 db
      → ((a : A) (db' : Db) → r ≡ ok (a, db') → Step db db')
      → Reach db0 (committed {E = E} db r).1
  committed-IsSteps E db0 db (ok (a, db')) reached s = then_step db db' reached (s a db' refl)
  committed-IsSteps E db0 db (err e) reached s = reached

  pub transact-IsSteps :
      (E : Type 0) {A : Type 0} ⦃f : Raises E⦄ (k : ℕ) (tx : Db → Result DbError (A × Db))
      → ((a : A) (db db' : Db) → tx db ≡ ok (a, db') → Step db db')
      → IsSteps {E = E} (transact others k tx)
  unfolding IsSteps transact
  transact-IsSteps E k tx s db =
      committed-IsSteps E db (others k db) (tx (others k db)) (steps k db)
        (λ a db' h. s a (others k db) db' h)

  pub change-IsSteps :
      (E : Type 0) (k : ℕ) (act : Db → Db)
      → ((db : Db) → Step db (act db))
      → IsSteps {E = E} (change others k act)
  unfolding IsSteps change
  change-IsSteps E k act s db = then_step (others k db) _ (steps k db) (s (others k db))

-- What an answer says of the accesses before it.
pub go_on-ok :
    {E A B : Type 0} (o : Result E A × Db) (rest : A → Run E B) (b : B) (db' : Db)
    → go_on o rest ≡ (ok b, db')
    → (a : A) × (o.0 ≡ ok a) × (rest a o.1 ≡ (ok b, db'))
go_on-ok (ok a, db) rest b db' h = (a, refl, h)
go_on-ok (err e, db) rest b db' h = let k = ap (λ p. p.0) h in absurd (cc)

pub committed-ok :
    (E : Type 0) {A : Type 0} ⦃f : Raises E⦄ (db : Db) (r : Result DbError (A × Db)) (a : A)
    → (committed {E = E} db r).0 ≡ ok a
    → r ≡ ok (a, (committed {E = E} db r).1)
committed-ok E db (ok (a', db')) a h =
    let q : a' ≡ a = ok_inj a' a (ok a') refl h in ap (λ x. ok (x, db')) q
committed-ok E db (err e) a h = absurd (cc)

pub answer_inj :
    {E A : Type 0} (a b : A) (db db' : Db)
    → ◌≡◌ {A = Result E A × Db} (ok a, db) (ok b, db')
    → a ≡ b
answer_inj {E} {A} a b db db' h =
    let k : ◌≡◌ {A = Result E A} (ok a) (ok b) = ap (λ p. p.0) h in ok_inj a b (ok a) refl k

pub no_answer :
    {E A : Type 0} (e : E) (b : A) (db db' : Db)
    → ◌≡◌ {A = Result E A × Db} (err e, db) (ok b, db')
    → ⊥
no_answer {E} {A} e b db db' h =
    let k : ◌≡◌ {A = Result E A} (err e) (ok b) = ap (λ p. p.0) h in absurd (cc)
