-- ===== src/Api/Between.antt =====
-- The handlers of server/src/api/.
use keychute.Between
use keychute.Api.{ApiFailure, internal, store_failed}
use keychute.Between.{Run, Raises}
use keychute.Prelude.{ℕ, ◌≡◌, Result, ok}
use keychute.Store.{Db, DbError}
use keychute.Store.Steps.{Step, Reach}
unfoldable pub use keychute.Between.{
  ◌>>=◌, ◌>>◌, give, when, read, transact, change, go_on, committed, IsSteps,
}
pub use keychute.Between.{
  Reach-trans, give-IsSteps, bind-IsSteps, when-IsSteps, go_on-ok, answer_inj, no_answer,
}

abbrev pub Handler : Type 0 → Type 0
Handler A = Run ApiFailure A

instance abbrev pub api_raises : Raises ApiFailure
api_raises = record { raise = λ e. internal (store_failed e) }

module _ (others : ℕ → Db → Db) (steps : (k : ℕ) (db : Db) → Reach db (others k db)) where
  pub read-IsSteps :
      {A : Type 0} (k : ℕ) (query : Db → A) → IsSteps {E = ApiFailure} (read others k query)
  read-IsSteps k query = Between.read-IsSteps others steps ApiFailure k query

  pub transact-IsSteps :
      {A : Type 0} (k : ℕ) (tx : Db → Result DbError (A × Db))
      → ((a : A) (db db' : Db) → tx db ≡ ok (a, db') → Step db db')
      → IsSteps {E = ApiFailure} (transact others k tx)
  transact-IsSteps k tx s = Between.transact-IsSteps others steps ApiFailure k tx s

  pub change-IsSteps :
      (k : ℕ) (act : Db → Db)
      → ((db : Db) → Step db (act db))
      → IsSteps {E = ApiFailure} (change others k act)
  change-IsSteps k act s = Between.change-IsSteps others steps ApiFailure k act s

pub committed-ok :
    {A : Type 0} (db : Db) (r : Result DbError (A × Db)) (a : A)
    → (committed {E = ApiFailure} db r).0 ≡ ok a
    → r ≡ ok (a, (committed {E = ApiFailure} db r).1)
committed-ok db r a h = Between.committed-ok ApiFailure db r a h
