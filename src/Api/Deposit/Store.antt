-- ===== src/Api/Deposit/Store.antt =====
-- The handler of server/src/api/secrets.rs. Authentication gives the client's row.
use keychute.Api.{ApiFailure, secret_exists, too_many_deposits}
use keychute.Api.Between.{Handler, ◌>>=◌, give, transact, api_raises}
use keychute.Api.Deposit.{
  StoreSecretRequest, StoreSecretResponse, deposit_params, deposit_rate_window_hours,
}
use keychute.Crypto.{Packages, Keyset, Draws}
use keychute.Prelude.{ℕ, Text, Result, ok, err}
use keychute.Store.{Db, ClientRow}
use keychute.Store.Secrets.{
  DepositOutcome, created, name_taken, rate_limited, create_secret_from_client,
}
use keychute.Types.{Uuid, DateTime}

-- One run: the packages and the keyset, what is drawn, the limit of the configuration, the time of
-- the transaction, and what other requests commit before it.
pub record Setting : Type 0 where
  pub packages : Packages
  pub keyset : Keyset
  pub draws : Draws
  pub secret_id : Uuid
  pub version_id : Uuid
  pub client : ClientRow
  pub max_deposits_per_hour_per_client : ℕ
  pub others : ℕ → Db → Db
  pub now : DateTime

abbrev pub answer_deposit : Text → DepositOutcome → Result ApiFailure StoreSecretResponse
answer_deposit name (created id) = ok (record { secret_id = id; name = name; version = 1 })
answer_deposit name name_taken = err secret_exists
answer_deposit name rate_limited = err too_many_deposits

unfoldable pub store : Setting → StoreSecretRequest → Handler StoreSecretResponse
store w req = do
  params ← give (deposit_params w.packages w.keyset w.draws w.secret_id w.client req)
  outcome ← transact w.others 0 (
      create_secret_from_client w.now w.version_id params w.client.name (record {
        max_per_window = w.max_deposits_per_hour_per_client;
        window_hours = deposit_rate_window_hours;
      }))
  give (answer_deposit params.name outcome)
