-- ===== src/Api/Wait.antt =====
-- `wait` of server/src/api/requests.rs: the long poll on a request. The query string is the timeout
-- that it decodes to. Round k of the loop reads the process's clock as `instant k`, in microseconds,
-- and the access before it has the index k; `select!` only waits. The slot is dropped on return.
pub mod Ends
use keychute.Api.{ApiFailure, too_many_waits, AccessRequestStatus, owned_request, status_from_row}
use keychute.Api.Between.{Handler, ◌>>=◌, ◌>>◌, give, read, api_raises}
use keychute.Api.Slots.{SlotKind, SlotGuard, Slots, Caps, try_take_slot}
use keychute.Prelude.{
  ℕ, zero, suc, ◌+◌, ◌-◌, ◌*◌, Bool, true, false, not, ◌||◌, Option, none, some, Text, Result, ok,
  err, ok_or, leb, ltb, if◌then◌else◌,
}
use keychute.Store.{Db, AccessRequestRow}
use keychute.Store.Requests.{is_pending}
use keychute.Types.{Uuid, second}

-- One run: the configuration, the client that authentication found, the slots when one is taken, when
-- the deadline is computed, and what other requests commit before each access.
pub record Setting : Type 0 where
  pub client : Text
  pub wait_max_seconds : ℕ
  pub caps : Caps
  pub slots : Slots
  pub started : ℕ
  pub instant : ℕ → ℕ
  pub others : ℕ → Db → Db

abbrev pub min : ℕ → ℕ → ℕ
min a b = if leb a b then a else b

abbrev pub timeout_of : ℕ → Option ℕ → ℕ
timeout_of max none = max
timeout_of max (some t) = min t max

-- How long a round sleeps unless it is notified.
abbrev pub tick : ℕ → ℕ → ℕ
tick deadline now = min (deadline - now) second

-- A row that ended the loop, and the round that it ended in.
pub record Ended : Type 0 where
  pub row : AccessRequestRow
  pub round : ℕ

module _ (w : Setting) where
  abbrev pub is_done : ℕ → ℕ → AccessRequestRow → Bool
  is_done deadline k row = not (is_pending row.state) || leb deadline (w.instant k)

  -- At most `fuel` further rounds; `none` when the loop goes on.
  unfoldable pub wait_loop : ℕ → ℕ → Uuid → ℕ → AccessRequestRow → Handler (Option Ended)
  wait_loop zero deadline id k row =
      if is_done deadline k row
      then give (ok (some (record { row = row; round = k })))
      else give (ok none)
  wait_loop (suc fuel) deadline id k row =
      if is_done deadline k row then give (ok (some (record { row = row; round = k }))) else (do
        found ← read w.others (k + 1) (owned_request w.client id)
        again ← give found
        wait_loop fuel deadline id (k + 1) again)

  abbrev pub deadline_of : Option ℕ → ℕ
  deadline_of timeout_seconds = w.started + timeout_of w.wait_max_seconds timeout_seconds * second

  abbrev pub answer_ended : Option Ended → Handler (Option AccessRequestStatus)
  answer_ended none = give (ok none)
  answer_ended (some e) = do
    status ← read w.others (e.round + 1) (status_from_row e.row)
    give (ok (some status))

  unfoldable pub wait : ℕ → Uuid → Option ℕ → Handler (Option AccessRequestStatus)
  wait fuel id timeout_seconds = do
    found ← read w.others 0 (owned_request w.client id)
    row ← give found
    guard ← give (ok_or (try_take_slot w.caps w.client SlotKind.wait w.slots).0 too_many_waits)
    ended ← wait_loop fuel (deadline_of timeout_seconds) id 0 row
    answer_ended ended
