-- ===== src/Api/Wait/Ends.antt =====
-- The long poll of server/src/api/requests.rs ends in the first round that has an answer.
use mathlib.Core.Path.{subst}
use keychute.Api.{
  ApiFailure, not_found, too_many_waits, AccessRequestStatus, owned_request, status_from_row,
}
use keychute.Api.Between.{go_on, give, read, ◌>>=◌}
use keychute.Api.Slots.{SlotKind, SlotGuard, try_take_slot}
use keychute.Api.Wait.{
  Setting, Ended, tick, timeout_of, is_done, wait_loop, deadline_of, answer_ended, wait,
}
use keychute.Prelude.{
  ℕ, zero, suc, ◌+◌, ◌-◌, ◌/◌, ◌≤◌, ◌<◌, ◌≡◌, ◌⊎◌, refl, ap, ◌∙◌, Bool, true, false, not, ◌||◌,
  Option, none, some, arith, Text, Result, ok, err, ok_or, leb, ◌==◌, ==_iff, if◌then◌else◌,
  Bool-cases, inl, inr,
}
use keychute.Store.{Db, AccessRequestRow}
use keychute.Store.Requests.{is_pending}
use keychute.Types.{Uuid}

-- How many of the first rounds ended by a notification.
unfoldable pub notices : (ℕ → Bool) → ℕ → ℕ
notices notified zero = 0
notices notified (suc n) = notices notified n + (if notified n then 1 else 0)

-- `select!` returns when it was notified or has slept, the clock does not go back, and at most `most`
-- notifications arrive.
pub record Waits (w : Setting) (deadline : ℕ) (notified : ℕ → Bool) (most : ℕ) : Type 0 where
  pub begins : w.started ≤ w.instant 0
  pub forward : (k : ℕ) → w.instant k ≤ w.instant (k + 1)
  pub sleeps :
      (k : ℕ) → notified k ≡ false → w.instant k + tick deadline (w.instant k) ≤ w.instant (k + 1)
  pub few : (n : ℕ) → notices notified n ≤ most

-- The seconds that a deadline is away, rounded up.
abbrev rounds_left : ℕ → ℕ → ℕ
rounds_left deadline now = (deadline - now + 999999) / 1000000

-- The database that the k-th access finds, when the handler itself commits nothing.
unfoldable pub seen : Setting → Db → ℕ → Db
seen w db zero = w.others 0 db
seen w db (suc k) = w.others (k + 1) (seen w db k)

-- Before round k, the client's request was pending and the deadline ahead.
abbrev pub WaitsUntil : Setting → ℕ → Uuid → Db → ℕ → Type 0
WaitsUntil w deadline id db k =
    (j : ℕ)
    → j < k
    → (row : AccessRequestRow) × (owned_request w.client id (seen w db j) ≡ ok row)
      × (is_pending row.state ≡ true)
      × (w.instant j < deadline)

-- The poll ends in round k, which finds the request decided or the deadline passed, and reads the
-- status of what it found once more.
pub record EndsIn (w : Setting) (deadline : ℕ) (id : Uuid) (db db' : Db) (s : AccessRequestStatus)
    : Type 0 where
  pub round : ℕ
  pub row : AccessRequestRow
  pub found : owned_request w.client id (seen w db round) ≡ ok row
  pub over : (is_pending row.state ≡ false) ⊎ (deadline ≤ w.instant round)
  pub first : WaitsUntil w deadline id db round
  pub last : db' ≡ seen w db (round + 1)
  pub told : s ≡ status_from_row row db'

-- The request is not there, or is another client's, in some round.
pub record IsGone (w : Setting) (deadline : ℕ) (id : Uuid) (db : Db) : Type 0 where
  pub round : ℕ
  pub missing : owned_request w.client id (seen w db round) ≡ err not_found
  pub first : WaitsUntil w deadline id db round

abbrev Answered : Setting → ℕ → Uuid → Db → Result ApiFailure (Option Ended) × Db → Type 0
Answered w deadline id db (err e, db') = (e ≡ not_found) × IsGone w deadline id db
Answered w deadline id db (ok none, db') = ⊥
Answered w deadline id db (ok (some e), db') =
    (owned_request w.client id (seen w db e.round) ≡ ok e.row)
    × (is_done w deadline e.round e.row ≡ true)
    × WaitsUntil w deadline id db e.round
    × (db' ≡ seen w db e.round)

seen-next : (w : Setting) (db : Db) (k : ℕ) → w.others (k + 1) (seen w db k) ≡ seen w db (k + 1)
unfolding seen
seen-next w db k = let q : suc k ≡ k + 1 = omega arith in ap (seen w db) q

owned_request-err :
    (client : Text) (id : Uuid) (db : Db) (e : ApiFailure)
    → owned_request client id db ≡ err e
    → e ≡ not_found
unfolding owned_request
owned_request-err client id db e h = ground arith

notices-next :
    (notified : ℕ → Bool) (k : ℕ)
    → notices notified (k + 1) ≡ notices notified k + (if notified k then 1 else 0)
unfolding notices
notices-next notified k = let q : k + 1 ≡ suc k = omega arith in rw q refl

used_notice :
    (deadline now next c c' most fuel : ℕ)
    → now < deadline
    → now ≤ next
    → c' ≡ c + 1
    → c' ≤ most
    → rounds_left deadline now + (most - c) ≤ suc fuel
    → rounds_left deadline next + (most - c') ≤ fuel
used_notice deadline now next c c' most fuel away later one bound h = omega arith

slept_tick :
    (deadline now next c c' most fuel : ℕ)
    → now < deadline
    → now + tick deadline now ≤ next
    → c' ≡ c
    → rounds_left deadline now + (most - c) ≤ suc fuel
    → rounds_left deadline next + (most - c') ≤ fuel
slept_tick deadline now next c c' most fuel away slept same h = ground arith

no_rounds : (deadline now n : ℕ) → now < deadline → rounds_left deadline now + n ≤ 0 → ⊥
no_rounds deadline now n h k = ground arith

not_done :
    (p : Bool) (deadline now : ℕ)
    → (not p || leb deadline now) ≡ false
    → (p ≡ true) × (now < deadline)
not_done p deadline now h = ground arith

done :
    (p : Bool) (deadline now : ℕ)
    → (not p || leb deadline now) ≡ true
    → (p ≡ false) ⊎ (deadline ≤ now)
done p deadline now h = ground arith

WaitsUntil-next :
    (w : Setting) (deadline : ℕ) (id : Uuid) (db : Db) (k : ℕ) (row : AccessRequestRow)
    → WaitsUntil w deadline id db k
    → owned_request w.client id (seen w db k) ≡ ok row
    → is_done w deadline k row ≡ false
    → WaitsUntil w deadline id db (k + 1)
WaitsUntil-next w deadline id db k row first found going j less = elim (Bool-cases (j == k)) [
  | inl e ↦
      let same : k ≡ j = omega (arith, (==_iff j k).0 e) in
      let (p, ahead) = not_done (is_pending row.state) deadline (w.instant k) going in
      subst
        (λ n.
          (r : AccessRequestRow) × (owned_request w.client id (seen w db n) ≡ ok r)
          × (is_pending r.state ≡ true)
          × (w.instant n < deadline))
        same (row, found, p, ahead)
  | inr e ↦ let earlier : j < k = ground arith in first j earlier
]

module _ (w : Setting) (deadline most : ℕ) (notified : ℕ → Bool)
    (waits : Waits w deadline notified most) where
  -- A round brings the deadline nearer or uses up a notification.
  round-nearer :
      (fuel k : ℕ)
      → w.instant k < deadline
      → rounds_left deadline (w.instant k) + (most - notices notified k) ≤ suc fuel
      → rounds_left deadline (w.instant (k + 1)) + (most - notices notified (k + 1)) ≤ fuel
  round-nearer fuel k away h =
      let next = notices-next notified k in
      let bound = waits.few (k + 1) in
      let later = waits.forward k in
      elim (Bool-cases (notified k)) [
        | inl e ↦
            let one : notices notified (k + 1) ≡ notices notified k + 1 = next ∙ rw e refl in
            used_notice deadline _ _ _ _ most fuel away later one bound h
        | inr e ↦
            let none_now : notices notified (k + 1) ≡ notices notified k =
              next ∙ rw e (omega arith) in
            let slept = waits.sleeps k e in
            slept_tick deadline _ _ _ _ most fuel away slept none_now h
      ]

  module _ (id : Uuid) (db : Db) where
    next-Answered :
        (fuel k : ℕ) (r : Result ApiFailure AccessRequestRow)
        → owned_request w.client id (seen w db (k + 1)) ≡ r
        → WaitsUntil w deadline id db (k + 1)
        → ((row : AccessRequestRow)
            → owned_request w.client id (seen w db (k + 1)) ≡ ok row
            → Answered w deadline id db
                (wait_loop w fuel deadline id (k + 1) row (seen w db (k + 1))))
        → Answered w deadline id db
            (go_on (r, seen w db (k + 1)) (λ again. wait_loop w fuel deadline id (k + 1) again))
    next-Answered fuel k (ok row) found first rest = rest row found
    next-Answered fuel k (err e) found first rest =
        let gone = owned_request-err w.client id (seen w db (k + 1)) e found in
        (gone, record { round = k + 1; missing = found ∙ ap err gone; first = first })

    loop-Answered :
        (fuel k : ℕ) (row : AccessRequestRow)
        → rounds_left deadline (w.instant k) + (most - notices notified k) ≤ fuel
        → owned_request w.client id (seen w db k) ≡ ok row
        → WaitsUntil w deadline id db k
        → Answered w deadline id db (wait_loop w fuel deadline id k row (seen w db k))
    unfolding wait_loop give read ◌>>=◌
    loop-Answered zero k row h found first = elim (Bool-cases (is_done w deadline k row)) [
      | inl e ↦ rw e (found, e, first, refl)
      | inr e ↦
          let (p, ahead) = not_done (is_pending row.state) deadline (w.instant k) e in
          absurd (no_rounds deadline (w.instant k) _ ahead h)
    ]
    loop-Answered (suc fuel) k row h found first = elim (Bool-cases (is_done w deadline k row)) [
      | inl e ↦ rw e (found, e, first, refl)
      | inr e ↦
          let (p, ahead) = not_done (is_pending row.state) deadline (w.instant k) e in
          let later = WaitsUntil-next w deadline id db k row first found e in
          rw (e, seen-next w db k)
            (next-Answered fuel k (owned_request w.client id (seen w db (k + 1))) refl later
              (λ again found'.
                loop-Answered fuel (k + 1) again (round-nearer fuel k ahead h) found' later))
    ]

-- An answer of the handler: a status of the round that the poll ends in, or one of two failures.
abbrev pub Settled :
    Setting → ℕ → Uuid → Db → Result ApiFailure (Option AccessRequestStatus) × Db → Type 0
Settled w deadline id db (err e, db') =
    ((e ≡ not_found) × IsGone w deadline id db)
    ⊎ ((e ≡ too_many_waits) × ((try_take_slot w.caps w.client SlotKind.wait w.slots).0 ≡ none))
Settled w deadline id db (ok none, db') = ⊥
Settled w deadline id db (ok (some s), db') = EndsIn w deadline id db db' s

answer-Settled :
    (w : Setting) (deadline : ℕ) (id : Uuid) (db : Db) (o : Result ApiFailure (Option Ended) × Db)
    → Answered w deadline id db o
    → Settled w deadline id db (go_on o (answer_ended w))
unfolding ◌>>=◌ give read
answer-Settled w deadline id db (err e, db') h = inl h
answer-Settled w deadline id db (ok none, db') h = absurd h
answer-Settled w deadline id db (ok (some e), db') (found, ended, first, at_) = record {
  round = e.round;
  row = e.row;
  found = found;
  over = done (is_pending e.row.state) deadline (w.instant e.round) ended;
  first = first;
  last = ap (w.others (e.round + 1)) at_ ∙ seen-next w db e.round;
  told = refl;
}

-- With a round for each second of the timeout and for each notification, the wait is answered: it
-- does not run on. It answers in the first round that finds the request decided or the deadline
-- passed, with the status of the row that this round found; or that the request is not the client's,
-- which a round found before that; or that the client has no wait slot left. The clock does not go
-- back, and a round that is not notified lasts its tick.
pub wait-Settled :
    (w : Setting) (id : Uuid) (timeout_seconds : Option ℕ) (most fuel : ℕ) (notified : ℕ → Bool)
    (db : Db)
    → Waits w (deadline_of w timeout_seconds) notified most
    → timeout_of w.wait_max_seconds timeout_seconds + most ≤ fuel
    → Settled w (deadline_of w timeout_seconds) id db (wait w fuel id timeout_seconds db)
unfolding wait ◌>>=◌ give read notices seen
wait-Settled w id timeout_seconds most fuel notified db waits enough =
    found (owned_request w.client id (w.others 0 db)) refl
  where
    -- With the slot.
    polled :
        (row : AccessRequestRow) (g : Option SlotGuard)
        → owned_request w.client id (w.others 0 db) ≡ ok row
        → (try_take_slot w.caps w.client SlotKind.wait w.slots).0 ≡ g
        → Settled w (deadline_of w timeout_seconds) id db (
            go_on
              (ok_or g too_many_waits, w.others 0 db)
              (λ guard.
                wait_loop w fuel (deadline_of w timeout_seconds) id 0 row
                >>= (λ ended. answer_ended w ended)))
    polled row none at_ free = inr (refl, free)
    polled row (some g) at_ free =
        let begins = waits.begins in
        let answered =
          loop-Answered w (deadline_of w timeout_seconds) most notified waits id db fuel 0 row
            (omega arith) at_ (λ j less. absurd (omega arith)) in
        answer-Settled w (deadline_of w timeout_seconds) id db _ answered

    found :
        (r : Result ApiFailure AccessRequestRow)
        → owned_request w.client id (w.others 0 db) ≡ r
        → Settled w (deadline_of w timeout_seconds) id db (
            go_on
              (r, w.others 0 db)
              (λ row.
                give (ok_or (try_take_slot w.caps w.client SlotKind.wait w.slots).0 too_many_waits)
                >>= (λ guard.
                    wait_loop w fuel (deadline_of w timeout_seconds) id 0 row
                    >>= (λ ended. answer_ended w ended))))
    found (ok row) at_ = polled row (try_take_slot w.caps w.client SlotKind.wait w.slots).0 at_ refl
    found (err e) at_ =
        let gone = owned_request-err w.client id (w.others 0 db) e at_ in
        inl (
          gone,
          record { round = 0; missing = at_ ∙ ap err gone; first = λ j less. absurd (omega arith) },
        )
