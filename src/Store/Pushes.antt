-- ===== src/Store/Pushes.antt =====
-- The outbox of push messages: the counters and claims of server/src/notify/mod.rs, and the queries
-- of server/src/db/requests.rs and server/src/db/ui_ext.rs on it. The lists are in the table's
-- order, where the queries sort by age.
use keychute.Prelude.{
  ℕ, Bool, true, false, not, ◌&&◌, Option, none, some, List, [], ◌∷◌, text_eq, Result, ok, err, ltb,
  ◌==◌, ◌+◌, ◌*◌, if◌then◌else◌, any, keep, is_some,
}
use keychute.Store.{Db, DbError, AccessRequestRow, integer_out_of_range, max_int, update_where}
use keychute.Store.Requests.{is_pending}
use keychute.Types.{Uuid, DateTime, RequestState, Constraints, Origin, second}

-- Equality of the `constraints` column.
abbrev pub same_option : Option ℕ → Option ℕ → Bool
same_option none none = true
same_option (some a) (some b) = a == b
same_option _ _ = false

unfoldable pub same_list : {A : Type 0} → (A → A → Bool) → List A → List A → Bool
same_list same [] [] = true
same_list same [] (_ ∷ _) = false
same_list same (_ ∷ _) [] = false
same_list same (a ∷ s) (b ∷ t) = same a b && same_list same s t

abbrev pub same_origin : Origin → Origin → Bool
same_origin a b = text_eq a.host b.host && same_option a.port b.port

abbrev pub same_constraints : Constraints → Constraints → Bool
same_constraints a b =
    same_list same_origin a.origins b.origins
    && same_list text_eq a.methods b.methods
    && same_list text_eq a.path_prefixes b.path_prefixes
    && a.ttl_seconds == b.ttl_seconds
    && same_option a.max_uses b.max_uses

abbrev pub delivered_after : DateTime → Option DateTime → Bool
delivered_after since none = false
delivered_after since (some at) = ltb since at

-- A pending request with the same key whose push was really sent after `since`.
abbrev pub duplicates : AccessRequestRow → DateTime → AccessRequestRow → Bool
duplicates row since r =
    not (r.id == row.id)
    && text_eq r.client_name row.client_name
    && text_eq r.secret_name row.secret_name
    && text_eq r.mechanism row.mechanism
    && same_constraints r.constraints row.constraints
    && is_pending r.state
    && delivered_after since r.push_delivered_at
    && ltb 0 r.push_attempts

unfoldable pub recent_duplicate_push : AccessRequestRow → DateTime → Db → Bool
recent_duplicate_push row since db = any (duplicates row since) db.access_requests

abbrev pub attempted : AccessRequestRow → AccessRequestRow
attempted r = record r { push_attempts = r.push_attempts + 1 }

-- An `UPDATE` that counts one more attempt on the rows of a predicate, and whether there was one.
unfoldable pub count_attempt : (AccessRequestRow → Bool) → Db → Result DbError (Bool × Db)
count_attempt p db =
    if any (λ r. p r && r.push_attempts == max_int) db.access_requests
    then err integer_out_of_range
    else ok (
      any p db.access_requests,
      record db { access_requests = update_where p attempted db.access_requests },
    )

abbrev pub is_undelivered : AccessRequestRow → Bool
is_undelivered r = not (is_some r.push_delivered_at)

abbrev pub pushable : DateTime → Uuid → AccessRequestRow → Bool
pushable now id r = r.id == id && is_pending r.state && is_undelivered r && ltb now r.expires_at

abbrev pub fyi_pushable : Uuid → AccessRequestRow → Bool
fyi_pushable id r = r.id == id && r.notify_only && is_undelivered r

unfoldable pub claim_for_push : DateTime → Uuid → Db → Result DbError (Bool × Db)
claim_for_push now id = count_attempt (pushable now id)

unfoldable pub claim_for_fyi_push : Uuid → Db → Result DbError (Bool × Db)
claim_for_fyi_push id = count_attempt (fyi_pushable id)

unfoldable pub increment_push_attempts : Uuid → Db → Result DbError (Bool × Db)
increment_push_attempts id = count_attempt (λ r. r.id == id)

unfoldable pub list_pending_needing_push : DateTime → ℕ → Db → List AccessRequestRow
list_pending_needing_push now max_attempts db =
    keep
      (λ r.
        is_pending r.state
        && is_undelivered r
        && ltb r.push_attempts max_attempts
        && ltb now r.expires_at)
      db.access_requests

abbrev pub is_approved_state : RequestState → Bool
is_approved_state RequestState.approved = true
is_approved_state _ = false

unfoldable pub list_notify_only_needing_push : DateTime → ℕ → Db → List AccessRequestRow
list_notify_only_needing_push now retry_window_seconds db =
    keep
      (λ r.
        r.notify_only
        && is_approved_state r.state
        && is_undelivered r
        && ltb now (r.created_at + retry_window_seconds * second))
      db.access_requests
