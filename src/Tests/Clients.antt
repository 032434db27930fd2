-- ===== src/Tests/Clients.antt =====
-- server/src/api/secrets.rs, the long poll of requests.rs and the slots of state.rs, at small inputs.
use keychute.Api.Wait
use keychute.Api.{owned_request, status_from_row, too_many_deposits}
use keychute.Api.Between.{◌>>=◌, give, read, transact}
use keychute.Api.Deposit.{
  StoreSecretRequest, StoreSecretResponse, validate_name, deposit_value, deposit_params,
}
use keychute.Api.Deposit.Deposited.{Deposited, store-Deposited}
use keychute.Api.Deposit.Store.{Setting, store}
use keychute.Api.Grants.{SecretEncoding}
use keychute.Api.Slots.{SlotKind, Slots, SlotGuard, Caps, cap_of, or_zero, try_take_slot, drop_slot}
use keychute.Api.Slots.Counted.{Slotted, Runs, idle, then_slotted, held_by, Runs-Agrees}
use keychute.Api.Wait.{deadline_of, wait_loop, wait}
use keychute.Api.Wait.Ends.{Waits, Settled, notices, wait-Settled}
use keychute.Crypto.{derive, wrap_dek, seal_with_kek, seal, entry}
use keychute.Crypto.Opened.{IsDrawn}
use keychute.Prelude.{
  ◌≡◌, refl, false, true, none, some, [], ◌∷◌, arith, codes, text_eq, starts_with, ok, err,
  to_ascii_lowercase, ◌≤◌, zero, suc, ◌*◌, ℕ,
}
use keychute.Prelude.Numerals.{decimal}
use keychute.Prelude.Trim.{drop_space, trim}
use keychute.Proxy.Template.{validate_injection, validate_header}
use keychute.Store.{Db, ClientRow, AccessRequestRow}
use keychute.Store.Secrets.{create_secret_from_client, insert_secret, insert_version}
use keychute.Tests.Crypto.{toy, draws, older, toy-IsAead, toy-PrintsIds}
use keychute.Types.{Tier, RequestState}

abbrev depositor : ClientRow
depositor = record {
  name = codes "agent";
  max_tier = 0;
  mechanisms = [];
  enabled = true;
  may_store_secrets = true;
}

abbrev empty : Db
empty = record {
  clients = depositor ∷ [];
  secrets = [];
  secret_versions = [];
  secret_tags = [];
  access_requests = [];
  grants = [];
  grant_reads = [];
  audit_log = [];
}

abbrev request : StoreSecretRequest
request = record {
  name = codes " token ";
  description = codes "a token";
  value = codes "hunter2";
  encoding = SecretEncoding.utf8;
  max_tier = some Tier.direct;
  injection_kind = some (codes "header");
  injection_header = some (codes "X-Api-Key");
}

abbrev setting : Setting
setting = record {
  packages = toy;
  keyset = older;
  draws = draws;
  secret_id = 7;
  version_id = 8;
  client = depositor;
  max_deposits_per_hour_per_client = 1;
  others = λ k db. db;
  now = 100;
}

run : Unit {0}
unfolding store ◌>>=◌ give read transact deposit_params validate_name deposit_value
    validate_injection validate_header to_ascii_lowercase trim drop_space text_eq starts_with
    create_secret_from_client insert_secret insert_version seal seal_with_kek wrap_dek derive entry
    decimal
run = tt

abbrev after : Db
after = (store setting request empty).1

abbrev stored_answer : StoreSecretResponse
stored_answer = record { secret_id = 7; name = codes "token"; version = 1 }

deposits : store setting request empty ≡ (ok stored_answer, after)
unfolding run
deposits = refl

drawn : IsDrawn draws
drawn = record { dek = refl; payload_nonce = refl; wrap_nonce = refl }

store-Deposited_example : Deposited setting request stored_answer empty after
store-Deposited_example =
    store-Deposited setting request stored_answer empty after toy-IsAead toy-PrintsIds drawn
      deposits

-- The cap of the window is reached.
again : (store (record setting { others = λ k db. after }) request empty).0 ≡ err too_many_deposits
unfolding run
again = refl

abbrev caps : Caps
caps = record { max_waits_per_client = 1; max_proxy_streams_per_client = 8 }

abbrev none_taken : Slots
none_taken = λ which client. none

abbrev guard : SlotGuard
guard = record { client = codes "agent"; which = SlotKind.wait }

abbrev one_taken : Slots
one_taken = (try_take_slot caps (codes "agent") SlotKind.wait none_taken).1

takes : (try_take_slot caps (codes "agent") SlotKind.wait none_taken).0 ≡ some guard
unfolding try_take_slot text_eq
takes = refl

runs : Runs caps one_taken (guard ∷ [])
runs =
    then_slotted none_taken one_taken [] (guard ∷ []) idle
      (Slotted.taken (codes "agent") SlotKind.wait guard takes)

Runs-Agrees_example :
    (or_zero (one_taken SlotKind.wait (codes "agent"))
      ≡ held_by SlotKind.wait (codes "agent") (guard ∷ []))
    × (held_by SlotKind.wait (codes "agent") (guard ∷ []) ≤ cap_of caps SlotKind.wait)
Runs-Agrees_example = Runs-Agrees caps one_taken (guard ∷ []) SlotKind.wait (codes "agent") runs

-- A second wait of the client is refused, and a drop gives the slot back.
second_refused : (try_take_slot caps (codes "agent") SlotKind.wait one_taken).0 ≡ none
unfolding try_take_slot text_eq
second_refused = refl

given_back : drop_slot guard one_taken SlotKind.wait (codes "agent") ≡ none
unfolding try_take_slot drop_slot text_eq
given_back = refl

abbrev row : AccessRequestRow
row = record {
  id = 20;
  client_name = codes "agent";
  secret_name = codes "token";
  mechanism = codes "cli-read";
  constraints = record {
    origins = [];
    methods = [];
    path_prefixes = [];
    ttl_seconds = 60;
    max_uses = none;
  };
  context_ciphertext = none;
  context_nonce = none;
  context_wrapped_dek = none;
  context_kek_id = none;
  state = RequestState.pending;
  policy_not_after = none;
  deny_reason = none;
  resolved_by = none;
  created_at = 1;
  resolved_at = none;
  expires_at = 90000000;
  push_delivered_at = none;
  push_attempts = 0;
  notify_only = false;
  idem_client = codes "agent";
  idem_key = codes "key";
  idem_mac = codes "m";
}

abbrev asked : Db
asked = record empty { access_requests = row ∷ [] }

-- Two seconds, without a notification.
abbrev polling : Wait.Setting
polling = record {
  client = codes "agent";
  wait_max_seconds = 2;
  caps = caps;
  slots = none_taken;
  started = 0;
  instant = λ k. k * 1000000;
  others = λ k db. db;
}

quiet : (n : ℕ) → notices (λ k. false) n ≤ 0
unfolding notices
quiet zero = omega arith
quiet (suc n) = let ih = quiet n in omega arith

unwoken : Waits polling (deadline_of polling none) (λ k. false) 0
unwoken = record {
  begins = omega arith;
  forward = λ k. omega arith;
  sleeps = λ k h. ground arith;
  few = quiet;
}

wait-Settled_example :
    Settled polling (deadline_of polling none) 20 asked (wait polling 2 20 none asked)
wait-Settled_example = wait-Settled polling 20 none 0 2 (λ k. false) asked unwoken (omega arith)

polled_pending : (wait polling 2 20 none asked).0 ≡ ok (some (status_from_row row asked))
unfolding wait wait_loop ◌>>=◌ give read owned_request try_take_slot text_eq
polled_pending = refl
