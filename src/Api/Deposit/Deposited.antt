-- ===== src/Api/Deposit/Deposited.antt =====
-- What the deposit of server/src/api/secrets.rs leaves in the database.
use mathlib.Core.Path.{subst}
use keychute.Api.{not_granted, policy_denied, invalid_request, request_too_large}
use keychute.Api.Between.{committed, go_on-ok, committed-ok, transact, give, ◌>>=◌, api_raises}
use keychute.Api.Deposit.{
  StoreSecretRequest, StoreSecretResponse, validate_name, deposit_value, deposit_params,
  is_name_byte, given_or, filled, sealed_or_none,
}
use keychute.Api.Deposit.Store.{Setting, store, answer_deposit}
use keychute.Crypto.{Packages, Keyset, Draws, CryptoError, secret_version, seal, open_sealed}
use keychute.Crypto.Opened.{IsAead, PrintsIds, IsDrawn, open-seal}
use keychute.Prelude.{
  ℕ, ◌≤◌, ◌≡◌, refl, sym, ap, ◌∙◌, true, false, not, none, some, ◌∷◌, Text, codes, Result, ok, err,
  ensure, or_err, ok_inj, >>=-eq-ok, ensure-eq-ok, some_inj, leb, leb→le, all, any, text_eq, length,
  is_empty, starts_with, count_where, arith,
}
use keychute.Prelude.Trim.{trim}
use keychute.Proxy.Template.{validate_injection}
use keychute.Store.{Db, ClientRow, SecretRow, SecretVersionRow}
use keychute.Store.Requests.{Sealed}
use keychute.Store.Secrets.{
  StoreSecretParams, DepositOutcome, created, name_taken, rate_limited, DepositRate, new_secret,
  new_version, is_recent_deposit, create_secret_from_client,
}
use keychute.Store.Secrets.Created.{create-Created}
use keychute.Types.{Uuid, Tier, tier_as_int}

-- A name that the deposit accepts.
pub record IsPlainName (s : Text) : Type 0 where
  pub filled : is_empty s ≡ false
  pub short : length s ≤ 128
  pub plain : all is_name_byte s ≡ true
  pub not_hidden : starts_with s (codes ".") ≡ false

validate_name-IsPlainName : (s : Text) {u : Unit {0}} → validate_name s ≡ ok u → IsPlainName s
unfolding validate_name
validate_name-IsPlainName s h =
    let (u1, q1, h1) =
      >>=-eq-ok (ensure (not (is_empty s)) (invalid_request (codes "name is required"))) _ h in
    let (u2, q2, h2) =
      >>=-eq-ok (ensure (leb (length s) 128) (request_too_large (codes "name too long"))) _ h1 in
    let spelled = ensure-eq-ok _ _ h2 in
    let given = ensure-eq-ok _ _ q1 in
    record {
      filled = ground arith;
      short = leb→le (length s) 128 (ensure-eq-ok _ _ q2);
      plain = ground arith;
      not_hidden = ground arith;
    }

-- What the handler passes to the transaction.
record Checked (p : Packages) (ks : Keyset) (d : Draws) (id : Uuid) (client : ClientRow)
    (req : StoreSecretRequest) (s : StoreSecretParams) : Type 0 where
  allowed : client.may_store_secrets ≡ true
  name : IsPlainName s.name
  value : Text
  is_value : deposit_value p req ≡ ok value
  secret_id : s.secret_id ≡ id
  max_tier : s.max_tier ≡ tier_as_int (given_or req.max_tier Tier.brokered)
  sealed : s.seal ≡ sealed_or_none (seal p d ks value (secret_version id 1))

deposit_params-Checked :
    (p : Packages) (ks : Keyset) (d : Draws) (id : Uuid) (client : ClientRow)
    (req : StoreSecretRequest) (s : StoreSecretParams)
    → deposit_params p ks d id client req ≡ ok s
    → Checked p ks d id client req s
unfolding deposit_params
deposit_params-Checked p ks d id client req s h =
    let (u, may, h1) =
      >>=-eq-ok
        (ensure client.may_store_secrets
          (policy_denied (not_granted (codes "client is not permitted to store secrets"))))
        _ h in
    let (u1, named, h2) = >>=-eq-ok (validate_name (trim req.name)) _ h1 in
    let (u2, described, h3) =
      >>=-eq-ok
        (ensure (leb (length req.description) 1024)
          (request_too_large (codes "description too long")))
        _ h2 in
    let (value, is_value, h4) = >>=-eq-ok (deposit_value p req) _ h3 in
    let (template, valid, h5) =
      >>=-eq-ok
        (or_err
          (validate_injection (given_or req.injection_kind (codes "bearer"))
            (filled req.injection_header) none)
          (invalid_request (codes "invalid injection template")))
        _ h4 in
    let same = ok_inj _ s _ refl h5 in
    record {
      allowed = ensure-eq-ok _ _ may;
      name =
          subst IsPlainName (ap (λ x. x.name) same)
            (validate_name-IsPlainName (trim req.name) named);
      value = value;
      is_value = is_value;
      secret_id = ap (λ x. x.secret_id) (sym same);
      max_tier = ap (λ x. x.max_tier) (sym same);
      sealed = ap (λ x. x.seal) (sym same);
    }

-- What is sealed in a version's row.
abbrev pub sealed_part : SecretVersionRow → Sealed
sealed_part v = record {
  ciphertext = v.ciphertext;
  nonce = v.nonce;
  wrapped_dek = v.wrapped_dek;
  kek_id = v.kek_id;
}

-- A deposit that was answered.
pub record Deposited (w : Setting) (req : StoreSecretRequest) (resp : StoreSecretResponse)
    (before after : Db) : Type 0 where
  pub allowed : w.client.may_store_secrets ≡ true
  pub name : IsPlainName resp.name
  pub new_name : any (λ t. text_eq t.name resp.name) before.secrets ≡ false
  pub under_cap :
      leb w.max_deposits_per_hour_per_client
        (count_where (is_recent_deposit w.now w.client.name 1) before.audit_log)
      ≡ false
  pub row : SecretRow
  pub secrets : after.secrets ≡ row ∷ before.secrets
  pub is_row :
      (row.id ≡ resp.secret_id)
      × (row.name ≡ resp.name)
      × (row.max_tier ≡ tier_as_int (given_or req.max_tier Tier.brokered))
      × (row.operator_vetted ≡ false)
  pub value : Text
  pub is_value : deposit_value w.packages req ≡ ok value
  pub version : SecretVersionRow
  pub versions : after.secret_versions ≡ version ∷ before.secret_versions
  pub opens :
      open_sealed w.packages w.keyset
        (sealed_part version)
        (secret_version resp.secret_id resp.version)
      ≡ ok value

sealed_or_none-some :
    (r : Result CryptoError Sealed) (s : Sealed) → sealed_or_none r ≡ some s → r ≡ ok s
sealed_or_none-some (ok t) s h = ap ok (some_inj t s h)
sealed_or_none-some (err e) s h = absurd (cc)

answer-created :
    (name : Text) (o : DepositOutcome) (resp : StoreSecretResponse)
    → answer_deposit name o ≡ ok resp
    → (o ≡ created resp.secret_id) × (resp.name ≡ name) × (resp.version ≡ 1)
answer-created name (created id) resp h =
    let same = ok_inj _ resp _ refl h in
    (
      ap (λ r. created r.secret_id) same,
      ap (λ r. r.name) (sym same),
      ap (λ r. r.version) (sym same),
    )
answer-created name name_taken resp h = absurd (cc)
answer-created name rate_limited resp h = absurd (cc)

opens-at :
    (p : Packages) (ks : Keyset) (s : Sealed) (m : Text) (i j : Uuid) (v : ℕ)
    → i ≡ j
    → v ≡ 1
    → open_sealed p ks s (secret_version j 1) ≡ ok m
    → open_sealed p ks s (secret_version i v) ≡ ok m
opens-at p ks s m i j v e f h = rw (e, f) h

-- When a deposit is answered, whatever other requests committed before its transaction: the client is
-- permitted to deposit and was under its cap; the name is a plain identifier that no secret had; the
-- only secret that was added is a row of that name, not vetted, with the tier that was asked for or
-- the tightest; and the only version that was added opens, under the keyset, to the value that was
-- sent. The AEAD and the printing of ids do what they document, and the draws fill their arrays.
pub store-Deposited :
    (w : Setting) (req : StoreSecretRequest) (resp : StoreSecretResponse) (db after : Db)
    → IsAead w.packages
    → PrintsIds w.packages
    → IsDrawn w.draws
    → store w req db ≡ (ok resp, after)
    → Deposited w req resp (w.others 0 db) after
unfolding store ◌>>=◌ give transact
store-Deposited w req resp db after aead ids drawn h =
    let before = w.others 0 db in
    let rate : DepositRate = record {
      max_per_window = w.max_deposits_per_hour_per_client;
      window_hours = 1;
    } in
    let (params, q0, h1) =
      go_on-ok (deposit_params w.packages w.keyset w.draws w.secret_id w.client req, db) _ resp
        after h in
    let tx = create_secret_from_client w.now w.version_id params w.client.name rate before in
    let (o, q1, h2) = go_on-ok (committed before tx) _ resp after h1 in
    let last : (committed before tx).1 ≡ after = ap (λ r. r.1) h2 in
    let (is_created, named, one) = answer-created params.name o resp (ap (λ r. r.0) h2) in
    let c = deposit_params-Checked w.packages w.keyset w.draws w.secret_id w.client req params q0 in
    let made : tx ≡ ok (created resp.secret_id, after) =
      committed-ok before tx o q1 ∙ rw (is_created, last) refl in
    let (id, t) =
      create-Created w.now w.version_id params w.client.name rate before after resp.secret_id
        made in
    let sealed = sealed_or_none-some _ t.sealed (sym c.sealed ∙ t.is_sealed) in
    record {
      allowed = c.allowed;
      name = rw named c.name;
      new_name = rw named t.new_name;
      under_cap = t.under_cap;
      row = new_secret w.now false params;
      secrets = t.secrets;
      is_row = (sym id, sym named, c.max_tier, refl);
      value = c.value;
      is_value = c.is_value;
      version = new_version w.now w.version_id params.secret_id 1 t.sealed none;
      versions = t.versions;
      opens =
          opens-at w.packages w.keyset t.sealed c.value _ _ _ (id ∙ c.secret_id) one
            (open-seal w.packages aead ids w.draws w.keyset c.value (secret_version w.secret_id 1)
              t.sealed drawn (omega arith) sealed).0;
    }
