-- ===== src/Crypto.antt =====
-- server/src/crypto/mod.rs: envelope encryption under the keyset, and its MACs. The AEAD, HMAC-SHA256
-- and base64 are packages, and `show_uuid` prints an id; the bytes that are drawn at random are
-- arguments. Zeroing freed memory is left out.
pub mod Opened
pub mod Keysets
use keychute.Prelude.Numerals
use mathlib.Core.Option
use keychute.Prelude.{
  ℕ, Bool, true, false, not, Option, none, some, List, [], ◌∷◌, ◌++◌, map, Text, codes, text_eq,
  Result, ok, err, ◌>>=◌, ◌>>◌, ensure, ok_or, or_err, ltb, ◌==◌, if◌then◌else◌, length, is_empty,
  any, take, drop,
}
use keychute.Store.Requests.{Sealed}
use keychute.Types.{Uuid}

pub record Packages : Type 0 where
  -- The key, the nonce, the message and the associated data.
  pub encrypt : Text → Text → Text → Text → Option Text
  pub decrypt : Text → Text → Text → Text → Option Text
  pub hmac_sha256 : Text → Text → Text
  pub base64_decode : Text → Option Text
  pub show_uuid : Uuid → Text

abbrev pub dek_wrap_aad : Text
dek_wrap_aad = codes "keychute/v1/dek-wrap"

abbrev pub ephemeral_kek_id : Text
ephemeral_kek_id = codes "ephemeral"

abbrev pub key_len : ℕ
key_len = 32

abbrev pub nonce_len : ℕ
nonce_len = 24

pub data CryptoError : Type 0 where
  keyset : CryptoError
  decrypt_failed : CryptoError
  unknown_kek : Text → CryptoError

pub data AadContext : Type 0 where
  secret_version : Uuid → ℕ → AadContext
  grant_passthrough request_context : Uuid → AadContext

pub record Keyset : Type 0 where
  pub active : Text
  pub keys : List (Text × Text)
  pub mac_key : Text

pub record KeysetFile : Type 0 where
  pub active : Text
  pub keys : List (Text × Text)
  pub mac_key : Text

-- What a seal draws.
pub record Draws : Type 0 where
  pub dek : Text
  pub payload_nonce : Text
  pub wrap_nonce : Text

abbrev pub key_from_slice : Text → Option Text
key_from_slice bytes = if length bytes == key_len then some bytes else none

-- The value of a key in a `HashMap`.
unfoldable pub entry : List (Text × Text) → Text → Option Text
entry [] id = none
entry (k ∷ keys) id = let rest = entry keys id in if text_eq k.0 id then some k.1 else rest

-- `ct_eq`: the comparison whose time is constant.
abbrev pub ct_eq : Text → Text → Bool
ct_eq = text_eq

module _ (p : Packages) where
  unfoldable pub derive : AadContext → Text
  derive (secret_version id version) =
      codes "keychute/v1/secret-version/" ++ (p.show_uuid id ++ b'/' ∷ Numerals.decimal version)
  derive (grant_passthrough id) = codes "keychute/v1/grant-passthrough/" ++ p.show_uuid id
  derive (request_context id) = codes "keychute/v1/request-context/" ++ p.show_uuid id

  -- The wrap nonce, then the wrapped key.
  unfoldable pub wrap_dek : Text → Text → Text → Result CryptoError Text
  wrap_dek kek wrap_nonce dek = do
    wrap_ct ← ok_or (p.encrypt kek wrap_nonce dek dek_wrap_aad) decrypt_failed
    ok (wrap_nonce ++ wrap_ct)

  unfoldable pub seal_with_kek : Draws → Text → Text → Text → AadContext → Result CryptoError Sealed
  seal_with_kek d kek kek_id plaintext aad = do
    ciphertext ← ok_or (p.encrypt d.dek d.payload_nonce plaintext (derive aad)) decrypt_failed
    wrapped_dek ← wrap_dek kek d.wrap_nonce d.dek
    ok (record {
      ciphertext = ciphertext;
      nonce = d.payload_nonce;
      wrapped_dek = wrapped_dek;
      kek_id = kek_id;
    })

  unfoldable pub unwrap_dek : Text → Text → Result CryptoError Text
  unwrap_dek kek wrapped_dek = do
    ensure (ltb nonce_len (length wrapped_dek)) decrypt_failed
    dek_bytes ←
        ok_or (p.decrypt kek (take nonce_len wrapped_dek) (drop nonce_len wrapped_dek) dek_wrap_aad)
          decrypt_failed
    ok_or (key_from_slice dek_bytes) decrypt_failed

  unfoldable pub open_with_kek : Text → Text → Text → Text → AadContext → Result CryptoError Text
  open_with_kek kek ciphertext nonce wrapped_dek aad = do
    ensure (length nonce == nonce_len) decrypt_failed
    dek ← unwrap_dek kek wrapped_dek
    ok_or (p.decrypt dek nonce ciphertext (derive aad)) decrypt_failed

  unfoldable pub decode_key : Text → Result CryptoError Text
  decode_key b64 = do
    decoded ← ok_or (p.base64_decode b64) keyset
    ok_or (key_from_slice decoded) keyset

  unfoldable pub decode_keys : List (Text × Text) → Result CryptoError (List (Text × Text))
  decode_keys [] = ok []
  decode_keys (k ∷ keys) = do key ← decode_key k.1; rest ← decode_keys keys; ok ((k.0, key) ∷ rest)

  unfoldable pub from_file : KeysetFile → Result CryptoError Keyset
  from_file file = do
    ensure (not (is_empty file.keys)) keyset
    ensure (any (λ k. text_eq k.0 file.active) file.keys) keyset
    ensure (not (any (λ k. text_eq k.0 ephemeral_kek_id) file.keys)) keyset
    keys ← decode_keys file.keys
    mac_key ← decode_key file.mac_key
    ok (record { active = file.active; keys = keys; mac_key = mac_key })

  abbrev pub kek : Keyset → Text → Result CryptoError Text
  kek ks kek_id = ok_or (entry ks.keys kek_id) (unknown_kek kek_id)

  unfoldable pub seal : Draws → Keyset → Text → AadContext → Result CryptoError Sealed
  seal d ks plaintext aad = do key ← kek ks ks.active; seal_with_kek d key ks.active plaintext aad

  unfoldable pub open_sealed : Keyset → Sealed → AadContext → Result CryptoError Text
  open_sealed ks s aad = do
    key ← kek ks s.kek_id
    open_with_kek key s.ciphertext s.nonce s.wrapped_dek aad

  unfoldable pub rewrap : Text → Keyset → Text → Text → Result CryptoError (Text × Text)
  rewrap wrap_nonce ks wrapped_dek old_kek_id = do
    old ← kek ks old_kek_id
    active ← kek ks ks.active
    dek ← unwrap_dek old wrapped_dek
    blob ← wrap_dek active wrap_nonce dek
    ok (blob, ks.active)

  -- `EphemeralKek`, whose key is drawn at startup.
  abbrev pub ephemeral_seal : Draws → Text → Text → AadContext → Result CryptoError Sealed
  ephemeral_seal d key plaintext aad = seal_with_kek d key ephemeral_kek_id plaintext aad

  abbrev pub ephemeral_open : Text → Sealed → AadContext → Result CryptoError Text
  ephemeral_open key s aad = open_with_kek key s.ciphertext s.nonce s.wrapped_dek aad

  unfoldable pub idem_mac : Keyset → Text → Text → Text
  idem_mac ks client payload =
      p.hmac_sha256 ks.mac_key (codes "keychute/v1/idem-mac" ++ 0 ∷ (client ++ 0 ∷ payload))

  unfoldable pub csrf_mac : Keyset → Text → Text
  csrf_mac ks payload = p.hmac_sha256 ks.mac_key (codes "keychute/v1/csrf" ++ 0 ∷ payload)
