-- ===== src/Tests/Crypto.antt =====
-- server/src/crypto/mod.rs with a toy AEAD: a keyset, a seal, and a rotation of its key.
use keychute.Prelude.Numerals
use keychute.Crypto.{
  Packages, Draws, Keyset, KeysetFile, AadContext, secret_version, derive, wrap_dek, unwrap_dek,
  seal_with_kek, open_with_kek, seal, open_sealed, rewrap, from_file, decode_key, decode_keys,
  entry,
}
use keychute.Crypto.Keysets.{IsUsable, from_file-IsUsable, open-rewrap}
use keychute.Crypto.Opened.{IsAead, PrintsIds, IsDrawn, InRange, open-seal}
use keychute.Prelude.{
  ℕ, ◌≡◌, refl, ◌&&◌, Option, none, some, [], ◌∷◌, ◌++◌, arith, Text, codes, text_eq, text_eq_refl,
  text_eq_iff, ok, length, take, drop, take-append, drop-append, ◌==◌, ==_refl, if◌then◌else◌,
  Bool-cases, inl, inr, and_true, some_inj,
}
use keychute.Store.Requests.{Sealed}

-- The associated data in clear, with its length, before the message.
abbrev toy_encrypt : Text → Text → Text → Text → Option Text
toy_encrypt key nonce m aad = some (length aad ∷ (aad ++ m))

abbrev toy_decrypt : Text → Text → Text → Text → Option Text
toy_decrypt key nonce [] aad = none
toy_decrypt key nonce (n ∷ c) aad =
    if n == length aad && text_eq (take n c) aad then some (drop n c) else none

abbrev pub toy : Packages
toy = record {
  encrypt = toy_encrypt;
  decrypt = toy_decrypt;
  hmac_sha256 = λ key m. key;
  base64_decode = λ s. some s;
  show_uuid = λ id. id ∷ [];
}

toy_opens : (key nonce m aad : Text) → toy_decrypt key nonce (length aad ∷ (aad ++ m)) aad ≡ some m
toy_opens key nonce m aad =
    rw
      (
        ==_refl (length aad),
        take-append aad m (length aad) refl,
        text_eq_refl aad,
        drop-append aad m (length aad) refl,
      )
      refl

toy_authentic :
    (key nonce m aad aad' m' : Text)
    → toy_decrypt key nonce (length aad ∷ (aad ++ m)) aad' ≡ some m'
    → aad' ≡ aad
toy_authentic key nonce m aad aad' m' h =
    elim (Bool-cases (length aad == length aad' && text_eq (take (length aad) (aad ++ m)) aad')) [
      | inr e ↦ let k = rw e at h in absurd (cc)
      | inl e ↦
          let (n, same) = and_true (length aad == length aad') _ e in
          let front : take (length aad) (aad ++ m) ≡ aad = take-append aad m (length aad) refl in
          let equal = (text_eq_iff (take (length aad) (aad ++ m)) aad').0 same in
          rw (← equal, front) refl
    ]

pub toy-IsAead : IsAead toy
toy-IsAead = record {
  opens = λ key nonce m aad c h.
      let q : length aad ∷ (aad ++ m) ≡ c = some_inj _ c h in rw (← q) (toy_opens key nonce m aad);
  tagged = λ key nonce m aad c h.
      let q : length aad ∷ (aad ++ m) ≡ c = some_inj _ c h in rw (← q) (omega arith);
  authentic = λ key nonce m aad c aad' m' h k.
      let q : length aad ∷ (aad ++ m) ≡ c = some_inj _ c h in
      toy_authentic key nonce m aad aad' m' (rw (← q) at k);
}

pub toy-PrintsIds : PrintsIds toy
toy-PrintsIds = record { fixed = λ a b. refl; injective = λ a b h. ground arith }

abbrev key_of : ℕ → Text
key_of b =
    b ∷ b ∷ b ∷ b ∷ b ∷ b ∷ b ∷ b ∷ b ∷ b ∷ b ∷ b ∷ b ∷ b ∷ b ∷ b ∷ b ∷ b ∷ b ∷ b ∷ b ∷ b ∷ b ∷ b
    ∷ b ∷ b ∷ b ∷ b ∷ b ∷ b ∷ b ∷ b ∷ []

abbrev pub draws : Draws
draws = record {
  dek = key_of 1;
  payload_nonce = take 24 (key_of 2);
  wrap_nonce = take 24 (key_of 3);
}

abbrev file : KeysetFile
file = record {
  active = codes "k1";
  keys = (codes "k0", key_of 4) ∷ (codes "k1", key_of 5) ∷ [];
  mac_key = key_of 9;
}

abbrev loaded : Keyset
loaded = record { active = codes "k1"; keys = file.keys; mac_key = key_of 9 }

abbrev pub older : Keyset
older = record loaded { active = codes "k0" }

abbrev context : AadContext
context = secret_version 7 1

run : Unit {0}
unfolding from_file decode_key decode_keys text_eq entry seal seal_with_kek wrap_dek unwrap_dek
    open_with_kek open_sealed rewrap derive Numerals.decimal
run = tt

loads : from_file toy file ≡ ok loaded
unfolding run
loads = refl

from_file-IsUsable_example : IsUsable toy loaded
from_file-IsUsable_example = from_file-IsUsable toy file loaded loads

abbrev sealed : Sealed
sealed = record {
  ciphertext =
      30 ∷ (codes "keychute/v1/secret-version/" ++ (7 ∷ b'/' ∷ b'1' ∷ [])) ++ codes "hunter2";
  nonce = take 24 (key_of 2);
  wrapped_dek = take 24 (key_of 3) ++ (20 ∷ (codes "keychute/v1/dek-wrap" ++ key_of 1));
  kek_id = codes "k0";
}

seals : seal toy draws older (codes "hunter2") context ≡ ok sealed
unfolding run
seals = refl

opened : open_sealed toy older sealed context ≡ ok (codes "hunter2")
unfolding run
opened = refl

-- The same statement for the seal above.
abbrev OpensOnlyHere : Type 0
OpensOnlyHere =
    (open_sealed toy older sealed context ≡ ok (codes "hunter2"))
    × ((aad' : AadContext) (m : Text)
        → InRange aad'
        → open_sealed toy older sealed aad' ≡ ok m
        → (aad' ≡ context) × (m ≡ codes "hunter2"))

drawn : IsDrawn draws
drawn = record { dek = refl; payload_nonce = refl; wrap_nonce = refl }

open-seal_example : OpensOnlyHere
open-seal_example =
    open-seal toy toy-IsAead toy-PrintsIds draws older (codes "hunter2") context sealed drawn
      (omega arith) seals

abbrev blob : Text
blob = take 24 (key_of 6) ++ (20 ∷ (codes "keychute/v1/dek-wrap" ++ key_of 1))

rewrapped :
    rewrap toy (take 24 (key_of 6)) loaded sealed.wrapped_dek (codes "k0") ≡ ok (blob, codes "k1")
unfolding run
rewrapped = refl

still_opens : open_sealed toy loaded sealed context ≡ ok (codes "hunter2")
unfolding run
still_opens = refl

open-rewrap_example :
    (open_sealed toy loaded (record sealed { wrapped_dek = blob; kek_id = codes "k1" }) context
      ≡ ok (codes "hunter2"))
    × (codes "k1" ≡ codes "k1")
open-rewrap_example =
    open-rewrap toy toy-IsAead (take 24 (key_of 6)) loaded sealed context (codes "hunter2") blob
      (codes "k1") refl still_opens rewrapped
