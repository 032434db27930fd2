-- ===== src/Crypto/Keysets.antt =====
-- What loading and rotating the keyset of server/src/crypto/mod.rs keep.
use keychute.Crypto.{
  Packages, Keyset, KeysetFile, AadContext, wrap_dek, unwrap_dek, open_with_kek, open_sealed,
  rewrap, from_file, decode_key, decode_keys, kek, entry, key_from_slice, dek_wrap_aad,
  ephemeral_kek_id, unknown_kek, decrypt_failed, keyset,
}
use keychute.Crypto.Opened.{IsAead, unwrap-wrap}
use keychute.Prelude.{
  ◌≡◌, refl, true, false, not, none, some, List, [], ◌∷◌, arith, Text, ok, ok_pair_inj, take, drop,
  ok_or, err, ensure, length, any, is_empty, >>=-eq-ok, ok_inj, ok_or-eq-ok, ensure-eq-ok, text_eq,
  Bool-cases, inl, inr, ◌==◌, ==_iff, ltb,
}
use keychute.Store.Requests.{Sealed}

-- Each id has a key of the right length.
abbrev pub AllKeys : List (Text × Text) → Type 0
AllKeys [] = Unit
AllKeys (k ∷ keys) = (length k.1 ≡ 32) × AllKeys keys

-- What the server may rely on once the file is loaded.
pub record IsUsable (p : Packages) (ks : Keyset) : Type 0 where
  pub active_key : Text
  pub active : kek p ks ks.active ≡ ok active_key
  pub active_sized : length active_key ≡ 32
  pub not_reserved : kek p ks ephemeral_kek_id ≡ err (unknown_kek ephemeral_kek_id)
  pub sized : AllKeys ks.keys
  pub mac_sized : length ks.mac_key ≡ 32

key_from_slice-sized : (bytes key : Text) → key_from_slice bytes ≡ some key → length key ≡ 32
key_from_slice-sized bytes key h = elim (Bool-cases (length bytes == 32)) [
  | inr e ↦ let k = rw e at h in absurd (cc)
  | inl e ↦ let same : bytes ≡ key = ground arith in rw (← same) ((==_iff (length bytes) 32).0 e)
]

module _ (p : Packages) where
  decode_key-sized : (b64 key : Text) → decode_key p b64 ≡ ok key → length key ≡ 32
  unfolding decode_key
  decode_key-sized b64 key h =
      let (decoded, q, k) = >>=-eq-ok (ok_or (p.base64_decode b64) keyset) _ h in
      key_from_slice-sized decoded key (ok_or-eq-ok _ _ k)

  unwrap_dek-sized : (key blob dek : Text) → unwrap_dek p key blob ≡ ok dek → length dek ≡ 32
  unfolding unwrap_dek
  unwrap_dek-sized key blob dek h =
      let (u, long, h1) = >>=-eq-ok (ensure (ltb 24 (length blob)) decrypt_failed) _ h in
      let (bytes, plain, h2) =
        >>=-eq-ok (ok_or (p.decrypt key (take 24 blob) (drop 24 blob) dek_wrap_aad) decrypt_failed)
          _ h1 in
      key_from_slice-sized bytes dek (ok_or-eq-ok _ _ h2)

  -- The decoded keys have the ids of the file.
  decode_keys-entries :
      (file keys : List (Text × Text))
      → decode_keys p file ≡ ok keys
      → AllKeys keys
        × ((id : Text)
            → any (λ k. text_eq k.0 id) file ≡ true
            → (key : Text) × (entry keys id ≡ some key) × (length key ≡ 32))
        × ((id : Text) → any (λ k. text_eq k.0 id) file ≡ false → entry keys id ≡ none)
  unfolding decode_keys entry
  decode_keys-entries [] keys h =
      let same = ok_inj _ keys _ refl h in
      (rw (← same) tt, λ id e. absurd (cc), λ id e. rw (← same) refl)
  decode_keys-entries (k ∷ file) keys h =
      let (key, q, h') = >>=-eq-ok (decode_key p k.1) _ h in
      let (rest, q', h'') = >>=-eq-ok (decode_keys p file) _ h' in
      let same = ok_inj _ keys _ refl h'' in
      let size = decode_key-sized k.1 key q in
      let (all, there, absent) = decode_keys-entries file rest q' in
      (
        rw (← same) (size, all),
        λ id e. rw (← same) (elim (Bool-cases (text_eq k.0 id)) [
          | inl f ↦ (key, rw f refl, size)
          | inr f ↦ let (found, l, s) = there id (ground arith) in (found, rw f l, s)
        ]),
        λ id e.
            rw (← same)
              (let f : text_eq k.0 id ≡ false = ground arith in rw f (absent id (ground arith))),
      )

  -- A file that loads gives a keyset whose active key exists, whose keys have 32 bytes each, and in
  -- which the reserved id of the process-local key is unknown.
  pub from_file-IsUsable :
      (file : KeysetFile) (ks : Keyset) → from_file p file ≡ ok ks → IsUsable p ks
  unfolding from_file
  from_file-IsUsable file ks h =
      let (u, some_key, h1) = >>=-eq-ok (ensure (not (is_empty file.keys)) keyset) _ h in
      let (u1, present, h2) =
        >>=-eq-ok (ensure (any (λ k. text_eq k.0 file.active) file.keys) keyset) _ h1 in
      let (u2, free, h3) =
        >>=-eq-ok (ensure (not (any (λ k. text_eq k.0 ephemeral_kek_id) file.keys)) keyset) _ h2 in
      let (keys, decoded, h4) = >>=-eq-ok (decode_keys p file.keys) _ h3 in
      let (mac, mac_decoded, h5) = >>=-eq-ok (decode_key p file.mac_key) _ h4 in
      let same : ◌≡◌ {A = Keyset} (record { active = file.active; keys = keys; mac_key = mac }) ks =
        ok_inj _ ks _ refl h5 in
      let (all, there, absent) = decode_keys-entries file.keys keys decoded in
      let (key, found, size) = there file.active (ensure-eq-ok _ _ present) in
      let unreserved : any (λ k. text_eq k.0 ephemeral_kek_id) file.keys ≡ false =
        let e = ensure-eq-ok _ _ free in ground arith in
      rw (← same) (record {
        active_key = key;
        active = rw found refl;
        active_sized = size;
        not_reserved = rw (absent ephemeral_kek_id unreserved) refl;
        sized = all;
        mac_sized = decode_key-sized file.mac_key mac mac_decoded;
      })

  -- After a rewrap by an AEAD that opens what it sealed, with a nonce that fills its array, the
  -- payload opens under the active key to what it opened to before, in the same context.
  pub open-rewrap :
      IsAead p
      → (nonce : Text) (ks : Keyset) (s : Sealed) (aad : AadContext) (m blob id : Text)
      → length nonce ≡ 24
      → open_sealed p ks s aad ≡ ok m
      → rewrap p nonce ks s.wrapped_dek s.kek_id ≡ ok (blob, id)
      → (open_sealed p ks (record s { wrapped_dek = blob; kek_id = id }) aad ≡ ok m)
        × (id ≡ ks.active)
  unfolding open_sealed rewrap open_with_kek
  open-rewrap aead nonce ks s aad m blob id n opened h =
      let (key, found, h1) = >>=-eq-ok (kek p ks s.kek_id) _ opened in
      let (u, sized, h2) = >>=-eq-ok (ensure (length s.nonce == 24) decrypt_failed) _ h1 in
      let (dek, unwrapped, h3) = >>=-eq-ok (unwrap_dek p key s.wrapped_dek) _ h2 in
      let (old, old_found, r1) = >>=-eq-ok (kek p ks s.kek_id) _ h in
      let (active, active_found, r2) = >>=-eq-ok (kek p ks ks.active) _ r1 in
      let (dek', unwrapped', r3) = >>=-eq-ok (unwrap_dek p old s.wrapped_dek) _ r2 in
      let (blob', wrapped, r4) = >>=-eq-ok (wrap_dek p active nonce dek') _ r3 in
      let (blob_same, id_same) = ok_pair_inj refl r4 in
      let same_key : key ≡ old = ok_inj _ _ _ found old_found in
      let same_dek : dek ≡ dek' = ok_inj _ _ _ (rw same_key at unwrapped) unwrapped' in
      let again : unwrap_dek p active blob ≡ ok dek' =
        unwrap-wrap p aead active nonce dek' blob n
          (unwrap_dek-sized old s.wrapped_dek dek' unwrapped') (rw (← blob_same) at wrapped) in
      let nonce_ok = ensure-eq-ok _ _ sized in
      (rw (id_same, active_found, nonce_ok, again, ← same_dek) h3, id_same)
