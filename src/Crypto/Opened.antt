-- ===== src/Crypto/Opened.antt =====
-- What of server/src/crypto/mod.rs can be opened again, and with which context.
use keychute.Prelude.Numerals
use keychute.Crypto.{
  Packages, Draws, Keyset, AadContext, secret_version, grant_passthrough, request_context, derive,
  wrap_dek, unwrap_dek, seal_with_kek, open_with_kek, seal, open_sealed, kek, dek_wrap_aad,
  decrypt_failed,
}
use keychute.Prelude.{
  ◌<◌, ◌≤◌, ◌≡◌, refl, sym, ap, ◌∙◌, true, some, [], ◌∷◌, ◌++◌, arith, Text, ok, ok_or, length,
  take, drop, take-append, drop-append, length-append, >>=-eq-ok, ok_inj, ok_or-eq-ok, ltb, lt→ltb,
  ◌==◌,
}
use keychute.Store.{max_int}
use keychute.Store.Requests.{Sealed}
use keychute.Types.{Uuid}

-- The AEAD: it opens what it sealed, adds a tag, and refuses other associated data.
pub record IsAead (p : Packages) : Type 0 where
  pub opens :
      (key nonce m aad c : Text)
      → p.encrypt key nonce m aad ≡ some c
      → p.decrypt key nonce c aad ≡ some m
  pub tagged : (key nonce m aad c : Text) → p.encrypt key nonce m aad ≡ some c → 0 < length c
  pub authentic :
      (key nonce m aad c aad' m' : Text)
      → p.encrypt key nonce m aad ≡ some c
      → p.decrypt key nonce c aad' ≡ some m'
      → aad' ≡ aad

-- The text of an id has a fixed length, and each id its own.
pub record PrintsIds (p : Packages) : Type 0 where
  pub fixed : (a b : Uuid) → length (p.show_uuid a) ≡ length (p.show_uuid b)
  pub injective : (a b : Uuid) → p.show_uuid a ≡ p.show_uuid b → a ≡ b

-- The draws fill their arrays.
pub record IsDrawn (d : Draws) : Type 0 where
  pub dek : length d.dek ≡ 32
  pub payload_nonce : length d.payload_nonce ≡ 24
  pub wrap_nonce : length d.wrap_nonce ≡ 24

-- The version of a context is an `i32`.
abbrev pub InRange : AadContext → Type 0
InRange (secret_version id version) = version ≤ max_int
InRange _ = Unit

module _ (p : Packages) (ids : PrintsIds p) where
  -- Two contexts with the same bytes are the same.
  pub derive_inj : (a b : AadContext) → InRange a → InRange b → derive p a ≡ derive p b → a ≡ b
  unfolding derive
  derive_inj (secret_version a v) (secret_version b w) h k e =
      let tail : p.show_uuid a ++ (b'/' ∷ Numerals.decimal v)
          ≡ p.show_uuid b ++ (b'/' ∷ Numerals.decimal w) =
        ap (drop 27) e in
      let n = length (p.show_uuid b) in
      let same : p.show_uuid a ≡ p.show_uuid b =
        sym (take-append (p.show_uuid a) _ n (ids.fixed a b))
        ∙ (ap (take n) tail ∙ take-append (p.show_uuid b) _ n refl) in
      let printed : b'/' ∷ Numerals.decimal v ≡ b'/' ∷ Numerals.decimal w =
        sym (drop-append (p.show_uuid a) _ n (ids.fixed a b))
        ∙ (ap (drop n) tail ∙ drop-append (p.show_uuid b) _ n refl) in
      let version : v ≡ w =
        Numerals.decimal_inj v w (omega arith) (omega arith) (ap (drop 1) printed) in
      rw (ids.injective a b same, version) refl
  derive_inj (grant_passthrough a) (grant_passthrough b) h k e =
      ap grant_passthrough (ids.injective a b (ap (drop 30) e))
  derive_inj (request_context a) (request_context b) h k e =
      ap request_context (ids.injective a b (ap (drop 28) e))
  derive_inj (secret_version a v) (grant_passthrough b) h k e =
      let q : 115 ∷ [] ≡ 103 ∷ [] = ap (λ s. take 1 (drop 12 s)) e in absurd (ground arith)
  derive_inj (secret_version a v) (request_context b) h k e =
      let q : 115 ∷ [] ≡ 114 ∷ [] = ap (λ s. take 1 (drop 12 s)) e in absurd (ground arith)
  derive_inj (grant_passthrough a) (secret_version b v) h k e =
      let q : 103 ∷ [] ≡ 115 ∷ [] = ap (λ s. take 1 (drop 12 s)) e in absurd (ground arith)
  derive_inj (grant_passthrough a) (request_context b) h k e =
      let q : 103 ∷ [] ≡ 114 ∷ [] = ap (λ s. take 1 (drop 12 s)) e in absurd (ground arith)
  derive_inj (request_context a) (secret_version b v) h k e =
      let q : 114 ∷ [] ≡ 115 ∷ [] = ap (λ s. take 1 (drop 12 s)) e in absurd (ground arith)
  derive_inj (request_context a) (grant_passthrough b) h k e =
      let q : 114 ∷ [] ≡ 103 ∷ [] = ap (λ s. take 1 (drop 12 s)) e in absurd (ground arith)

module _ (p : Packages) (aead : IsAead p) where
  -- A wrapped key is unwrapped by the key that wrapped it.
  pub unwrap-wrap :
      (key nonce dek blob : Text)
      → length nonce ≡ 24
      → length dek ≡ 32
      → wrap_dek p key nonce dek ≡ ok blob
      → unwrap_dek p key blob ≡ ok dek
  unfolding wrap_dek unwrap_dek
  unwrap-wrap key nonce dek blob n d h =
      let (c, q, k) = >>=-eq-ok (ok_or (p.encrypt key nonce dek dek_wrap_aad) decrypt_failed) _ h in
      let wrapped = ok_or-eq-ok _ _ q in
      let same : nonce ++ c ≡ blob = ok_inj _ _ _ refl k in
      let long : ltb 24 (length blob) ≡ true =
        lt→ltb 24 (length blob)
          (rw (← same) (omega (arith, length-append nonce c, aead.tagged _ _ _ _ _ wrapped))) in
      let front : take 24 blob ≡ nonce = rw (← same) (take-append nonce c 24 n) in
      let back : drop 24 blob ≡ c = rw (← same) (drop-append nonce c 24 n) in
      let whole : (length dek == 32) ≡ true = rw d refl in
      rw (long, front, back, aead.opens _ _ _ _ _ wrapped, whole) refl

  -- The parts of a seal.
  sealed_by :
      (d : Draws) (key id plaintext : Text) (aad : AadContext) (s : Sealed)
      → seal_with_kek p d key id plaintext aad ≡ ok s
      → (p.encrypt d.dek d.payload_nonce plaintext (derive p aad) ≡ some s.ciphertext)
        × (wrap_dek p key d.wrap_nonce d.dek ≡ ok s.wrapped_dek)
        × (s.nonce ≡ d.payload_nonce)
        × (s.kek_id ≡ id)
  unfolding seal_with_kek
  sealed_by d key id plaintext aad s h =
      let (c, q, k) =
        >>=-eq-ok (ok_or (p.encrypt d.dek d.payload_nonce plaintext (derive p aad)) decrypt_failed)
          _ h in
      let (w, q', k') = >>=-eq-ok (wrap_dek p key d.wrap_nonce d.dek) _ k in
      let same = ok_inj _ s _ refl k' in
      let sealed = ok_or-eq-ok _ _ q in
      (rw (← same) sealed, rw (← same) q', rw (← same) refl, rw (← same) refl)

  -- Opening under the key that sealed is decrypting under the drawn key.
  opened_by :
      (d : Draws) (key : Text) (s : Sealed) (aad : AadContext)
      → IsDrawn d
      → wrap_dek p key d.wrap_nonce d.dek ≡ ok s.wrapped_dek
      → s.nonce ≡ d.payload_nonce
      → open_with_kek p key s.ciphertext s.nonce s.wrapped_dek aad
        ≡ ok_or (p.decrypt d.dek d.payload_nonce s.ciphertext (derive p aad)) decrypt_failed
  unfolding open_with_kek
  opened_by d key s aad drawn w n =
      let sized : (length s.nonce == 24) ≡ true = rw (n, drawn.payload_nonce) refl in
      let found = unwrap-wrap key d.wrap_nonce d.dek s.wrapped_dek drawn.wrap_nonce drawn.dek w in
      rw (sized, found, n) refl

  -- What `seal` made under a keyset opens under that keyset to the plaintext, in the context that it
  -- was sealed in and in no other, if the AEAD and the printing of ids do what they document, the
  -- draws fill their arrays and the versions are in range.
  pub open-seal :
      PrintsIds p
      → (d : Draws) (ks : Keyset) (plaintext : Text) (aad : AadContext) (s : Sealed) → IsDrawn d
      → InRange aad
      → seal p d ks plaintext aad ≡ ok s
      → (open_sealed p ks s aad ≡ ok plaintext)
        × ((aad' : AadContext) (m : Text)
            → InRange aad'
            → open_sealed p ks s aad' ≡ ok m
            → (aad' ≡ aad) × (m ≡ plaintext))
  unfolding seal open_sealed
  open-seal ids d ks plaintext aad s drawn range h =
      let (key, found, sealed) = >>=-eq-ok (kek p ks ks.active) _ h in
      let (c, w, n, id) = sealed_by d key ks.active plaintext aad s sealed in
      let lookup : kek p ks s.kek_id ≡ ok key = rw id found in
      let opened : open_sealed p ks s aad ≡ ok plaintext =
        rw (open_sealed, lookup, opened_by d key s aad drawn w n, aead.opens _ _ _ _ _ c) refl in
      (
        opened,
        λ aad' m range' other.
            let (key', found', tried) = >>=-eq-ok (kek p ks s.kek_id) _ other in
            let same : key' ≡ key = ok_inj _ _ _ found' lookup in
            let plain : p.decrypt d.dek d.payload_nonce s.ciphertext (derive p aad') ≡ some m =
              ok_or-eq-ok _ decrypt_failed
                (sym (opened_by d key s aad' drawn w n) ∙ rw (← same) tried) in
            let here : aad' ≡ aad =
              derive_inj p ids aad' aad range' range (aead.authentic _ _ _ _ _ _ _ c plain) in
            (here, ok_inj _ _ _ (rw here at other) opened),
      )
