-- ===== src/Paths/Canonical.antt =====
-- What `canonicalize` of paths.rs returns, and which texts it returns unchanged but for one decoding.
use keychute.Paths.{
  check_characters, encoded_backslash, Rejection, decode, plain, escaped, chars, check_decoded,
  canonicalize, is_control, is_dot_segment, has_double_slash, hex_val, dot_segment, encoded_slash,
}
use keychute.Prelude.{
  byte_at, before_byte, text_eq, ℕ, ◌+◌, ◌*◌, ◌<◌, ◌≡◌, refl, ◌≢◌, inl, inr, true, false, not, none,
  some, List, [], ◌∷◌, arith, Text, codes, Result, ok, err, ◌>>=◌, ensure, ok_or, ◌==◌, Bool-cases,
  Option-cases, any, split_byte, starts_with, >>=-eq-ok,
}

-- Each element of a byte string is a byte.
abbrev pub Bytes : Text → Type 0
Bytes [] = Unit
Bytes (b ∷ s) = (b < 256) × Bytes s

-- No backslash, which canonicalisation refuses raw and encoded.
abbrev pub NoBackslash : Text → Type 0
NoBackslash [] = Unit
NoBackslash (b ∷ s) = (b ≢ 92) × NoBackslash s

-- A path as the proxy and the policy rows hold it.
pub record IsCanonical (s : Text) : Type 0 where
  pub rooted : starts_with s (codes "/") ≡ true
  pub characters : List ℕ
  pub well_formed : chars s ≡ some characters
  pub printable : any is_control characters ≡ false
  pub no_backslash : NoBackslash s
  pub no_dot_segment : any is_dot_segment (split_byte b'/' s) ≡ false
  pub no_empty_segment : has_double_slash s ≡ false

pub decode-plain : (b : ℕ) (rest : Text) → b ≢ b'%' → decode (b ∷ rest) ≡ plain b (decode rest)
unfolding decode
decode-plain b [] h = ground arith
decode-plain b (c ∷ []) h = ground arith
decode-plain b (c ∷ d ∷ rest) h = ground arith

pub decode-nil : decode [] ≡ ok []
unfolding decode
decode-nil = refl

pub decode-escape :
    (h l : ℕ) (rest : Text) → decode (b'%' ∷ h ∷ l ∷ rest) ≡ escaped h l (decode rest)
unfolding decode
decode-escape h l rest = refl

plain-ok :
    (b : ℕ) (m : Result Rejection Text) (s : Text)
    → plain b m ≡ ok s
    → (b ≢ 92) × (t : Text) × (m ≡ ok t) × (s ≡ b ∷ t)
plain-ok b (ok t) s h = (ground arith, t, refl, ground arith)
plain-ok b (err e) s h = absurd (ground arith)

hex_val-lt : (b v : ℕ) → hex_val b ≡ some v → v < 16
hex_val-lt b v h = ground arith

-- The rest of the arm for '%', once the digits have been read.
escape-parts :
    (v : ℕ) (m : Result Rejection Text) (s : Text)
    → (ensure (not (v == b'/')) encoded_slash >>= λ _.
        ensure (not (v == 92)) encoded_backslash >>= λ _. m >>= λ decoded. ok (v ∷ decoded))
      ≡ ok s
    → (v ≢ 92) × ((t : Text) × (m ≡ ok t) × (s ≡ v ∷ t))
escape-parts v (ok t) s e = (ground arith, (t, refl, ground arith))
escape-parts v (err r) s e = absurd (ground arith)

escaped-ok :
    (h l : ℕ) (m : Result Rejection Text) (s : Text)
    → escaped h l m ≡ ok s
    → (b : ℕ) × (t : Text) × (m ≡ ok t) × (s ≡ b ∷ t) × (b ≢ 92) × (b < 256)
escaped-ok h l m s e = elim (Option-cases (hex_val h)) [
  | inl bad ↦ absurd (ground arith)
  | inr (hv, high) ↦ elim (Option-cases (hex_val l)) [
    | inl bad ↦ absurd (ground arith)
    | inr (lv, low) ↦
        let small : hv * 16 + lv < 256 = omega (arith, hex_val-lt h hv high, hex_val-lt l lv low) in
        let (a, b) = escape-parts (hv * 16 + lv) m s (rw (high, low) at e) in
        (hv * 16 + lv, b.0, b.1, b.2, a, small)
  ]
]

literal :
    (b : ℕ) (rest t : Text)
    → b < 256
    → ((u : Text) → decode rest ≡ ok u → Bytes u × NoBackslash u)
    → plain b (decode rest) ≡ ok t
    → Bytes t × NoBackslash t
literal b rest t small ih h =
    let (back, u, k, q) = plain-ok b (decode rest) t h in
    let (x, y) = ih u k in rw q ((small, x), (back, y))

-- Decoding bytes gives bytes, with no backslash among them.
decode-Bytes : (s t : Text) → Bytes s → decode s ≡ ok t → Bytes t × NoBackslash t
unfolding decode
decode-Bytes [] t small h = let e : t ≡ [] = ground arith in rw e (tt, tt)
decode-Bytes (b ∷ []) t small h = elim (Bool-cases (b == b'%')) [
  | inl e ↦ absurd (ground arith)
  | inr e ↦
      literal b [] t small.0 (λ u k. let q : u ≡ [] = ground arith in rw q (tt, tt)) (rw e at h)
]
decode-Bytes (b ∷ c ∷ []) t small h = elim (Bool-cases (b == b'%')) [
  | inl e ↦ absurd (ground arith)
  | inr e ↦ literal b (c ∷ []) t small.0 (λ u. decode-Bytes (c ∷ []) u small.1) (rw e at h)
]
decode-Bytes (b ∷ c ∷ d ∷ rest) t small h = elim (Bool-cases (b == b'%')) [
  | inl e ↦
      let (v, u, k, q, back, low) = escaped-ok c d (decode rest) t (rw e at h) in
      let (x, y) = decode-Bytes rest u small.1.1.1 k in rw q ((low, x), (back, y))
  | inr e ↦
      literal b (c ∷ d ∷ rest) t small.0 (λ u. decode-Bytes (c ∷ d ∷ rest) u small.1) (rw e at h)
]

check_decoded-none : (s t : Text) → chars s ≡ none → ¬ (check_decoded s ≡ ok t)
unfolding check_decoded
check_decoded-none s t e h = absurd (ground arith)

check_decoded-some :
    (s t : Text) (cs : List ℕ)
    → chars s ≡ some cs
    → check_decoded s ≡ ok t
    → (t ≡ s)
      × (characters : List ℕ) × (chars s ≡ some characters)
      × (any is_control characters ≡ false)
      × (any is_dot_segment (split_byte b'/' s) ≡ false)
      × (has_double_slash s ≡ false)
unfolding check_decoded
check_decoded-some s t cs e h =
    let k : check_characters s cs ≡ ok t = rw (e, ok_or) at h in
    (ground arith, cs, e, ground arith, ground arith, ground arith)

check_decoded-ok :
    (s t : Text)
    → check_decoded s ≡ ok t
    → (t ≡ s)
      × (characters : List ℕ) × (chars s ≡ some characters)
      × (any is_control characters ≡ false)
      × (any is_dot_segment (split_byte b'/' s) ≡ false)
      × (has_double_slash s ≡ false)
check_decoded-ok s t h = elim (Option-cases (chars s)) [
  | inl e ↦ absurd (check_decoded-none s t e h)
  | inr (cs, e) ↦ check_decoded-some s t cs e h
]

-- A path that the checks accept, reached by one decoding of an absolute path, is the result.
pub canonicalize_of_decode :
    (raw s : Text)
    → starts_with raw (codes "/") ≡ true
    → decode raw ≡ ok s
    → IsCanonical s
    → canonicalize raw ≡ ok s
unfolding canonicalize check_decoded
canonicalize_of_decode raw s h d c =
    rw (h, d)
      (rw (c.well_formed, ok_or) (rw (c.printable, c.no_dot_segment, c.no_empty_segment) refl))

canonicalize-ok :
    (raw s : Text)
    → canonicalize raw ≡ ok s
    → (starts_with raw (codes "/") ≡ true)
      × (t : Text) × (decode raw ≡ ok t)
      × (check_decoded t ≡ ok s)
unfolding canonicalize
canonicalize-ok raw s h = elim (Bool-cases (starts_with raw (codes "/"))) [
  | inr e ↦ absurd (ground arith)
  | inl e ↦ let (t, d, k) = >>=-eq-ok (decode raw) check_decoded (rw e at h) in (e, t, d, k)
]

decode-rooted :
    (raw t : Text)
    → starts_with raw (codes "/") ≡ true
    → decode raw ≡ ok t
    → starts_with t (codes "/") ≡ true
unfolding starts_with
decode-rooted [] t r h = absurd (ground arith)
decode-rooted (b ∷ rest) t r h =
    let (_, u, _, q) = plain-ok b (decode rest) t (rw (decode-plain b rest (ground arith)) at h) in
    rw q (ground arith)

-- What canonicalisation accepts is canonical: absolute, well-formed UTF-8 without control
-- characters, backslashes, empty segments, or segments that are dots before their first ';'.
-- The input is a string of bytes, and so is the result.
pub canonicalize-IsCanonical :
    (raw s : Text) → Bytes raw → canonicalize raw ≡ ok s → IsCanonical s × Bytes s
canonicalize-IsCanonical raw s small h =
    let (rooted, t, decoded, checked) = canonicalize-ok raw s h in
    let (same, cs, formed, printable, dots, slashes) = check_decoded-ok t s checked in
    let (bytes, back) = decode-Bytes raw t small decoded in
    (
      record {
        rooted = rw same (decode-rooted raw t rooted decoded);
        characters = cs;
        well_formed = rw same formed;
        printable = printable;
        no_backslash = rw same back;
        no_dot_segment = rw same dots;
        no_empty_segment = rw same slashes;
      },
      rw same bytes,
    )

canonicalize_tests :
    (canonicalize (codes "/a%20b") ≡ ok (codes "/a b"))
    × (canonicalize (codes "/..%3b/x") ≡ err dot_segment)
    × (canonicalize (codes "/a%2fb") ≡ err encoded_slash)
unfolding canonicalize starts_with decode check_decoded chars split_byte text_eq before_byte
    has_double_slash byte_at
canonicalize_tests = (refl, refl, refl)
