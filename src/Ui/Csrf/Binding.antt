-- ===== src/Ui/Csrf/Binding.antt =====
-- What an accepted form token of server/src/ui/csrf.rs was issued for.
use keychute.Crypto.{ct_eq}
use keychute.Prelude.{
  ℕ, ◌+◌, ◌^◌, ◌<◌, ◌≤◌, ◌≡◌, refl, sym, ap, ◌∙◌, ◌≢◌, true, false, not, ◌&&◌, ◌↔◌, Option, some,
  [], ◌∷◌, ◌++◌, arith, Text, length, take, drop, take-append, drop-append, length-append,
  text_eq_iff, text_eq_refl, and_true,
}
use keychute.Prelude.Bytes.{be_bytes, from_be, from_be-be_bytes, length-be_bytes}
use keychute.Prelude.Int.{pos}
use keychute.Prelude.Numerals.{decimal_inj}
use keychute.Types.{DateTime}
use keychute.Ui.Csrf.{
  Form, mac_input, i64_of, out_of_date, timestamp, issue_token, verify_raw, verify_token,
}

-- No byte is 0.
abbrev pub NoNul : Text → Type 0
NoNul [] = Unit
NoNul (b ∷ s) = (b ≢ 0) × NoNul s

-- The fields that a server puts into a token have no 0: they are texts of a page.
abbrev pub IsPlain : Form → Type 0
IsPlain f = NoNul f.route × NoNul f.action_id × NoNul f.subject × NoNul f.form_state

-- Fields that end with 0 are told apart.
field_inj : (a b s t : Text) → NoNul a → NoNul b → a ++ 0 ∷ s ≡ b ++ 0 ∷ t → (a ≡ b) × (s ≡ t)
field_inj [] [] s t p q h = (refl, ap (drop 1) h)
field_inj [] (c ∷ b) s t p q h =
    let e : 0 ∷ [] ≡ c ∷ [] = ap (take 1) h in absurd (q.0 (ground arith))
field_inj (c ∷ a) [] s t p q h =
    let e : c ∷ [] ≡ 0 ∷ [] = ap (take 1) h in absurd (p.0 (ground arith))
field_inj (c ∷ a) (d ∷ b) s t p q h =
    let e : c ∷ [] ≡ d ∷ [] = ap (take 1) h in
    let (rest, tail) = field_inj a b s t p.1 q.1 (ap (drop 1) h) in
    let first : c ≡ d = ground arith in (rw (first, rest) refl, tail)

mac_input_inj :
    (f g : Form) (m n : ℕ)
    → IsPlain f
    → IsPlain g
    → m < 10 ^ 20
    → n < 10 ^ 20
    → mac_input f (pos m) ≡ mac_input g (pos n)
    → (f ≡ g) × (m ≡ n)
unfolding mac_input
mac_input_inj f g m n p q h k e =
    let (route, e1) = field_inj f.route g.route _ _ p.0 q.0 e in
    let (id, e2) = field_inj f.action_id g.action_id _ _ p.1 q.1 e1 in
    let (subject, e3) = field_inj f.subject g.subject _ _ p.2 q.2 e2 in
    let (state, e4) = field_inj f.form_state g.form_state _ _ p.3 q.3 e3 in
    (rw (route, id, subject, state) refl, decimal_inj m n h k e4)

-- What the server's MAC and base64 are assumed to do: a MAC has 32 bytes, and what was encoded
-- decodes.
pub record Encodes (csrf_mac base64_encode : Text → Text) (base64_decode : Text → Option Text)
    : Type 0 where
  pub sized : (s : Text) → length (csrf_mac s) ≡ 32
  pub decodes : (s : Text) → base64_decode (base64_encode s) ≡ some s

in_date_iff :
    (issued now : ℕ)
    → (out_of_date now (pos (issued + 900)) ≡ false) ↔ ((issued ≤ now) × (now < issued + 900))
in_date_iff issued now = ground arith

module _ (csrf_mac base64_encode : Text → Text) (base64_decode : Text → Option Text)
    (e : Encodes csrf_mac base64_encode base64_decode) where
  decoded-raw :
      (g : Form) (token raw : Text) (later : DateTime)
      → base64_decode token ≡ some raw
      → verify_token csrf_mac base64_decode g token later ≡ verify_raw csrf_mac g later raw
  unfolding verify_token
  decoded-raw g token raw later h = rw (h, verify_token) refl

  -- A token as the verification reads it.
  verify-issued :
      (f g : Form) (now later : DateTime)
      → timestamp now + 900 < 2 ^ 63
      → verify_token csrf_mac base64_decode g (issue_token csrf_mac base64_encode f now) later ≡ (
          not (out_of_date (timestamp later) (pos (timestamp now + 900)))
          && ct_eq
              (csrf_mac (mac_input f (pos (timestamp now + 900))))
              (csrf_mac (mac_input g (pos (timestamp now + 900)))))
  unfolding issue_token
  verify-issued f g now later h =
      let n = timestamp now + 900 in
      let mac = csrf_mac (mac_input f (pos n)) in
      let size : length (be_bytes 8 n ++ mac) ≡ 40 = omega (
        arith,
        length-append (be_bytes 8 n) mac,
        length-be_bytes 8 n,
        e.sized (mac_input f (pos n)),
      ) in
      let front : take 8 (be_bytes 8 n ++ mac) ≡ be_bytes 8 n =
        take-append (be_bytes 8 n) mac 8 (length-be_bytes 8 n) in
      let back : drop 8 (be_bytes 8 n ++ mac) ≡ mac =
        drop-append (be_bytes 8 n) mac 8 (length-be_bytes 8 n) in
      let expiry : from_be 0 (be_bytes 8 n) ≡ n = from_be-be_bytes 8 n (omega arith) in
      let signed : i64_of n ≡ pos n = ground arith in
      let raw : verify_raw csrf_mac g later (be_bytes 8 n ++ mac) ≡ (
          not (out_of_date (timestamp later) (pos n))
          && ct_eq mac (csrf_mac (mac_input g (pos n)))) =
        rw (size, front, back, expiry, signed) refl in
      decoded-raw g (base64_encode (be_bytes 8 n ++ mac)) (be_bytes 8 n ++ mac) later
        (e.decodes (be_bytes 8 n ++ mac))
      ∙ raw

  -- A token that was issued for a plain form is accepted for a plain form exactly if that is the same
  -- form and less than 15 minutes passed, if the MAC and base64 do what they document, the MAC does
  -- not collide on the inputs of these two forms, and the clock is below 2^63 - 900 seconds.
  pub verify-issue_iff :
      (f g : Form) (now later : DateTime)
      → IsPlain f
      → IsPlain g
      → timestamp now + 900 < 2 ^ 63
      → (csrf_mac (mac_input f (pos (timestamp now + 900)))
            ≡ csrf_mac (mac_input g (pos (timestamp now + 900)))
          → mac_input f (pos (timestamp now + 900)) ≡ mac_input g (pos (timestamp now + 900)))
      → (verify_token csrf_mac base64_decode g (issue_token csrf_mac base64_encode f now) later
          ≡ true)
        ↔ ((f ≡ g) × (timestamp now ≤ timestamp later) × (timestamp later < timestamp now + 900))
  verify-issue_iff f g now later p q bound apart =
      let n = timestamp now + 900 in
      let same = verify-issued f g now later bound in
      (
        λ h.
            let (date, macs) = and_true _ _ (sym same ∙ h) in
            let equal = (text_eq_iff (csrf_mac (mac_input f (pos n))) _).0 macs in
            let form = (mac_input_inj f g n n p q (omega arith) (omega arith) (apart equal)).0 in
            let fresh : out_of_date (timestamp later) (pos n) ≡ false = ground arith in
            let (after, before) = (in_date_iff (timestamp now) (timestamp later)).0 fresh in
            (form, after, before),
        λ (form, after, before).
            let fresh : out_of_date (timestamp later) (pos n) ≡ false =
              (in_date_iff (timestamp now) (timestamp later)).1 (after, before) in
            same ∙ rw (fresh, form) (text_eq_refl (csrf_mac (mac_input g (pos n)))),
      )
