-- ===== src/Paths/Prefix.antt =====
-- Laws of `prefix_matches`: it is an order on prefixes, and prefixes of one path are comparable.
pub mod Itself
use mathlib.Core.Logic.{◌↔◌}
use keychute.Paths.{prefix_matches}
use keychute.Prelude.{
  ℕ, ◌≡◌, refl, sym, ap, ◌∙◌, inl, inr, ◌⊎◌, Bool, true, false, and_true, ◌&&◌, ◌||◌, [], ◌∷◌, ◌++◌,
  ◌≢◌, ◌↔◌, map, arith, Text, codes, ltb, ◌==◌, length, is_empty, text_eq, text_eq_iff, starts_with,
  byte_at, Bool-cases, trim_end_byte, lower_byte, to_ascii_lowercase,
}

-- `p` is all of the path, or is followed in it by a slash.
abbrev Under : Text → Text → Type 0
Under [] [] = Unit
Under [] (c ∷ x) = c ≡ b'/'
Under (a ∷ p) [] = ⊥
Under (a ∷ p) (c ∷ x) = (a ≡ c) × Under p x

Under-refl : (p : Text) → Under p p
Under-refl [] = tt
Under-refl (a ∷ p) = (refl, Under-refl p)

Under-trans : (p q x : Text) → Under p q → Under q x → Under p x
Under-trans [] [] x h k = k
Under-trans [] (b ∷ q) [] h k = tt
Under-trans [] (b ∷ q) (c ∷ x) h k = sym k.0 ∙ h
Under-trans (a ∷ p) [] x h k = absurd h
Under-trans (a ∷ p) (b ∷ q) [] h k = absurd k
Under-trans (a ∷ p) (b ∷ q) (c ∷ x) h k = (h.0 ∙ k.0, Under-trans p q x h.1 k.1)

Under-comparable : (p q x : Text) → Under p x → Under q x → Under p q ⊎ Under q p
Under-comparable [] [] x h k = inl tt
Under-comparable [] (b ∷ q) [] h k = absurd k
Under-comparable [] (b ∷ q) (c ∷ x) h k = inl (k.0 ∙ h)
Under-comparable (a ∷ p) [] [] h k = absurd h
Under-comparable (a ∷ p) [] (c ∷ x) h k = inr (h.0 ∙ k)
Under-comparable (a ∷ p) (b ∷ q) [] h k = absurd h
Under-comparable (a ∷ p) (b ∷ q) (c ∷ x) h k = elim (Under-comparable p q x h.1 k.1) [
  | inl u ↦ inl (h.0 ∙ sym k.0, u)
  | inr u ↦ inr (k.0 ∙ sym h.0, u)
]

lower_byte_slash : (c : ℕ) → c ≡ b'/' → lower_byte c ≡ b'/'
lower_byte_slash c h = ground arith

Under-lower : (p x : Text) → Under p x → Under (map lower_byte p) (map lower_byte x)
Under-lower [] [] h = tt
Under-lower [] (c ∷ x) h = lower_byte_slash c h
Under-lower (a ∷ p) [] h = absurd h
Under-lower (a ∷ p) (c ∷ x) h = (ap lower_byte h.0, Under-lower p x h.1)

trim : Text → Text
trim = trim_end_byte b'/'

Under-trim : (b : Text) → Under (trim b) b
unfolding trim trim_end_byte
Under-trim [] = tt
Under-trim (c ∷ b) = elim (Bool-cases (is_empty (trim_end_byte b'/' b) && c == b'/')) [
  | inl e ↦ rw e (ground arith)
  | inr e ↦ rw e (refl, Under-trim b)
]

Under-empty : (p : Text) → Under p [] → p ≡ []
Under-empty [] h = refl
Under-empty (a ∷ p) h = absurd h

is_empty-eq : (s : Text) → is_empty s ≡ true → s ≡ []
is_empty-eq [] h = refl
is_empty-eq (a ∷ s) h = cc

trim-trim : (s : Text) → trim (trim s) ≡ trim s
unfolding trim trim_end_byte
trim-trim [] = refl
trim-trim (c ∷ s) = ground (arith, trim-trim s)

-- Trailing slashes of the longer path do not matter to a prefix that ends in none.
Under-of_trim : (p b : Text) → trim p ≡ p → Under p b → Under p (trim b)
unfolding trim trim_end_byte
Under-of_trim [] [] t h = tt
Under-of_trim [] (c ∷ b) t h = elim (Bool-cases (is_empty (trim_end_byte b'/' b) && c == b'/')) [
  | inl e ↦ rw e tt
  | inr e ↦ rw e h
]
Under-of_trim (a ∷ p) [] t h = absurd h
Under-of_trim (a ∷ p) (c ∷ b) t h =
    let kept : trim p ≡ p = ground arith in
    let not_last : (is_empty (trim_end_byte b'/' p) && a == b'/') ≡ false = ground arith in
    let u : Under p (trim b) = Under-of_trim p b kept h.1 in
    elim (Bool-cases (is_empty (trim_end_byte b'/' b) && c == b'/')) [
      | inl e ↦
          let gone : trim b ≡ [] =
            is_empty-eq _ (and_true (is_empty (trim_end_byte b'/' b)) _ e).0 in
          let p_gone : p ≡ [] = Under-empty p (rw gone at u) in absurd (ground arith)
      | inr e ↦ rw e (h.0, u)
    ]

-- The test at the end of `prefix_matches`.
abbrev continues : Text → Text → Bool
continues p x =
    text_eq x p || (ltb (length p) (length x) && byte_at x (length p) b'/' && starts_with x p)

continues-Under : (p x : Text) → continues p x ≡ true → Under p x
unfolding text_eq byte_at starts_with
continues-Under [] [] h = tt
continues-Under [] (c ∷ x) h = ground arith
continues-Under (a ∷ p) [] h = absurd (ground arith)
continues-Under (a ∷ p) (c ∷ x) h =
    let k : continues p x ≡ true = ground arith in (ground arith, continues-Under p x k)

Under-continues : (p x : Text) → Under p x → continues p x ≡ true
unfolding text_eq byte_at starts_with
Under-continues [] [] h = refl
Under-continues [] (c ∷ x) h = ground arith
Under-continues (a ∷ p) [] h = absurd h
Under-continues (a ∷ p) (c ∷ x) h = ground (arith, Under-continues p x h.1)

-- What the code's test means.
abbrev Covers : Text → Text → Type 0
Covers p x = (p ≡ codes "/") ⊎ ((is_empty (trim p) ≡ false) × Under (trim p) x)

prefix_matches-Covers : (p x : Text) → prefix_matches p x ≡ true → Covers p x
unfolding prefix_matches trim
prefix_matches-Covers p x h = elim (Bool-cases (text_eq p (codes "/"))) [
  | inl e ↦ inl ((text_eq_iff _ _).0 e)
  | inr e ↦ elim (Bool-cases (is_empty (trim_end_byte b'/' p))) [
    | inl gone ↦ absurd (ground arith)
    | inr kept ↦ inr (kept, continues-Under (trim_end_byte b'/' p) x (ground arith))
  ]
]

Covers-prefix_matches : (p x : Text) → Covers p x → prefix_matches p x ≡ true
unfolding prefix_matches trim
Covers-prefix_matches p x (inl e) = rw ((text_eq_iff _ _).1 e) refl
Covers-prefix_matches p x (inr (kept, u)) =
    ground (arith, Under-continues (trim_end_byte b'/' p) x u)

root-kept : (p : Text) → is_empty (trim p) ≡ false → ¬ Under (trim p) (codes "/")
unfolding trim trim_end_byte
root-kept p k u =
    let v : Under (trim p) [] = Under-of_trim (trim p) (codes "/") (trim-trim p) u in
    let e : trim p ≡ [] = Under-empty (trim p) v in absurd (ground arith)

Covers-trans : (a b x : Text) → Covers a b → Covers b x → Covers a x
Covers-trans a b x (inl e) k = inl e
Covers-trans a b x (inr (kept, u)) (inl root) = absurd (root-kept a kept (rw root at u))
Covers-trans a b x (inr (kept, u)) (inr (_, v)) =
    inr (kept, Under-trans (trim a) (trim b) x (Under-of_trim (trim a) b (trim-trim a) u) v)

Covers-comparable : (a b x : Text) → Covers a x → Covers b x → Covers a b ⊎ Covers b a
Covers-comparable a b x (inl e) k = inl (inl e)
Covers-comparable a b x h (inl e) = inr (inl e)
Covers-comparable a b x (inr (ka, u)) (inr (kb, v)) =
    elim (Under-comparable (trim a) (trim b) x u v) [
      | inl w ↦ inl (inr (ka, Under-trans (trim a) (trim b) b w (Under-trim b)))
      | inr w ↦ inr (inr (kb, Under-trans (trim b) (trim a) a w (Under-trim a)))
    ]

is_empty-map : (s : Text) → is_empty (map lower_byte s) ≡ is_empty s
is_empty-map [] = refl
is_empty-map (c ∷ s) = refl

lower_byte-==_slash : (c : ℕ) → (lower_byte c == b'/') ≡ (c == b'/')
lower_byte-==_slash c = ground arith

trim-lower : (s : Text) → trim (map lower_byte s) ≡ map lower_byte (trim s)
unfolding trim trim_end_byte
trim-lower [] = refl
trim-lower (c ∷ s) =
    rw (trim-lower s, is_empty-map (trim s), lower_byte-==_slash c)
      (elim (Bool-cases (is_empty (trim_end_byte b'/' s) && c == b'/')) [
        | inl e ↦ rw e refl
        | inr e ↦ rw e refl
      ])

Covers-lower : (p x : Text) → Covers p x → Covers (map lower_byte p) (map lower_byte x)
Covers-lower p x (inl e) = inl (rw e refl)
Covers-lower p x (inr (k, u)) =
    inr (rw (trim-lower p, is_empty-map (trim p)) k, rw (trim-lower p) (Under-lower (trim p) x u))

pub prefix_matches_trans :
    (a b x : Text)
    → prefix_matches a b ≡ true
    → prefix_matches b x ≡ true
    → prefix_matches a x ≡ true
prefix_matches_trans a b x h k =
    Covers-prefix_matches a x
      (Covers-trans a b x (prefix_matches-Covers a b h) (prefix_matches-Covers b x k))

pub prefix_matches-comparable :
    (a b x : Text)
    → prefix_matches (to_ascii_lowercase a) (to_ascii_lowercase x) ≡ true
    → prefix_matches b x ≡ true
    → (prefix_matches (to_ascii_lowercase a) (to_ascii_lowercase b)
        || prefix_matches (to_ascii_lowercase b) (to_ascii_lowercase a))
      ≡ true
unfolding to_ascii_lowercase
prefix_matches-comparable a b x h k =
    elim (Covers-comparable (map lower_byte a) (map lower_byte b) (map lower_byte x)
      (prefix_matches-Covers _ _ h) (Covers-lower b x (prefix_matches-Covers b x k))) [
        | inl c ↦ rw (Covers-prefix_matches _ _ c)
        | inr c ↦ ground (arith, Covers-prefix_matches (map lower_byte b) (map lower_byte a) c)
      ]

abbrev Extends : Text → Text → Type 0
Extends p x = (x ≡ p) ⊎ ((rest : Text) × (x ≡ p ++ b'/' ∷ rest))

Under-Extends : (p x : Text) → Under p x → Extends p x
Under-Extends [] [] h = inl refl
Under-Extends [] (c ∷ x) h = inr (x, rw h refl)
Under-Extends (a ∷ p) [] h = absurd h
Under-Extends (a ∷ p) (c ∷ x) h = elim (Under-Extends p x h.1) [
  | inl e ↦ inl (rw (e, h.0) refl)
  | inr (rest, e) ↦ inr (rest, rw (e, h.0) refl)
]

Under-append : (p rest : Text) → Under p (p ++ b'/' ∷ rest)
Under-append [] rest = refl
Under-append (a ∷ p) rest = (refl, Under-append p rest)

Extends-Under : (p x : Text) → Extends p x → Under p x
Extends-Under p x (inl e) = rw e (Under-refl p)
Extends-Under p x (inr (rest, e)) = rw e (Under-append p rest)

root-untrimmed : (p : Text) → trim p ≡ p → ¬ (p ≡ codes "/")
unfolding trim trim_end_byte
root-untrimmed p t e = let k : trim (codes "/") ≡ codes "/" = rw e at t in absurd (ground arith)

not_empty : (p : Text) → p ≢ [] → is_empty p ≡ false
not_empty [] n = absurd (n refl)
not_empty (a ∷ p) n = refl

-- The match is at segment borders only: a prefix that ends in no slash and is not the root matches
-- exactly itself and itself followed by a slash and anything.
pub prefix_matches_iff :
    (p x : Text)
    → trim_end_byte b'/' p ≡ p
    → p ≢ []
    → (prefix_matches p x ≡ true) ↔ ((x ≡ p) ⊎ ((rest : Text) × (x ≡ p ++ b'/' ∷ rest)))
unfolding trim
prefix_matches_iff p x t n = (
  λ h. elim (prefix_matches-Covers p x h) [
    | inl e ↦ absurd (root-untrimmed p t e)
    | inr (_, u) ↦ Under-Extends p x (rw t at u)
  ],
  λ h. Covers-prefix_matches p x (inr (rw t (not_empty p n), rw t (Extends-Under p x h))),
)
