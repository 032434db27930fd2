-- ===== src/Prelude/Numerals.antt =====
-- Numbers as decimal text: `to_string`, `str::parse` of an unsigned number and of an `i32`.
use mathlib.Core.Option
use native.Mathlib.Nat
use keychute.Prelude.{
  ℕ, zero, suc, ◌+◌, ◌-◌, ◌*◌, ◌/◌, ◌%◌, ◌^◌, ◌<◌, ◌≤◌, ◌≡◌, refl, ap, sym, ◌∙◌, is_empty, and_true,
  ltb→lt, true, false, Option, none, some, [], ◌∷◌, ◌++◌, arith, Text, ltb, ◌==◌, if◌then◌else◌,
  all, is_ascii_digit, Bool-cases, inl, inr,
}
use keychute.Prelude.Int.{ℤ, pos, negsuc}

-- At most `fuel` digits.
decimal_from : ℕ → ℕ → Text
decimal_from zero n = []
decimal_from (suc fuel) n =
    let digit = b'0' + n % 10 in
    elim (ltb n 10) [ true ↦ digit ∷ [] | false ↦ decimal_from fuel (n / 10) ++ (digit ∷ []) ]

-- `to_string` of a number that 20 digits hold: each `u64` does.
unfoldable pub decimal : ℕ → Text
unfolding decimal_from
decimal n = decimal_from 20 n

unfoldable pub digits : ℕ → Text → Option ℕ
digits acc [] = some acc
digits acc (c ∷ s) =
    let rest = digits (acc * 10 + (c - b'0')) s in if is_ascii_digit c then rest else none

abbrev at_most : ℕ → Option ℕ → Option ℕ
at_most bound none = none
at_most bound (some n) = if ltb bound n then none else some n

-- At least one digit, and nothing else.
abbrev magnitude : ℕ → Text → Option ℕ
magnitude bound [] = none
magnitude bound (c ∷ s) = at_most bound (digits 0 (c ∷ s))

-- `parse` of an unsigned type whose greatest value is `bound`: one leading `+` is accepted.
unfoldable pub parse_unsigned : ℕ → Text → Option ℕ
parse_unsigned bound [] = none
parse_unsigned bound (c ∷ s) = if c == b'+' then magnitude bound s else magnitude bound (c ∷ s)

abbrev negated : ℕ → ℤ
negated zero = pos 0
negated (suc n) = negsuc n

-- `parse::<i32>`.
unfoldable pub parse_i32 : Text → Option ℤ
parse_i32 [] = none
parse_i32 (c ∷ s) =
    if c == b'-'
    then Option.map negated (magnitude 2147483648 s)
    else if c == b'+'
    then Option.map pos (magnitude 2147483647 s)
    else Option.map pos (magnitude 2147483647 (c ∷ s))

abbrev shifted : ℕ → Option ℕ → Option ℕ
shifted c none = none
shifted c (some v) = some (v * 10 + (c - b'0'))

digits-snoc :
    (acc : ℕ) (s : Text) (c : ℕ)
    → is_ascii_digit c ≡ true
    → digits acc (s ++ (c ∷ [])) ≡ shifted c (digits acc s)
unfolding digits
digits-snoc acc [] c d = rw d refl
digits-snoc acc (b ∷ s) c d = elim (Bool-cases (is_ascii_digit b)) [
  | inl e ↦ rw e (digits-snoc (acc * 10 + (b - b'0')) s c d)
  | inr e ↦ rw e refl
]

digit_lem : (n : ℕ) → is_ascii_digit (b'0' + n % 10) ≡ true
digit_lem n = let below : n % 10 < 10 = omega arith in ground arith

decimal_from-small :
    (fuel n : ℕ) → ltb n 10 ≡ true → decimal_from (suc fuel) n ≡ (b'0' + n % 10) ∷ []
unfolding decimal_from
decimal_from-small fuel n e = rw (e, decimal_from) refl

decimal_from-large :
    (fuel n : ℕ)
    → ltb n 10 ≡ false
    → decimal_from (suc fuel) n ≡ decimal_from fuel (n / 10) ++ ((b'0' + n % 10) ∷ [])
unfolding decimal_from
decimal_from-large fuel n e = rw (e, decimal_from) refl

digits-decimal_from : (fuel n : ℕ) → n < 10 ^ fuel → digits 0 (decimal_from fuel n) ≡ some n
unfolding digits decimal_from
digits-decimal_from zero n h = let q : 0 ≡ n = omega arith in rw q refl
digits-decimal_from (suc fuel) n h = elim (Bool-cases (ltb n 10)) [
  | inl e ↦
      rw (decimal_from-small fuel n e, digit_lem n)
        (let below : n < 10 = ltb→lt n 10 e in ap some (omega arith))
  | inr e ↦
      let less : n / 10 < 10 ^ fuel = let q = Nat.pow-suc 10 fuel in omega arith in
      let ih = digits-decimal_from fuel (n / 10) less in
      rw
        (
          decimal_from-large fuel n e,
          digits-snoc 0 (decimal_from fuel (n / 10)) (b'0' + n % 10) (digit_lem n),
          ih,
        )
        (ap some (omega arith))
]

all-snoc :
    (s : Text) (c : ℕ)
    → all is_ascii_digit s ≡ true
    → is_ascii_digit c ≡ true
    → all is_ascii_digit (s ++ (c ∷ [])) ≡ true
all-snoc [] c h d = rw d refl
all-snoc (b ∷ s) c h d = let (e, k) = and_true (is_ascii_digit b) _ h in rw e (all-snoc s c k d)

decimal_from-all_digits : (fuel n : ℕ) → all is_ascii_digit (decimal_from fuel n) ≡ true
unfolding decimal_from
decimal_from-all_digits zero n = refl
decimal_from-all_digits (suc fuel) n = elim (Bool-cases (ltb n 10)) [
  | inl e ↦ rw (decimal_from-small fuel n e, digit_lem n) refl
  | inr e ↦ rw (decimal_from-large fuel n e) (
      all-snoc (decimal_from fuel (n / 10)) (b'0' + n % 10) (decimal_from-all_digits fuel (n / 10))
        (digit_lem n))
]

pub decimal-all_digits : (n : ℕ) → all is_ascii_digit (decimal n) ≡ true
unfolding decimal
decimal-all_digits n = decimal_from-all_digits 20 n

nonempty : (fuel n : ℕ) → is_empty (decimal_from (suc fuel) n) ≡ false
nonempty fuel n = elim (Bool-cases (ltb n 10)) [
  | inl e ↦ rw (decimal_from-small fuel n e) refl
  | inr e ↦
      rw (decimal_from-large fuel n e) (snoc_nonempty (decimal_from fuel (n / 10)) (b'0' + n % 10))
]
  where
    snoc_nonempty : (s : Text) (c : ℕ) → is_empty (s ++ (c ∷ [])) ≡ false
    snoc_nonempty [] c = refl
    snoc_nonempty (b ∷ s) c = refl

module _ (bound n : ℕ) (within : n ≤ bound) where
  at_most-within : at_most bound (some n) ≡ some n
  at_most-within = ground arith

  magnitude_of_digits :
      (s : Text) → digits 0 s ≡ some n → is_empty s ≡ false → magnitude bound s ≡ some n
  magnitude_of_digits [] d e = absurd (cc)
  magnitude_of_digits (c ∷ s) d e = rw d at_most-within

  unsigned_of_digits :
      (s : Text)
      → all is_ascii_digit s ≡ true
      → digits 0 s ≡ some n
      → is_empty s ≡ false
      → parse_unsigned bound s ≡ some n
  unfolding parse_unsigned
  unsigned_of_digits [] h d e = absurd (cc)
  unsigned_of_digits (c ∷ s) h d e =
      let (first, others) = and_true (is_ascii_digit c) _ h in
      let plain : (c == b'+') ≡ false = ground arith in rw plain (magnitude_of_digits (c ∷ s) d e)

i32_of_digits :
    (n : ℕ) (s : Text)
    → n ≤ 2147483647
    → all is_ascii_digit s ≡ true
    → digits 0 s ≡ some n
    → is_empty s ≡ false
    → parse_i32 s ≡ some (pos n)
unfolding parse_i32
i32_of_digits n [] w h d e = absurd (cc)
i32_of_digits n (c ∷ s) w h d e =
    let (first, others) = and_true (is_ascii_digit c) _ h in
    let plus : (c == b'+') ≡ false = ground arith in
    let minus : (c == b'-') ≡ false = ground arith in
    rw (minus, plus, magnitude_of_digits 2147483647 n w (c ∷ s) d e) refl

-- What is printed is read back, whatever the bound that it respects.
pub parse_unsigned-decimal :
    (bound n : ℕ) → n < 10 ^ 20 → n ≤ bound → parse_unsigned bound (decimal n) ≡ some n
unfolding decimal
parse_unsigned-decimal bound n h k =
    unsigned_of_digits bound n k (decimal_from 20 n) (decimal_from-all_digits 20 n)
      (digits-decimal_from 20 n h) (nonempty 19 n)

pub parse_i32-decimal : (n : ℕ) → n ≤ 2147483647 → parse_i32 (decimal n) ≡ some (pos n)
unfolding decimal
parse_i32-decimal n k =
    i32_of_digits n (decimal_from 20 n) k (decimal_from-all_digits 20 n)
      (digits-decimal_from 20 n (omega arith)) (nonempty 19 n)

pub decimal_inj : (m n : ℕ) → m < 10 ^ 20 → n < 10 ^ 20 → decimal m ≡ decimal n → m ≡ n
unfolding decimal
decimal_inj m n h k e =
    let q : some m ≡ some n =
      sym (digits-decimal_from 20 m h) ∙ (ap (digits 0) e ∙ digits-decimal_from 20 n k) in
    ground arith
