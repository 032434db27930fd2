-- ===== src/Prelude/Order.antt =====
-- Strict total orders as Boolean tests, their lexicographic product, and `Iterator::max_by`.
use mathlib.Core.Path.{subst}
use keychute.Prelude.{
  refl, ◌≢◌, In, ℕ, ◌≡◌, Bool, true, false, not, ◌&&◌, ◌||◌, Option, none, some, List, [], ◌∷◌,
  arith, ltb, if◌then◌else◌, Bool-cases, inl, inr,
}

pub record IsOrder {A : Type 0} (gt : A → A → Bool) : Type 0 where
  pub trans : (a b c : A) → gt a b ≡ true → gt b c ≡ true → gt a c ≡ true
  pub asym : (a b : A) → gt a b ≡ true → gt b a ≡ false
  pub total : (a b : A) → gt a b ≡ false → gt b a ≡ false → a ≡ b

-- The order of a Rust tuple.
abbrev pub lex : {A B : Type 0} → (A → A → Bool) → (B → B → Bool) → A × B → A × B → Bool
lex gt gt' (a, b) (c, d) = gt a c || (not (gt c a) && gt' b d)

-- `std::cmp::Reverse`.
abbrev pub reversed : {A : Type 0} → (A → A → Bool) → A → A → Bool
reversed gt a b = gt b a

abbrev pub gtb : ℕ → ℕ → Bool
gtb a b = ltb b a

pub gtb-IsOrder : IsOrder gtb
gtb-IsOrder = record {
  trans = λ a b c h k. ground arith;
  asym = λ a b h. ground arith;
  total = λ a b h k. ground arith;
}

pub reversed-IsOrder : {A : Type 0} {gt : A → A → Bool} → IsOrder gt → IsOrder (reversed gt)
reversed-IsOrder o = record {
  trans = λ a b c h k. o.trans c b a k h;
  asym = λ a b h. o.asym b a h;
  total = λ a b h k. o.total a b k h;
}

-- Not being greater is transitive.
pub not_greater_trans :
    {A : Type 0} {gt : A → A → Bool} (o : IsOrder gt) (a b c : A)
    → gt b a ≡ false
    → gt c b ≡ false
    → gt c a ≡ false
not_greater_trans {gt = gt} o a b c h k = elim (Bool-cases (gt a b)) [
  | inl ab ↦ elim (Bool-cases (gt b c)) [
    | inl bc ↦ o.asym a c (o.trans a b c ab bc)
    | inr bc ↦ let e : b ≡ c = o.total b c bc k in rw (← e) h
  ]
  | inr ab ↦ let e : a ≡ b = o.total a b ab h in rw e k
]

module _ {A B : Type 0} {gt : A → A → Bool} {gt' : B → B → Bool} (o : IsOrder gt)
    (o' : IsOrder gt') where
  lex_trans :
      (p q r : A × B) → lex gt gt' p q ≡ true → lex gt gt' q r ≡ true → lex gt gt' p r ≡ true
  lex_trans (a, b) (c, d) (e, f) h k = ground (
    arith,
    o.trans a c e,
    o.asym a c,
    o.asym c e,
    o.trans e a c,
    o.trans c e a,
    o.trans e c a,
    not_greater_trans o a c e,
    not_greater_trans o e c a,
    o.trans e a e,
    o.asym e a,
    o.asym a e,
    o'.trans b d f,
    o.total a c,
    o.total c e,
  )

  lex-asym : (p q : A × B) → lex gt gt' p q ≡ true → lex gt gt' q p ≡ false
  lex-asym (a, b) (c, d) h = ground (arith, o.asym a c, o'.asym b d)

  lex-total : (p q : A × B) → lex gt gt' p q ≡ false → lex gt gt' q p ≡ false → p ≡ q
  lex-total (a, b) (c, d) h k = ground (arith, o.total a c, o'.total b d, o.asym a c)

  pub lex-IsOrder : IsOrder (lex gt gt')
  lex-IsOrder = record { trans = lex_trans; asym = lex-asym; total = lex-total }

-- `max_by`: of elements that compare equal, the last.
module _ {A : Type 0} (gt : A → A → Bool) where
  best : A → List A → A
  best x [] = x
  best x (y ∷ ys) = best (if gt x y then x else y) ys

  unfoldable pub max_by : List A → Option A
  unfolding best
  max_by [] = none
  max_by (x ∷ xs) = some (best x xs)

  best-In : (x : A) (xs : List A) → In (best x xs) (x ∷ xs)
  unfolding best
  best-In x [] = inl refl
  best-In x (y ∷ ys) = elim (Bool-cases (gt x y)) [
    | inl e ↦
        let q : best x ys ≡ best x (y ∷ ys) = rw e refl in
        subst (λ z. In z (x ∷ y ∷ ys)) q
          (elim (best-In x ys) [ inl q ↦ inl q | inr i ↦ inr (inr i) ])
    | inr e ↦
        let q : best y ys ≡ best x (y ∷ ys) = rw e refl in
        subst (λ z. In z (x ∷ y ∷ ys)) q (inr (best-In y ys))
  ]

  pub max_by-In : (xs : List A) (m : A) → max_by xs ≡ some m → In m xs
  unfolding max_by
  max_by-In [] m h = cc
  max_by-In (x ∷ xs) m h =
      let e : best x xs ≡ m = ground arith in subst (λ z. In z (x ∷ xs)) e (best-In x xs)

  pub max_by-ne_none : (xs : List A) (a : A) → In a xs → max_by xs ≢ none
  unfolding max_by
  max_by-ne_none [] a i h = absurd i
  max_by-ne_none (x ∷ xs) a i h = cc

module _ {A K : Type 0} (key : A → K) {gt : K → K → Bool} (o : IsOrder gt) where
  abbrev by_key : A → A → Bool
  by_key a b = gt (key a) (key b)

  best-greatest :
      (x : A) (xs : List A) (a : A) → In a (x ∷ xs) → by_key a (best by_key x xs) ≡ false
  unfolding best
  best-greatest x [] a (inl q) = rw (← q) (irreflexive x)
    where
      irreflexive : (b : A) → by_key b b ≡ false
      irreflexive b = ground (arith, o.asym (key b) (key b))
  best-greatest x [] a (inr i) = absurd i
  best-greatest x (y ∷ ys) a i = elim (Bool-cases (by_key x y)) [
    | inl e ↦ rw e (elim i [
      | inl q ↦ best-greatest x ys a (inl q)
      | inr (inl q) ↦
          not_greater_trans o (key (best by_key x ys)) (key x) (key a)
            (best-greatest x ys x (inl refl)) (rw (← q) (o.asym (key x) (key y) e))
      | inr (inr j) ↦ best-greatest x ys a (inr j)
    ])
    | inr e ↦ rw e (elim i [
      | inl q ↦
          not_greater_trans o (key (best by_key y ys)) (key y) (key a)
            (best-greatest y ys y (inl refl)) (rw (← q) e)
      | inr j ↦ best-greatest y ys a j
    ])
  ]

  -- No element has a greater key than the one that `max_by_key` returns.
  pub max_by-greatest :
      (xs : List A) (m a : A) → max_by by_key xs ≡ some m → In a xs → by_key a m ≡ false
  unfolding max_by
  max_by-greatest [] m a h i = absurd i
  max_by-greatest (x ∷ xs) m a h i =
      let e : best by_key x xs ≡ m = ground arith in rw e at (best-greatest x xs a i)
