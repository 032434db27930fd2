-- ===== src/Prelude/Lists.antt =====
-- Lists measured by native numbers, Boolean quantifiers over them, and membership as a family.
use mathlib.Core.Option
use Prim.Native.Nat.{ℕ, zero, suc, ◌+◌}
use mathlib.Core.Bool.{Bool, true, false, ◌&&◌, ◌||◌}
use mathlib.Core.List.{map, List, [], ◌∷◌, ◌++◌}
use mathlib.Core.Logic.{◌⊎◌, inl, inr}
use mathlib.Core.Option.{Option, none, some}
use mathlib.Core.Path.{◌≡◌, refl}
use native.Mathlib.Omega.{arith}
use keychute.Prelude.Tests.{Bool-cases, if◌then◌else◌, and_true, or_true}

module _ {ℓ} {A : Type ℓ} where
  abbrev pub length : List A → ℕ
  length [] = 0
  length (x ∷ xs) = suc (length xs)

  abbrev pub is_empty : List A → Bool
  is_empty [] = true
  is_empty (_ ∷ _) = false

  -- `iter().any`, `iter().all`, `iter().filter`, `iter().find`.
  abbrev pub any : (A → Bool) → List A → Bool
  any p [] = false
  any p (x ∷ xs) = p x || any p xs

  abbrev pub all : (A → Bool) → List A → Bool
  all p [] = true
  all p (x ∷ xs) = p x && all p xs

  abbrev pub keep : (A → Bool) → List A → List A
  keep p [] = []
  keep p (x ∷ xs) = let rest = keep p xs in if p x then x ∷ rest else rest

  abbrev pub find : (A → Bool) → List A → Option A
  find p [] = none
  find p (x ∷ xs) = let rest = find p xs in if p x then some x else rest

  abbrev pub count_where : (A → Bool) → List A → ℕ
  count_where p [] = 0
  count_where p (x ∷ xs) = (if p x then 1 else 0) + count_where p xs

  -- `split_at`.
  abbrev pub take : ℕ → List A → List A
  take zero xs = []
  take (suc n) [] = []
  take (suc n) (x ∷ xs) = x ∷ take n xs

  abbrev pub drop : ℕ → List A → List A
  drop zero xs = xs
  drop (suc n) [] = []
  drop (suc n) (x ∷ xs) = drop n xs

  pub take-append : (xs ys : List A) (n : ℕ) → length xs ≡ n → take n (xs ++ ys) ≡ xs
  take-append [] ys zero h = refl
  take-append [] ys (suc n) h = absurd (omega arith)
  take-append (x ∷ xs) ys zero h = absurd (omega arith)
  take-append (x ∷ xs) ys (suc n) h = rw (take-append xs ys n (omega arith)) refl

  pub drop-append : (xs ys : List A) (n : ℕ) → length xs ≡ n → drop n (xs ++ ys) ≡ ys
  drop-append [] ys zero h = refl
  drop-append [] ys (suc n) h = absurd (omega arith)
  drop-append (x ∷ xs) ys zero h = absurd (omega arith)
  drop-append (x ∷ xs) ys (suc n) h = drop-append xs ys n (omega arith)

  pub length-append : (xs ys : List A) → length (xs ++ ys) ≡ length xs + length ys
  length-append [] ys = omega arith
  length-append (x ∷ xs) ys = omega (arith, length-append xs ys)

module _ {A : Type 0} where
  -- Membership, as a choice that tactics open.
  abbrev pub In : A → List A → Type 0
  In a [] = ⊥
  In a (x ∷ xs) = (x ≡ a) ⊎ In a xs

  pub any-In : (p : A → Bool) (xs : List A) → any p xs ≡ true → (a : A) × In a xs × (p a ≡ true)
  any-In p [] h = cc
  any-In p (x ∷ xs) h = elim (or_true (p x) (any p xs) h) [
    | inl e ↦ (x, inl refl, e)
    | inr e ↦ let (a, i, q) = any-In p xs e in (a, inr i, q)
  ]

  pub In-any : (p : A → Bool) (xs : List A) (a : A) → In a xs → p a ≡ true → any p xs ≡ true
  In-any p [] a i e = absurd i
  In-any p (x ∷ xs) a (inl q) e = rw q (rw e)
  In-any p (x ∷ xs) a (inr i) e = ground (arith, In-any p xs a i e)

  pub all-In : (p : A → Bool) (xs : List A) (a : A) → all p xs ≡ true → In a xs → p a ≡ true
  all-In p [] a h i = absurd i
  all-In p (x ∷ xs) a h (inl q) = rw (← q) (and_true (p x) _ h).0
  all-In p (x ∷ xs) a h (inr i) = all-In p xs a (and_true (p x) _ h).1 i

  pub In-all : (p : A → Bool) (xs : List A) → ((a : A) → In a xs → p a ≡ true) → all p xs ≡ true
  In-all p [] h = refl
  In-all p (x ∷ xs) h = rw (h x (inl refl)) (In-all p xs (λ a i. h a (inr i)))

  pub In-keep : (p : A → Bool) (xs : List A) (a : A) → In a (keep p xs) → In a xs × (p a ≡ true)
  In-keep p [] a i = absurd i
  In-keep p (x ∷ xs) a i = elim (Bool-cases (p x)) [
    | inl e ↦ elim (rw e at i) [
      | inl q ↦ (inl q, rw (← q) e)
      | inr j ↦ let (k, q) = In-keep p xs a j in (inr k, q)
    ]
    | inr e ↦ let (k, q) = In-keep p xs a (rw e at i) in (inr k, q)
  ]

  pub keep_of_In : (p : A → Bool) (xs : List A) (a : A) → In a xs → p a ≡ true → In a (keep p xs)
  keep_of_In p [] a i e = absurd i
  keep_of_In p (x ∷ xs) a (inl q) e = let e' : p x ≡ true = rw q e in rw e' (inl q)
  keep_of_In p (x ∷ xs) a (inr i) e = elim (Bool-cases (p x)) [
    | inl t ↦ rw t (inr (keep_of_In p xs a i e))
    | inr f ↦ rw f (keep_of_In p xs a i e)
  ]

  pub find-In : (p : A → Bool) (xs : List A) (a : A) → find p xs ≡ some a → In a xs × (p a ≡ true)
  find-In p [] a h = cc
  find-In p (x ∷ xs) a h = elim (Bool-cases (p x)) [
    | inl e ↦ let q : x ≡ a = ground arith in (inl q, rw (← q) e)
    | inr e ↦ let (k, q) = find-In p xs a (rw e at h) in (inr k, q)
  ]

  pub find-some :
      (p : A → Bool) (xs : List A) (a : A) → In a xs → p a ≡ true → (b : A) × (find p xs ≡ some b)
  find-some p [] a i e = absurd i
  find-some p (x ∷ xs) a i e = elim (Bool-cases (p x)) [
    | inl t ↦ (x, rw t refl)
    | inr f ↦ elim i [
      | inl q ↦ let t : p x ≡ true = rw q e in absurd (cc)
      | inr j ↦ let (b, h) = find-some p xs a j e in (b, rw f h)
    ]
  ]

  pub find-none : (p : A → Bool) (xs : List A) (a : A) → find p xs ≡ none → In a xs → p a ≡ false
  find-none p xs a h i = elim (Bool-cases (p a)) [
    | inl e ↦ let (b, q) = find-some p xs a i e in absurd (cc)
    | inr e ↦ e
  ]

  -- A lookup after an update that keeps what the lookup tests.
  pub find-map :
      (q : A → Bool) (f : A → A) (xs : List A)
      → ((x : A) → q (f x) ≡ q x)
      → find q (map f xs) ≡ Option.map f (find q xs)
  find-map q f [] keeps = refl
  find-map q f (x ∷ xs) keeps = elim (Bool-cases (q x)) [
    | inl e ↦ rw (keeps x, e) refl
    | inr e ↦ rw (keeps x, e) (find-map q f xs keeps)
  ]

  pub any-map_same :
      (q : A → Bool) (f : A → A) (xs : List A)
      → ((x : A) → q (f x) ≡ q x)
      → any q (map f xs) ≡ any q xs
  any-map_same q f [] keeps = refl
  any-map_same q f (x ∷ xs) keeps = rw (keeps x, any-map_same q f xs keeps) refl

  pub count_where-map_same :
      (q : A → Bool) (f : A → A) (xs : List A)
      → ((x : A) → q (f x) ≡ q x)
      → count_where q (map f xs) ≡ count_where q xs
  count_where-map_same q f [] keeps = refl
  count_where-map_same q f (x ∷ xs) keeps = rw (keeps x, count_where-map_same q f xs keeps) refl

  pub count_where_none :
      (p q : A → Bool) (xs : List A)
      → ((x : A) → q x ≡ true → p x ≡ true)
      → any p xs ≡ false
      → count_where q xs ≡ 0
  count_where_none p q [] sub h = refl
  count_where_none p q (x ∷ xs) sub h = elim (Bool-cases (q x)) [
    | inl e ↦ let t = sub x e in absurd (ground arith)
    | inr e ↦ rw (e, count_where_none p q xs sub (ground arith)) refl
  ]

  pub any-map_some :
      (p q : A → Bool) (f : A → A) (xs : List A)
      → ((x : A) → p x ≡ true → q (f x) ≡ true)
      → any p xs ≡ true
      → any q (map f xs) ≡ true
  any-map_some p q f [] sub h = absurd (cc)
  any-map_some p q f (x ∷ xs) sub h = elim (or_true (p x) (any p xs) h) [
    | inl e ↦ rw (sub x e) refl
    | inr e ↦ ground (arith, any-map_some p q f xs sub e)
  ]

  pub find_missing :
      (p q : A → Bool) (xs : List A)
      → ((x : A) → q x ≡ true → p x ≡ true)
      → any p xs ≡ false
      → find q xs ≡ none
  find_missing p q [] sub h = refl
  find_missing p q (x ∷ xs) sub h = elim (Bool-cases (q x)) [
    | inl e ↦ let t = sub x e in absurd (ground arith)
    | inr e ↦ rw e (find_missing p q xs sub (ground arith))
  ]
