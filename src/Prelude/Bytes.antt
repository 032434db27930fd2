-- ===== src/Prelude/Bytes.antt =====
-- Numbers as bytes, the most significant first: `to_be_bytes` and `from_be_bytes`.
use native.Mathlib.Nat
use keychute.Prelude.{
  ℕ, zero, suc, ◌+◌, ◌*◌, ◌/◌, ◌%◌, ◌^◌, ◌<◌, ◌≡◌, refl, sym, ap, ◌∙◌, [], ◌∷◌, ◌++◌, arith, Text,
  length, take, drop, take-append, drop-append, length-append,
}

unfoldable pub be_bytes : ℕ → ℕ → Text
be_bytes zero n = []
be_bytes (suc count) n = be_bytes count (n / 256) ++ (n % 256 ∷ [])

unfoldable pub from_be : ℕ → Text → ℕ
from_be acc [] = acc
from_be acc (b ∷ s) = from_be (acc * 256 + b) s

from_be-snoc : (acc : ℕ) (s : Text) (b : ℕ) → from_be acc (s ++ (b ∷ [])) ≡ from_be acc s * 256 + b
unfolding from_be
from_be-snoc acc [] b = refl
from_be-snoc acc (c ∷ s) b = from_be-snoc (acc * 256 + c) s b

pub from_be-be_bytes : (count n : ℕ) → n < 256 ^ count → from_be 0 (be_bytes count n) ≡ n
unfolding from_be be_bytes
from_be-be_bytes zero n h = omega arith
from_be-be_bytes (suc count) n h =
    let p = Nat.pow-suc 256 count in
    let ih = from_be-be_bytes count (n / 256) (omega arith) in
    rw (from_be-snoc 0 (be_bytes count (n / 256)) (n % 256), ih) (omega arith)

pub length-be_bytes : (count n : ℕ) → length (be_bytes count n) ≡ count
unfolding be_bytes
length-be_bytes zero n = refl
length-be_bytes (suc count) n = omega (
  arith,
  length-append (be_bytes count (n / 256)) (n % 256 ∷ []),
  length-be_bytes count (n / 256),
)

-- Eight bytes of a number, then anything.
pub be_bytes_inj :
    (m n : ℕ) (s t : Text)
    → m < 256 ^ 8
    → n < 256 ^ 8
    → be_bytes 8 m ++ s ≡ be_bytes 8 n ++ t
    → (m ≡ n) × (s ≡ t)
be_bytes_inj m n s t h k e =
    let left = length-be_bytes 8 m in
    let right = length-be_bytes 8 n in
    let number : be_bytes 8 m ≡ be_bytes 8 n =
      sym (take-append (be_bytes 8 m) s 8 left)
      ∙ (ap (take 8) e ∙ take-append (be_bytes 8 n) t 8 right) in
    (
      sym (from_be-be_bytes 8 m h) ∙ (ap (from_be 0) number ∙ from_be-be_bytes 8 n k),
      sym (drop-append (be_bytes 8 m) s 8 left)
          ∙ (ap (drop 8) e ∙ drop-append (be_bytes 8 n) t 8 right),
    )

-- A text after its length, as a `u64`.
abbrev pub sized : Text → Text
sized s = be_bytes 8 (length s) ++ s

pub append-nil : (a : Text) → a ++ [] ≡ a
append-nil [] = refl
append-nil (x ∷ a) = ap (λ l. x ∷ l) (append-nil a)

pub append_assoc : (a b c : Text) → (a ++ b) ++ c ≡ a ++ (b ++ c)
append_assoc [] b c = refl
append_assoc (x ∷ a) b c = ap (λ l. x ∷ l) (append_assoc a b c)

pub sized_inj :
    (a b s t : Text)
    → length a < 256 ^ 8
    → length b < 256 ^ 8
    → sized a ++ s ≡ sized b ++ t
    → (a ≡ b) × (s ≡ t)
sized_inj a b s t h k e =
    let flat : be_bytes 8 (length a) ++ (a ++ s) ≡ be_bytes 8 (length b) ++ (b ++ t) =
      sym (append_assoc (be_bytes 8 (length a)) a s)
      ∙ (e ∙ append_assoc (be_bytes 8 (length b)) b t) in
    let (n, rest) = be_bytes_inj (length a) (length b) (a ++ s) (b ++ t) h k flat in
    (
      sym (take-append a s (length b) n)
          ∙ (ap (take (length b)) rest ∙ take-append b t (length b) refl),
      sym (drop-append a s (length b) n)
          ∙ (ap (drop (length b)) rest ∙ drop-append b t (length b) refl),
    )
