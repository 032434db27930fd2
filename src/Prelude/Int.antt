-- ===== src/Prelude/Int.antt =====
-- Signed integers: `negsuc n` is -(n + 1).
use keychute.Prelude.{ℕ, ◌≡◌, Bool, true, false, arith, ltb}
use keychute.Prelude.Order.{IsOrder}

pub data ℤ : Type 0 where
  pos : ℕ → ℤ
  negsuc : ℕ → ℤ

abbrev pub gtb_ℤ : ℤ → ℤ → Bool
gtb_ℤ (pos a) (pos b) = ltb b a
gtb_ℤ (pos a) (negsuc b) = true
gtb_ℤ (negsuc a) (pos b) = false
gtb_ℤ (negsuc a) (negsuc b) = ltb a b

gtb_ℤ-trans : (a b c : ℤ) → gtb_ℤ a b ≡ true → gtb_ℤ b c ≡ true → gtb_ℤ a c ≡ true
gtb_ℤ-trans a b c h k = ground arith

gtb_ℤ-asym : (a b : ℤ) → gtb_ℤ a b ≡ true → gtb_ℤ b a ≡ false
gtb_ℤ-asym a b h = ground arith

gtb_ℤ-total : (a b : ℤ) → gtb_ℤ a b ≡ false → gtb_ℤ b a ≡ false → a ≡ b
gtb_ℤ-total a b h k = ground arith

pub gtb_ℤ-IsOrder : IsOrder gtb_ℤ
gtb_ℤ-IsOrder = record { trans = gtb_ℤ-trans; asym = gtb_ℤ-asym; total = gtb_ℤ-total }
