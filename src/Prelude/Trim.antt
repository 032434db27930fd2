-- ===== src/Prelude/Trim.antt =====
-- `str::trim`: the characters of Unicode's White_Space, on UTF-8 bytes.
use keychute.Prelude.{ℕ, zero, suc, Bool, ◌&&◌, ◌||◌, [], ◌∷◌, Text, leb, ◌==◌, if◌then◌else◌}

abbrev wide : ℕ → ℕ → ℕ → Bool
wide a b c =
    (a == 0xE1 && b == 0x9A && c == 0x80)
    || (a == 0xE2 && b == 0x80 && (leb 0x80 c && leb c 0x8A || c == 0xA8 || c == 0xA9 || c == 0xAF))
    || (a == 0xE2 && b == 0x81 && c == 0x9F)
    || (a == 0xE3 && b == 0x80 && c == 0x80)

abbrev single : ℕ → Bool
single a = a == 32 || (leb 9 a && leb a 13)

abbrev double : ℕ → ℕ → Bool
double a b = a == 0xC2 && (b == 0x85 || b == 0xA0)

-- How many bytes the white space that stands first takes; 0 if another character does.
abbrev space_first : Text → ℕ
space_first [] = 0
space_first (a ∷ []) = if single a then 1 else 0
space_first (a ∷ b ∷ []) = if single a then 1 else if double a b then 2 else 0
space_first (a ∷ b ∷ c ∷ _) =
    if single a then 1 else if double a b then 2 else if wide a b c then 3 else 0

-- The same for the white space that stands last, on the bytes from the last.
abbrev space_last : Text → ℕ
space_last [] = 0
space_last (a ∷ []) = if single a then 1 else 0
space_last (b ∷ a ∷ []) = if single b then 1 else if double a b then 2 else 0
space_last (c ∷ b ∷ a ∷ _) =
    if single c then 1 else if double b c then 2 else if wide a b c then 3 else 0

-- Drops `n` bytes that were recognised, then goes on while white space stands first.
unfoldable pub drop_space : (Text → ℕ) → ℕ → Text → Text
drop_space first n [] = []
drop_space first (suc n) (c ∷ s) = drop_space first n s
drop_space first zero (c ∷ s) = elim (first (c ∷ s)) [ zero ↦ c ∷ s | suc n ↦ drop_space first n s ]

abbrev reversed_onto : Text → Text → Text
reversed_onto [] out = out
reversed_onto (c ∷ s) out = reversed_onto s (c ∷ out)

unfoldable pub trim : Text → Text
unfolding drop_space
trim s =
    let backwards = drop_space space_last 0 (reversed_onto (drop_space space_first 0 s) []) in
    reversed_onto backwards []
