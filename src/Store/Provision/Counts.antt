-- ===== src/Store/Provision/Counts.antt =====
-- How often a rule stands in the lists of server/src/db/provision.rs, and in the policy table.
use keychute.Prelude.{
  ◌≡◌, refl, ℕ, suc, ◌+◌, Bool, true, Option, none, some, List, [], ◌∷◌, count_where, inl, inr,
  some_inj, arith, if◌then◌else◌, Bool-cases,
}
use keychute.Store.Provision.{
  NewPolicy, NewPolicy-discrete, is_yes, same_key, position, last_first, swap_remove,
}

abbrev pub one_if : Bool → ℕ
one_if b = if b then 1 else 0

is_yes_sound : {P : Type 0} → (d : Dec P) → is_yes d ≡ true → P
is_yes_sound (yes p) h = p
is_yes_sound (no n) h = absurd (cc)

is_yes_complete : {P : Type 0} → (d : Dec P) → P → is_yes d ≡ true
is_yes_complete (yes p) q = refl
is_yes_complete (no n) q = absurd (n q)

pub same_key_refl : (p : NewPolicy) → same_key p p ≡ true
unfolding same_key
same_key_refl p = is_yes_complete (NewPolicy-discrete p p) refl

pub same_key-eq : (p q : NewPolicy) → same_key p q ≡ true → p ≡ q
unfolding same_key
same_key-eq p q h = is_yes_sound (NewPolicy-discrete p q) h

second_placed :
    (f : NewPolicy → Bool) (p : NewPolicy) (front : List NewPolicy)
    → count_where f (elim front [ [] ↦ p ∷ [] | l ∷ ls ↦ l ∷ p ∷ ls ])
      ≡ one_if (f p) + count_where f front
second_placed f p [] = refl
second_placed f p (l ∷ ls) = omega arith

last_first-count :
    (f : NewPolicy → Bool) (p : NewPolicy) (ps : List NewPolicy)
    → count_where f (last_first p ps) ≡ count_where f (p ∷ ps)
unfolding last_first
last_first-count f p [] = refl
last_first-count f p (q ∷ qs) =
    rw (second_placed f p (last_first q qs), last_first-count f q qs) refl

swap_remove-head :
    (f : NewPolicy → Bool) (p : NewPolicy) (ps : List NewPolicy)
    → count_where f (swap_remove 0 (p ∷ ps)) ≡ count_where f ps
unfolding swap_remove
swap_remove-head f p [] = refl
swap_remove-head f p (q ∷ qs) = last_first-count f q qs

one_later-some :
    (o : Option ℕ) (i : ℕ)
    → elim o [ none ↦ none | some j ↦ some (suc j) ] ≡ some i
    → (j : ℕ) × (o ≡ some j) × (suc j ≡ i)
one_later-some none i h = absurd (cc)
one_later-some (some j) i h = (j, refl, some_inj (suc j) i h)

one_later-none : (o : Option ℕ) → elim o [ none ↦ none | some j ↦ some (suc j) ] ≡ none → o ≡ none
one_later-none none h = refl
one_later-none (some j) h = absurd (cc)

swap_remove-tail :
    (f : NewPolicy → Bool) (p : NewPolicy) (ps : List NewPolicy) (j : ℕ)
    → count_where f (swap_remove (suc j) (p ∷ ps)) ≡ one_if (f p) + count_where f (swap_remove j ps)
unfolding swap_remove
swap_remove-tail f p ps j = refl

-- Removal at the position of a key takes one rule with that key.
pub swap_remove-count :
    (f : NewPolicy → Bool) (key : NewPolicy) (xs : List NewPolicy) (i : ℕ)
    → position key xs ≡ some i
    → count_where f xs ≡ one_if (f key) + count_where f (swap_remove i xs)
unfolding position
swap_remove-count f key [] i h = absurd (cc)
swap_remove-count f key (p ∷ ps) i h = elim (Bool-cases (same_key key p)) [
  | inl e ↦
      let z : 0 ≡ i = some_inj 0 i (rw e at h) in
      rw (← z, same_key-eq key p e, swap_remove-head f p ps) refl
  | inr e ↦
      let (j, at_, s) = one_later-some (position key ps) i (rw e at h) in
      let ih = swap_remove-count f key ps j at_ in
      let tail = swap_remove-tail f p ps j in rw (← s) (omega (arith, ih, tail))
]

pub position-none :
    (key : NewPolicy) (xs : List NewPolicy)
    → position key xs ≡ none
    → count_where (same_key key) xs ≡ 0
unfolding position
position-none key [] h = refl
position-none key (p ∷ ps) h = elim (Bool-cases (same_key key p)) [
  | inl e ↦ absurd (let k = rw e at h in cc)
  | inr e ↦
      let ih = position-none key ps (one_later-none (position key ps) (rw e at h)) in
      rw e (omega (arith, ih))
]
