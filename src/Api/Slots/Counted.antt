-- ===== src/Api/Slots/Counted.antt =====
-- The counts of server/src/state.rs agree with the guards that are held.
use keychute.Api.Slots.{
  SlotKind, wait, proxy, Slots, SlotGuard, Caps, cap_of, or_zero, set_count, same_kind,
  try_take_slot, lowered, drop_slot,
}
use keychute.Prelude.{
  ℕ, ◌+◌, ◌-◌, ◌≤◌, ◌≡◌, refl, sym, ap, ◌∙◌, Bool, true, false, ◌&&◌, Option, none, some, List, [],
  ◌∷◌, ◌++◌, arith, Text, text_eq, text_eq_iff, some_inj, leb, if◌then◌else◌, count_where,
  Bool-cases, inl, inr,
}

-- What tasks do with slots, in any order: a step of the counts and of the guards that are held. A
-- guard is dropped once, since it is then held no more.
pub data Slotted (caps : Caps) (s : Slots) (held : List SlotGuard)
    : Slots → List SlotGuard → Type 0 where
  taken :
      (client : Text) (which : SlotKind) (g : SlotGuard)
      → (try_take_slot caps client which s).0 ≡ some g
      → Slotted caps s held (try_take_slot caps client which s).1 (g ∷ held)
  refused :
      (client : Text) (which : SlotKind)
      → (try_take_slot caps client which s).0 ≡ none
      → Slotted caps s held (try_take_slot caps client which s).1 held
  dropped :
      (g : SlotGuard) (before after : List SlotGuard)
      → held ≡ before ++ (g ∷ after)
      → Slotted caps s held (drop_slot g s) (before ++ after)

pub data Runs (caps : Caps) : Slots → List SlotGuard → Type 0 where
  idle : Runs caps (λ which client. none) []
  then_slotted :
      (s s' : Slots) (held held' : List SlotGuard)
      → Runs caps s held
      → Slotted caps s held s' held'
      → Runs caps s' held'

abbrev pub is_for : SlotKind → Text → SlotGuard → Bool
is_for which client g = same_kind which g.which && text_eq client g.client

-- The guards that a client holds.
abbrev pub held_by : SlotKind → Text → List SlotGuard → ℕ
held_by which client held = count_where (is_for which client) held

abbrev Agrees : Caps → Slots → List SlotGuard → Type 0
Agrees caps s held =
    (which : SlotKind) (client : Text)
    → (or_zero (s which client) ≡ held_by which client held)
      × (held_by which client held ≤ cap_of caps which)

count_where-append :
    (p : SlotGuard → Bool) (xs ys : List SlotGuard)
    → count_where p (xs ++ ys) ≡ count_where p xs + count_where p ys
count_where-append p [] ys = omega arith
count_where-append p (x ∷ xs) ys = let ih = count_where-append p xs ys in ground arith

same_kind_refl : (k : SlotKind) → same_kind k k ≡ true
same_kind_refl wait = refl
same_kind_refl proxy = refl

-- The entry that an operation on a client's slots is about.
abbrev is_entry : SlotKind → Text → SlotKind → Text → Bool
is_entry which client k c = same_kind k which && text_eq c client

same_entry :
    (s : Slots) (which k : SlotKind) (client c : Text)
    → is_entry which client k c ≡ true
    → s k c ≡ s which client
same_entry s wait wait client c h = rw ((text_eq_iff c client).0 h) refl
same_entry s proxy proxy client c h = rw ((text_eq_iff c client).0 h) refl
same_entry s wait proxy client c h = absurd (cc)
same_entry s proxy wait client c h = absurd (cc)

-- A slot that is taken: the client was under its cap, and its count grows by one.
take-some :
    (caps : Caps) (client : Text) (which : SlotKind) (s : Slots) (g : SlotGuard)
    → (try_take_slot caps client which s).0 ≡ some g
    → (g ≡ record { client = client; which = which })
      × (leb (cap_of caps which) (or_zero (s which client)) ≡ false)
      × ((try_take_slot caps client which s).1
          ≡ set_count which client (some (or_zero (s which client) + 1)) s)
unfolding try_take_slot
take-some caps client which s g h =
    elim (Bool-cases (leb (cap_of caps which) (or_zero (s which client)))) [
      | inl e ↦ let k = rw e at h in absurd (cc)
      | inr e ↦ (sym (some_inj _ g (rw e at h)), e, rw e refl)
    ]

take-none :
    (caps : Caps) (client : Text) (which : SlotKind) (s : Slots)
    → (try_take_slot caps client which s).0 ≡ none
    → (try_take_slot caps client which s).1
      ≡ set_count which client (some (or_zero (s which client))) s
unfolding try_take_slot
take-none caps client which s h =
    elim (Bool-cases (leb (cap_of caps which) (or_zero (s which client)))) [
      | inl e ↦ rw e refl
      | inr e ↦ let k = rw e at h in absurd (cc)
    ]

lowered-count : (v : Option ℕ) → or_zero (lowered v) ≡ or_zero v - 1
lowered-count none = omega arith
lowered-count (some n) = ground arith

same_cap :
    (caps : Caps) (which k : SlotKind) (client c : Text)
    → is_entry which client k c ≡ true
    → cap_of caps k ≡ cap_of caps which
same_cap caps wait wait client c h = refl
same_cap caps proxy proxy client c h = refl
same_cap caps wait proxy client c h = absurd (cc)
same_cap caps proxy wait client c h = absurd (cc)

abbrev IsCounted : Caps → SlotKind → Text → Option ℕ → ℕ → Type 0
IsCounted caps k c entry n = (or_zero entry ≡ n) × (n ≤ cap_of caps k)

taken-IsCounted :
    (caps : Caps) (s : Slots) (which k : SlotKind) (client c : Text) (held : List SlotGuard)
    → Agrees caps s held
    → leb (cap_of caps which) (or_zero (s which client)) ≡ false
    → IsCounted caps k c
        (set_count which client (some (or_zero (s which client) + 1)) s k c)
        ((if is_entry which client k c then 1 else 0) + held_by k c held)
taken-IsCounted caps s which k client c held a under =
    elim (Bool-cases (is_entry which client k c)) [
      | inl e ↦
          let (same, fits) = a which client in
          let (here, bound) = a k c in
          let cap = same_cap caps which k client c e in
          let entry = ap or_zero (same_entry s which k client c e) in
          rw e (omega arith, ground arith)
      | inr e ↦ let (here, bound) = a k c in rw e (omega arith, omega arith)
    ]

refused-IsCounted :
    (caps : Caps) (s : Slots) (which k : SlotKind) (client c : Text) (held : List SlotGuard)
    → Agrees caps s held
    → IsCounted caps k c
        (set_count which client (some (or_zero (s which client))) s k c)
        (held_by k c held)
refused-IsCounted caps s which k client c held a = elim (Bool-cases (is_entry which client k c)) [
  | inl e ↦
      let entry = ap or_zero (same_entry s which k client c e) in
      rw e (sym entry ∙ (a k c).0, (a k c).1)
  | inr e ↦ rw e (a k c)
]

dropped-IsCounted :
    (caps : Caps) (s : Slots) (which k : SlotKind) (client c : Text) (m n : ℕ)
    → IsCounted caps k c (s k c) (m + ((if is_entry which client k c then 1 else 0) + n))
    → IsCounted caps k c (set_count which client (lowered (s which client)) s k c) (m + n)
dropped-IsCounted caps s which k client c m n a = elim (Bool-cases (is_entry which client k c)) [
  | inl e ↦
      let entry = ap or_zero (same_entry s which k client c e) in
      let low = lowered-count (s which client) in
      let b = rw e at a in rw e (omega arith, omega arith)
  | inr e ↦ let b = rw e at a in rw e (omega arith, omega arith)
]

step-Agrees :
    (caps : Caps) (s s' : Slots) (held held' : List SlotGuard)
    → Agrees caps s held
    → Slotted caps s held s' held'
    → Agrees caps s' held'
unfolding drop_slot
step-Agrees caps s s' held held' a (Slotted.taken client which g h) k c =
    let (is_g, under, after) = take-some caps client which s g h in
    rw (is_g, after) (taken-IsCounted caps s which k client c held a under)
step-Agrees caps s s' held held' a (Slotted.refused client which h) k c =
    rw (take-none caps client which s h) (refused-IsCounted caps s which k client c held a)
step-Agrees caps s s' held held' a (Slotted.dropped g before after e) k c =
    let split = count_where-append (is_for k c) before (g ∷ after) in
    let all = a k c in
    let here = rw (e, split) at all in
    rw (count_where-append (is_for k c) before after)
      (dropped-IsCounted caps s g.which k g.client c (held_by k c before) (held_by k c after) here)

-- However tasks take and drop slots, each count is the number of guards that the client holds, and
-- that is at most the client's cap.
pub Runs-Agrees :
    (caps : Caps) (s : Slots) (held : List SlotGuard) (which : SlotKind) (client : Text)
    → Runs caps s held
    → (or_zero (s which client) ≡ held_by which client held)
      × (held_by which client held ≤ cap_of caps which)
Runs-Agrees caps s held which client r = all_of s held r which client
  where
    all_of : (s : Slots) (held : List SlotGuard) → Runs caps s held → Agrees caps s held
    all_of s held idle = λ k c. (refl, omega arith)
    all_of s held (then_slotted s0 s1 held0 held1 r t) =
        step-Agrees caps s0 s1 held0 held1 (all_of s0 held0 r) t
