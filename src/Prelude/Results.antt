-- ===== src/Prelude/Results.antt =====
-- Rust's `Result`, with `do` blocks for the `?` operator.
use mathlib.Core.Bool.{Bool, true, false}
use mathlib.Core.Option.{Option, none, some}
use mathlib.Core.Path.{◌≡◌, refl, sym, ap, ◌∙◌}
use native.Mathlib.Omega.{arith}

pub data Result (E A : Type 0) : Type 0 where
  ok : A → Result E A
  err : E → Result E A

infixl 5 ◌>>=◌ ◌>>◌
abbrev pub ◌>>=◌ : {E A B : Type 0} → Result E A → (A → Result E B) → Result E B
err why >>= next = err why
ok found >>= next = next found

-- An early return with an error, unless the test passes.
abbrev pub ensure : {E : Type 0} → Bool → E → Result E (Unit {0})
ensure test why = elim test [ true ↦ ok tt | false ↦ err why ]

abbrev pub ◌>>◌ : {E B : Type 0} → Result E (Unit {0}) → Result E B → Result E B
checked >> next = checked >>= (λ _. next)

-- `ok_or`.
abbrev pub ok_or : {E A : Type 0} → Option A → E → Result E A
ok_or none e = err e
ok_or (some a) e = ok a

-- `map_err` to one error.
abbrev pub or_err : {E F A : Type 0} → Result E A → F → Result F A
or_err (ok a) f = ok a
or_err (err e) f = err f

-- What `?` let through.
pub >>=-eq-ok :
    {E A B : Type 0} (r : Result E A) (next : A → Result E B) {b : B}
    → r >>= next ≡ ok b
    → (found : A) × (r ≡ ok found) × (next found ≡ ok b)
>>=-eq-ok (err why) next returned = absurd (cc)
>>=-eq-ok (ok found) next returned = (found, refl, returned)

pub ensure-eq-ok : {E : Type 0} (b : Bool) (e : E) {u : Unit {0}} → ensure b e ≡ ok u → b ≡ true
ensure-eq-ok true e h = refl
ensure-eq-ok false e h = cc

abbrev value : {E A : Type 0} → Result E A → Option A
value (ok a) = some a
value (err e) = none

pub some_inj : {A : Type 0} (a b : A) → some a ≡ some b → a ≡ b
some_inj a b h = ground arith

pub ok_inj : {E A : Type 0} (a b : A) (m : Result E A) → m ≡ ok a → m ≡ ok b → a ≡ b
ok_inj a b m h k = let q : some a ≡ some b = sym (ap value h) ∙ ap value k in ground arith

pub ok_pair_inj :
    {E A B : Type 0} {a a' : A} {b b' : B} {m : Result E (A × B)}
    → m ≡ ok (a, b)
    → m ≡ ok (a', b')
    → (a' ≡ a) × (b' ≡ b)
ok_pair_inj {a = a} {a'} {b} {b'} {m = m} h k =
    let q = ok_inj (a, b) (a', b') m h k in (sym (ap (λ p. p.0) q), sym (ap (λ p. p.1) q))

pub ok_or-eq-ok : {E A : Type 0} (o : Option A) (e : E) {a : A} → ok_or o e ≡ ok a → o ≡ some a
ok_or-eq-ok none e h = absurd (cc)
ok_or-eq-ok (some b) e {a = a} h = ap some (ok_inj b a (ok b) refl h)

pub or_err-eq-ok : {E F A : Type 0} (r : Result E A) (f : F) {a : A} → or_err r f ≡ ok a → r ≡ ok a
or_err-eq-ok (ok b) f {a = a} h = ap ok (ok_inj b a (ok b) refl h)
or_err-eq-ok (err e) f h = absurd (cc)
