-- ===== src/Ui/Terms/Narrowed.antt =====
-- The terms of an approval in server/src/ui/mod.rs never exceed the request.
use keychute.Prelude.{
  ℕ, ◌≤◌, ◌≡◌, refl, not, Option, none, some, arith, Text, codes, ok, ensure, ok_or, >>=-eq-ok,
  ok_inj, ensure-eq-ok, ok_or-eq-ok, ltb, ◌==◌,
}
use keychute.Prelude.Numerals.{parse_unsigned}
use keychute.Store.{AccessRequestRow}
use keychute.Types.{mechanism_from_str}
use keychute.Ui.{internal, bad_request, invalid_number, not_positive, only_narrow}
use keychute.Ui.Forms.{ApproveForm, non_empty, max_u64, parse_narrow_u64}
use keychute.Ui.Terms.{Terms, terms_of, requested_uses, narrow_uses}

narrow-le :
    (input : Option Text) (requested v : ℕ) (what : Text)
    → parse_narrow_u64 input requested what ≡ ok v
    → v ≤ requested
unfolding parse_narrow_u64
narrow-le none requested v what h = let q = ok_inj requested v _ refl h in rw (← q) (omega arith)
narrow-le (some raw) requested v what h =
    let (n, parsed, h1) =
      >>=-eq-ok (ok_or (parse_unsigned max_u64 raw) (bad_request (invalid_number what))) _ h in
    let (u, positive, h2) =
      >>=-eq-ok (ensure (not (n == 0)) (bad_request (not_positive what))) _ h1 in
    let (u', small, h3) =
      >>=-eq-ok (ensure (not (ltb requested n)) (bad_request (only_narrow what))) _ h2 in
    let below = ensure-eq-ok _ _ small in let q = ok_inj n v _ refl h3 in rw (← q) (ground arith)

-- A limit on uses stays one.
abbrev pub NoMore : Option ℕ → Option ℕ → Type 0
NoMore none given = Unit
NoMore (some m) given = (u : ℕ) × (given ≡ some u) × (u ≤ m)

narrow_uses-NoMore :
    (input : Option Text) (base given : Option ℕ)
    → narrow_uses input base ≡ ok given
    → NoMore base given
narrow_uses-NoMore input none given h = tt
narrow_uses-NoMore none (some m) given h =
    let q = ok_inj (some m) given _ refl h in (m, rw (← q) refl, omega arith)
narrow_uses-NoMore (some raw) (some m) given h =
    let (v, narrowed, h1) = >>=-eq-ok (parse_narrow_u64 (some raw) m (codes "max_uses")) _ h in
    let q = ok_inj (some v) given _ refl h1 in
    (v, rw (← q) refl, narrow-le (some raw) m v (codes "max_uses") narrowed)

pub record IsNarrowed (row : AccessRequestRow) (t : Terms) : Type 0 where
  pub mechanism : mechanism_from_str row.mechanism ≡ some t.mechanism
  pub ttl : t.ttl ≤ row.constraints.ttl_seconds
  pub uses : NoMore (requested_uses t.mechanism row.constraints) t.max_uses

pub terms_of-IsNarrowed :
    (form : ApproveForm) (row : AccessRequestRow) (t : Terms)
    → terms_of form row ≡ ok t
    → IsNarrowed row t
unfolding terms_of
terms_of-IsNarrowed form row t h =
    let (m, parsed, h1) = >>=-eq-ok (ok_or (mechanism_from_str row.mechanism) internal) _ h in
    let (ttl, narrowed, h2) =
      >>=-eq-ok
        (parse_narrow_u64 (non_empty form.ttl_seconds) row.constraints.ttl_seconds
          (codes "ttl_seconds"))
        _ h1 in
    let (uses, fewer, h3) =
      >>=-eq-ok (narrow_uses (non_empty form.max_uses) (requested_uses m row.constraints)) _ h2 in
    let same = ok_inj _ t _ refl h3 in
    rw (← same) (record {
      mechanism = ok_or-eq-ok _ _ parsed;
      ttl = narrow-le _ _ _ _ narrowed;
      uses =
          narrow_uses-NoMore (non_empty form.max_uses) (requested_uses m row.constraints) uses
            fewer;
    })
