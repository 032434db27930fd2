-- ===== src/Proxy/Template/Usable.antt =====
-- The proxy of server/src/proxy.rs accepts the templates that server/src/injection.rs accepts.
use mathlib.Core.Path.{subst}
use keychute.Prelude.{
  ℕ, ◌≡◌, ◌≤◌, ◌⊎◌, refl, sym, ap, ◌∙◌, inl, inr, Bool, true, false, not, ◌&&◌, ◌||◌, Option, none,
  some, [], ◌∷◌, ◌++◌, Text, codes, text_eq, has_byte, any, split_once, to_ascii_lowercase, ok,
  ensure, ok_or, or_err, >>=-eq-ok, ok_or-eq-ok, or_err-eq-ok, cons_first, ensure-eq-ok, ok_inj,
  Bool-cases, arith, length, leb, ◌==◌, is_some,
}
use keychute.Proxy.Headers.{is_stripped}
use keychute.Proxy.Injection.{
  InjectionSpec, bearer, header, basic_password, aws_sig_v4, spec_of, validate, breaks_header,
}
use keychute.Proxy.Template.{
  Template, invalid_key_id, invalid_scope, validate_injection, validate_header, validate_basic,
  validate_sigv4, has_control, is_token, max_injection_field_bytes, is_reserved,
}
use keychute.SigV4.{parse_scope, scope_shape, is_scope_part, validate_access_key_id}
use keychute.Store.{SecretRow}

some_pair :
    {a b p q : Text}
    → ◌≡◌ {A = Option (Text × Text)} (some (a, b)) (some (p, q))
    → (a ≡ p) × (b ≡ q)
some_pair {a} {b} {p} {q} h =
    let e : (a, b) ≡ (p, q) =
      ok_inj (a, b) (p, q) (ok_or {E = Unit {0}} (some (a, b)) tt) refl (ap (λ o. ok_or o tt) h) in
    (ap (λ x. x.0) e, ap (λ x. x.1) e)

cons_first-some :
    (c : ℕ) (o : Option (Text × Text)) (p q : Text)
    → cons_first c o ≡ some (p, q)
    → (p' : Text) × (o ≡ some (p', q)) × (p ≡ c ∷ p')
cons_first-some c none p q h = absurd (cc)
cons_first-some c (some (s, t)) p q h =
    let (e, e') = some_pair h in (s, ap (λ x. some (s, x)) e', sym e)

split_once-join : (b : ℕ) (s p q : Text) → split_once b s ≡ some (p, q) → p ++ b ∷ q ≡ s
unfolding split_once
split_once-join b [] p q h = absurd (cc)
split_once-join b (c ∷ s) p q h = elim (Bool-cases (c == b)) [
  | inl e ↦
      let same : c ≡ b = ground (arith) in
      let (p', q') = some_pair {a = []} {b = s} (rw e at h) in rw (← p', ← q', same) refl
  | inr e ↦
      let (p', k, same) = cons_first-some c (split_once b s) p q (rw e at h) in
      rw same (ap (λ t. c ∷ t) (split_once-join b s p' q k))
]

control-breaks : (s : Text) → has_control s ≡ false → any breaks_header s ≡ false
unfolding has_control
control-breaks [] h = refl
control-breaks (b ∷ s) h = ground (arith, control-breaks s)

parse_scope-split :
    (s : Text) (parts : Text × Text) → parse_scope s ≡ ok parts → split_once b'/' s ≡ some parts
unfolding parse_scope
parse_scope-split s parts h =
    let (found, q, k) = >>=-eq-ok (ok_or (split_once b'/' s) scope_shape) _ h in
    let (_, _, k1) = >>=-eq-ok (ensure (is_scope_part found.0) _) _ k in
    let (_, _, k2) = >>=-eq-ok (ensure (is_scope_part found.1) _) _ k1 in
    let (_, _, k3) = >>=-eq-ok (ensure (text_eq found.1 (codes "s3")) _) _ k2 in
    ok_or-eq-ok _ _ q ∙ ap some (ok_inj found parts (ok found) refl k3)

parse_scope-join :
    (s : Text) (parts : Text × Text)
    → parse_scope s ≡ ok parts
    → parse_scope (parts.0 ++ b'/' ∷ parts.1) ≡ ok parts
parse_scope-join s parts h =
    let same : parts.0 ++ b'/' ∷ parts.1 ≡ s =
      split_once-join b'/' s parts.0 parts.1 (parse_scope-split s parts h) in
    rw same h

not-true : {b : Bool} → not b ≡ true → b ≡ false
not-true {b = true} h = absurd (cc)
not-true {b = false} h = refl

-- A stored template that the proxy can place: the name of its header, which the caller cannot set.
pub record IsUsable (header_name : Text → Option Text) (s : SecretRow) : Type 0 where
  pub spec : InjectionSpec
  pub name : Text
  pub read : spec_of s ≡ ok spec
  pub valid : validate header_name spec ≡ ok name
  pub outside : (is_stripped name ≡ false) ⊎ (name ≡ codes "authorization")

-- The columns of a row.
abbrev pub Holds : SecretRow → Template → Type 0
Holds s t = (s.injection_kind ≡ t.0) × (s.injection_header ≡ t.1.0) × (s.injection_username ≡ t.1.1)

module _ (header_name : Text → Option Text) (s : SecretRow) where
  bearer-IsUsable : Holds s (codes "bearer", (none, none)) → IsUsable header_name s
  unfolding spec_of validate text_eq
  bearer-IsUsable (kind, _, _) = record {
    spec = bearer;
    name = codes "authorization";
    read = rw kind refl;
    valid = refl;
    outside = inr refl;
  }

  abbrev pub NamesTokens : Type 0
  NamesTokens =
      (n : Text)
      → is_token n ≡ true
      → length n ≤ max_injection_field_bytes
      → header_name n ≡ some (to_ascii_lowercase n)

  header-IsUsable :
      NamesTokens
      → (given : Option Text) (t : Template) → validate_header given ≡ ok t
      → Holds s t
      → IsUsable header_name s
  unfolding validate_header spec_of validate text_eq
  header-IsUsable names none t h held = absurd (cc)
  header-IsUsable names (some n) t h (kind, head, user) =
      let (_, q1, h1) = >>=-eq-ok (ensure (leb (length n) max_injection_field_bytes) _) _ h in
      let (_, q2, h2) = >>=-eq-ok (ensure (is_token n) _) _ h1 in
      let (_, q3, h3) = >>=-eq-ok (ensure (not (is_reserved (to_ascii_lowercase n))) _) _ h2 in
      let same : (codes "header", (some n, none)) ≡ t = ok_inj _ t _ refl h3 in
      let free : is_stripped (to_ascii_lowercase n) ≡ false = not-true (ensure-eq-ok _ _ q3) in
      let short : length n ≤ max_injection_field_bytes = ground (arith, ensure-eq-ok _ _ q1) in
      let kind' = kind ∙ sym (ap (λ x. x.0) same) in
      let head' = head ∙ sym (ap (λ x. x.1.0) same) in
      record {
        spec = header n;
        name = to_ascii_lowercase n;
        read = rw (kind', head') refl;
        valid = rw (free, names n (ensure-eq-ok _ _ q2) short) refl;
        outside = inl free;
      }

  basic-IsUsable :
      (given : Option Text) (t : Template)
      → validate_basic given ≡ ok t
      → Holds s t
      → IsUsable header_name s
  unfolding validate_basic spec_of validate text_eq
  basic-IsUsable none t h held = absurd (cc)
  basic-IsUsable (some n) t h (kind, head, user) =
      let (_, q1, h1) = >>=-eq-ok (ensure (leb (length n) max_injection_field_bytes) _) _ h in
      let (_, q2, h2) = >>=-eq-ok (ensure (not (has_byte b':' n || has_control n)) _) _ h1 in
      let same : (codes "basic", (none, some n)) ≡ t = ok_inj _ t _ refl h2 in
      let clean = not-true (ensure-eq-ok _ _ q2) in
      let kind' = kind ∙ sym (ap (λ x. x.0) same) in
      let user' = user ∙ sym (ap (λ x. x.1.1) same) in
      let colon : has_byte b':' n ≡ false = ground (arith, clean) in
      let breaks = control-breaks n (ground (arith, clean)) in
      record {
        spec = basic_password n;
        name = codes "authorization";
        read = rw (kind', user') refl;
        valid = rw (colon, breaks) refl;
        outside = inr refl;
      }

  sigv4-IsUsable :
      (given scope : Option Text) (t : Template)
      → validate_sigv4 given scope ≡ ok t
      → Holds s t
      → IsUsable header_name s
  unfolding validate_sigv4 spec_of validate text_eq
  sigv4-IsUsable none scope t h held = absurd (cc)
  sigv4-IsUsable (some id) none t h held =
      let (_, q1, h1) = >>=-eq-ok (or_err (validate_access_key_id id) _) _ h in absurd (cc)
  sigv4-IsUsable (some id) (some scope) t h (kind, head, user) =
      let (u, q1, h1) = >>=-eq-ok (or_err (validate_access_key_id id) invalid_key_id) _ h in
      let (parts, q2, h2) = >>=-eq-ok (or_err (parse_scope scope) invalid_scope) _ h1 in
      let same : (codes "aws-sigv4", (some scope, some id)) ≡ t = ok_inj _ t _ refl h2 in
      let kind' = kind ∙ sym (ap (λ x. x.0) same) in
      let head' = head ∙ sym (ap (λ x. x.1.0) same) in
      let user' = user ∙ sym (ap (λ x. x.1.1) same) in
      let parsed = or_err-eq-ok _ _ q2 in
      let good = or_err-eq-ok _ _ q1 in
      record {
        spec = aws_sig_v4 (record { access_key_id = id; region = parts.0; service = parts.1 });
        name = codes "authorization";
        read = rw (kind', head', user') (rw parsed refl);
        valid = rw (good, parse_scope-join scope parts parsed) refl;
        outside = inr refl;
      }

  -- A template that was validated when it was written is one the proxy can place: the row's columns
  -- read as an injection, it passes the checks that precede the accounting of a use, and its header is
  -- `authorization` or one that no filter strips. `header_name` accepts short tokens, in lower case.
  pub validate_injection-IsUsable :
      NamesTokens
      → (kind : Text) (given scope : Option Text) (t : Template)
      → validate_injection kind given scope ≡ ok t
      → Holds s t
      → IsUsable header_name s
  unfolding validate_injection
  validate_injection-IsUsable names kind given scope t h held =
      let (u, q, k) =
        >>=-eq-ok (ensure (not (is_some scope && not (text_eq kind (codes "aws-sigv4")))) _) _ h in
      elim (Bool-cases (text_eq kind (codes "bearer"))) [
        | inl e ↦
            let same : (codes "bearer", (none, none)) ≡ t = ok_inj _ t _ refl (rw e at k) in
            bearer-IsUsable (subst (Holds s) (sym same) held)
        | inr e ↦ elim (Bool-cases (text_eq kind (codes "header"))) [
          | inl e' ↦ header-IsUsable names given t (rw (e, e') at k) held
          | inr e' ↦
              elim (Bool-cases
                (text_eq kind (codes "basic") || text_eq kind (codes "basic-password"))) [
                  | inl e'' ↦ basic-IsUsable given t (rw (e, e', e'') at k) held
                  | inr e'' ↦ elim (Bool-cases (text_eq kind (codes "aws-sigv4"))) [
                    | inl f ↦ sigv4-IsUsable given scope t (rw (e, e', e'', f) at k) held
                    | inr f ↦ let k' = rw (e, e', e'', f) at k in absurd (cc)
                  ]
                ]
        ]
      ]
