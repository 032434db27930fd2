-- ===== src/Api/Inputs/FailClosed.antt =====
-- What the translation of server/src/api/requests.rs keeps of the stored rows: a row that applies to
-- the request reaches the engine, or the request is denied.
use keychute.Policy
use keychute.Store
use keychute.Store.Policies
use keychute.Api.{ApiFailure, policy_denied, unreadable_rule}
use keychute.Api.Inputs.{
  parse_row, policy_rows, policy_inputs, applies_raw, row_is_applicable_raw, client_input,
  Unparseable,
}
use keychute.Api.Validation.{canonicalize_all}
use keychute.Policy.{
  RequestedGrant, is_applicable, outcome_from_str, evaluate, denied, Reason, deny,
}
use keychute.Prelude.{
  ◌≡◌, refl, sym, ap, ◌∙◌, ◌⊎◌, inl, inr, Bool, true, false, Option, some, List, [], ◌∷◌, Text, ok,
  err, >>=-eq-ok, ok_inj, In, text_eq, text_eq_iff, arith, Bool-cases, Result,
}
use keychute.Types.{DateTime, Mechanism, mechanism_from_str, mechanism_as_str, same_mechanism}

mechanism_from_str-eq :
    (s : Text) (m : Mechanism) → mechanism_from_str s ≡ some m → s ≡ mechanism_as_str m
unfolding mechanism_from_str
mechanism_from_str-eq s m h = ground (
  arith,
  text_eq_iff s (mechanism_as_str Mechanism.brokered),
  text_eq_iff s (mechanism_as_str Mechanism.autofill),
  text_eq_iff s (mechanism_as_str Mechanism.cli_read),
  text_eq_iff s (mechanism_as_str Mechanism.direct_read),
)

mechanism_as_str-same :
    (m n : Mechanism) → text_eq (mechanism_as_str m) (mechanism_as_str n) ≡ same_mechanism m n
unfolding text_eq
mechanism_as_str-same Mechanism.brokered Mechanism.brokered = refl
mechanism_as_str-same Mechanism.brokered Mechanism.autofill = refl
mechanism_as_str-same Mechanism.brokered Mechanism.cli_read = refl
mechanism_as_str-same Mechanism.brokered Mechanism.direct_read = refl
mechanism_as_str-same Mechanism.autofill Mechanism.brokered = refl
mechanism_as_str-same Mechanism.autofill Mechanism.autofill = refl
mechanism_as_str-same Mechanism.autofill Mechanism.cli_read = refl
mechanism_as_str-same Mechanism.autofill Mechanism.direct_read = refl
mechanism_as_str-same Mechanism.cli_read Mechanism.brokered = refl
mechanism_as_str-same Mechanism.cli_read Mechanism.autofill = refl
mechanism_as_str-same Mechanism.cli_read Mechanism.cli_read = refl
mechanism_as_str-same Mechanism.cli_read Mechanism.direct_read = refl
mechanism_as_str-same Mechanism.direct_read Mechanism.brokered = refl
mechanism_as_str-same Mechanism.direct_read Mechanism.autofill = refl
mechanism_as_str-same Mechanism.direct_read Mechanism.cli_read = refl
mechanism_as_str-same Mechanism.direct_read Mechanism.direct_read = refl

-- The columns that a parsed row has from the stored one.
pub record ParsedFrom (r : Policies.PolicyRow) (p : Policy.PolicyRow) : Type 0 where
  pub same_mechanism : mechanism_from_str r.mechanism ≡ some p.mechanism
  pub same_outcome : outcome_from_str r.outcome ≡ some p.outcome
  pub same_origins : r.origins ≡ some p.origins
  pub same_methods : p.methods ≡ r.methods
  pub same_prefixes : canonicalize_all r.path_prefixes ≡ ok p.path_prefixes
  pub same_client : p.client_name ≡ r.client_name
  pub same_secret : p.secret_name ≡ r.secret_name
  pub same_tag : p.secret_tag ≡ r.secret_tag
  pub same_expiry : p.not_after ≡ r.not_after
  pub same_id : p.id ≡ r.id

pub parse_row-ParsedFrom :
    (r : Policies.PolicyRow) (p : Policy.PolicyRow) → parse_row r ≡ ok p → ParsedFrom r p
unfolding parse_row
parse_row-ParsedFrom r p h = ground arith

pub parsed-applies :
    (r : Policies.PolicyRow) (p : Policy.PolicyRow) (client : Policy.ClientRow)
    (req : RequestedGrant) (tags : List Text) (now : DateTime)
    → ParsedFrom r p
    → is_applicable p client req tags now ≡ row_is_applicable_raw r client.name req tags now
unfolding is_applicable row_is_applicable_raw
parsed-applies r p client req tags now k =
    rw
      (
        k.same_client,
        k.same_secret,
        k.same_tag,
        k.same_expiry,
        mechanism_from_str-eq r.mechanism p.mechanism k.same_mechanism,
        mechanism_as_str-same p.mechanism req.mechanism,
      )
      refl

Result-cases : {E A : Type 0} (m : Result E A) → ((a : A) × (m ≡ ok a)) ⊎ ((e : E) × (m ≡ err e))
Result-cases (ok a) = inl (a, refl)
Result-cases (err e) = inr (e, refl)

module _ (name : Text) (req : RequestedGrant) (tags : List Text) (now : DateTime) where
  abbrev translated : List Policies.PolicyRow → Result ApiFailure (List Policy.PolicyRow)
  translated = policy_rows name req tags now

  abbrev applies : Policies.PolicyRow → Bool
  applies = applies_raw name req tags now

  -- The head of a table that was translated: it is the head of the result, or it does not apply.
  policy_rows-cons :
      (r : Policies.PolicyRow) (rs : List Policies.PolicyRow) (out : List Policy.PolicyRow)
      → translated (r ∷ rs) ≡ ok out
      → ((p : Policy.PolicyRow) × (rest : List Policy.PolicyRow) × (parse_row r ≡ ok p)
          × (translated rs ≡ ok rest)
          × (out ≡ p ∷ rest))
        ⊎ ((applies r ≡ false) × (translated rs ≡ ok out))
  unfolding policy_rows
  policy_rows-cons r rs out h = elim (Result-cases (parse_row r)) [
    | inl (p, e) ↦
        let (rest, q, k) =
          >>=-eq-ok (policy_rows name req tags now rs) _ (rw (e, policy_rows) at h) in
        inl (p, rest, e, q, sym (ok_inj (p ∷ rest) out _ refl k))
    | inr (u, e) ↦ elim (Bool-cases (applies r)) [
      | inl a ↦ let k = rw (e, a, policy_rows) at h in absurd (cc)
      | inr a ↦ inr (a, rw (e, a, policy_rows) at h)
    ]
  ]

  -- A stored row that applies is in the translation.
  pub policy_rows-applicable :
      (rs : List Policies.PolicyRow) (out : List Policy.PolicyRow) (r : Policies.PolicyRow)
      → translated rs ≡ ok out
      → In r rs
      → applies r ≡ true
      → (p : Policy.PolicyRow) × In p out × (parse_row r ≡ ok p)
  policy_rows-applicable [] out r h i a = absurd i
  policy_rows-applicable (x ∷ rs) out r h i a = elim (policy_rows-cons x rs out h) [
    | inl (p, rest, e, q, same) ↦ elim i [
      | inl s ↦ (p, rw same (inl refl), rw (← s) e)
      | inr j ↦
          let (p', k, e') = policy_rows-applicable rs rest r q j a in (p', rw same (inr k), e')
    ]
    | inr (idle, q) ↦ elim i [
      | inl s ↦ let b : applies x ≡ true = rw s a in absurd (cc)
      | inr j ↦ policy_rows-applicable rs out r q j a
    ]
  ]

  -- And each row of the translation is a stored one.
  pub policy_rows-stored :
      (rs : List Policies.PolicyRow) (out : List Policy.PolicyRow) (p : Policy.PolicyRow)
      → translated rs ≡ ok out
      → In p out
      → (r : Policies.PolicyRow) × In r rs × (parse_row r ≡ ok p)
  unfolding policy_rows
  policy_rows-stored [] out p h i = let e : out ≡ [] = ground arith in absurd (rw e at i)
  policy_rows-stored (x ∷ rs) out p h i = elim (policy_rows-cons x rs out h) [
    | inl (p', rest, e, q, same) ↦ elim (rw same at i) [
      | inl s ↦ (x, inl refl, rw (← s) e)
      | inr j ↦ let (r, k, e') = policy_rows-stored rs rest p q j in (r, inr k, e')
    ]
    | inr (idle, q) ↦ let (r, k, e') = policy_rows-stored rs out p q i in (r, inr k, e')
  ]

  -- A row that applies and cannot be parsed refuses the set, whatever else it holds.
  pub policy_rows-unreadable :
      (rs : List Policies.PolicyRow) (r : Policies.PolicyRow) (u : Unparseable)
      → In r rs
      → applies r ≡ true
      → parse_row r ≡ err u
      → translated rs ≡ err (policy_denied unreadable_rule)
  unfolding policy_rows
  policy_rows-unreadable [] r u i a e = absurd i
  policy_rows-unreadable (x ∷ rs) r u (inl s) a e =
      let e' : parse_row x ≡ err u = rw s e in
      let a' : applies x ≡ true = rw s a in rw (e', policy_rows) (rw a' refl)
  policy_rows-unreadable (x ∷ rs) r u (inr i) a e = elim (Result-cases (parse_row x)) [
    | inl (p, q) ↦ rw (q, policy_rows) (rw (policy_rows-unreadable rs r u i a e) refl)
    | inr (v, q) ↦ elim (Bool-cases (applies x)) [
      | inl b ↦ rw (q, b, policy_rows) refl
      | inr b ↦ rw (q, b, policy_rows) (policy_rows-unreadable rs r u i a e)
    ]
  ]

module _ (client : Store.ClientRow) (secret : Option Store.SecretRow) (tags : List Text)
    (req : RequestedGrant) (rows : List Policies.PolicyRow) (now : DateTime)
    (r : Policies.PolicyRow) where
  -- A row that applies is among the engine's rows, and applies there.
  pub policy_inputs-applicable :
      (p : Policy.PolicyRow) (c : Policy.ClientRow) (s : Option Policy.SecretRow)
      (out : List Policy.PolicyRow)
      → In r rows
      → row_is_applicable_raw r client.name req tags now ≡ true
      → parse_row r ≡ ok p
      → policy_inputs client secret tags req rows now ≡ ok (c, (s, out))
      → In p out × (is_applicable p c req tags now ≡ true)
  unfolding policy_inputs
  policy_inputs-applicable p c s out i a e h =
      let (out', q, k) = >>=-eq-ok (policy_rows client.name req tags now rows) _ h in
      let same = ok_inj _ _ _ refl k in
      let (p', j, e') = policy_rows-applicable client.name req tags now rows out' r q i a in
      let p_same : p' ≡ p = ok_inj p' p (parse_row r) e' e in
      let out_same : out' ≡ out = ap (λ x. x.1.1) same in
      let c_same : client_input client ≡ c = ap (λ x. x.0) same in
      (
        rw (← out_same, ← p_same) j,
        parsed-applies r p c req tags now (parse_row-ParsedFrom r p e) ∙ rw (← c_same) a,
      )

  pub policy_inputs-unreadable :
      (u : Unparseable)
      → In r rows
      → row_is_applicable_raw r client.name req tags now ≡ true
      → parse_row r ≡ err u
      → policy_inputs client secret tags req rows now ≡ err (policy_denied unreadable_rule)
  unfolding policy_inputs
  policy_inputs-unreadable u i a e =
      rw (policy_rows-unreadable client.name req tags now rows r u i a e) refl
