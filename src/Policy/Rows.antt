-- ===== src/Policy/Rows.antt =====
-- How the outcome of `evaluate` depends on the rows of the policy table: not on their order, and
-- deny rows only take releases away.
use keychute.Policy.Release
use mathlib.Core.Logic.{◌↔◌}
use mathlib.Core.Path.{ap₂}
use keychute.Policy.{
  clamped, by_winner, by_deny_row, denied_by_policy, outranks, releases, unreachable, deny,
  hard_caps, denied, Reason, evaluate, fits, is_applicable, overlapping_deny, precedence_key,
  winner, ClientRow, SecretRow, RequestedGrant, PolicyRow, Evaluation,
}
use keychute.Prelude.{
  arith, find-some, In-keep, inr, keep_of_In, find-In, sym, ◌∷◌, keep, ok, ◌∙◌, Option-cases, find,
  inl, ◌≢◌, ◌⊎◌, Bool-cases, false, true, none, In, some, refl, ◌≡◌, ap, Option, List, Text, Bool,
}
use keychute.Prelude.Order.{max_by-ne_none}
use keychute.Types.{DateTime}

-- Ids are the table's primary key.
abbrev pub UniqueIds : List PolicyRow → Type 0
UniqueIds rows = (p q : PolicyRow) → In p rows → In q rows → p.id ≡ q.id → p ≡ q

abbrev pub SameRows : List PolicyRow → List PolicyRow → Type 0
SameRows xs ys = (p : PolicyRow) → In p xs ↔ In p ys

abbrev pub IsDenied : Evaluation → Type 0
IsDenied e = (r : Reason) × (e.decision ≡ denied r)

precedence_key-id :
    (max_utc : DateTime) (p q : PolicyRow)
    → precedence_key max_utc p ≡ precedence_key max_utc q
    → p.id ≡ q.id
unfolding precedence_key
precedence_key-id max_utc p q h = ap (λ k. k.1.1.1.1.1) h

module _ (max_utc : DateTime) (client : ClientRow) (secret : Option SecretRow)
    (secret_tags : List Text) (req : RequestedGrant) (now : DateTime) where
  abbrev run : List PolicyRow → Evaluation
  run = evaluate max_utc client secret secret_tags req now

  abbrev won : List PolicyRow → Option PolicyRow
  won = winner max_utc client secret secret_tags req now

  abbrev applies : PolicyRow → Bool
  applies p = is_applicable p client req secret_tags now

  abbrev fitting : PolicyRow → Bool
  fitting = fits max_utc client secret secret_tags req now

  abbrev denying : PolicyRow → Bool
  denying = overlapping_deny max_utc client secret secret_tags req now

  won-none :
      (xs : List PolicyRow) (p : PolicyRow)
      → won xs ≡ none
      → In p xs
      → applies p ≡ true
      → fitting p ≡ false
  unfolding winner
  won-none xs p none_won i a = elim (Bool-cases (fitting p)) [
    | inl f ↦ absurd (
        max_by-ne_none (outranks max_utc) (keep fitting (keep applies xs)) p
          (keep_of_In fitting (keep applies xs) p (keep_of_In applies xs p i a) f) none_won)
    | inr f ↦ f
  ]

  -- The rows in the other list that win there lose here to nothing either, so the winners are one.
  won-same : (xs ys : List PolicyRow) → UniqueIds xs → SameRows xs ys → won xs ≡ won ys
  won-same xs ys unique same = elim (Option-cases (won xs)) [
    | inl lost ↦ elim (Option-cases (won ys)) [
      | inl lost' ↦ lost ∙ sym lost'
      | inr (q, e) ↦
          let ((i, a), f, _) =
            Release.winner-greatest max_utc client secret secret_tags req now ys q e in
          let g : fitting q ≡ false = won-none xs q lost ((same q).1 i) a in absurd (cc)
    ]
    | inr (p, d) ↦
        let ((i, a), f, top) =
          Release.winner-greatest max_utc client secret secret_tags req now xs p d in
        elim (Option-cases (won ys)) [
          | inl lost' ↦
              let g : fitting p ≡ false = won-none ys p lost' ((same p).0 i) a in absurd (cc)
          | inr (q, e) ↦
              let ((j, b), g, top') =
                Release.winner-greatest max_utc client secret secret_tags req now ys q e in
              let keys : precedence_key max_utc p ≡ precedence_key max_utc q =
                Release.key_greater-IsOrder.total (precedence_key max_utc p)
                  (precedence_key max_utc q) (top' p ((same p).0 i) a f)
                  (top q ((same q).1 j) b g) in
              let one : p ≡ q = unique p q i ((same q).1 j) (precedence_key-id max_utc p q keys) in
              d ∙ ap some one ∙ sym e
        ]
  ]

  found-same :
      (xs ys : List PolicyRow) (p : PolicyRow)
      → SameRows xs ys
      → find denying (keep applies xs) ≡ some p
      → (q : PolicyRow) × (find denying (keep applies ys) ≡ some q)
  found-same xs ys p same h =
      let (i, d) = find-In denying (keep applies xs) p h in
      let (j, a) = In-keep applies xs p i in
      find-some denying (keep applies ys) p (keep_of_In applies ys p ((same p).0 j) a) d

  IsDenied-of_found :
      (xs : List PolicyRow) (p : PolicyRow)
      → hard_caps client secret req.mechanism ≡ ok tt
      → find denying (keep applies xs) ≡ some p
      → IsDenied (run xs)
  IsDenied-of_found xs p e found = (
    denied_by_policy p.id,
    rw (Release.run-ok max_utc client secret secret_tags req now xs e) (rw found refl),
  )

  -- Two tables with the same rows, in whatever order, lead to the same evaluation, or both to a
  -- denial. The rows' ids are unique.
  pub evaluate-SameRows :
      (xs ys : List PolicyRow)
      → UniqueIds xs
      → SameRows xs ys
      → (run xs ≡ run ys) ⊎ (IsDenied (run xs) × IsDenied (run ys))
  evaluate-SameRows xs ys unique same =
      elim (Release.caps-cases max_utc client secret secret_tags req now) [
        | inl (r, e) ↦ inl (
            Release.run-err max_utc client secret secret_tags req now xs r e
            ∙ sym (Release.run-err max_utc client secret secret_tags req now ys r e))
        | inr e ↦ elim (Option-cases (find denying (keep applies xs))) [
          | inr (p, found) ↦
              let (q, found') = found-same xs ys p same found in
              inr (IsDenied-of_found xs p e found, IsDenied-of_found ys q e found')
          | inl missed ↦ elim (Option-cases (find denying (keep applies ys))) [
            | inr (q, found') ↦
                let (p, found) = found-same ys xs q (λ r. ((same r).1, (same r).0)) found' in
                absurd (cc)
            | inl missed' ↦ inl (
                Release.run-ok max_utc client secret secret_tags req now xs e
                ∙ ap₂ (λ d w. by_deny_row d (by_winner secret req.mechanism w))
                    (missed ∙ sym missed') (won-same xs ys unique same)
                ∙ sym (Release.run-ok max_utc client secret secret_tags req now ys e))
          ]
        ]
      ]

  find-tail :
      (d : PolicyRow) (xs : List PolicyRow)
      → find denying (keep applies (d ∷ xs)) ≡ none
      → find denying (keep applies xs) ≡ none
  find-tail d xs h = elim (Bool-cases (applies d)) [
    | inr e ↦ rw e at h
    | inl e ↦
        let k : find denying (d ∷ keep applies xs) ≡ none = rw e at h in
        elim (Bool-cases (denying d)) [ inl t ↦ absurd (ground arith) | inr t ↦ rw t at k ]
  ]

  won-deny : (d : PolicyRow) (xs : List PolicyRow) → d.outcome ≡ deny → won (d ∷ xs) ≡ won xs
  unfolding winner
  won-deny d xs o =
      let unfit : fitting d ≡ false = ground arith in
      elim (Bool-cases (applies d)) [ inr e ↦ rw e refl | inl e ↦ rw (e, unfit) refl ]

  clamped-ne_unreachable :
      (p : PolicyRow) → fitting p ≡ true → clamped secret req.mechanism p ≢ unreachable
  unfolding clamped
  clamped-ne_unreachable p f h = ground arith

  -- A deny row that is added never changes an evaluation to another release: what is released with
  -- it was evaluated the same without it.
  pub evaluate-add_deny :
      (xs : List PolicyRow) (d : PolicyRow)
      → d.outcome ≡ deny
      → releases (run (d ∷ xs)).decision ≡ true
      → run (d ∷ xs) ≡ run xs
  evaluate-add_deny xs d o h =
      let (e, undenied, _, _, _, _) =
        Release.run-releases max_utc client secret secret_tags req now (d ∷ xs) h in
      let none_found : find denying (keep applies (d ∷ xs)) ≡ find denying (keep applies xs) =
        undenied ∙ sym (find-tail d xs undenied) in
      Release.run-ok max_utc client secret secret_tags req now (d ∷ xs) e
      ∙ ap₂ (λ f w. by_deny_row f (by_winner secret req.mechanism w)) none_found (won-deny d xs o)
      ∙ sym (Release.run-ok max_utc client secret secret_tags req now xs e)

  -- The arm that `evaluate` marks unreachable is never reached.
  pub evaluate-ne_unreachable : (xs : List PolicyRow) → (run xs).decision ≢ unreachable
  evaluate-ne_unreachable xs h =
      elim (Release.caps-cases max_utc client secret secret_tags req now) [
        | inl (r, e) ↦
            let q = Release.run-err max_utc client secret secret_tags req now xs r e in
            absurd (ground arith)
        | inr e ↦
            let q = Release.run-ok max_utc client secret secret_tags req now xs e in
            elim (Option-cases (find denying (keep applies xs))) [
              | inr (d, found) ↦ absurd (ground arith)
              | inl missed ↦ elim (Option-cases (won xs)) [
                | inl lost ↦ absurd (ground arith)
                | inr (p, w) ↦
                    let ((i, a), f, _) =
                      Release.winner-greatest max_utc client secret secret_tags req now xs p w in
                    absurd (ground (arith, clamped-ne_unreachable p f))
              ]
            ]
      ]
