-- ===== src/Policy/Release.antt =====
-- What `evaluate` of policy/mod.rs guarantees: when it releases, when it denies.
use mathlib.Core.Path.{ap₂}
use keychute.Policy.{
  precedence_key, key_greater, unvetted, releases, clamped, deny, secret_caps, outranks, Mechanism,
  notify_only, auto_approve, request_is_subset, same_mechanism, winner, by_winner, denied_by_policy,
  keep, tier, denied, exceeds, find, by_deny_row, deny_with, fits, is_applicable, overlapping_deny,
  some, true, Bool, Evaluation, err, hard_caps, ok, PolicyRow, Reason, Result, evaluate,
  RequestedGrant, Text, List, SecretRow, Option, ClientRow,
}
use keychute.Policy.Scope.{Call, Allows, RowForbids, scopes_overlap_complete}
use keychute.Prelude.{
  find-none, ap, In-keep, ◌∙◌, Option-cases, none, arith, is_empty, any, keep_of_In, false,
  find-some, inl, inr, ◌⊎◌, In, refl, ◌≡◌,
}
use keychute.Prelude.Int.{gtb_ℤ-IsOrder}
use keychute.Prelude.Order.{
  max_by-In, max_by-greatest, IsOrder, lex-IsOrder, reversed-IsOrder, gtb-IsOrder,
}
use keychute.Types.{DateTime}

pub key_greater-IsOrder : IsOrder key_greater
key_greater-IsOrder = lex-IsOrder gtb-IsOrder (
    lex-IsOrder gtb-IsOrder (
      lex-IsOrder gtb_ℤ-IsOrder
        (lex-IsOrder gtb-IsOrder (lex-IsOrder (reversed-IsOrder gtb-IsOrder) gtb-IsOrder))))

module _ (max_utc : DateTime) (client : ClientRow) (secret : Option SecretRow)
    (secret_tags : List Text) (req : RequestedGrant) (now : DateTime) where
  abbrev run : List PolicyRow → Evaluation
  run = evaluate max_utc client secret secret_tags req now

  abbrev applies : PolicyRow → Bool
  applies p = is_applicable p client req secret_tags now

  abbrev denying : PolicyRow → Bool
  denying = overlapping_deny max_utc client secret secret_tags req now

  abbrev fitting : PolicyRow → Bool
  fitting = fits max_utc client secret secret_tags req now

  -- Why a release was decided: the row that won, and what holds of it.
  pub record Released (policies : List PolicyRow) (e : Evaluation) : Type 0 where
    pub stored : SecretRow
    pub is_stored : secret ≡ some stored
    pub secret_enabled : stored.enabled ≡ true
    pub vetted : stored.operator_vetted ≡ true
    pub secret_tier : exceeds (tier req.mechanism) stored.max_tier ≡ false
    pub client_enabled : client.enabled ≡ true
    pub mechanism_allowed :
        any (λ m. same_mechanism m req.mechanism) client.allowed_mechanisms ≡ true
    pub client_tier : exceeds (tier req.mechanism) client.max_tier ≡ false
    pub row : PolicyRow
    pub listed : In row policies
    pub row_applies : applies row ≡ true
    pub row_fits : request_is_subset row req.constraints ≡ true
    pub row_outcome : (row.outcome ≡ auto_approve) ⊎ (row.outcome ≡ notify_only)
    pub names_origin : req.mechanism ≡ Mechanism.brokered → is_empty row.origins ≡ false
    pub recorded : e.policy_id ≡ some row.id
    pub capped : e.policy_not_after ≡ row.not_after
    pub not_denied : (p : PolicyRow) → In p policies → applies p ≡ true → denying p ≡ false
    pub not_outranked :
        (p : PolicyRow)
        → In p policies
        → applies p ≡ true
        → fitting p ≡ true
        → outranks max_utc p row ≡ false

  abbrev caps : Result Reason (Unit {0})
  caps = hard_caps client secret req.mechanism

  pub run-err : (policies : List PolicyRow) (r : Reason) → caps ≡ err r → run policies ≡ deny_with r
  unfolding evaluate
  run-err policies r h = rw (h, evaluate)

  pub run-ok :
      (policies : List PolicyRow)
      → caps ≡ ok tt
      → run policies
        ≡ by_deny_row (find denying (keep applies policies)) (
            by_winner secret req.mechanism
              (winner max_utc client secret secret_tags req now policies))
  unfolding evaluate
  run-ok policies h = rw (h, evaluate)

  pub caps-cases : ((r : Reason) × (caps ≡ err r)) ⊎ (caps ≡ ok tt)
  caps-cases = go caps refl
    where
      go :
          (c : Result Reason (Unit {0}))
          → caps ≡ c
          → ((r : Reason) × (caps ≡ err r)) ⊎ (caps ≡ ok tt)
      go (ok tt) e = inr e
      go (err r) e = inl (r, e)

  -- A deny row that applies and overlaps is found.
  find-denying :
      (policies : List PolicyRow) (p : PolicyRow)
      → In p policies
      → applies p ≡ true
      → denying p ≡ true
      → (q : PolicyRow) × (find denying (keep applies policies) ≡ some q)
  find-denying policies p i a d =
      find-some denying (keep applies policies) p (keep_of_In applies policies p i a) d

  -- If a listed row that denies is applicable and overlaps the request, the request is denied.
  pub evaluate-overlap :
      (policies : List PolicyRow) (p : PolicyRow)
      → In p policies
      → applies p ≡ true
      → denying p ≡ true
      → (r : Reason) × ((run policies).decision ≡ denied r)
  evaluate-overlap policies p i a d = elim caps-cases [
    | inl (r, e) ↦ (r, rw (run-err policies r e) refl)
    | inr e ↦
        let (q, found) = find-denying policies p i a d in
        (denied_by_policy q.id, rw (run-ok policies e) (rw found refl))
  ]

  -- A request whose constraints allow a call that an applicable deny row forbids is denied, whatever
  -- else the table holds. The row's paths are read ignoring case.
  pub evaluate-forbidden_call :
      (policies : List PolicyRow) (p : PolicyRow) (call : Call)
      → In p policies
      → applies p ≡ true
      → p.outcome ≡ deny
      → RowForbids p call
      → Allows req.constraints call
      → (r : Reason) × ((run policies).decision ≡ denied r)
  evaluate-forbidden_call policies p call i a d forbids allows =
      evaluate-overlap policies p i a
        (ground (arith, scopes_overlap_complete p req.constraints call forbids allows))

  hard_caps-ok :
      caps ≡ ok tt
      → (client.enabled ≡ true)
        × (any (λ m. same_mechanism m req.mechanism) client.allowed_mechanisms ≡ true)
        × (exceeds (tier req.mechanism) client.max_tier ≡ false)
        × (secret_caps secret (tier req.mechanism) ≡ ok tt)
  unfolding hard_caps
  hard_caps-ok h = ground arith

  -- What a released decision says of the winning row and the secret.
  clamped-releases :
      (p : PolicyRow)
      → releases (clamped secret req.mechanism p) ≡ true
      → (unvetted secret ≡ false)
        × ((p.outcome ≡ auto_approve) ⊎ (p.outcome ≡ notify_only))
        × (req.mechanism ≡ Mechanism.brokered → is_empty p.origins ≡ false)
  unfolding clamped
  clamped-releases p h = ground arith

  -- Where a release comes from: the caps pass, no deny row is found, and the winner releases.
  pub run-releases :
      (policies : List PolicyRow)
      → releases (run policies).decision ≡ true
      → (caps ≡ ok tt)
        × (find denying (keep applies policies) ≡ none)
        × (row : PolicyRow) × (winner max_utc client secret secret_tags req now policies ≡ some row)
        × (releases (clamped secret req.mechanism row) ≡ true)
        × (run policies ≡ by_winner secret req.mechanism (some row))
  run-releases policies h = elim caps-cases [
    | inl (r, e) ↦
        let q : run policies ≡ deny_with r = run-err policies r e in absurd (ground arith)
    | inr e ↦
        let q = run-ok policies e in
        elim (Option-cases (find denying (keep applies policies))) [
          | inr (d, found) ↦ absurd (ground arith)
          | inl none_found ↦
              elim (Option-cases (winner max_utc client secret secret_tags req now policies)) [
                | inl lost ↦ absurd (ground arith)
                | inr (row, won) ↦
                    let same : run policies ≡ by_winner secret req.mechanism (some row) =
                      q
                      ∙ ap₂ (λ d w. by_deny_row d (by_winner secret req.mechanism w)) none_found
                          won in
                    (e, none_found, row, won, ground arith, same)
              ]
        ]
  ]

  -- The winner is listed, applies, fits the request, and is outranked by no other such row.
  pub winner-greatest :
      (policies : List PolicyRow) (row : PolicyRow)
      → winner max_utc client secret secret_tags req now policies ≡ some row
      → (In row policies × (applies row ≡ true))
        × (fitting row ≡ true)
        × ((p : PolicyRow)
            → In p policies
            → applies p ≡ true
            → fitting p ≡ true
            → outranks max_utc p row ≡ false)
  unfolding winner
  winner-greatest policies row won =
      let i = max_by-In (outranks max_utc) (keep fitting (keep applies policies)) row won in
      let (j, f) = In-keep fitting (keep applies policies) row i in
      (
        In-keep applies policies row j,
        f,
        λ p listed a g.
            max_by-greatest (precedence_key max_utc) key_greater-IsOrder
              (keep fitting (keep applies policies)) row p won
              (keep_of_In fitting (keep applies policies) p (keep_of_In applies policies p listed a)
                g),
      )

  secret_caps-stored :
      secret_caps secret (tier req.mechanism) ≡ ok tt
      → unvetted secret ≡ false
      → (s : SecretRow) × (secret ≡ some s)
        × (s.enabled ≡ true)
        × (s.operator_vetted ≡ true)
        × (exceeds (tier req.mechanism) s.max_tier ≡ false)
  secret_caps-stored h v = elim (Option-cases secret) [
    | inl e ↦ absurd (ground arith)
    | inr (s, e) ↦ (s, e, ground arith, ground arith, ground arith)
  ]

  -- If the decision is to release without a human, whether or not the operator is notified, then the
  -- client, the secret and a row of the table all permit it: see the record's fields.
  pub evaluate-Released :
      (policies : List PolicyRow)
      → releases (run policies).decision ≡ true
      → Released policies (run policies)
  evaluate-Released policies h =
      let (capped, undenied, row, won, freed, same) = run-releases policies h in
      let (enabled, allowed, within_tier, stored_ok) = hard_caps-ok capped in
      let (vetted, outcome, named) = clamped-releases row freed in
      let (s, stored, s_enabled, s_vetted, s_tier) = secret_caps-stored stored_ok vetted in
      let ((listed, row_applies), row_fits, greatest) = winner-greatest policies row won in
      record {
        stored = s;
        is_stored = stored;
        secret_enabled = s_enabled;
        vetted = s_vetted;
        secret_tier = s_tier;
        client_enabled = enabled;
        mechanism_allowed = allowed;
        client_tier = within_tier;
        row = row;
        listed = listed;
        row_applies = row_applies;
        row_fits = ground arith;
        row_outcome = outcome;
        names_origin = named;
        recorded = ap (λ e. e.policy_id) same;
        capped = ap (λ e. e.policy_not_after) same;
        not_denied = λ p i a.
            find-none denying (keep applies policies) p undenied
              (keep_of_In applies policies p i a);
        not_outranked = greatest;
      }
