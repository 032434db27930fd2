-- ===== src/Cli/Constraints/Stored.antt =====
-- The methods and prefixes of `constraints_for` of cli/src/curl.rs once `normal_constraints` of
-- server/src/api/requests.rs has stored them.
use keychute.Api.{invalid_request}
use keychute.Api.Validation.{normal_methods, canonicalize_all}
use keychute.Cli.{fail, exit_config, normalize_method, canonical_path}
use keychute.Cli.Constraints.{add_methods, canonical_prefixes, covers, checked_prefixes}
use keychute.Paths.{canonicalize, prefix_matches}
use keychute.Paths.Canonical.{Bytes, canonicalize-IsCanonical}
use keychute.Paths.Prefix.Itself.{prefix_matches_refl}
use keychute.Policy.{is_valid_http_method}
use keychute.Prelude.{
  ◌≡◌, refl, sym, ap, ◌∙◌, Bool, true, ◌||◌, some, List, [], ◌∷◌, ◌++◌, Text, codes, one_of,
  to_ascii_uppercase, ok, ensure, ok_inj, >>=-eq-ok, ensure-eq-ok, is_empty, is_some, any, all,
  Bool-cases, inl, inr, In, starts_with,
}

-- A list that only grows at its end keeps its members.
In-snoc : (a b : Text) (l : List Text) → In a l → In a (l ++ (b ∷ []))
In-snoc a b [] i = absurd i
In-snoc a b (x ∷ l) (inl q) = inl q
In-snoc a b (x ∷ l) (inr i) = inr (In-snoc a b l i)

pub add_methods-In :
    (method_ok : Text → Bool) (l extra out : List Text) (a : Text)
    → In a l
    → add_methods method_ok l extra ≡ ok out
    → In a out
unfolding add_methods
add_methods-In method_ok l [] out a i h = let q = ok_inj l out _ refl h in rw (← q) i
add_methods-In method_ok l (m ∷ extra) out a i h =
    let (upper, valid, h1) = >>=-eq-ok (normalize_method method_ok m) _ h in
    elim (Bool-cases (one_of l upper)) [
      | inl e ↦ add_methods-In method_ok l extra out a i (rw e at h1)
      | inr e ↦
          add_methods-In method_ok (l ++ (upper ∷ [])) extra out a (In-snoc a upper l i)
            (rw e at h1)
    ]

-- The server keeps each method, in upper case.
pub normal_methods-In :
    (ms out : List Text) (m : Text)
    → In m ms
    → normal_methods ms ≡ ok out
    → In (to_ascii_uppercase m) out
unfolding normal_methods
normal_methods-In [] out m i h = absurd i
normal_methods-In (x ∷ ms) out m i h =
    let (u, valid, h1) =
      >>=-eq-ok (ensure (is_valid_http_method x) (invalid_request (codes "invalid method"))) _ h in
    let (rest, others, h2) = >>=-eq-ok (normal_methods ms) _ h1 in
    let same : to_ascii_uppercase x ∷ rest ≡ out = ok_inj _ out _ refl h2 in
    rw (← same) (elim i [
      | inl q ↦ inl (ap to_ascii_uppercase q)
      | inr j ↦ inr (normal_methods-In ms rest m j others)
    ])

canonical-some : (path c : Text) → canonicalize path ≡ ok c → canonical_path path ≡ some c
canonical-some path c h = rw (h, canonical_path) refl

canonical_prefixes-nil : canonical_prefixes [] ≡ []
unfolding canonical_prefixes
canonical_prefixes-nil = refl

canonical_prefixes-cons :
    (p q : Text) (ps : List Text)
    → canonicalize p ≡ ok q
    → canonical_prefixes (p ∷ ps) ≡ q ∷ canonical_prefixes ps
unfolding canonical_prefixes
canonical_prefixes-cons p q ps h = rw (canonical-some p q h, canonical_prefixes) refl

-- The prefixes that the command line compared are those that the server stores.
canonical_prefixes-same :
    (ps out : List Text) → canonicalize_all ps ≡ ok out → canonical_prefixes ps ≡ out
unfolding canonicalize_all
canonical_prefixes-same [] out h = canonical_prefixes-nil ∙ ok_inj _ out _ refl h
canonical_prefixes-same (p ∷ ps) out h =
    let (q, first, h1) = >>=-eq-ok (canonicalize p) _ h in
    let (rest, others, h2) = >>=-eq-ok (canonicalize_all ps) _ h1 in
    canonical_prefixes-cons p q ps first
    ∙ (ap (λ l. q ∷ l) (canonical_prefixes-same ps rest others) ∙ ok_inj _ out _ refl h2)

-- The stored prefixes cover the call's own path.
pub prefixes-cover :
    (path canonical : Text) (given asked stored : List Text)
    → Bytes path
    → canonicalize path ≡ ok canonical
    → checked_prefixes path given ≡ ok asked
    → canonicalize_all asked ≡ ok stored
    → (is_empty stored || any (λ p. prefix_matches p canonical) stored) ≡ true
unfolding checked_prefixes
prefixes-cover path canonical [] asked stored small c h k =
    let same : path ∷ [] ≡ asked = ok_inj _ asked _ refl h in
    let kept = canonical_prefixes-same (path ∷ []) stored (rw (← same) at k) in
    let itself =
      prefix_matches_refl canonical (canonicalize-IsCanonical path canonical small c).0 in
    let stored_one : stored ≡ canonical ∷ [] =
      sym kept
      ∙ (canonical_prefixes-cons path canonical [] c
          ∙ ap (λ l. canonical ∷ l) canonical_prefixes-nil) in
    rw (stored_one, itself) refl
prefixes-cover path canonical (p ∷ ps) asked stored small c h k =
    let (u, rooted, h1) =
      >>=-eq-ok (ensure (all (λ q. starts_with q (codes "/")) (p ∷ ps)) (fail exit_config)) _ h in
    let (u1, valid, h2) =
      >>=-eq-ok (ensure (all (λ q. is_some (canonical_path q)) (p ∷ ps)) (fail exit_config)) _ h1 in
    let (u2, covered, h3) =
      >>=-eq-ok
        (ensure (covers (canonical_prefixes (p ∷ ps)) (canonical_path path)) (fail exit_config)) _
        h2 in
    let same : p ∷ ps ≡ asked = ok_inj _ asked _ refl h3 in
    let kept = canonical_prefixes-same (p ∷ ps) stored (rw (← same) at k) in
    rw (kept, canonical-some path canonical c) at (ensure-eq-ok _ _ covered)
