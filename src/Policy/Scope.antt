-- ===== src/Policy/Scope.antt =====
-- What the two scope rules of policy/mod.rs mean for the calls that a grant can make.
use keychute.Paths.{prefix_matches}
use keychute.Paths.Prefix.{prefix_matches_trans, prefix_matches-comparable}
use keychute.Policy.{
  uses_fit, ttl_fits, prefixes_fit, methods_fit, origins_fit, PolicyRow, scopes_overlap,
  request_is_subset, prefixes_meet,
}
use keychute.Prelude.{
  ◌≡◌, refl, sym, ◌∙◌, Bool, true, ◌&&◌, ◌||◌, List, [], ◌∷◌, arith, Text, if◌then◌else◌, is_empty,
  any, all, any-In, In-any, all-In, text_eq_iff, eq_ignore_ascii_case, eq_ignore_ascii_case_iff,
  to_ascii_lowercase,
}
use keychute.Types.{Origin, same_target, Constraints}

-- A call that a grant is used for.
pub record Call : Type 0 where
  pub origin : Origin
  pub method : Text
  pub path : Text

-- A dimension of a scope: empty is unconstrained.
abbrev pub within : {A B : Type 0} → (A → B → Bool) → List A → B → Bool
within meets scope x = is_empty scope || any (λ a. meets a x) scope

abbrev pub below_ignoring_case : Text → Text → Bool
below_ignoring_case prefix path =
    prefix_matches (to_ascii_lowercase prefix) (to_ascii_lowercase path)

-- The calls that constraints allow, and those that a row speaks of.
abbrev pub Allows : Constraints → Call → Type 0
Allows c call =
    (within same_target c.origins call.origin ≡ true)
    × (within eq_ignore_ascii_case c.methods call.method ≡ true)
    × (within prefix_matches c.path_prefixes call.path ≡ true)

abbrev pub RowAllows : PolicyRow → Call → Type 0
RowAllows p call =
    (within same_target p.origins call.origin ≡ true)
    × (within eq_ignore_ascii_case p.methods call.method ≡ true)
    × (within prefix_matches p.path_prefixes call.path ≡ true)

abbrev pub RowForbids : PolicyRow → Call → Type 0
RowForbids p call =
    (within same_target p.origins call.origin ≡ true)
    × (within eq_ignore_ascii_case p.methods call.method ≡ true)
    × (within below_ignoring_case p.path_prefixes call.path ≡ true)

same_target_trans :
    (a b c : Origin) → same_target a b ≡ true → same_target b c ≡ true → same_target a c ≡ true
same_target_trans a b c h k =
    ground (arith, text_eq_iff a.host b.host, text_eq_iff b.host c.host, text_eq_iff a.host c.host)

same_target-sym : (a b : Origin) → same_target a b ≡ true → same_target b a ≡ true
same_target-sym a b h = ground (arith, text_eq_iff a.host b.host, text_eq_iff b.host a.host)

eq_ignore_ascii_case_trans :
    (a b c : Text)
    → eq_ignore_ascii_case a b ≡ true
    → eq_ignore_ascii_case b c ≡ true
    → eq_ignore_ascii_case a c ≡ true
eq_ignore_ascii_case_trans a b c h k =
    (eq_ignore_ascii_case_iff a c).1
      ((eq_ignore_ascii_case_iff a b).0 h ∙ (eq_ignore_ascii_case_iff b c).0 k)

eq_ignore_ascii_case-sym :
    (a b : Text) → eq_ignore_ascii_case a b ≡ true → eq_ignore_ascii_case b a ≡ true
eq_ignore_ascii_case-sym a b h =
    (eq_ignore_ascii_case_iff b a).1 (sym ((eq_ignore_ascii_case_iff a b).0 h))

-- The subset rule in one dimension, for a relation that is transitive.
module _ {A B : Type 0} (row_meets : A → A → Bool) (meets : A → B → Bool)
    (compose : (a b : A) (x : B) → row_meets a b ≡ true → meets b x ≡ true → meets a x ≡ true) where
  within-fit :
      (rows wanted : List A) (x : B)
      → (if is_empty wanted
          then is_empty rows
          else is_empty rows || all (λ w. any (λ r. row_meets r w) rows) wanted)
        ≡ true
      → within meets wanted x ≡ true
      → within meets rows x ≡ true
  within-fit [] wanted x h k = refl
  within-fit (r ∷ rs) [] x h k = absurd (ground arith)
  within-fit (r ∷ rs) (w ∷ ws) x h k =
      let (b, i, e) = any-In (λ a. meets a x) (w ∷ ws) k in
      let (a, j, f) =
        any-In (λ q. row_meets q b) (r ∷ rs)
          (all-In (λ v. any (λ q. row_meets q v) (r ∷ rs)) (w ∷ ws) b h i) in
      In-any (λ q. meets q x) (r ∷ rs) a j (compose a b x f e)

-- The overlap rule in one dimension: two scopes that share an element meet.
module _ {A B : Type 0} (touch : A → A → Bool) (row_meets meets : A → B → Bool)
    (shared : (a b : A) (x : B) → row_meets a x ≡ true → meets b x ≡ true → touch a b ≡ true) where
  within-overlap :
      (rows wanted : List A) (x : B)
      → within row_meets rows x ≡ true
      → within meets wanted x ≡ true
      → (is_empty rows || is_empty wanted || any (λ r. any (λ w. touch r w) wanted) rows) ≡ true
  within-overlap [] wanted x h k = refl
  within-overlap (r ∷ rs) [] x h k = refl
  within-overlap (r ∷ rs) (w ∷ ws) x h k =
      let (a, i, e) = any-In (λ q. row_meets q x) (r ∷ rs) h in
      let (b, j, f) = any-In (λ q. meets q x) (w ∷ ws) k in
      In-any (λ q. any (λ v. touch q v) (w ∷ ws)) (r ∷ rs) a i
        (In-any (λ v. touch a v) (w ∷ ws) b j (shared a b x e f))

and3 : {a b c : Bool} → a ≡ true → b ≡ true → c ≡ true → (a && b && c) ≡ true
and3 h k l = rw (h, k, l)

and5 :
    (a b c d e : Bool)
    → (a && b && c && d && e) ≡ true
    → (a ≡ true) × (b ≡ true) × (c ≡ true) × (d ≡ true) × (e ≡ true)
and5 a b c d e h = ground arith

pub request_is_subset_parts :
    (p : PolicyRow) (c : Constraints)
    → request_is_subset p c ≡ true
    → (origins_fit p.origins c.origins ≡ true)
      × (methods_fit p.methods c.methods ≡ true)
      × (prefixes_fit p.path_prefixes c.path_prefixes ≡ true)
      × (ttl_fits p.max_ttl_seconds c.ttl_seconds ≡ true)
      × (uses_fit p.max_uses c.max_uses ≡ true)
unfolding request_is_subset
request_is_subset_parts p c h =
    and5 (origins_fit p.origins c.origins) (methods_fit p.methods c.methods)
      (prefixes_fit p.path_prefixes c.path_prefixes) (ttl_fits p.max_ttl_seconds c.ttl_seconds)
      (uses_fit p.max_uses c.max_uses) h

-- If a request is a subset of a row, the row allows every call that the request's constraints allow.
pub request_is_subset_sound :
    (p : PolicyRow) (c : Constraints) (call : Call)
    → request_is_subset p c ≡ true
    → Allows c call
    → RowAllows p call
request_is_subset_sound p c call h (o, m, x) =
    let (fit_o, fit_m, fit_p, _, _) = request_is_subset_parts p c h in
    (
      within-fit same_target same_target same_target_trans p.origins c.origins call.origin fit_o o,
      within-fit eq_ignore_ascii_case eq_ignore_ascii_case eq_ignore_ascii_case_trans p.methods
          c.methods call.method fit_m m,
      within-fit prefix_matches prefix_matches prefix_matches_trans p.path_prefixes c.path_prefixes
          call.path fit_p x,
    )

-- If constraints allow a call that a deny row forbids, where the row's paths are read ignoring case,
-- then the row and the constraints overlap.
pub scopes_overlap_complete :
    (p : PolicyRow) (c : Constraints) (call : Call)
    → RowForbids p call
    → Allows c call
    → scopes_overlap p c ≡ true
unfolding scopes_overlap
scopes_overlap_complete p c call (ro, rm, rx) (o, m, x) =
    and3
      (within-overlap same_target same_target same_target
        (λ a b y h k. same_target_trans a y b h (same_target-sym b y k)) p.origins c.origins
        call.origin ro o)
      (within-overlap eq_ignore_ascii_case eq_ignore_ascii_case eq_ignore_ascii_case
        (λ a b y h k. eq_ignore_ascii_case_trans a y b h (eq_ignore_ascii_case-sym b y k)) p.methods
        c.methods call.method rm m)
      (within-overlap prefixes_meet below_ignoring_case prefix_matches prefix_matches-comparable
        p.path_prefixes c.path_prefixes call.path rx x)
