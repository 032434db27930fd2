-- ===== src/Proxy/Target/Checked.antt =====
-- What the checks of server/src/proxy.rs on a request establish.
use mathlib.Core.Path.{subst}
use keychute.Paths.{Rejection, canonicalize, prefix_matches}
use keychute.Policy.Scope.{Call, Allows, within}
use keychute.Prelude.{
  ℕ, ◌≡◌, ◌≢◌, ◌≤◌, refl, sym, ap, ◌∙◌, map, inl, inr, true, not, ◌||◌, Option, none, some, List,
  [], ◌∷◌, ◌++◌, ◌+◌, Text, codes, text_eq, text_eq_iff, text_eq_refl, any, Result, ok, err, ensure,
  ok_or, >>=-eq-ok, ensure-eq-ok, ok_or-eq-ok, ok_inj, Bool-cases, arith, length, ltb, is_empty,
  eq_ignore_ascii_case, to_ascii_uppercase, length-append,
}
use keychute.Prelude.Bytes.{append_assoc, append-nil}
use keychute.Proxy.Target.{Request, permitted, buffered, proxy_suffix, or_invalid_path, only_origin}
use keychute.Types.{Constraints, Origin, same_target}

pub buffered-length :
    (max : ℕ) (buf : Text) (chunks : List (Option Text)) (out : Text)
    → length buf ≤ max
    → buffered max buf chunks ≡ ok out
    → length out ≤ max
unfolding buffered
buffered-length max buf [] out small h = let e = ok_inj buf out (ok buf) refl h in rw (← e) small
buffered-length max buf (none ∷ chunks) out small h = absurd (cc)
buffered-length max buf (some c ∷ chunks) out small h =
    elim (Bool-cases (ltb max (length buf + length c))) [
      | inl e ↦ let k = rw e at h in absurd (cc)
      | inr e ↦
          let fits : length (buf ++ c) ≤ max = ground (arith, length-append buf c) in
          buffered-length max (buf ++ c) chunks out fits (rw e at h)
    ]

abbrev pub joined : List Text → Text
joined [] = []
joined (t ∷ ts) = t ++ joined ts

-- The buffer is the whole body: every piece arrived.
pub buffered-joined :
    (max : ℕ) (buf : Text) (chunks : List (Option Text)) (out : Text)
    → buffered max buf chunks ≡ ok out
    → (pieces : List Text) × (chunks ≡ map some pieces) × (out ≡ buf ++ joined pieces)
unfolding buffered
buffered-joined max buf [] out h =
    ([], refl, sym (ok_inj buf out (ok buf) refl h) ∙ sym (append-nil buf))
buffered-joined max buf (none ∷ chunks) out h = absurd (cc)
buffered-joined max buf (some c ∷ chunks) out h =
    elim (Bool-cases (ltb max (length buf + length c))) [
      | inl e ↦ let k = rw e at h in absurd (cc)
      | inr e ↦
          let (pieces, all_of, same) = buffered-joined max (buf ++ c) chunks out (rw e at h) in
          (c ∷ pieces, ap (λ l. some c ∷ l) all_of, same ∙ append_assoc buf c (joined pieces))
    ]

only_origin-ok : (os : List Origin) (o : Origin) → only_origin os ≡ ok o → os ≡ o ∷ []
only_origin-ok [] o h = absurd (cc)
only_origin-ok (x ∷ []) o h = ap (λ y. y ∷ []) (ok_inj x o (ok x) refl h)
only_origin-ok (x ∷ y ∷ os) o h = absurd (cc)

-- What the checks on the request establish.
pub record Permitted (c : Constraints) (req : Request) (call : Call) : Type 0 where
  pub allowed : Allows c call
  pub not_trace : call.method ≢ codes "TRACE"
  pub upper : call.method ≡ to_ascii_uppercase req.method
  pub suffix : Text
  pub routed : proxy_suffix req.path ≡ some suffix
  pub canonical : canonicalize suffix ≡ ok call.path

or_invalid_path-ok :
    (r : Result Rejection Text) (path : Text) → or_invalid_path r ≡ ok path → r ≡ ok path
or_invalid_path-ok (ok p) path h = ap ok (ok_inj p path (ok p) refl h)
or_invalid_path-ok (err e) path h = absurd (cc)

origin_in : (o : Origin) (os : List Origin) → os ≡ o ∷ [] → within same_target os o ≡ true
origin_in o os one =
    let same : same_target o o ≡ true = ground (arith, text_eq_refl o.host) in rw (one, same) refl

pub permitted-Permitted :
    (c : Constraints) (req : Request) (call : Call)
    → permitted c req ≡ ok call
    → Permitted c req call
unfolding permitted
permitted-Permitted c req call h =
    let m = to_ascii_uppercase req.method in
    let (_, q0, h0) = >>=-eq-ok (ensure (not (text_eq m (codes "TRACE"))) _) _ h in
    let (_, q1, h1) =
      >>=-eq-ok (ensure (is_empty c.methods || any (λ x. eq_ignore_ascii_case x m) c.methods) _) _
        h0 in
    let (suffix, q2, h2) = >>=-eq-ok (ok_or (proxy_suffix req.path) _) _ h1 in
    let (path, q3, h3) = >>=-eq-ok (or_invalid_path (canonicalize suffix)) _ h2 in
    let (_, q4, h4) =
      >>=-eq-ok
        (ensure (is_empty c.path_prefixes || any (λ x. prefix_matches x path) c.path_prefixes) _) _
        h3 in
    let (o, q5, h5) = >>=-eq-ok (only_origin c.origins) _ h4 in
    let made : Call = record { origin = o; method = m; path = path } in
    let same : made ≡ call = ok_inj made call (ok made) refl h5 in
    let one = only_origin-ok c.origins o q5 in
    let traced : text_eq m (codes "TRACE") ≡ true → ⊥ = λ e. let k = rw e at q0 in absurd (cc) in
    subst (Permitted c req) same (record {
      allowed = (origin_in o c.origins one, ensure-eq-ok _ _ q1, ensure-eq-ok _ _ q4);
      not_trace = λ e. traced ((text_eq_iff m (codes "TRACE")).1 e);
      upper = refl;
      suffix = suffix;
      routed = ok_or-eq-ok _ _ q2;
      canonical = or_invalid_path-ok _ path q3;
    })
