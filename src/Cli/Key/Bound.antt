-- ===== src/Cli/Key/Bound.antt =====
-- The derived key of cli/src/curl.rs stands for one call.
use keychute.Cli.Key.{Call, optional, header_fields, preimage}
use keychute.Prelude.{
  ◌^◌, ◌<◌, ◌≡◌, refl, sym, ap, ◌∙◌, Bool, Option, none, some, List, [], ◌∷◌, ◌++◌, arith, Text,
  length, take, drop, if◌then◌else◌,
}
use keychute.Prelude.Bytes.{sized, sized_inj, be_bytes_inj, append_assoc}
use keychute.Proxy.Target.{to_display}

-- Each length is a `u64`, as every length in memory is.
abbrev FitsOption : Option Text → Type 0
FitsOption none = Unit
FitsOption (some s) = length s < 256 ^ 8

abbrev FitHeaders : List (Text × Text) → Type 0
FitHeaders [] = Unit
FitHeaders (h ∷ headers) = (length h.0 < 256 ^ 8) × (length h.1 < 256 ^ 8) × FitHeaders headers

pub record Fits (c : Call) : Type 0 where
  pub method : length c.method < 256 ^ 8
  pub origin : length (to_display c.target.origin) < 256 ^ 8
  pub path : length c.target.path < 256 ^ 8
  pub query : FitsOption c.target.query
  pub count : length c.headers < 256 ^ 8
  pub headers : FitHeaders c.headers
  pub body : FitsOption c.body

-- The parts of a call that its request shows.
pub record SameCall (c d : Call) : Type 0 where
  pub method : c.method ≡ d.method
  pub origin : to_display c.target.origin ≡ to_display d.target.origin
  pub path : c.target.path ≡ d.target.path
  pub query : c.target.query ≡ d.target.query
  pub headers : c.headers ≡ d.headers
  pub body : c.body ≡ d.body
  pub suppress_user_agent : c.suppress_user_agent ≡ d.suppress_user_agent

optional_inj :
    (o p : Option Text) (s t : Text)
    → FitsOption o
    → FitsOption p
    → optional o ++ s ≡ optional p ++ t
    → (o ≡ p) × (s ≡ t)
optional_inj none none s t h k e = (refl, ap (drop 1) e)
optional_inj none (some b) s t h k e =
    let q : 0 ∷ [] ≡ 1 ∷ [] = ap (take 1) e in absurd (ground arith)
optional_inj (some a) none s t h k e =
    let q : 1 ∷ [] ≡ 0 ∷ [] = ap (take 1) e in absurd (ground arith)
optional_inj (some a) (some b) s t h k e =
    let (same, rest) = sized_inj a b s t h k (ap (drop 1) e) in (ap some same, rest)

pair_ext : (p q : Text × Text) → p.0 ≡ q.0 → p.1 ≡ q.1 → p ≡ q
pair_ext (a, b) (c, d) f g = rw (f, g) refl

header_fields_inj :
    (xs ys : List (Text × Text)) (s t : Text)
    → FitHeaders xs
    → FitHeaders ys
    → length xs ≡ length ys
    → header_fields xs ++ s ≡ header_fields ys ++ t
    → (xs ≡ ys) × (s ≡ t)
unfolding header_fields
header_fields_inj [] [] s t h k n e = (refl, e)
header_fields_inj [] (y ∷ ys) s t h k n e = absurd (omega arith)
header_fields_inj (x ∷ xs) [] s t h k n e = absurd (omega arith)
header_fields_inj (x ∷ xs) (y ∷ ys) s t h k n e =
    let flat : sized x.0 ++ (sized x.1 ++ (header_fields xs ++ s))
        ≡ sized y.0 ++ (sized y.1 ++ (header_fields ys ++ t)) =
      sym (nested (sized x.0) (sized x.1) (header_fields xs) s)
      ∙ (e ∙ nested (sized y.0) (sized y.1) (header_fields ys) t) in
    let (name, e1) = sized_inj x.0 y.0 _ _ h.0 k.0 flat in
    let (value, e2) = sized_inj x.1 y.1 _ _ h.1 k.1 e1 in
    let (rest, e3) = header_fields_inj xs ys s t h.2 k.2 (omega arith) e2 in
    (rw (pair_ext x y name value, rest) refl, e3)
  where
    nested : (a b c d : Text) → (a ++ (b ++ c)) ++ d ≡ a ++ (b ++ (c ++ d))
    nested a b c d = append_assoc a (b ++ c) d ∙ ap (λ x. a ++ x) (append_assoc b c d)

flag_inj :
    (a b : Bool) → ◌≡◌ {A = Text} ((if a then 1 else 0) ∷ []) ((if b then 1 else 0) ∷ []) → a ≡ b
flag_inj a b h = ground arith

-- Two calls with the same bytes under the hash show the same method, origin, path, query, headers in
-- their order, body and choice about the user agent; a length is below 2^64.
pub preimage_inj : (c d : Call) → Fits c → Fits d → preimage c ≡ preimage d → SameCall c d
unfolding preimage
preimage_inj c d f g e =
    let (method, e1) = sized_inj c.method d.method _ _ f.method g.method e in
    let (origin, e2) =
      sized_inj (to_display c.target.origin) (to_display d.target.origin) _ _ f.origin g.origin
        e1 in
    let (path, e3) = sized_inj c.target.path d.target.path _ _ f.path g.path e2 in
    let (query, e4) = optional_inj c.target.query d.target.query _ _ f.query g.query e3 in
    let (count, e5) = be_bytes_inj (length c.headers) (length d.headers) _ _ f.count g.count e4 in
    let (headers, e6) = header_fields_inj c.headers d.headers _ _ f.headers g.headers count e5 in
    let (body, e7) = optional_inj c.body d.body _ _ f.body g.body e6 in
    record {
      method = method;
      origin = origin;
      path = path;
      query = query;
      headers = headers;
      body = body;
      suppress_user_agent = flag_inj c.suppress_user_agent d.suppress_user_agent e7;
    }
