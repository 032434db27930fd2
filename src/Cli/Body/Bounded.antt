-- ===== src/Cli/Body/Bounded.antt =====
-- The body that cli/src/curl.rs assembles: its size, and its pieces between separators.
use keychute.Cli.{fail, exit_config}
use keychute.Cli.Body.{
  Piece, literal, source, strip_like_curl, read_bounded, with_separator, add_piece, add_pieces,
  read_body_with,
}
use keychute.Prelude.{
  ℕ, ◌-◌, ◌≤◌, ◌≡◌, refl, sym, ap, ◌∙◌, Bool, true, false, Option, none, some, List, [], ◌∷◌, ◌++◌,
  Text, ok, ensure, ok_inj, some_inj, >>=-eq-ok, ensure-eq-ok, leb, leb→le, if◌then◌else◌, length,
}
use keychute.Prelude.Bytes.{append_assoc, append-nil}

-- What a piece contributes, `none` when its source fails.
abbrev pub bytes_of : Bool → Piece → Option Text
bytes_of strip (literal s) = some s
bytes_of strip (source none) = none
bytes_of strip (source (some s)) = some (if strip then strip_like_curl s else s)

abbrev and_then_join : Option Text → Option Text → Option Text
and_then_join none rest = none
and_then_join (some s) none = none
and_then_join (some s) (some t) = some (s ++ t)

-- The pieces in their order, each after a separator but the first.
unfoldable pub joined : Bool → Bool → List Piece → Option Text
joined strip is_first [] = some []
joined strip is_first (p ∷ ps) =
    and_then_join (some (with_separator is_first []))
      (and_then_join (bytes_of strip p) (joined strip false ps))

read_bounded-same : (limit : ℕ) (s buf : Text) → read_bounded limit (some s) ≡ ok buf → s ≡ buf
unfolding read_bounded
read_bounded-same limit s buf h =
    let (u, small, k) = >>=-eq-ok (ensure (leb (length s) limit) (fail exit_config)) _ h in
    ok_inj s buf _ refl k

read_bounded-none : (limit : ℕ) (buf : Text) → read_bounded limit none ≡ ok buf → ⊥
unfolding read_bounded
read_bounded-none limit buf h = cc

add_piece-bytes :
    (limit : ℕ) (strip : Bool) (out out' : Text) (p : Piece)
    → add_piece limit strip out p ≡ ok out'
    → (s : Text) × (bytes_of strip p ≡ some s) × (out' ≡ out ++ s)
add_piece-bytes limit strip out out' (literal s) h = (s, refl, sym (ok_inj _ out' _ refl h))
add_piece-bytes limit strip out out' (source none) h =
    let (buf, read, h1) = >>=-eq-ok (read_bounded (limit - length out) none) _ h in
    absurd (read_bounded-none (limit - length out) buf read)
add_piece-bytes limit strip out out' (source (some s)) h =
    let (buf, read, h1) = >>=-eq-ok (read_bounded (limit - length out) (some s)) _ h in
    let same : s ≡ buf = read_bounded-same (limit - length out) s buf read in
    (_, refl, sym (ok_inj _ out' _ refl (rw (← same) at h1)))

join_first :
    (is_first : Bool) (out s t : Text)
    → (with_separator is_first out ++ s) ++ t ≡ out ++ (with_separator is_first [] ++ (s ++ t))
join_first true out s t = append_assoc out s t
join_first false out s t =
    append_assoc (out ++ (b'&' ∷ [])) s t ∙ append_assoc out (b'&' ∷ []) (s ++ t)

add_pieces-joined :
    (limit : ℕ) (strip is_first : Bool) (out out' : Text) (ps : List Piece)
    → add_pieces limit strip is_first out ps ≡ ok out'
    → (s : Text) × (joined strip is_first ps ≡ some s) × (out' ≡ out ++ s)
unfolding add_pieces joined
add_pieces-joined limit strip is_first out out' [] h =
    ([], refl, sym (ok_inj _ out' _ refl h) ∙ sym (append-nil out))
add_pieces-joined limit strip is_first out out' (p ∷ ps) h =
    let (mid, added, h1) = >>=-eq-ok (add_piece limit strip (with_separator is_first out) p) _ h in
    let (s, given, here) = add_piece-bytes limit strip (with_separator is_first out) mid p added in
    let (t, rest, there) = add_pieces-joined limit strip false mid out' ps h1 in
    (
      with_separator is_first [] ++ (s ++ t),
      rw (given, rest) refl,
      there ∙ (ap (λ m. m ++ t) here ∙ join_first is_first out s t),
    )

-- A body that is assembled has at most `limit` bytes, and is the pieces in their order with a
-- separator before each but the first, each source stripped as curl does if that is asked for.
pub read_body-joined :
    (limit : ℕ) (strip : Bool) (pieces : List Piece) (out : Text)
    → read_body_with limit strip (some pieces) ≡ ok (some out)
    → (length out ≤ limit) × (joined strip true pieces ≡ some out)
unfolding read_body_with
read_body-joined limit strip pieces out h =
    let (out', added, h1) = >>=-eq-ok (add_pieces limit strip true [] pieces) _ h in
    let (u, small, h2) = >>=-eq-ok (ensure (leb (length out') limit) (fail exit_config)) _ h1 in
    let same : out' ≡ out = some_inj out' out (ok_inj _ _ _ refl h2) in
    let (s, given, here) = add_pieces-joined limit strip true [] out' pieces added in
    (rw (← same) (leb→le (length out') limit (ensure-eq-ok _ _ small)), rw (← same, here) given)
