-- ===== src/Cli/Body.antt =====
-- The request body of cli/src/curl.rs: `read_body_with` and what it calls. Each piece has, if it names
-- a file or standard input, what that yields: `none` when it cannot be read.
pub mod Bounded
use keychute.Cli.{Failure, fail, exit_config}
use keychute.Prelude.{
  ℕ, ◌+◌, ◌-◌, Bool, true, false, not, ◌&&◌, ◌||◌, Option, none, some, List, [], ◌∷◌, ◌++◌, Text,
  codes, Result, ok, err, ◌>>=◌, ◌>>◌, ensure, ok_or, ltb, leb, ◌==◌, if◌then◌else◌, length,
  split_byte,
}
use keychute.Prelude.Numerals.{parse_unsigned}
use keychute.Prelude.Trim.{trim}

-- The greatest `usize`.
abbrev pub max_usize : ℕ
max_usize = 18446744073709551615

-- `default` is `DEFAULT_MAX_BODY_BYTES`.
unfoldable pub parse_max_body : ℕ → Option Text → Result Failure ℕ
parse_max_body default none = ok default
parse_max_body default (some raw) = do
  n ← ok_or (parse_unsigned max_usize (trim raw)) (fail exit_config)
  ensure (ltb 0 n && ltb n max_usize) (fail exit_config)
  ok n

-- A line up to its first CR or NUL.
unfoldable pub until_cut : Text → Text
until_cut [] = []
until_cut (c ∷ s) = let rest = until_cut s in if c == 13 || c == 0 then [] else c ∷ rest

unfoldable pub join_cut : List Text → Text
join_cut [] = []
join_cut (line ∷ lines) = until_cut line ++ join_cut lines

unfoldable pub strip_like_curl : Text → Text
strip_like_curl buf = join_cut (split_byte 10 buf)

-- A source yields at most `limit` bytes.
unfoldable pub read_bounded : ℕ → Option Text → Result Failure Text
read_bounded limit source = do
  buf ← ok_or source (fail exit_config)
  ensure (leb (length buf) limit) (fail exit_config)
  ok buf

-- A piece of the command line that is sent as it stands, or one that names a source.
pub data Piece : Type 0 where
  literal : Text → Piece
  source : Option Text → Piece

-- curl's separator, keyed on the piece's place and not on what is there.
abbrev pub with_separator : Bool → Text → Text
with_separator is_first out = if is_first then out else out ++ (b'&' ∷ [])

module _ (limit : ℕ) (strip_newlines : Bool) where
  -- The piece is added to what stands before it.
  abbrev pub add_piece : Text → Piece → Result Failure Text
  add_piece out (literal s) = ok (out ++ s)
  add_piece out (source s) = do
    buf ← read_bounded (limit - length out) s
    ok (out ++ (if strip_newlines then strip_like_curl buf else buf))

  unfoldable pub add_pieces : Bool → Text → List Piece → Result Failure Text
  add_pieces is_first out [] = ok out
  add_pieces is_first out (p ∷ ps) = do
    out' ← add_piece (with_separator is_first out) p
    add_pieces false out' ps

  -- `none` when no option of the command line gives a body.
  unfoldable pub read_body_with : Option (List Piece) → Result Failure (Option Text)
  read_body_with none = ok none
  read_body_with (some pieces) = do
    out ← add_pieces true [] pieces
    ensure (leb (length out) limit) (fail exit_config)
    ok (some out)
