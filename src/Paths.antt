-- ===== src/Paths.antt =====
-- types/src/paths.rs: canonicalisation of request paths, and prefix matching at segment borders.
-- A `&str` is its bytes. `String::from_utf8` and `char::is_control` are the standard library's and
-- are written out: the decoder is the table of well-formed byte sequences, one byte at a time.
pub mod Prefix
pub mod Canonical
use mathlib.Core.Option
use keychute.Prelude.{
  ℕ, zero, suc, ◌+◌, ◌-◌, ◌*◌, Bool, true, false, ◌&&◌, ◌||◌, not, Option, none, some, List, [],
  ◌∷◌, ◌++◌, Text, codes, Result, ok, err, ◌>>=◌, ◌>>◌, ensure, ok_or, ltb, leb, ◌==◌,
  if◌then◌else◌, length, is_empty, any, has_byte, is_ascii_digit, text_eq, starts_with, byte_at,
  trim_end_byte, split_byte, before_byte,
}

pub data Rejection : Type 0 where
  no_leading_slash truncated_escape invalid_escape encoded_slash encoded_backslash : Rejection
  raw_backslash not_utf8 control_character dot_segment duplicate_slash : Rejection

abbrev pub hex_val : ℕ → Option ℕ
hex_val b =
    if is_ascii_digit b
    then some (b - b'0')
    else if leb b'a' b && leb b b'f'
    then some (b - b'a' + 10)
    else if leb b'A' b && leb b b'F'
    then some (b - b'A' + 10)
    else none

-- The arm for '%': the decoded byte before the decoded rest.
abbrev pub escaped : ℕ → ℕ → Result Rejection Text → Result Rejection Text
escaped h l rest = do
  hv ← ok_or (hex_val h) invalid_escape
  lv ← ok_or (hex_val l) invalid_escape
  let v = hv * 16 + lv
  ensure (not (v == b'/')) encoded_slash
  ensure (not (v == 92)) encoded_backslash
  decoded ← rest
  ok (v ∷ decoded)

-- The other two arms.
abbrev pub plain : ℕ → Result Rejection Text → Result Rejection Text
plain b rest = do ensure (not (b == 92)) raw_backslash; decoded ← rest; ok (b ∷ decoded)

-- The loop of `canonicalize`: percent-decode exactly once.
unfoldable pub decode : Text → Result Rejection Text
decode [] = ok []
decode (b ∷ []) = if b == b'%' then err truncated_escape else plain b (ok [])
decode (b ∷ h ∷ []) =
    let literal = plain b (decode (h ∷ [])) in if b == b'%' then err truncated_escape else literal
decode (b ∷ h ∷ l ∷ rest) =
    let escape = escaped h l (decode rest) in
    let literal = plain b (decode (h ∷ l ∷ rest)) in if b == b'%' then escape else literal

-- Where the UTF-8 decoder stands: how many bytes the character still wants, the range of the next
-- one, and the bits read so far.
record Sequence : Type 0 where
  wanted : ℕ
  low : ℕ
  high : ℕ
  bits : ℕ

abbrev between_characters : Sequence
between_characters = record { wanted = 0; low = 0; high = 0; bits = 0 }

abbrev sequence : ℕ → ℕ → ℕ → ℕ → Option (Sequence × List ℕ)
sequence wanted low high bits =
    some (record { wanted = wanted; low = low; high = high; bits = bits }, [])

lead_byte : ℕ → Option (Sequence × List ℕ)
lead_byte b =
    if ltb b 0x80
    then some (between_characters, b ∷ [])
    else if ltb b 0xC2
    then none
    else if ltb b 0xE0
    then sequence 1 0x80 0xBF (b - 0xC0)
    else if b == 0xE0
    then sequence 2 0xA0 0xBF 0
    else if b == 0xED
    then sequence 2 0x80 0x9F 0xD
    else if ltb b 0xF0
    then sequence 2 0x80 0xBF (b - 0xE0)
    else if b == 0xF0
    then sequence 3 0x90 0xBF 0
    else if ltb b 0xF4
    then sequence 3 0x80 0xBF (b - 0xF0)
    else if b == 0xF4
    then sequence 3 0x80 0x8F 4
    else none

abbrev continue_with : ℕ → ℕ → Option (Sequence × List ℕ)
continue_with wanted bits =
    if wanted == 1
    then some (between_characters, bits ∷ [])
    else sequence (wanted - 1) 0x80 0xBF bits

utf8_step : Sequence → ℕ → Option (Sequence × List ℕ)
unfolding lead_byte
utf8_step s b =
    if s.wanted == 0
    then lead_byte b
    else if leb s.low b && leb b s.high
    then continue_with s.wanted (s.bits * 64 + (b - 0x80))
    else none

utf8_from : Sequence → Text → Option (List ℕ)
unfolding utf8_step
utf8_from s [] = if s.wanted == 0 then some [] else none
utf8_from s (b ∷ bytes) = elim (utf8_step s b) [
  | none ↦ none
  | some (s', read) ↦ Option.map (λ rest. read ++ rest) (utf8_from s' bytes)
]

-- `String::from_utf8` and `chars`: the characters of well-formed bytes.
unfoldable pub chars : Text → Option (List ℕ)
unfolding utf8_from
chars = utf8_from between_characters

-- `char::is_control`: general category Cc.
abbrev pub is_control : ℕ → Bool
is_control c = ltb c 32 || (leb 127 c && ltb c 160)

-- One segment, judged by what stands before its first ';'.
abbrev pub is_dot_segment : Text → Bool
is_dot_segment segment =
    let base = before_byte b';' segment in text_eq base (codes ".") || text_eq base (codes "..")

-- `s.contains("//")`.
unfoldable pub has_double_slash : Text → Bool
has_double_slash [] = false
has_double_slash (a ∷ s) = (a == b'/' && byte_at s 0 b'/') || has_double_slash s

-- The tests of `canonicalize` on the decoded bytes.
abbrev pub check_characters : Text → List ℕ → Result Rejection Text
check_characters s characters = do
  ensure (not (any is_control characters)) control_character
  ensure (not (any is_dot_segment (split_byte b'/' s))) dot_segment
  ensure (not (has_double_slash s)) duplicate_slash
  ok s

unfoldable pub check_decoded : Text → Result Rejection Text
check_decoded s = do characters ← ok_or (chars s) not_utf8; check_characters s characters

unfoldable pub canonicalize : Text → Result Rejection Text
canonicalize raw = do
  ensure (starts_with raw (codes "/")) no_leading_slash
  decoded ← decode raw
  check_decoded decoded

unfoldable pub prefix_matches : Text → Text → Bool
unfolding text_eq trim_end_byte byte_at starts_with
prefix_matches prefix path =
    let p = trim_end_byte b'/' prefix in
    if text_eq prefix (codes "/")
    then true
    else if is_empty p
    then false
    else text_eq path p
      || (ltb (length p) (length path) && byte_at path (length p) b'/' && starts_with path p)
