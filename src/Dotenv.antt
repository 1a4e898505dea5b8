-- ===== src/Dotenv.antt =====
-- internal/dotenv/dotenv.go: the parser and the encoder of the bundles' text.
pub mod Scan
pub mod Quoting
pub mod RoundTrip
pub mod Limit
pub mod Keys
use thimble.Base.{
  ℕ, suc, ◌+◌, ◌^◌, Bool, true, false, not, ◌&&◌, ◌||◌, Option, none, some, List, [], ◌∷◌, ◌++◌,
  ltb, leb, ◌==◌, if◌then◌else◌, Bytes, codes, length, all_of, has_prefix, contains, cut_at,
  reverse,
}
use thimble.Base.Space.{trim_space}
use thimble.Base.Dict.{Dict, get, put, keys}
use thimble.Base.Sort.{sort_strings}
use thimble.Errors.{
  Result, ok, err, ◌>>=◌, ◌>>◌, require, in_line, invalid_key, invalid_dotenv_line, exceeds_limit,
  unquoted_multiline, trailing_content, unterminated,
}
unfoldable pub use Scan.{scan_lines, drop_cr}

abbrev pub Values : Type 0
Values = Dict Bytes

abbrev pub max_value_bytes : ℕ
max_value_bytes = 2 ^ 20

-- the two classes of KeyPattern, ^[A-Z_][A-Z0-9_]*$
unfoldable pub key_start : ℕ → Bool
key_start c = (leb b'A' c && leb c b'Z') || c == b'_'

unfoldable pub key_rest : ℕ → Bool
unfolding key_start
key_rest c = key_start c || (leb b'0' c && leb c b'9')

unfoldable pub matches_key : Bytes → Bool
unfolding key_start key_rest
matches_key [] = false
matches_key (c ∷ cs) = key_start c && all_of key_rest cs

unfoldable pub validate_key : Bytes → Result (Unit {0})
unfolding matches_key
validate_key key = require (matches_key key) (invalid_key key)

unfoldable pub unescape : ℕ → ℕ
unescape ch =
    if ch == b'n' then b'\n' else if ch == b'r' then b'\r' else if ch == b't' then b'\t' else ch

-- The loop of parseQuotedValue over value[1:]; `out` is the builder.
unfoldable pub quoted_loop : Bytes → Bool → Bytes → Result Bytes
unfolding unescape
quoted_loop [] escaped out = err unterminated
quoted_loop (ch ∷ rest) escaped out =
    let unescaped = quoted_loop rest false (out ++ (unescape ch ∷ [])) in
    let opened = quoted_loop rest true out in
    let plain = quoted_loop rest false (out ++ (ch ∷ [])) in
    if escaped
    then unescaped
    else if ch == b'\\'
    then opened
    else if ch == b'"'
    then elim (trim_space rest) [ [] ↦ ok out | _ ∷ _ ↦ err trailing_content ]
    else plain

abbrev parse_quoted_value : Bytes → Result Bytes
parse_quoted_value rest = quoted_loop rest false []

unfoldable pub parse_value : Bytes → Result Bytes
unfolding quoted_loop
parse_value [] = ok []
parse_value (ch ∷ rest) =
    if not (ch == b'"')
    then (if contains (λ c. c == b'\r' || c == b'\n') (ch ∷ rest)
        then err unquoted_multiline
        else ok (ch ∷ rest))
    else parse_quoted_value rest

-- the loop's body from the test on the parts of SplitN, on line `n`
unfoldable pub assign_parts : ℕ → Option (Bytes × Bytes) → Values → Result Values
assign_parts n none values = err (invalid_dotenv_line n)
assign_parts n (some (left, right)) values = do
  let key = trim_space left
  in_line n (validate_key key)
  value ← in_line n (parse_value (trim_space right))
  ok (put values key value)

-- the loop's body behind the test for blank lines and comments
unfoldable pub parse_assignment : ℕ → Bytes → Values → Result Values
unfolding assign_parts
parse_assignment n line values = assign_parts n (cut_at b'=' line) values

-- the body of the loop, on a trimmed line
unfoldable pub parse_line : ℕ → Bytes → Values → Result Values
parse_line n [] values = ok values
parse_line n (c ∷ cs) values = if c == b'#' then ok values else parse_assignment n (c ∷ cs) values

-- The loop over scanner.Scan(). `n` is lineNo, the lines read before these. A line that fills the
-- scanner's buffer of `max_value_bytes` ends the loop with bufio.ErrTooLong.
unfoldable pub parse_lines : ℕ → List Bytes → Values → Result Values
parse_lines n [] values = ok values
parse_lines n (raw ∷ rest) values =
    if leb max_value_bytes (length raw)
    then err (exceeds_limit (n + 1))
    else parse_line (n + 1) (trim_space (drop_cr raw)) values >>= λ next.
        parse_lines (n + 1) rest next

unfoldable pub parse : Bytes → Result Values
parse input = parse_lines 0 (scan_lines input) []

unfoldable pub is_safe_rune : ℕ → Bool
is_safe_rune r =
    (leb b'a' r && leb r b'z')
    || (leb b'A' r && leb r b'Z')
    || (leb b'0' r && leb r b'9')
    || contains (λ c. c == r) (codes "_-./:@%+,=~")

-- A rune above ASCII, or an invalid byte, is not safe, and neither are the bytes of one: so the
-- test of the runes is the test of the bytes.
abbrev pub is_unquoted_safe : Bytes → Bool
is_unquoted_safe = all_of is_safe_rune

-- strings.NewReplacer with the five pairs of QuoteValue, at one byte
unfoldable pub escape_byte : ℕ → Bytes
escape_byte c =
    if c == b'\\'
    then b'\\' ∷ b'\\' ∷ []
    else if c == b'"'
    then b'\\' ∷ b'"' ∷ []
    else if c == b'\n'
    then b'\\' ∷ b'n' ∷ []
    else if c == b'\r'
    then b'\\' ∷ b'r' ∷ []
    else if c == b'\t'
    then b'\\' ∷ b't' ∷ []
    else c ∷ []

unfoldable pub escape : Bytes → Bytes
unfolding escape_byte
escape [] = []
escape (c ∷ cs) = escape_byte c ++ escape cs

unfoldable pub quote_value : Bytes → Bytes
unfolding is_safe_rune escape
quote_value [] = b'"' ∷ b'"' ∷ []
quote_value (c ∷ cs) =
    if is_unquoted_safe (c ∷ cs) then c ∷ cs else b'"' ∷ (escape (c ∷ cs) ++ (b'"' ∷ []))

-- values[key], with Go's zero value for a key that is not there
abbrev pub value_of : Values → Bytes → Bytes
value_of values key = elim (get values key) [ none ↦ [] | some v ↦ v ]

-- the line that Encode writes for a key, without its newline
unfoldable pub encode_line : Values → Bytes → Bytes
encode_line values key = key ++ (b'=' ∷ quote_value (value_of values key))

unfoldable pub encode_keys : Values → List Bytes → Bytes
encode_keys values [] = []
encode_keys values (key ∷ rest) = encode_line values key ++ (b'\n' ∷ encode_keys values rest)

unfoldable pub encode : Values → Bytes
encode values = encode_keys values (sort_strings (keys values))
