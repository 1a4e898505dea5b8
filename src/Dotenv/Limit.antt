-- ===== src/Dotenv/Limit.antt =====
-- A line as long as the scanner's buffer: Encode writes it, and Parse refuses the whole text.
use thimble.Base.{
  ℕ, ◌+◌, ◌≤◌, ◌≡◌, inl, inr, true, false, List, [], ◌∷◌, arith, leb, Bytes, All, Bool-cases, equal,
  equal_iff, mem, length, ◌∙◌,
}
use thimble.Base.Dict.{put, keys}
use thimble.Base.Sort.{sort_strings, mem-sort_strings, All-sort_strings}
use thimble.Errors.{exceeds_limit, err}
use thimble.Dotenv.{
  Values, max_value_bytes, matches_key, parse_lines, parse, value_of, encode_line, encode_keys,
  encode, scan_lines,
}
use thimble.Dotenv.Scan.{scan_lines-append}
use thimble.Dotenv.RoundTrip.{no_newline_encode_line, trimmed_line, parse_line-encode_line}

abbrev HasName : Bytes → Type 0
HasName key = matches_key key ≡ true

le→leb : (a b : ℕ) → a ≤ b → leb a b ≡ true
le→leb a b h = ground arith

module _ (values : Values) (long : Bytes)
    (too_long : max_value_bytes ≤ length (encode_line values long)) where
  mem-nil : mem long [] ≡ true → ⊥
  unfolding mem
  mem-nil h = cc

  mem_later :
      (key : Bytes) (rest : List Bytes)
      → leb max_value_bytes (length (encode_line values key)) ≡ false
      → mem long (key ∷ rest) ≡ true
      → mem long rest ≡ true
  unfolding mem
  mem_later key rest fits m = elim (Bool-cases (equal key long)) [
    | inl same ↦ cc (fits, full ((equal_iff key long).0 same))
    | inr other ↦ rw other at m
  ]
    where
      full : key ≡ long → leb max_value_bytes (length (encode_line values key)) ≡ true
      full e = rw e (le→leb max_value_bytes (length (encode_line values long)) too_long)

  parse_lines_refuses :
      (n : ℕ) (acc : Values) (names : List Bytes)
      → All HasName names
      → mem long names ≡ true
      → (i : ℕ) × (parse_lines n (scan_lines (encode_keys values names)) acc
          ≡ err (exceeds_limit i))
  unfolding parse_lines encode_keys
  parse_lines_refuses n acc [] h m = elim (mem-nil m) [ ]
  parse_lines_refuses n acc (key ∷ rest) h m =
      rw
        (scan_lines-append (encode_line values key) (encode_keys values rest)
          (no_newline_encode_line values key h.0))
        (elim (Bool-cases (leb max_value_bytes (length (encode_line values key)))) [
          | inl full ↦ (n + 1, rw full)
          | inr fits ↦
              let (i, later) =
                parse_lines_refuses (n + 1) (put acc key (value_of values key)) rest h.1
                  (mem_later key rest fits m) in
              (
                i,
                rw fits (
                    rw (trimmed_line values key h.0)
                      (rw (parse_line-encode_line (n + 1) values acc key h.0) later)),
              )
        ])

-- If every key matches KeyPattern and the encoded line of some key fills the scanner's buffer,
-- Parse refuses what Encode writes, with the error for a value over the limit.
pub parse-encode_refused :
    (values : Values) (long : Bytes)
    → All HasName (keys values)
    → mem long (keys values) ≡ true
    → max_value_bytes ≤ length (encode_line values long)
    → (line : ℕ) × (parse (encode values) ≡ err (exceeds_limit line))
unfolding parse encode
parse-encode_refused values long h m too_long =
    parse_lines_refuses values long too_long 0 [] (sort_strings (keys values))
      (All-sort_strings HasName (keys values) h) (mem-sort_strings long (keys values) ∙ m)
