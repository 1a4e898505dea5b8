-- ===== src/Dotenv/RoundTrip.antt =====
-- Parse reads back what Encode writes, whatever bytes the values hold.
use thimble.Base.{
  ℕ, ◌+◌, ◌<◌, ◌≡◌, refl, sym, ap, ◌∙◌, true, false, Option, none, some, List, [], ◌∷◌, ◌++◌, ◌&&◌,
  leb, if◌then◌else◌, arith, Bytes, All, &&_left, &&_right, append_assoc, all_of, all_of_head,
  all_of_last, split_last, all_of-append, all_of_imp, differs, cut_at-append, equal_iff, mem,
  length, ◌==◌,
}
use thimble.Base.Space.{Solid, solid, trim_space, trim_space-Solid}
use thimble.Base.Dict.{get, put, keys, mem-keys, get-put}
use thimble.Base.Sort.{sort_strings, mem-sort_strings, All-sort_strings}
use thimble.Errors.{ok}
use thimble.Dotenv.Quoting.{parse_value-quote_value, quote_value-Solid, no_newline_quote_value}
use thimble.Dotenv.{
  Values, max_value_bytes, matches_key, key_start, key_rest, validate_key, parse_assignment,
  parse_line, parse_lines, parse, value_of, quote_value, encode_line, encode_keys, encode,
  scan_lines, drop_cr,
}
use thimble.Dotenv.Scan.{scan_lines-append, drop_cr-concat}

key_rest_plain : (c : ℕ) → key_rest c ≡ true → (differs b'=' c && differs b'\n' c && solid c) ≡ true
unfolding key_rest solid
key_rest_plain c h = ground arith

key_start_rest : (c : ℕ) → key_start c ≡ true → key_rest c ≡ true
unfolding key_rest
key_start_rest c h = ground arith

pub matches_key_rest : (key : Bytes) → matches_key key ≡ true → all_of key_rest key ≡ true
unfolding matches_key all_of
matches_key_rest [] h = refl
matches_key_rest (c ∷ cs) h = ground (arith, key_start_rest c)

key-plain :
    (key : Bytes)
    → matches_key key ≡ true
    → (all_of (differs b'=') key ≡ true)
      × (all_of (differs b'\n') key ≡ true)
      × (all_of solid key ≡ true)
key-plain key h =
    let rest = matches_key_rest key h in
    (
      all_of_imp key_rest (differs b'=') (λ c e. &&_left _ _ (&&_left _ _ (key_rest_plain c e))) key
          rest,
      all_of_imp key_rest (differs b'\n') (λ c e. &&_right _ _ (&&_left _ _ (key_rest_plain c e)))
          key rest,
      all_of_imp key_rest solid (λ c e. &&_right _ _ (key_rest_plain c e)) key rest,
    )

matches_key-nil : matches_key [] ≡ true → ⊥
unfolding matches_key
matches_key-nil h = cc

key-Solid : (key : Bytes) → matches_key key ≡ true → Solid key
key-Solid [] h = elim (matches_key-nil h) [ ]
key-Solid (c ∷ cs) h =
    let solids = (key-plain (c ∷ cs) h).2 in
    let (body, d, p) = split_last c cs in
    record {
      head = c;
      tail = cs;
      body = body;
      last = d;
      from_head = refl;
      to_last = p;
      head_solid = all_of_head solid c cs solids;
      last_solid = all_of_last solid body d (rw p at solids);
    }

encode_line-Solid :
    (values : Values) (key : Bytes) → matches_key key ≡ true → Solid (encode_line values key)
unfolding encode_line
encode_line-Solid values key h =
    let k = key-Solid key h in
    let v = quote_value-Solid (value_of values key) in
    record {
      head = k.head;
      tail = k.tail ++ (b'=' ∷ quote_value (value_of values key));
      body = key ++ (b'=' ∷ v.body);
      last = v.last;
      from_head = ap (λ t. t ++ (b'=' ∷ quote_value (value_of values key))) k.from_head;
      to_last =
          ap (λ t. key ++ (b'=' ∷ t)) v.to_last
          ∙ sym (append_assoc key (b'=' ∷ v.body) (v.last ∷ []));
      head_solid = k.head_solid;
      last_solid = v.last_solid;
    }

no_newline_after :
    (values : Values) (key : Bytes)
    → all_of (differs b'\n') (b'=' ∷ quote_value (value_of values key)) ≡ true
unfolding all_of
no_newline_after values key = no_newline_quote_value (value_of values key)

pub no_newline_encode_line :
    (values : Values) (key : Bytes)
    → matches_key key ≡ true
    → all_of (differs b'\n') (encode_line values key) ≡ true
unfolding encode_line
no_newline_encode_line values key h =
    all_of-append (differs b'\n') key (b'=' ∷ quote_value (value_of values key))
    ∙ ap (λ b. b && all_of (differs b'\n') (b'=' ∷ quote_value (value_of values key)))
        (key-plain key h).1
    ∙ no_newline_after values key

parse_assignment-encode_line :
    (n : ℕ) (values acc : Values) (key : Bytes)
    → matches_key key ≡ true
    → parse_assignment n (encode_line values key) acc ≡ ok (put acc key (value_of values key))
unfolding parse_assignment encode_line validate_key
parse_assignment-encode_line n values acc key h =
    rw (cut_at-append b'=' key (quote_value (value_of values key)) (key-plain key h).0) (
      rw (trim_space-Solid (key-Solid key h)) (
        rw h (
          rw (trim_space-Solid (quote_value-Solid (value_of values key)))
            (rw (parse_value-quote_value (value_of values key))))))

key_start_no_comment : (c : ℕ) → key_start c ≡ true → (c == b'#') ≡ false
unfolding key_start
key_start_no_comment c h = ground arith

parse_line-assignment :
    (n : ℕ) (key rest : Bytes) (acc : Values)
    → matches_key key ≡ true
    → parse_line n (key ++ rest) acc ≡ parse_assignment n (key ++ rest) acc
unfolding parse_line matches_key
parse_line-assignment n [] rest acc h = cc
parse_line-assignment n (c ∷ cs) rest acc h = rw (key_start_no_comment c (&&_left _ _ h))

-- The loop reads one line of Encode's as the entry that it was written for.
pub parse_line-encode_line :
    (n : ℕ) (values acc : Values) (key : Bytes)
    → matches_key key ≡ true
    → parse_line n (encode_line values key) acc ≡ ok (put acc key (value_of values key))
parse_line-encode_line n values acc key h =
    unfold encode_line in
    parse_line-assignment n key (b'=' ∷ quote_value (value_of values key)) acc h
    ∙ parse_assignment-encode_line n values acc key h

solid_no_cr : (c : ℕ) → solid c ≡ true → differs b'\r' c ≡ true
unfolding solid
solid_no_cr c h = ground arith

drop_cr-Solid : {s : Bytes} → Solid s → drop_cr s ≡ s
drop_cr-Solid h =
    ap drop_cr h.to_last
    ∙ drop_cr-concat h.body h.last (solid_no_cr h.last h.last_solid)
    ∙ sym h.to_last

pub trimmed_line :
    (values : Values) (key : Bytes)
    → matches_key key ≡ true
    → trim_space (drop_cr (encode_line values key)) ≡ encode_line values key
trimmed_line values key h =
    ap trim_space (drop_cr-Solid (encode_line-Solid values key h))
    ∙ trim_space-Solid (encode_line-Solid values key h)

-- The scanner's buffer holds the line of every key.
abbrev pub Fits : Values → Bytes → Type 0
Fits values key = (matches_key key ≡ true) × (length (encode_line values key) < max_value_bytes)

-- The map after the loop has read the lines of these keys.
abbrev pub put_all : Values → List Bytes → Values → Values
put_all values [] acc = acc
put_all values (key ∷ rest) acc = put_all values rest (put acc key (value_of values key))

lt→leb-false : (a b : ℕ) → a < b → leb b a ≡ false
lt→leb-false a b h = ground arith

parse_lines-encode_keys :
    (n : ℕ) (values acc : Values) (names : List Bytes)
    → All (Fits values) names
    → parse_lines n (scan_lines (encode_keys values names)) acc ≡ ok (put_all values names acc)
unfolding parse_lines encode_keys
parse_lines-encode_keys n values acc [] h = unfold scan_lines in refl
parse_lines-encode_keys n values acc (key ∷ rest) h =
    rw
      (scan_lines-append (encode_line values key) (encode_keys values rest)
        (no_newline_encode_line values key h.0.0))
      (rw (lt→leb-false _ _ h.0.1) (
        rw (trimmed_line values key h.0.0) (
          rw (parse_line-encode_line (n + 1) values acc key h.0.0)
            (parse_lines-encode_keys (n + 1) values _ rest h.1))))

get-put_all :
    (values : Values) (names : List Bytes) (acc : Values) (j : Bytes)
    → get (put_all values names acc) j
      ≡ (if mem j names then some (value_of values j) else get acc j)
unfolding mem
get-put_all values [] acc j = refl
get-put_all values (key ∷ rest) acc j = ground (
  arith,
  get-put_all values rest (put acc key (value_of values key)) j,
  get-put acc key j (value_of values key),
  equal_iff key j,
)

same_entry :
    (o : Option Bytes)
    → (if elim o [ none ↦ false | some v ↦ true ]
        then some (elim o [ none ↦ [] | some v ↦ v ])
        else get {V = Bytes} [] [])
      ≡ o
unfolding get
same_entry none = refl
same_entry (some v) = refl

get-put_all-keys :
    (values : Values) (j : Bytes)
    → get (put_all values (sort_strings (keys values)) []) j ≡ get values j
get-put_all-keys values j =
    get-put_all values (sort_strings (keys values)) [] j
    ∙ ap (λ b. if b then some (value_of values j) else get {V = Bytes} [] j)
        (mem-sort_strings j (keys values) ∙ mem-keys values j)
    ∙ unfold get in same_entry (get values j)

-- If every key of a map matches KeyPattern and its encoded line is shorter than the scanner's
-- buffer, Parse accepts what Encode writes, and the map that it returns has at each key what the
-- first map has there.
pub parse-encode :
    (values : Values)
    → All (Fits values) (keys values)
    → (m : Values) × (parse (encode values) ≡ ok m) × ((k : Bytes) → get m k ≡ get values k)
unfolding parse encode
parse-encode values h = (
  put_all values (sort_strings (keys values)) [],
  parse_lines-encode_keys 0 values [] (sort_strings (keys values))
      (All-sort_strings (Fits values) (keys values) h),
  get-put_all-keys values,
)
