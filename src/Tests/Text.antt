-- ===== src/Tests/Text.antt =====
-- The parser and the encoder, names, recipients, policies and messages at work.
use thimble.Base.{
  ℕ, zero, suc, ◌↔◌, ◌≡◌, refl, ap, ◌≤◌, true, [], ◌∷◌, ◌++◌, Bytes, codes, mem, equal, all_of,
  contains, has_prefix, length, All, some, split_at, cut_at, arith,
}
use thimble.Base.Dict.{get, put, keys}
use thimble.Base.Number.{atoi}
use thimble.Base.Space.{trim_space, trim_line_end}
use thimble.Errors.{ok, err, exceeds_limit}
use thimble.Dotenv.{
  Values, matches_key, max_value_bytes, is_safe_rune, quote_value, parse_value, encode_line, parse,
  parse_lines, parse_line, parse_assignment, assign_parts, validate_key, encode,
}
use thimble.Dotenv.Scan.{scan_lines, drop_cr}
use thimble.Dotenv.Quoting.{parse_value-quote_value}
use thimble.Dotenv.RoundTrip.{Fits, parse-encode}
use thimble.Dotenv.Limit.{parse-encode_refused}
use thimble.Store.Validate.{validate_name, clean_recipient, check_recipient, is_age_recipient}
use thimble.Store.Validate.Names.{IsSegment, validate_name-IsSegment}
use thimble.Store.Validate.Recipients.{IsRecipient, clean_recipient-IsRecipient}
use thimble.Quorum.Toml.{strip_comment, split_assignment, unquote}
use thimble.Quorum.Policy.{load_policy, parse_policy, validate_policy}
use thimble.Quorum.Policy.Valid.{IsQuorum, validate_policy_iff, load_policy-IsQuorum}
use thimble.Quorum.Message.{HasPlainFields, canonical_message_injective}
use thimble.Tests.{policy}

parse_value-quote_value_example :
    parse_value (quote_value (codes "a \"b\"\n\\c")) ≡ ok (codes "a \"b\"\n\\c")
parse_value-quote_value_example = parse_value-quote_value (codes "a \"b\"\n\\c")

abbrev values : Values
values = (codes "PORT", codes "80") ∷ (codes "MOTD", codes "hi there") ∷ []

fits : All (Fits values) (keys values)
unfolding keys matches_key encode_line quote_value get equal all_of contains
fits = ((refl, omega arith), ((refl, omega arith), tt))

parse-encode_example :
    (m : Values) × (parse (encode values) ≡ ok m) × ((k : Bytes) → get m k ≡ get values k)
parse-encode_example = parse-encode values fits

-- a text of one byte repeated
repeat : ℕ → Bytes
repeat zero = []
repeat (suc n) = b'a' ∷ repeat n

repeat_safe : (n : ℕ) → all_of is_safe_rune (repeat n) ≡ true
unfolding repeat all_of is_safe_rune
repeat_safe zero = refl
repeat_safe (suc n) = repeat_safe n

length-repeat : (n : ℕ) → length (repeat n) ≡ n
unfolding repeat
length-repeat zero = refl
length-repeat (suc n) = ap suc (length-repeat n)

quote_value-repeat : (n : ℕ) → n ≤ length (quote_value (repeat n))
unfolding quote_value repeat
quote_value-repeat zero = omega arith
quote_value-repeat (suc n) = rw (repeat_safe (suc n)) (omega (arith, length-repeat n))

abbrev long_values : ℕ → Values
long_values n = (codes "A", repeat n) ∷ []

encode_line-repeat : (n : ℕ) → n ≤ length (encode_line (long_values n) (codes "A"))
unfolding encode_line get equal
encode_line-repeat n = omega (arith, quote_value-repeat n)

long_names : (n : ℕ) → All (λ key. matches_key key ≡ true) (keys (long_values n))
unfolding keys matches_key all_of
long_names n = (refl, tt)

long_member : (n : ℕ) → mem (codes "A") (keys (long_values n)) ≡ true
unfolding keys mem equal
long_member n = refl

parse-encode_refused_example :
    (line : ℕ) × (parse (encode (long_values max_value_bytes)) ≡ err (exceeds_limit line))
parse-encode_refused_example =
    parse-encode_refused (long_values max_value_bytes) (codes "A") (long_names max_value_bytes)
      (long_member max_value_bytes) (encode_line-repeat max_value_bytes)

abbrev parsed : Values
parsed = (codes "A", codes "1") ∷ []

parsed_now : parse (codes "# x\nA=1\n") ≡ ok parsed
unfolding parse parse_lines parse_line parse_assignment assign_parts validate_key parse_value
    scan_lines drop_cr trim_space cut_at all_of contains put
parsed_now = refl

name_valid : validate_name (codes "app") (codes "web.api-2") ≡ ok tt
unfolding validate_name all_of
name_valid = refl

validate_name-IsSegment_example : IsSegment (codes "web.api-2")
validate_name-IsSegment_example =
    validate_name-IsSegment (codes "app") (codes "web.api-2") name_valid

abbrev recipient : Bytes
recipient = codes "age1qqqqqqqqqqqqqqqqqqqqqqqqqqqqqqqqqqqqqqqqqqqqqqqqqqqqqqq"

cleaned : clean_recipient (recipient ++ (b'\n' ∷ [])) ≡ ok recipient
unfolding clean_recipient check_recipient trim_line_end contains is_age_recipient has_prefix all_of
cleaned = refl

clean_recipient-IsRecipient_example : IsRecipient recipient
clean_recipient-IsRecipient_example =
    clean_recipient-IsRecipient (recipient ++ (b'\n' ∷ [])) recipient cleaned

validate_policy_iff_example : (validate_policy policy ≡ ok tt) ↔ IsQuorum policy
validate_policy_iff_example = validate_policy_iff policy

abbrev policy_text : Bytes
policy_text =
    codes
      "[policy]\nquorum_m = 2 # of two\n[[operators]]\nname = \"ada\"\nrecipient = \"age1ada1\"\n[[operators]]\nname = \"bob\"\nrecipient = \"age1bob2\"\n"

loaded : load_policy (some policy_text) ≡ ok (some policy)
unfolding load_policy parse_policy split_at trim_space strip_comment cut_at equal has_prefix
    split_assignment atoi unquote contains validate_policy mem
loaded = refl

load_policy-IsQuorum_example : IsQuorum policy
load_policy-IsQuorum_example = load_policy-IsQuorum policy_text policy loaded

plain_fields : HasPlainFields (codes "web") (codes "prod") (codes "5f") (codes "00")
unfolding all_of
plain_fields = record { plain_app = refl; plain_env = refl; plain_sha = refl; plain_nonce = refl }

canonical_message_injective_example :
    (codes "web" ≡ codes "web")
    × (codes "prod" ≡ codes "prod")
    × (codes "a:b" ≡ codes "a:b")
    × (codes "5f" ≡ codes "5f")
    × (codes "00" ≡ codes "00")
canonical_message_injective_example =
    canonical_message_injective (codes "web") (codes "prod") (codes "a:b") (codes "5f") (codes "00")
      (codes "web") (codes "prod") (codes "a:b") (codes "5f") (codes "00") plain_fields plain_fields
      refl
