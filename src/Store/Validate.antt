-- ===== src/Store/Validate.antt =====
-- internal/store/validate.go: names of applications and environments, and recipients.
mod Unique
pub mod Names
pub mod Recipients
use thimble.Base.{
  ℕ, Bool, true, false, not, ◌&&◌, ◌||◌, List, [], ◌∷◌, ◌++◌, none, some, leb, ◌==◌, if◌then◌else◌,
  Bytes, codes, length, take, drop, all_of, has_prefix, contains, cut_at, equal,
}
use thimble.Base.Space.{trim_line_end, drop_while}
use thimble.Base.Sort.{sort_strings}
use thimble.Errors.{
  Result, ok, err, ◌>>=◌, ◌>>◌, require, invalid_name, dotted_name, no_recipients, recipient_empty,
  recipient_whitespace, unknown_recipient,
}
unfoldable pub use Unique.{unique_from}
pub use Unique.{skips, mem-unique_from, unique_from-IsUnique}

abbrev pub within : ℕ → ℕ → ℕ → Bool
within lo hi c = leb lo c && leb c hi

abbrev pub is_alphanumeric : ℕ → Bool
is_alphanumeric c = within b'a' b'z' c || within b'A' b'Z' c || within b'0' b'9' c

unfoldable pub name_rest : ℕ → Bool
name_rest c = is_alphanumeric c || c == b'.' || c == b'_' || c == b'-'

-- namePattern, ^[a-zA-Z0-9][a-zA-Z0-9._-]*$
unfoldable pub matches_name : Bytes → Bool
unfolding name_rest
matches_name [] = false
matches_name (c ∷ cs) = is_alphanumeric c && all_of name_rest cs

-- strings.Contains(name, "..")
unfoldable pub contains_dots : Bytes → Bool
contains_dots [] = false
contains_dots (a ∷ []) = false
contains_dots (a ∷ b ∷ s) = (a == b'.' && b == b'.') || contains_dots (b ∷ s)

unfoldable pub validate_name : Bytes → Bytes → Result (Unit {0})
unfolding matches_name contains_dots
validate_name kind name = do
  require (matches_name name) (invalid_name kind name)
  require (not (contains_dots name)) (dotted_name kind name)

-- [023456789acdefghjklmnpqrstuvwxyz]
unfoldable pub is_bech32 : ℕ → Bool
is_bech32 c =
    c == b'0'
    || within b'2' b'9' c
    || c == b'a'
    || within b'c' b'h' c
    || within b'j' b'n' c
    || within b'p' b'z' c

-- bech32Recipient, ^age1[...]{50,90}$, behind its prefix test
unfoldable pub is_age_recipient : Bytes → Bool
unfolding is_bech32
is_age_recipient s =
    has_prefix s (codes "age1")
    && (let rest = drop 4 s in
        all_of is_bech32 rest && leb 50 (length rest) && leb (length rest) 90)

unfoldable pub is_base64 : ℕ → Bool
is_base64 c = is_alphanumeric c || c == b'+' || c == b'/'

abbrev pub is_padding : Bytes → Bool
is_padding s = equal s [] || equal s (codes "=") || equal s (codes "==")

-- sshBase64, ^[A-Za-z0-9+/]+={0,2}$
unfoldable pub matches_base64 : Bytes → Bool
unfolding is_base64
matches_base64 [] = false
matches_base64 (c ∷ cs) = is_base64 c && is_padding (drop_while is_base64 cs)

-- parts[0] of strings.SplitN(rest, " ", 2)
abbrev pub before_space : Bytes → Bytes
before_space s = elim (cut_at b' ' s) [ none ↦ s | some (l, r) ↦ l ]

-- The tests for an empty rest and an empty blob are cases that the pattern refuses too.
unfoldable pub validate_ssh_payload : Bytes → Bool
unfolding matches_base64
validate_ssh_payload rest = matches_base64 (before_space rest)

unfoldable pub is_ssh_recipient : Bytes → Bool
unfolding validate_ssh_payload
is_ssh_recipient s =
    if has_prefix s (codes "ssh-ed25519 ")
    then validate_ssh_payload (drop 12 s)
    else has_prefix s (codes "ssh-rsa ") && validate_ssh_payload (drop 8 s)

-- truncate
unfoldable pub truncate : Bytes → ℕ → Bytes
truncate s n = if leb (length s) n then s else take n s ++ codes "..."

-- CleanRecipient behind its TrimRight
unfoldable pub check_recipient : Bytes → Result Bytes
unfolding truncate
check_recipient [] = err recipient_empty
check_recipient (c ∷ cs) =
    let trimmed = c ∷ cs in
    if contains (λ b. b == b'\r' || b == b'\n' || b == b'\t') trimmed
    then err recipient_whitespace
    else if is_age_recipient trimmed
    then ok trimmed
    else if is_ssh_recipient trimmed
    then ok trimmed
    else err (unknown_recipient (truncate trimmed 32))

unfoldable pub clean_recipient : Bytes → Result Bytes
clean_recipient recipient = check_recipient (trim_line_end recipient)

-- the loop of CleanRecipients
unfoldable pub clean_each : List Bytes → Result (List Bytes)
clean_each [] = ok []
clean_each (r ∷ rest) = do cleaned ← clean_recipient r; out ← clean_each rest; ok (cleaned ∷ out)

unfoldable pub clean_recipients : List Bytes → Result (List Bytes)
unfolding clean_each
clean_recipients [] = err no_recipients
clean_recipients (r ∷ rest) = clean_each (r ∷ rest)

unfoldable pub validate_recipients : List Bytes → Result (Unit {0})
validate_recipients recipients = do _ ← clean_recipients recipients; ok tt

-- sortedUnique
unfoldable pub sorted_unique : List Bytes → List Bytes
sorted_unique values = sort_strings (unique_from [] values)
