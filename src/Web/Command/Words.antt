-- ===== src/Web/Command/Words.antt =====
-- What a shell makes of the command: its words.
use thimble.Base.{
  ℕ, Bool, true, false, not, ◌≡◌, refl, ap, sym, ◌∙◌, Option, none, some, List, [], ◌∷◌, ◌++◌, map,
  ◌==◌, ◌||◌, if◌then◌else◌, arith, Bytes, codes, all_of, differs, equal, mem, All, Bool-cases, inl,
  inr, append_assoc, append-nil,
}
use thimble.Web.Command.{is_plain, replace_quotes, in_quotes, shell_quote, join_args}

-- Where the shell is: outside of quotes, within single quotes, or within double quotes.
pub data Mode : Type 0 where
  bare single double : Mode

-- The words that have ended, and the one that is read, if any.
pub record Shell : Type 0 where
  pub mode : Mode
  pub words : List Bytes
  pub word : Option Bytes

-- A byte that means itself within double quotes.
abbrev is_literal : ℕ → Bool
is_literal c = not (c == 0 || c == b'$' || c == b'`' || c == b'\\' || c == b'!')

abbrev so_far : Option Bytes → Bytes
so_far none = []
so_far (some w) = w

-- A quote opens a word, which may stay empty.
abbrev turn : Mode → Shell → Shell
turn mode r = record r { mode = mode; word = some (so_far r.word) }

abbrev grow : ℕ → Shell → Shell
grow c r = record r { word = some (so_far r.word ++ (c ∷ [])) }

abbrev end_word : Option Bytes → List Bytes → List Bytes
end_word none words = words
end_word (some w) words = words ++ (w ∷ [])

abbrev step_bare : ℕ → Shell → Option Shell
step_bare c r =
    if c == b' '
    then some (record r { words = end_word r.word r.words; word = none })
    else if c == b'\''
    then some (turn single r)
    else if c == b'"'
    then some (turn double r)
    else if is_plain c
    then some (grow c r)
    else none

abbrev step_single : ℕ → Shell → Option Shell
step_single c r =
    if c == b'\'' then some (turn bare r) else if c == 0 then none else some (grow c r)

abbrev step_double : ℕ → Shell → Option Shell
step_double c r =
    if c == b'"' then some (turn bare r) else if is_literal c then some (grow c r) else none

-- One byte; `none` when it may mean more than itself where it stands.
abbrev step : Mode → ℕ → Shell → Option Shell
step bare = step_bare
step single = step_single
step double = step_double

unfoldable pub feed : Bytes → Option Shell → Option Shell
feed [] r = r
feed (c ∷ cs) none = none
feed (c ∷ cs) (some r) = feed cs (step r.mode c r)

abbrev finish : Mode → Shell → Option (List Bytes)
finish bare r = some (end_word r.word r.words)
finish single r = none
finish double r = none

abbrev pub finished : Option Shell → Option (List Bytes)
finished none = none
finished (some r) = finish r.mode r

abbrev pub before : List Bytes → Shell
before words = record { mode = bare; words = words; word = none }

abbrev pub within_word : Mode → List Bytes → Bytes → Shell
within_word mode words w = record { mode = mode; words = words; word = some w }

-- The bytes before the first space.
unfoldable pub first_token : Bytes → Bytes
first_token [] = []
first_token (c ∷ cs) = if c == b' ' then [] else c ∷ first_token cs

-- The reserved words of a POSIX shell, and those of other shells that the standard lets be reserved.
-- They are recognized where a command's name stands without quotes.
abbrev pub reserved : List Bytes
reserved =
    codes "if"
    ∷ codes "then"
    ∷ codes "else"
    ∷ codes "elif"
    ∷ codes "fi"
    ∷ codes "do"
    ∷ codes "done"
    ∷ codes "case"
    ∷ codes "esac"
    ∷ codes "while"
    ∷ codes "until"
    ∷ codes "for"
    ∷ codes "in"
    ∷ codes "{"
    ∷ codes "}"
    ∷ codes "!"
    ∷ codes "[["
    ∷ codes "]]"
    ∷ codes "function"
    ∷ codes "select"
    ∷ codes "time"
    ∷ codes "coproc"
    ∷ codes "namespace"
    ∷ []

-- The words of a simple command. There are none when the text begins with a reserved word, when it
-- ends within quotes, when it holds NUL, or when a byte outside of single quotes may mean more than
-- itself. A shell's aliases are not looked at.
unfoldable pub shell_words : Bytes → Option (List Bytes)
unfolding feed first_token
shell_words s = if mem (first_token s) reserved then none else finished (feed s (some (before [])))

-- The text is one word, `value`, whatever stands before it and behind.
abbrev pub IsSpelling : Bytes → Bytes → Type 0
IsSpelling text value =
    (words : List Bytes) (rest : Bytes)
    → feed (text ++ rest) (some (before words)) ≡ feed rest (some (within_word bare words value))

append_byte :
    (w : Bytes) (c : ℕ) (cs rest : Bytes) (words : List Bytes)
    → feed rest (some (within_word bare words ((w ++ (c ∷ [])) ++ cs)))
      ≡ feed rest (some (within_word bare words (w ++ (c ∷ cs))))
append_byte w c cs rest words =
    ap (λ t. feed rest (some (within_word bare words t))) (append_assoc w (c ∷ []) cs)

abbrev pub NoNul : Bytes → Type 0
NoNul s = all_of (differs 0) s ≡ true

step_inside :
    (c : ℕ) (r : Shell)
    → (c == b'\'') ≡ false
    → differs 0 c ≡ true
    → step_single c r ≡ some (grow c r)
step_inside c r h k = ground arith

nul_split : (c : ℕ) (cs : Bytes) → NoNul (c ∷ cs) → (differs 0 c ≡ true) × NoNul cs
unfolding all_of
nul_split c cs h = ground arith

feed-replace_quotes :
    (value rest w : Bytes) (words : List Bytes)
    → NoNul value
    → feed (replace_quotes value ++ (b'\'' ∷ rest)) (some (within_word single words w))
      ≡ feed rest (some (within_word bare words (w ++ value)))
unfolding replace_quotes feed
feed-replace_quotes [] rest w words k = rw (append-nil w) refl
feed-replace_quotes (c ∷ cs) rest w words k = elim (Bool-cases (c == b'\'')) [
  | inl quote ↦
      let same : c ≡ b'\'' = ground arith in
      rw (quote, same)
        (feed-replace_quotes cs rest (w ++ (b'\'' ∷ [])) words (nul_split c cs k).1
          ∙ append_byte w b'\'' cs rest words)
  | inr other ↦ rw other (
      ap (feed (replace_quotes cs ++ (b'\'' ∷ rest)))
        (step_inside c (within_word single words w) other (nul_split c cs k).0)
      ∙ feed-replace_quotes cs rest (w ++ (c ∷ [])) words (nul_split c cs k).1
      ∙ append_byte w c cs rest words)
]

step_plain : (c : ℕ) (r : Shell) → is_plain c ≡ true → step_bare c r ≡ some (grow c r)
unfolding is_plain
step_plain c r h = ground arith

plain_split :
    (c : ℕ) (cs : Bytes)
    → all_of is_plain (c ∷ cs) ≡ true
    → (is_plain c ≡ true) × (all_of is_plain cs ≡ true)
unfolding all_of
plain_split c cs h = ground arith

feed_plain :
    (value rest w : Bytes) (words : List Bytes)
    → all_of is_plain value ≡ true
    → feed (value ++ rest) (some (within_word bare words w))
      ≡ feed rest (some (within_word bare words (w ++ value)))
unfolding feed
feed_plain [] rest w words h = rw (append-nil w) refl
feed_plain (c ∷ cs) rest w words h =
    let (plain, others) = plain_split c cs h in
    ap (feed (cs ++ rest)) (step_plain c (within_word bare words w) plain)
    ∙ feed_plain cs rest (w ++ (c ∷ [])) words others
    ∙ append_byte w c cs rest words

-- Plain bytes are a word as they are, unless there are none.
pub plain_text :
    (c : ℕ) (cs : Bytes) → all_of is_plain (c ∷ cs) ≡ true → IsSpelling (c ∷ cs) (c ∷ cs)
unfolding feed
plain_text c cs h words rest =
    let (plain, others) = plain_split c cs h in
    ap (feed (cs ++ rest)) (step_plain c (before words) plain)
    ∙ feed_plain cs rest (c ∷ []) words others

quoted_text : (value : Bytes) → NoNul value → IsSpelling (in_quotes value) value
unfolding feed
quoted_text value k words rest =
    ap (λ t. feed t (some (within_word single words [])))
      (append_assoc (replace_quotes value) (b'\'' ∷ []) rest)
    ∙ feed-replace_quotes value rest [] words k

pub shell_quote-IsSpelling : (value : Bytes) → NoNul value → IsSpelling (shell_quote value) value
unfolding shell_quote equal
shell_quote-IsSpelling [] k = quoted_text [] k
shell_quote-IsSpelling (c ∷ cs) k = elim (Bool-cases (all_of is_plain (c ∷ cs))) [
  | inl plain ↦ rw plain (plain_text c cs plain)
  | inr special ↦ rw special (quoted_text (c ∷ cs) k)
]

first_token-plain :
    (value rest : Bytes)
    → all_of is_plain value ≡ true
    → first_token (value ++ (b' ' ∷ rest)) ≡ value
unfolding first_token all_of is_plain
first_token-plain [] rest h = refl
first_token-plain (c ∷ cs) rest h =
    let (plain, others) = plain_split c cs h in
    let other : (c == b' ') ≡ false = ground arith in
    rw other (ap (◌∷◌ c) (first_token-plain cs rest others))

-- A text in quotes is no reserved word: all of those begin with another byte.
quote_not_reserved : (s : Bytes) → mem (b'\'' ∷ s) reserved ≡ false
unfolding mem equal
quote_not_reserved s = refl

-- The name of a command is reserved only if it is a reserved word itself.
pub shell_quote-unreserved :
    (value rest : Bytes)
    → mem value reserved ≡ false
    → mem (first_token (shell_quote value ++ (b' ' ∷ rest))) reserved ≡ false
unfolding shell_quote first_token equal
shell_quote-unreserved [] rest h = quote_not_reserved _
shell_quote-unreserved (c ∷ cs) rest h = elim (Bool-cases (all_of is_plain (c ∷ cs))) [
  | inl plain ↦ rw (plain, first_token-plain (c ∷ cs) rest plain) h
  | inr special ↦ rw special (quote_not_reserved _)
]

pub shell_words-unreserved :
    (text : Bytes)
    → mem (first_token text) reserved ≡ false
    → shell_words text ≡ finished (feed text (some (before [])))
unfolding shell_words
shell_words-unreserved text h = rw h refl

-- The words of arguments joined by spaces.
pub join_args_read :
    (more : List (Bytes × Bytes)) (text value : Bytes) (words : List Bytes)
    → IsSpelling text value
    → All (λ p. IsSpelling p.0 p.1) more
    → finished (feed (join_args (map (λ p. p.0) more) text) (some (before words)))
      ≡ some (words ++ (value ∷ map (λ p. p.1) more))
unfolding join_args feed
join_args_read [] text value words h hs =
    ap finished (ap (λ t. feed t (some (before words))) (sym (append-nil text)) ∙ h words [])
join_args_read (p ∷ more) text value words h hs =
    ap finished (h words (b' ' ∷ join_args (map (λ q. q.0) more) p.0))
    ∙ join_args_read more p.0 p.1 (words ++ (value ∷ [])) hs.0 hs.1
    ∙ ap some (append_assoc words (value ∷ []) (p.1 ∷ map (λ q. q.1) more))
