-- ===== src/Cli/Flags.antt =====
-- The flags of a command, by flag.FlagSet of the standard library with flag.ContinueOnError. What
-- it prints about a bad flag is left out.
use thimble.Base.{
  Bool, true, false, not, ◌||◌, Option, none, some, List, [], ◌∷◌, ◌==◌, if◌then◌else◌, Bytes,
  codes, cut_at,
}
use thimble.Base.Dict.{Dict, get, put}
use thimble.Base.Number.{ℤ}
use thimble.Errors.{Result, ok, err, bad_flag}
use thimble.Cli.Arguments.{parse_bool}

-- fs.Bool, fs.String and fs.Int
pub data Kind : Type 0 where
  switch text integer : Kind

-- The kinds of the flags that a command declares, by name.
abbrev pub FlagSet : Type 0
FlagSet = Dict Kind

-- What the arguments give for the flags, the last text of each name.
abbrev pub Given : Type 0
Given = Dict Bytes

-- strconv.ParseInt in base 0, on 64 bits
abbrev pub ParseInt : Type 0
ParseInt = Bytes → Option ℤ

abbrev is_some {ℓ} : {A : Type ℓ} → Option A → Bool
is_some none = false
is_some (some a) = true

-- Whether Value.Set takes the text.
abbrev accepts : ParseInt → Kind → Bytes → Bool
accepts parse_int switch v = is_some (parse_bool v)
accepts parse_int text v = true
accepts parse_int integer v = is_some (parse_int v)

unfoldable pub assign : ParseInt → Option Kind → Bytes → Bytes → Given → Result Given
assign parse_int none name v given = err bad_flag
assign parse_int (some kind) name v given =
    if accepts parse_int kind v then ok (put given name v) else err bad_flag

-- What an argument is to the parser.
pub data Argument : Type 0 where
  positional terminator malformed : Argument
  named : Bytes → Argument
  assigned : Bytes → Bytes → Argument

abbrev flag_argument : Bytes → Argument
flag_argument [] = terminator
flag_argument (c ∷ cs) = if c == b'-' || c == b'=' then malformed else elim (cut_at b'=' (c ∷ cs)) [
  | none ↦ named (c ∷ cs)
  | some (name, value) ↦ assigned name value
]

unfoldable pub read_argument : Bytes → Argument
read_argument [] = positional
read_argument (c ∷ []) = positional
read_argument (c ∷ d ∷ cs) =
    if not (c == b'-')
    then positional
    else if d == b'-'
    then flag_argument cs
    else flag_argument (d ∷ cs)

abbrev pub Parsed : Type 0
Parsed = Result (Given × List Bytes)

abbrev is_switch : Option Kind → Bool
is_switch (some switch) = true
is_switch (some text) = false
is_switch (some integer) = false
is_switch none = true

-- fs.Parse, behind the flags that are given already
unfoldable pub parse_flags : ParseInt → FlagSet → Given → List Bytes → Parsed
unfolding assign read_argument
parse_flags parse_int fs given [] = ok (given, [])
parse_flags parse_int fs given (a ∷ []) = elim (read_argument a) [
  | positional ↦ ok (given, a ∷ [])
  | terminator ↦ ok (given, [])
  | malformed ↦ err bad_flag
  | assigned name v ↦ elim (assign parse_int (get fs name) name v given) [
    | err e ↦ err e
    | ok next ↦ ok (next, [])
  ]
  | named name ↦
      if is_switch (get fs name)
      then elim (assign parse_int (get fs name) name (codes "true") given) [
        | err e ↦ err e
        | ok next ↦ ok (next, [])
      ]
      else err bad_flag
]
parse_flags parse_int fs given (a ∷ b ∷ rest) = elim (read_argument a) [
  | positional ↦ ok (given, a ∷ b ∷ rest)
  | terminator ↦ ok (given, b ∷ rest)
  | malformed ↦ err bad_flag
  | assigned name v ↦ elim (assign parse_int (get fs name) name v given) [
    | err e ↦ err e
    | ok next ↦ parse_flags parse_int fs next (b ∷ rest)
  ]
  | named name ↦ elim (is_switch (get fs name)) [
    | true ↦ elim (assign parse_int (get fs name) name (codes "true") given) [
      | err e ↦ err e
      | ok next ↦ parse_flags parse_int fs next (b ∷ rest)
    ]
    | false ↦ elim (assign parse_int (get fs name) name b given) [
      | err e ↦ err e
      | ok next ↦ parse_flags parse_int fs next rest
    ]
  ]
]

-- The value of a switch that is off by default.
unfoldable pub is_on : Given → Bytes → Bool
is_on given name = elim (get given name) [
  | none ↦ false
  | some v ↦ elim (parse_bool v) [ none ↦ false | some b ↦ b ]
]

-- The value of a flag, or its default.
unfoldable pub text_or : Given → Bytes → Bytes → Bytes
text_or given name default = elim (get given name) [ none ↦ default | some v ↦ v ]

unfoldable pub integer_or : ParseInt → Given → Bytes → ℤ → ℤ
integer_or parse_int given name default = elim (get given name) [
  | none ↦ default
  | some v ↦ elim (parse_int v) [ none ↦ default | some n ↦ n ]
]
