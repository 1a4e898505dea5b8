-- ===== src/Passphrase.antt =====
-- internal/passphrase/generator.go: phrases of four compound words.
pub mod Words
pub mod Strength
use thimble.Base.{
  ℕ, zero, suc, Option, none, some, List, [], ◌∷◌, ◌++◌, ltb, if◌then◌else◌, Bytes, length,
}
use thimble.Errors.{Result, ok, err, ◌>>=◌, index_out_of_range, phrase_too_short}
use thimble.Passphrase.Words.{word_starts, word_ends}

-- rand.Int: the n-th number below a bound that the random source gives
abbrev pub Draw : Type 0
Draw = ℕ → ℕ → Result ℕ

abbrev pub word_count : ℕ
word_count = 4

abbrev pub minimum_length : ℕ
minimum_length = 31

-- entries[i], which panics out of range
unfoldable pub entry_at : List Bytes → ℕ → Result Bytes
entry_at [] i = err index_out_of_range
entry_at (x ∷ xs) zero = ok x
entry_at (x ∷ xs) (suc i) = entry_at xs i

unfoldable pub random_entry : Draw → ℕ → List Bytes → Result Bytes
unfolding entry_at
random_entry draw n entries = do i ← draw n (length entries); entry_at entries i

-- the loop of generateFrom, with so many words to come
unfoldable pub generate_words : Draw → ℕ → ℕ → Result (List Bytes)
unfolding random_entry
generate_words draw n zero = ok []
generate_words draw n (suc k) = do
  left ← random_entry draw n word_starts
  right ← random_entry draw (suc n) word_ends
  rest ← generate_words draw (suc (suc n)) k
  ok ((left ++ right) ∷ rest)

-- strings.Join(words, "-")
unfoldable pub join_words : List Bytes → Bytes
join_words [] = []
join_words (w ∷ []) = w
join_words (w ∷ v ∷ ws) = w ++ (b'-' ∷ join_words (v ∷ ws))

-- generateFrom, whose first draw is the n-th
unfoldable pub generate_from : Draw → ℕ → Result Bytes
unfolding generate_words join_words
generate_from draw n = do
  words ← generate_words draw n word_count
  let phrase = join_words words in
      if ltb (length phrase) minimum_length then err phrase_too_short else ok phrase
